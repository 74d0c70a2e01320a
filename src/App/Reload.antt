-- ===== src/App/Reload.antt =====
-- Reload, compatibleForHotReload and closeRuntimes of internal/app/app.go. What core.Build returns is an
-- input; a runtime is any type with a configuration. Reloads exclude each other by a mutex.
use cherry_waf.Base.{
  ℕ, ◌+◌, ◌≡◌, refl, subst, ◌∙◌, inl, inr, Bool, true, false, not, ◌&&◌, Option, none, some, List,
  [], ◌∷◌, ◌++◌, arith, if◌then◌else◌, nat_beq, Bool-cases, ◌==◌, nat_eq, string_eq, text_eq,
}
use cherry_waf.Config.Types.{Config}

abbrev pub same_bool : Bool → Bool → Bool
same_bool true b = b
same_bool false b = not b

-- What needs a restart to change.
abbrev pub same_listeners : Config → Config → Bool
same_listeners a b =
    same_bool a.http.enabled b.http.enabled
    && a.http.listen == b.http.listen
    && same_bool a.https.enabled b.https.enabled
    && a.https.listen == b.https.listen
    && same_bool a.admin.enabled b.admin.enabled
    && a.admin.listen == b.admin.listen
    && nat_beq a.security.max_header_bytes b.security.max_header_bytes

-- `App`, with the runtimes that were closed so far, in order, and two counters of its metrics.
pub record App (R : Type 0) : Type 0 where
  pub current : Option R
  pub retired : List R
  pub closed : List R
  pub reloads : ℕ
  pub failures : ℕ

abbrev pub list_of : {R : Type 0} → Option R → List R
list_of none = []
list_of (some r) = r ∷ []

-- `New`, with the first runtime.
abbrev pub opened : {R : Type 0} → R → App R
opened r = record { current = some r; retired = []; closed = []; reloads = 0; failures = 0 }

-- `closeRuntimes`
unfoldable pub close_runtimes : {R : Type 0} → App R → App R
close_runtimes a = record a {
  current = none;
  retired = [];
  closed = a.closed ++ (list_of a.current ++ a.retired);
}

module _ {R : Type 0} (config : R → Config) where
  -- `compatibleForHotReload`
  unfoldable pub compatible : Option R → R → Bool
  compatible none next = true
  compatible (some old) next = same_listeners (config old) (config next)

  abbrev pub fail : App R → App R
  fail a = record a { failures = a.failures + 1 }

  -- `Reload`, of what was built, with whether it succeeds.
  unfoldable pub reload : App R → Option R → App R × Bool
  unfolding compatible
  reload a none = (fail a, false)
  reload a (some next) =
      if not (compatible a.current next)
      then (fail (record a { closed = a.closed ++ next ∷ [] }), false)
      else (
        record a {
          current = some next;
          retired = a.retired ++ list_of a.current;
          reloads = a.reloads + 1;
        },
        true,
      )

  unfoldable pub reload_all : App R → List (Option R) → App R
  unfolding reload
  reload_all a [] = a
  reload_all a (b ∷ bs) = reload_all (reload a b).0 bs

  -- How many runtimes of a list pass a test.
  abbrev pub count : (R → Bool) → List R → ℕ
  count p [] = 0
  count p (r ∷ rs) = (if p r then 1 else 0) + count p rs

  abbrev pub built : List (Option R) → List R
  built [] = []
  built (none ∷ bs) = built bs
  built (some r ∷ bs) = r ∷ built bs

  count-append : (p : R → Bool) (xs ys : List R) → count p (xs ++ ys) ≡ count p xs + count p ys
  count-append p [] ys = omega arith
  count-append p (x ∷ xs) ys = omega (arith, count-append p xs ys)

  abbrev pub held : (R → Bool) → App R → ℕ
  held p a = count p (list_of a.current) + count p a.retired + count p a.closed

  held-reload :
      (p : R → Bool) (a : App R) (next : R)
      → held p (reload a (some next)).0 ≡ held p a + (if p next then 1 else 0)
  unfolding reload
  held-reload p a next = elim (Bool-cases (compatible a.current next)) [
    | inl c ↦ rw c (omega (arith, count-append p a.retired (list_of a.current)))
    | inr c ↦ rw c (omega (arith, count-append p a.closed (next ∷ [])))
  ]

  held-reload_all :
      (p : R → Bool) (a : App R) (bs : List (Option R))
      → held p (reload_all a bs) ≡ held p a + count p (built bs)
  unfolding reload_all reload
  held-reload_all p a [] = omega arith
  held-reload_all p a (none ∷ bs) = held-reload_all p (fail a) bs
  held-reload_all p a (some r ∷ bs) =
      held-reload_all p (reload a (some r)).0 bs ∙ omega (arith, held-reload p a r)

  -- After any reloads, closing the program closes each runtime that was ever built exactly once,
  -- whether it was served or refused: for any test, as many were closed as were built.
  pub closed_once :
      (p : R → Bool) (first : R) (bs : List (Option R))
      → count p (close_runtimes (reload_all (opened first) bs)).closed ≡ count p (first ∷ built bs)
  unfolding close_runtimes
  closed_once p first bs =
      let a = reload_all (opened first) bs in
      omega (
        arith,
        count-append p a.closed (list_of a.current ++ a.retired),
        count-append p (list_of a.current) a.retired,
        held-reload_all p (opened first) bs,
      )

same_listeners_refl : (a : Config) → same_listeners a a ≡ true
same_listeners_refl a = ground (
  arith,
  text_eq.same_iff a.http.listen a.http.listen,
  text_eq.same_iff a.https.listen a.https.listen,
  text_eq.same_iff a.admin.listen a.admin.listen,
)

same_listeners_trans :
    (a b c : Config)
    → same_listeners a b ≡ true
    → same_listeners b c ≡ true
    → same_listeners a c ≡ true
same_listeners_trans a b c h k = ground (
  arith,
  h,
  k,
  text_eq.same_iff a.http.listen b.http.listen,
  text_eq.same_iff b.http.listen c.http.listen,
  text_eq.same_iff a.http.listen c.http.listen,
  text_eq.same_iff a.https.listen b.https.listen,
  text_eq.same_iff b.https.listen c.https.listen,
  text_eq.same_iff a.https.listen c.https.listen,
  text_eq.same_iff a.admin.listen b.admin.listen,
  text_eq.same_iff b.admin.listen c.admin.listen,
  text_eq.same_iff a.admin.listen c.admin.listen,
)

module _ {R : Type 0} (config : R → Config) where
  abbrev Serving : Config → App R → Type 0
  Serving c a = (r : R) × (a.current ≡ some r) × (same_listeners c (config r) ≡ true)

  reload-Serving :
      (c : Config) (a : App R) (o : Option R) → Serving c a → Serving c (reload config a o).0
  unfolding reload compatible
  reload-Serving c a none s = s
  reload-Serving c a (some next) (r, e, same) =
      elim (Bool-cases (compatible config a.current next)) [
        | inr k ↦ rw k (r, e, same)
        | inl k ↦ rw k (
          next,
          refl,
          same_listeners_trans c (config r) (config next) same
              (subst (λ o. compatible config o next ≡ true) e k),
        )
      ]

  reload_all-Serving :
      (c : Config) (a : App R) (bs : List (Option R))
      → Serving c a
      → Serving c (reload_all config a bs)
  unfolding reload_all
  reload_all-Serving c a [] s = s
  reload_all-Serving c a (b ∷ bs) s =
      reload_all-Serving c (reload config a b).0 bs (reload-Serving c a b s)

  -- A runtime is served, whose three listeners are on or off and at the addresses of the configuration
  -- given, with its limit on the size of headers.
  abbrev pub Serves : Config → App R → Type 0
  Serves c a =
      (r : R) × (a.current ≡ some r)
      × ((config r).http.enabled ≡ c.http.enabled)
      × ((config r).http.listen ≡ c.http.listen)
      × ((config r).https.enabled ≡ c.https.enabled)
      × ((config r).https.listen ≡ c.https.listen)
      × ((config r).admin.enabled ≡ c.admin.enabled)
      × ((config r).admin.listen ≡ c.admin.listen)
      × ((config r).security.max_header_bytes ≡ c.security.max_header_bytes)

  Serving-Serves : (c : Config) (a : App R) → Serving c a → Serves c a
  Serving-Serves c a (r, e, same) = (
    r,
    e,
    ground (arith, same),
    ground (arith, same, text_eq.same_iff c.http.listen (config r).http.listen),
    ground (arith, same),
    ground (arith, same, text_eq.same_iff c.https.listen (config r).https.listen),
    ground (arith, same),
    ground (arith, same, text_eq.same_iff c.admin.listen (config r).admin.listen),
    ground (arith, same),
  )

  -- After any reloads, failed ones among them, a runtime is served whose HTTP, HTTPS and admin listeners
  -- are each enabled or not, and at the address, and whose limit on headers is, as when the program was
  -- started.
  pub reloads_keep_listeners :
      (first : R) (bs : List (Option R))
      → Serves (config first) (reload_all config (opened first) bs)
  reloads_keep_listeners first bs =
      Serving-Serves (config first) (reload_all config (opened first) bs) (
        reload_all-Serving (config first) (opened first) bs
          (first, refl, same_listeners_refl (config first)))
