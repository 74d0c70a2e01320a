-- ===== src/Proxy/Select/Choice.antt =====
-- What the algorithms of internal/proxy/proxy.go choose from.
use cherry_waf.Base.{
  ℕ, zero, suc, ◌%◌, ◌<◌, String, ◌≡◌, refl, sym, ap, subst, inl, inr, ◌||◌, Option, none, some,
  List, [], ◌∷◌, map, arith, if◌then◌else◌, Bool-cases, length, get_elem?, In, find_first-some,
  ◌==◌, nat_eq, string_eq, text_eq,
}
use cherry_waf.Proxy.{Member, Pool}
use cherry_waf.Proxy.Weighted.{weighted_round_robin, raise, heaviest}
use cherry_waf.Proxy.Select.{
  choose, least_connections, primary_backup, hash_member, member_for_cookie, pick, by_algorithm,
  Request, at_position,
}
use cherry_waf.Proxy.Select.Balance.{primary_backup_best, least_connections_best}
use cherry_waf.Proxy.Weighted.Fairness.{heaviest-In}

get_elem?-In :
    {A : Type 0} (xs : List A) (n : ℕ)
    → n < length xs
    → (x : A) × (get_elem? xs n ≡ some x) × In x xs
get_elem?-In [] n h = elim h [ ]
get_elem?-In (x ∷ xs) zero h = (x, refl, inl refl)
get_elem?-In (x ∷ xs) (suc n) h = let (y, e, i) = get_elem?-In xs n (omega arith) in (y, e, inr i)

at_position-some :
    (n : ℕ) (m : Member) (ms : List Member)
    → (x : Member) × (at_position n (m ∷ ms) ≡ some x) × In x (m ∷ ms)
at_position-some n m ms = get_elem?-In (m ∷ ms) (n % length (m ∷ ms)) (omega arith)

-- A choice names one of the candidates; a weighted round may have moved its current weight meanwhile.
abbrev pub Names : List Member → Option Member → Type 0
Names ms none = ⊥
Names ms (some m) = (x : Member) × In x ms × (x.config ≡ m.config)

Names-some : (ms : List Member) (m : Member) (o : Option Member) → o ≡ some m → In m ms → Names ms o
Names-some ms m o e h = subst (Names ms) (sym e) (m, h, refl)

at_position-Names :
    (n : ℕ) (m : Member) (ms : List Member) → Names (m ∷ ms) (at_position n (m ∷ ms))
at_position-Names n m ms =
    let (x, e, h) = at_position-some n m ms in Names-some (m ∷ ms) x (at_position n (m ∷ ms)) e h

In-raise :
    (m : Member) (ms : List Member)
    → In m (map raise ms)
    → (x : Member) × In x ms × (x.config ≡ m.config)
unfolding raise
In-raise m [] h = elim h [ ]
In-raise m (x ∷ xs) (inl e) = (x, inl refl, ap (λ y. y.config) (sym e))
In-raise m (x ∷ xs) (inr h) = let (y, i, e) = In-raise m xs h in (y, inr i, e)

weighted-Names : (m : Member) (ms : List Member) → Names (m ∷ ms) (weighted_round_robin (m ∷ ms)).0
unfolding weighted_round_robin
weighted-Names m ms =
    In-raise (heaviest (raise m) (map raise ms)) (m ∷ ms) (heaviest-In (raise m) (map raise ms))

choose-Names : (p : Pool) (m : Member) (ms : List Member) → Names (m ∷ ms) (choose p m ms).0
unfolding choose
choose-Names p m ms = elim (Bool-cases (p.config.algorithm == "least_connections")) [
  | inl e ↦ rw e (least_connections m ms, (least_connections_best m ms).0, refl)
  | inr a ↦ rw a (elim (Bool-cases (p.config.algorithm == "weighted_round_robin")) [
    | inl e ↦ rw e (weighted-Names m ms)
    | inr b ↦ rw b (elim (Bool-cases (p.config.algorithm == "primary_backup")) [
      | inl e ↦ rw e (primary_backup m ms, (primary_backup_best m ms).0, refl)
      | inr c ↦ rw c (elim (Bool-cases (p.config.algorithm == "random")) [
        | inl e ↦ rw e (at_position-Names _ m ms)
        | inr d ↦ rw d (at_position-Names _ m ms)
      ])
    ])
  ])
]

module _ (mac : List ℕ → List ℕ) (encode : List ℕ → String) where
  cookie-In :
      (p : Pool) (value : String) (ms : List Member) (x : Member)
      → member_for_cookie mac encode p value ms ≡ some x
      → In x ms
  unfolding member_for_cookie
  cookie-In p value ms x e = (find_first-some _ ms x e).0

  by_algorithm-Names :
      (p : Pool) (r : Request) (m : Member) (ms : List Member)
      → Names (m ∷ ms) (by_algorithm mac encode p r m ms).0
  unfolding by_algorithm hash_member
  by_algorithm-Names p r m ms =
      let hashed = r.persistence_mode == "source_ip" || p.config.algorithm == "source_ip_hash" in
      elim (Bool-cases hashed) [
        | inl e ↦ rw e (at_position-Names _ m ms)
        | inr e ↦ rw e (choose-Names p m ms)
      ]

  pub pick-Names :
      (p : Pool) (r : Request) (m : Member) (ms : List Member)
      → Names (m ∷ ms) (pick mac encode p r (m ∷ ms)).0
  unfolding pick
  pick-Names p r m ms = go (if r.persistence_mode == "cookie" then r.cookie else none)
    where
      found :
          (value : String) (o : Option Member)
          → member_for_cookie mac encode p value (m ∷ ms) ≡ o
          → Names
              (m ∷ ms)
              (elim o as (λ _. Option Member × Pool) [
                | none ↦ by_algorithm mac encode p r m ms
                | some x ↦ (some x, p)
              ]).0
      found value none e = by_algorithm-Names p r m ms
      found value (some x) e = (x, cookie-In p value (m ∷ ms) x e, refl)

      go :
          (o : Option String)
          → Names
              (m ∷ ms)
              (elim o as (λ _. Option Member × Pool) [
                | none ↦ by_algorithm mac encode p r m ms
                | some value ↦ elim (member_for_cookie mac encode p value (m ∷ ms)) [
                  | none ↦ by_algorithm mac encode p r m ms
                  | some x ↦ (some x, p)
                ]
              ]).0
      go none = by_algorithm-Names p r m ms
      go (some value) = found value (member_for_cookie mac encode p value (m ∷ ms)) refl
