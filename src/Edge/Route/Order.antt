-- ===== src/Edge/Route/Order.antt =====
-- The wildcard match of Route in internal/core/runtime.go and the order of the map.
use mathlib.Core.List.{reverse, reverse-append, reverse-reverse}
use cherry_waf.Base.{
  ◌≡◌, refl, sym, ap, subst, ◌∙◌, ◌↔◌, ◌⊎◌, inl, inr, true, false, Option, none, some, List, [],
  ◌∷◌, ◌++◌, arith, ltb, if◌then◌else◌, nat_beq_iff, Bool-cases, Option-cases, In, any, find_first,
  find_first-some, find_first-none, ◌==◌, Text, nat_eq, string_eq, text_eq, byte_len, strip_prefix,
  strip_suffix,
}
use cherry_waf.Base.Assoc.{get, Keyed}
use cherry_waf.Edge.Route.{covers, insert_suffix, sort_suffixes, route_of, wildcard_route}

strip_prefix-some : (p s r : Text) → strip_prefix p s ≡ some r → s ≡ p ++ r
unfolding strip_prefix
strip_prefix-some [] s r h = ground (arith, h)
strip_prefix-some (x ∷ ps) [] r h = cc
strip_prefix-some (x ∷ ps) (c ∷ cs) r h =
    ground (arith, h, strip_prefix-some ps cs r, nat_beq_iff x c)

-- What follows the first dot.
unfoldable pub after_dot : Text → Text
after_dot [] = []
after_dot (c ∷ cs) = if c == b'.' then cs else after_dot cs

after_dot-append :
    (left suffix : Text)
    → any (λ c. c == b'.') left ≡ false
    → after_dot (left ++ b'.' ∷ suffix) ≡ suffix
unfolding after_dot
after_dot-append [] suffix h = refl
after_dot-append (c ∷ cs) suffix h = ground (arith, h, after_dot-append cs suffix)

strip_suffix-some : (suffix s left : Text) → strip_suffix suffix s ≡ some left → s ≡ left ++ suffix
unfolding strip_suffix
strip_suffix-some suffix s left h =
    elim (Option-cases (strip_prefix (reverse suffix) (reverse s))) [
      | inl e ↦ absurd (ground (arith, h, e))
      | inr (r, e) ↦
          sym (reverse-reverse s)
          ∙ ap reverse (strip_prefix-some (reverse suffix) (reverse s) r e)
          ∙ reverse-append (reverse suffix) r
          ∙ ap (λ x. x ++ reverse (reverse suffix)) (ground (arith, h, e))
          ∙ ap (λ x. left ++ x) (reverse-reverse suffix)
    ]

pub covers-after_dot : (host suffix : Text) → covers host suffix ≡ true → after_dot host ≡ suffix
unfolding covers
covers-after_dot host suffix h = elim (Option-cases (strip_suffix (b'.' ∷ suffix) host)) [
  | inl e ↦ absurd (ground (arith, h, e))
  | inr (left, e) ↦
      ap after_dot (strip_suffix-some (b'.' ∷ suffix) host left e)
      ∙ after_dot-append left suffix (ground (arith, h, e))
]

module _ {R : Type 0} where
  In-insert_suffix :
      (e x : Text × R) (xs : List (Text × R)) → In e (insert_suffix x xs) ↔ ((e ≡ x) ⊎ In e xs)
  unfolding insert_suffix
  In-insert_suffix e x [] = ((λ h. h), (λ h. h))
  In-insert_suffix e x (y ∷ ys) = elim (Bool-cases (ltb (byte_len x.0) (byte_len y.0))) [
    | inl l ↦ rw l (
      (λ h. elim h [
        | inl a ↦ inr (inl a)
        | inr m ↦ elim ((In-insert_suffix e x ys).0 m) [ inl a ↦ inl a | inr n ↦ inr (inr n) ]
      ]),
      (λ h. elim h [
        | inl a ↦ inr ((In-insert_suffix e x ys).1 (inl a))
        | inr m ↦ elim m [ inl a ↦ inl a | inr n ↦ inr ((In-insert_suffix e x ys).1 (inr n)) ]
      ]),
    )
    | inr l ↦ rw l ((λ h. h), (λ h. h))
  ]

  In-sort_suffixes : (e : Text × R) (xs : List (Text × R)) → In e (sort_suffixes xs) ↔ In e xs
  unfolding sort_suffixes
  In-sort_suffixes e [] = ((λ h. h), (λ h. h))
  In-sort_suffixes e (x ∷ xs) =
      let ih = In-sort_suffixes e xs in
      let step = In-insert_suffix e x (sort_suffixes xs) in
      (
        (λ h. elim (step.0 h) [ inl a ↦ inl a | inr m ↦ inr (ih.0 m) ]),
        (λ h. elim h [ inl a ↦ step.1 (inl a) | inr m ↦ step.1 (inr (ih.1 m)) ]),
      )

  get-In : (k : Text) (v : R) (m : List (Text × R)) → get k m ≡ some v → In (k, v) m
  unfolding get
  get-In k v [] h = absurd (ground (arith, h))
  get-In k v ((j, w) ∷ m) h = elim (Bool-cases (j == k)) [
    | inl e ↦ inl (ground (arith, h, e, text_eq.same_iff j k))
    | inr e ↦ inr (get-In k v m (ground (arith, h, e)))
  ]

  In-get : (k : Text) (v : R) (m : List (Text × R)) → Keyed m → In (k, v) m → get k m ≡ some v
  unfolding get
  In-get k v [] d h = elim h [ ]
  In-get k v ((j, w) ∷ m) d (inl e) =
      ground (arith, ap (λ x. x.0) e, ap (λ x. x.1) e, text_eq.same_iff j k)
  In-get k v ((j, w) ∷ m) d (inr h) = elim (Bool-cases (j == k)) [
    | inl e ↦ absurd (ground (arith, d.0, In-get k v m d.1 h, (text_eq.same_iff j k).0 e))
    | inr e ↦ rw e (In-get k v m d.1 h)
  ]

  -- What the scan answers with, for what it found.
  scanned :
      (host : Text) (ws : List (Text × R)) (found : Option (Text × R))
      → Keyed ws
      → find_first (λ e. covers host e.0) (sort_suffixes ws) ≡ found
      → route_of found ≡ (if covers host (after_dot host) then get (after_dot host) ws else none)
  scanned host ws none d h = elim (Bool-cases (covers host (after_dot host))) [
    | inr off ↦ ground (arith, off)
    | inl on ↦ elim (Option-cases (get (after_dot host) ws)) [
      | inl missing ↦ ground (arith, on, missing)
      | inr (r, e) ↦ absurd (
          ground (
            arith,
            on,
            find_first-none (λ x. covers host x.0) (sort_suffixes ws) (after_dot host, r) h
                ((In-sort_suffixes (after_dot host, r) ws).1 (get-In (after_dot host) r ws e)),
          ))
    ]
  ]
  scanned host ws (some (s, r)) d h =
      let here = find_first-some (λ e. covers host e.0) (sort_suffixes ws) (s, r) h in
      let same : after_dot host ≡ s = covers-after_dot host s here.1 in
      subst (λ x. some r ≡ (if covers host x then get x ws else none)) (sym same)
        (ground (arith, here.1, In-get s r ws d ((In-sort_suffixes (s, r) ws).0 here.0)))

  -- In whatever order the map of wildcards is iterated, the scan of its sorted suffixes is one lookup:
  -- of what follows the host's first dot, where one label stands before it.
  pub wildcard_lookup :
      (host : Text) (ws : List (Text × R))
      → Keyed ws
      → wildcard_route host ws
        ≡ (if covers host (after_dot host) then get (after_dot host) ws else none)
  unfolding wildcard_route
  wildcard_lookup host ws d =
      scanned host ws (find_first (λ e. covers host e.0) (sort_suffixes ws)) d refl
