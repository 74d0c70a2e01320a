-- ===== src/Base/Assoc.antt =====
-- Go maps as association lists in which each key stands once: `put` overwrites or appends, `drop_key`
-- deletes, and a missing key reads as `none`.
use cherry_waf.Base.{
  ◌+◌, ◌≤◌, ◌≡◌, refl, Bool, true, List, [], ◌∷◌, Option, none, some, arith, if◌then◌else◌, Eq,
  ◌==◌, length, keep_if, Option-cases, inl, inr, false,
}

module _ {ℓ κ} {K : Type ℓ} {V : Type κ} ⦃e : Eq K⦄ where
  unfoldable pub get : K → List (K × V) → Option V
  get k [] = none
  get k ((j, v) ∷ m) = if j == k then some v else get k m

  unfoldable pub put : K → V → List (K × V) → List (K × V)
  put k v [] = (k, v) ∷ []
  put k v ((j, w) ∷ m) = if j == k then (k, v) ∷ m else (j, w) ∷ put k v m

  unfoldable pub drop_key : K → List (K × V) → List (K × V)
  drop_key k [] = []
  drop_key k ((j, w) ∷ m) = let rest = drop_key k m in if j == k then rest else (j, w) ∷ rest

  pub get-put :
      (k j : K) (v : V) (m : List (K × V))
      → get j (put k v m) ≡ (if k == j then some v else get j m)
  unfolding get put
  get-put k j v [] = refl
  get-put k j v ((i, w) ∷ m) =
      ground (arith, e.same_iff k j, e.same_iff i k, e.same_iff i j, get-put k j v m)

  pub get-put_self : (k : K) (v : V) (m : List (K × V)) → get k (put k v m) ≡ some v
  get-put_self k v m = ground (arith, get-put k k v m, e.same_iff k k)

  pub get-put_ne :
      (k j : K) (v : V) (m : List (K × V)) → (k == j) ≡ false → get j (put k v m) ≡ get j m
  get-put_ne k j v m h = ground (arith, get-put k j v m)

  pub get-drop_key :
      (k j : K) (m : List (K × V)) → get j (drop_key k m) ≡ (if k == j then none else get j m)
  unfolding get drop_key
  get-drop_key k j [] = ground arith
  get-drop_key k j ((i, w) ∷ m) =
      ground (arith, e.same_iff k j, e.same_iff i k, e.same_iff i j, get-drop_key k j m)

  pub length-put-le : (k : K) (v : V) (m : List (K × V)) → length (put k v m) ≤ length m + 1
  unfolding put
  length-put-le k v [] = omega arith
  length-put-le k v ((j, w) ∷ m) = ground (arith, length-put-le k v m)

  pub length-drop_key-le : (k : K) (m : List (K × V)) → length (drop_key k m) ≤ length m
  unfolding drop_key
  length-drop_key-le k [] = omega arith
  length-drop_key-le k ((j, w) ∷ m) = ground (arith, length-drop_key-le k m)

  -- No key stands twice.
  abbrev pub Keyed : List (K × V) → Type κ
  Keyed [] = Unit
  Keyed ((j, w) ∷ m) = (get j m ≡ none) × Keyed m

  pub put-Keyed : (k : K) (v : V) (m : List (K × V)) → Keyed m → Keyed (put k v m)
  unfolding put get
  put-Keyed k v [] h = (refl, tt)
  put-Keyed k v ((j, w) ∷ m) h =
      ground (arith, e.same_iff j k, e.same_iff k j, get-put k j v m, put-Keyed k v m h.1)

  pub get-keep_if-none :
      (p : K × V → Bool) (k : K) (m : List (K × V)) → get k m ≡ none → get k (keep_if p m) ≡ none
  unfolding get keep_if
  get-keep_if-none p k [] h = refl
  get-keep_if-none p k ((j, w) ∷ m) h = ground (arith, get-keep_if-none p k m)

  pub keep_if-Keyed : (p : K × V → Bool) (m : List (K × V)) → Keyed m → Keyed (keep_if p m)
  unfolding keep_if
  keep_if-Keyed p [] h = tt
  keep_if-Keyed p ((j, w) ∷ m) h = ground (arith, keep_if-Keyed p m h.1, get-keep_if-none p j m h.0)

  -- A filter on entries keeps exactly the bindings that pass, since keys are distinct.
  pub get-keep_if-some :
      (p : K × V → Bool) (k : K) (v : V) (m : List (K × V))
      → Keyed m
      → get k m ≡ some v
      → get k (keep_if p m) ≡ (if p (k, v) then some v else none)
  unfolding get keep_if
  get-keep_if-some p k v [] d h = cc
  get-keep_if-some p k v ((j, w) ∷ m) d h =
      ground (arith, e.same_iff j k, get-keep_if-some p k v m d.1, get-keep_if-none p k m)

  pub get-keep_if :
      (p : K × V → Bool) (k : K) (v : V) (m : List (K × V))
      → Keyed m
      → get k (keep_if p m) ≡ some v
      → (get k m ≡ some v) × (p (k, v) ≡ true)
  get-keep_if p k v m d h = elim (Option-cases (get k m)) [
    | inl no_entry ↦ ground (arith, get-keep_if-none p k m no_entry)
    | inr (w, found) ↦ ground (arith, get-keep_if-some p k w m d found)
  ]
