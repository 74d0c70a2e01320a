-- ===== src/Proxy/Weighted/Fairness.antt =====
-- One round of `weightedRoundRobin` (internal/proxy/proxy.go), and the ledger of turns it keeps.
use cherry_waf.Base.{
  ℕ, suc, ◌+◌, ◌*◌, ◌≤◌, ◌<◌, String, ◌≡◌, refl, sym, ap, subst, ◌∙◌, inl, inr, true, false, List,
  [], ◌∷◌, map, arith, eq_iff, if◌then◌else◌, In, All, ◌==◌, ==_refl, nat_eq, string_eq, text_eq,
}
use cherry_waf.Base.Int.{ℤ, pos, pos_part, neg_part, ◌≤ℤ◌, +ℤ_parts, -ℤ_parts}
use native.Mathlib.Decide.{dec_lt}
use cherry_waf.Proxy.{Member, weight_of, update_member, Distinct, Fresh}
use cherry_waf.Proxy.Weighted.{raise, total_weight, heaviest, lower, weighted_round_robin, note_id}

abbrev pub times : String → List String → ℕ
times id [] = 0
times id (x ∷ xs) = if x == id then suc (times id xs) else times id xs

-- The sum of the current weights, as the difference of two numbers.
unfoldable pub credit : List Member → ℕ
credit [] = 0
credit (m ∷ ms) = pos_part m.current_weight + credit ms

unfoldable pub debt : List Member → ℕ
debt [] = 0
debt (m ∷ ms) = neg_part m.current_weight + debt ms

-- After `n` rounds with total weight `t`, of which `ids` were chosen.
pub record Ledger (t n : ℕ) (ids : List String) (m : Member) : Type 0 where
  pub books :
      pos_part m.current_weight + times m.config.id ids * t
      ≡ n * weight_of m + neg_part m.current_weight
  pub above : neg_part m.current_weight < t + pos_part m.current_weight

sum-raise :
    (ms : List Member)
    → credit (map raise ms) + debt ms ≡ credit ms + total_weight ms + debt (map raise ms)
unfolding credit debt total_weight raise
sum-raise [] = omega arith
sum-raise (m ∷ ms) = omega (arith, sum-raise ms, +ℤ_parts m.current_weight (pos (weight_of m)))

total-raise : (ms : List Member) → total_weight (map raise ms) ≡ total_weight ms
unfolding total_weight raise
total-raise [] = refl
total-raise (m ∷ ms) = omega (arith, total-raise ms)

Fresh-raise : (id : String) (ms : List Member) → Fresh id ms → Fresh id (map raise ms)
unfolding raise
Fresh-raise id [] h = tt
Fresh-raise id (m ∷ ms) h = (h.0, Fresh-raise id ms h.1)

Distinct-raise : (ms : List Member) → Distinct ms → Distinct (map raise ms)
unfolding raise
Distinct-raise [] h = tt
Distinct-raise (m ∷ ms) h = (Fresh-raise m.config.id ms h.0, Distinct-raise ms h.1)

abbrev AtMost : ℤ → List Member → Type 0
AtMost z = All (λ m. m.current_weight ≤ℤ z)

AtMost-mono : (a b : ℤ) (ms : List Member) → a ≤ℤ b → AtMost a ms → AtMost b ms
AtMost-mono a b [] h k = tt
AtMost-mono a b (m ∷ ms) h k = (omega arith, AtMost-mono a b ms h k.1)

heaviest_max :
    (s : Member) (ms : List Member)
    → (s.current_weight ≤ℤ (heaviest s ms).current_weight)
      × AtMost (heaviest s ms).current_weight ms
unfolding heaviest
heaviest_max s [] = (omega arith, tt)
heaviest_max s (m ∷ ms) = ground (arith, heaviest_max s ms, heaviest_max m ms)

pub heaviest-In : (s : Member) (ms : List Member) → In (heaviest s ms) (s ∷ ms)
unfolding heaviest
heaviest-In s [] = inl refl
heaviest-In s (m ∷ ms) = ground (arith, heaviest-In s ms, heaviest-In m ms)

sum_nonpos : (ms : List Member) → AtMost (pos 0) ms → credit ms ≤ debt ms
unfolding credit debt
sum_nonpos [] h = omega arith
sum_nonpos (m ∷ ms) h = omega (arith, sum_nonpos ms h.1)

update_absent :
    (id : String) (f : Member → Member) (ms : List Member)
    → Fresh id ms
    → update_member id f ms ≡ ms
unfolding update_member
update_absent id f [] h = refl
update_absent id f (m ∷ ms) h = rw (h.0, update_absent id f ms h.1)

Fresh-In :
    (id : String) (s : Member) (ms : List Member)
    → Fresh id ms
    → In s ms
    → (s.config.id == id) ≡ false
Fresh-In id s (m ∷ ms) f (inl e) = rw e f.0
Fresh-In id s (m ∷ ms) f (inr h) = Fresh-In id s ms f.1 h
Fresh-In id s [] f h = elim h [ ]

sum-lower :
    (s : Member) (t : ℕ) (ms : List Member)
    → Distinct ms
    → In s ms
    → let ms' = update_member s.config.id (lower t) ms in
      credit ms' + t + debt ms ≡ credit ms + debt ms'
unfolding credit debt update_member
sum-lower s t [] d h = elim h [ ]
sum-lower s t (m ∷ ms) d (inl e) =
    let id : s.config.id ≡ m.config.id = ap (λ x. x.config.id) e in
    let same : (m.config.id == s.config.id) ≡ true = (eq_iff m.config.id s.config.id).1 (sym id) in
    let absent = update_absent s.config.id (lower t) ms (subst (λ k. Fresh k ms) (sym id) d.0) in
    rw same (rw absent (omega (arith, -ℤ_parts m.current_weight (pos t))))
sum-lower s t (m ∷ ms) d (inr h) =
    let other : (m.config.id == s.config.id) ≡ false = ground (
      arith,
      Fresh-In m.config.id s ms d.0 h,
      eq_iff m.config.id s.config.id,
      eq_iff s.config.id m.config.id,
    ) in
    rw other (omega (arith, sum-lower s t ms d.1 h))

-- The members between two rounds: distinct, with current weights that cancel out and the books of each.
pub record Fair (t n : ℕ) (ids : List String) (ms : List Member) : Type 0 where
  pub distinct : Distinct ms
  pub weights : total_weight ms ≡ t
  pub balanced : credit ms ≡ debt ms
  pub ledgers : All (Ledger t n ids) ms

raise-Ledger :
    (t n : ℕ) (ids : List String) (m : Member) → Ledger t n ids m → Ledger t (suc n) ids (raise m)
unfolding raise
raise-Ledger t n ids m l = omega (arith, +ℤ_parts m.current_weight (pos (weight_of m)))

raise-ledgers :
    (t n : ℕ) (ids : List String) (ms : List Member)
    → All (Ledger t n ids) ms
    → All (Ledger t (suc n) ids) (map raise ms)
raise-ledgers t n ids [] h = tt
raise-ledgers t n ids (m ∷ ms) h = (raise-Ledger t n ids m h.0, raise-ledgers t n ids ms h.1)

-- A member that was not chosen keeps its books.
pass-Ledger :
    (t n : ℕ) (ids : List String) (id : String) (m : Member)
    → (m.config.id == id) ≡ false
    → Ledger t n ids m
    → Ledger t n (id ∷ ids) m
pass-Ledger t n ids id m h l =
    ground (arith, l.books, l.above, eq_iff m.config.id id, eq_iff id m.config.id)

pass-ledgers :
    (t n : ℕ) (ids : List String) (id : String) (ms : List Member)
    → Fresh id ms
    → All (Ledger t n ids) ms
    → All (Ledger t n (id ∷ ids)) ms
pass-ledgers t n ids id [] f h = tt
pass-ledgers t n ids id (m ∷ ms) f h =
    (pass-Ledger t n ids id m f.0 h.0, pass-ledgers t n ids id ms f.1 h.1)

lower-Ledger :
    (t n : ℕ) (ids : List String) (m : Member)
    → neg_part m.current_weight < pos_part m.current_weight
    → Ledger t n ids m
    → Ledger t n (m.config.id ∷ ids) (lower t m)
lower-Ledger t n ids m h l =
    let parts = -ℤ_parts m.current_weight (pos t) in
    record {
      books = rw (==_refl m.config.id) (omega (arith, l.books, parts));
      above = omega (arith, h, l, parts);
    }

lower-ledgers :
    (t n : ℕ) (ids : List String) (s : Member) (ms : List Member)
    → Distinct ms
    → In s ms
    → neg_part s.current_weight < pos_part s.current_weight
    → All (Ledger t n ids) ms
    → All (Ledger t n (s.config.id ∷ ids)) (update_member s.config.id (lower t) ms)
unfolding update_member
lower-ledgers t n ids s [] d h w l = tt
lower-ledgers t n ids s (m ∷ ms) d (inl e) w l =
    let id : s.config.id ≡ m.config.id = ap (λ x. x.config.id) e in
    let same : (m.config.id == s.config.id) ≡ true = (eq_iff m.config.id s.config.id).1 (sym id) in
    let fresh : Fresh s.config.id ms = subst (λ k. Fresh k ms) (sym id) d.0 in
    rw (same, update_absent s.config.id (lower t) ms fresh)
      (
        rw id (
            lower-Ledger t n ids m
              (subst (λ x. neg_part x.current_weight < pos_part x.current_weight) e w) l.0),
        pass-ledgers t n ids s.config.id ms fresh l.1,
      )
lower-ledgers t n ids s (m ∷ ms) d (inr h) w l =
    let other = Fresh-In m.config.id s ms d.0 h in
    let other' : (m.config.id == s.config.id) ≡ false =
      ground (arith, other, eq_iff m.config.id s.config.id, eq_iff s.config.id m.config.id) in
    rw other' (pass-Ledger t n ids s.config.id m other' l.0, lower-ledgers t n ids s ms d.1 h w l.1)

total-update :
    (id : String) (t : ℕ) (ms : List Member)
    → total_weight (update_member id (lower t) ms) ≡ total_weight ms
unfolding total_weight update_member
total-update id t [] = refl
total-update id t (m ∷ ms) = ground (arith, total-update id t ms)

Fresh-update :
    (k id : String) (t : ℕ) (ms : List Member)
    → Fresh k ms
    → Fresh k (update_member id (lower t) ms)
unfolding update_member
Fresh-update k id t [] h = tt
Fresh-update k id t (m ∷ ms) h = ground (arith, Fresh-update k id t ms h.1)

Distinct-update :
    (id : String) (t : ℕ) (ms : List Member)
    → Distinct ms
    → Distinct (update_member id (lower t) ms)
unfolding update_member
Distinct-update id t [] h = tt
Distinct-update id t (m ∷ ms) h =
    ground (arith, Distinct-update id t ms h.1, Fresh-update m.config.id id t ms h.0)

-- The heaviest of members whose weights sum to more than nothing is above nothing.
heaviest_pos :
    (s : Member) (ms : List Member)
    → debt (s ∷ ms) < credit (s ∷ ms)
    → neg_part (heaviest s ms).current_weight < pos_part (heaviest s ms).current_weight
heaviest_pos s ms h =
    let z = (heaviest s ms).current_weight in
    let top = heaviest_max s ms in
    elim (dec_lt (neg_part z) (pos_part z)) [
      | yes p ↦ p
      | no p ↦
          let low = AtMost-mono z (pos 0) (s ∷ ms) (omega arith) top in
          absurd (omega (arith, sum_nonpos (s ∷ ms) low))
    ]

pub total-pos : (m : Member) (ms : List Member) → 0 < total_weight (m ∷ ms)
unfolding total_weight
total-pos m ms = omega arith

pub round-Fair :
    (t n : ℕ) (ids : List String) (ms : List Member) (m : Member) (rest : List Member)
    → ms ≡ m ∷ rest
    → Fair t n ids ms
    → let (chosen, ms') = weighted_round_robin ms in Fair t (suc n) (note_id chosen ids) ms'
unfolding weighted_round_robin
round-Fair t n ids [] m rest e f = cc
round-Fair t n ids (x ∷ xs) m rest e f =
    let ms = map raise (x ∷ xs) in
    let s = heaviest (raise x) (map raise xs) in
    let inside = heaviest-In (raise x) (map raise xs) in
    let sum = sum-raise (x ∷ xs) in
    let low = sum-lower s t ms (Distinct-raise (x ∷ xs) f.distinct) inside in
    rw f.weights (record {
      distinct = Distinct-update s.config.id t ms (Distinct-raise (x ∷ xs) f.distinct);
      weights = total-update s.config.id t ms ∙ total-raise (x ∷ xs) ∙ f.weights;
      balanced = omega (arith, f.balanced, f.weights, sum, low);
      ledgers =
          lower-ledgers t (suc n) ids s ms (Distinct-raise (x ∷ xs) f.distinct) inside
            (heaviest_pos (raise x) (map raise xs) (omega (arith, f.balanced, sum, total-pos x xs)))
            (raise-ledgers t n ids (x ∷ xs) f.ledgers);
    })
