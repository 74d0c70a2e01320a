-- ===== src/Proxy/Weighted/Turns.antt =====
-- How often each member is chosen by `weightedRoundRobin` (internal/proxy/proxy.go).
use cherry_waf.Base.{
  ℕ, zero, suc, ◌+◌, ◌*◌, ◌≤◌, ◌<◌, max, String, ◌≡◌, refl, ap, subst, ◌∙◌, List, [], ◌∷◌, map,
  arith, All, nat_eq, string_eq, text_eq,
}
use cherry_waf.Base.Int.{pos, pos_part, neg_part, eq_of_parts}
use native.Mathlib.Decide.{dec_lt}
use cherry_waf.Proxy.{Member, PoolMember, weight_of, update_member, Distinct}
use cherry_waf.Proxy.Weighted.{
  raise, total_weight, heaviest, lower, weighted_round_robin, rounds, note_id,
}
use cherry_waf.Proxy.Weighted.Fairness.{Ledger, Fair, round-Fair, total-pos, times, credit, debt}

-- No round was run yet, or the rounds came out even.
abbrev pub Even : List Member → Type 0
Even = All (λ m. m.current_weight ≡ pos 0)

abbrev configs : List Member → List PoolMember
configs = map (λ m. m.config)

Even-credit : (ms : List Member) → Even ms → (credit ms ≡ 0) × (debt ms ≡ 0)
unfolding credit debt
Even-credit [] h = (refl, refl)
Even-credit (m ∷ ms) h = ground (arith, Even-credit ms h.1)

Even-ledgers : (t : ℕ) (ms : List Member) → 0 < t → Even ms → All (Ledger t 0 []) ms
Even-ledgers t [] p h = tt
Even-ledgers t (m ∷ ms) p h = (ground arith, Even-ledgers t ms p h.1)

start-Fair :
    (m : Member) (rest : List Member)
    → Distinct (m ∷ rest)
    → Even (m ∷ rest)
    → Fair (total_weight (m ∷ rest)) 0 [] (m ∷ rest)
start-Fair m rest d h = record {
  distinct = d;
  weights = refl;
  balanced = omega (arith, Even-credit (m ∷ rest) h);
  ledgers = Even-ledgers (total_weight (m ∷ rest)) (m ∷ rest) (total-pos m rest) h;
}

total-empty : (t n : ℕ) (ids : List String) → Fair t n ids [] → t ≡ 0
unfolding total_weight
total-empty t n ids f = omega (arith, f.weights)

rounds-Fair :
    (n : ℕ) (m : Member) (rest : List Member)
    → Distinct (m ∷ rest)
    → Even (m ∷ rest)
    → let (ids, ms') = rounds n (m ∷ rest) in Fair (total_weight (m ∷ rest)) n ids ms'
unfolding rounds
rounds-Fair zero m rest d h = start-Fair m rest d h
rounds-Fair (suc n) m rest d h =
    let t = total_weight (m ∷ rest) in
    let ids = (rounds n (m ∷ rest)).0 in
    next t n ids (rounds n (m ∷ rest)).1 (total-pos m rest) (rounds-Fair n m rest d h)
  where
    next :
        (t n : ℕ) (ids : List String) (ms : List Member)
        → 0 < t
        → Fair t n ids ms
        → let (chosen, ms') = weighted_round_robin ms in Fair t (suc n) (note_id chosen ids) ms'
    next t n ids [] p f = absurd (omega (arith, total-empty t n ids f))
    next t n ids (x ∷ xs) p f = round-Fair t n ids (x ∷ xs) x xs refl f

configs-raise : (ms : List Member) → configs (map raise ms) ≡ configs ms
unfolding raise
configs-raise [] = refl
configs-raise (m ∷ ms) = ap (◌∷◌ m.config) (configs-raise ms)

configs-update :
    (id : String) (t : ℕ) (ms : List Member) → configs (update_member id (lower t) ms) ≡ configs ms
unfolding update_member
configs-update id t [] = refl
configs-update id t (m ∷ ms) = ground (arith, configs-update id t ms)

configs-round : (ms : List Member) → configs (weighted_round_robin ms).1 ≡ configs ms
unfolding weighted_round_robin
configs-round [] = refl
configs-round (m ∷ ms) =
    configs-update (heaviest (raise m) (map raise ms)).config.id (total_weight (m ∷ ms))
      (map raise (m ∷ ms))
    ∙ configs-raise (m ∷ ms)

configs-rounds : (n : ℕ) (ms : List Member) → configs (rounds n ms).1 ≡ configs ms
unfolding rounds
configs-rounds zero ms = refl
configs-rounds (suc n) ms = configs-round (rounds n ms).1 ∙ configs-rounds n ms

All-configs :
    (P : PoolMember → Type 0) (ms : List Member) → All (λ m. P m.config) ms → All P (configs ms)
All-configs P [] h = tt
All-configs P (m ∷ ms) h = (h.0, All-configs P ms h.1)

All-of_configs :
    (P : PoolMember → Type 0) (ms : List Member) → All P (configs ms) → All (λ m. P m.config) ms
All-of_configs P [] h = tt
All-of_configs P (m ∷ ms) h = (h.0, All-of_configs P ms h.1)

-- A member's turns after `n` rounds stay less than one turn above its share.
bounded-turns :
    (t n : ℕ) (ids : List String) (ms : List Member)
    → All (Ledger t n ids) ms
    → All (λ m. times m.config.id ids * t < n * weight_of m + t) ms
bounded-turns t n ids [] h = tt
bounded-turns t n ids (m ∷ ms) h = (omega (arith, h.0), bounded-turns t n ids ms h.1)

-- In any number of rounds over members with different IDs that start even, no member is chosen as much
-- as one turn more often than its share of the total weight.
pub turns_bounded :
    (n : ℕ) (m : Member) (rest : List Member)
    → Distinct (m ∷ rest)
    → Even (m ∷ rest)
    → All
        (λ x.
          times x.config.id (rounds n (m ∷ rest)).0 * total_weight (m ∷ rest)
          < n * weight_of x + total_weight (m ∷ rest))
        (m ∷ rest)
turns_bounded n m rest d h =
    let t = total_weight (m ∷ rest) in
    let ids = (rounds n (m ∷ rest)).0 in
    let P = λ (c : PoolMember). times c.id ids * t < n * max c.weight 1 + t in
    All-of_configs P (m ∷ rest) (
      subst (All P) (configs-rounds n (m ∷ rest)) (
        All-configs P (rounds n (m ∷ rest)).1
          (bounded-turns t n ids (rounds n (m ∷ rest)).1 (rounds-Fair n m rest d h).ledgers)))

mul_mono : (k w t : ℕ) → w < k → t * w + t ≤ k * t
mul_mono k w t h = grind arith

no_debt : (t w k p q : ℕ) → p + k * t ≡ t * w + q → q < t + p → q ≤ p
no_debt t w k p q e h = elim (dec_lt w k) [
  | yes more ↦ omega (arith, mul_mono k w t more)
  | no less ↦ omega (arith, mul_le k w t (omega arith))
]
  where
    mul_le : (k w t : ℕ) → k ≤ w → k * t ≤ t * w
    mul_le k w t h = grind arith

exact : (t w k : ℕ) → 0 < t → k * t ≡ t * w → k ≡ w
exact t w k h e = elim (dec_lt w k) [
  | yes more ↦ absurd (omega (arith, mul_mono k w t more))
  | no less ↦ elim (dec_lt k w) [
    | yes fewer ↦ absurd (omega (arith, mul_mono w k t fewer))
    | no same ↦ omega arith
  ]
]

abbrev Solvent : List Member → Type 0
Solvent = All (λ m. neg_part m.current_weight ≤ pos_part m.current_weight)

solvent : (t : ℕ) (ids : List String) (ms : List Member) → All (Ledger t t ids) ms → Solvent ms
solvent t ids [] h = tt
solvent t ids (m ∷ ms) h =
    (no_debt t (weight_of m) (times m.config.id ids) _ _ h.0.books h.0.above, solvent t ids ms h.1)

Solvent-le : (ms : List Member) → Solvent ms → debt ms ≤ credit ms
unfolding credit debt
Solvent-le [] h = omega arith
Solvent-le (m ∷ ms) h = omega (arith, Solvent-le ms h.1)

Solvent-Even : (ms : List Member) → Solvent ms → credit ms ≡ debt ms → Even ms
unfolding credit debt
Solvent-Even [] h e = tt
Solvent-Even (m ∷ ms) h e =
    let rest = Solvent-le ms h.1 in
    (eq_of_parts m.current_weight (pos 0) (omega arith), Solvent-Even ms h.1 (omega arith))

-- A member with a current weight of 0 after as many rounds as the total weight had its weight's turns.
Even-turns :
    (t : ℕ) (ids : List String) (ms : List Member)
    → 0 < t
    → All (Ledger t t ids) ms
    → Even ms
    → All (λ m. times m.config.id ids ≡ weight_of m) ms
Even-turns t ids [] p h e = tt
Even-turns t ids (m ∷ ms) p h e = (
  exact t (weight_of m) (times m.config.id ids) p (ground (arith, h.0.books, e.0)),
  Even-turns t ids ms p h.1 e.1,
)

-- Over members with different IDs that start even, as many rounds as their weights sum to choose each
-- member exactly as often as its weight says, and leave the current weights even again.
pub turns_exact :
    (m : Member) (rest : List Member)
    → Distinct (m ∷ rest)
    → Even (m ∷ rest)
    → let (ids, ms') = rounds (total_weight (m ∷ rest)) (m ∷ rest) in
      All (λ x. times x.config.id ids ≡ weight_of x) (m ∷ rest) × Even ms'
turns_exact m rest d h =
    let t = total_weight (m ∷ rest) in
    let ids = (rounds t (m ∷ rest)).0 in
    let ms' = (rounds t (m ∷ rest)).1 in
    let f = rounds-Fair t m rest d h in
    let even = Solvent-Even ms' (solvent t ids ms' f.ledgers) f.balanced in
    let P = λ (c : PoolMember). times c.id ids ≡ max c.weight 1 in
    (
      All-of_configs P (m ∷ rest) (
          subst (All P) (configs-rounds t (m ∷ rest))
            (All-configs P ms' (Even-turns t ids ms' (total-pos m rest) f.ledgers even))),
      even,
    )
