-- ===== src/Proxy/Select/Eligible.antt =====
-- Who is a candidate: `eligible` and the fall-back of selectMember in internal/proxy/proxy.go.
use cherry_waf.Base.{
  ◌<◌, String, ◌≡◌, refl, sym, ap, subst, ◌⊎◌, inl, inr, Bool, true, false, not, List, [], ◌∷◌,
  arith, ltb, lt→ltb, nat_beq, nat_beq_iff, Bool-cases, length, In, keep_if, In-keep_if,
  In-keep_if_of, ◌==◌, nat_eq, string_eq, text_eq,
}
use cherry_waf.Proxy.{Member, Pool}
use cherry_waf.Proxy.Select.{usable, eligible, candidates}

-- Why a member may stand among those eligible: it may be used, and a backup only if no primary may.
pub record Eligible (p : Pool) (excluded : List String) (u : Bool) (m : Member) : Type 0 where
  pub of_pool : In m p.members
  pub free : usable excluded u m ≡ true
  pub turn :
      m.config.backup ≡ true
      → (x : Member) → In x p.members
      → usable excluded u x ≡ true
      → x.config.backup ≡ true

not_empty : {A : Type 0} (a : A) (xs : List A) → In a xs → 0 < length xs
not_empty a [] h = elim h [ ]
not_empty a (x ∷ xs) h = omega arith

eligible-Eligible :
    (p : Pool) (excluded : List String) (u : Bool) (m : Member)
    → In m (eligible p excluded u)
    → Eligible p excluded u m
unfolding eligible
eligible-Eligible p excluded u m h =
    let ok = keep_if (usable excluded u) p.members in
    let primary = keep_if (λ m. not m.config.backup) ok in
    elim (Bool-cases (ltb 0 (length primary))) [
      | inl some_primary ↦
          let kept = In-keep_if (λ m. not m.config.backup) m ok (rw some_primary at h) in
          let inside = In-keep_if (usable excluded u) m p.members kept.0 in
          record {
            of_pool = inside.0;
            free = inside.1;
            turn = λ b. absurd (ground (arith, kept.1));
          }
      | inr no_primary ↦
          let kept = In-keep_if (λ m. m.config.backup) m ok (rw no_primary at h) in
          let inside = In-keep_if (usable excluded u) m p.members kept.0 in
          record {
            of_pool = inside.0;
            free = inside.1;
            turn = λ b x here ux. elim (Bool-cases x.config.backup) [
              | inl backup ↦ backup
              | inr other ↦
                  let there =
                    In-keep_if_of (λ m. not m.config.backup) x ok
                      (In-keep_if_of (usable excluded u) x p.members here ux) (rw other refl) in
                  absurd (
                    ground
                      (arith, lt→ltb 0 (length primary) (not_empty x primary there), no_primary))
            ];
          }
    ]

no_length : {A : Type 0} (xs : List A) → length xs ≡ 0 → xs ≡ []
no_length [] h = refl
no_length (x ∷ xs) h = absurd (omega arith)

-- Nobody is eligible exactly when nobody may be used.
eligible_none :
    (p : Pool) (excluded : List String) (u : Bool)
    → length (eligible p excluded u) ≡ 0
    → (x : Member) → In x p.members
    → usable excluded u x ≡ false
unfolding eligible
eligible_none p excluded u h x here = elim (Bool-cases (usable excluded u x)) [
  | inr bad ↦ bad
  | inl good ↦
      let ok = keep_if (usable excluded u) p.members in
      let primary = keep_if (λ m. not m.config.backup) ok in
      let backup = keep_if (λ m. m.config.backup) ok in
      let there = In-keep_if_of (usable excluded u) x p.members here good in
      elim (Bool-cases x.config.backup) [
        | inl b ↦ absurd (
            ground
              (arith, h, not_empty x backup (In-keep_if_of (λ m. m.config.backup) x ok there b)))
        | inr b ↦
            let inside = In-keep_if_of (λ m. not m.config.backup) x ok there (rw b refl) in
            absurd (ground (arith, h, not_empty x primary inside))
      ]
]

eligible_some :
    (p : Pool) (excluded : List String) (u : Bool)
    → ((x : Member) → In x p.members → usable excluded u x ≡ false)
    → eligible p excluded u ≡ []
eligible_some p excluded u h = go (eligible p excluded u) refl
  where
    go : (ms : List Member) → eligible p excluded u ≡ ms → eligible p excluded u ≡ []
    go [] e = e
    go (x ∷ xs) e =
        let v = eligible-Eligible p excluded u x (subst (In x) (sym e) (inl refl)) in
        absurd (ground (arith, v.free, h x v.of_pool))

-- Whether the pool falls back on members that are out of service.
abbrev pub falls_back : Pool → Bool
falls_back p = p.config.failure_mode == "last_resort"

abbrev pub NoneUsable : Pool → List String → Bool → Type 0
NoneUsable p excluded u = (x : Member) → In x p.members → usable excluded u x ≡ false

pub candidates_cases :
    (p : Pool) (excluded : List String) (m : Member)
    → In m (candidates p excluded)
    → Eligible p excluded false m
      ⊎ (Eligible p excluded true m × (falls_back p ≡ true) × NoneUsable p excluded false)
unfolding candidates
candidates_cases p excluded m h =
    let nobody = nat_beq (length (eligible p excluded false)) 0 in
    elim (Bool-cases nobody) [
      | inr somebody ↦ inl (eligible-Eligible p excluded false m (rw somebody at h))
      | inl e ↦ elim (Bool-cases (falls_back p)) [
        | inr stays ↦ inl (eligible-Eligible p excluded false m (rw (e, stays) at h))
        | inl falls ↦ inr (
          eligible-Eligible p excluded true m (rw (e, falls) at h),
          falls,
          eligible_none p excluded false ((nat_beq_iff _ 0).0 e),
        )
      ]
    ]

usable_down :
    (excluded : List String) (x : Member) (u : Bool)
    → usable excluded u x ≡ false
    → usable excluded false x ≡ false
unfolding usable
usable_down excluded x u h = ground arith

pub candidates-NoneUsable :
    (p : Pool) (excluded : List String)
    → candidates p excluded ≡ []
    → NoneUsable p excluded (falls_back p)
unfolding candidates
candidates-NoneUsable p excluded e =
    let nobody = nat_beq (length (eligible p excluded false)) 0 in
    elim (Bool-cases nobody) [
      | inr somebody ↦ absurd (ground (arith, ap length (rw somebody at e), somebody))
      | inl n ↦ elim (Bool-cases (falls_back p)) [
        | inr stays ↦ rw stays (eligible_none p excluded false ((nat_beq_iff _ 0).0 n))
        | inl falls ↦ rw falls (eligible_none p excluded true (ap length (rw (n, falls) at e)))
      ]
    ]

pub NoneUsable-candidates :
    (p : Pool) (excluded : List String)
    → NoneUsable p excluded (falls_back p)
    → candidates p excluded ≡ []
unfolding candidates
NoneUsable-candidates p excluded h =
    let none_healthy =
      eligible_some p excluded false λ x i. usable_down excluded x (falls_back p) (h x i) in
    elim (Bool-cases (falls_back p)) [
      | inr stays ↦ ground (arith, none_healthy, stays)
      | inl falls ↦
          ground (arith, none_healthy, falls, eligible_some p excluded true (rw falls at h))
    ]
