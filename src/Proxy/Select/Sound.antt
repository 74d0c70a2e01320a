-- ===== src/Proxy/Select/Sound.antt =====
-- selectMember of internal/proxy/proxy.go: who may be chosen, and when somebody is.
use cherry_waf.Base.{
  ℕ, String, ◌≡◌, refl, sym, ap, subst, ◌≢◌, ◌↔◌, ◌⊎◌, inl, inr, Bool, true, false, Option, none,
  some, List, [], ◌∷◌, arith, Bool-cases, In, any, ◌==◌, nat_eq, string_eq, text_eq,
}
use cherry_waf.Proxy.{Member, Pool}
use cherry_waf.Proxy.Select.{usable, candidates, select_member, pick, Request}
use cherry_waf.Proxy.Select.Eligible.{
  Eligible, NoneUsable, falls_back, candidates_cases, candidates-NoneUsable, NoneUsable-candidates,
}
use cherry_waf.Proxy.Select.Choice.{Names, pick-Names}

-- Not excluded, and healthy unless health does not count.
abbrev pub Free : List String → Bool → Member → Type 0
Free excluded unhealthy m =
    (any (λ id. id == m.config.id) excluded ≡ false) × ((unhealthy ≡ true) ⊎ (m.healthy ≡ true))

-- Why a member may be chosen: it is in the pool and free, and a backup only if no primary is free.
pub record MayServe (p : Pool) (excluded : List String) (unhealthy : Bool) (m : Member)
    : Type 0 where
  pub of_pool : In m p.members
  pub free : Free excluded unhealthy m
  pub turn :
      m.config.backup ≡ true
      → (x : Member) → In x p.members
      → Free excluded unhealthy x
      → x.config.backup ≡ true

-- No member of the pool is free.
abbrev pub Idle : Pool → List String → Bool → Type 0
Idle p excluded unhealthy = (x : Member) → In x p.members → Free excluded unhealthy x → ⊥

usable-Free :
    (excluded : List String) (u : Bool) (m : Member)
    → usable excluded u m ≡ true
    → Free excluded u m
unfolding usable
usable-Free excluded u m h = ground (arith, h)

Free-usable :
    (excluded : List String) (u : Bool) (m : Member)
    → Free excluded u m
    → usable excluded u m ≡ true
unfolding usable
Free-usable excluded u m h = ground (arith, h)

Eligible-MayServe :
    (p : Pool) (excluded : List String) (u : Bool) (m : Member)
    → Eligible p excluded u m
    → MayServe p excluded u m
Eligible-MayServe p excluded u m e = record {
  of_pool = e.of_pool;
  free = usable-Free excluded u m e.free;
  turn = λ b x i f. e.turn b x i (Free-usable excluded u x f);
}

NoneUsable-Idle :
    (p : Pool) (excluded : List String) (u : Bool) → NoneUsable p excluded u ↔ Idle p excluded u
NoneUsable-Idle p excluded u = (
  λ h x i f. absurd (ground (arith, h x i, Free-usable excluded u x f)),
  λ h x i. elim (Bool-cases (usable excluded u x)) [
    | inl used ↦ absurd (h x i (usable-Free excluded u x used))
    | inr unused ↦ unused
  ],
)

MayServe-cases :
    (p : Pool) (excluded : List String) (m : Member)
    → In m (candidates p excluded)
    → MayServe p excluded false m
      ⊎ (MayServe p excluded true m × (falls_back p ≡ true) × Idle p excluded false)
MayServe-cases p excluded m i = elim (candidates_cases p excluded m i) [
  | inl e ↦ inl (Eligible-MayServe p excluded false m e)
  | inr e ↦
      inr (Eligible-MayServe p excluded true m e.0, e.1, (NoneUsable-Idle p excluded false).0 e.2)
]

module _ (mac : List ℕ → List ℕ) (encode : List ℕ → String) (p : Pool) (r : Request)
    (excluded : List String) where
  abbrev selected : Option Member
  selected = (select_member mac encode p r excluded).0

  selected-Names : (ms : List Member) → candidates p excluded ≡ ms → (ms ≢ []) → Names ms selected
  unfolding select_member
  selected-Names [] e h = absurd (h refl)
  selected-Names (m ∷ ms) e h =
      subst (λ cs. Names (m ∷ ms) (pick mac encode p r cs).0) (sym e)
        (pick-Names mac encode p r m ms)

  select_nobody : candidates p excluded ≡ [] → selected ≡ none
  unfolding select_member
  select_nobody e = ap (λ cs. (pick mac encode p r cs).0) e

  -- Whatever the algorithm and the persistence: a member that is chosen is a member of the pool that was
  -- not excluded, is healthy unless the pool falls back and nobody else is left, and is a backup only if
  -- no primary may be used.
  pub select_member_sound :
      (m : Member)
      → (select_member mac encode p r excluded).0 ≡ some m
      → (x : Member) × (x.config ≡ m.config)
        × (MayServe p excluded false x
            ⊎ (MayServe p excluded true x × (falls_back p ≡ true) × Idle p excluded false))
  select_member_sound m e = go (candidates p excluded) refl
    where
      go :
          (ms : List Member)
          → candidates p excluded ≡ ms
          → (x : Member) × (x.config ≡ m.config)
            × (MayServe p excluded false x
                ⊎ (MayServe p excluded true x × (falls_back p ≡ true) × Idle p excluded false))
      go [] c = absurd (cc (select_nobody c))
      go (y ∷ ys) c =
          let (x, i, same) = subst (Names (y ∷ ys)) e (selected-Names (y ∷ ys) c (λ q. cc)) in
          (x, same, MayServe-cases p excluded x (subst (In x) (sym c) i))

  -- Nobody is chosen exactly when no member is left that may be used: not an excluded one, nor, unless
  -- the pool falls back, an unhealthy one.
  pub select_member-none :
      ((select_member mac encode p r excluded).0 ≡ none) ↔ Idle p excluded (falls_back p)
  select_member-none = (
    (λ e. go (candidates p excluded) refl e),
    (λ h.
        select_nobody
          (NoneUsable-candidates p excluded ((NoneUsable-Idle p excluded (falls_back p)).1 h))),
  )
    where
      go :
          (ms : List Member)
          → candidates p excluded ≡ ms
          → selected ≡ none
          → Idle p excluded (falls_back p)
      go [] c e = (NoneUsable-Idle p excluded (falls_back p)).0 (candidates-NoneUsable p excluded c)
      go (y ∷ ys) c e = elim (subst (Names (y ∷ ys)) e (selected-Names (y ∷ ys) c (λ q. cc))) [ ]
