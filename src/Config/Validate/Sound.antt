-- ===== src/Config/Validate/Sound.antt =====
-- What a configuration without errors satisfies (Validate of internal/config/config.go): names that do
-- not repeat, pools that can serve and hosts whose pool exists.
use cherry_waf.Base.{
  String, ◌≡◌, refl, subst, Bool, true, false, not, ◌&&◌, List, [], ◌∷◌, ◌++◌, map, arith,
  if◌then◌else◌, All, any, ◌==◌, codes, nat_eq, string_eq, text_eq,
}
use cherry_waf.Proxy.{ServerPool, PoolMember}
use cherry_waf.Config.{require, within, validate_health_check}
use cherry_waf.Config.Types.{Library}
use cherry_waf.Config.Parts.{validate_upstream}
use cherry_waf.Config.Validate.Pools.{
  seen_name, name_errors, note_name, member_errors, members_errors, pool_errors, pools_errors,
}

pub append-nil : {A : Type 0} {xs ys : List A} → xs ++ ys ≡ [] → (xs ≡ []) × (ys ≡ [])
append-nil {xs = []} h = (refl, h)
append-nil {xs = x ∷ xs} h = absurd (ground (arith, h))

pub require-nil : (b : Bool) (message : String) → require b message ≡ [] → b ≡ true
require-nil true message h = refl
require-nil false message h = absurd (ground (arith, h))

-- No name is empty, and none stands in `seen` or twice.
abbrev pub AllNew : List String → List String → Type 0
AllNew seen [] = Unit
AllNew seen (n ∷ ns) = ((n == "") ≡ false) × (seen_name seen n ≡ false) × AllNew (n ∷ seen) ns

abbrev pub Unrepeated : List String → Type 0
Unrepeated [] = Unit
Unrepeated (n ∷ ns) = (seen_name ns n ≡ false) × Unrepeated ns

AllNew-absent :
    (seen ns : List String) (m : String)
    → AllNew seen ns
    → seen_name seen m ≡ true
    → seen_name ns m ≡ false
AllNew-absent seen [] m h s = refl
AllNew-absent seen (n ∷ ns) m h s =
    ground (arith, h, s, string_eq.same_iff n m, AllNew-absent (n ∷ seen) ns m)

pub AllNew-Unrepeated : (seen ns : List String) → AllNew seen ns → Unrepeated ns
AllNew-Unrepeated seen [] h = tt
AllNew-Unrepeated seen (n ∷ ns) h = (
  AllNew-absent (n ∷ seen) ns n h.2 (ground (arith, string_eq.same_iff n n)),
  AllNew-Unrepeated (n ∷ seen) ns h.2,
)

pub name_errors-nil :
    (seen : List String) (name a b : String)
    → name_errors seen name a b ≡ []
    → ((name == "") ≡ false) × (seen_name seen name ≡ false) × (note_name seen name ≡ name ∷ seen)
unfolding name_errors
name_errors-nil seen name a b h = ground (arith, h)

-- What holds of each member and of each pool by itself.
abbrev pub SoundMember : Library → PoolMember → Type 0
SoundMember lib m =
    (validate_upstream lib (codes m.url) m.origin_tls ≡ [])
    × (within 1 1000 m.weight ≡ true)
    × (within 1 1000 m.priority ≡ true)

abbrev pub SoundPool : Library → ServerPool → Type 0
SoundPool lib p =
    AllNew [] (map (λ m. m.id) p.members)
    × All (SoundMember lib) p.members
    × (p.enabled ≡ true → any (λ m. m.enabled) p.members ≡ true)
    × (p.health_check.enabled ≡ true → validate_health_check lib.upper p.health_check ≡ [])

serving_if : (on b : Bool) → on ≡ true → not (on && not b) ≡ true → b ≡ true
serving_if on b e h = ground (arith, e, h)

checks_if : (on : Bool) (es : List String) → on ≡ true → (if on then es else []) ≡ [] → es ≡ []
checks_if on es e h = ground (arith, e, h)

module _ (lib : Library) where
  members_sound :
      (seen : List String) (ms : List PoolMember)
      → members_errors lib seen ms ≡ []
      → AllNew seen (map (λ m. m.id) ms) × All (SoundMember lib) ms
  unfolding members_errors member_errors
  members_sound seen [] h = (tt, tt)
  members_sound seen (m ∷ ms) h =
      let (rest, later) = append-nil h in
      let (named, own) = append-nil rest in
      let (numbers, priority) = append-nil own in
      let (url, weight) = append-nil numbers in
      let (filled, new, noted) =
        name_errors-nil seen m.id "member ID must not be empty" "duplicate member ID" named in
      let (news, sounds) =
        members_sound (m.id ∷ seen) ms (subst (λ s. members_errors lib s ms ≡ []) noted later) in
      (
        (filled, new, news),
        (
          (
            url,
            require-nil (within 1 1000 m.weight) "weight must be between 1 and 1000" weight,
            require-nil (within 1 1000 m.priority) "priority must be between 1 and 1000" priority,
          ),
          sounds,
        ),
      )

  pool_sound : (p : ServerPool) → pool_errors lib p ≡ [] → SoundPool lib p
  unfolding pool_errors
  pool_sound p h =
      let (others, checks) =
        append-nil
          {ys = if p.health_check.enabled
            then validate_health_check lib.upper p.health_check
            else []}
          h in
      let (others, enabled) = append-nil others in
      let (others, members) = append-nil others in
      let (new, sound) = members_sound [] p.members members in
      let serving =
        require-nil (not (p.enabled && not (any (λ m. m.enabled) p.members)))
          "must contain at least one enabled member" enabled in
      (
        new,
        sound,
        λ on. serving_if p.enabled _ on serving,
        λ on. checks_if p.health_check.enabled _ on checks,
      )

  pub pools_sound :
      (seen : List String) (ps : List ServerPool)
      → pools_errors lib seen ps ≡ []
      → AllNew seen (map (λ p. p.name) ps) × All (SoundPool lib) ps
  unfolding pools_errors
  pools_sound seen [] h = (tt, tt)
  pools_sound seen (p ∷ ps) h =
      let (rest, later) = append-nil h in
      let (named, own) = append-nil rest in
      let (filled, new, noted) =
        name_errors-nil seen p.name "server pool name must not be empty"
          "duplicate server pool name" named in
      let (news, sounds) =
        pools_sound (p.name ∷ seen) ps (subst (λ s. pools_errors lib s ps ≡ []) noted later) in
      ((filled, new, news), (pool_sound p own, sounds))
