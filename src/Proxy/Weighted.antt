-- ===== src/Proxy/Weighted.antt =====
-- `weightedRoundRobin` of internal/proxy/proxy.go over the members that may serve.
pub mod Fairness
pub mod Turns
use cherry_waf.Base.{
  ℕ, zero, suc, ◌+◌, ◌-◌, ◌*◌, ◌/◌, ◌%◌, ◌^◌, ◌≤◌, ◌<◌, min, max, String, ◌≡◌, refl, sym, ap, subst,
  fun_ext, ◌∙◌, ◌≢◌, ◌↔◌, ◌⊎◌, inl, inr, Bool, true, false, not, ◌&&◌, ◌||◌, Option, none, some,
  List, [], ◌∷◌, ◌++◌, map, arith, eq_iff, ltb, leb, if◌then◌else◌, ltb→lt, lt→ltb, leb→le, nat_beq,
  nat_beq_iff, Bool-cases, Option-cases, length, get_elem?, take, drop, In, All, any, all, keep_if,
  find_first, length-append, length-take-le, length-keep_if-le, In-keep_if, In-keep_if_of, All-In,
  find_first-some, find_first-none, Eq, ◌==◌, list_beq, list_beq_iff, ==_refl, Text, codes, nat_eq,
  string_eq, text_eq, if_both, between, is_space, trim_left, trim_right, trim_space, rune_len,
  byte_len, strip_prefix, strip_suffix, to_lower, ◌>>=◌,
}
use cherry_waf.Base.Int.{ℤ, pos, ltb_ℤ, ◌+ℤ◌, ◌-ℤ◌}
use cherry_waf.Proxy.{Member, weight_of, update_member}

-- `member.currentWeight += weight`
unfoldable pub raise : Member → Member
raise m = record m { current_weight = m.current_weight +ℤ pos (weight_of m) }

pub total_weight : List Member → ℕ
total_weight [] = 0
total_weight (m ∷ ms) = weight_of m + total_weight ms

-- The loop's `selected`: a later member only replaces it by a greater weight.
pub heaviest : Member → List Member → Member
heaviest selected [] = selected
heaviest selected (m ∷ ms) =
    heaviest (if ltb_ℤ selected.current_weight m.current_weight then m else selected) ms

-- `selected.currentWeight -= total`
abbrev pub lower : ℕ → Member → Member
lower total m = record m { current_weight = m.current_weight -ℤ pos total }

-- The member chosen, and the members with the weights that the round leaves them.
unfoldable pub weighted_round_robin : List Member → Option Member × List Member
weighted_round_robin [] = (none, [])
weighted_round_robin (m ∷ ms) =
    let selected = heaviest (raise m) (map raise ms) in
    (
      some selected,
      update_member selected.config.id (lower (total_weight (m ∷ ms))) (map raise (m ∷ ms)),
    )

abbrev pub note_id : Option Member → List String → List String
note_id none ids = ids
note_id (some m) ids = m.config.id ∷ ids

-- The IDs chosen in `n` rounds over the same members, newest first.
unfoldable pub rounds : ℕ → List Member → List String × List Member
rounds zero ms = ([], ms)
rounds (suc n) ms =
    let (ids, ms') = rounds n ms in
    let (chosen, ms'') = weighted_round_robin ms' in (note_id chosen ids, ms'')
