-- ===== src/Waf/Inspect.antt =====
-- Inspect and safeExcerpt of internal/waf/engine.go. Finding the first match of a compiled pattern is a
-- parameter; texts stand for their bytes.
pub mod Verdict
use cherry_waf.Base.{
  ℕ, zero, suc, ◌+◌, ◌-◌, ◌*◌, ◌/◌, ◌%◌, ◌^◌, ◌≤◌, ◌<◌, min, max, String, ◌≡◌, refl, sym, ap, subst,
  fun_ext, ◌∙◌, ◌≢◌, ◌↔◌, ◌⊎◌, inl, inr, Bool, true, false, not, ◌&&◌, ◌||◌, Option, none, some,
  List, [], ◌∷◌, ◌++◌, map, arith, eq_iff, ltb, leb, if◌then◌else◌, ltb→lt, lt→ltb, leb→le, nat_beq,
  nat_beq_iff, Bool-cases, Option-cases, length, get_elem?, take, drop, In, All, any, all, keep_if,
  find_first, length-append, length-take-le, length-keep_if-le, In-keep_if, In-keep_if_of, All-In,
  find_first-some, find_first-none, Eq, ◌==◌, list_beq, list_beq_iff, ==_refl, Text, codes, nat_eq,
  string_eq, text_eq, if_both, between, is_space, trim_left, trim_right, trim_space, rune_len,
  byte_len, strip_prefix, strip_suffix, to_lower, ◌>>=◌,
}
use cherry_waf.Base.Int.{ℤ, pos, ◌+ℤ◌}
use cherry_waf.Waf.Types.{Rule, Match, Decision, CompiledRule, Engine, leb_ℤ}
use cherry_waf.Waf.Normalize.{Go, Request, request_targets}

-- `strings.ReplaceAll` of one byte by another.
abbrev pub replace : ℕ → ℕ → Text → Text
replace old new = map λ c. if nat_beq c old then new else c

-- The end of the excerpt, for the match's end.
abbrev pub excerpt_end : Text → ℕ → ℕ
excerpt_end value end = if ltb (end + 40) (length value) then end + 40 else length value

unfoldable pub safe_excerpt : Text → ℕ → ℕ → Text
safe_excerpt value start end =
    let from = if ltb 40 start then start - 40 else 0 in
    let to = excerpt_end value end in
    let out = replace 13 32 (replace 10 32 (trim_space (take (to - from) (drop from value)))) in
    if ltb 160 (length out) then take 160 out else out

abbrev pub framing_match : Match
framing_match = record {
  rule_id = codes "CWAF-000001";
  rule_name = codes "Ambiguous request framing";
  target = "protocol";
  severity = "critical";
  score = pos 20;
  action = "block";
  excerpt = [];
}

abbrev pub no_decision : Decision
no_decision = record { blocked = false; score = pos 0; reason = []; matches = [] }

-- What a match adds to the decision.
abbrev pub add_match : Decision → Match → Decision
add_match d m = record d {
  score = if m.action == "log" then d.score else d.score +ℤ m.score;
  matches = d.matches ++ m ∷ [];
}

abbrev pub add_found : Decision → Option Match → Decision
add_found d none = d
add_found d (some m) = add_match d m

abbrev pub first_name : List Match → Text
first_name [] = codes "WAF policy"
first_name (m ∷ ms) = m.rule_name

abbrev pub is_ambiguous : Request → Bool
is_ambiguous r = r.known_length && ltb 0 (length r.transfer_encoding)

-- The decision that the loop over the rules starts with.
abbrev pub framing : Request → Decision
framing r = if is_ambiguous r then add_match no_decision framing_match else no_decision

module _ {Regex : Type 0} where
  abbrev pub should_block : Engine Regex → Decision → Bool
  should_block e d = leb_ℤ e.block_threshold d.score || any (λ m. m.action == "block") d.matches

  unfoldable pub decide : Engine Regex → Decision → Decision
  decide e d =
      if should_block e d && e.mode == "blocking"
      then record d { blocked = true; reason = first_name d.matches }
      else d

module _ {Regex : Type 0} (find : Regex → Text → Option (ℕ × ℕ)) where
  match_of : Rule → String → Text → ℕ × ℕ → Match
  match_of r target value loc = record {
    rule_id = r.id;
    rule_name = r.name;
    target = target;
    severity = r.severity;
    score = r.score;
    action = r.action;
    excerpt = safe_excerpt value loc.0 loc.1;
  }

  -- The loop over a rule's targets, which stops at the first that matches.
  unfoldable pub match_targets : CompiledRule Regex → (String → Text) → List String → Option Match
  unfolding match_of
  match_targets c targets [] = none
  match_targets c targets (t ∷ ts) = elim (find c.rx (targets t)) [
    | none ↦ match_targets c targets ts
    | some loc ↦ some (match_of c.rule t (targets t) loc)
  ]

  -- The loop over the rules.
  unfoldable pub match_rules : Decision → (String → Text) → List (CompiledRule Regex) → Decision
  match_rules d targets [] = d
  match_rules d targets (c ∷ cs) =
      match_rules (add_found d (match_targets c targets c.rule.targets)) targets cs

  -- No request is the empty decision.
  unfoldable pub inspect : Go → Engine Regex → Option Request → Text → Decision
  inspect go e none body = no_decision
  inspect go e (some r) body =
      decide e (match_rules (framing r) (request_targets go r body) e.rules)
