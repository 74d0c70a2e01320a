-- ===== src/Waf.antt =====
-- How a WAF engine is built: New, loadRuleFile and validateRule of internal/waf/engine.go. Compiling a
-- pattern, which Go's regexp package does, is a parameter.
pub mod Types
pub mod Builtin
pub mod Normalize
pub mod Inspect
pub mod Build
use cherry_waf.Base.{
  ℕ, zero, suc, ◌+◌, ◌-◌, ◌*◌, ◌/◌, ◌%◌, ◌^◌, ◌≤◌, ◌<◌, min, max, String, ◌≡◌, refl, sym, ap, subst,
  fun_ext, ◌∙◌, ◌≢◌, ◌↔◌, ◌⊎◌, inl, inr, Bool, true, false, not, ◌&&◌, ◌||◌, Option, none, some,
  List, [], ◌∷◌, ◌++◌, map, arith, eq_iff, ltb, leb, if◌then◌else◌, ltb→lt, lt→ltb, leb→le, nat_beq,
  nat_beq_iff, Bool-cases, Option-cases, length, get_elem?, take, drop, In, All, any, all, keep_if,
  find_first, length-append, length-take-le, length-keep_if-le, In-keep_if, In-keep_if_of, All-In,
  find_first-some, find_first-none, Eq, ◌==◌, list_beq, list_beq_iff, ==_refl, Text, codes, nat_eq,
  string_eq, text_eq, if_both, between, is_space, trim_left, trim_right, trim_space, rune_len,
  byte_len, strip_prefix, strip_suffix, to_lower, ◌>>=◌,
}
use cherry_waf.Base.Int.{ℤ, pos, ltb_ℤ}
use Types.{
  Rule, CompiledRule, Engine, Error, Result, ok, err, invalid_mode, invalid_threshold,
  unreadable_file, unsupported_version, empty_id, empty_name, no_target, unsupported_target,
  pattern_length, score_range, unsupported_action, empty_severity, duplicate_id, bad_pattern,
}
use Builtin.{builtin_rules}

abbrev pub all_targets : List String
all_targets = "method" ∷ "path" ∷ "query" ∷ "headers" ∷ "cookies" ∷ "body" ∷ []

pub supported : String → Bool
supported target = any (λ t. t == target) all_targets

-- `validateRule`: the first thing that is wrong with a rule.
unfoldable pub validate_rule : Rule → Option Error
unfolding supported
validate_rule r =
    if trim_space r.id == []
    then some empty_id
    else if trim_space r.name == []
    then some empty_name
    else if nat_beq (length r.targets) 0
    then some no_target
    else if not (all supported r.targets)
    then some unsupported_target
    else if nat_beq (byte_len (codes r.pattern)) 0 || ltb 8192 (byte_len (codes r.pattern))
    then some pattern_length
    else if ltb_ℤ r.score (pos 0) || ltb_ℤ (pos 1000) r.score
    then some score_range
    else if not (r.action == "score" || r.action == "block" || r.action == "log")
    then some unsupported_action
    else if r.severity == ""
    then some empty_severity
    else none

-- The comparison of Go strings, by the order of their bytes, which is that of their runes.
pub text_lt : Text → Text → Bool
text_lt [] [] = false
text_lt [] (d ∷ ds) = true
text_lt (c ∷ cs) [] = false
text_lt (c ∷ cs) (d ∷ ds) = ltb c d || nat_beq c d && text_lt cs ds

-- A rule file as read and decoded: its version and its rules, or nothing.
abbrev pub RuleFile : Type 0
RuleFile = Option (ℕ × List Rule)

unfoldable pub load_rule_file : RuleFile → Result (List Rule)
load_rule_file none = err unreadable_file
load_rule_file (some (version, rules)) =
    if nat_beq version 1 then ok rules else err unsupported_version

unfoldable pub load_all : List Rule → List RuleFile → Result (List Rule)
unfolding load_rule_file
load_all rules [] = ok rules
load_all rules (f ∷ fs) = elim (load_rule_file f) [
  | err e ↦ err e
  | ok loaded ↦ load_all (rules ++ loaded) fs
]

module _ {Regex : Type 0} where
  -- `sort.SliceStable` by rule ID.
  unfoldable pub insert_rule :
      CompiledRule Regex → List (CompiledRule Regex) → List (CompiledRule Regex)
  insert_rule r [] = r ∷ []
  insert_rule r (x ∷ xs) = if text_lt x.rule.id r.rule.id then x ∷ insert_rule r xs else r ∷ x ∷ xs

  unfoldable pub sort_rules : List (CompiledRule Regex) → List (CompiledRule Regex)
  sort_rules [] = []
  sort_rules (r ∷ rs) = insert_rule r (sort_rules rs)

module _ {Regex : Type 0} (compile : String → Option Regex) where
  unfoldable pub with_regex :
      Rule → Option Regex → Result (List (CompiledRule Regex)) → Result (List (CompiledRule Regex))
  with_regex r none rest = err bad_pattern
  with_regex r (some rx) (err e) = err e
  with_regex r (some rx) (ok rs) = ok (record { rule = r; rx = rx } ∷ rs)

  -- The loop over the rules, with the IDs seen.
  unfoldable pub compile_rules : List Text → List Rule → Result (List (CompiledRule Regex))
  unfolding with_regex
  compile_rules seen [] = ok []
  compile_rules seen (r ∷ rs) =
      let later = compile_rules (r.id ∷ seen) rs in
      let skipped = compile_rules seen rs in
      if not r.enabled then skipped else (elim (validate_rule r) [
        | some e ↦ err e
        | none ↦
            if any (λ id. id == r.id) seen
            then err duplicate_id
            else with_regex r (compile r.pattern) later
      ])

  unfoldable pub engine_of : String → ℤ → Result (List (CompiledRule Regex)) → Result (Engine Regex)
  engine_of mode threshold (err e) = err e
  engine_of mode threshold (ok rules) =
      ok (record { mode = mode; block_threshold = threshold; rules = sort_rules rules })

  unfoldable pub compile_loaded : String → ℤ → Result (List Rule) → Result (Engine Regex)
  unfolding engine_of
  compile_loaded mode threshold (err e) = err e
  compile_loaded mode threshold (ok rules) = engine_of mode threshold (compile_rules [] rules)

  unfoldable pub new : String → ℤ → Bool → List RuleFile → Result (Engine Regex)
  unfolding compile_loaded
  new mode threshold builtins files =
      if not (mode == "blocking" || mode == "detect")
      then err invalid_mode
      else if ltb_ℤ threshold (pos 1)
      then err invalid_threshold
      else compile_loaded mode threshold (load_all (if builtins then builtin_rules else []) files)
