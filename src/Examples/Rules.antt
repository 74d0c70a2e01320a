-- ===== src/Examples/Rules.antt =====
-- The WAF engine of internal/waf at concrete rules and requests.
use cherry_waf.Base.{
  ℕ, String, ◌≡◌, refl, ◌↔◌, true, false, ◌||◌, Option, some, List, [], ◌∷◌, ◌++◌, arith,
  if◌then◌else◌, ◌==◌, Text, codes, nat_eq, string_eq, text_eq, trim_space, byte_len,
}
use cherry_waf.Base.Int.{pos, ltb_ℤ, ◌+ℤ◌}
use cherry_waf.Waf.Types.{Rule, Engine, ok}
use cherry_waf.Waf.Normalize.{Go, Request, decode, request_targets}
use cherry_waf.Waf.Normalize.Decoding.{
  Encodes, decode-Layers, done, itself, escaped, decimal, lower_case, bare, layer,
}
use cherry_waf.Waf.Inspect.{
  inspect, decide, match_rules, match_targets, is_ambiguous, framing_match,
}
use cherry_waf.Waf.Inspect.Verdict.{found, worth, Reasons, inspect_verdict}
use cherry_waf.Waf.{
  new, RuleFile, load_all, compile_loaded, engine_of, compile_rules, with_regex, validate_rule,
  sort_rules, insert_rule,
}
use cherry_waf.Waf.Builtin.{builtin_rules}
use cherry_waf.Waf.Build.{Compiled, Configured, new_engine_sound}

-- `../` under two layers, the outer of escapes in lower case beside bytes that are not escaped.
outer : Encodes false (codes "%252e./") (codes "%2e./")
outer =
    escaped (decimal 2 (omega arith)) (decimal 5 (omega arith))
      (itself refl refl (itself refl refl (itself refl refl (itself refl refl done))))

inner : Encodes false (codes "%2e./") (codes "../")
inner =
    escaped (decimal 2 (omega arith)) (lower_case 4 (omega arith))
      (itself refl refl (itself refl refl done))

decode-Layers_example : decode false 3 (codes "%252e./") ≡ codes "../"
decode-Layers_example =
    decode-Layers false 3 (omega arith) (layer outer (layer inner bare)) (ground arith)

abbrev rule : Rule
rule = record {
  id = codes "T-1";
  name = codes "Marker";
  description = "";
  enabled = true;
  targets = "path" ∷ [];
  pattern = "marker";
  score = pos 5;
  action = "block";
  severity = "high";
}

-- A pattern stands for itself, and is found in any text.
abbrev compile : String → Option String
compile pattern = some pattern

abbrev find : String → Text → Option (ℕ × ℕ)
find pattern text = some (0, 1)

abbrev engine : Engine String
engine = record {
  mode = "blocking";
  block_threshold = pos 5;
  rules = record { rule = rule; rx = "marker" } ∷ [];
}

abbrev library : Go
library = record {
  to_valid_utf8 = λ s. s;
  runes = λ s. s;
  bytes = λ s. s;
  unescape_html = λ s. s;
  lower = λ c. c;
  upper = λ c. c;
}

abbrev smuggled : Request
smuggled = record {
  method = codes "POST";
  escaped_path = codes "/a";
  raw_query = [];
  headers = [];
  cookies = [];
  known_length = true;
  transfer_encoding = "chunked" ∷ [];
}

inspect_verdict_example :
    let d = inspect find library engine (some smuggled) [] in
    (d.matches
      ≡ (if is_ambiguous smuggled then framing_match ∷ [] else [])
        ++ found find (request_targets library smuggled []) engine.rules)
    × (d.score ≡ worth d.matches)
    × ((d.blocked ≡ true) ↔ Reasons engine d)
inspect_verdict_example = inspect_verdict find library engine smuggled []

smuggled_blocked : (inspect find library engine (some smuggled) []).blocked ≡ true
unfolding inspect decide match_rules match_targets ◌+ℤ◌
smuggled_blocked = refl

abbrev files : List RuleFile
files = some (1, rule ∷ []) ∷ []

abbrev built : Engine String
built = record {
  mode = "detect";
  block_threshold = pos 5;
  rules = record { rule = rule; rx = "marker" } ∷ [];
}

new_engine_sound_example :
    ((built.mode == "blocking" || built.mode == "detect") ≡ true)
    × (ltb_ℤ (pos 5) (pos 1) ≡ false)
    × ((rules : List Rule) × (load_all (if false then builtin_rules else []) files ≡ ok rules)
        × Configured compile built.mode (pos 5) built
        × Compiled compile rules built.rules)
unfolding new load_all compile_loaded engine_of compile_rules with_regex validate_rule sort_rules
    insert_rule trim_space byte_len
new_engine_sound_example = new_engine_sound compile built.mode (pos 5) false files built refl
