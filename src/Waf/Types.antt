-- ===== src/Waf/Types.antt =====
-- The types of internal/waf/types.go, and the engine and the errors of internal/waf/engine.go.
use cherry_waf.Base.{String, Bool, not, List, Text, nat_eq, string_eq, text_eq}
use cherry_waf.Base.Int.{ℤ, ltb_ℤ}

pub record Rule : Type 0 where
  pub id : Text
  pub name : Text
  pub description : String
  pub enabled : Bool
  pub targets : List String
  pub pattern : String
  pub score : ℤ
  pub action : String
  pub severity : String

pub record Match : Type 0 where
  pub rule_id : Text
  pub rule_name : Text
  pub target : String
  pub severity : String
  pub score : ℤ
  pub action : String
  pub excerpt : Text

pub record Decision : Type 0 where
  pub blocked : Bool
  pub score : ℤ
  pub reason : Text
  pub matches : List Match

pub record CompiledRule (Regex : Type 0) : Type 0 where
  pub rule : Rule
  pub rx : Regex

pub record Engine (Regex : Type 0) : Type 0 where
  pub mode : String
  pub block_threshold : ℤ
  pub rules : List (CompiledRule Regex)

pub data Error : Type 0 where
  invalid_mode invalid_threshold unreadable_file unsupported_version : Error
  empty_id empty_name no_target unsupported_target pattern_length score_range : Error
  unsupported_action empty_severity duplicate_id bad_pattern : Error

pub data Result (A : Type 0) : Type 0 where
  ok : A → Result A
  err : Error → Result A

abbrev pub leb_ℤ : ℤ → ℤ → Bool
leb_ℤ a b = not (ltb_ℤ b a)
