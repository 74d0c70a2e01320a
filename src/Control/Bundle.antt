-- ===== src/Control/Bundle.antt =====
-- Applying a configuration with its rules: applyBundleLocked of internal/control/config_manager.go, with
-- restoreOptional and restartRequired. What the file system and the running service answer is an input.
pub mod Restored
use cherry_waf.Base.{
  ℕ, zero, suc, ◌+◌, ◌-◌, ◌*◌, ◌/◌, ◌%◌, ◌^◌, ◌≤◌, ◌<◌, min, max, String, ◌≡◌, refl, sym, ap, subst,
  fun_ext, ◌∙◌, ◌≢◌, ◌↔◌, ◌⊎◌, inl, inr, Bool, true, false, not, ◌&&◌, ◌||◌, Option, none, some,
  List, [], ◌∷◌, ◌++◌, map, arith, eq_iff, ltb, leb, if◌then◌else◌, ltb→lt, lt→ltb, leb→le, nat_beq,
  nat_beq_iff, Bool-cases, Option-cases, length, get_elem?, take, drop, In, All, any, all, keep_if,
  find_first, length-append, length-take-le, length-keep_if-le, In-keep_if, In-keep_if_of, All-In,
  find_first-some, find_first-none, Eq, ◌==◌, list_beq, list_beq_iff, ==_refl, Text, codes, nat_eq,
  string_eq, text_eq, if_both, between, is_space, trim_left, trim_right, trim_space, rune_len,
  byte_len, strip_prefix, strip_suffix, to_lower, ◌>>=◌,
}

-- The two files, of which that of the rules may not exist, and the revisions that were saved.
pub record Revision : Type 0 where
  pub config : Text
  pub rules : Option Text

pub record Disk : Type 0 where
  pub config : Text
  pub rules : Option Text
  pub revisions : List Revision

-- Which operations succeed; a reload that fails has its error, and the reload after a restoration, whose
-- failure only adds to the error, is left out. A file that cannot be written or removed
-- stays as it was.
pub record Steps : Type 0 where
  pub config_read : Bool
  pub rules_read : Bool
  pub revision_saved : Bool
  pub rules_removed : Bool
  pub rules_valid : Bool
  pub rules_written : Bool
  pub config_written : Bool
  pub validated : Bool
  pub has_runtime : Bool
  pub reload : Option Text
  pub config_restored : Bool
  pub rules_restored : Bool

-- An error, or the change with whether it needs a restart.
pub data Outcome : Type 0 where
  failed : Outcome
  applied : Bool → Outcome

abbrev is_some_text : Option Text → Bool
is_some_text none = false
is_some_text (some rest) = true

-- `strings.Contains`
unfoldable pub contains_text : Text → Text → Bool
unfolding strip_prefix
contains_text part [] = part == []
contains_text part (c ∷ cs) = is_some_text (strip_prefix part (c ∷ cs)) || contains_text part cs

-- `restartRequired`
unfoldable pub restart_required : (ℕ → ℕ) → Text → Bool
unfolding contains_text to_lower
restart_required lower error =
    let value = map (to_lower lower) error in
    contains_text (codes "require a service restart") value
    || contains_text (codes "listener") value && contains_text (codes "restart") value

-- `restore`: each of the two files by itself.
unfoldable pub restore : Steps → Disk → Disk → Disk
restore s before d = record d {
  config = if s.config_restored then before.config else d.config;
  rules = if s.rules_restored then before.rules else d.rules;
}

abbrev pub on_reload : (ℕ → ℕ) → Steps → Disk → Disk → Option Text → Disk × Outcome
on_reload lower s before d none = (d, applied false)
on_reload lower s before d (some error) =
    if restart_required lower error then (d, applied true) else (restore s before d, failed)

unfoldable pub write_config : (ℕ → ℕ) → Steps → Text → Disk → Disk → Disk × Outcome
unfolding restart_required restore
write_config lower s config before d =
    if not s.config_written
    then (restore s before d, failed)
    else (let d = record d { config = config } in
        if not s.validated
        then (restore s before d, failed)
        else if not s.has_runtime
        then (d, applied true)
        else on_reload lower s before d s.reload)

-- The rules: none keeps them, and an empty file removes them.
abbrev pub write_rules : (ℕ → ℕ) → Steps → Text → Disk → Disk → Option Text → Disk × Outcome
write_rules lower s config before d none = write_config lower s config before d
write_rules lower s config before d (some []) =
    if not s.rules_removed
    then (d, failed)
    else write_config lower s config before (record d { rules = none })
write_rules lower s config before d (some (c ∷ cs)) =
    if not (s.rules_valid && s.rules_written)
    then (d, failed)
    else write_config lower s config before (record d { rules = some (c ∷ cs) })

-- `applyBundleLocked`
unfoldable pub apply_bundle : (ℕ → ℕ) → Steps → Text → Option Text → Disk → Disk × Outcome
unfolding write_config
apply_bundle lower s config rules d =
    if not (s.config_read && s.rules_read && s.revision_saved)
    then (d, failed)
    else write_rules lower s config d
        (record d { revisions = d.revisions ++ record { config = d.config; rules = d.rules } ∷ [] })
        rules
