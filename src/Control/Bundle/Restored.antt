-- ===== src/Control/Bundle/Restored.antt =====
-- That a change of the configuration is applied as a whole or not at all
-- (internal/control/config_manager.go).
use cherry_waf.Base.{
  ℕ, ◌≡◌, refl, subst, true, not, ◌&&◌, Option, none, some, [], ◌∷◌, Text, nat_eq, string_eq,
  text_eq, if_both,
}
use cherry_waf.Control.Bundle.{
  Disk, Steps, Outcome, restart_required, restore, on_reload, write_config, write_rules,
  apply_bundle, failed, applied,
}

-- The rules that a change asks for.
abbrev pub wanted : Option Text → Option Text → Option Text
wanted before none = before
wanted before (some []) = none
wanted before (some (c ∷ cs)) = some (c ∷ cs)

-- After an error both files are as they were; after a success both are as the change asks.
abbrev pub Whole : Disk → Text → Option Text → Disk × Outcome → Type 0
Whole before config rules (d, failed) = (d.config ≡ before.config) × (d.rules ≡ before.rules)
Whole before config rules (d, applied restart) = (d.config ≡ config) × (d.rules ≡ rules)

module _ (lower : ℕ → ℕ) (s : Steps) (config_back : s.config_restored ≡ true)
    (rules_back : s.rules_restored ≡ true) (before : Disk) (config : Text) where
  restored-Whole :
      (d : Disk) (rules : Option Text) → Whole before config rules (restore s before d, failed)
  unfolding restore
  restored-Whole d rules = rw (config_back, rules_back) (refl, refl)

  on_reload-Whole :
      (d : Disk) (o : Option Text)
      → d.config ≡ config
      → Whole before config d.rules (on_reload lower s before d o)
  on_reload-Whole d none h = (h, refl)
  on_reload-Whole d (some error) h =
      if_both (Whole before config d.rules) (restart_required lower error) (d, applied true)
        (restore s before d, failed) (h, refl) (restored-Whole d d.rules)

  write_config-Whole :
      (d : Disk) → Whole before config d.rules (write_config lower s config before d)
  unfolding write_config
  write_config-Whole d =
      let P = Whole before config d.rules in
      let next = record d { config = config } in
      if_both P (not s.config_written) _ _ (restored-Whole d d.rules) (
        if_both P (not s.validated) _ _ (restored-Whole next d.rules) (
          if_both P (not s.has_runtime) (next, applied true) _ (refl, refl)
            (on_reload-Whole next s.reload refl)))

  write_rules-Whole :
      (d : Disk) (rules : Option Text)
      → d.config ≡ before.config
      → d.rules ≡ before.rules
      → Whole before config (wanted before.rules rules) (write_rules lower s config before d rules)
  write_rules-Whole d none h k =
      subst (λ r. Whole before config r (write_config lower s config before d)) k
        (write_config-Whole d)
  write_rules-Whole d (some []) h k =
      if_both (Whole before config none) (not s.rules_removed) (d, failed) _ (h, k)
        (write_config-Whole (record d { rules = none }))
  write_rules-Whole d (some (c ∷ cs)) h k =
      if_both (Whole before config (some (c ∷ cs))) (not (s.rules_valid && s.rules_written))
        (d, failed) _ (h, k) (write_config-Whole (record d { rules = some (c ∷ cs) }))

-- Whatever fails while a configuration is applied, where the two files can be restored: after an error
-- the configuration and the rules are as they were, and after a success, with a restart to follow or
-- not, they are the new ones.
pub apply_bundle-Whole :
    (lower : ℕ → ℕ) (s : Steps) (config : Text) (rules : Option Text) (d : Disk)
    → s.config_restored ≡ true
    → s.rules_restored ≡ true
    → Whole d config (wanted d.rules rules) (apply_bundle lower s config rules d)
unfolding apply_bundle
apply_bundle-Whole lower s config rules d config_back rules_back =
    if_both (Whole d config (wanted d.rules rules))
      (not (s.config_read && s.rules_read && s.revision_saved)) (d, failed) _ (refl, refl)
      (write_rules-Whole lower s config_back rules_back d config _ rules refl refl)
