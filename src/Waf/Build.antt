-- ===== src/Waf/Build.antt =====
-- Which engines New of internal/waf/engine.go builds.
use cherry_waf.Base.{
  String, ◌≡◌, refl, sym, ap, subst, ◌⊎◌, inl, inr, Bool, true, false, ◌||◌, Option, none, some,
  List, [], ◌∷◌, arith, if◌then◌else◌, Bool-cases, Option-cases, In, All, ◌==◌, Text, nat_eq,
  string_eq, text_eq,
}
use cherry_waf.Base.Int.{ℤ, pos, ltb_ℤ}
use cherry_waf.Waf.Types.{Rule, CompiledRule, Engine, Result, ok, err}
use cherry_waf.Waf.{
  validate_rule, insert_rule, sort_rules, text_lt, with_regex, compile_rules, engine_of,
  compile_loaded, new, RuleFile, load_all, builtin_rules,
}

-- A rule as an engine may hold it.
abbrev pub Sound : {Regex : Type 0} → CompiledRule Regex → Type 0
Sound c = (c.rule.enabled ≡ true) × (validate_rule c.rule ≡ none)

ok_inj : {A : Type 0} (x y : A) → ok x ≡ ok y → x ≡ y
ok_inj x y h = cc

module _ {Regex : Type 0} where
  In-insert_rule :
      (c r : CompiledRule Regex) (rs : List (CompiledRule Regex))
      → (c ≡ r) ⊎ In c rs
      → In c (insert_rule r rs)
  unfolding insert_rule
  In-insert_rule c r [] h = h
  In-insert_rule c r (x ∷ xs) h = elim (Bool-cases (text_lt x.rule.id r.rule.id)) [
    | inl l ↦ rw l (elim h [
      | inl e ↦ inr (In-insert_rule c r xs (inl e))
      | inr m ↦ elim m [ inl e ↦ inl e | inr n ↦ inr (In-insert_rule c r xs (inr n)) ]
    ])
    | inr l ↦ rw l h
  ]

  In-sort_rules :
      (c : CompiledRule Regex) (rs : List (CompiledRule Regex)) → In c rs → In c (sort_rules rs)
  unfolding sort_rules
  In-sort_rules c [] h = h
  In-sort_rules c (r ∷ rs) (inl e) = In-insert_rule c r (sort_rules rs) (inl e)
  In-sort_rules c (r ∷ rs) (inr m) = In-insert_rule c r (sort_rules rs) (inr (In-sort_rules c rs m))

  insert_rule-All :
      (P : CompiledRule Regex → Type 0) (r : CompiledRule Regex) (rs : List (CompiledRule Regex))
      → P r
      → All P rs
      → All P (insert_rule r rs)
  unfolding insert_rule
  insert_rule-All P r [] p h = (p, tt)
  insert_rule-All P r (x ∷ xs) p h = elim (Bool-cases (text_lt x.rule.id r.rule.id)) [
    | inl l ↦ rw l (h.0, insert_rule-All P r xs p h.1)
    | inr l ↦ rw l (p, h)
  ]

  sort_rules-All :
      (P : CompiledRule Regex → Type 0) (rs : List (CompiledRule Regex))
      → All P rs
      → All P (sort_rules rs)
  unfolding sort_rules
  sort_rules-All P [] h = tt
  sort_rules-All P (r ∷ rs) h = insert_rule-All P r (sort_rules rs) h.0 (sort_rules-All P rs h.1)

module _ {Regex : Type 0} (compile : String → Option Regex) where
  -- What was compiled from the rules is sound, and every enabled rule of them is there.
  abbrev pub Compiled : List Rule → List (CompiledRule Regex) → Type 0
  Compiled rules out =
      All Sound out
      × ((r : Rule)
          → In r rules
          → r.enabled ≡ true
          → (c : CompiledRule Regex) × In c out × (c.rule ≡ r))

  Compiled-cons :
      (r : Rule) (rules : List Rule) (rx : Option Regex) (rest : Result (List (CompiledRule Regex)))
      (out : List (CompiledRule Regex))
      → r.enabled ≡ true
      → validate_rule r ≡ none
      → ((later : List (CompiledRule Regex)) → rest ≡ ok later → Compiled rules later)
      → with_regex compile r rx rest ≡ ok out
      → Compiled (r ∷ rules) out
  unfolding with_regex
  Compiled-cons r rules none rest out on valid ih h = absurd (ground (arith, h))
  Compiled-cons r rules (some rx) (err e) out on valid ih h = absurd (ground (arith, h))
  Compiled-cons r rules (some rx) (ok later) out on valid ih h =
      subst (Compiled (r ∷ rules)) (ok_inj (record { rule = r; rx = rx } ∷ later) out h) (
        ((on, valid), (ih later refl).0),
        λ q m k. elim m [
          | inl e ↦ (record { rule = r; rx = rx }, inl refl, sym e)
          | inr n ↦ let (c, here, same) = (ih later refl).1 q n k in (c, inr here, same)
        ],
      )

  compile_rules-Compiled :
      (seen : List Text) (rules : List Rule) (out : List (CompiledRule Regex))
      → compile_rules compile seen rules ≡ ok out
      → Compiled rules out
  unfolding compile_rules
  compile_rules-Compiled seen [] out h =
      subst (Compiled []) (ok_inj [] out h) (tt, λ r m k. elim m [ ])
  compile_rules-Compiled seen (r ∷ rs) out h = elim (Bool-cases r.enabled) [
    | inr off ↦
        let rest = compile_rules-Compiled seen rs out (ground (arith, h, off)) in
        (
          rest.0,
          λ q m k. elim m [
            | inl e ↦ absurd (ground (arith, off, k, ap (λ x. x.enabled) e))
            | inr n ↦ rest.1 q n k
          ],
        )
    | inl on ↦ elim (Option-cases (validate_rule r)) [
      | inr (e, bad) ↦ absurd (ground (arith, h, on, bad))
      | inl valid ↦
          Compiled-cons r rs (compile r.pattern) (compile_rules compile (r.id ∷ seen) rs) out on
            valid (λ later k. compile_rules-Compiled (r.id ∷ seen) rs later k)
            (ground (arith, h, on, valid))
    ]
  ]

  -- The engine has the mode and the threshold.
  abbrev pub Configured : String → ℤ → Engine Regex → Type 0
  Configured mode threshold e = (e.mode ≡ mode) × (e.block_threshold ≡ threshold)

  engine_of-Compiled :
      (mode : String) (threshold : ℤ) (rules : List Rule)
      (built : Result (List (CompiledRule Regex))) (e : Engine Regex)
      → ((out : List (CompiledRule Regex)) → built ≡ ok out → Compiled rules out)
      → engine_of compile mode threshold built ≡ ok e
      → Configured mode threshold e × Compiled rules e.rules
  unfolding engine_of
  engine_of-Compiled mode threshold rules (err x) e k h = absurd (ground (arith, h))
  engine_of-Compiled mode threshold rules (ok out) e k h =
      subst (λ x. Configured mode threshold x × Compiled rules x.rules)
        (ok_inj (record { mode = mode; block_threshold = threshold; rules = sort_rules out }) e h)
        (
          (refl, refl),
          (
            sort_rules-All Sound out (k out refl).0,
            λ r m on.
                let (c, here, same) = (k out refl).1 r m on in (c, In-sort_rules c out here, same),
          ),
        )

  compile_loaded-Compiled :
      (mode : String) (threshold : ℤ) (loaded : Result (List Rule)) (e : Engine Regex)
      → compile_loaded compile mode threshold loaded ≡ ok e
      → (rules : List Rule) × (loaded ≡ ok rules)
        × Configured mode threshold e
        × Compiled rules e.rules
  unfolding compile_loaded
  compile_loaded-Compiled mode threshold (err x) e h = absurd (ground (arith, h))
  compile_loaded-Compiled mode threshold (ok rules) e h =
      let (configured, compiled) =
        engine_of-Compiled mode threshold rules (compile_rules compile [] rules) e
          (compile_rules-Compiled [] rules) h in
      (rules, refl, configured, compiled)

  -- An engine that is built has the mode and the threshold that were asked for, which are blocking or
  -- detect mode and at least 1; every rule it holds is enabled and passes `validateRule`, and every
  -- enabled rule of what was loaded, the built-in rules if they are wanted and those of the files, is
  -- among them.
  pub new_engine_sound :
      (mode : String) (threshold : ℤ) (builtins : Bool) (files : List RuleFile) (e : Engine Regex)
      → new compile mode threshold builtins files ≡ ok e
      → ((mode == "blocking" || mode == "detect") ≡ true)
        × (ltb_ℤ threshold (pos 1) ≡ false)
        × ((rules : List Rule) × (load_all (if builtins then builtin_rules else []) files
              ≡ ok rules)
            × Configured mode threshold e
            × Compiled rules e.rules)
  unfolding new
  new_engine_sound mode threshold builtins files e h =
      elim (Bool-cases (mode == "blocking" || mode == "detect")) [
        | inr bad ↦ absurd (ground (arith, h, bad))
        | inl good ↦ elim (Bool-cases (ltb_ℤ threshold (pos 1))) [
          | inl low ↦ absurd (ground (arith, h, good, low))
          | inr high ↦ (
            good,
            high,
            compile_loaded-Compiled mode threshold
                (load_all (if builtins then builtin_rules else []) files) e
                (ground (arith, h, good, high)),
          )
        ]
      ]
