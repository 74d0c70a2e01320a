-- ===== src/Waf/Inspect/Verdict.antt =====
-- The verdict of the engine, against a description of it (internal/waf/engine.go, Inspect).
use mathlib.Core.List.{append_assoc, append-nil}
use cherry_waf.Base.{
  ℕ, ◌≤◌, String, ◌≡◌, refl, sym, ap, ◌∙◌, ◌↔◌, ◌⊎◌, inl, inr, true, false, Option, none, some,
  List, [], ◌∷◌, ◌++◌, arith, eq_iff, if◌then◌else◌, Bool-cases, Option-cases, length, In, any,
  ◌==◌, Text, nat_eq, string_eq, text_eq,
}
use cherry_waf.Base.Int.{ℤ, pos, ◌+ℤ◌, ◌≤ℤ◌, +ℤ_assoc, +ℤ-zero, zero-+ℤ}
use cherry_waf.Waf.Types.{Match, Decision, CompiledRule, Engine, leb_ℤ}
use cherry_waf.Waf.Normalize.{Go, Request, request_targets}
use cherry_waf.Waf.Inspect.{
  match_targets, add_match, add_found, match_rules, should_block, decide, is_ambiguous, framing,
  framing_match, inspect,
}

-- The anomaly score: what the matches that are not merely logged are worth.
abbrev pub worth : List Match → ℤ
worth [] = pos 0
worth (m ∷ ms) = if m.action == "log" then worth ms else m.score +ℤ worth ms

worth-append :
    (ms : List Match) (m : Match)
    → worth (ms ++ m ∷ []) ≡ (if m.action == "log" then worth ms else worth ms +ℤ m.score)
worth-append [] m = ground (arith, +ℤ-zero m.score, zero-+ℤ m.score)
worth-append (x ∷ xs) m = ground (arith, worth-append xs m, +ℤ_assoc x.score (worth xs) m.score)

abbrev Scored : Decision → Type 0
Scored d = d.score ≡ worth d.matches

add_match-Scored : (d : Decision) (m : Match) → Scored d → Scored (add_match d m)
add_match-Scored d m h = ground (arith, worth-append d.matches m)

module _ {Regex : Type 0} (find : Regex → Text → Option (ℕ × ℕ)) where
  -- One match at most for each rule, in the order of the rules.
  pub found : (String → Text) → List (CompiledRule Regex) → List Match
  found targets [] = []
  found targets (c ∷ cs) = elim (match_targets find c targets c.rule.targets) [
    | none ↦ found targets cs
    | some m ↦ m ∷ found targets cs
  ]

  add_found-Scored : (d : Decision) (o : Option Match) → Scored d → Scored (add_found d o)
  add_found-Scored d none h = h
  add_found-Scored d (some m) h = add_match-Scored d m h

  match_rules-Scored :
      (targets : String → Text) (cs : List (CompiledRule Regex)) (d : Decision)
      → Scored d
      → Scored (match_rules find d targets cs)
  unfolding match_rules
  match_rules-Scored targets [] d h = h
  match_rules-Scored targets (c ∷ cs) d h =
      match_rules-Scored targets cs (add_found d (match_targets find c targets c.rule.targets))
        (add_found-Scored d (match_targets find c targets c.rule.targets) h)

  match_rules-matches :
      (targets : String → Text) (cs : List (CompiledRule Regex)) (d : Decision)
      → (match_rules find d targets cs).matches ≡ d.matches ++ found targets cs
  unfolding match_rules found
  match_rules-matches targets [] d = sym (append-nil d.matches)
  match_rules-matches targets (c ∷ cs) d =
      elim (Option-cases (match_targets find c targets c.rule.targets)) [
        | inl e ↦ rw (e, match_rules, found) (match_rules-matches targets cs d)
        | inr (m, e) ↦
            rw (e, match_rules, found)
              (match_rules-matches targets cs (add_match d m)
                ∙ append_assoc d.matches (m ∷ []) (found targets cs))
      ]

  match_rules-blocked :
      (targets : String → Text) (cs : List (CompiledRule Regex)) (d : Decision)
      → (match_rules find d targets cs).blocked ≡ d.blocked
  unfolding match_rules
  match_rules-blocked targets [] d = refl
  match_rules-blocked targets (c ∷ cs) d = ground (
    arith,
    match_rules-blocked targets cs (add_found d (match_targets find c targets c.rule.targets)),
  )

  length-found :
      (targets : String → Text) (cs : List (CompiledRule Regex))
      → length (found targets cs) ≤ length cs
  unfolding found
  length-found targets [] = omega arith
  length-found targets (c ∷ cs) = ground (arith, length-found targets cs)

abbrev pub Blocks : List Match → Type 0
Blocks ms = (m : Match) × In m ms × (m.action ≡ "block")

any-Blocks : (ms : List Match) → any (λ m. m.action == "block") ms ≡ true → Blocks ms
any-Blocks [] h = cc
any-Blocks (m ∷ ms) h = elim (Bool-cases (m.action == "block")) [
  | inl e ↦ (m, inl refl, (eq_iff m.action "block").0 e)
  | inr e ↦ let (x, i, b) = any-Blocks ms (ground arith) in (x, inr i, b)
]

Blocks-any :
    (ms : List Match) (x : Match)
    → In x ms
    → x.action ≡ "block"
    → any (λ m. m.action == "block") ms ≡ true
Blocks-any [] x i b = elim i [ ]
Blocks-any (m ∷ ms) x (inl e) b =
    ground (arith, (eq_iff m.action "block").1 (ap (λ (y : Match). y.action) (sym e) ∙ b))
Blocks-any (m ∷ ms) x (inr i) b = ground (arith, Blocks-any ms x i b)

module _ {Regex : Type 0} where
  decide_kept :
      (e : Engine Regex) (d : Decision)
      → ((decide e d).matches ≡ d.matches) × ((decide e d).score ≡ d.score)
  unfolding decide
  decide_kept e d = ground arith

  -- The engine blocks for the score or for one match whose action says so, and only in its blocking mode.
  abbrev pub Reasons : Engine Regex → Decision → Type 0
  Reasons e d = (e.mode ≡ "blocking") × ((e.block_threshold ≤ℤ d.score) ⊎ Blocks d.matches)

  should_block-Reasons :
      (e : Engine Regex) (d : Decision)
      → should_block e d ≡ true
      → (e.block_threshold ≤ℤ d.score) ⊎ Blocks d.matches
  should_block-Reasons e d h = elim (Bool-cases (leb_ℤ e.block_threshold d.score)) [
    | inl le ↦ inl (ground arith)
    | inr no_score ↦ inr (any-Blocks d.matches (ground arith))
  ]

  Reasons-should_block :
      (e : Engine Regex) (d : Decision)
      → (e.block_threshold ≤ℤ d.score) ⊎ Blocks d.matches
      → should_block e d ≡ true
  Reasons-should_block e d (inl le) = ground arith
  Reasons-should_block e d (inr (m, i, b)) = ground (arith, Blocks-any d.matches m i b)

  decide_blocked :
      (e : Engine Regex) (d : Decision)
      → d.blocked ≡ false
      → ((decide e d).blocked ≡ true) ↔ Reasons e d
  unfolding decide
  decide_blocked e d h = (
    (λ b. ((eq_iff e.mode "blocking").0 (ground arith), should_block-Reasons e d (ground arith))),
    (λ r. ground (arith, (eq_iff e.mode "blocking").1 r.0, Reasons-should_block e d r.1)),
  )

module _ {Regex : Type 0} (find : Regex → Text → Option (ℕ × ℕ)) (go : Go) (e : Engine Regex)
    (r : Request) (body : Text) where
  counted : Decision
  counted = match_rules find (framing r) (request_targets go r body) e.rules

  framing-Scored : Scored (framing r)
  framing-Scored = ground (arith, +ℤ-zero (pos 20), zero-+ℤ (pos 20))

  unblocked : counted.blocked ≡ false
  unfolding counted
  unblocked =
      match_rules-blocked find (request_targets go r body) e.rules (framing r) ∙ ground arith

  -- For every request: the matches are the framing match, where the framing is ambiguous, and then at
  -- most one of each rule, in the rules' order; the score is what those matches are worth that are not
  -- merely logged; and the request is blocked exactly when the engine is in its blocking mode and the
  -- score reaches the threshold or some match's action is to block.
  pub inspect_verdict :
      let d = inspect find go e (some r) body in
      (d.matches
        ≡ (if is_ambiguous r then framing_match ∷ [] else [])
          ++ found find (request_targets go r body) e.rules)
      × (d.score ≡ worth d.matches)
      × ((d.blocked ≡ true) ↔ Reasons e d)
  unfolding inspect counted
  inspect_verdict =
      let targets = request_targets go r body in
      let kept = decide_kept e counted in
      (
        kept.0
            ∙ match_rules-matches find targets e.rules (framing r)
            ∙ ap (λ ms. ms ++ found find targets e.rules) framing_matches,
        kept.1
            ∙ match_rules-Scored find targets e.rules (framing r) framing-Scored
            ∙ ap worth (sym kept.0),
        reasons,
      )
    where
      framing_matches : (framing r).matches ≡ (if is_ambiguous r then framing_match ∷ [] else [])
      framing_matches = ground arith

      same : Reasons e counted ↔ Reasons e (decide e counted)
      same =
          let kept = decide_kept e counted in
          ((λ x. rw (kept.0, kept.1) x), (λ x. rw (kept.0, kept.1) at x))

      reasons : ((decide e counted).blocked ≡ true) ↔ Reasons e (decide e counted)
      reasons =
          let iff = decide_blocked e counted unblocked in
          ((λ b. same.0 (iff.0 b)), (λ x. iff.1 (same.1 x)))
