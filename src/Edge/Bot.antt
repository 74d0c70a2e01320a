-- ===== src/Edge/Bot.antt =====
-- The bot policy: internal/bot/engine.go. Matching a compiled pattern, which Go's regexp package does,
-- is a parameter.
use cherry_waf.Base.{
  ℕ, String, ◌≡◌, refl, sym, subst, ◌↔◌, ◌⊎◌, inl, inr, Bool, true, false, ◌||◌, Option, none, some,
  List, arith, if◌then◌else◌, Bool-cases, any, ◌==◌, Text, nat_eq, string_eq, text_eq, trim_space,
}
use cherry_waf.RateLimit.{Limiter, allow}

pub record Engine (Regex : Type 0) : Type 0 where
  pub mode : String
  pub bad : List Regex
  pub permitted : List Regex
  pub limiter : Option Limiter

pub record Decision : Type 0 where
  pub matched : Bool
  pub blocked : Bool
  pub kind : String

abbrev pub pass : Decision
pass = record { matched = false; blocked = false; kind = "" }

module _ {Regex : Type 0} (matches : Regex → Text → Bool) (key_of : Text → String) where
  abbrev pub found : Engine Regex → String → Decision
  found e kind = record { matched = true; blocked = e.mode == "block"; kind = kind }

  abbrev pub rated : Engine Regex → Limiter × Bool → Engine Regex × Decision
  rated e (l, granted) = (record e { limiter = some l }, if granted then pass else found e "rate")

  abbrev pub check_rate : Engine Regex → Text → ℕ → Option Limiter → Engine Regex × Decision
  check_rate e client now none = (e, pass)
  check_rate e client now (some l) = rated e (allow l (key_of (trim_space client)) now)

  -- `Inspect`; `key_of` is the client's text as a key of the limiter.
  unfoldable pub inspect : Engine Regex → Text → Text → ℕ → Engine Regex × Decision
  unfolding allow
  inspect e client agent now =
      if any (λ r. matches r agent) e.permitted
      then (e, pass)
      else if any (λ r. matches r agent) e.bad
      then (e, found e "user_agent")
      else check_rate e client now e.limiter

  -- The client's rate is limited, and exceeded.
  abbrev pub Exceeded : Text → ℕ → Option Limiter → Type 0
  Exceeded client now r =
      (l : Limiter) × (r ≡ some l) × ((allow l (key_of (trim_space client)) now).1 ≡ false)

  check_rate-Exceeded :
      (e : Engine Regex) (client : Text) (now : ℕ) (r : Option Limiter)
      → ((check_rate e client now r).1.blocked ≡ true)
        ↔ (((e.mode == "block") ≡ true) × Exceeded client now r)
  check_rate-Exceeded e client now none =
      ((λ h. absurd (ground (arith, h))), (λ (m, (l, is, x)). absurd (ground (arith, is))))
  check_rate-Exceeded e client now (some l) =
      elim (Bool-cases (allow l (key_of (trim_space client)) now).1) [
        | inl granted ↦ (
          (λ h. absurd (ground (arith, h, granted))),
          (λ (m, (l', is, x)). absurd (ground (arith, is, x, granted))),
        )
        | inr refused ↦ (
          (λ h. (ground (arith, h, refused), (l, refl, refused))),
          (λ (m, x). ground (arith, m, refused)),
        )
      ]

  rated_only :
      (e : Engine Regex) (client agent : Text) (now : ℕ)
      → any (λ r. matches r agent) e.permitted ≡ false
      → any (λ r. matches r agent) e.bad ≡ false
      → inspect e client agent now ≡ check_rate e client now e.limiter
  unfolding inspect
  rated_only e client agent now p b = rw (p, b) refl

  -- The bot policy blocks a request exactly if it is in block mode, the allow list does not match the
  -- agent, and the agent is a bad one or the client's rate is exceeded. An agent that either list matches
  -- draws no token.
  pub bot_verdict :
      (e : Engine Regex) (client agent : Text) (now : ℕ)
      → (((inspect e client agent now).1.blocked ≡ true) ↔ (
          ((e.mode == "block") ≡ true)
          × (any (λ r. matches r agent) e.permitted ≡ false)
          × ((any (λ r. matches r agent) e.bad ≡ true) ⊎ Exceeded client now e.limiter)))
        × ((any (λ r. matches r agent) e.permitted || any (λ r. matches r agent) e.bad) ≡ true
            → (inspect e client agent now).0 ≡ e)
  unfolding inspect
  bot_verdict e client agent now = elim (Bool-cases (any (λ r. matches r agent) e.permitted)) [
    | inl p ↦ (
      ((λ h. absurd (ground (arith, h, p))), (λ x. absurd (ground (arith, x.1, p)))),
      (λ h. ground (arith, p)),
    )
    | inr p ↦ elim (Bool-cases (any (λ r. matches r agent) e.bad)) [
      | inl b ↦ (
        ((λ h. (ground (arith, h, p, b), p, inl b)), (λ x. ground (arith, x.0, p, b))),
        (λ h. ground (arith, p, b)),
      )
      | inr b ↦
          let only = rated_only e client agent now p b in
          let rate = check_rate-Exceeded e client now e.limiter in
          (
            (
              λ h.
                  let found =
                    rate.0 (subst (λ (x : Engine Regex × Decision). x.1.blocked ≡ true) only h) in
                  (found.0, p, inr found.1),
              λ (m, q, x). elim x [
                | inl bad ↦ absurd (ground (arith, bad, b))
                | inr over ↦
                    subst (λ (x : Engine Regex × Decision). x.1.blocked ≡ true) (sym only)
                      (rate.1 (m, over))
              ],
            ),
            λ h. absurd (ground (arith, h, p, b)),
          )
    ]
  ]
