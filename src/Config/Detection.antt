-- ===== src/Config/Detection.antt =====
-- What a configuration that is accepted means for the health of a member (internal/config/config.go with
-- internal/proxy/proxy.go).
use cherry_waf.Base.{
  ℕ, zero, suc, ◌≤◌, String, ◌≡◌, refl, ap, subst, ◌∙◌, Bool, true, false, ◌||◌, List, [], ◌∷◌,
  ◌++◌, arith, if◌then◌else◌, length, ◌==◌, Text, nat_eq, string_eq, text_eq,
}
use cherry_waf.Proxy.{HealthCheck, Member}
use cherry_waf.Proxy.Health.Hysteresis.{
  Report, good, bad, reports, AllBad, AllGood, goes_down, comes_back, reports-append, stays_down,
  stays_up,
}
use cherry_waf.Config.{validate_health_check, http_errors, require, within}

require-nil :
    (b : Bool) (message : String) (rest : List String)
    → require b message ++ rest ≡ []
    → (b ≡ true) × (rest ≡ [])
require-nil true message rest h = (refl, h)
require-nil false message rest h = absurd (ground (arith, h))

pub thresholds :
    (upper : ℕ → ℕ) (c : HealthCheck)
    → validate_health_check upper c ≡ []
    → (within 1 20 c.healthy_threshold ≡ true) × (within 1 20 c.unhealthy_threshold ≡ true)
unfolding validate_health_check
thresholds upper c h =
    let a = require-nil (c.kind == "http" || c.kind == "tcp") "type must be http or tcp" _ h in
    let b =
      require-nil (within 2 3600 c.interval_seconds) "interval_seconds must be between 2 and 3600" _
        a.1 in
    let d =
      require-nil (within 1 60 c.timeout_seconds) "timeout_seconds must be between 1 and 60" _
        b.1 in
    let e =
      require-nil (within 1 20 c.healthy_threshold) "healthy_threshold must be between 1 and 20" _
        d.1 in
    let f =
      require-nil (within 1 20 c.unhealthy_threshold) "unhealthy_threshold must be between 1 and 20"
        (if c.kind == "http" then http_errors upper c else []) e.1 in
    (e.0, f.0)

-- The first of at least as many reports, and those after them.
split_at :
    (n : ℕ) (rs : List Report)
    → n ≤ length rs
    → (first : List Report) × (later : List Report) × (rs ≡ first ++ later) × (length first ≡ n)
split_at zero rs h = ([], rs, refl, refl)
split_at (suc n) [] h = absurd (omega (arith, h))
split_at (suc n) (r ∷ rs) h =
    let (first, later, same, count) = split_at n rs (omega (arith, h)) in
    (r ∷ first, later, ap (λ x. r ∷ x) same, omega (arith, count))

AllBad-append : (xs ys : List Report) → AllBad (xs ++ ys) → AllBad xs × AllBad ys
AllBad-append [] ys b = (tt, b)
AllBad-append (good ∷ xs) ys b = elim b [ ]
AllBad-append (bad e ∷ xs) ys b = AllBad-append xs ys b

AllGood-append : (xs ys : List Report) → AllGood (xs ++ ys) → AllGood xs × AllGood ys
AllGood-append [] ys b = (tt, b)
AllGood-append (good ∷ xs) ys b = AllGood-append xs ys b
AllGood-append (bad e ∷ xs) ys b = elim b [ ]

-- A member whose health checks are on and pass validation is out of service after a success and then
-- twenty or more failures in a row, and one that is checked so is in service after a failure and then
-- twenty or more successes in a row, whatever its thresholds are and however many reports there are.
pub twenty_reports_decide :
    (upper : ℕ → ℕ) (m : Member) (rs : List Report) (error : Text)
    → validate_health_check upper m.health ≡ []
    → m.health.enabled ≡ true
    → 20 ≤ length rs
    → (AllBad rs → (reports (good ∷ rs) m).healthy ≡ false)
      × (AllGood rs → (reports (bad error ∷ rs) m).healthy ≡ true)
twenty_reports_decide upper m rs error valid on many =
    let (back, down) = thresholds upper m.health valid in
    let (first, later, same, count) = split_at 20 rs many in
    (
      λ b.
          let (b, bs) = AllBad-append first later (subst AllBad same b) in
          ap (λ x. (reports (good ∷ x) m).healthy) same
          ∙ ap (λ x. x.healthy) (reports-append (good ∷ first) later m)
          ∙ stays_down later (reports (good ∷ first) m) bs (
              goes_down first m b on (ground (arith, down)) (omega (arith, count))
              ∙ ground (arith, count, down)),
      λ b.
          let (b, bs) = AllGood-append first later (subst AllGood same b) in
          ap (λ x. (reports (bad error ∷ x) m).healthy) same
          ∙ ap (λ x. x.healthy) (reports-append (bad error ∷ first) later m)
          ∙ stays_up later (reports (bad error ∷ first) m) bs (
              comes_back first m error b on (ground (arith, back)) (omega (arith, count))
              ∙ ground (arith, count, back)),
    )
