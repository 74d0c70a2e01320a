-- ===== src/Proxy/Health/Hysteresis.antt =====
-- A member goes out of service and comes back (internal/proxy/proxy.go, recordSuccess, recordFailure).
use cherry_waf.Base.{
  ◌+◌, ◌≤◌, ◌<◌, ◌≡◌, refl, true, false, ◌&&◌, ◌||◌, List, [], ◌∷◌, ◌++◌, arith, ltb, leb, length,
  Text, nat_eq, string_eq, text_eq,
}
use cherry_waf.Proxy.{Member}
use cherry_waf.Proxy.Health.{record_success, record_failure}

-- What is reported of a member, by probes and by requests alike.
pub data Report : Type 0 where
  good : Report
  bad : Text → Report

pub report : Report → Member → Member
report good m = record_success m
report (bad error) m = record_failure error m

-- Oldest first.
pub reports : List Report → Member → Member
reports [] m = m
reports (r ∷ rs) m = reports rs (report r m)

abbrev pub AllBad : List Report → Type 0
AllBad [] = Unit
AllBad (good ∷ rs) = ⊥
AllBad (bad e ∷ rs) = AllBad rs

abbrev pub AllGood : List Report → Type 0
AllGood [] = Unit
AllGood (good ∷ rs) = AllGood rs
AllGood (bad e ∷ rs) = ⊥

bad_run :
    (rs : List Report) (m : Member)
    → AllBad rs
    → m.health.enabled ≡ true
    → m.consecutive_failures + length rs < 2147483648
    → (m.health.unhealthy_threshold ≤ m.consecutive_failures → m.healthy ≡ false)
    → let m' = reports rs m in
      (m'.consecutive_failures ≡ m.consecutive_failures + length rs)
      × (m'.healthy
          ≡ (ltb (m.consecutive_failures + length rs) m.health.unhealthy_threshold && m.healthy))
unfolding reports report record_failure
bad_run [] m b h w k = ground arith
bad_run (good ∷ rs) m b h w k = elim b [ ]
bad_run (bad e ∷ rs) m b h w k = ground (arith, bad_run rs (record_failure e m) b)

good_run :
    (rs : List Report) (m : Member)
    → AllGood rs
    → m.health.enabled ≡ true
    → m.consecutive_success + length rs < 2147483648
    → (m.health.healthy_threshold ≤ m.consecutive_success → m.healthy ≡ true)
    → let m' = reports rs m in
      (m'.consecutive_success ≡ m.consecutive_success + length rs)
      × (m'.healthy
          ≡ (leb m.health.healthy_threshold (m.consecutive_success + length rs) || m.healthy))
unfolding reports report record_success
good_run [] m b h w k = ground arith
good_run (bad e ∷ rs) m b h w k = elim b [ ]
good_run (good ∷ rs) m b h w k = ground (arith, good_run rs (record_success m) b)

pub reports-append :
    (xs ys : List Report) (m : Member) → reports (xs ++ ys) m ≡ reports ys (reports xs m)
unfolding reports
reports-append [] ys m = refl
reports-append (x ∷ xs) ys m = reports-append xs ys (report x m)

-- A member that is out of service stays so under failures, however far their counter wraps around, and
-- one that is in service stays so under successes.
pub stays_down :
    (rs : List Report) (m : Member) → AllBad rs → m.healthy ≡ false → (reports rs m).healthy ≡ false
unfolding reports report record_failure
stays_down [] m b h = h
stays_down (good ∷ rs) m b h = elim b [ ]
stays_down (bad e ∷ rs) m b h = stays_down rs (record_failure e m) b (ground (arith, h))

pub stays_up :
    (rs : List Report) (m : Member) → AllGood rs → m.healthy ≡ true → (reports rs m).healthy ≡ true
unfolding reports report record_success
stays_up [] m b h = h
stays_up (bad e ∷ rs) m b h = elim b [ ]
stays_up (good ∷ rs) m b h = stays_up rs (record_success m) b (ground (arith, h))

-- With health checks on and a threshold of at least 1: of a run of failures that follows a success, the
-- threshold's failure and no earlier one takes the member out of service.
pub goes_down :
    (rs : List Report) (m : Member)
    → AllBad rs
    → m.health.enabled ≡ true
    → 0 < m.health.unhealthy_threshold
    → length rs < 2147483648
    → (reports (good ∷ rs) m).healthy
      ≡ (ltb (length rs) m.health.unhealthy_threshold && (record_success m).healthy)
unfolding reports report record_success
goes_down rs m b h p w = ground (arith, bad_run rs (record_success m) b)

-- With health checks on and a threshold of at least 1: of a run of successes that follows a failure, the
-- threshold's success and no earlier one brings a member back that is out of service.
pub comes_back :
    (rs : List Report) (m : Member) (error : Text)
    → AllGood rs
    → m.health.enabled ≡ true
    → 0 < m.health.healthy_threshold
    → length rs < 2147483648
    → (reports (bad error ∷ rs) m).healthy
      ≡ (leb m.health.healthy_threshold (length rs) || (record_failure error m).healthy)
unfolding reports report record_failure
comes_back rs m error b h p w = ground (arith, good_run rs (record_failure error m) b)
