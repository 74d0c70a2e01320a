-- ===== src/Examples/Pools.antt =====
-- The server pools of internal/proxy at concrete members and requests.
use cherry_waf.Base.{
  ℕ, zero, suc, ◌+◌, ◌*◌, ◌<◌, String, ◌≡◌, refl, ◌↔◌, ◌⊎◌, Bool, true, false, none, List, [], ◌∷◌,
  ◌++◌, arith, In, All, keep_if, codes, nat_eq, string_eq, text_eq, trim_space,
}
use cherry_waf.Base.Int.{pos}
use cherry_waf.Proxy.{Member, HealthCheck, Pool, weight_of, update_member}
use cherry_waf.Proxy.Weighted.{rounds, total_weight}
use cherry_waf.Proxy.Weighted.Fairness.{times}
use cherry_waf.Proxy.Weighted.Turns.{Even, turns_bounded, turns_exact}
use cherry_waf.Proxy.Select.{
  primary_backup, least_connections, select_member, candidates, eligible, usable, choose, Request,
}
use cherry_waf.Proxy.Select.Balance.{
  primary_backup_best, least_connections_best, NoMoreLoaded, NoLaterThan,
}
use cherry_waf.Proxy.Select.Eligible.{falls_back}
use cherry_waf.Proxy.Select.Sound.{select_member_sound, select_member-none, MayServe, Idle}
use cherry_waf.Proxy.Health.{record_failure}
use cherry_waf.Proxy.Health.Hysteresis.{good, bad, reports, AllBad, AllGood, Report}
use cherry_waf.Config.{validate_health_check, http_errors, upper_trimmed}
use cherry_waf.Config.Detection.{twenty_reports_decide}
use cherry_waf.Proxy.RoundTrip.{
  Outcome, response, failed, Selection, Exchange, round_trip, retryable, clone_error, second_try,
}
use cherry_waf.Proxy.RoundTrip.Retry.{Attempts, round_trip-Attempts, round_trip_served}

abbrev checks : HealthCheck
checks = record {
  enabled = true;
  kind = "http";
  interval_seconds = 10;
  timeout_seconds = 2;
  healthy_threshold = 2;
  unhealthy_threshold = 2;
  method = "GET";
  path = codes "/";
  host = "";
  expected_status_min = 200;
  expected_status_max = 399;
}

abbrev member : String → ℕ → Bool → Bool → Member
member id weight backup healthy = record {
  config = record {
    id = id;
    url = "http://10.0.0.1";
    enabled = true;
    weight = weight;
    priority = 1;
    backup = backup;
    origin_tls = record { server_name = ""; ca_file = ""; insecure_skip_verify = false };
  };
  health = checks;
  healthy = healthy;
  active = 0;
  requests = 0;
  failures = 0;
  consecutive_success = 0;
  consecutive_failures = 0;
  last_check = 0;
  last_error = [];
  current_weight = pos 0;
  checking = false;
}

abbrev heavy : Member
heavy = member "heavy" 2 false true

abbrev light : Member
light = member "light" 1 false true

abbrev spare : Member
spare = member "spare" 1 true true

abbrev pool : Pool
pool = record {
  config = record {
    name = "web";
    enabled = true;
    algorithm = "least_connections";
    failure_mode = "fail_closed";
    members = [];
    health_check = checks;
  };
  members = heavy ∷ spare ∷ [];
  rr = 0;
}

abbrev plain_request : Request
plain_request = record { persistence_mode = "none"; cookie = none; client_ip = codes "192.0.2.1" }

abbrev mac : List ℕ → List ℕ
mac bytes = bytes

abbrev encode : List ℕ → String
encode bytes = "token"

turns_bounded_example :
    All
      (λ x.
        times x.config.id (rounds 4 (heavy ∷ light ∷ [])).0 * total_weight (heavy ∷ light ∷ [])
        < 4 * weight_of x + total_weight (heavy ∷ light ∷ []))
      (heavy ∷ light ∷ [])
turns_bounded_example = turns_bounded 4 heavy (light ∷ []) (ground arith) (ground arith)

turns_exact_example :
    let (ids, ms) = rounds (total_weight (heavy ∷ light ∷ [])) (heavy ∷ light ∷ []) in
    All (λ x. times x.config.id ids ≡ weight_of x) (heavy ∷ light ∷ []) × Even ms
turns_exact_example = turns_exact heavy (light ∷ []) (ground arith) (ground arith)

primary_backup_best_example :
    In (primary_backup heavy (light ∷ [])) (heavy ∷ light ∷ [])
    × All (NoLaterThan (primary_backup heavy (light ∷ []))) (heavy ∷ light ∷ [])
primary_backup_best_example = primary_backup_best heavy (light ∷ [])

least_connections_best_example :
    In (least_connections heavy (light ∷ [])) (heavy ∷ light ∷ [])
    × All (NoMoreLoaded (least_connections heavy (light ∷ []))) (heavy ∷ light ∷ [])
least_connections_best_example = least_connections_best heavy (light ∷ [])

select_member_sound_example :
    (x : Member) × (x.config ≡ spare.config)
    × (MayServe pool ("heavy" ∷ []) false x
        ⊎ (MayServe pool ("heavy" ∷ []) true x
            × (falls_back pool ≡ true)
            × Idle pool ("heavy" ∷ []) false))
unfolding select_member candidates eligible keep_if usable choose least_connections
select_member_sound_example =
    select_member_sound mac encode pool plain_request ("heavy" ∷ []) spare refl

select_member-none_example :
    ((select_member mac encode pool plain_request ("heavy" ∷ "spare" ∷ [])).0 ≡ none)
    ↔ Idle pool ("heavy" ∷ "spare" ∷ []) (falls_back pool)
select_member-none_example =
    select_member-none mac encode pool plain_request ("heavy" ∷ "spare" ∷ [])

abbrev unchecked : Member
unchecked = record heavy { health = record checks { enabled = false } }

abbrev get_request : Exchange
get_request = record { request = plain_request; method = "GET"; has_body = false; get_body = none }

abbrev on_heavy : Selection
on_heavy = record { pool = pool; member = "heavy"; attempted = "heavy" ∷ [] }

-- The first exchange fails, and the second is answered.
abbrev send : ℕ → String → Outcome
send zero id = failed (codes "refused")
send (suc n) id = response 200

round_trip-Attempts_example :
    Attempts mac encode send get_request on_heavy
      (send 0 "heavy")
      (round_trip mac encode send get_request on_heavy).2
round_trip-Attempts_example = round_trip-Attempts mac encode send get_request on_heavy refl

round_trip_served_example :
    (((round_trip mac encode send get_request on_heavy).2 ≡ "heavy" ∷ [])
      × (send 0 "heavy" ≡ response 200))
    ⊎ ((other : String) × ((round_trip mac encode send get_request on_heavy).2
          ≡ "heavy" ∷ other ∷ [])
        × (send 1 other ≡ response 200))
unfolding round_trip retryable clone_error select_member candidates eligible keep_if usable choose
    least_connections second_try update_member record_failure
round_trip_served_example = round_trip_served mac encode send get_request on_heavy 200 refl

abbrev refused : Report
refused = bad (codes "refused")

abbrev five : List Report
five = refused ∷ refused ∷ refused ∷ refused ∷ refused ∷ []

twenty_reports_decide_example :
    (AllBad (five ++ (five ++ (five ++ five)))
      → (reports (good ∷ five ++ (five ++ (five ++ five))) heavy).healthy ≡ false)
    × (AllGood (five ++ (five ++ (five ++ five)))
        → (reports (refused ∷ five ++ (five ++ (five ++ five))) heavy).healthy ≡ true)
unfolding validate_health_check http_errors upper_trimmed trim_space
twenty_reports_decide_example =
    twenty_reports_decide (λ c. c) heavy (five ++ (five ++ (five ++ five))) (codes "refused") refl
      refl (omega arith)
