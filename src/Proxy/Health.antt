-- ===== src/Proxy/Health.antt =====
-- The health of a member: recordSuccess and recordFailure of internal/proxy/proxy.go, checkMember,
-- httpCheck's verdict and joinHealthPath of internal/proxy/health.go.
pub mod Hysteresis
use mathlib.Core.List.{reverse}
use cherry_waf.Base.{
  ℕ, zero, suc, ◌+◌, ◌-◌, ◌*◌, ◌/◌, ◌%◌, ◌^◌, ◌≤◌, ◌<◌, min, max, String, ◌≡◌, refl, sym, ap, subst,
  fun_ext, ◌∙◌, ◌≢◌, ◌↔◌, ◌⊎◌, inl, inr, Bool, true, false, not, ◌&&◌, ◌||◌, Option, none, some,
  List, [], ◌∷◌, ◌++◌, map, arith, eq_iff, ltb, leb, if◌then◌else◌, ltb→lt, lt→ltb, leb→le, nat_beq,
  nat_beq_iff, Bool-cases, Option-cases, length, get_elem?, take, drop, In, All, any, all, keep_if,
  find_first, length-append, length-take-le, length-keep_if-le, In-keep_if, In-keep_if_of, All-In,
  find_first-some, find_first-none, Eq, ◌==◌, list_beq, list_beq_iff, ==_refl, Text, codes, nat_eq,
  string_eq, text_eq, if_both, between, is_space, trim_left, trim_right, trim_space, rune_len,
  byte_len, strip_prefix, strip_suffix, to_lower, ◌>>=◌,
}
use cherry_waf.Proxy.{Member, HealthCheck, u64}

-- An atomic.Int32 that is added to, and its comparison with a threshold.
abbrev pub i32 : ℕ
i32 = 4294967296

abbrev pub reached : ℕ → ℕ → Bool
reached counter threshold = ltb counter 2147483648 && leb threshold counter

unfoldable pub record_success : Member → Member
record_success m =
    if m.health.enabled
    then (let n = (m.consecutive_success + 1) % i32 in
        record m {
          consecutive_failures = 0;
          consecutive_success = n;
          healthy = reached n m.health.healthy_threshold || m.healthy;
          last_error = [];
        })
    else record m { consecutive_failures = 0; healthy = true }

-- An error text is ASCII, so its first 256 bytes are its first 256 runes.
unfoldable pub limit_error : Text → Text
limit_error value = take 256 (trim_space value)

unfoldable pub record_failure : Text → Member → Member
record_failure error m =
    let failed = record m {
      failures = (m.failures + 1) % u64;
      consecutive_success = 0;
      last_error = limit_error error;
    } in
    let n = (m.consecutive_failures + 1) % i32 in
    if m.health.enabled
    then record failed {
      consecutive_failures = n;
      healthy = not (reached n m.health.unhealthy_threshold) && m.healthy;
    }
    else failed

-- What a probe of the origin came to: no connection or no response; a TCP connection, with what closing
-- it reported; or an HTTP status, with the text that fmt makes of a status out of range and with what
-- closing the body reported.
pub data Probe : Type 0 where
  unreachable : Text → Probe
  connected : Option Text → Probe
  answered : ℕ → Text → Option Text → Probe

abbrev pub status_expected : HealthCheck → ℕ → Bool
status_expected check status =
    not (ltb status check.expected_status_min || ltb check.expected_status_max status)

-- The error of `tcpCheck` or `httpCheck`.
abbrev pub check_error : HealthCheck → Probe → Option Text
check_error check (unreachable error) = some error
check_error check (connected closing) = closing
check_error check (answered status text closing) =
    if status_expected check status then closing else some text

abbrev pub verdict : Option Text → Member → Member
verdict (some error) m = record_failure (codes "active health check: " ++ error) m
verdict none m = record_success m

-- `checkMember` in the two moments at which other goroutines see it: it gives up where another check
-- of the member is running, and otherwise lets go of the member when it has the verdict.
pub begin_check : Member → Option Member
begin_check m = if m.checking then none else some (record m { checking = true })

pub finish_check : Member → ℕ → Probe → Member
unfolding record_success record_failure
finish_check m now probe =
    record (verdict (check_error m.health probe) (record m { last_check = now })) {
      checking = false;
    }

trim_slashes : Text → Text
trim_slashes [] = []
trim_slashes (c ∷ cs) = if nat_beq c b'/' then trim_slashes cs else c ∷ cs

pub join_health_path : Text → Text → Text
join_health_path base health =
    if base == [] || base == codes "/"
    then (if health == [] then codes "/" else health)
    else if health == [] || health == codes "/"
    then base
    else reverse (trim_slashes (reverse base)) ++ b'/' ∷ trim_slashes health
