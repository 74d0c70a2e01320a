-- ===== src/Config.antt =====
-- What the configuration of a pool must satisfy: validateHealthCheck, validatePersistence, validMethod
-- and validCookieName of internal/config/config.go. Numbers that are negative in the file, which are
-- refused, are left out.
pub mod Detection
pub mod Types
pub mod Defaults
pub mod Domain
pub mod Parts
pub mod Validate
use cherry_waf.Base.{
  ℕ, zero, suc, ◌+◌, ◌-◌, ◌*◌, ◌/◌, ◌%◌, ◌^◌, ◌≤◌, ◌<◌, min, max, String, ◌≡◌, refl, sym, ap, subst,
  fun_ext, ◌∙◌, ◌≢◌, ◌↔◌, ◌⊎◌, inl, inr, Bool, true, false, not, ◌&&◌, ◌||◌, Option, none, some,
  List, [], ◌∷◌, ◌++◌, map, arith, eq_iff, ltb, leb, if◌then◌else◌, ltb→lt, lt→ltb, leb→le, nat_beq,
  nat_beq_iff, Bool-cases, Option-cases, length, get_elem?, take, drop, In, All, any, all, keep_if,
  find_first, length-append, length-take-le, length-keep_if-le, In-keep_if, In-keep_if_of, All-In,
  find_first-some, find_first-none, Eq, ◌==◌, list_beq, list_beq_iff, ==_refl, Text, codes, nat_eq,
  string_eq, text_eq, if_both, between, is_space, trim_left, trim_right, trim_space, rune_len,
  byte_len, strip_prefix, strip_suffix, to_lower, ◌>>=◌,
}
use cherry_waf.Proxy.{HealthCheck}

-- An error that is appended when the test fails.
abbrev pub require : Bool → String → List String
require true message = []
require false message = message ∷ []

abbrev pub within : ℕ → ℕ → ℕ → Bool
within lo hi n = not (ltb n lo || ltb hi n)

-- `strings.ToUpper`; `upper` raises a rune outside ASCII.
abbrev pub to_upper : (ℕ → ℕ) → ℕ → ℕ
to_upper upper c = if ltb c 0x80 then (if between b'a' b'z' c then c - 32 else c) else upper c

-- `strings.ToUpper(strings.TrimSpace(…))`
unfoldable pub upper_trimmed : (ℕ → ℕ) → Text → Text
upper_trimmed upper value = map (to_upper upper) (trim_space value)

abbrev pub starts_with_slash : Text → Bool
starts_with_slash [] = false
starts_with_slash (c ∷ cs) = nat_beq c b'/'

-- The errors of an HTTP check.
unfoldable pub http_errors : (ℕ → ℕ) → HealthCheck → List String
unfolding upper_trimmed
http_errors upper c =
    let method = upper_trimmed upper (codes c.method) in
    require (starts_with_slash c.path) "path must begin with / for HTTP health checks"
    ++ require (method == codes "GET" || method == codes "HEAD") "method must be GET or HEAD"
    ++ require
        (not (
          ltb c.expected_status_min 100
          || ltb 599 c.expected_status_min
          || ltb c.expected_status_max c.expected_status_min
          || ltb 599 c.expected_status_max))
        "expected status range must be within 100..599"

-- `validateHealthCheck`: no error is the empty list.
unfoldable pub validate_health_check : (ℕ → ℕ) → HealthCheck → List String
unfolding http_errors
validate_health_check upper c =
    require (c.kind == "http" || c.kind == "tcp") "type must be http or tcp"
    ++ (require (within 2 3600 c.interval_seconds) "interval_seconds must be between 2 and 3600"
        ++ (require (within 1 60 c.timeout_seconds) "timeout_seconds must be between 1 and 60"
            ++ (require (within 1 20 c.healthy_threshold)
                  "healthy_threshold must be between 1 and 20"
                ++ (require (within 1 20 c.unhealthy_threshold)
                      "unhealthy_threshold must be between 1 and 20"
                    ++ (if c.kind == "http" then http_errors upper c else [])))))

-- `validMethod`, and so `validCookieName`.
pub is_token_rune : ℕ → Bool
is_token_rune c =
    between b'A' b'Z' c
    || between b'a' b'z' c
    || between b'0' b'9' c
    || any (nat_beq c) (codes "!#$%&'*+-.^_`|~")

pub valid_method : Text → Bool
unfolding is_token_rune
valid_method value = let token = trim_space value in not (token == []) && all is_token_rune token

pub record Persistence : Type 0 where
  pub mode : String
  pub cookie_name : Text
  pub ttl_seconds : ℕ

-- `validatePersistence`: its error, if any.
pub validate_persistence : Persistence → Option String
unfolding valid_method
validate_persistence p =
    if not (p.mode == "none" || p.mode == "source_ip" || p.mode == "cookie")
    then some "mode must be none, source_ip, or cookie"
    else if not (p.mode == "cookie")
    then none
    else if not (valid_method p.cookie_name)
    then some "cookie_name is not a valid cookie name"
    else if ltb p.ttl_seconds 60 || ltb 2592000 p.ttl_seconds
    then some "ttl_seconds must be between 60 and 2592000"
    else none
