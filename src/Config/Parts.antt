-- ===== src/Config/Parts.antt =====
-- The checks of single settings in internal/config/config.go. Each returns its errors in order; an error
-- is its message, without the values that are formatted into it, and a wrapped error is what it wraps.
use cherry_waf.Base.{
  ℕ, String, Bool, false, not, ◌&&◌, ◌||◌, Option, none, some, List, [], ◌∷◌, ◌++◌, map, ltb, leb,
  if◌then◌else◌, nat_beq, any, all, ◌==◌, Text, codes, nat_eq, string_eq, text_eq, trim_space,
  byte_len, to_lower,
}
use cherry_waf.Base.Replace.{replace_words}
use cherry_waf.Edge.Reputation.{before_comment, fields_from}
use cherry_waf.Proxy.{OriginTls}
use cherry_waf.Config.{require, within, starts_with_slash}
use cherry_waf.Config.Types.{
  RateLimitConfig, RedirectConfig, WafPolicyConfig, BotPolicyConfig, Url, Library,
}
use cherry_waf.Config.Domain.{contains_rune, is_ip}

abbrev pub is_one_of : List String → String → Bool
is_one_of names name = any (λ n. name == n) names

abbrev pub error_of : Option String → List String
error_of none = []
error_of (some e) = e ∷ []

-- The errors of each element, in order.
unfoldable pub each : {A : Type 0} → (A → List String) → List A → List String
each f [] = []
each f (x ∷ xs) = f x ++ each f xs

abbrev pub is_blank : Text → Bool
is_blank value = trim_space value == []

unfoldable pub valid_header_value : Text → Bool
valid_header_value value =
    not (ltb 8192 (byte_len value) || any (λ c. nat_beq c b'\r' || nat_beq c b'\n') value)
    && all (λ c. nat_beq c b'\t' || leb 0x20 c) value

abbrev pub is_word : List String → Text → Bool
is_word words low = any (λ w. low == codes w) words

unfoldable pub forbidden_request_name : Text → Bool
forbidden_request_name = is_word (
    "connection" ∷ "content-length" ∷ "cookie" ∷ "forwarded" ∷ "host" ∷ "keep-alive"
    ∷ "proxy-authorization" ∷ "proxy-connection" ∷ "te" ∷ "trailer" ∷ "transfer-encoding"
    ∷ "upgrade" ∷ "x-forwarded-for" ∷ "x-forwarded-host" ∷ "x-forwarded-proto" ∷ [])

unfoldable pub forbidden_request_header : (ℕ → ℕ) → Text → Bool
unfolding forbidden_request_name
forbidden_request_header lower value = forbidden_request_name (map (to_lower lower) value)

unfoldable pub forbidden_response_header : (ℕ → ℕ) → Text → Bool
forbidden_response_header lower value =
    is_word
      ("connection" ∷ "content-length" ∷ "keep-alive" ∷ "proxy-authenticate" ∷ "proxy-authorization"
        ∷ "proxy-connection" ∷ "te" ∷ "trailer" ∷ "transfer-encoding" ∷ "upgrade" ∷ [])
      (map (to_lower lower) value)

unfoldable pub validate_rate_limit : RateLimitConfig → List String
validate_rate_limit r =
    require (not (nat_beq r.requests_per_second 0)) "requests_per_second must be greater than zero"
    ++ require (not (ltb r.burst 1)) "burst must be at least one"
    ++ require (not (ltb r.entry_ttl_seconds 30)) "entry_ttl_seconds must be at least 30"

abbrev rate_limit_if_enabled : Option RateLimitConfig → List String
rate_limit_if_enabled none = []
rate_limit_if_enabled (some r) = if r.enabled then validate_rate_limit r else []

unfoldable pub validate_ip_or_cidr : Library → Text → List String
validate_ip_or_cidr lib value =
    let value = trim_space value in
    if value == []
    then "value must not be empty" ∷ []
    else if contains_rune b'/' value
    then require (lib.is_cidr value) "invalid CIDR address"
    else require (is_ip (lib.parse_ip value)) "must be an IP address or CIDR"

abbrev first_field : Library → List Text → List String
first_field lib [] = "entry must not be empty" ∷ []
first_field lib (field ∷ rest) = validate_ip_or_cidr lib field

unfoldable pub validate_reputation_entry : Library → Text → List String
unfolding validate_ip_or_cidr
validate_reputation_entry lib value =
    first_field lib (fields_from [] (trim_space (before_comment (trim_space value))))

unfoldable pub validate_waf_policy : Library → WafPolicyConfig → List String
unfolding validate_ip_or_cidr validate_rate_limit each
validate_waf_policy lib p =
    require (is_one_of ("inherit" ∷ "detect" ∷ "blocking" ∷ "disabled" ∷ []) p.mode)
      "mode must be inherit, detect, blocking, or disabled"
    ++ require (nat_beq p.block_threshold 0 || within 1 1000 p.block_threshold)
        "block_threshold must be zero or between 1 and 1000"
    ++ require (nat_beq p.max_body_bytes 0 || within 1024 134217728 p.max_body_bytes)
        "max_body_bytes must be zero or between 1024 and 134217728"
    ++ require (p.fail_mode == "closed" || p.fail_mode == "open") "fail_mode must be closed or open"
    ++ rate_limit_if_enabled p.rate_limit
    ++ each (validate_ip_or_cidr lib) (p.allow_cidrs ++ p.deny_cidrs)
    ++ each (λ path. require (not (is_blank path)) "rule_files must not contain empty paths")
        p.rule_files

abbrev pattern_errors : Library → Text → List String
pattern_errors lib pattern =
    if within 1 4096 (byte_len pattern)
    then require (lib.compiles pattern) "compile user-agent pattern"
    else "user-agent patterns must be between 1 and 4096 bytes" ∷ []

unfoldable pub validate_bot_policy : Library → BotPolicyConfig → List String
unfolding each
validate_bot_policy lib b =
    if not b.enabled
    then []
    else require (b.mode == "monitor" || b.mode == "block") "mode must be monitor or block"
      ++ require (within 1 1000000000 b.requests_per_minute)
          "requests_per_minute must be greater than zero and at most 1000000"
      ++ require (within 1 1000000 b.burst) "burst must be between 1 and 1000000"
      ++ each (pattern_errors lib) (b.bad_user_agents ++ b.allow_user_agents)

abbrev is_web : Url → Bool
is_web u = u.scheme == codes "http" || u.scheme == codes "https"

abbrev is_absolute : Option Url → Bool
is_absolute none = false
is_absolute (some u) = not (u.scheme == [] || u.host == []) && is_web u

abbrev sample_words : List (Text × Text)
sample_words =
    (codes "{host}", codes "example.test")
    ∷ (codes "{request_uri}", codes "/request/path?query=1")
    ∷ (codes "{path}", codes "/request/path")
    ∷ (codes "{query}", codes "query=1")
    ∷ []

-- `validateRedirect`: its error, if any.
unfoldable pub validate_redirect : Library → RedirectConfig → Option String
unfolding replace_words
validate_redirect lib r =
    let candidate = replace_words sample_words 0 r.url in
    if any (λ c. nat_beq c b'\r' || nat_beq c b'\n') r.url
    then some "url must not contain line breaks"
    else if is_blank r.url
    then some "url must not be empty"
    else if not (starts_with_slash candidate) && not (is_absolute (lib.parse_url candidate))
    then some "url must be an absolute HTTP/HTTPS URL or begin with /"
    else if any (nat_beq r.status) (301 ∷ 302 ∷ 303 ∷ 307 ∷ 308 ∷ [])
    then none
    else some "status must be 301, 302, 303, 307, or 308"

unfoldable pub has_origin_tls : OriginTls → Bool
has_origin_tls t = not (t.ca_file == "") || not (t.server_name == "") || t.insecure_skip_verify

abbrev pub url_errors : Option Url → OriginTls → List String
url_errors none tls = "must be an absolute http or https URL" ∷ []
url_errors (some u) tls =
    if u.host == [] || not (is_web u)
    then "must be an absolute http or https URL" ∷ []
    else if u.has_user
    then "must not contain embedded credentials" ∷ []
    else if not (u.fragment == [])
    then "must not contain a URL fragment" ∷ []
    else require (not (u.scheme == codes "http" && has_origin_tls tls))
        "defines origin_tls for a plain HTTP URL"

-- `validateUpstreamURL`, with the check of its callers that follows.
unfoldable pub validate_upstream : Library → Text → OriginTls → List String
unfolding has_origin_tls
validate_upstream lib value tls = url_errors (lib.parse_url (trim_space value)) tls

abbrev port_error : Option (Text × Text) → List String
port_error none = "must be in host:port form" ∷ []
port_error (some (host, port)) = require (not (port == [])) "port must not be empty"

unfoldable pub validate_listen : Library → Text → List String
validate_listen lib value =
    if is_blank value
    then "listen address must not be empty" ∷ []
    else port_error (lib.split_host_port value)

abbrev loopback_ip : Option Bool → Bool
loopback_ip none = false
loopback_ip (some loopback) = loopback

abbrev loopback_host : Library → Option (Text × Text) → Bool
loopback_host lib none = false
loopback_host lib (some (host, port)) = host == codes "localhost" || loopback_ip (lib.parse_ip host)

unfoldable pub is_loopback_listen : Library → Text → Bool
is_loopback_listen lib value = loopback_host lib (lib.split_host_port value)
