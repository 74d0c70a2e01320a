-- ===== src/Config/Validate/Listeners.antt =====
-- The listeners and the security section in Validate of internal/config/config.go.
use cherry_waf.Base.{
  String, not, ◌&&◌, ◌||◌, List, [], ◌++◌, if◌then◌else◌, nat_beq, ◌==◌, nat_eq, string_eq, text_eq,
}
use cherry_waf.Config.{require, within, valid_method}
use cherry_waf.Config.Types.{
  HttpConfig, HttpsConfig, AdminConfig, ReputationConfig, SecurityConfig, Config, Library,
}
use cherry_waf.Config.Parts.{
  each, is_blank, validate_rate_limit, validate_reputation_entry, validate_listen,
  is_loopback_listen,
}

http_listener : Library → HttpConfig → List String
unfolding validate_listen
http_listener lib h = if h.enabled then validate_listen lib h.listen else []

https_listener : Library → HttpsConfig → List String
unfolding validate_listen
https_listener lib h =
    if h.enabled
    then validate_listen lib h.listen
      ++ require (h.min_tls_version == "1.2" || h.min_tls_version == "1.3")
          "https.min_tls_version must be \"1.2\" or \"1.3\""
    else []

unfoldable pub admin_listener : Library → AdminConfig → List String
unfolding validate_listen is_loopback_listen
admin_listener lib a =
    if a.enabled
    then validate_listen lib a.listen
      ++ require (a.allow_public || is_loopback_listen lib a.listen)
          "admin.listen must use a loopback address unless admin.allow_public=true"
      ++ require (not (a.token_env == "")) "admin.token_env must not be empty"
    else []

unfoldable pub listener_errors : Library → Config → List String
unfolding http_listener https_listener admin_listener
listener_errors lib c =
    require (nat_beq c.version 1) "unsupported config version"
    ++ require (c.http.enabled || c.https.enabled)
        "at least one of http.enabled or https.enabled must be true"
    ++ http_listener lib c.http
    ++ https_listener lib c.https
    ++ require (not (c.http.redirect_to_https && not c.https.enabled))
        "http.redirect_to_https requires https.enabled=true"
    ++ admin_listener lib c.admin

reputation_errors : Library → ReputationConfig → List String
unfolding each validate_reputation_entry
reputation_errors lib r =
    require (r.mode == "monitor" || r.mode == "block")
      "security.reputation.mode must be \"monitor\" or \"block\""
    ++ each (validate_reputation_entry lib) r.entries
    ++ each
        (λ path.
          require (not (is_blank path)) "security.reputation.files must not contain empty paths")
        r.files

unfoldable pub security_errors : Library → SecurityConfig → List String
unfolding each validate_rate_limit valid_method reputation_errors
security_errors lib s =
    require (s.mode == "blocking" || s.mode == "detect")
      "security.mode must be \"blocking\" or \"detect\""
    ++ require (within 1 1000 s.block_threshold)
        "security.block_threshold must be between 1 and 1000"
    ++ require (within 1024 134217728 s.max_body_bytes)
        "security.max_body_bytes must be between 1024 and 134217728"
    ++ require (within 8192 16777216 s.max_header_bytes)
        "security.max_header_bytes must be between 8192 and 16777216"
    ++ (if s.rate_limit.enabled then validate_rate_limit s.rate_limit else [])
    ++ require (valid_method s.forwarded_for_header)
        "security.forwarded_for_header must be a valid HTTP header name"
    ++ each (λ cidr. require (lib.is_cidr cidr) "security.trusted_proxies contains invalid CIDR")
        s.trusted_proxies
    ++ reputation_errors lib s.reputation
