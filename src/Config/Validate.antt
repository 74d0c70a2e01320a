-- ===== src/Config/Validate.antt =====
-- Validate and Load of internal/config/config.go, with what they read of a configuration. The maps of
-- names that are seen are lists.
pub mod Listeners
pub mod Pools
pub mod Hosts
pub mod Sound
pub mod Owners
pub mod Accepted
use cherry_waf.Base.{
  ℕ, zero, suc, ◌+◌, ◌-◌, ◌*◌, ◌/◌, ◌%◌, ◌^◌, ◌≤◌, ◌<◌, min, max, String, ◌≡◌, refl, sym, ap, subst,
  fun_ext, ◌∙◌, ◌≢◌, ◌↔◌, ◌⊎◌, inl, inr, Bool, true, false, not, ◌&&◌, ◌||◌, Option, none, some,
  List, [], ◌∷◌, ◌++◌, map, arith, eq_iff, ltb, leb, if◌then◌else◌, ltb→lt, lt→ltb, leb→le, nat_beq,
  nat_beq_iff, Bool-cases, Option-cases, length, get_elem?, take, drop, In, All, any, all, keep_if,
  find_first, length-append, length-take-le, length-keep_if-le, In-keep_if, In-keep_if_of, All-In,
  find_first-some, find_first-none, Eq, ◌==◌, list_beq, list_beq_iff, ==_refl, Text, codes, nat_eq,
  string_eq, text_eq, if_both, between, is_space, trim_left, trim_right, trim_space, rune_len,
  byte_len, strip_prefix, strip_suffix, to_lower, ◌>>=◌,
}
use cherry_waf.Base.Assoc.{get, put}
use cherry_waf.Proxy.{ServerPool}
use cherry_waf.Config.Types.{
  HttpConfig, HttpsConfig, AdminConfig, RateLimitConfig, ReputationConfig, SecurityConfig,
  RulesConfig, LoggingConfig, RedirectConfig, WafPolicyConfig, BotPolicyConfig, ContentRoute,
  FrontendTls, VirtualHost, Config, Url, Library,
}
use cherry_waf.Config.Domain.{normalize_domain}
use cherry_waf.Config.Defaults.{apply_defaults}
use cherry_waf.Config.Validate.Listeners.{listener_errors, security_errors}
use cherry_waf.Config.Validate.Pools.{pools_errors, names_seen}
use cherry_waf.Config.Validate.Hosts.{hosts_errors, owners}
use cherry_waf.Base.Trim.{trim_string}

-- `Validate`: no error is the empty list.
unfoldable pub validate : Library → Config → List String
unfolding listener_errors security_errors pools_errors names_seen hosts_errors owners
validate lib c =
    listener_errors lib c
    ++ security_errors lib c.security
    ++ pools_errors lib [] c.server_pools
    ++ hosts_errors lib c (names_seen [] (map (λ p. p.name) c.server_pools)) [] [] c.virtual_hosts
    ++ (if c.https.enabled then owners_error (owners lib [] c.virtual_hosts) else [])
  where
    owners_error : List (Text × String) → List String
    owners_error [] =
        "https.enabled requires at least one enabled virtual host with a certificate" ∷ []
    owners_error (o ∷ os) = []

-- What Validate writes: names of hosts are trimmed, and the domains of enabled hosts normalised.
unfoldable pub normalize_host : Library → VirtualHost → VirtualHost
unfolding trim_string normalize_domain
normalize_host lib v = record v {
  name = trim_string v.name;
  domains = if v.enabled then map (normalize_domain lib.lower) v.domains else v.domains;
}

unfoldable pub normalize : Library → Config → Config
unfolding normalize_host
normalize lib c = record c { virtual_hosts = map (normalize_host lib) c.virtual_hosts }

abbrev accept : Config → List String → Option Config
accept c [] = some c
accept c (e ∷ es) = none

-- `Load`, of what the decoder of the file gives.
unfoldable pub load : Library → Option Config → Option Config
unfolding validate normalize apply_defaults
load lib none = none
load lib (some c) =
    let filled = apply_defaults lib.itoa c in accept (normalize lib filled) (validate lib filled)

-- `EnabledVirtualHosts`
unfoldable pub enabled_virtual_hosts : Config → List VirtualHost
unfolding keep_if
enabled_virtual_hosts c = keep_if (λ v. v.enabled) c.virtual_hosts

-- `DomainNames`: `sort` is sort.Strings.
unfoldable pub domain_names : (List Text → List Text) → Config → List Text
unfolding enabled_virtual_hosts
domain_names sort c = sort (domains_of (enabled_virtual_hosts c))
  where
    domains_of : List VirtualHost → List Text
    domains_of [] = []
    domains_of (v ∷ vs) = v.domains ++ domains_of vs
