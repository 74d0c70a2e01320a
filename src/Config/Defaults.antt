-- ===== src/Config/Defaults.antt =====
-- applyDefaults of internal/config/config.go: what stands for a setting that the file leaves out.
pub mod Stable
pub mod Filled
use cherry_waf.Base.{
  ℕ, zero, suc, ◌+◌, ◌-◌, ◌*◌, ◌/◌, ◌%◌, ◌^◌, ◌≤◌, ◌<◌, min, max, String, ◌≡◌, refl, sym, ap, subst,
  fun_ext, ◌∙◌, ◌≢◌, ◌↔◌, ◌⊎◌, inl, inr, Bool, true, false, not, ◌&&◌, ◌||◌, Option, none, some,
  List, [], ◌∷◌, ◌++◌, map, arith, eq_iff, ltb, leb, if◌then◌else◌, ltb→lt, lt→ltb, leb→le, nat_beq,
  nat_beq_iff, Bool-cases, Option-cases, length, get_elem?, take, drop, In, All, any, all, keep_if,
  find_first, length-append, length-take-le, length-keep_if-le, In-keep_if, In-keep_if_of, All-In,
  find_first-some, find_first-none, Eq, ◌==◌, list_beq, list_beq_iff, ==_refl, Text, codes, nat_eq,
  string_eq, text_eq, if_both, between, is_space, trim_left, trim_right, trim_space, rune_len,
  byte_len, strip_prefix, strip_suffix, to_lower, ◌>>=◌,
}
use Prim.Native.String.{◌++◌ as string_append}
use cherry_waf.Base.Trim.{trim_string}
use cherry_waf.Proxy.{ServerPool, PoolMember, HealthCheck}
use cherry_waf.Config.{Persistence}
use cherry_waf.Config.Types.{
  HttpConfig, HttpsConfig, AdminConfig, RateLimitConfig, ReputationConfig, SecurityConfig,
  RulesConfig, LoggingConfig, RedirectConfig, WafPolicyConfig, BotPolicyConfig, ContentRoute,
  FrontendTls, VirtualHost, Config, Url, Library,
}

-- `if x == empty { x = default }`
unfoldable pub fill : {A : Type 0} ⦃e : Eq A⦄ → A → A → A → A
fill empty default value = if value == empty then default else value

abbrev pub one_mebibyte : ℕ
one_mebibyte = 1048576

unfoldable pub default_rate_limit : RateLimitConfig → RateLimitConfig
unfolding fill
default_rate_limit r = record r {
  requests_per_second = fill 0 50000 r.requests_per_second;
  burst = fill 0 100 r.burst;
  entry_ttl_seconds = fill 0 600 r.entry_ttl_seconds;
}

unfoldable pub default_security : SecurityConfig → SecurityConfig
unfolding fill default_rate_limit
default_security s = record s {
  mode = fill "" "blocking" s.mode;
  block_threshold = fill 0 10 s.block_threshold;
  max_body_bytes = fill 0 one_mebibyte s.max_body_bytes;
  max_header_bytes = fill 0 one_mebibyte s.max_header_bytes;
  forwarded_for_header = fill [] (codes "X-Forwarded-For") s.forwarded_for_header;
  rate_limit = default_rate_limit s.rate_limit;
  reputation = record s.reputation { mode = fill "" "monitor" s.reputation.mode };
}

unfoldable pub default_health_check : HealthCheck → HealthCheck
unfolding fill
default_health_check h = record h {
  kind = fill "" "http" h.kind;
  interval_seconds = fill 0 10 h.interval_seconds;
  timeout_seconds = fill 0 3 h.timeout_seconds;
  healthy_threshold = fill 0 2 h.healthy_threshold;
  unhealthy_threshold = fill 0 3 h.unhealthy_threshold;
  method = fill "" "GET" h.method;
  path = fill [] (codes "/") h.path;
  expected_status_min = fill 0 200 h.expected_status_min;
  expected_status_max = fill 0 399 h.expected_status_max;
}

-- `"member-" + strconv.Itoa(memberIndex+1)`
abbrev pub member_id : (ℕ → String) → ℕ → String
member_id itoa index = string_append "member-" (itoa (index + 1))

unfoldable pub default_member : (ℕ → String) → ℕ → PoolMember → PoolMember
unfolding fill trim_string
default_member itoa index m = record m {
  id = fill "" (member_id itoa index) (trim_string m.id);
  weight = fill 0 1 m.weight;
  priority = fill 0 100 m.priority;
}

unfoldable pub default_members : (ℕ → String) → ℕ → List PoolMember → List PoolMember
unfolding default_member
default_members itoa index [] = []
default_members itoa index (m ∷ ms) =
    default_member itoa index m ∷ default_members itoa (index + 1) ms

unfoldable pub default_pool : (ℕ → String) → ServerPool → ServerPool
unfolding fill trim_string default_members default_health_check
default_pool itoa p = record p {
  name = trim_string p.name;
  algorithm = fill "" "round_robin" p.algorithm;
  failure_mode = fill "" "reject" p.failure_mode;
  members = default_members itoa 0 p.members;
  health_check = default_health_check p.health_check;
}

unfoldable pub default_persistence : Persistence → Persistence
unfolding fill
default_persistence p = record p {
  mode = fill "" "none" p.mode;
  cookie_name = fill [] (codes "CWAF_ROUTE") p.cookie_name;
  ttl_seconds = fill 0 3600 p.ttl_seconds;
}

-- The numbers of a bot policy are filled in only when it is enabled.
unfoldable pub default_bot_policy : BotPolicyConfig → BotPolicyConfig
unfolding fill
default_bot_policy b = record b {
  mode = fill "" "monitor" b.mode;
  requests_per_minute =
      if b.enabled then fill 0 300000 b.requests_per_minute else b.requests_per_minute;
  burst = if b.enabled then fill 0 60 b.burst else b.burst;
}

unfoldable pub default_virtual_host : VirtualHost → VirtualHost
unfolding fill trim_string default_persistence default_bot_policy
default_virtual_host v = record v {
  name = trim_string v.name;
  action = fill "" "group" v.action;
  redirect = record v.redirect { status = fill 0 302 v.redirect.status };
  discard_status = fill 0 403 v.discard_status;
  persistence = default_persistence v.persistence;
  waf_policy = record v.waf_policy {
    mode = fill "" "inherit" v.waf_policy.mode;
    fail_mode = fill "" "closed" v.waf_policy.fail_mode;
  };
  bot_policy = default_bot_policy v.bot_policy;
}

-- `applyDefaults`
unfoldable pub apply_defaults : (ℕ → String) → Config → Config
unfolding fill default_security default_pool default_virtual_host
apply_defaults itoa c = record c {
  version = fill 0 1 c.version;
  http = record c.http { listen = fill [] (codes ":80") c.http.listen };
  https = record c.https {
    listen = fill [] (codes ":443") c.https.listen;
    min_tls_version = fill "" "1.2" c.https.min_tls_version;
  };
  admin = record c.admin {
    listen = fill [] (codes "127.0.0.1:9090") c.admin.listen;
    token_env = fill "" "CHERRYWAF_ADMIN_TOKEN" c.admin.token_env;
  };
  security = default_security c.security;
  logging = record c.logging {
    access_file = fill "" "-" c.logging.access_file;
    security_file = fill "" "-" c.logging.security_file;
  };
  server_pools = map (default_pool itoa) c.server_pools;
  virtual_hosts = map default_virtual_host c.virtual_hosts;
}
