-- ===== src/Config/Types.antt =====
-- The configuration file: the structs of internal/config/config.go. A rate, which is a float64 there, is
-- a number of thousandths of a request; negative numbers, which validation refuses, are left out.
use cherry_waf.Base.{ℕ, String, Bool, Option, List, Text, nat_eq, string_eq, text_eq}
use cherry_waf.Proxy.{ServerPool, OriginTls}
use cherry_waf.Config.{Persistence}

pub record HttpConfig : Type 0 where
  pub enabled : Bool
  pub listen : Text
  pub redirect_to_https : Bool

pub record HttpsConfig : Type 0 where
  pub enabled : Bool
  pub listen : Text
  pub min_tls_version : String

pub record AdminConfig : Type 0 where
  pub enabled : Bool
  pub listen : Text
  pub token_env : String
  pub allow_public : Bool

pub record RateLimitConfig : Type 0 where
  pub enabled : Bool
  pub requests_per_second : ℕ
  pub burst : ℕ
  pub entry_ttl_seconds : ℕ

pub record ReputationConfig : Type 0 where
  pub enabled : Bool
  pub mode : String
  pub entries : List Text
  pub files : List Text

pub record SecurityConfig : Type 0 where
  pub mode : String
  pub block_threshold : ℕ
  pub max_body_bytes : ℕ
  pub max_header_bytes : ℕ
  pub trusted_proxies : List Text
  pub forwarded_for_header : Text
  pub rate_limit : RateLimitConfig
  pub reputation : ReputationConfig

pub record RulesConfig : Type 0 where
  pub builtins : Bool
  pub files : List Text

pub record LoggingConfig : Type 0 where
  pub access_file : String
  pub security_file : String

pub record RedirectConfig : Type 0 where
  pub url : Text
  pub status : ℕ

-- A pointer that may be nil is an option.
pub record WafPolicyConfig : Type 0 where
  pub mode : String
  pub block_threshold : ℕ
  pub max_body_bytes : ℕ
  pub builtins : Option Bool
  pub rule_files : List Text
  pub rate_limit : Option RateLimitConfig
  pub fail_mode : String
  pub allow_cidrs : List Text
  pub deny_cidrs : List Text

pub record BotPolicyConfig : Type 0 where
  pub enabled : Bool
  pub mode : String
  pub requests_per_minute : ℕ
  pub burst : ℕ
  pub bad_user_agents : List Text
  pub allow_user_agents : List Text

pub record ContentRoute : Type 0 where
  pub name : String
  pub enabled : Bool
  pub pool : String
  pub methods : List Text
  pub path_prefix : Text
  pub path_pattern : Text
  pub header_name : Text
  pub header_pattern : Text
  pub query_name : Text
  pub query_pattern : Text

pub record FrontendTls : Type 0 where
  pub certificate_file : Text
  pub private_key_file : Text

pub record VirtualHost : Type 0 where
  pub name : String
  pub enabled : Bool
  pub domains : List Text
  pub action : String
  pub upstream : Text
  pub server_pool : String
  pub redirect : RedirectConfig
  pub discard_status : ℕ
  pub preserve_host : Bool
  pub frontend_tls : FrontendTls
  pub origin_tls : OriginTls
  pub persistence : Persistence
  pub waf_policy : WafPolicyConfig
  pub bot_policy : BotPolicyConfig
  pub content_routes : List ContentRoute
  pub request_headers : List (Text × Text)
  pub response_headers : List (Text × Text)

pub record Config : Type 0 where
  pub version : ℕ
  pub http : HttpConfig
  pub https : HttpsConfig
  pub admin : AdminConfig
  pub security : SecurityConfig
  pub rules : RulesConfig
  pub logging : LoggingConfig
  pub server_pools : List ServerPool
  pub virtual_hosts : List VirtualHost

-- `url.URL`, as far as the code reads it.
pub record Url : Type 0 where
  pub scheme : Text
  pub host : Text
  pub has_user : Bool
  pub fragment : Text
  pub path : Text
  pub raw_path : Text
  pub raw_query : Text

-- What the code takes of Go's library: net, net/url, regexp, strconv and the tables of unicode.
-- `parse_ip` is none for no address and otherwise says whether it is a loopback one.
pub record Library : Type 0 where
  pub parse_url : Text → Option Url
  pub is_cidr : Text → Bool
  pub parse_ip : Text → Option Bool
  pub split_host_port : Text → Option (Text × Text)
  pub compiles : Text → Bool
  pub itoa : ℕ → String
  pub lower : ℕ → ℕ
  pub upper : ℕ → ℕ
