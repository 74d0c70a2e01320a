-- ===== src/Examples/Settings.antt =====
-- A configuration that is accepted (internal/config/config.go), and what is built from it.
use Prim.Native.String.{◌++◌ as string_append}
use cherry_waf.Base.{
  ℕ, String, ◌≡◌, refl, inl, Bool, true, false, not, Option, none, some, [], ◌∷◌, if◌then◌else◌,
  nat_beq, All, ◌==◌, Text, codes, nat_eq, string_eq, text_eq, is_space, trim_space, byte_len,
  to_lower,
}
use cherry_waf.Base.Assoc.{get}
use cherry_waf.Base.Trim.{trim_string}
use cherry_waf.Proxy.{ServerPool, PoolMember, HealthCheck, OriginTls, Pool}
use cherry_waf.Config.Types.{ContentRoute, VirtualHost, Config, Url, Library}
use cherry_waf.Config.Domain.{normalize_domain, validate_domain_pattern}
use cherry_waf.Config.Validate.{validate}
use cherry_waf.Config.Validate.Hosts.{owners, server_pool_by_name}
use cherry_waf.Config.Validate.Accepted.{validated_domain}
use cherry_waf.Backend.{Backend}
use cherry_waf.Backend.Build.{new, is_direct}
use cherry_waf.Backend.Sound.{Plain, Built}
use cherry_waf.Backend.Sound.Served.{new_serves}

abbrev pub no_tls : OriginTls
no_tls = record { server_name = ""; ca_file = ""; insecure_skip_verify = false }

abbrev pub pool_member : String → PoolMember
pool_member id = record {
  id = id;
  url = "http://10.0.0.1";
  enabled = true;
  weight = 1;
  priority = 100;
  backup = false;
  origin_tls = no_tls;
}

abbrev pub checks : HealthCheck
checks = record {
  enabled = true;
  kind = "http";
  interval_seconds = 10;
  timeout_seconds = 3;
  healthy_threshold = 2;
  unhealthy_threshold = 3;
  method = "GET";
  path = codes "/";
  host = "";
  expected_status_min = 200;
  expected_status_max = 399;
}

abbrev pub web : ServerPool
web = record {
  name = "web";
  enabled = true;
  algorithm = "round_robin";
  failure_mode = "reject";
  members = pool_member "a" ∷ pool_member "b" ∷ [];
  health_check = checks;
}

abbrev api_route : ContentRoute
api_route = record {
  name = "api";
  enabled = true;
  pool = "web";
  methods = codes "GET" ∷ [];
  path_prefix = codes "/api";
  path_pattern = codes "^/api";
  header_name = [];
  header_pattern = [];
  query_name = [];
  query_pattern = [];
}

abbrev pub shop_host : VirtualHost
shop_host = record {
  name = "shop";
  enabled = true;
  domains = codes "Shop.Example.org" ∷ codes "*.shop.example.org" ∷ [];
  action = "group";
  upstream = [];
  server_pool = "web";
  redirect = record { url = []; status = 302 };
  discard_status = 403;
  preserve_host = true;
  frontend_tls = record { certificate_file = []; private_key_file = [] };
  origin_tls = no_tls;
  persistence = record { mode = "none"; cookie_name = codes "CWAF_ROUTE"; ttl_seconds = 3600 };
  waf_policy = record {
    mode = "inherit";
    block_threshold = 0;
    max_body_bytes = 0;
    builtins = none;
    rule_files = [];
    rate_limit = none;
    fail_mode = "closed";
    allow_cidrs = [];
    deny_cidrs = [];
  };
  bot_policy = record {
    enabled = false;
    mode = "monitor";
    requests_per_minute = 0;
    burst = 0;
    bad_user_agents = [];
    allow_user_agents = [];
  };
  content_routes = api_route ∷ [];
  request_headers = (codes "X-Shop", codes "1") ∷ [];
  response_headers = [];
}

abbrev pub shop : Config
shop = record {
  version = 1;
  http = record { enabled = true; listen = codes ":80"; redirect_to_https = false };
  https = record { enabled = false; listen = codes ":443"; min_tls_version = "1.2" };
  admin = record {
    enabled = false;
    listen = codes "127.0.0.1:9090";
    token_env = "CHERRYWAF_ADMIN_TOKEN";
    allow_public = false;
  };
  security = record {
    mode = "blocking";
    block_threshold = 10;
    max_body_bytes = 1048576;
    max_header_bytes = 1048576;
    trusted_proxies = [];
    forwarded_for_header = codes "X-Forwarded-For";
    rate_limit = record {
      enabled = false;
      requests_per_second = 50000;
      burst = 100;
      entry_ttl_seconds = 600;
    };
    reputation = record { enabled = false; mode = "monitor"; entries = []; files = [] };
  };
  rules = record { builtins = true; files = [] };
  logging = record { access_file = "-"; security_file = "-" };
  server_pools = web ∷ [];
  virtual_hosts = shop_host ∷ [];
}

-- A number below three.
abbrev itoa : ℕ → String
itoa n = if nat_beq n 1 then "1" else "2"

abbrev pub origin : Url
origin = record {
  scheme = codes "http";
  host = codes "10.0.0.1";
  has_user = false;
  fragment = [];
  path = [];
  raw_path = [];
  raw_query = [];
}

abbrev pub library : Library
library = record {
  parse_url = λ t. some origin;
  is_cidr = λ t. false;
  parse_ip = λ t. none;
  split_host_port = λ t. some ([], codes "80");
  compiles = λ t. not (t == []);
  itoa = itoa;
  lower = λ c. c;
  upper = λ c. c;
}

pub shop_accepted : validate library shop ≡ []
unfolding validate trim_space to_lower byte_len
shop_accepted = refl

validated_domain_example :
    (validate_domain_pattern library (normalize_domain library.lower (codes "Shop.Example.org"))
      ≡ none)
    × (get
          (normalize_domain library.lower (codes "Shop.Example.org"))
          (owners library [] shop.virtual_hosts)
        ≡ some (trim_string "shop"))
validated_domain_example =
    validated_domain library shop shop_accepted shop_host (codes "Shop.Example.org") (inl refl) refl
      (inl refl)

-- A pattern compiles to itself, and every file of certificates loads.
abbrev compile : Text → Option Text
compile t = some t

abbrev loads_all : String → Bool
loads_all file = true

abbrev text : Text → String
text t = "http://10.0.0.1"

shop-Plain : All Plain shop.server_pools
unfolding is_direct trim_space is_space
shop-Plain = ((refl, (refl, (refl, tt))), tt)

new_serves_example :
    (b : Backend Text) × (p : ServerPool) × (r : Pool) × (new library compile loads_all text
        shop_host shop
      ≡ some b)
    × (server_pool_by_name shop.server_pools "web" ≡ some p)
    × (get b.default_pool b.pools ≡ some r)
    × Built library compile loads_all text (λ file. refl) p r
new_serves_example =
    new_serves library compile loads_all text (λ file. refl) (λ t h. (t, refl)) shop shop_accepted
      shop-Plain shop_host (inl refl) refl refl refl

-- A name with two dots at its end is accepted, and kept with one of them.
two_dots :
    (normalize_domain library.lower (codes "a.org..") ≡ codes "a.org.")
    × (validate_domain_pattern library (codes "a.org.") ≡ none)
unfolding normalize_domain validate_domain_pattern trim_space to_lower byte_len is_space
two_dots = (refl, refl)
