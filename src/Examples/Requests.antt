-- ===== src/Examples/Requests.antt =====
-- Requests (internal/app/app.go and internal/proxy/proxy.go) at concrete inputs.
use cherry_waf.Base.{
  ℕ, ◌≡◌, refl, ◌↔◌, true, false, Option, none, some, List, [], ◌∷◌, map, ◌==◌, Text, codes, nat_eq,
  string_eq, text_eq, is_space, trim_space, byte_len, strip_suffix, to_lower,
}
use cherry_waf.Base.Assoc.{get}
use cherry_waf.Proxy.{Pool}
use cherry_waf.Config.Types.{Config, Url}
use cherry_waf.Config.Parts.{each, forbidden_request_header}
use cherry_waf.Config.Validate.Hosts.{header_errors}
use cherry_waf.Backend.Build.{fresh_member}
use cherry_waf.Backend.Serve.Headers.{Outgoing, rewrite, rewrite_keeps_managed}
use cherry_waf.App.{Stream, Route, Runtime, Request, Platform, State}
use cherry_waf.App.Body.{inspection_body, Whole, inspection_body-Whole}
use cherry_waf.App.Handler.{handle}
use cherry_waf.App.Handler.Cleared.{forwards, clears, forwards-handle}
use cherry_waf.App.Reload.{
  opened, reload_all, close_runtimes, count, built, closed_once, Serves, reloads_keep_listeners,
}
use cherry_waf.App.Admin.{authorized, authorized_iff, provided_token}
use cherry_waf.Examples.Settings.{shop, shop_host, web, pool_member, checks, origin}

abbrev upload : Stream
upload = record { bytes = 1 ∷ 2 ∷ 3 ∷ []; fails = false; close_fails = false }

abbrev gunzip : List ℕ → Option Stream
gunzip bytes = none

inspection_body-Whole_example :
    (upload.fails ≡ false)
    × (some (1 ∷ 2 ∷ 3 ∷ []) ≡ some upload.bytes)
    × Whole gunzip 4 upload (1 ∷ 2 ∷ 3 ∷ [])
unfolding inspection_body trim_space to_lower
inspection_body-Whole_example =
    inspection_body-Whole (λ c. c) gunzip 4 [] upload (1 ∷ 2 ∷ 3 ∷ []) (some (1 ∷ 2 ∷ 3 ∷ [])) refl

abbrev base : Url
base = record origin { path = codes "/api/" }

abbrev asked : Url
asked = record origin { path = codes "/items" }

abbrev lower_name : Text → Text
lower_name name = map (to_lower (λ c. c)) name

abbrev outgoing : Outgoing
outgoing = record {
  url = origin;
  host = [];
  headers = (codes "x-forwarded-for", codes "9.9.9.9" ∷ []) ∷ [];
}

abbrev shop_pool : Pool
shop_pool = record { config = web; members = []; rr = 0 }

abbrev sent : Outgoing
sent =
    rewrite lower_name (λ u o. o) (λ hs. hs) shop_host shop_pool
      (fresh_member checks (pool_member "a")) origin (codes "shop") (codes "id") outgoing

rewrite_keeps_managed_example :
    (get (lower_name (codes "X-Forwarded-For")) sent.headers
      ≡ get (lower_name (codes "X-Forwarded-For")) outgoing.headers)
    × (shop_host.preserve_host ≡ true → sent.host ≡ codes "shop")
    × (shop_host.preserve_host ≡ false → sent.host ≡ origin.host)
unfolding each header_errors forbidden_request_header to_lower trim_space byte_len
rewrite_keeps_managed_example =
    rewrite_keeps_managed lower_name (λ c. c) (λ m n e. e) (λ u o. o) (λ hs. hs) shop_host shop_pool
      (fresh_member checks (pool_member "a")) origin (codes "shop") (codes "id") outgoing
      (codes "X-Forwarded-For") refl refl

authorized_iff_example : (authorized (some (codes "secret")) (codes "Bearer secret") [] ≡ true) ↔ (
    ((trim_space (codes "secret") == []) ≡ false)
    × (provided_token (codes "Bearer secret") [] ≡ trim_space (codes "secret")))
authorized_iff_example = authorized_iff (some (codes "secret")) (codes "Bearer secret") []

abbrev config_of : Config → Config
config_of c = c

-- A build that fails, and one whose listener moved.
abbrev builds : List (Option Config)
builds =
    none
    ∷ some (record shop { http = record shop.http { listen = codes ":8080" } })
    ∷ some shop
    ∷ []

closed_once_example :
    count config_of (λ c. true) (close_runtimes (reload_all config_of (opened shop) builds)).closed
    ≡ count config_of (λ c. true) (shop ∷ built config_of builds)
closed_once_example = closed_once config_of (λ c. true) shop builds

reloads_keep_listeners_example : Serves config_of shop (reload_all config_of (opened shop) builds)
reloads_keep_listeners_example = reloads_keep_listeners config_of shop builds

abbrev platform : Platform Text Text Text
platform = record {
  matches = λ r t. r == t;
  find = λ r t. none;
  key_of = λ t. "client";
  parse_ip = λ t. some t;
  print = λ ip. ip;
  split_host_port = λ t. some (t, codes "443");
  in_network = λ n ip. n == ip;
  parse_addr = λ t. none;
  parse_network = λ t. none;
  print_prefix = λ p. [];
  parse_hostname = λ t. some t;
  go = record {
    to_valid_utf8 = λ t. t;
    runes = λ t. t;
    bytes = λ t. t;
    unescape_html = λ t. t;
    lower = λ c. c;
    upper = λ c. c;
  };
  panics = λ e r t. false;
  gunzip = gunzip;
}

abbrev shop_route : Route Text
shop_route = record {
  virtual_host = shop_host;
  has_backend = true;
  engine = none;
  max_body = 4;
  waf_fail_mode = "closed";
  access = none;
}

abbrev serving : Runtime Text Text
serving = record {
  config = shop;
  trusted_proxies = [];
  reputation = none;
  exact_routes = (codes "shop.example.org", shop_route) ∷ [];
  wildcard_routes = [];
}

abbrev visit : Request
visit = record {
  host = codes "shop.example.org";
  remote_addr = codes "9.9.9.9";
  header = λ name. [];
  server_name = none;
  user_agent = codes "curl";
  request_uri = codes "/";
  escaped_path = codes "/";
  raw_query = [];
  body = some upload;
  content_encoding = [];
  waf = record {
    method = codes "GET";
    escaped_path = codes "/";
    raw_query = [];
    headers = [];
    cookies = [];
    known_length = true;
    transfer_encoding = [];
  };
}

abbrev idle : State Text
idle = record { events = []; limiter = none; bot = none }

forwards-handle_example :
    forwards (handle platform false 1 (some serving) visit idle).0
    ≡ clears platform false 1 (some serving) visit idle
forwards-handle_example = forwards-handle platform false 1 (some serving) visit idle

-- The visit is sent on.
visit_forwarded : forwards (handle platform false 1 (some serving) visit idle).0 ≡ true
unfolding handle is_space trim_space to_lower strip_suffix
visit_forwarded = refl
