-- ===== src/App.antt =====
-- The request pipeline of internal/app/app.go, with the runtime and the routes of
-- internal/core/runtime.go that it reads. Each stage of publicHandler is a function that answers or goes
-- on to the next stage; the log and the counters are the events that it leaves.
pub mod Body
pub mod Build
pub mod Handler
pub mod Reload
pub mod Capture
pub mod Admin
use cherry_waf.Base.{
  ℕ, zero, suc, ◌+◌, ◌-◌, ◌*◌, ◌/◌, ◌%◌, ◌^◌, ◌≤◌, ◌<◌, min, max, String, ◌≡◌, refl, sym, ap, subst,
  fun_ext, ◌∙◌, ◌≢◌, ◌↔◌, ◌⊎◌, inl, inr, Bool, true, false, not, ◌&&◌, ◌||◌, Option, none, some,
  List, [], ◌∷◌, ◌++◌, map, arith, eq_iff, ltb, leb, if◌then◌else◌, ltb→lt, lt→ltb, leb→le, nat_beq,
  nat_beq_iff, Bool-cases, Option-cases, length, get_elem?, take, drop, In, All, any, all, keep_if,
  find_first, length-append, length-take-le, length-keep_if-le, In-keep_if, In-keep_if_of, All-In,
  find_first-some, find_first-none, Eq, ◌==◌, list_beq, list_beq_iff, ==_refl, Text, codes, nat_eq,
  string_eq, text_eq, if_both, between, is_space, trim_left, trim_right, trim_space, rune_len,
  byte_len, strip_prefix, strip_suffix, to_lower, ◌>>=◌,
}
use cherry_waf.Base.Int.{ℤ}
use cherry_waf.RateLimit.{Limiter}
use cherry_waf.Edge.{Addr, Prefix}
use cherry_waf.Edge.Access.{AccessPolicy}
use cherry_waf.Edge.Reputation.{Store}
use cherry_waf.Edge.Bot.{Engine as BotEngine}
use cherry_waf.Waf.Types.{Engine as WafEngine}
use cherry_waf.Waf.Normalize.{Go, Request as WafRequest}
use cherry_waf.Config.Types.{Config, VirtualHost}

-- `Route`, but for its limiter and its bot engine, which requests change.
pub record Route (Regex : Type 0) : Type 0 where
  pub virtual_host : VirtualHost
  pub has_backend : Bool
  pub engine : Option (WafEngine Regex)
  pub max_body : ℕ
  pub waf_fail_mode : String
  pub access : Option AccessPolicy

-- `Runtime`, as the handler reads it.
pub record Runtime (Regex Network : Type 0) : Type 0 where
  pub config : Config
  pub trusted_proxies : List Network
  pub reputation : Option Store
  pub exact_routes : List (Text × Route Regex)
  pub wildcard_routes : List (Text × Route Regex)

-- A reader: its bytes, whether it fails after the last of them, and whether closing it fails.
pub record Stream : Type 0 where
  pub bytes : List ℕ
  pub fails : Bool
  pub close_fails : Bool

-- A request; no TLS state is none, and no body is none. `header` is the Get of its headers.
pub record Request : Type 0 where
  pub host : Text
  pub remote_addr : Text
  pub header : Text → Text
  pub server_name : Option Text
  pub user_agent : Text
  pub request_uri : Text
  pub escaped_path : Text
  pub raw_query : Text
  pub body : Option Stream
  pub content_encoding : Text
  pub waf : WafRequest

-- What the code takes of Go's library, and of the engine whether it panics.
pub record Platform (Regex Ip Network : Type 0) : Type 0 where
  pub matches : Regex → Text → Bool
  pub find : Regex → Text → Option (ℕ × ℕ)
  pub key_of : Text → String
  pub parse_ip : Text → Option Ip
  pub print : Ip → Text
  pub split_host_port : Text → Option (Text × Text)
  pub in_network : Network → Ip → Bool
  pub parse_addr : Text → Option Addr
  pub parse_network : Text → Option Prefix
  pub print_prefix : Prefix → Text
  pub parse_hostname : Text → Option Text
  pub go : Go
  pub panics : WafEngine Regex → WafRequest → Text → Bool
  pub gunzip : List ℕ → Option Stream

-- What a request leaves in the log and in the counters.
pub data Event : Type 0 where
  blocked : Event
  rate_limited : Event
  body_too_large : Event
  security : String → ℤ → Text → Event

pub data Answer : Type 0 where
  reply : ℕ → String → Answer
  redirect : ℕ → Text → Answer
  forward : Text → Answer

-- The events so far, and what the request changes of its route.
pub record State (Regex : Type 0) : Type 0 where
  pub events : List Event
  pub limiter : Option Limiter
  pub bot : Option (BotEngine Regex)
