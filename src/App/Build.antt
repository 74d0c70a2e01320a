-- ===== src/App/Build.antt =====
-- Building the routes of a runtime: buildRouteSecurity of internal/core/policy.go, New of
-- internal/bot/engine.go and the loop over the virtual hosts in build of internal/core/runtime.go. None
-- is an error. A limiter's unit makes a rate in thousandths a whole number for each nanosecond.

pub mod Table
pub mod Reached
use cherry_waf.Base.{
  ℕ, zero, suc, ◌+◌, ◌-◌, ◌*◌, ◌/◌, ◌%◌, ◌^◌, ◌≤◌, ◌<◌, min, max, String, ◌≡◌, refl, sym, ap, subst,
  fun_ext, ◌∙◌, ◌≢◌, ◌↔◌, ◌⊎◌, inl, inr, Bool, true, false, not, ◌&&◌, ◌||◌, Option, none, some,
  List, [], ◌∷◌, ◌++◌, map, arith, eq_iff, ltb, leb, if◌then◌else◌, ltb→lt, lt→ltb, leb→le, nat_beq,
  nat_beq_iff, Bool-cases, Option-cases, length, get_elem?, take, drop, In, All, any, all, keep_if,
  find_first, length-append, length-take-le, length-keep_if-le, In-keep_if, In-keep_if_of, All-In,
  find_first-some, find_first-none, Eq, ◌==◌, list_beq, list_beq_iff, ==_refl, Text, codes, nat_eq,
  string_eq, text_eq, if_both, between, is_space, trim_left, trim_right, trim_space, rune_len,
  byte_len, strip_prefix, strip_suffix, to_lower, ◌>>=◌,
}
use cherry_waf.Base.Assoc.{put}
use cherry_waf.Base.Int.{ℤ, pos}
use cherry_waf.RateLimit.{Limiter, new as new_limiter}
use cherry_waf.Edge.{Addr, Prefix}
use cherry_waf.Edge.Access.{AccessPolicy, new_access_policy}
use cherry_waf.Edge.Bot.{Engine as BotEngine}
use cherry_waf.Waf.{new as new_engine, RuleFile}
use cherry_waf.Waf.Types.{Engine as WafEngine, Result, ok, err}
use cherry_waf.Config.Types.{
  Config, VirtualHost, RateLimitConfig, BotPolicyConfig, WafPolicyConfig, Library,
}
use cherry_waf.Backend.{Backend}
use cherry_waf.Backend.Build.{new as new_backend}

-- `Route`, as it is built.
pub record BuiltRoute (Regex : Type 0) : Type 0 where
  pub virtual_host : VirtualHost
  pub backend : Option (Backend Regex)
  pub engine : Option (WafEngine Regex)
  pub limiter : Option Limiter
  pub own_limiter : Bool
  pub max_body : ℕ
  pub fail_mode : String
  pub access : Option AccessPolicy
  pub bot : Option (BotEngine Regex)

-- What building takes of Go's library and of the file system.
pub record Loader (Regex : Type 0) : Type 0 where
  pub library : Library
  pub compile : Text → Option Regex
  pub compile_rule : String → Option Regex
  pub rule_file : Text → RuleFile
  pub ca_loads : String → Bool
  pub text : Text → String
  pub parse_addr : Text → Option Addr
  pub parse_network : Text → Option Prefix

abbrev second : ℕ
second = 1000000000

abbrev pub result : {A : Type 0} → Result A → Option A
result (ok a) = some a
result (err e) = none

unfoldable pub limiter_of : RateLimitConfig → Limiter
unfolding new_limiter
limiter_of r =
    new_limiter r.requests_per_second r.burst (1000 * second) (r.entry_ttl_seconds * second)

-- The route's own limiter, if its policy has one, and else the global one; with whether it is its own.
abbrev pub route_limiter : Option RateLimitConfig → Option Limiter → Option Limiter × Bool
route_limiter none global = (global, false)
route_limiter (some r) global = if r.enabled then (some (limiter_of r), true) else (none, false)

module _ {Regex : Type 0} (os : Loader Regex) where
  -- `compile` of the bot policy: all patterns, or an error.
  unfoldable pub compile_all : List Text → Option (List Regex)
  compile_all [] = some []
  compile_all (p ∷ ps) = do r ← os.compile p; rs ← compile_all ps; some (r ∷ rs)

  -- `New` of the bot engine: no engine at all where the policy is off.
  unfoldable pub new_bot : BotPolicyConfig → Option (Option (BotEngine Regex))
  unfolding compile_all new_limiter
  new_bot b = if not b.enabled then some none else (do
    bad ← compile_all b.bad_user_agents
    permitted ← compile_all b.allow_user_agents
    some (
        some (record {
          mode = b.mode;
          bad = bad;
          permitted = permitted;
          limiter =
              if nat_beq b.requests_per_minute 0
              then none
              else some
                  (new_limiter b.requests_per_minute b.burst (60 * (1000 * second)) (600 * second));
        })))

  abbrev pub needs_engine : WafPolicyConfig → Bool
  needs_engine p =
      not (p.mode == "inherit")
      || not (nat_beq p.block_threshold 0)
      || given p.builtins
      || not (nat_beq (length p.rule_files) 0)
    where
      given : Option Bool → Bool
      given none = false
      given (some b) = true

  abbrev or_global : Option Bool → Bool → Bool
  or_global none global = global
  or_global (some b) global = b

  -- The engine that a policy with settings of its own builds.
  unfoldable pub own_engine : Config → WafPolicyConfig → Option (WafEngine Regex)
  unfolding new_engine
  own_engine c p = result (
      new_engine os.compile_rule
        (if p.mode == "detect" || p.mode == "blocking" then p.mode else c.security.mode)
        (pos
          (if nat_beq p.block_threshold 0 then c.security.block_threshold else p.block_threshold))
        (or_global p.builtins c.rules.builtins) (map os.rule_file (c.rules.files ++ p.rule_files)))

  abbrev pub some_engine : Option (WafEngine Regex) → Option (Option (WafEngine Regex))
  some_engine none = none
  some_engine (some e) = some (some e)

  unfoldable pub route_engine :
      Config → WafPolicyConfig → WafEngine Regex → Option (Option (WafEngine Regex))
  unfolding own_engine
  route_engine c p global =
      if p.mode == "disabled"
      then some none
      else if needs_engine p
      then some_engine (own_engine c p)
      else some (some global)

  abbrev with_security :
      Config
      → VirtualHost
      → Option Limiter × Bool
      → Option (WafEngine Regex)
      → Option AccessPolicy
      → Option (BotEngine Regex)
      → BuiltRoute Regex
  with_security c v (limiter, own) engine access bot = record {
    virtual_host = v;
    backend = none;
    engine = engine;
    limiter = limiter;
    own_limiter = own;
    max_body =
        if nat_beq v.waf_policy.max_body_bytes 0
        then c.security.max_body_bytes
        else v.waf_policy.max_body_bytes;
    fail_mode = v.waf_policy.fail_mode;
    access = access;
    bot = bot;
  }

  -- `buildRouteSecurity`, in a route that has no backend yet.
  unfoldable pub build_route_security :
      Config → VirtualHost → WafEngine Regex → Option Limiter → Option (BuiltRoute Regex)
  unfolding route_engine new_access_policy new_bot limiter_of
  build_route_security c v global limiter = do
    engine ← route_engine c v.waf_policy global
    access ←
        new_access_policy os.parse_addr os.parse_network v.waf_policy.allow_cidrs
          v.waf_policy.deny_cidrs
    bot ← new_bot v.bot_policy
    some (with_security c v (route_limiter v.waf_policy.rate_limit limiter) engine access bot)

  abbrev some_backend : BuiltRoute Regex → Option (Backend Regex) → Option (BuiltRoute Regex)
  some_backend r none = none
  some_backend r (some b) = some (record r { backend = some b })

  -- A route with its backend, which a host of another action has not.
  unfoldable pub build_route :
      Config → VirtualHost → WafEngine Regex → Option Limiter → Option (BuiltRoute Regex)
  unfolding build_route_security new_backend
  build_route c v global limiter = do
    r ← build_route_security c v global limiter
    if v.action == "group"
        then some_backend r (new_backend os.library os.compile os.ca_loads os.text v c)
        else some r
