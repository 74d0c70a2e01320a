-- ===== src/App/Handler.antt =====
-- publicHandler of internal/app/app.go, from its last stage to its first, with inspectRoute,
-- logSyntheticSecurity and Route of internal/core/runtime.go on the host.
pub mod Redirect
pub mod Cleared
use Prim.Native.String.{◌++◌ as string_append}
use cherry_waf.Base.{
  ℕ, zero, suc, ◌+◌, ◌-◌, ◌*◌, ◌/◌, ◌%◌, ◌^◌, ◌≤◌, ◌<◌, min, max, String, ◌≡◌, refl, sym, ap, subst,
  fun_ext, ◌∙◌, ◌≢◌, ◌↔◌, ◌⊎◌, inl, inr, Bool, true, false, not, ◌&&◌, ◌||◌, Option, none, some,
  List, [], ◌∷◌, ◌++◌, map, arith, eq_iff, ltb, leb, if◌then◌else◌, ltb→lt, lt→ltb, leb→le, nat_beq,
  nat_beq_iff, Bool-cases, Option-cases, length, get_elem?, take, drop, In, All, any, all, keep_if,
  find_first, length-append, length-take-le, length-keep_if-le, In-keep_if, In-keep_if_of, All-In,
  find_first-some, find_first-none, Eq, ◌==◌, list_beq, list_beq_iff, ==_refl, Text, codes, nat_eq,
  string_eq, text_eq, if_both, between, is_space, trim_left, trim_right, trim_space, rune_len,
  byte_len, strip_prefix, strip_suffix, to_lower, ◌>>=◌,
}
use cherry_waf.Base.Int.{ℤ, pos}
use cherry_waf.RateLimit.{Limiter, allow}
use cherry_waf.Edge.Access.{check_access, lets_in, Verdict}
use cherry_waf.Edge.Reputation.{Store, Match, lookup}
use cherry_waf.Edge.Bot.{Engine as BotEngine, Decision as BotDecision, inspect as bot_inspect, pass}
use cherry_waf.Edge.ClientIp.{client_ip}
use cherry_waf.Edge.Route.{route, hostname}
use cherry_waf.Waf.Types.{Engine as WafEngine, Decision}
use cherry_waf.Waf.Inspect.{inspect, no_decision}
use cherry_waf.Config.Types.{Config}
use cherry_waf.App.{
  Route, Runtime, Request, Platform, Event, Answer, State, blocked, rate_limited, body_too_large,
  security, reply, redirect, forward,
}
use cherry_waf.App.Body.{Inspection, inspection_body, body, too_large, unsupported, unreadable}
use cherry_waf.App.Handler.Redirect.{redirect_url, route_redirect_url}

-- What one request is handled with.
pub record Handling (Regex Network : Type 0) : Type 0 where
  pub https : Bool
  pub runtime : Runtime Regex Network
  pub route : Route Regex
  pub request : Request
  pub client : Text
  pub now : ℕ

abbrev pub Outcome : Type 0 → Type 0
Outcome Regex = Answer × State Regex

abbrev pub log : {Regex : Type 0} → Event → State Regex → State Regex
log e s = record s { events = s.events ++ e ∷ [] }

-- `Reason` of a decision of the bot engine.
abbrev pub bot_reason : String → String
bot_reason kind =
    if kind == "rate" then "bot request-rate policy exceeded" else "bot user-agent policy matched"

-- The reason of `Allowed`.
abbrev pub access_reason : Verdict → String
access_reason Verdict.allowed = ""
access_reason (Verdict.invalid_ip answer) = "client IP is invalid"
access_reason Verdict.denied = "client IP matched application deny list"
access_reason Verdict.not_listed = "client IP is not present in application allow list"

abbrev host_of : Option (Text × Text) → Option Text
host_of none = none
host_of (some (host, port)) = some host

abbrev pub match_reason : {Regex Ip Network : Type 0} → Platform Regex Ip Network → Match → Text
match_reason os m = m.reason ++ codes " (" ++ os.print_prefix m.prefix ++ codes ")"

module _ {Regex Ip Network : Type 0} (os : Platform Regex Ip Network) where
  -- The last stage: the backend of the route, if it has one.
  unfoldable pub to_backend : Handling Regex Network → State Regex → Outcome Regex
  to_backend x s =
      if x.route.has_backend
      then (forward x.client, s)
      else (reply 503 "virtual service backend unavailable", s)

  unfoldable pub log_decision : Decision → State Regex → State Regex
  log_decision d s =
      if nat_beq (length d.matches) 0
      then s
      else log (security (if d.blocked then "block" else "detect") d.score d.reason) s

  unfoldable pub on_decision : Handling Regex Network → State Regex → Decision → Outcome Regex
  unfolding to_backend log_decision
  on_decision x s d =
      if d.blocked
      then (reply 403 "request blocked by CherryWAF", log blocked (log_decision d s))
      else to_backend x (log_decision d s)

  -- `inspectRoute`: none is a panic, which it turns into an error.
  unfoldable pub inspect_route : WafEngine Regex → Request → Text → Option Decision
  unfolding inspect
  inspect_route e r bytes =
      if os.panics e r.waf bytes then none else some (inspect os.find os.go e (some r.waf) bytes)

  unfoldable pub on_inspected :
      Handling Regex Network → State Regex → Option Decision → Outcome Regex
  unfolding on_decision
  on_inspected x s (some d) = on_decision x s d
  on_inspected x s none =
      let s = log (security "waf_error" (pos 0) (codes "WAF engine panic")) s in
      if x.route.waf_fail_mode == "open"
      then on_decision x s no_decision
      else (reply 503 "WAF inspection unavailable", log blocked s)

  unfoldable pub on_body :
      Handling Regex Network → State Regex → WafEngine Regex → Inspection → Outcome Regex
  unfolding inspect_route on_inspected
  on_body x s e (body bytes replaced) = on_inspected x s (inspect_route e x.request bytes)
  on_body x s e too_large = (
    reply 413 "request body too large",
    log (security "block" (pos 20) (codes "request body exceeds inspection limit"))
        (log body_too_large s),
  )
  on_body x s e (unsupported encoding) = (
    reply 415 "unsupported request content encoding",
    log (security "block" (pos 10) (codes "unsupported request content encoding")) (log blocked s),
  )
  on_body x s e unreadable = (reply 400 "unable to inspect request body", s)

  unfoldable pub inspected_body : Handling Regex Network → Inspection
  unfolding inspection_body
  inspected_body x =
      inspection_body os.go.lower os.gunzip x.route.max_body x.request.content_encoding
        x.request.body

  unfoldable pub on_engine :
      Handling Regex Network → State Regex → Option (WafEngine Regex) → Outcome Regex
  unfolding on_decision on_body inspected_body
  on_engine x s none = on_decision x s no_decision
  on_engine x s (some e) = on_body x s e (inspected_body x)

  -- The action of the virtual host.
  unfoldable pub on_action : Handling Regex Network → State Regex → Outcome Regex
  unfolding on_engine route_redirect_url
  on_action x s =
      let v = x.route.virtual_host in
      if v.action == "redirect"
      then (redirect v.redirect.status (route_redirect_url v.redirect.url x.request), s)
      else if v.action == "discard"
      then (reply v.discard_status "virtual service discarded request", s)
      else on_engine x s x.route.engine

  unfoldable pub on_bot_decision :
      Handling Regex Network → State Regex → BotDecision → Outcome Regex
  unfolding on_action
  on_bot_decision x s d =
      if not d.matched
      then on_action x s
      else if d.blocked
      then (
        reply (if d.kind == "rate" then 429 else 403) "request blocked by bot policy",
        log blocked (log (security "bot_block" (pos 5) (codes (bot_reason d.kind))) s),
      )
      else on_action x (log (security "bot_monitor" (pos 5) (codes (bot_reason d.kind))) s)

  unfoldable pub on_bot_result :
      Handling Regex Network → State Regex → BotEngine Regex × BotDecision → Outcome Regex
  unfolding on_bot_decision
  on_bot_result x s (e, d) = on_bot_decision x (record s { bot = some e }) d

  unfoldable pub on_bot :
      Handling Regex Network → State Regex → Option (BotEngine Regex) → Outcome Regex
  unfolding on_bot_decision on_bot_result bot_inspect
  on_bot x s none = on_bot_decision x s pass
  on_bot x s (some e) =
      on_bot_result x s (bot_inspect os.matches os.key_of e x.client x.request.user_agent x.now)

  -- `route.VirtualHost.Name+"|"+clientIP`
  abbrev pub limit_key : Handling Regex Network → String
  limit_key x = os.key_of (codes x.route.virtual_host.name ++ b'|' ∷ x.client)

  unfoldable pub on_rate : Handling Regex Network → State Regex → Limiter × Bool → Outcome Regex
  unfolding on_bot
  on_rate x s (l, granted) =
      let s = record s { limiter = some l } in
      if granted then on_bot x s s.bot else (
        reply 429 "rate limit exceeded",
        log (security "rate_limit" (pos 0) (codes "request rate exceeded")) (log rate_limited s),
      )

  unfoldable pub on_limiter : Handling Regex Network → State Regex → Option Limiter → Outcome Regex
  unfolding on_bot on_rate allow
  on_limiter x s none = on_bot x s s.bot
  on_limiter x s (some l) = on_rate x s (allow l (limit_key x) x.now)

  unfoldable pub on_scheme : Handling Regex Network → State Regex → Outcome Regex
  unfolding on_limiter redirect_url
  on_scheme x s =
      if not x.https && x.runtime.config.http.redirect_to_https
      then (
        redirect 308 (
            redirect_url os.split_host_port (hostname os.parse_hostname os.go.lower x.request.host)
              x.runtime.config.https.listen x.request),
        s,
      )
      else on_limiter x s s.limiter

  unfoldable pub on_match : Handling Regex Network → State Regex → Option Match → Outcome Regex
  unfolding on_scheme
  on_match x s none = on_scheme x s
  on_match x s (some m) =
      if m.mode == codes "block"
      then (
        reply 403 "client IP blocked by reputation policy",
        log blocked (log (security "reputation_block" (pos 10) (match_reason os m)) s),
      )
      else on_scheme x (log (security "reputation_monitor" (pos 10) (match_reason os m)) s)

  -- `Lookup`, of a store that may be nil.
  unfoldable pub look_up : Option Store → Text → Option Match
  unfolding lookup
  look_up none client = none
  look_up (some store) client = lookup os.parse_addr os.parse_network store client

  unfoldable pub on_access : Handling Regex Network → State Regex → Verdict → Outcome Regex
  unfolding on_match look_up
  on_access x s verdict =
      if lets_in verdict then on_match x s (look_up x.runtime.reputation x.client) else (
        reply 403 (access_reason verdict),
        log (security "access_block" (pos 20) (codes (access_reason verdict))) (log blocked s),
      )

  unfoldable pub client_of : Runtime Regex Network → Request → Text
  unfolding client_ip
  client_of runtime r =
      client_ip os.parse_ip os.print (λ t. host_of (os.split_host_port t)) os.in_network
        r.remote_addr (r.header runtime.config.security.forwarded_for_header)
        runtime.trusted_proxies

  -- Over TLS, the name of the handshake is that of the request.
  unfoldable pub name_of : Text → Text
  unfolding hostname
  name_of = hostname os.parse_hostname os.go.lower

  unfoldable pub sni_matches : Bool → Request → Option Text → Bool
  unfolding name_of
  sni_matches https r none = true
  sni_matches https r (some sni) = not https || name_of sni == [] || name_of sni == name_of r.host

  unfoldable pub on_route :
      Bool
      → ℕ
      → Runtime Regex Network
      → Request
      → State Regex
      → Option (Route Regex)
      → Outcome Regex
  unfolding on_access client_of sni_matches check_access
  on_route https now runtime r s none = (reply 421 "unknown virtual host", s)
  on_route https now runtime r s (some found) =
      let client = client_of runtime r in
      let x : Handling Regex Network = record {
        https = https;
        runtime = runtime;
        route = found;
        request = r;
        client = client;
        now = now;
      } in
      if sni_matches https r r.server_name
      then on_access x s (check_access os.parse_addr os.parse_network found.access client)
      else (reply 421 "TLS SNI and HTTP Host do not match", s)

  unfoldable pub route_of : Runtime Regex Network → Request → Option (Route Regex)
  unfolding name_of route
  route_of runtime r = route runtime.exact_routes runtime.wildcard_routes (name_of r.host)

  -- `publicHandler`, for the state of the route that the request finds.
  unfoldable pub handle :
      Bool → ℕ → Option (Runtime Regex Network) → Request → State Regex → Outcome Regex
  unfolding on_route route_of
  handle https now none r s = (reply 503 "WAF runtime unavailable", s)
  handle https now (some runtime) r s = on_route https now runtime r s (route_of runtime r)
