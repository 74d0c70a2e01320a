-- ===== src/App/Handler/Cleared.antt =====
-- Which requests publicHandler of internal/app/app.go sends on: a list of conditions, each about one part
-- of the program, that stands beside the handler's own order of checks and early returns.
use cherry_waf.Base.{
  ℕ, ◌≡◌, refl, ◌∙◌, inl, inr, Bool, true, false, not, ◌&&◌, Option, none, some, arith,
  if◌then◌else◌, Bool-cases, ◌==◌, codes, nat_eq, string_eq, text_eq,
}
use cherry_waf.RateLimit.{Limiter, allow}
use cherry_waf.Edge.Access.{check_access, lets_in}
use cherry_waf.Edge.Reputation.{Match}
use cherry_waf.Edge.Bot.{Engine as BotEngine, Decision as BotDecision, inspect as bot_inspect, pass}
use cherry_waf.Waf.Types.{Engine as WafEngine, Decision}
use cherry_waf.Waf.Inspect.{inspect, no_decision}
use cherry_waf.App.{Route, Runtime, Request, Platform, Answer, State, reply, redirect, forward}
use cherry_waf.App.Body.{Inspection, body, too_large, unsupported, unreadable}
use cherry_waf.App.Handler.{
  Handling, to_backend, on_decision, inspect_route, on_inspected, on_body, inspected_body,
  on_engine, on_action, on_bot_decision, on_bot_result, on_bot, limit_key, on_rate, on_limiter,
  on_scheme, on_match, look_up, on_access, client_of, sni_matches, on_route, route_of, handle,
}

-- Whether the answer sends the request on.
abbrev pub forwards : Answer → Bool
forwards (reply status message) = false
forwards (redirect status url) = false
forwards (forward client) = true

abbrev pub not_blocking : Option Match → Bool
not_blocking none = true
not_blocking (some m) = not (m.mode == codes "block")

module _ {Regex Ip Network : Type 0} (os : Platform Regex Ip Network) where
  unfoldable pub within_rate : Handling Regex Network → Option Limiter → Bool
  unfolding allow
  within_rate x none = true
  within_rate x (some l) = (allow l (limit_key os x) x.now).1

  unfoldable pub not_bot : Handling Regex Network → Option (BotEngine Regex) → Bool
  unfolding bot_inspect
  not_bot x none = true
  not_bot x (some e) =
      let d = (bot_inspect os.matches os.key_of e x.client x.request.user_agent x.now).1 in
      not (d.matched && d.blocked)

  -- The engine does not block what it inspects, or panics where the host is open on failure.
  abbrev pub inspection_passes : Handling Regex Network → WafEngine Regex → Inspection → Bool
  inspection_passes x e (body bytes replaced) =
      if os.panics e x.request.waf bytes
      then x.route.waf_fail_mode == "open"
      else not (inspect os.find os.go e (some x.request.waf) bytes).blocked
  inspection_passes x e too_large = false
  inspection_passes x e (unsupported encoding) = false
  inspection_passes x e unreadable = false

  unfoldable pub waf_passes : Handling Regex Network → Option (WafEngine Regex) → Bool
  unfolding inspected_body inspect
  waf_passes x none = true
  waf_passes x (some e) = inspection_passes x e (inspected_body os x)

  abbrev pub goes_upstream : Handling Regex Network → Bool
  goes_upstream x =
      not (x.route.virtual_host.action == "redirect")
      && not (x.route.virtual_host.action == "discard")

  -- All conditions on a request whose route is known.
  unfoldable pub cleared : Handling Regex Network → Option Limiter → Option (BotEngine Regex) → Bool
  unfolding check_access look_up within_rate not_bot waf_passes
  cleared x limiter bot =
      lets_in (check_access os.parse_addr os.parse_network x.route.access x.client)
      && not_blocking (look_up os x.runtime.reputation x.client)
      && not (not x.https && x.runtime.config.http.redirect_to_https)
      && within_rate x limiter
      && not_bot x bot
      && goes_upstream x
      && waf_passes x x.route.engine
      && x.route.has_backend

  forwards_decision :
      (x : Handling Regex Network) (s : State Regex) (d : Decision)
      → forwards (on_decision os x s d).0 ≡ (not d.blocked && x.route.has_backend)
  unfolding on_decision to_backend
  forwards_decision x s d = ground arith

  forwards_inspected :
      (x : Handling Regex Network) (s : State Regex) (e : WafEngine Regex) (i : Inspection)
      → forwards (on_body os x s e i).0 ≡ (inspection_passes x e i && x.route.has_backend)
  unfolding on_body inspect_route on_inspected
  forwards_inspected x s e (body bytes replaced) =
      elim (Bool-cases (os.panics e x.request.waf bytes)) [
        | inl p ↦ elim (Bool-cases (x.route.waf_fail_mode == "open")) [
          | inl o ↦ rw (p, o) (forwards_decision x _ no_decision)
          | inr o ↦ rw (p, o) refl
        ]
        | inr p ↦ rw p (forwards_decision x s _)
      ]
  forwards_inspected x s e too_large = refl
  forwards_inspected x s e (unsupported encoding) = refl
  forwards_inspected x s e unreadable = refl

  forwards_engine :
      (x : Handling Regex Network) (s : State Regex) (e : Option (WafEngine Regex))
      → forwards (on_engine os x s e).0 ≡ (waf_passes x e && x.route.has_backend)
  unfolding on_engine waf_passes
  forwards_engine x s none = forwards_decision x s no_decision
  forwards_engine x s (some e) = forwards_inspected x s e (inspected_body os x)

  forwards_action :
      (x : Handling Regex Network) (s : State Regex)
      → forwards (on_action os x s).0
        ≡ (goes_upstream x && waf_passes x x.route.engine && x.route.has_backend)
  unfolding on_action
  forwards_action x s = elim (Bool-cases (x.route.virtual_host.action == "redirect")) [
    | inl r ↦ rw r refl
    | inr r ↦ elim (Bool-cases (x.route.virtual_host.action == "discard")) [
      | inl d ↦ rw (r, d) refl
      | inr d ↦ rw (r, d) (forwards_engine x s x.route.engine)
    ]
  ]

  abbrev pub after_bot : Handling Regex Network → Bool
  after_bot x = goes_upstream x && waf_passes x x.route.engine && x.route.has_backend

  forwards_bot_decision :
      (x : Handling Regex Network) (s : State Regex) (d : BotDecision)
      → forwards (on_bot_decision os x s d).0 ≡ (not (d.matched && d.blocked) && after_bot x)
  unfolding on_bot_decision
  forwards_bot_decision x s d = elim (Bool-cases d.matched) [
    | inr m ↦ rw m (forwards_action x s)
    | inl m ↦ elim (Bool-cases d.blocked) [
      | inl b ↦ rw (m, b) refl
      | inr b ↦ rw (m, b) (forwards_action x _)
    ]
  ]

  forwards_bot :
      (x : Handling Regex Network) (s : State Regex) (e : Option (BotEngine Regex))
      → forwards (on_bot os x s e).0 ≡ (not_bot x e && after_bot x)
  unfolding on_bot on_bot_result not_bot
  forwards_bot x s none = forwards_bot_decision x s pass
  forwards_bot x s (some e) = forwards_bot_decision x _ _

  forwards_limiter :
      (x : Handling Regex Network) (s : State Regex) (l : Option Limiter)
      → forwards (on_limiter os x s l).0 ≡ (within_rate x l && (not_bot x s.bot && after_bot x))
  unfolding on_limiter on_rate within_rate
  forwards_limiter x s none = forwards_bot x s s.bot
  forwards_limiter x s (some l) = elim (Bool-cases (allow l (limit_key os x) x.now).1) [
    | inl g ↦ rw g (forwards_bot x _ s.bot)
    | inr g ↦ rw g refl
  ]

  forwards_scheme :
      (x : Handling Regex Network) (s : State Regex)
      → forwards (on_scheme os x s).0 ≡ (
          not (not x.https && x.runtime.config.http.redirect_to_https)
          && (within_rate x s.limiter && (not_bot x s.bot && after_bot x)))
  unfolding on_scheme
  forwards_scheme x s = elim (Bool-cases (not x.https && x.runtime.config.http.redirect_to_https)) [
    | inl r ↦ rw r refl
    | inr r ↦ rw r (forwards_limiter x s s.limiter)
  ]

  forwards_match :
      (x : Handling Regex Network) (s : State Regex) (m : Option Match)
      → forwards (on_match os x s m).0 ≡ (
          not_blocking m
          && (not (not x.https && x.runtime.config.http.redirect_to_https)
              && (within_rate x s.limiter && (not_bot x s.bot && after_bot x))))
  unfolding on_match
  forwards_match x s none = forwards_scheme x s
  forwards_match x s (some m) = elim (Bool-cases (m.mode == codes "block")) [
    | inl b ↦ rw b refl
    | inr b ↦ rw b (forwards_scheme x _)
  ]

  forwards_access :
      (x : Handling Regex Network) (s : State Regex)
      → forwards
          (on_access os x s (check_access os.parse_addr os.parse_network x.route.access x.client)).0
        ≡ cleared x s.limiter s.bot
  unfolding on_access cleared
  forwards_access x s =
      elim (Bool-cases
        (lets_in (check_access os.parse_addr os.parse_network x.route.access x.client))) [
          | inr a ↦ rw a refl
          | inl a ↦
              rw a (forwards_match x s (look_up os x.runtime.reputation x.client) ∙ ground arith)
        ]

  abbrev pub handling :
      Bool → ℕ → Runtime Regex Network → Request → Route Regex → Handling Regex Network
  handling https now runtime r found = record {
    https = https;
    runtime = runtime;
    route = found;
    request = r;
    client = client_of os runtime r;
    now = now;
  }

  abbrev pub clears_route :
      Bool → ℕ → Runtime Regex Network → Request → State Regex → Option (Route Regex) → Bool
  clears_route https now runtime r s none = false
  clears_route https now runtime r s (some found) =
      sni_matches os https r r.server_name
      && cleared (handling https now runtime r found) s.limiter s.bot

  -- The conditions under which a request is sent on, from the runtime and the route on.
  unfoldable pub clears : Bool → ℕ → Option (Runtime Regex Network) → Request → State Regex → Bool
  unfolding cleared route_of sni_matches client_of
  clears https now none r s = false
  clears https now (some runtime) r s = clears_route https now runtime r s (route_of os runtime r)

  forwards_route :
      (https : Bool) (now : ℕ) (runtime : Runtime Regex Network) (r : Request) (s : State Regex)
      (o : Option (Route Regex))
      → forwards (on_route os https now runtime r s o).0 ≡ clears_route https now runtime r s o
  unfolding on_route
  forwards_route https now runtime r s none = refl
  forwards_route https now runtime r s (some found) =
      elim (Bool-cases (sni_matches os https r r.server_name)) [
        | inl m ↦ rw m (forwards_access (handling https now runtime r found) s)
        | inr m ↦ rw m refl
      ]

  -- A request is sent on to the backend exactly if a runtime and a route are there, the name of the TLS
  -- handshake, if it has one, is that of the request, the access lists let the client in, the reputation does not block
  -- it, no redirect to HTTPS applies, the rate limit grants it, the bot policy does not block it, the
  -- host's action is neither to redirect nor to discard, the body can be inspected where the route has
  -- an engine, the engine does not block the request (or panics while the host fails open), and the
  -- route has a backend.
  pub forwards-handle :
      (https : Bool) (now : ℕ) (runtime : Option (Runtime Regex Network)) (r : Request)
      (s : State Regex)
      → forwards (handle os https now runtime r s).0 ≡ clears https now runtime r s
  unfolding handle clears
  forwards-handle https now none r s = refl
  forwards-handle https now (some runtime) r s =
      forwards_route https now runtime r s (route_of os runtime r)
