-- ===== src/Lib.antt =====
-- A model of CherryWAF, a web application firewall and load balancer written in Go, and what is proved
-- of it.
--
-- A request passes the checks of a virtual host (the client's address from internal/netutil, access
-- lists from internal/core/policy.go, internal/reputation, internal/bot, internal/ratelimit), then the
-- WAF engine (internal/waf), and then goes to a member of a server pool (internal/proxy). The control
-- service (internal/control) keeps the accounts of those who administer it all.
--
-- Base       texts, lists, maps, integers and equality as the parts below share them. A Go map is an
--            association list in which each key stands once; a text is a list of code points, or of
--            bytes where the code counts them.
-- RateLimit  internal/ratelimit/limiter.go: `allow` is Allow, `sweep` the body of cleanupLoop. A time is
--            a number of nanoseconds. A float64 amount is an exact number of a unit; rounding is not
--            modelled.
-- Proxy      internal/proxy/proxy.go and health.go: `select_member` is selectMember, `round_trip`
--            RoundTrip, `record_success` and `record_failure` the health counters, with the wrap-around
--            of their 32 and 64 bits written out. A transport and HMAC are parameters.
-- Waf        internal/waf: `new` is New, `inspect` Inspect, `request_targets` requestTargets. Compiling
--            and matching patterns, UTF-8, HTML unescaping and Unicode tables are parameters. The decoding
--            loops take their number of rounds from the source, so they need no other fuel.
-- Control    internal/control/store.go, types.go and part of password.go: `create_user`, `update_user`,
--            `delete_user`, `authenticate`, `session_principal`. Each takes the clock's readings, the
--            random values and whether the state file could be written. `authenticate` is two locked
--            parts, with a parameter for what other requests do to the store between them. PBKDF2 is a
--            parameter. `Control.Bundle.apply_bundle` is applyBundleLocked of config_manager.go, with the
--            answers of the file system and of the running service as inputs.
-- Edge       internal/core/policy.go, internal/reputation/store.go, internal/netutil/clientip.go and
--            internal/bot/engine.go. Parsing addresses is a parameter; prefixes are compared on numbers.
--            `Edge.Route.route` is Route of internal/core/runtime.go,
--            `Edge.Certificate.get_certificate` GetCertificate of internal/certstore/store.go.
-- Config     internal/config/config.go: `apply_defaults` is applyDefaults, `validate` is Validate and `load`
--            what Load does after decoding. Its errors are a list of messages, without the values that
--            are formatted into them. A rate, which is a float64 there, is a number of thousandths.
--            Numbers below zero, which validation refuses, are left out.
-- Backend    internal/proxy/proxy.go and content.go, for one virtual host: `Build.new` is New,
--            `Content.select_pool` selectPool, `Serve.start` ServeHTTP up to the round trip,
--            `Serve.Headers.rewrite` rewrite, `Url.rewrite_url` rewriteURL. Parsing URLs, compiling and
--            matching patterns and loading certificates are parameters.
-- App        internal/app/app.go: `Handler.handle` is publicHandler, one function for each stage;
--            `Body.inspection_body` is inspectionBody, `Reload.reload` Reload, `Admin.authorized`
--            authorized, `Capture` responseCapture. What core.Build returns is an input of a reload.
--            `Build.build_route_security` is buildRouteSecurity of internal/core/policy.go, `Build.new_bot`
--            New of internal/bot, `Build.Table.tables` the route tables of internal/core/runtime.go.
-- Network    cmd/cherrywaf-netd/main.go: `apply`, `confirm` and `rollback` of a network plan. What the
--            file system and the commands answer is an input; a backup that is to be read can be read.
--            `Plan.validate_network_plan` and `Plan.render_netplan` are ValidateNetworkPlan and
--            RenderNetplan of internal/control/network.go; parsing addresses is a parameter.
-- Examples   the theorems at concrete inputs.
--
-- Every loop is structural recursion, so no fuel is needed. Not modelled: decoding JSON, starting and
-- stopping listeners, the pages of the admin listener, the places on the threat map, the control
-- service's handlers, restoring and pruning its revisions, the network daemon's sockets and handlers,
-- reading and checking certificates, logging, metrics and the command lines; the file system, the
-- network and the scheduling of goroutines.
pub mod Base
pub mod RateLimit
pub mod Proxy
pub mod Waf
pub mod Control
pub mod Edge
pub mod Config
pub mod Backend
pub mod App
pub mod Network
pub mod Examples
