-- ===== src/Config/Defaults/Filled.antt =====
-- The settings that a configuration has once its defaults are filled in (applyDefaults of
-- internal/config/config.go), as a table of the default of each.
use cherry_waf.Base.{◌≡◌, true, false, List, [], ◌∷◌, Eq, ◌==◌, codes, nat_eq, string_eq, text_eq}
use cherry_waf.Proxy.{ServerPool, PoolMember, HealthCheck}
use cherry_waf.Config.Types.{SecurityConfig, VirtualHost, Config}

-- A setting that was left out has its default, and any other is as it was given.
abbrev pub Filled : {A : Type 0} ⦃e : Eq A⦄ → A → A → A → A → Type 0
Filled empty default given result =
    ((given == empty) ≡ true → result ≡ default) × ((given == empty) ≡ false → result ≡ given)

-- Two lists whose elements are related one by one.
abbrev pub Each : {A : Type 0} → (A → A → Type 0) → List A → List A → Type 0
Each R [] [] = Unit
Each R [] (y ∷ ys) = ⊥
Each R (x ∷ xs) [] = ⊥
Each R (x ∷ xs) (y ∷ ys) = R x y × Each R xs ys

abbrev pub SecurityFilled : SecurityConfig → SecurityConfig → Type 0
SecurityFilled g r =
    Filled "" "blocking" g.mode r.mode
    × Filled 0 10 g.block_threshold r.block_threshold
    × Filled 0 1048576 g.max_body_bytes r.max_body_bytes
    × Filled 0 1048576 g.max_header_bytes r.max_header_bytes
    × Filled [] (codes "X-Forwarded-For") g.forwarded_for_header r.forwarded_for_header
    × Filled 0 50000 g.rate_limit.requests_per_second r.rate_limit.requests_per_second
    × Filled 0 100 g.rate_limit.burst r.rate_limit.burst
    × Filled 0 600 g.rate_limit.entry_ttl_seconds r.rate_limit.entry_ttl_seconds
    × Filled "" "monitor" g.reputation.mode r.reputation.mode

abbrev pub HealthFilled : HealthCheck → HealthCheck → Type 0
HealthFilled g r =
    Filled "" "http" g.kind r.kind
    × Filled 0 10 g.interval_seconds r.interval_seconds
    × Filled 0 3 g.timeout_seconds r.timeout_seconds
    × Filled 0 2 g.healthy_threshold r.healthy_threshold
    × Filled 0 3 g.unhealthy_threshold r.unhealthy_threshold
    × Filled "" "GET" g.method r.method
    × Filled [] (codes "/") g.path r.path
    × Filled 0 200 g.expected_status_min r.expected_status_min
    × Filled 0 399 g.expected_status_max r.expected_status_max

abbrev pub MemberFilled : PoolMember → PoolMember → Type 0
MemberFilled g r = Filled 0 1 g.weight r.weight × Filled 0 100 g.priority r.priority

abbrev pub PoolFilled : ServerPool → ServerPool → Type 0
PoolFilled g r =
    Filled "" "round_robin" g.algorithm r.algorithm
    × Filled "" "reject" g.failure_mode r.failure_mode
    × Each MemberFilled g.members r.members
    × HealthFilled g.health_check r.health_check

-- The numbers of a bot policy are filled in where it is on.
abbrev pub HostFilled : VirtualHost → VirtualHost → Type 0
HostFilled g r =
    Filled "" "group" g.action r.action
    × Filled 0 302 g.redirect.status r.redirect.status
    × Filled 0 403 g.discard_status r.discard_status
    × Filled "" "none" g.persistence.mode r.persistence.mode
    × Filled [] (codes "CWAF_ROUTE") g.persistence.cookie_name r.persistence.cookie_name
    × Filled 0 3600 g.persistence.ttl_seconds r.persistence.ttl_seconds
    × Filled "" "inherit" g.waf_policy.mode r.waf_policy.mode
    × Filled "" "closed" g.waf_policy.fail_mode r.waf_policy.fail_mode
    × Filled "" "monitor" g.bot_policy.mode r.bot_policy.mode
    × (g.bot_policy.enabled ≡ true
        → Filled 0 300000 g.bot_policy.requests_per_minute r.bot_policy.requests_per_minute
          × Filled 0 60 g.bot_policy.burst r.bot_policy.burst)
    × (g.bot_policy.enabled ≡ false
        → (r.bot_policy.requests_per_minute ≡ g.bot_policy.requests_per_minute)
          × (r.bot_policy.burst ≡ g.bot_policy.burst))

abbrev pub ConfigFilled : Config → Config → Type 0
ConfigFilled g r =
    Filled 0 1 g.version r.version
    × Filled [] (codes ":80") g.http.listen r.http.listen
    × Filled [] (codes ":443") g.https.listen r.https.listen
    × Filled "" "1.2" g.https.min_tls_version r.https.min_tls_version
    × Filled [] (codes "127.0.0.1:9090") g.admin.listen r.admin.listen
    × Filled "" "CHERRYWAF_ADMIN_TOKEN" g.admin.token_env r.admin.token_env
    × SecurityFilled g.security r.security
    × Filled "" "-" g.logging.access_file r.logging.access_file
    × Filled "" "-" g.logging.security_file r.logging.security_file
    × Each PoolFilled g.server_pools r.server_pools
    × Each HostFilled g.virtual_hosts r.virtual_hosts
