-- ===== src/Config/Validate/Accepted.antt =====
-- What an accepted configuration promises to the rest of the program (Validate and Load of
-- internal/config/config.go).
use cherry_waf.Base.{
  String, ◌≡◌, refl, Bool, true, false, not, Option, none, some, List, [], ◌∷◌, ◌++◌, map, arith,
  if◌then◌else◌, nat_beq, length, In, All, All-In, find_first-some, ◌==◌, Text, nat_eq, string_eq,
  text_eq,
}
use cherry_waf.Base.Assoc.{get}
use cherry_waf.Base.Trim.{trim_string}
use cherry_waf.Proxy.{ServerPool}
use cherry_waf.Config.Types.{ContentRoute, VirtualHost, Config, Library}
use cherry_waf.Config.Domain.{normalize_domain, validate_domain_pattern}
use cherry_waf.Config.Validate.Pools.{seen_name, names_seen, pools_errors}
use cherry_waf.Config.Validate.Hosts.{
  note_route, server_pool_by_name, is_enabled, reference_errors, content_route_errors,
  routes_errors, validate_content_routes, group_errors, action_errors, host_errors, hosts_errors,
  owners,
}
use cherry_waf.Config.Validate.{validate}
use cherry_waf.Config.Validate.Sound.{append-nil, require-nil, AllNew, SoundPool, pools_sound}
use cherry_waf.Config.Validate.Owners.{hosts-Kept}

module _ (lib : Library) (c : Config) (accepted : validate lib c ≡ []) where
  -- The errors of the pools and those of the hosts, both none.
  parts :
      (pools_errors lib [] c.server_pools ≡ [])
      × (hosts_errors lib c (names_seen [] (map (λ p. p.name) c.server_pools)) [] [] c.virtual_hosts
          ≡ [])
  unfolding validate
  parts =
      let (front, last) = append-nil {xs = _} {ys = if c.https.enabled then _ else []} accepted in
      let (front, hosts) = append-nil front in
      let (front, pools) = append-nil front in (pools, hosts)

  -- In a configuration without errors, pools have names of their own, and each pool is sound by itself:
  -- its members have names of their own, valid URLs and bounded weights and priorities, some member is
  -- enabled if the pool is, and its health checks pass validation if they are on.
  pub validated_pools :
      AllNew [] (map (λ p. p.name) c.server_pools) × All (SoundPool lib) c.server_pools
  validated_pools = pools_sound lib [] c.server_pools parts.0

  -- In a configuration without errors, each domain of an enabled host is a valid pattern that belongs to
  -- that host.
  pub validated_domain :
      (v : VirtualHost) (d : Text)
      → In v c.virtual_hosts
      → v.enabled ≡ true
      → In d v.domains
      → (validate_domain_pattern lib (normalize_domain lib.lower d) ≡ none)
        × (get (normalize_domain lib.lower d) (owners lib [] c.virtual_hosts)
            ≡ some (trim_string v.name))
  validated_domain v d there on m =
      ((hosts-Kept lib c _ [] [] c.virtual_hosts parts.1).2 v there on).1 d m

  pub validated_names : AllNew [] (map (λ v. trim_string v.name) c.virtual_hosts)
  validated_names = (hosts-Kept lib c _ [] [] c.virtual_hosts parts.1).1

  own_checks :
      (v : VirtualHost)
      → In v c.virtual_hosts
      → v.enabled ≡ true
      → host_errors lib c (names_seen [] (map (λ p. p.name) c.server_pools)) v ≡ []
  own_checks v there on = ((hosts-Kept lib c _ [] [] c.virtual_hosts parts.1).2 v there on).0

  -- A reference to a pool that has no errors finds an enabled one.
  found_enabled :
      (o : Option ServerPool)
      → is_enabled o ≡ true
      → (p : ServerPool) × (o ≡ some p) × (p.enabled ≡ true)
  found_enabled none h = absurd (ground (arith, h))
  found_enabled (some p) h = (p, refl, h)

  pub reference_found :
      (names : List String) (name : String)
      → reference_errors c.server_pools names name ≡ []
      → (p : ServerPool) × (server_pool_by_name c.server_pools name ≡ some p) × (p.enabled ≡ true)
  unfolding reference_errors
  reference_found names name h = found_enabled (server_pool_by_name c.server_pools name) (
      require-nil (is_enabled (server_pool_by_name c.server_pools name))
        "references disabled server pool" (known (seen_name names name) h))
    where
      known :
          (b : Bool) {es : List String}
          → (if not b then "references unknown server pool" ∷ [] else es) ≡ []
          → es ≡ []
      known true h = h
      known false h = absurd (ground (arith, h))

  no_action_errors :
      (v : VirtualHost)
      → In v c.virtual_hosts
      → v.enabled ≡ true
      → action_errors lib c.server_pools (names_seen [] (map (λ p. p.name) c.server_pools)) v ≡ []
  unfolding host_errors
  no_action_errors v there on =
      let (front, last) = append-nil (own_checks v there on) in
      let (front, last) = append-nil front in
      let (front, last) = append-nil front in
      let (front, last) = append-nil front in
      let (front, last) = append-nil front in
      let (front, last) = append-nil front in (append-nil front).0

  group_refers :
      (names : List String) (v : VirtualHost)
      → action_errors lib c.server_pools names v ≡ []
      → v.action ≡ "group"
      → (v.server_pool == "") ≡ false
      → reference_errors c.server_pools names v.server_pool ≡ []
  unfolding action_errors group_errors
  group_refers names v h group named =
      ground (arith, h, group, named, string_eq.same_iff v.action "group")

  -- In a configuration without errors, an enabled host that forwards to a pool by its name names a pool
  -- that exists, is enabled and has an enabled member.
  pub validated_group :
      (v : VirtualHost)
      → In v c.virtual_hosts
      → v.enabled ≡ true
      → v.action ≡ "group"
      → (v.server_pool == "") ≡ false
      → (p : ServerPool) × (server_pool_by_name c.server_pools v.server_pool ≡ some p)
        × (p.enabled ≡ true)
        × SoundPool lib p
  unfolding server_pool_by_name
  validated_group v there on group named =
      let (p, found, enabled) =
        reference_found _ v.server_pool
          (group_refers _ v (no_action_errors v there on) group named) in
      let (member, same) = find_first-some (λ p. p.name == v.server_pool) c.server_pools p found in
      (p, found, enabled, All-In (SoundPool lib) p c.server_pools validated_pools.1 member)

  -- The content routes of a host, one by one.
  abbrev pub RoutesOk : List String → List ContentRoute → Type 0
  RoutesOk names =
      All (λ r. r.enabled ≡ true → content_route_errors lib c.server_pools names r ≡ [])

  routes_ok :
      (names seen : List String) (rs : List ContentRoute)
      → routes_errors lib c.server_pools names seen rs ≡ []
      → RoutesOk names rs
  unfolding routes_errors
  routes_ok names seen [] h = tt
  routes_ok names seen (r ∷ rs) h = step r.enabled _ _ _ h (routes_ok names (note_route seen r) rs)
    where
      step :
          (on : Bool) (named own rest : List String)
          → (if not on then rest else named ++ own ++ rest) ≡ []
          → (rest ≡ [] → RoutesOk names rs)
          → (on ≡ true → own ≡ []) × RoutesOk names rs
      step true named own rest h later =
          let (front, back) = append-nil h in (λ e. (append-nil front).1, later back)
      step false named own rest h later = (λ e. absurd (ground (arith, e)), later h)

  content_ok :
      (names : List String) (v : VirtualHost)
      → validate_content_routes lib c.server_pools names v ≡ []
      → RoutesOk names v.content_routes
  unfolding validate_content_routes
  content_ok names v h = on_list v.content_routes (v.action == "group") h
    where
      on_list :
          (rs : List ContentRoute) (group : Bool)
          → (if nat_beq (length rs) 0
              then []
              else if not group
              then "content_routes require action=group" ∷ []
              else routes_errors lib c.server_pools names [] rs)
            ≡ []
          → RoutesOk names rs
      on_list [] group h = tt
      on_list (r ∷ rs) true h = routes_ok names [] (r ∷ rs) (ground (arith, h))
      on_list (r ∷ rs) false h = absurd (ground (arith, h))

  pub validated_routes :
      (v : VirtualHost)
      → In v c.virtual_hosts
      → v.enabled ≡ true
      → RoutesOk (names_seen [] (map (λ p. p.name) c.server_pools)) v.content_routes
  unfolding host_errors
  validated_routes v there on =
      let (front, last) = append-nil (own_checks v there on) in
      let (front, last) = append-nil front in content_ok _ v (append-nil front).1
