-- ===== src/Backend/Sound/Served.antt =====
-- That an accepted configuration can be served, for a whole virtual host: Validate of
-- internal/config/config.go with New of internal/proxy/proxy.go.
use cherry_waf.Base.{
  String, ◌≡◌, refl, sym, subst, ◌∙◌, Bool, true, false, Option, some, List, [], ◌∷◌, if◌then◌else◌,
  In, All, all, All-In, find_first-some, ◌==◌, Text, nat_eq, string_eq, text_eq, if_both,
}
use cherry_waf.Base.Assoc.{get}
use cherry_waf.Proxy.{ServerPool, Pool}
use cherry_waf.Config.Types.{Config, VirtualHost, ContentRoute, Library}
use cherry_waf.Config.Validate.{validate}
use cherry_waf.Config.Validate.Pools.{seen_name}
use cherry_waf.Config.Validate.Hosts.{server_pool_by_name, content_route_errors}
use cherry_waf.Config.Validate.Sound.{SoundPool}
use cherry_waf.Config.Validate.Accepted.{
  validated_pools, validated_group, validated_routes, reference_found, RoutesOk,
}
use cherry_waf.Backend.{Backend}
use cherry_waf.Backend.Build.{
  is_direct, default_pool_name, add_name, route_pools, needed_pools, pool_config, build_found, new,
}
use cherry_waf.Backend.Sound.{Plain, Built, Buildable, pool-Built, pools_built, In-add_name}
use cherry_waf.Backend.Sound.Routes.{routes_compile, route_reference}

All-add_name :
    (P : String → Type 0) (n : String) (ns : List String) → P n → All P ns → All P (add_name n ns)
All-add_name P n ns h k = if_both (All P) (seen_name ns n) ns (n ∷ ns) k (h, k)

module _ {Regex : Type 0} (lib : Library) (compile : Text → Option Regex) (ca_loads : String → Bool)
    (text : Text → String) (loads : (file : String) → ca_loads file ≡ true)
    (agree : (t : Text) → lib.compiles t ≡ true → (r : Regex) × (compile t ≡ some r)) (c : Config)
    (accepted : validate lib c ≡ []) (plain : All Plain c.server_pools) where
  -- A pool that is found by its name is what is built under that name.
  named-Built :
      (v : VirtualHost) (n : String) (p : ServerPool)
      → server_pool_by_name c.server_pools n ≡ some p
      → p.enabled ≡ true
      → (r : Pool) × (build_found lib compile ca_loads text v
            (pool_config lib compile ca_loads text v c n)
          ≡ some r)
        × Built lib compile ca_loads text loads p r
  unfolding pool_config server_pool_by_name
  named-Built v n p found on =
      let (member, same) = find_first-some (λ q. q.name == n) c.server_pools p found in
      let sound =
        All-In (SoundPool lib) p c.server_pools (validated_pools lib c accepted).1 member in
      let alone = All-In Plain p c.server_pools plain member in
      let indirect : is_direct n ≡ false =
        subst (λ x. is_direct x ≡ false) ((string_eq.same_iff p.name n).0 same) alone.0 in
      let (r, built, facts) =
        pool-Built lib compile ca_loads text loads p v.origin_tls sound on alone in
      (r, rw (indirect, found) built, facts)

  routes-Buildable :
      (v : VirtualHost) (names : List String) (rs : List ContentRoute)
      → RoutesOk lib c accepted names rs
      → All (Buildable lib compile ca_loads text loads v c) (route_pools rs)
  unfolding route_pools
  routes-Buildable v names [] h = tt
  routes-Buildable v names (r ∷ rs) h = step r.enabled h.0 (routes-Buildable v names rs h.1)
    where
      step :
          (on : Bool)
          → (on ≡ true → content_route_errors lib c.server_pools names r ≡ [])
          → All (Buildable lib compile ca_loads text loads v c) (route_pools rs)
          → All
              (Buildable lib compile ca_loads text loads v c)
              (if on then add_name r.pool (route_pools rs) else route_pools rs)
      step false f rest = rest
      step true f rest =
          let refs = route_reference lib compile agree c.server_pools names r (f refl) in
          let (p, found, enabled) = reference_found lib c accepted names r.pool refs in
          let (pool, built, facts) = named-Built v r.pool p found enabled in
          All-add_name (Buildable lib compile ca_loads text loads v c) r.pool (route_pools rs)
            (pool, built) rest

  -- For each enabled host of an accepted configuration that forwards to a pool by its name, a backend is
  -- built, and its default pool is built from the pool of that name: it has a member, its members have
  -- IDs of their own, and they are the enabled ones in order. This holds where a pattern that validation
  -- accepts compiles, every file of certificates loads, no URL of a member has white space around it and
  -- no pool has a name with the prefix `__direct__`.
  pub new_serves :
      (v : VirtualHost)
      → In v c.virtual_hosts
      → v.enabled ≡ true
      → v.action ≡ "group"
      → (v.server_pool == "") ≡ false
      → (b : Backend Regex) × (p : ServerPool) × (r : Pool) × (new lib compile ca_loads text v c
          ≡ some b)
        × (server_pool_by_name c.server_pools v.server_pool ≡ some p)
        × (get b.default_pool b.pools ≡ some r)
        × Built lib compile ca_loads text loads p r
  unfolding new needed_pools
  new_serves v there on group named =
      let (p, found, enabled, sound) = validated_group lib c accepted v there on group named in
      let (r, built, facts) = named-Built v v.server_pool p found enabled in
      let default : default_pool_name v ≡ v.server_pool = rw named refl in
      let ok = validated_routes lib c accepted v there on in
      let buildable =
        All-add_name (Buildable lib compile ca_loads text loads v c) (default_pool_name v) _
          (subst (Buildable lib compile ca_loads text loads v c) (sym default) (r, built))
          (routes-Buildable v _ v.content_routes ok) in
      let (pools, all, holds) =
        pools_built lib compile ca_loads text loads v c (needed_pools v) buildable in
      let (items, compiled) =
        routes_compile lib compile agree c.server_pools _ v.content_routes ok in
      let here =
        holds (default_pool_name v)
          (In-add_name lib compile ca_loads text loads (default_pool_name v) _) in
      (
        record {
          vhost = v;
          pools = pools;
          default_pool = default_pool_name v;
          content_routes = items;
        },
        p,
        r,
        rw (all, compiled) refl,
        found,
        here
            ∙ subst
                (λ n.
                  build_found lib compile ca_loads text v
                    (pool_config lib compile ca_loads text v c n)
                  ≡ some r)
                (sym default) built,
        facts,
      )
