-- ===== src/Backend/Build.antt =====
-- Building a backend: New, newPoolRuntime and newTransport of internal/proxy/proxy.go.
use Prim.Native.String.{◌++◌ as string_append}
use cherry_waf.Base.{
  String, Bool, true, false, not, ◌||◌, Option, none, some, List, [], ◌∷◌, if◌then◌else◌, ◌==◌,
  Text, codes, nat_eq, string_eq, text_eq, strip_prefix,
}
use cherry_waf.Base.Int.{pos}
use cherry_waf.Base.Assoc.{put}
use cherry_waf.Proxy.{ServerPool, PoolMember, HealthCheck, Member, Pool, OriginTls}
use cherry_waf.Config.Types.{ContentRoute, VirtualHost, Config, Url, Library}
use cherry_waf.Config.Parts.{has_origin_tls}
use cherry_waf.Config.Validate.Pools.{seen_name}
use cherry_waf.Config.Validate.Hosts.{server_pool_by_name}
use cherry_waf.Backend.{CompiledContentRoute, Backend}
use cherry_waf.Backend.Content.{compile_content_routes}

-- A member that has not been used yet.
abbrev pub fresh_member : HealthCheck → PoolMember → Member
fresh_member health item = record {
  config = item;
  health = health;
  healthy = true;
  active = 0;
  requests = 0;
  failures = 0;
  consecutive_success = 0;
  consecutive_failures = 0;
  last_check = 0;
  last_error = [];
  current_weight = pos 0;
  checking = false;
}

abbrev pub unchecked : HealthCheck
unchecked = record {
  enabled = false;
  kind = "";
  interval_seconds = 0;
  timeout_seconds = 0;
  healthy_threshold = 0;
  unhealthy_threshold = 0;
  method = "";
  path = [];
  host = "";
  expected_status_min = 0;
  expected_status_max = 0;
}

-- The prefix of a pool that stands for the host's own upstream.
abbrev pub direct : String
direct = "__direct__"

abbrev pub is_some : {A : Type 0} → Option A → Bool
is_some none = false
is_some (some a) = true

unfoldable pub is_direct : String → Bool
unfolding strip_prefix
is_direct name = is_some (strip_prefix (codes direct) (codes name))

abbrev pub default_pool_name : VirtualHost → String
default_pool_name v = if v.server_pool == "" then string_append direct v.name else v.server_pool

-- The names of the pools that a host needs, each once: its own and those of enabled routes.
abbrev pub add_name : String → List String → List String
add_name name names = if seen_name names name then names else name ∷ names

unfoldable pub route_pools : List ContentRoute → List String
route_pools [] = []
route_pools (r ∷ rs) = let rest = route_pools rs in if r.enabled then add_name r.pool rest else rest

unfoldable pub needed_pools : VirtualHost → List String
unfolding route_pools
needed_pools v = add_name (default_pool_name v) (route_pools v.content_routes)

-- `text` turns the upstream's text back into a string.
module _ {Regex : Type 0} (lib : Library) (compile : Text → Option Regex) (ca_loads : String → Bool)
    (text : Text → String) where
  -- Whether newTransport succeeds for a target: its file of certificates, if it needs one, loads.
  abbrev pub transport_ok : OriginTls → Option Url → Bool
  transport_ok tls none = false
  transport_ok tls (some u) =
      not (u.scheme == codes "https") || tls.ca_file == "" || ca_loads tls.ca_file

  abbrev pub member_tls : OriginTls → PoolMember → OriginTls
  member_tls host_tls item = if has_origin_tls item.origin_tls then item.origin_tls else host_tls

  abbrev pub add_member :
      HealthCheck → Bool → PoolMember → Option (List Member) → Option (List Member)
  add_member health ok item none = none
  add_member health true item (some ms) = some (fresh_member health item ∷ ms)
  add_member health false item (some ms) = none

  unfoldable pub new_members : HealthCheck → OriginTls → List PoolMember → Option (List Member)
  unfolding has_origin_tls
  new_members health host_tls [] = some []
  new_members health host_tls (i ∷ is) =
      let rest = new_members health host_tls is in
      if not i.enabled
      then rest
      else add_member health (transport_ok (member_tls host_tls i) (lib.parse_url (codes i.url))) i
          rest

  abbrev pub pool_of : ServerPool → Option (List Member) → Option Pool
  pool_of config none = none
  pool_of config (some []) = none
  pool_of config (some (m ∷ ms)) = some (record { config = config; members = m ∷ ms; rr = 0 })

  -- `newPoolRuntime`: none is an error.
  unfoldable pub new_pool_runtime : ServerPool → OriginTls → Option Pool
  unfolding new_members
  new_pool_runtime p host_tls = pool_of p (new_members p.health_check host_tls p.members)

  abbrev pub direct_pool : VirtualHost → String → ServerPool
  direct_pool v name = record {
    name = name;
    enabled = true;
    algorithm = "round_robin";
    failure_mode = "last_resort";
    members =
        (record {
          id = "origin";
          url = text v.upstream;
          enabled = true;
          weight = 1;
          priority = 100;
          backup = false;
          origin_tls = v.origin_tls;
        })
        ∷ [];
    health_check = unchecked;
  }

  unfoldable pub pool_config : VirtualHost → Config → String → Option ServerPool
  unfolding is_direct server_pool_by_name
  pool_config v c name =
      if is_direct name then some (direct_pool v name) else server_pool_by_name c.server_pools name

  abbrev pub build_found : VirtualHost → Option ServerPool → Option Pool
  build_found v none = none
  build_found v (some p) = new_pool_runtime p v.origin_tls

  abbrev pub add_pool :
      String → Option Pool → Option (List (String × Pool)) → Option (List (String × Pool))
  add_pool name none rest = none
  add_pool name (some p) none = none
  add_pool name (some p) (some pools) = some (put name p pools)

  unfoldable pub build_pools : VirtualHost → Config → List String → Option (List (String × Pool))
  unfolding new_pool_runtime pool_config put
  build_pools v c [] = some []
  build_pools v c (n ∷ ns) = add_pool n (build_found v (pool_config v c n)) (build_pools v c ns)

  abbrev pub with_routes :
      VirtualHost
      → List (String × Pool)
      → Option (List (CompiledContentRoute Regex))
      → Option (Backend Regex)
  with_routes v pools none = none
  with_routes v pools (some routes) = some (record {
    vhost = v;
    pools = pools;
    default_pool = default_pool_name v;
    content_routes = routes;
  })

  abbrev pub with_pools : VirtualHost → Option (List (String × Pool)) → Option (Backend Regex)
  with_pools v none = none
  with_pools v (some pools) =
      with_routes v pools (compile_content_routes compile lib.upper v.content_routes)

  -- `New`, where the process's key could be drawn: none is an error.
  unfoldable pub new : VirtualHost → Config → Option (Backend Regex)
  unfolding build_pools needed_pools compile_content_routes
  new v c = with_pools v (build_pools v c (needed_pools v))
