-- ===== src/App/Build/Table.antt =====
-- The tables of routes, which the loop over the virtual hosts in build of internal/core/runtime.go
-- fills; `R` is a pointer to a route.
use cherry_waf.Base.{
  Option, none, some, List, [], ◌∷◌, Text, codes, nat_eq, string_eq, text_eq, strip_prefix,
}
use cherry_waf.Base.Assoc.{put}
use cherry_waf.Config.Types.{Config, VirtualHost}
use cherry_waf.Config.Validate.{enabled_virtual_hosts}

-- `exactRoutes` and `wildcardRoutes`.
pub record Tables (R : Type 0) : Type 0 where
  pub exact : List (Text × R)
  pub wildcard : List (Text × R)

module _ {R : Type 0} where
  abbrev pub enter_at : R → Text → Tables R → Option Text → Tables R
  enter_at r domain t none = record t { exact = put domain r t.exact }
  enter_at r domain t (some suffix) = record t { wildcard = put suffix r t.wildcard }

  unfoldable pub enter_domains : R → List Text → Tables R → Tables R
  unfolding strip_prefix put
  enter_domains r [] t = t
  enter_domains r (d ∷ ds) t = enter_domains r ds (enter_at r d t (strip_prefix (codes "*.") d))

  unfoldable pub enter_hosts : List (VirtualHost × R) → Tables R → Tables R
  unfolding enter_domains
  enter_hosts [] t = t
  enter_hosts ((v, r) ∷ rest) t = enter_hosts rest (enter_domains r v.domains t)

  -- What is entered for the enabled hosts of a configuration, each with its route.
  unfoldable pub with_routes : (VirtualHost → R) → List VirtualHost → List (VirtualHost × R)
  with_routes route [] = []
  with_routes route (v ∷ vs) = (v, route v) ∷ with_routes route vs

  abbrev pub no_tables : Tables R
  no_tables = record { exact = []; wildcard = [] }

  -- The tables of a configuration.
  unfoldable pub tables : (VirtualHost → R) → Config → Tables R
  unfolding with_routes enter_hosts enabled_virtual_hosts
  tables route c = enter_hosts (with_routes route (enabled_virtual_hosts c)) no_tables
