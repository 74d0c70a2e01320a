-- ===== src/Config/Validate/Hosts.antt =====
-- The virtual hosts in Validate of internal/config/config.go, and validateContentRoutes.
use cherry_waf.Base.{
  String, Bool, false, not, ◌&&◌, ◌||◌, Option, none, some, List, [], ◌∷◌, ◌++◌, if◌then◌else◌,
  nat_beq, length, find_first, ◌==◌, Text, codes, nat_eq, string_eq, text_eq,
}
use cherry_waf.Base.Assoc.{get, put}
use cherry_waf.Base.Trim.{trim_string}
use cherry_waf.Proxy.{ServerPool}
use cherry_waf.Config.{require, within, valid_method, validate_persistence, starts_with_slash}
use cherry_waf.Config.Types.{ContentRoute, VirtualHost, Config, Library}
use cherry_waf.Config.Parts.{
  error_of, each, is_blank, valid_header_value, forbidden_request_header, forbidden_response_header,
  validate_waf_policy, validate_bot_policy, validate_redirect, validate_upstream,
}
use cherry_waf.Config.Domain.{normalize_domain, validate_domain_pattern}
use cherry_waf.Config.Validate.Pools.{seen_name, name_errors, note_name}

-- `ServerPoolByName`
unfoldable pub server_pool_by_name : List ServerPool → String → Option ServerPool
unfolding find_first
server_pool_by_name pools name = find_first (λ p. p.name == name) pools

abbrev pub is_enabled : Option ServerPool → Bool
is_enabled none = false
is_enabled (some p) = p.enabled

-- A reference to a pool by name.
unfoldable pub reference_errors : List ServerPool → List String → String → List String
unfolding server_pool_by_name
reference_errors pools names name =
    if not (seen_name names name)
    then "references unknown server pool" ∷ []
    else require (is_enabled (server_pool_by_name pools name)) "references disabled server pool"

-- A pair of a name and a pattern: both, with a name that is valid and a pattern that compiles.
abbrev pub pair_errors : Library → Bool → Text → Text → String → List String
pair_errors lib valid name pattern message =
    if name == [] && pattern == []
    then []
    else if not valid || pattern == []
    then message ∷ []
    else require (lib.compiles pattern) "pattern does not compile"

abbrev pub has_condition : ContentRoute → Bool
has_condition r =
    not (nat_beq (length r.methods) 0)
    || not (r.path_prefix == [])
    || not (r.path_pattern == [])
    || not (r.header_name == [] && r.header_pattern == [])
    || not (r.query_name == [] && r.query_pattern == [])

unfoldable pub content_route_errors :
    Library → List ServerPool → List String → ContentRoute → List String
unfolding reference_errors each valid_method
content_route_errors lib pools names r =
    reference_errors pools names r.pool
    ++ each (λ m. require (valid_method m) "invalid method") r.methods
    ++ require (r.path_prefix == [] || starts_with_slash r.path_prefix)
        "path_prefix must begin with /"
    ++ require (r.path_pattern == [] || lib.compiles r.path_pattern) "path_pattern"
    ++ pair_errors lib (valid_method r.header_name) r.header_name r.header_pattern
        "requires a valid header_name and header_pattern"
    ++ pair_errors lib (not (is_blank r.query_name)) r.query_name r.query_pattern
        "requires query_name and query_pattern"
    ++ require (has_condition r) "must define at least one match condition"

-- The name of a route is refused where it is blank, and noted as it is written.
abbrev route_name_errors : List String → ContentRoute → List String
route_name_errors seen r =
    if is_blank (codes r.name)
    then "content route name must not be empty" ∷ []
    else if seen_name seen r.name
    then "duplicate content route name" ∷ []
    else []

abbrev pub note_route : List String → ContentRoute → List String
note_route seen r = if not r.enabled || is_blank (codes r.name) then seen else note_name seen r.name

unfoldable pub routes_errors :
    Library → List ServerPool → List String → List String → List ContentRoute → List String
unfolding content_route_errors
routes_errors lib pools names seen [] = []
routes_errors lib pools names seen (r ∷ rs) =
    let rest = routes_errors lib pools names (note_route seen r) rs in
    if not r.enabled
    then rest
    else route_name_errors seen r ++ content_route_errors lib pools names r ++ rest

-- `validateContentRoutes`
unfoldable pub validate_content_routes :
    Library → List ServerPool → List String → VirtualHost → List String
unfolding routes_errors
validate_content_routes lib pools names v =
    if nat_beq (length v.content_routes) 0
    then []
    else if not (v.action == "group")
    then "content_routes require action=group" ∷ []
    else routes_errors lib pools names [] v.content_routes

-- What a host of the action group forwards to.
unfoldable pub group_errors : Library → List ServerPool → List String → VirtualHost → List String
unfolding reference_errors validate_upstream
group_errors lib pools names v =
    if not (is_blank (codes v.server_pool)) && not (is_blank v.upstream)
    then "must use either server_pool or upstream, not both" ∷ []
    else if not (v.server_pool == "")
    then reference_errors pools names v.server_pool
    else validate_upstream lib v.upstream v.origin_tls

unfoldable pub action_errors : Library → List ServerPool → List String → VirtualHost → List String
unfolding group_errors validate_redirect
action_errors lib pools names v =
    if v.action == "group"
    then group_errors lib pools names v
    else if v.action == "redirect"
    then error_of (validate_redirect lib v.redirect)
    else if v.action == "discard"
    then require (within 400 599 v.discard_status) "discard_status must be between 400 and 599"
    else "action must be group, redirect, or discard" ∷ []

-- The domains of one host, with the owners of those seen before: a domain is looked up as it is
-- normalised, and the pattern is checked.
abbrev owner_errors : Option String → List String
owner_errors none = []
owner_errors (some owner) = "domain is assigned to both" ∷ []

abbrev pub domain_step_errors : Option String → Option String → List String
domain_step_errors none owner = owner_errors owner
domain_step_errors (some e) owner = e ∷ []

abbrev pub note_domain :
    String → Text → Option String → Option String → List (Text × String) → List (Text × String)
note_domain name domain none none seen = put domain name seen
note_domain name domain none (some owner) seen = seen
note_domain name domain (some e) owner seen = seen

abbrev pub see_domain : Library → String → Text → List (Text × String) → List (Text × String)
see_domain lib name domain seen =
    note_domain name domain (validate_domain_pattern lib domain) (get domain seen) seen

unfoldable pub domains_errors : Library → String → List (Text × String) → List Text → List String
unfolding normalize_domain validate_domain_pattern get
domains_errors lib name seen [] = []
domains_errors lib name seen (d ∷ ds) =
    let domain = normalize_domain lib.lower d in
    domain_step_errors (validate_domain_pattern lib domain) (get domain seen)
    ++ domains_errors lib name (see_domain lib name domain seen) ds

unfoldable pub domain_owners :
    Library → String → List (Text × String) → List Text → List (Text × String)
unfolding normalize_domain validate_domain_pattern get put
domain_owners lib name seen [] = seen
domain_owners lib name seen (d ∷ ds) =
    domain_owners lib name (see_domain lib name (normalize_domain lib.lower d) seen) ds

-- The headers that a host sets.
unfoldable pub header_errors : (Text → Bool) → Text × Text → List String
unfolding valid_method valid_header_value
header_errors forbidden (header, value) =
    if not (valid_method header)
    then "not a valid HTTP header name" ∷ []
    else require (not (forbidden header)) "managed by the HTTP transport and cannot be overridden"
      ++ require (valid_header_value value) "contains an invalid value"

-- An enabled host, its domains aside.
unfoldable pub host_errors : Library → Config → List String → VirtualHost → List String
unfolding action_errors validate_persistence validate_waf_policy validate_bot_policy
    validate_content_routes each header_errors forbidden_request_header forbidden_response_header
host_errors lib c names v =
    action_errors lib c.server_pools names v
    ++ require
        (not (
          c.https.enabled
          && (is_blank v.frontend_tls.certificate_file
              || is_blank v.frontend_tls.private_key_file)))
        "requires frontend_tls certificate and private key while HTTPS is enabled"
    ++ error_of (validate_persistence v.persistence)
    ++ validate_waf_policy lib v.waf_policy
    ++ validate_bot_policy lib v.bot_policy
    ++ validate_content_routes lib c.server_pools names v
    ++ each (header_errors (forbidden_request_header lib.lower)) v.request_headers
    ++ each (header_errors (forbidden_response_header lib.lower)) v.response_headers

abbrev pub see_host : Library → VirtualHost → List (Text × String) → List (Text × String)
see_host lib v seen =
    if v.enabled then domain_owners lib (trim_string v.name) seen v.domains else seen

-- The hosts in order, with the names and the owners of domains seen before.
unfoldable pub hosts_errors :
    Library
    → Config
    → List String
    → List String
    → List (Text × String)
    → List VirtualHost
    → List String
unfolding host_errors name_errors domains_errors domain_owners trim_string
hosts_errors lib c names seen owned [] = []
hosts_errors lib c names seen owned (v ∷ vs) =
    let name = trim_string v.name in
    name_errors seen name "virtual host name must not be empty" "duplicate virtual host name"
    ++ (if v.enabled
        then require (not (nat_beq (length v.domains) 0)) "must contain at least one domain"
          ++ domains_errors lib name owned v.domains
          ++ host_errors lib c names v
        else [])
    ++ hosts_errors lib c names (note_name seen name) (see_host lib v owned) vs

unfoldable pub owners : Library → List (Text × String) → List VirtualHost → List (Text × String)
unfolding domain_owners trim_string
owners lib owned [] = owned
owners lib owned (v ∷ vs) = owners lib (see_host lib v owned) vs
