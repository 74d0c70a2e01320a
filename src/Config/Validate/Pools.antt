-- ===== src/Config/Validate/Pools.antt =====
-- The server pools in Validate of internal/config/config.go.
use cherry_waf.Base.{
  String, Bool, not, ◌&&◌, ◌||◌, List, [], ◌∷◌, ◌++◌, if◌then◌else◌, nat_beq, length, any, ◌==◌,
  codes, nat_eq, string_eq, text_eq,
}
use cherry_waf.Proxy.{ServerPool, PoolMember}
use cherry_waf.Config.{require, within, validate_health_check}
use cherry_waf.Config.Types.{Library}
use cherry_waf.Config.Parts.{is_one_of, validate_upstream}

abbrev pub seen_name : List String → String → Bool
seen_name seen name = any (λ n. n == name) seen

-- A name must not be empty and must not have been seen; else it is noted.
unfoldable pub name_errors : List String → String → String → String → List String
name_errors seen name if_empty if_twice =
    if name == "" then if_empty ∷ [] else if seen_name seen name then if_twice ∷ [] else []

abbrev pub note_name : List String → String → List String
note_name seen name = if name == "" || seen_name seen name then seen else name ∷ seen

unfoldable pub names_seen : List String → List String → List String
names_seen seen [] = seen
names_seen seen (n ∷ ns) = names_seen (note_name seen n) ns

unfoldable pub member_errors : Library → PoolMember → List String
unfolding validate_upstream
member_errors lib m =
    validate_upstream lib (codes m.url) m.origin_tls
    ++ require (within 1 1000 m.weight) "weight must be between 1 and 1000"
    ++ require (within 1 1000 m.priority) "priority must be between 1 and 1000"

unfoldable pub members_errors : Library → List String → List PoolMember → List String
unfolding name_errors member_errors
members_errors lib seen [] = []
members_errors lib seen (m ∷ ms) =
    name_errors seen m.id "member ID must not be empty" "duplicate member ID"
    ++ member_errors lib m
    ++ members_errors lib (note_name seen m.id) ms

unfoldable pub pool_errors : Library → ServerPool → List String
unfolding members_errors validate_health_check
pool_errors lib p =
    require
      (is_one_of
        ("round_robin" ∷ "weighted_round_robin" ∷ "least_connections" ∷ "source_ip_hash"
          ∷ "primary_backup" ∷ "random" ∷ [])
        p.algorithm)
      "unsupported algorithm"
    ++ require (p.failure_mode == "reject" || p.failure_mode == "last_resort")
        "failure_mode must be reject or last_resort"
    ++ require (not (p.enabled && nat_beq (length p.members) 0)) "must contain at least one member"
    ++ members_errors lib [] p.members
    ++ require (not (p.enabled && not (any (λ m. m.enabled) p.members)))
        "must contain at least one enabled member"
    ++ (if p.health_check.enabled then validate_health_check lib.upper p.health_check else [])

unfoldable pub pools_errors : Library → List String → List ServerPool → List String
unfolding name_errors pool_errors
pools_errors lib seen [] = []
pools_errors lib seen (p ∷ ps) =
    name_errors seen p.name "server pool name must not be empty" "duplicate server pool name"
    ++ pool_errors lib p
    ++ pools_errors lib (note_name seen p.name) ps
