-- ===== src/Edge/Access.antt =====
-- The allow and deny lists of an application: internal/core/policy.go.
use cherry_waf.Base.{
  Bool, true, false, ◌&&◌, Option, none, some, List, [], ◌∷◌, if◌then◌else◌, any, ◌==◌, Text,
  nat_eq, string_eq, text_eq, trim_space,
}
use cherry_waf.Edge.{Addr, Prefix, unmap, contains, parse_prefix}

pub record AccessPolicy : Type 0 where
  pub allow : List Prefix
  pub deny : List Prefix

pub data Verdict : Type 0 where
  allowed : Verdict
  invalid_ip : Bool → Verdict
  denied : Verdict
  not_listed : Verdict

abbrev pub lets_in : Verdict → Bool
lets_in allowed = true
lets_in (invalid_ip answer) = answer
lets_in denied = false
lets_in not_listed = false

abbrev pub is_empty : List Prefix → Bool
is_empty [] = true
is_empty (p ∷ ps) = false

-- `Allowed` on an address in its plain form.
unfoldable pub judge : AccessPolicy → Addr → Verdict
unfolding contains
judge p a =
    if any (λ x. contains x a) p.deny
    then denied
    else if is_empty p.allow
    then allowed
    else if any (λ x. contains x a) p.allow
    then allowed
    else not_listed

abbrev pub judge_parsed : AccessPolicy → Option Addr → Verdict
judge_parsed p none = invalid_ip (is_empty p.allow)
judge_parsed p (some a) = judge p (unmap a)

module _ (parse_addr : Text → Option Addr) (parse_network : Text → Option Prefix) where
  abbrev cons_prefix : Option Prefix → Option (List Prefix) → Option (List Prefix)
  cons_prefix none rest = none
  cons_prefix (some p) none = none
  cons_prefix (some p) (some ps) = some (p ∷ ps)

  -- `parsePrefixes`: blank values are skipped, and one that does not parse fails them all.
  unfoldable pub parse_prefixes : List Text → Option (List Prefix)
  unfolding parse_prefix
  parse_prefixes [] = some []
  parse_prefixes (v ∷ vs) =
      let rest = parse_prefixes vs in
      if trim_space v == []
      then rest
      else cons_prefix (parse_prefix parse_addr parse_network (trim_space v)) rest

  abbrev policy_of : Option (List Prefix) → Option (List Prefix) → Option (Option AccessPolicy)
  policy_of none deny = none
  policy_of (some allow) none = none
  policy_of (some allow) (some deny) =
      if is_empty allow && is_empty deny
      then some none
      else some (some (record { allow = allow; deny = deny }))

  -- `newAccessPolicy`: none is an error, and no policy at all stands for two empty lists.
  unfoldable pub new_access_policy : List Text → List Text → Option (Option AccessPolicy)
  unfolding parse_prefixes
  new_access_policy allow deny = policy_of (parse_prefixes allow) (parse_prefixes deny)

  -- `Allowed`
  unfoldable pub check_access : Option AccessPolicy → Text → Verdict
  unfolding judge unmap
  check_access none value = allowed
  check_access (some p) value = judge_parsed p (parse_addr (trim_space value))
