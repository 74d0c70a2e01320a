-- ===== src/Edge/Route.antt =====
-- The choice of a virtual host: Route of internal/core/runtime.go and Hostname of
-- internal/proxy/proxy.go. A Go map is a list of its entries in the order of its iteration.
pub mod Order
use cherry_waf.Base.{
  ℕ, zero, suc, ◌+◌, ◌-◌, ◌*◌, ◌/◌, ◌%◌, ◌^◌, ◌≤◌, ◌<◌, min, max, String, ◌≡◌, refl, sym, ap, subst,
  fun_ext, ◌∙◌, ◌≢◌, ◌↔◌, ◌⊎◌, inl, inr, Bool, true, false, not, ◌&&◌, ◌||◌, Option, none, some,
  List, [], ◌∷◌, ◌++◌, map, arith, eq_iff, ltb, leb, if◌then◌else◌, ltb→lt, lt→ltb, leb→le, nat_beq,
  nat_beq_iff, Bool-cases, Option-cases, length, get_elem?, take, drop, In, All, any, all, keep_if,
  find_first, length-append, length-take-le, length-keep_if-le, In-keep_if, In-keep_if_of, All-In,
  find_first-some, find_first-none, Eq, ◌==◌, list_beq, list_beq_iff, ==_refl, Text, codes, nat_eq,
  string_eq, text_eq, if_both, between, is_space, trim_left, trim_right, trim_space, rune_len,
  byte_len, strip_prefix, strip_suffix, to_lower, ◌>>=◌,
}
use cherry_waf.Base.Assoc.{get}

-- `Hostname`; `parse_hostname` is the host of a URL, if it parses and is not empty, and `fold` lowers a
-- rune outside ASCII.
unfoldable pub trim_dot : Text → Text
trim_dot host = elim (strip_suffix (b'.' ∷ []) host) [ none ↦ host | some trimmed ↦ trimmed ]

unfoldable pub hostname : (Text → Option Text) → (ℕ → ℕ) → Text → Text
unfolding trim_dot
hostname parse_hostname fold hostport =
    let host = trim_space (map (to_lower fold) hostport) in
    elim (parse_hostname host) [ none ↦ trim_dot host | some parsed ↦ trim_dot parsed ]

-- One label stands before the dot and the suffix.
abbrev pub one_label : Option Text → Bool
one_label none = false
one_label (some left) = not (left == []) && not (any (λ c. c == b'.') left)

unfoldable pub covers : Text → Text → Bool
unfolding strip_suffix
covers host suffix = one_label (strip_suffix (b'.' ∷ suffix) host)

module _ {R : Type 0} where
  -- `sort.Slice`, the longer suffix first.
  unfoldable pub insert_suffix : Text × R → List (Text × R) → List (Text × R)
  insert_suffix s [] = s ∷ []
  insert_suffix s (x ∷ xs) =
      if ltb (byte_len s.0) (byte_len x.0) then x ∷ insert_suffix s xs else s ∷ x ∷ xs

  unfoldable pub sort_suffixes : List (Text × R) → List (Text × R)
  unfolding insert_suffix
  sort_suffixes [] = []
  sort_suffixes (s ∷ ss) = insert_suffix s (sort_suffixes ss)

  abbrev pub route_of : Option (Text × R) → Option R
  route_of none = none
  route_of (some entry) = some entry.1

  unfoldable pub wildcard_route : Text → List (Text × R) → Option R
  unfolding covers find_first sort_suffixes
  wildcard_route host wildcards =
      route_of (find_first (λ e. covers host e.0) (sort_suffixes wildcards))

  abbrev pub or_wildcard : Option R → Option R → Option R
  or_wildcard none wildcard = wildcard
  or_wildcard (some route) wildcard = some route

  -- `Route`, on the normalised host.
  unfoldable pub route : List (Text × R) → List (Text × R) → Text → Option R
  unfolding wildcard_route get
  route exact wildcards host = or_wildcard (get host exact) (wildcard_route host wildcards)
