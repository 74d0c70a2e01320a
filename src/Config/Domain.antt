-- ===== src/Config/Domain.antt =====
-- Names of hosts: NormalizeDomain and ValidateDomainPattern of internal/config/config.go.
use cherry_waf.Base.{
  ℕ, String, Bool, true, false, not, ◌||◌, Option, none, some, List, [], ◌∷◌, map, ltb,
  if◌then◌else◌, nat_beq, any, all, ◌==◌, Text, codes, nat_eq, string_eq, text_eq, between,
  trim_space, byte_len, strip_prefix, strip_suffix, to_lower,
}
use cherry_waf.Base.Replace.{split_rune}
use cherry_waf.Config.Types.{Library}

-- `strings.TrimSuffix` of a dot.
abbrev pub before_dot : Text → Option Text → Text
before_dot value none = value
before_dot value (some trimmed) = trimmed

unfoldable pub normalize_domain : (ℕ → ℕ) → Text → Text
unfolding strip_suffix
normalize_domain lower value =
    let value = map (to_lower lower) (trim_space value) in
    before_dot value (strip_suffix (b'.' ∷ []) value)

abbrev pub contains_rune : ℕ → Text → Bool
contains_rune c = any (nat_beq c)

abbrev pub is_label_rune : ℕ → Bool
is_label_rune c = between b'a' b'z' c || between b'0' b'9' c || nat_beq c b'-'

abbrev pub starts_with_hyphen : Text → Bool
starts_with_hyphen [] = false
starts_with_hyphen (c ∷ cs) = nat_beq c b'-'

abbrev pub ends_with_hyphen : Text → Bool
ends_with_hyphen [] = false
ends_with_hyphen (c ∷ []) = nat_beq c b'-'
ends_with_hyphen (c ∷ d ∷ ds) = ends_with_hyphen (d ∷ ds)

unfoldable pub label_error : Text → Option String
label_error label =
    if label == [] || ltb 63 (byte_len label)
    then some "domain contains an empty or overlong label"
    else if starts_with_hyphen label || ends_with_hyphen label
    then some "domain labels must not begin or end with a hyphen"
    else if all is_label_rune label
    then none
    else some "domain must use ASCII letters, digits, dots, and hyphens"

abbrev pub or_error : Option String → Option String → Option String
or_error none later = later
or_error (some e) later = some e

unfoldable pub labels_error : List Text → Option String
unfolding label_error
labels_error [] = none
labels_error (label ∷ labels) = or_error (label_error label) (labels_error labels)

unfoldable pub name_error : Text → Option String
unfolding labels_error split_rune
name_error name =
    if contains_rune b'*' name
    then some "wildcard is only allowed as the complete left-most label"
    else if not (contains_rune b'.' name)
    then some "domain must contain a dot or be localhost"
    else labels_error (split_rune b'.' name)

-- What stands behind a first label that is a wildcard.
abbrev pub without_star : Text → Option Text → Text
without_star name none = name
without_star name (some suffix) = suffix

abbrev pub is_ip : Option Bool → Bool
is_ip none = false
is_ip (some loopback) = true

abbrev pub bare_name : Text → Text
bare_name name = without_star name (strip_prefix (codes "*.") name)

-- The check of a name that is normalised.
unfoldable pub pattern_error : Library → Text → Option String
unfolding name_error
pattern_error lib name =
    if name == []
    then some "domain must not be empty"
    else if ltb 253 (byte_len name)
    then some "domain is longer than 253 bytes"
    else if name == codes "localhost" || is_ip (lib.parse_ip name)
    then none
    else name_error (bare_name name)

-- `ValidateDomainPattern`: its error, if any. It normalises what it is given.
unfoldable pub validate_domain_pattern : Library → Text → Option String
unfolding normalize_domain pattern_error
validate_domain_pattern lib value = pattern_error lib (normalize_domain lib.lower value)
