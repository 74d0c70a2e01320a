-- ===== src/Edge/Certificate.antt =====
-- The choice of a certificate by the name that a client asks for: GetCertificate of
-- internal/certstore/store.go. A Go map is a list of its entries in the order of its iteration.
pub mod Chosen
use cherry_waf.Base.{
  ℕ, zero, suc, ◌+◌, ◌-◌, ◌*◌, ◌/◌, ◌%◌, ◌^◌, ◌≤◌, ◌<◌, min, max, String, ◌≡◌, refl, sym, ap, subst,
  fun_ext, ◌∙◌, ◌≢◌, ◌↔◌, ◌⊎◌, inl, inr, Bool, true, false, not, ◌&&◌, ◌||◌, Option, none, some,
  List, [], ◌∷◌, ◌++◌, map, arith, eq_iff, ltb, leb, if◌then◌else◌, ltb→lt, lt→ltb, leb→le, nat_beq,
  nat_beq_iff, Bool-cases, Option-cases, length, get_elem?, take, drop, In, All, any, all, keep_if,
  find_first, length-append, length-take-le, length-keep_if-le, In-keep_if, In-keep_if_of, All-In,
  find_first-some, find_first-none, Eq, ◌==◌, list_beq, list_beq_iff, ==_refl, Text, codes, nat_eq,
  string_eq, text_eq, if_both, between, is_space, trim_left, trim_right, trim_space, rune_len,
  byte_len, strip_prefix, strip_suffix, to_lower, ◌>>=◌,
}
use cherry_waf.Base.Assoc.{get}
use cherry_waf.Edge.Route.{trim_dot, covers}

pub record Certificates (C : Type 0) : Type 0 where
  pub exact : List (Text × C)
  pub wildcard : List (Text × C)
  pub fallback : Option C

-- The name that is looked up.
unfoldable pub server_name : (ℕ → ℕ) → Text → Text
unfolding trim_dot
server_name fold name = trim_dot (map (to_lower fold) (trim_space name))

module _ {C : Type 0} where
  -- The loop over the wildcards, with what follows it.
  unfoldable pub scan : Text → List (Text × C) → Option C → Option C
  unfolding covers
  scan host [] otherwise = otherwise
  scan host (e ∷ es) otherwise =
      let rest = scan host es otherwise in if covers host e.0 then some e.1 else rest

  abbrev pub or_scan : Certificates C → Text → Option C → Option C
  or_scan s host (some certificate) = some certificate
  or_scan s host none = scan host s.wildcard (if host == [] then s.fallback else none)

  unfoldable pub certificate_of : Certificates C → Text → Option C
  unfolding scan get
  certificate_of s host = or_scan s host (get host s.exact)

  -- `GetCertificate`, of a store that was loaded.
  unfoldable pub get_certificate : (ℕ → ℕ) → Certificates C → Text → Option C
  unfolding server_name certificate_of
  get_certificate fold s name = certificate_of s (server_name fold name)
