-- ===== src/Edge.antt =====
-- What is decided about a request before it is inspected: addresses and prefixes, as Go's net/netip
-- has them, for internal/core/policy.go and internal/reputation/store.go.
pub mod Access
pub mod Reputation
pub mod ClientIp
pub mod Bot
pub mod Route
pub mod Certificate
use cherry_waf.Base.{
  ℕ, zero, suc, ◌+◌, ◌-◌, ◌*◌, ◌/◌, ◌%◌, ◌^◌, ◌≤◌, ◌<◌, min, max, String, ◌≡◌, refl, sym, ap, subst,
  fun_ext, ◌∙◌, ◌≢◌, ◌↔◌, ◌⊎◌, inl, inr, Bool, true, false, not, ◌&&◌, ◌||◌, Option, none, some,
  List, [], ◌∷◌, ◌++◌, map, arith, eq_iff, ltb, leb, if◌then◌else◌, ltb→lt, lt→ltb, leb→le, nat_beq,
  nat_beq_iff, Bool-cases, Option-cases, length, get_elem?, take, drop, In, All, any, all, keep_if,
  find_first, length-append, length-take-le, length-keep_if-le, In-keep_if, In-keep_if_of, All-In,
  find_first-some, find_first-none, Eq, ◌==◌, list_beq, list_beq_iff, ==_refl, Text, codes, nat_eq,
  string_eq, text_eq, if_both, between, is_space, trim_left, trim_right, trim_space, rune_len,
  byte_len, strip_prefix, strip_suffix, to_lower, ◌>>=◌,
}

pub record Addr : Type 0 where
  pub is_4 : Bool
  pub value : ℕ
  pub zone : Text

pub record Prefix : Type 0 where
  pub addr : Addr
  pub bits : ℕ

abbrev pub bit_len : Addr → ℕ
bit_len a = if a.is_4 then 32 else 128

-- `Addr.Unmap`: an IPv4 address written in IPv6 becomes the IPv4 address.
unfoldable pub unmap : Addr → Addr
unmap a =
    if not a.is_4 && nat_beq (a.value / 2 ^ 32) 0xffff
    then record { is_4 = true; value = a.value % 2 ^ 32; zone = [] }
    else a

-- `Prefix.Contains`
unfoldable pub contains : Prefix → Addr → Bool
contains p a =
    a.zone == []
    && (if p.addr.is_4 then a.is_4 else not a.is_4)
    && (let host = 2 ^ (bit_len a - p.bits) in nat_beq (p.addr.value / host) (a.value / host))

-- `Prefix.Masked`
unfoldable pub masked : Prefix → Prefix
masked p =
    let host = 2 ^ (bit_len p.addr - p.bits) in
    record p { addr = record p.addr { value = p.addr.value / host * host } }

-- The prefix of one address, by `PrefixFrom`, which drops the zone.
unfoldable pub single : Addr → Prefix
single a = record { addr = record a { zone = [] }; bits = bit_len a }

abbrev pub mask_found : Option Prefix → Option Prefix
mask_found none = none
mask_found (some p) = some (masked p)

abbrev pub single_found : Option Addr → Option Prefix
single_found none = none
single_found (some a) = some (single (unmap a))

-- `parsePrefix` of the reputation store and the body of `parsePrefixes`; `parse_addr` and
-- `parse_network` are Go's `netip.ParseAddr` and `netip.ParsePrefix`.
module _ (parse_addr : Text → Option Addr) (parse_network : Text → Option Prefix) where
  unfoldable pub parse_prefix : Text → Option Prefix
  unfolding masked single unmap
  parse_prefix value =
      if any (nat_beq b'/') value
      then mask_found (parse_network value)
      else single_found (parse_addr value)
