-- ===== src/Network/Plan.antt =====
-- The network plan of internal/control/network.go: ValidateNetworkPlan and RenderNetplan. Parsing
-- addresses is a parameter; a version or an MTU below zero, which is refused, is left out.
pub mod Lines
pub mod Rendered
use cherry_waf.Base.{
  ℕ, zero, suc, ◌+◌, ◌-◌, ◌*◌, ◌/◌, ◌%◌, ◌^◌, ◌≤◌, ◌<◌, min, max, String, ◌≡◌, refl, sym, ap, subst,
  fun_ext, ◌∙◌, ◌≢◌, ◌↔◌, ◌⊎◌, inl, inr, Bool, true, false, not, ◌&&◌, ◌||◌, Option, none, some,
  List, [], ◌∷◌, ◌++◌, map, arith, eq_iff, ltb, leb, if◌then◌else◌, ltb→lt, lt→ltb, leb→le, nat_beq,
  nat_beq_iff, Bool-cases, Option-cases, length, get_elem?, take, drop, In, All, any, all, keep_if,
  find_first, length-append, length-take-le, length-keep_if-le, In-keep_if, In-keep_if_of, All-In,
  find_first-some, find_first-none, Eq, ◌==◌, list_beq, list_beq_iff, ==_refl, Text, codes, nat_eq,
  string_eq, text_eq, if_both, between, is_space, trim_left, trim_right, trim_space, rune_len,
  byte_len, strip_prefix, strip_suffix, to_lower, ◌>>=◌,
}
use cherry_waf.Control.Bundle.{contains_text}

pub record NetworkPlan : Type 0 where
  pub version : ℕ
  pub interface : Text
  pub dhcp4 : Bool
  pub addresses : List Text
  pub gateway4 : Text
  pub nameservers : List Text
  pub mtu : ℕ

-- What the net package answers: whether ParseCIDR and ParseIP accept a text, and whether the address is
-- an IPv4 one.
pub record Parser : Type 0 where
  pub cidr : Text → Bool
  pub ip : Text → Bool
  pub ip4 : Text → Bool

abbrev pub interface_rune : ℕ → Bool
interface_rune c =
    between b'a' b'z' c
    || between b'A' b'Z' c
    || between b'0' b'9' c
    || nat_beq c b'-'
    || nat_beq c b'_'
    || nat_beq c b'.'

-- `validInterfaceName`
unfoldable pub valid_interface_name : Text → Bool
unfolding byte_len contains_text
valid_interface_name value =
    if value == [] || ltb 15 (byte_len value) || contains_text (codes "..") value
    then false
    else all interface_rune value

abbrev pub is_known : Option (List Text) → Text → Bool
is_known none name = true
is_known (some known) name = any (λ k. k == name) known

abbrev pub address_errors : Parser → NetworkPlan → Option String
address_errors net p =
    if p.dhcp4
    then (if not (nat_beq (length p.addresses) 0) || not (p.gateway4 == [])
        then some "DHCP mode cannot define static addresses or gateway"
        else none)
    else if nat_beq (length p.addresses) 0
    then some "at least one static address is required when DHCP is disabled"
    else if not (all net.cidr p.addresses)
    then some "invalid CIDR address"
    else if not (p.gateway4 == []) && not (net.ip p.gateway4 && net.ip4 p.gateway4)
    then some "gateway4 must be a valid IPv4 address"
    else none

abbrev pub nameserver_errors : Parser → NetworkPlan → Option String → Option String
nameserver_errors net p (some error) = some error
nameserver_errors net p none =
    if ltb 6 (length p.nameservers)
    then some "a maximum of six DNS servers is supported"
    else if not (all net.ip p.nameservers)
    then some "invalid DNS server"
    else none

-- `ValidateNetworkPlan`: the first error, if there is one. No set of known interfaces admits all.
unfoldable pub validate_network_plan : Parser → Option (List Text) → NetworkPlan → Option String
unfolding valid_interface_name
validate_network_plan net known p =
    if not (nat_beq p.version 0 || nat_beq p.version 1)
    then some "unsupported network plan version"
    else if not (valid_interface_name p.interface)
    then some "invalid network interface name"
    else if p.interface == codes "lo"
    then some "loopback interface cannot be configured"
    else if not (is_known known p.interface)
    then some "network interface does not exist"
    else if not (nat_beq p.mtu 0) && (ltb p.mtu 576 || ltb 9216 p.mtu)
    then some "MTU must be between 576 and 9216"
    else nameserver_errors net p (address_errors net p)

-- `strconv.Itoa`: a 64-bit number has at most 20 digits.
unfoldable pub digits : ℕ → ℕ → Text → Text
digits zero n rest = rest
digits (suc rounds) n rest =
    let more = digits rounds (n / 10) ((b'0' + n % 10) ∷ rest) in
    if ltb n 10 then (b'0' + n) ∷ rest else more

unfoldable pub itoa : ℕ → Text
unfolding digits
itoa n = digits 20 n []

-- The parts of the document, each in front of what is written after it.
unfoldable pub write_entries : Text → List Text → Text → Text
write_entries start [] rest = rest
write_entries start (a ∷ more) rest = start ++ (a ++ (b'\n' ∷ write_entries start more rest))

abbrev pub format_bool : Bool → Text
format_bool true = codes "true"
format_bool false = codes "false"

abbrev pub write_mtu : ℕ → Text → Text
write_mtu mtu rest =
    if not (nat_beq mtu 0) then codes "      mtu: " ++ (itoa mtu ++ (b'\n' ∷ rest)) else rest

abbrev pub write_gateway : Text → Text → Text
write_gateway gateway rest =
    if not (gateway == [])
    then codes "      routes:\n        - to: default\n          via: "
      ++ (gateway ++ (b'\n' ∷ rest))
    else rest

abbrev pub write_addresses : NetworkPlan → Text → Text
write_addresses p rest =
    if not p.dhcp4
    then codes "      addresses:\n"
      ++ write_entries (codes "        - ") p.addresses (write_gateway p.gateway4 rest)
    else rest

abbrev pub write_nameservers : List Text → Text
write_nameservers servers =
    if ltb 0 (length servers)
    then codes "      nameservers:\n        addresses:\n"
      ++ write_entries (codes "          - ") servers []
    else []

unfoldable pub write_plan : NetworkPlan → Text
write_plan p =
    codes "network:\n  version: 2\n  renderer: networkd\n  ethernets:\n    "
    ++ (p.interface
        ++ (codes ":\n"
            ++ (codes "      dhcp4: "
                ++ (format_bool p.dhcp4
                    ++ (codes "\n      dhcp6: false\n"
                        ++ write_mtu p.mtu
                            (write_addresses p (write_nameservers p.nameservers)))))))

abbrev pub unless_refused : Option String → Text → Option Text
unless_refused (some error) yaml = none
unless_refused none yaml = some yaml

-- `RenderNetplan`
unfoldable pub render_netplan : Parser → NetworkPlan → Option Text
unfolding validate_network_plan write_plan
render_netplan net p = unless_refused (validate_network_plan net none p) (write_plan p)
