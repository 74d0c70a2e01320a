-- ===== src/Network/Plan/Rendered.antt =====
-- That a rendered network plan has the lines of the plan (internal/control/network.go).
use cherry_waf.Base.{
  String, ◌≡◌, refl, sym, ap, ◌∙◌, Bool, true, false, Option, none, some, List, [], ◌∷◌, ◌++◌,
  arith, All, all, ◌==◌, Text, codes, nat_eq, string_eq, text_eq,
}
use mathlib.Core.List.{append_assoc}
use cherry_waf.Network.Plan.{
  NetworkPlan, Parser, interface_rune, valid_interface_name, address_errors, nameserver_errors,
  validate_network_plan, format_bool, write_mtu, write_addresses, write_nameservers, write_plan,
  unless_refused, render_netplan,
}
use cherry_waf.Network.Plan.Lines.{
  lines, Plain, parts-line, append-Plain, write_mtu-lines, write_addresses-lines,
  write_nameservers-lines, mtu_lines, address_lines, nameserver_lines, plan_lines,
}

all-Plain :
    (p : Text → Bool)
    → ((x : Text) → p x ≡ true → Plain x)
    → (xs : List Text) → all p xs ≡ true
    → All Plain xs
all-Plain p h [] e = tt
all-Plain p h (x ∷ xs) e = (h x (ground (arith, e)), all-Plain p h xs (ground (arith, e)))

runes-Plain : (x : Text) → all interface_rune x ≡ true → Plain x
runes-Plain [] h = refl
runes-Plain (c ∷ cs) h = ground (arith, h, runes-Plain cs)

name-Plain : (x : Text) → valid_interface_name x ≡ true → Plain x
unfolding valid_interface_name
name-Plain x h = runes-Plain x (ground (arith, h))

not_refused :
    (errors : Option String) (written yaml : Text)
    → unless_refused errors written ≡ some yaml
    → (errors ≡ none) × (written ≡ yaml)
not_refused none written yaml h = (refl, ground (arith, h))
not_refused (some error) written yaml h = absurd (ground (arith, h))

module _ (net : Parser) (p : NetworkPlan) where
  accepted_parts :
      validate_network_plan net none p ≡ none
      → (valid_interface_name p.interface ≡ true)
        × (address_errors net p ≡ none)
        × (nameserver_errors net p none ≡ none)
  unfolding validate_network_plan
  accepted_parts h = ground (arith, h)

  module _ (cidr_plain : (x : Text) → net.cidr x ≡ true → Plain x)
      (ip_plain : (x : Text) → net.ip x ≡ true → Plain x) where
    gateway-Plain : (x : Text) → ((x == []) ≡ false → net.ip x ≡ true) → Plain x
    gateway-Plain [] h = refl
    gateway-Plain (c ∷ cs) h = ip_plain (c ∷ cs) (h refl)

    fixed-Plain :
        address_errors net p ≡ none → p.dhcp4 ≡ false → All Plain p.addresses × Plain p.gateway4
    fixed-Plain h fixed = (
      all-Plain net.cidr cidr_plain p.addresses (ground (arith, h, fixed)),
      gateway-Plain p.gateway4 (λ e. ground (arith, h, fixed, e)),
    )

    -- What follows the fixed part of the document.
    options : Text
    options = write_mtu p.mtu (write_addresses p (write_nameservers p.nameservers))

    options-lines :
        (p.dhcp4 ≡ false → All Plain p.addresses × Plain p.gateway4)
        → All Plain p.nameservers
        → lines options ≡ mtu_lines p.mtu ++ (address_lines p ++ nameserver_lines p.nameservers)
    unfolding options
    options-lines a n =
        write_mtu-lines p.mtu _
        ∙ ap (λ l. mtu_lines p.mtu ++ l)
            (write_addresses-lines p _ a
              ∙ ap (λ l. address_lines p ++ l) (write_nameservers-lines p.nameservers n))

    bool-Plain : (b : Bool) → Plain (format_bool b)
    bool-Plain true = refl
    bool-Plain false = refl

    -- The document after its interface.
    settings : Text
    settings =
        codes "      dhcp4: "
        ++ (format_bool p.dhcp4 ++ (codes "\n      dhcp6: false\n" ++ options))

    settings-lines :
        lines settings
        ≡ (codes "      dhcp4: " ++ format_bool p.dhcp4)
          ∷ codes "      dhcp6: false"
          ∷ lines options
    unfolding settings lines
    settings-lines =
        parts-line (codes "      dhcp4: ") (format_bool p.dhcp4)
          (codes "      dhcp6: false\n" ++ options) refl (bool-Plain p.dhcp4)

    interface-lines :
        Plain p.interface
        → lines (codes "    " ++ (p.interface ++ (codes ":\n" ++ settings)))
          ≡ (codes "    " ++ (p.interface ++ codes ":")) ∷ lines settings
    interface-lines i =
        ap (λ t. lines (codes "    " ++ t))
          (sym (append_assoc p.interface (codes ":") (b'\n' ∷ settings)))
        ∙ parts-line (codes "    ") (p.interface ++ codes ":") settings refl
            (append-Plain p.interface (codes ":") i refl)

    write_plan-lines :
        Plain p.interface
        → (p.dhcp4 ≡ false → All Plain p.addresses × Plain p.gateway4)
        → All Plain p.nameservers
        → lines (write_plan p) ≡ plan_lines p
    unfolding write_plan lines options settings
    write_plan-lines i a n =
        ap
          (λ l.
            codes "network:"
            ∷ codes "  version: 2"
            ∷ codes "  renderer: networkd"
            ∷ codes "  ethernets:"
            ∷ l)
          (interface-lines i
            ∙ ap (λ l. (codes "    " ++ (p.interface ++ codes ":")) ∷ l)
                (settings-lines
                  ∙ ap
                      (λ l.
                        (codes "      dhcp4: " ++ format_bool p.dhcp4)
                        ∷ codes "      dhcp6: false"
                        ∷ l)
                      (options-lines a n)))

    accepted-lines : validate_network_plan net none p ≡ none → lines (write_plan p) ≡ plan_lines p
    accepted-lines h =
        let (name, addresses, nameservers) = accepted_parts h in
        write_plan-lines (name-Plain p.interface name) (fixed-Plain addresses)
          (all-Plain net.ip ip_plain p.nameservers (ground (arith, nameservers)))

    -- Where the parser of addresses accepts no text with a line break: a plan that is rendered reads
    -- back, line by line, as exactly the lines of its interface, DHCP setting, MTU, addresses, gateway
    -- and name servers, so that no field of it can add a line of its own.
    pub rendered_lines :
        (yaml : Text) → render_netplan net p ≡ some yaml → lines yaml ≡ plan_lines p
    unfolding render_netplan
    rendered_lines yaml h =
        let (ok, same) = not_refused (validate_network_plan net none p) (write_plan p) yaml h in
        ap lines (sym same) ∙ accepted-lines ok
