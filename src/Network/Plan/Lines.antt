-- ===== src/Network/Plan/Lines.antt =====
-- The lines of a rendered network plan (internal/control/network.go).
use cherry_waf.Base.{
  ℕ, zero, suc, ◌+◌, ◌/◌, ◌%◌, ◌≡◌, refl, sym, ap, ◌∙◌, inl, inr, true, false, not, List, [], ◌∷◌,
  ◌++◌, map, arith, ltb, if◌then◌else◌, nat_beq, Bool-cases, length, All, all, ◌==◌, Text, codes,
  nat_eq, string_eq, text_eq, if_both,
}
use mathlib.Core.List.{append_assoc, append-nil}
use cherry_waf.Network.Plan.{
  NetworkPlan, digits, itoa, write_entries, format_bool, write_mtu, write_gateway, write_addresses,
  write_nameservers,
}

-- A text read line by line: the lines are what stands between the line breaks.
abbrev pub onto : Text → List Text → List Text
onto x [] = x ∷ []
onto x (l ∷ ls) = (x ++ l) ∷ ls

unfoldable pub lines : Text → List Text
lines [] = []
lines (c ∷ cs) = let rest = lines cs in if nat_beq c b'\n' then [] ∷ rest else onto (c ∷ []) rest

abbrev pub Plain : Text → Type 0
Plain x = all (λ c. not (nat_beq c b'\n')) x ≡ true

lines-line : (x rest : Text) → Plain x → lines (x ++ (b'\n' ∷ rest)) ≡ x ∷ lines rest
unfolding lines
lines-line [] rest h = refl
lines-line (c ∷ cs) rest h =
    let other : nat_beq c b'\n' ≡ false = ground arith in
    rw (other, lines-line cs rest (ground arith)) refl

pub append-Plain : (x y : Text) → Plain x → Plain y → Plain (x ++ y)
append-Plain [] y h k = k
append-Plain (c ∷ cs) y h k = ground (arith, append-Plain cs y (ground arith) k)

-- A line of two parts.
pub parts-line :
    (x y rest : Text)
    → Plain x
    → Plain y
    → lines (x ++ (y ++ (b'\n' ∷ rest))) ≡ (x ++ y) ∷ lines rest
parts-line x y rest h k =
    ap lines (sym (append_assoc x y (b'\n' ∷ rest)))
    ∙ lines-line (x ++ y) rest (append-Plain x y h k)

write_entries-lines :
    (start : Text) (xs : List Text) (rest : Text)
    → Plain start
    → All Plain xs
    → lines (write_entries start xs rest) ≡ map (λ x. start ++ x) xs ++ lines rest
unfolding write_entries
write_entries-lines start [] rest h hs = refl
write_entries-lines start (x ∷ xs) rest h hs =
    parts-line start x (write_entries start xs rest) h hs.0
    ∙ ap (λ l. (start ++ x) ∷ l) (write_entries-lines start xs rest h hs.1)

digit-Plain : (n : ℕ) (rest : Text) → Plain rest → Plain ((b'0' + n) ∷ rest)
digit-Plain n rest h = ground (arith, h)

digits-Plain : (rounds n : ℕ) (rest : Text) → Plain rest → Plain (digits rounds n rest)
unfolding digits
digits-Plain zero n rest h = h
digits-Plain (suc rounds) n rest h =
    if_both Plain (ltb n 10) _ _ (digit-Plain n rest h)
      (digits-Plain rounds (n / 10) ((b'0' + n % 10) ∷ rest) (digit-Plain (n % 10) rest h))

-- The lines that a plan stands for.
abbrev pub mtu_lines : ℕ → List Text
mtu_lines mtu = if nat_beq mtu 0 then [] else (codes "      mtu: " ++ itoa mtu) ∷ []

abbrev pub gateway_lines : Text → List Text
gateway_lines gateway =
    if gateway == []
    then []
    else codes "      routes:"
      ∷ codes "        - to: default"
      ∷ (codes "          via: " ++ gateway)
      ∷ []

abbrev pub address_lines : NetworkPlan → List Text
address_lines p =
    if p.dhcp4
    then []
    else codes "      addresses:" ∷ map (λ x. codes "        - " ++ x) p.addresses
      ++ gateway_lines p.gateway4

abbrev pub nameserver_lines : List Text → List Text
nameserver_lines servers =
    if ltb 0 (length servers)
    then codes "      nameservers:"
      ∷ codes "        addresses:"
      ∷ map (λ x. codes "          - " ++ x) servers
    else []

abbrev pub plan_lines : NetworkPlan → List Text
plan_lines p =
    codes "network:"
      ∷ codes "  version: 2"
      ∷ codes "  renderer: networkd"
      ∷ codes "  ethernets:"
      ∷ (codes "    " ++ (p.interface ++ codes ":"))
      ∷ (codes "      dhcp4: " ++ format_bool p.dhcp4)
      ∷ codes "      dhcp6: false"
      ∷ mtu_lines p.mtu
    ++ (address_lines p ++ nameserver_lines p.nameservers)

pub write_mtu-lines :
    (mtu : ℕ) (rest : Text) → lines (write_mtu mtu rest) ≡ mtu_lines mtu ++ lines rest
unfolding itoa
write_mtu-lines mtu rest = elim (Bool-cases (nat_beq mtu 0)) [
  | inl zero_mtu ↦ rw zero_mtu refl
  | inr some_mtu ↦
      rw some_mtu
        (parts-line (codes "      mtu: ") (itoa mtu) rest refl (digits-Plain 20 mtu [] refl))
]

write_gateway-lines :
    (gateway rest : Text)
    → Plain gateway
    → lines (write_gateway gateway rest) ≡ gateway_lines gateway ++ lines rest
unfolding lines
write_gateway-lines gateway rest h = elim (Bool-cases (gateway == [])) [
  | inl no_gateway ↦ rw no_gateway refl
  | inr a_gateway ↦ rw a_gateway (
      ap (λ l. codes "      routes:" ∷ codes "        - to: default" ∷ l)
        (parts-line (codes "          via: ") gateway rest refl h))
]

pub write_addresses-lines :
    (p : NetworkPlan) (rest : Text)
    → (p.dhcp4 ≡ false → All Plain p.addresses × Plain p.gateway4)
    → lines (write_addresses p rest) ≡ address_lines p ++ lines rest
unfolding lines
write_addresses-lines p rest h = elim (Bool-cases p.dhcp4) [
  | inl dhcp ↦ rw dhcp refl
  | inr fixed ↦ rw fixed (
      ap (λ l. codes "      addresses:" ∷ l)
        (write_entries-lines (codes "        - ") p.addresses (write_gateway p.gateway4 rest) refl
            (h fixed).0
          ∙ ap (λ l. map (λ x. codes "        - " ++ x) p.addresses ++ l)
              (write_gateway-lines p.gateway4 rest (h fixed).1)
          ∙ sym (
              append_assoc (map (λ x. codes "        - " ++ x) p.addresses)
                (gateway_lines p.gateway4) (lines rest))))
]

pub write_nameservers-lines :
    (servers : List Text)
    → All Plain servers
    → lines (write_nameservers servers) ≡ nameserver_lines servers
unfolding lines
write_nameservers-lines servers h = elim (Bool-cases (ltb 0 (length servers))) [
  | inr no_servers ↦ rw no_servers refl
  | inl servers_given ↦ rw servers_given (
      ap (λ l. codes "      nameservers:" ∷ codes "        addresses:" ∷ l)
        (write_entries-lines (codes "          - ") servers [] refl h ∙ append-nil _))
]
