-- ===== src/Examples/Clients.antt =====
-- Addresses, reputation and the bot policy (internal/core/policy.go, internal/reputation,
-- internal/netutil, internal/bot) at concrete clients.
use cherry_waf.Base.{
  ℕ, ◌+◌, String, ◌≡◌, refl, subst, ◌↔◌, ◌⊎◌, inl, inr, Bool, true, false, ◌||◌, Option, none, some,
  List, [], ◌∷◌, ◌++◌, if◌then◌else◌, nat_beq, Bool-cases, In, any, ◌==◌, Text, codes, nat_eq,
  string_eq, text_eq, trim_space, strip_suffix, to_lower,
}
use cherry_waf.Edge.{Addr, Prefix, unmap, contains, parse_prefix}
use cherry_waf.Edge.Access.{AccessPolicy}
use cherry_waf.Edge.Reputation.{Store, Entry, load, lookup, match_of}
use cherry_waf.Edge.Reputation.Specific.{MostSpecific, lookup-MostSpecific}
use cherry_waf.Edge.ClientIp.{
  client_ip, forged_header_ignored, parse_remote_ip, trusts, last_untrusted, chain_of, split_commas,
}
use cherry_waf.Base.Assoc.{get}
use cherry_waf.Edge.Route.{wildcard_route, covers, route}
use cherry_waf.Edge.Route.Order.{after_dot, wildcard_lookup}
use cherry_waf.Edge.Certificate.{Certificates, server_name, get_certificate}
use cherry_waf.Edge.Certificate.Chosen.{on_some, certificate_of_route}
use cherry_waf.Edge.Bot.{Engine, Exceeded, inspect, bot_verdict}
use cherry_waf.RateLimit.{new}

-- The addresses of a test: every text is that of 203.0.113.8, and every network its /24.
abbrev address : Addr
address = record { is_4 = true; value = 3405803784; zone = [] }

abbrev network : Prefix
network = record { addr = record { is_4 = true; value = 3405803776; zone = [] }; bits = 24 }

abbrev policy : AccessPolicy
policy = record { allow = network ∷ []; deny = [] }

abbrev parse_addr : Text → Option Addr
parse_addr value = some address

abbrev parse_network : Text → Option Prefix
parse_network value = some network

abbrev lines : List (Text × Text)
lines =
    (codes "203.0.113.0/24 feed", codes "feed:1") ∷ (codes "203.0.113.8 host", codes "feed:2") ∷ []

abbrev loaded : Store
loaded = record {
  mode = codes "block";
  entries =
      record { prefix = record { addr = address; bits = 32 }; reason = codes "host" }
      ∷ record { prefix = network; reason = codes "feed" }
      ∷ [];
}

lookup-MostSpecific_example :
    ((lookup parse_addr parse_network loaded (codes "203.0.113.8") ≡ none)
      × ((x : Entry) → In x loaded.entries → contains x.prefix (unmap address) ≡ false))
    ⊎ ((e : Entry) × (lookup parse_addr parse_network loaded (codes "203.0.113.8")
          ≡ some (match_of loaded.mode e))
        × MostSpecific loaded (unmap address) e)
unfolding load trim_space parse_prefix
lookup-MostSpecific_example =
    lookup-MostSpecific parse_addr parse_network (codes "block") lines loaded (codes "203.0.113.8")
      address refl refl

-- Addresses as their texts; the network "10" holds those that start with a `1`.
abbrev parse_ip : Text → Option Text
parse_ip text = some text

abbrev print : Text → Text
print ip = ip

abbrev split_host_port : Text → Option Text
split_host_port remote = some remote

abbrev in_network : ℕ → Text → Bool
in_network first [] = false
in_network first (c ∷ cs) = nat_beq c first

forged_header_ignored_example :
    (client_ip parse_ip print split_host_port in_network
        (codes "1.0.0.1")
        (codes "9.9.9.9")
        (b'1' ∷ [])
      ≡ codes "9.9.9.9")
    × (client_ip parse_ip print split_host_port in_network
          (codes "1.0.0.1")
          (codes "8.8.8.8" ++ b',' ∷ codes "9.9.9.9")
          (b'1' ∷ [])
        ≡ codes "9.9.9.9")
unfolding parse_remote_ip trusts last_untrusted chain_of split_commas trim_space
forged_header_ignored_example =
    forged_header_ignored parse_ip print split_host_port in_network (codes "1.0.0.1")
      (codes "8.8.8.8") (codes "9.9.9.9") (b'1' ∷ []) (codes "1.0.0.1") (codes "9.9.9.9") refl refl
      refl refl refl

abbrev bots : Engine Text
bots = record {
  mode = "block";
  bad = codes "curl" ∷ [];
  permitted = codes "monitor" ∷ [];
  limiter = some (new 1 1 1 10);
}

abbrev matches : Text → Text → Bool
matches pattern agent = pattern == agent

abbrev key_of : Text → String
key_of client = "client"

bot_verdict_example :
    (((inspect matches key_of bots (codes "9.9.9.9") (codes "curl") 1).1.blocked ≡ true) ↔ (
      ((bots.mode == "block") ≡ true)
      × (any (λ r. matches r (codes "curl")) bots.permitted ≡ false)
      × ((any (λ r. matches r (codes "curl")) bots.bad ≡ true)
          ⊎ Exceeded matches key_of (codes "9.9.9.9") 1 bots.limiter)))
    × ((any (λ r. matches r (codes "curl")) bots.permitted
            || any (λ r. matches r (codes "curl")) bots.bad)
          ≡ true
        → (inspect matches key_of bots (codes "9.9.9.9") (codes "curl") 1).0 ≡ bots)
bot_verdict_example = bot_verdict matches key_of bots (codes "9.9.9.9") (codes "curl") 1

abbrev wildcards : List (Text × ℕ)
wildcards = (codes "test.org", 1) ∷ (codes "b.test.org", 2) ∷ []

wildcard_lookup_example : wildcard_route (codes "a.b.test.org") wildcards ≡ (
    if covers (codes "a.b.test.org") (after_dot (codes "a.b.test.org"))
    then get (after_dot (codes "a.b.test.org")) wildcards
    else none)
unfolding get
wildcard_lookup_example = wildcard_lookup (codes "a.b.test.org") wildcards (refl, (refl, tt))

-- The certificates of the same names, in another order.
abbrev certificates : Certificates ℕ
certificates = record {
  exact = [];
  wildcard = (codes "b.test.org", 12) ∷ (codes "test.org", 11) ∷ [];
  fallback = some 11;
}

abbrev certificate_number : ℕ → ℕ
certificate_number r = r + 10

same_names : (k : Text) → get k certificates.wildcard ≡ on_some certificate_number (get k wildcards)
unfolding get
same_names k = elim (Bool-cases (codes "test.org" == k)) [
  | inr other ↦
      rw other
        (elim (Bool-cases (codes "b.test.org" == k)) [ inl e ↦ rw e refl | inr e ↦ rw e refl ])
  | inl same ↦
      subst (λ x. get x certificates.wildcard ≡ on_some certificate_number (get x wildcards))
        ((text_eq.same_iff (codes "test.org") k).0 same) refl
]

certificate_of_route_example :
    get_certificate (λ c. c) certificates (codes "A.b.test.org.")
    ≡ on_some certificate_number (route [] wildcards (server_name (λ c. c) (codes "A.b.test.org.")))
unfolding server_name get trim_space to_lower strip_suffix
certificate_of_route_example =
    certificate_of_route certificate_number [] wildcards certificates (refl, (refl, tt)) (λ k. refl)
      same_names (λ c. c) (codes "A.b.test.org.") refl
