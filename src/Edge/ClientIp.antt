-- ===== src/Edge/ClientIp.antt =====
-- The address of the client: internal/netutil/clientip.go. Go's `net` package is a parameter: parsing,
-- printing and splitting addresses, and whether a trusted network contains one.
use mathlib.Core.List.{append_assoc}
use cherry_waf.Base.{
  ℕ, ◌≡◌, refl, ap, ◌∙◌, ◌≢◌, Bool, true, false, not, ◌||◌, Option, none, some, List, [], ◌∷◌, ◌++◌,
  arith, if◌then◌else◌, nat_beq, any, ◌==◌, Text, codes, nat_eq, string_eq, text_eq, trim_space,
}

-- `strings.Split` at commas.
unfoldable pub cons_part : ℕ → List Text → List Text
cons_part c [] = (c ∷ []) ∷ []
cons_part c (p ∷ ps) = (c ∷ p) ∷ ps

unfoldable pub split_commas : Text → List Text
unfolding cons_part
split_commas [] = [] ∷ []
split_commas (c ∷ cs) =
    let rest = split_commas cs in if nat_beq c b',' then [] ∷ rest else cons_part c rest

-- `strings.Trim` of brackets.
is_bracket : ℕ → Bool
is_bracket c = nat_beq c b'[' || nat_beq c b']'

abbrev trim_brackets_left : Text → Text
trim_brackets_left [] = []
trim_brackets_left (c ∷ cs) =
    let rest = trim_brackets_left cs in if is_bracket c then rest else c ∷ cs

abbrev trim_brackets_right : Text → Text
trim_brackets_right [] = []
trim_brackets_right (c ∷ cs) = close c (trim_brackets_right cs)
  where
    close : ℕ → Text → Text
    close c [] = if is_bracket c then [] else c ∷ []
    close c (d ∷ ds) = c ∷ d ∷ ds

cons_part-append :
    (c : ℕ) (ps qs : List Text) → ps ≢ [] → cons_part c (ps ++ qs) ≡ cons_part c ps ++ qs
unfolding cons_part
cons_part-append c [] qs h = absurd (h refl)
cons_part-append c (p ∷ ps) qs h = refl

cons_part-ne : (c : ℕ) (ps : List Text) → cons_part c ps ≢ []
unfolding cons_part
cons_part-ne c [] = λ h. cc
cons_part-ne c (p ∷ ps) = λ h. cc

split_commas-ne : (s : Text) → split_commas s ≢ []
unfolding split_commas
split_commas-ne [] = λ h. cc
split_commas-ne (c ∷ cs) = λ h. ground (arith, h, cons_part-ne c (split_commas cs))

split_commas-append : (s t : Text) → split_commas (s ++ b',' ∷ t) ≡ split_commas s ++ split_commas t
unfolding split_commas
split_commas-append [] t = refl
split_commas-append (c ∷ cs) t = ground (
  arith,
  split_commas-append cs t,
  cons_part-append c (split_commas cs) (split_commas t) (split_commas-ne cs),
)

module _ {Ip Network : Type 0} (parse_ip : Text → Option Ip) (print : Ip → Text)
    (split_host_port : Text → Option Text) (in_network : Network → Ip → Bool) where
  -- `NewTrustedProxies` keeps the networks; `Contains` asks each of them.
  unfoldable pub trusts : List Network → Ip → Bool
  trusts networks ip = any (λ n. in_network n ip) networks

  abbrev host_or : Text → Option Text → Option Ip
  host_or remote none = parse_ip (trim_brackets_right (trim_brackets_left remote))
  host_or remote (some host) = parse_ip host

  unfoldable pub parse_remote_ip : Text → Option Ip
  unfolding is_bracket
  parse_remote_ip remote = host_or remote (split_host_port remote)

  abbrev cons_ip : Option Ip → List Ip → List Ip
  cons_ip none rest = rest
  cons_ip (some ip) rest = ip ∷ rest

  -- The addresses of the header that parse, in its order.
  unfoldable pub chain_of : List Text → List Ip
  chain_of [] = []
  chain_of (p ∷ ps) = cons_ip (parse_ip (trim_space p)) (chain_of ps)

  -- The walk from the right: the last address that is not trusted.
  abbrev or_this : List Network → Ip → Option Ip → Option Ip
  or_this networks ip none = if trusts networks ip then none else some ip
  or_this networks ip (some later) = some later

  unfoldable pub last_untrusted : List Network → List Ip → Option Ip
  unfolding trusts
  last_untrusted networks [] = none
  last_untrusted networks (ip ∷ rest) = or_this networks ip (last_untrusted networks rest)

  abbrev first_of : List Ip → Ip → Ip
  first_of [] remote = remote
  first_of (ip ∷ rest) remote = ip

  abbrev walked : List Ip → Ip → Option Ip → Ip
  walked chain remote none = first_of chain remote
  walked chain remote (some ip) = ip

  unfoldable pub client_from : Ip → Text → List Network → Text
  unfolding trusts last_untrusted chain_of split_commas
  client_from remote header networks =
      if not (trusts networks remote) || trim_space header == []
      then print remote
      else let chain = chain_of (split_commas header) ++ remote ∷ [] in
        print (walked chain remote (last_untrusted networks chain))

  abbrev client_or : Text → List Network → Option Ip → Text
  client_or header networks none = codes "unknown"
  client_or header networks (some remote) = client_from remote header networks

  -- `ClientIP`
  unfoldable pub client_ip : Text → Text → List Network → Text
  unfolding client_from parse_remote_ip
  client_ip remote header networks = client_or header networks (parse_remote_ip remote)

  last_untrusted-append :
      (networks : List Network) (forged chain : List Ip) (ip : Ip)
      → last_untrusted networks chain ≡ some ip
      → last_untrusted networks (forged ++ chain) ≡ some ip
  unfolding last_untrusted
  last_untrusted-append networks [] chain ip h = h
  last_untrusted-append networks (f ∷ fs) chain ip h =
      ap (or_this networks f) (last_untrusted-append networks fs chain ip h)

  cons_ip-append :
      (r : Option Ip) (xs ys zs : List Ip) → zs ≡ xs ++ ys → cons_ip r zs ≡ cons_ip r xs ++ ys
  cons_ip-append none xs ys zs h = h
  cons_ip-append (some ip) xs ys zs h = ap (λ r. ip ∷ r) h

  chain_of-append : (ps qs : List Text) → chain_of (ps ++ qs) ≡ chain_of ps ++ chain_of qs
  unfolding chain_of
  chain_of-append [] qs = refl
  chain_of-append (p ∷ ps) qs =
      cons_ip-append (parse_ip (trim_space p)) (chain_of ps) (chain_of qs) (chain_of (ps ++ qs))
        (chain_of-append ps qs)

  -- The address that the walk settles on, when some address of the chain is not trusted.
  client_settled :
      (header : Text) (networks : List Network) (remote ip : Ip)
      → trusts networks remote ≡ true
      → (trim_space header == []) ≡ false
      → last_untrusted networks (chain_of (split_commas header) ++ remote ∷ []) ≡ some ip
      → client_from remote header networks ≡ print ip
  unfolding client_from
  client_settled header networks remote ip trusted sent h = rw (trusted, sent, h) refl

  -- Behind a trusted peer, once some address of the header that its proxies wrote is not trusted, what
  -- the client put before that header decides nothing: the answer is the right-most untrusted address,
  -- with the forged text in front or without it.
  pub forged_header_ignored :
      (remote forged header : Text) (networks : List Network) (peer ip : Ip)
      → parse_remote_ip remote ≡ some peer
      → trusts networks peer ≡ true
      → (trim_space header == []) ≡ false
      → (trim_space (forged ++ b',' ∷ header) == []) ≡ false
      → last_untrusted networks (chain_of (split_commas header) ++ peer ∷ []) ≡ some ip
      → (client_ip remote header networks ≡ print ip)
        × (client_ip remote (forged ++ b',' ∷ header) networks ≡ print ip)
  unfolding client_ip
  forged_header_ignored remote forged header networks peer ip parsed trusted sent sent_too h = (
    ap (client_or header networks) parsed ∙ client_settled header networks peer ip trusted sent h,
    ap (client_or (forged ++ b',' ∷ header) networks) parsed
        ∙ client_settled (forged ++ b',' ∷ header) networks peer ip trusted sent_too (
            ap (λ c. last_untrusted networks (c ++ peer ∷ []))
              (ap chain_of (split_commas-append forged header)
                ∙ chain_of-append (split_commas forged) (split_commas header))
            ∙ ap (last_untrusted networks) (
                append_assoc (chain_of (split_commas forged)) (chain_of (split_commas header))
                  (peer ∷ []))
            ∙ last_untrusted-append networks (chain_of (split_commas forged))
                (chain_of (split_commas header) ++ peer ∷ []) ip h),
  )
