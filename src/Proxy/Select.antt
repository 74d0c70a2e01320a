-- ===== src/Proxy/Select.antt =====
-- Which member of a pool serves a request: selectMember, eligible, choose and the algorithms of
-- internal/proxy/proxy.go. Ratios of connections to weight are compared exactly, by multiplying out;
-- Go divides them as float64. HMAC and base64 are parameters.
pub mod Eligible
pub mod Choice
pub mod Sound
pub mod Balance
use Prim.Native.Nat.{bit_xor}
use cherry_waf.Base.{
  ℕ, zero, suc, ◌+◌, ◌-◌, ◌*◌, ◌/◌, ◌%◌, ◌^◌, ◌≤◌, ◌<◌, min, max, String, ◌≡◌, refl, sym, ap, subst,
  fun_ext, ◌∙◌, ◌≢◌, ◌↔◌, ◌⊎◌, inl, inr, Bool, true, false, not, ◌&&◌, ◌||◌, Option, none, some,
  List, [], ◌∷◌, ◌++◌, map, arith, eq_iff, ltb, leb, if◌then◌else◌, ltb→lt, lt→ltb, leb→le, nat_beq,
  nat_beq_iff, Bool-cases, Option-cases, length, get_elem?, take, drop, In, All, any, all, keep_if,
  find_first, length-append, length-take-le, length-keep_if-le, In-keep_if, In-keep_if_of, All-In,
  find_first-some, find_first-none, Eq, ◌==◌, list_beq, list_beq_iff, ==_refl, Text, codes, nat_eq,
  string_eq, text_eq, if_both, between, is_space, trim_left, trim_right, trim_space, rune_len,
  byte_len, strip_prefix, strip_suffix, to_lower, ◌>>=◌,
}
use cherry_waf.Proxy.{Member, Pool, weight_of, update_member, u64}
use cherry_waf.Proxy.Weighted.{weighted_round_robin}

-- Neither excluded nor, unless `include_unhealthy`, out of service.
unfoldable pub usable : List String → Bool → Member → Bool
usable excluded include_unhealthy m =
    not (any (λ id. id == m.config.id) excluded) && (include_unhealthy || m.healthy)

unfoldable pub eligible : Pool → List String → Bool → List Member
eligible p excluded include_unhealthy =
    let ok = keep_if (usable excluded include_unhealthy) p.members in
    let primary = keep_if (λ m. not m.config.backup) ok in
    let backup = keep_if (λ m. m.config.backup) ok in
    if ltb 0 (length primary) then primary else backup

abbrev pub less_loaded : Member → Member → Bool
less_loaded m s =
    let a = m.active * weight_of s in
    let b = s.active * weight_of m in ltb a b || nat_beq a b && ltb m.requests s.requests

unfoldable pub least_connections : Member → List Member → Member
least_connections selected [] = selected
least_connections selected (m ∷ ms) =
    least_connections (if less_loaded m selected then m else selected) ms

abbrev pub goes_before : Member → Member → Bool
goes_before m s =
    ltb m.config.priority s.config.priority
    || nat_beq m.config.priority s.config.priority && ltb m.active s.active

pub primary_backup : Member → List Member → Member
primary_backup selected [] = selected
primary_backup selected (m ∷ ms) =
    primary_backup (if goes_before m selected then m else selected) ms

-- The current weights that a weighted round leaves, written through the pointers to the members.
pub write_back : List Member → List Member → List Member
write_back [] ms = ms
write_back (m ∷ updated) ms =
    write_back updated
      (update_member m.config.id (λ x. record x { current_weight = m.current_weight }) ms)

-- `eligible[int(position%uint64(len(eligible)))]`
abbrev pub at_position : ℕ → List Member → Option Member
at_position position ms = get_elem? ms (position % length ms)

abbrev pub golden : ℕ
golden = 0x9e3779b97f4a7c15

unfoldable pub choose : Pool → Member → List Member → Option Member × Pool
choose p m ms =
    if p.config.algorithm == "least_connections"
    then (some (least_connections m ms), p)
    else if p.config.algorithm == "weighted_round_robin"
    then (let (selected, updated) = weighted_round_robin (m ∷ ms) in
        (selected, record p { members = write_back updated p.members }))
    else if p.config.algorithm == "primary_backup"
    then (some (primary_backup m ms), p)
    else if p.config.algorithm == "random"
    then (let rr = (p.rr + golden) % u64 in (at_position rr (m ∷ ms), record p { rr = rr }))
    else (let rr = (p.rr + 1) % u64 in
        (at_position ((rr + (u64 - 1)) % u64) (m ∷ ms), record p { rr = rr }))

-- FNV-1a over 64 bits.
unfoldable pub fnv64a : ℕ → List ℕ → ℕ
fnv64a hash [] = hash
fnv64a hash (b ∷ bs) = fnv64a (bit_xor hash b * 1099511628211 % u64) bs

unfoldable pub hash_member : List Member → Text → Option Member
hash_member ms value = at_position (fnv64a 14695981039346656037 value) ms

-- `eligible`, and where nobody is healthy everybody, if the pool says "last_resort".
unfoldable pub candidates : Pool → List String → List Member
candidates p excluded =
    let healthy = eligible p excluded false in
    if nat_beq (length healthy) 0 && p.config.failure_mode == "last_resort"
    then eligible p excluded true
    else healthy

-- What a backend's configuration and a request bring to the choice.
pub record Request : Type 0 where
  pub persistence_mode : String
  pub cookie : Option String
  pub client_ip : Text

module _ (mac : List ℕ → List ℕ) (encode : List ℕ → String) where
  unfoldable pub member_token : Pool → Member → String
  member_token p m = encode (take 18 (mac (codes p.config.name ++ 0 ∷ codes m.config.id)))

  unfoldable pub member_for_cookie : Pool → String → List Member → Option Member
  member_for_cookie p value = find_first (λ m. value == member_token p m)

  by_algorithm : Pool → Request → Member → List Member → Option Member × Pool
  by_algorithm p r m ms =
      if r.persistence_mode == "source_ip" || p.config.algorithm == "source_ip_hash"
      then (hash_member (m ∷ ms) r.client_ip, p)
      else choose p m ms

  pub pick : Pool → Request → List Member → Option Member × Pool
  pick p r [] = (none, p)
  pick p r (m ∷ ms) = elim (if r.persistence_mode == "cookie" then r.cookie else none) [
    | none ↦ by_algorithm p r m ms
    | some value ↦ elim (member_for_cookie p value (m ∷ ms)) [
      | none ↦ by_algorithm p r m ms
      | some found ↦ (some found, p)
    ]
  ]

  -- `selectMember`; no excluded members is the empty list.
  unfoldable pub select_member : Pool → Request → List String → Option Member × Pool
  unfolding pick by_algorithm
  select_member p r excluded = pick p r (candidates p excluded)
