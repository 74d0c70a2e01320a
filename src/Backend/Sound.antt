-- ===== src/Backend/Sound.antt =====
-- That an accepted configuration can be served: Validate of internal/config/config.go with New of
-- internal/proxy/proxy.go.
pub mod Routes
pub mod Served
use cherry_waf.Base.{
  ℕ, zero, suc, ◌+◌, ◌-◌, ◌*◌, ◌/◌, ◌%◌, ◌^◌, ◌≤◌, ◌<◌, min, max, String, ◌≡◌, refl, sym, ap, subst,
  fun_ext, ◌∙◌, ◌≢◌, ◌↔◌, ◌⊎◌, inl, inr, Bool, true, false, not, ◌&&◌, ◌||◌, Option, none, some,
  List, [], ◌∷◌, ◌++◌, map, arith, eq_iff, ltb, leb, if◌then◌else◌, ltb→lt, lt→ltb, leb→le, nat_beq,
  nat_beq_iff, Bool-cases, Option-cases, length, get_elem?, take, drop, In, All, any, all, keep_if,
  find_first, length-append, length-take-le, length-keep_if-le, In-keep_if, In-keep_if_of, All-In,
  find_first-some, find_first-none, Eq, ◌==◌, list_beq, list_beq_iff, ==_refl, Text, codes, nat_eq,
  string_eq, text_eq, if_both, between, is_space, trim_left, trim_right, trim_space, rune_len,
  byte_len, strip_prefix, strip_suffix, to_lower, ◌>>=◌,
}
use cherry_waf.Base.Assoc.{get, put, get-put_self, get-put}
use cherry_waf.Proxy.{ServerPool, PoolMember, HealthCheck, Member, Pool, OriginTls, Distinct, Fresh}
use cherry_waf.Config.Types.{
  HttpConfig, HttpsConfig, AdminConfig, RateLimitConfig, ReputationConfig, SecurityConfig,
  RulesConfig, LoggingConfig, RedirectConfig, WafPolicyConfig, BotPolicyConfig, ContentRoute,
  FrontendTls, VirtualHost, Config, Url, Library,
}
use cherry_waf.Config.Parts.{validate_upstream, url_errors}
use cherry_waf.Config.Validate.{validate}
use cherry_waf.Config.Validate.Pools.{seen_name}
use cherry_waf.Config.Validate.Hosts.{server_pool_by_name}
use cherry_waf.Config.Validate.Sound.{SoundPool, SoundMember, AllNew, Unrepeated, AllNew-Unrepeated}
use cherry_waf.Config.Validate.Accepted.{validated_pools, validated_group}
use cherry_waf.Backend.{Backend}
use cherry_waf.Backend.Build.{
  fresh_member, unchecked, direct, is_some, is_direct, default_pool_name, add_name, route_pools,
  needed_pools, transport_ok, member_tls, add_member, new_members, pool_of, new_pool_runtime,
  direct_pool, pool_config, build_found, add_pool, build_pools, with_routes, with_pools, new,
}

-- The members that serve: the enabled ones, in order.
abbrev pub serving : HealthCheck → List PoolMember → List Member
serving health [] = []
serving health (m ∷ ms) =
    let rest = serving health ms in if m.enabled then fresh_member health m ∷ rest else rest

or_false : (a b : Bool) → (a || b) ≡ false → (a ≡ false) × (b ≡ false)
or_false a b h = ground (arith, h)

serving-Fresh :
    (health : HealthCheck) (id : String) (ms : List PoolMember)
    → seen_name (map (λ m. m.id) ms) id ≡ false
    → Fresh id (serving health ms)
serving-Fresh health id [] h = tt
serving-Fresh health id (m ∷ ms) h =
    let (apart, later) = or_false (m.id == id) _ h in
    let rest = serving-Fresh health id ms later in
    if_both (Fresh id) m.enabled (fresh_member health m ∷ serving health ms) (serving health ms)
      (apart, rest) rest

serving-Distinct :
    (health : HealthCheck) (ms : List PoolMember)
    → Unrepeated (map (λ m. m.id) ms)
    → Distinct (serving health ms)
serving-Distinct health [] h = tt
serving-Distinct health (m ∷ ms) h =
    let rest = serving-Distinct health ms h.1 in
    if_both Distinct m.enabled (fresh_member health m ∷ serving health ms) (serving health ms)
      (serving-Fresh health m.id ms h.0, rest) rest

abbrev pub NonEmpty : List Member → Type 0
NonEmpty ms = (m : Member) × (rest : List Member) × (ms ≡ m ∷ rest)

serving-NonEmpty :
    (health : HealthCheck) (ms : List PoolMember)
    → any (λ m. m.enabled) ms ≡ true
    → NonEmpty (serving health ms)
serving-NonEmpty health [] h = absurd (ground (arith, h))
serving-NonEmpty health (m ∷ ms) h =
    choice m.enabled (fresh_member health m) (serving health ms) _ h (serving-NonEmpty health ms)
  where
    choice :
        (b : Bool) (x : Member) (xs : List Member) (t : Bool)
        → (b || t) ≡ true
        → (t ≡ true → NonEmpty xs)
        → NonEmpty (if b then x ∷ xs else xs)
    choice true x xs t e later = (x, xs, refl)
    choice false x xs t e later = later e

-- The URLs of a pool are written without white space around them, which validation trims and building
-- does not, and its name has not the prefix that is kept for upstreams.
abbrev pub Plain : ServerPool → Type 0
Plain p = (is_direct p.name ≡ false) × All (λ m. trim_space (codes m.url) ≡ codes m.url) p.members

module _ {Regex : Type 0} (lib : Library) (compile : Text → Option Regex) (ca_loads : String → Bool)
    (text : Text → String) (loads : (file : String) → ca_loads file ≡ true) where
  target_ok :
      (o : Option Url) (tls own : OriginTls)
      → url_errors o tls ≡ []
      → transport_ok lib compile ca_loads text own o ≡ true
  target_ok none tls own h = absurd (ground (arith, h))
  target_ok (some u) tls own h = ground (arith, loads own.ca_file)

  new_members-serving :
      (health : HealthCheck) (tls : OriginTls) (ms : List PoolMember)
      → All (SoundMember lib) ms
      → All (λ m. trim_space (codes m.url) ≡ codes m.url) ms
      → new_members lib compile ca_loads text health tls ms ≡ some (serving health ms)
  unfolding new_members validate_upstream
  new_members-serving health tls [] h k = refl
  new_members-serving health tls (m ∷ ms) h k =
      let rest = new_members-serving health tls ms h.1 k.1 in
      let ok =
        target_ok (lib.parse_url (codes m.url)) m.origin_tls
          (member_tls lib compile ca_loads text tls m)
          (subst (λ t. url_errors (lib.parse_url t) m.origin_tls ≡ []) k.0 h.0.0) in
      step m.enabled _ _ (serving health ms) ok rest
    where
      step :
          (on ok : Bool) (o : Option (List Member)) (xs : List Member)
          → ok ≡ true
          → o ≡ some xs
          → (if not on then o else add_member lib compile ca_loads text health ok m o)
            ≡ some (if on then fresh_member health m ∷ xs else xs)
      step true ok o xs e f = rw (e, f) refl
      step false ok o xs e f = f

  -- What building a pool gives.
  abbrev pub Built : ServerPool → Pool → Type 0
  Built p r =
      (r.config ≡ p)
      × NonEmpty r.members
      × Distinct r.members
      × (r.members ≡ serving p.health_check p.members)

  pub pool-Built :
      (p : ServerPool) (tls : OriginTls)
      → SoundPool lib p
      → p.enabled ≡ true
      → Plain p
      → (r : Pool) × (new_pool_runtime lib compile ca_loads text p tls ≡ some r) × Built p r
  unfolding new_pool_runtime
  pool-Built p tls sound on plain =
      let (m, rest, some_member) = serving-NonEmpty p.health_check p.members (sound.2 on) in
      let built : new_members lib compile ca_loads text p.health_check tls p.members
          ≡ some (m ∷ rest) =
        new_members-serving p.health_check tls p.members sound.1 plain.1 ∙ ap some some_member in
      let distinct : Distinct (m ∷ rest) = subst Distinct some_member (
        serving-Distinct p.health_check p.members
          (AllNew-Unrepeated [] (map (λ m. m.id) p.members) sound.0)) in
      (
        record { config = p; members = m ∷ rest; rr = 0 },
        ap (pool_of lib compile ca_loads text p) built,
        (refl, (m, rest, refl), distinct, sym some_member),
      )

  -- A map of pools holds what is built for a name.
  abbrev pub Holds : VirtualHost → Config → List (String × Pool) → String → Type 0
  Holds v c pools n =
      get n pools
      ≡ build_found lib compile ca_loads text v (pool_config lib compile ca_loads text v c n)

  abbrev pub Buildable : VirtualHost → Config → String → Type 0
  Buildable v c n =
      (r : Pool) × (build_found lib compile ca_loads text v
          (pool_config lib compile ca_loads text v c n)
        ≡ some r)

  pub pools_built :
      (v : VirtualHost) (c : Config) (ns : List String)
      → All (Buildable v c) ns
      → (pools : List (String × Pool)) × (build_pools lib compile ca_loads text v c ns ≡ some pools)
        × ((n : String) → In n ns → Holds v c pools n)
  unfolding build_pools
  pools_built v c [] h = ([], refl, λ n m. elim m [ ])
  pools_built v c (n ∷ ns) h =
      let (r, built) = h.0 in
      let (pools, rest, holds) = pools_built v c ns h.1 in
      (
        put n r pools,
        rw (built, rest) refl,
        λ j m. elim m [
          | inl same ↦
              subst (Holds v c (put n r pools)) (sym same) (get-put_self n r pools ∙ sym built)
          | inr m ↦ get-put n j r pools ∙ elim (Bool-cases (n == j)) [
            | inl e ↦ rw e (
                sym built
                ∙ ap
                    (λ x.
                      build_found lib compile ca_loads text v
                        (pool_config lib compile ca_loads text v c x))
                    ((string_eq.same_iff n j).0 e))
            | inr e ↦ rw e (holds j m)
          ]
        ],
      )

  seen-In : (ns : List String) (n : String) → seen_name ns n ≡ true → In n ns
  seen-In [] n h = absurd (ground (arith, h))
  seen-In (m ∷ ms) n h = elim (Bool-cases (m == n)) [
    | inl e ↦ inl (sym ((string_eq.same_iff m n).0 e))
    | inr e ↦ inr (seen-In ms n (ground (arith, h, e)))
  ]

  pub In-add_name : (n : String) (ns : List String) → In n (add_name n ns)
  In-add_name n ns = elim (Bool-cases (seen_name ns n)) [
    | inl e ↦ rw e (seen-In ns n e)
    | inr e ↦ rw e (inl refl)
  ]
