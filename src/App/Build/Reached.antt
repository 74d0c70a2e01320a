-- ===== src/App/Build/Reached.antt =====
-- That the domains of an accepted configuration reach their hosts: Validate of
-- internal/config/config.go with build and Route of internal/core/runtime.go.
use cherry_waf.Base.{
  ℕ, String, ◌≡◌, refl, sym, ap, subst, ◌∙◌, inl, inr, Bool, true, false, Option, none, some, List,
  [], ◌∷◌, map, arith, if◌then◌else◌, Bool-cases, In, All, keep_if, In-keep_if, ◌==◌, Text, codes,
  nat_eq, string_eq, text_eq, if_both, strip_prefix,
}
use cherry_waf.Base.Assoc.{get, get-put_self, get-put_ne, get-put}
use cherry_waf.Base.Trim.{trim_string}
use cherry_waf.Config.Types.{Config, VirtualHost, Library}
use cherry_waf.Config.Domain.{normalize_domain}
use cherry_waf.Config.Validate.{validate, normalize, normalize_host, enabled_virtual_hosts}
use cherry_waf.Config.Validate.Pools.{seen_name}
use cherry_waf.Config.Validate.Hosts.{owners}
use cherry_waf.Config.Validate.Sound.{Unrepeated, AllNew-Unrepeated}
use cherry_waf.Config.Validate.Accepted.{validated_domain, validated_names}
use cherry_waf.Edge.Route.{hostname, route}
use cherry_waf.App.Build.Table.{
  Tables, enter_at, enter_domains, enter_hosts, with_routes, no_tables, tables,
}

-- A domain does not stand in a list.
abbrev Absent : Text → List Text → Type 0
Absent d = All (λ e. (e == d) ≡ false)

all-Absent : (d : Text) (ds : List Text) → ((e : Text) → In e ds → (e == d) ≡ false) → Absent d ds
all-Absent d [] h = tt
all-Absent d (e ∷ es) h = (h e (inl refl), all-Absent d es (λ x m. h x (inr m)))

-- Every domain of the hosts belongs to the host that has it.
abbrev Owned : List (Text × String) → List VirtualHost → Type 0
Owned final vs =
    (v : VirtualHost) → In v vs → (e : Text) → In e v.domains → get e final ≡ some v.name

module _ {R : Type 0} where
  enter_at-Absent :
      (r : R) (e d : Text) (t : Tables R) (o : Option Text)
      → (e == d) ≡ false
      → get d (enter_at r e t o).exact ≡ get d t.exact
  enter_at-Absent r e d t none h = get-put_ne e d r t.exact h
  enter_at-Absent r e d t (some suffix) h = refl

  enter_at_keeps :
      (r : R) (e d : Text) (t : Tables R) (o : Option Text)
      → get d t.exact ≡ some r
      → get d (enter_at r e t o).exact ≡ some r
  enter_at_keeps r e d t none h = ground (arith, h, get-put e d r t.exact)
  enter_at_keeps r e d t (some suffix) h = h

  enter_domains-Absent :
      (r : R) (d : Text) (ds : List Text) (t : Tables R)
      → Absent d ds
      → get d (enter_domains r ds t).exact ≡ get d t.exact
  unfolding enter_domains
  enter_domains-Absent r d [] t h = refl
  enter_domains-Absent r d (e ∷ es) t h =
      enter_domains-Absent r d es _ h.1 ∙ enter_at-Absent r e d t _ h.0

  enter_domains_keeps :
      (r : R) (d : Text) (ds : List Text) (t : Tables R)
      → get d t.exact ≡ some r
      → get d (enter_domains r ds t).exact ≡ some r
  unfolding enter_domains
  enter_domains_keeps r d [] t h = h
  enter_domains_keeps r d (e ∷ es) t h = enter_domains_keeps r d es _ (enter_at_keeps r e d t _ h)

  enter_domains_found :
      (r : R) (d : Text) (ds : List Text) (t : Tables R)
      → In d ds
      → strip_prefix (codes "*.") d ≡ none
      → get d (enter_domains r ds t).exact ≡ some r
  unfolding enter_domains
  enter_domains_found r d [] t m plain = elim m [ ]
  enter_domains_found r d (e ∷ es) t (inl same) plain = enter_domains_keeps r d es _ (
      subst (λ x. get d (enter_at r x t (strip_prefix (codes "*.") x)).exact ≡ some r) same
        (rw plain (get-put_self d r t.exact)))
  enter_domains_found r d (e ∷ es) t (inr m) plain = enter_domains_found r d es _ m plain

  enter_hosts-Absent :
      (d : Text) (hosts : List (VirtualHost × R)) (t : Tables R)
      → All (λ h. Absent d h.0.domains) hosts
      → get d (enter_hosts hosts t).exact ≡ get d t.exact
  unfolding enter_hosts
  enter_hosts-Absent d [] t h = refl
  enter_hosts-Absent d ((v, r) ∷ rest) t h =
      enter_hosts-Absent d rest _ h.1 ∙ enter_domains-Absent r d v.domains t h.0

  others-Absent :
      (to : VirtualHost → R) (final : List (Text × String)) (d : Text) (name : String)
      (vs : List VirtualHost)
      → get d final ≡ some name
      → seen_name (map (λ v. v.name) vs) name ≡ false
      → Owned final vs
      → All (λ (h : VirtualHost × R). Absent d h.0.domains) (with_routes to vs)
  unfolding with_routes
  others-Absent to final d name [] mine new owned = tt
  others-Absent to final d name (v ∷ vs) mine new owned = (
    all-Absent d v.domains (λ e m. elim (Bool-cases (e == d)) [
      | inr apart ↦ apart
      | inl same ↦
          let theirs =
            subst (λ x. get x final ≡ some v.name) ((text_eq.same_iff e d).0 same)
              (owned v (inl refl) e m) in
          absurd (ground (arith, new, mine, theirs, string_eq.same_iff v.name name))
    ]),
    others-Absent to final d name vs mine (ground (arith, new)) (λ w m. owned w (inr m)),
  )

  hosts_found :
      (to : VirtualHost → R) (final : List (Text × String)) (d : Text) (vs : List VirtualHost)
      (t : Tables R) (v : VirtualHost)
      → Unrepeated (map (λ v. v.name) vs)
      → Owned final vs
      → In v vs
      → In d v.domains
      → strip_prefix (codes "*.") d ≡ none
      → get d (enter_hosts (with_routes to vs) t).exact ≡ some (to v)
  unfolding enter_hosts with_routes
  hosts_found to final d [] t v new owned there m plain = elim there [ ]
  hosts_found to final d (w ∷ ws) t v new owned (inl same) m plain =
      let here = subst (λ x. In d x.domains) same m in
      enter_hosts-Absent d (with_routes to ws) _ (
        others-Absent to final d w.name ws (owned w (inl refl) d here) new.0
          (λ x i. owned x (inr i)))
      ∙ enter_domains_found (to w) d w.domains t here plain
      ∙ ap (λ x. some (to x)) (sym same)
  hosts_found to final d (w ∷ ws) t v new owned (inr there) m plain =
      hosts_found to final d ws _ v new.1 (λ x i. owned x (inr i)) there m plain

seen_kept :
    (p : VirtualHost → Bool) (vs : List VirtualHost) (name : String)
    → seen_name (map (λ v. v.name) vs) name ≡ false
    → seen_name (map (λ v. v.name) (keep_if p vs)) name ≡ false
unfolding keep_if
seen_kept p [] name h = refl
seen_kept p (v ∷ vs) name h = ground (arith, h, seen_kept p vs name)

kept-Unrepeated :
    (p : VirtualHost → Bool) (vs : List VirtualHost)
    → Unrepeated (map (λ v. v.name) vs)
    → Unrepeated (map (λ v. v.name) (keep_if p vs))
unfolding keep_if
kept-Unrepeated p [] h = tt
kept-Unrepeated p (v ∷ vs) h =
    let rest = kept-Unrepeated p vs h.1 in
    if_both (λ l. Unrepeated (map (λ v. v.name) l)) (p v) (v ∷ keep_if p vs) (keep_if p vs)
      (seen_kept p vs v.name h.0, rest) rest

In-map :
    {A B : Type 0} (f : A → B) (b : B) (xs : List A)
    → In b (map f xs)
    → (a : A) × In a xs × (b ≡ f a)
In-map f b [] m = elim m [ ]
In-map f b (x ∷ xs) (inl e) = (x, inl refl, e)
In-map f b (x ∷ xs) (inr m) = let (a, there, e) = In-map f b xs m in (a, inr there, e)

module _ {R : Type 0} (lib : Library) (to : VirtualHost → R) (c : Config)
    (accepted : validate lib c ≡ []) where
  abbrev enabled : List VirtualHost
  enabled = enabled_virtual_hosts (normalize lib c)

  host_owned :
      (v : VirtualHost) (e : Text)
      → In v c.virtual_hosts
      → v.enabled ≡ true
      → In e (normalize_host lib v).domains
      → get e (owners lib [] c.virtual_hosts) ≡ some (trim_string v.name)
  unfolding normalize_host
  host_owned v e here on m =
      let (d, own, same) = In-map (normalize_domain lib.lower) e v.domains (
        subst (λ b. In e (if b then map (normalize_domain lib.lower) v.domains else v.domains)) on
          m) in
      ap (λ x. get x (owners lib [] c.virtual_hosts)) same
      ∙ (validated_domain lib c accepted v d here on own).1

  normalized-Owned : Owned (owners lib [] c.virtual_hosts) enabled
  unfolding enabled_virtual_hosts normalize normalize_host
  normalized-Owned w there e m =
      let (kept, on) =
        In-keep_if (λ v. v.enabled) w (map (normalize_host lib) c.virtual_hosts) there in
      let (v, here, same) = In-map (normalize_host lib) w c.virtual_hosts kept in
      subst
        (λ (x : VirtualHost).
          x.enabled ≡ true → In e x.domains → get e (owners lib [] c.virtual_hosts) ≡ some x.name)
        (sym same) (λ on m. host_owned v e here on m) on m

  names_normalized :
      (vs : List VirtualHost)
      → map (λ v. v.name) (map (normalize_host lib) vs) ≡ map (λ v. trim_string v.name) vs
  unfolding normalize_host
  names_normalized [] = refl
  names_normalized (v ∷ vs) = ap (λ ns. trim_string v.name ∷ ns) (names_normalized vs)

  normalized-Unrepeated : Unrepeated (map (λ v. v.name) enabled)
  unfolding enabled_virtual_hosts normalize
  normalized-Unrepeated =
      kept-Unrepeated (λ v. v.enabled) (map (normalize_host lib) c.virtual_hosts)
        (subst Unrepeated (sym (names_normalized c.virtual_hosts)) (
          AllNew-Unrepeated [] (map (λ v. trim_string v.name) c.virtual_hosts)
            (validated_names lib c accepted)))

  -- In the tables that are built from a configuration without errors, as it is normalised, a request
  -- finds the route of an enabled host where its host, as Hostname reads it, is a domain of that host
  -- other than a wildcard.
  pub domain_reaches_host :
      (parse_hostname : Text → Option Text) (fold : ℕ → ℕ) (requested : Text) (v : VirtualHost)
      → In v (enabled_virtual_hosts (normalize lib c))
      → In (hostname parse_hostname fold requested) v.domains
      → strip_prefix (codes "*.") (hostname parse_hostname fold requested) ≡ none
      → route
          (tables to (normalize lib c)).exact
          (tables to (normalize lib c)).wildcard
          (hostname parse_hostname fold requested)
        ≡ some (to v)
  unfolding route tables
  domain_reaches_host parse_hostname fold requested v there m plain =
      rw
        (hosts_found to (owners lib [] c.virtual_hosts) (hostname parse_hostname fold requested)
          enabled no_tables v normalized-Unrepeated normalized-Owned there m plain)
        refl
