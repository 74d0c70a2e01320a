-- ===== src/Config/Validate/Owners.antt =====
-- What a configuration without errors says of its virtual hosts (Validate of internal/config/config.go):
-- who owns a domain, and which pool a host forwards to.
use cherry_waf.Base.{
  String, ◌≡◌, refl, sym, ap, subst, ◌∙◌, inl, inr, Bool, true, false, not, Option, none, some,
  List, [], ◌∷◌, ◌++◌, map, arith, if◌then◌else◌, nat_beq, length, In, Text, nat_eq, string_eq,
  text_eq,
}
use cherry_waf.Base.Assoc.{get, put, get-put_self, get-put}
use cherry_waf.Base.Trim.{trim_string}
use cherry_waf.Config.{require}
use cherry_waf.Config.Types.{VirtualHost, Config, Library}
use cherry_waf.Config.Domain.{normalize_domain, validate_domain_pattern}
use cherry_waf.Config.Validate.Hosts.{
  note_domain, see_domain, domains_errors, domain_owners, host_errors, see_host, hosts_errors,
  owners, domain_step_errors,
}
use cherry_waf.Config.Validate.Sound.{append-nil, AllNew, name_errors-nil}

module _ (lib : Library) where
  step_free :
      (name : String) (domain : Text) (e : Option String) (o : Option String)
      (seen : List (Text × String))
      → domain_step_errors e o ≡ []
      → (e ≡ none) × (o ≡ none) × (note_domain name domain e o seen ≡ put domain name seen)
  step_free name domain none none seen h = (refl, refl, refl)
  step_free name domain none (some o) seen h = absurd (ground (arith, h))
  step_free name domain (some e) o seen h = absurd (ground (arith, h))

  -- Looking on through more domains keeps the owners found so far.
  abbrev pub Keeps : List (Text × String) → List (Text × String) → Type 0
  Keeps seen later = (k : Text) (o : String) → get k seen ≡ some o → get k later ≡ some o

  put-Keeps :
      (seen : List (Text × String)) (domain : Text) (name : String)
      → get domain seen ≡ none
      → Keeps seen (put domain name seen)
  put-Keeps seen domain name free k o h =
      ground (arith, h, free, get-put domain k name seen, text_eq.same_iff domain k)

  domains_owned :
      (name : String) (seen : List (Text × String)) (ds : List Text)
      → domains_errors lib name seen ds ≡ []
      → Keeps seen (domain_owners lib name seen ds)
        × ((d : Text)
            → In d ds
            → (validate_domain_pattern lib (normalize_domain lib.lower d) ≡ none)
              × (get (normalize_domain lib.lower d) (domain_owners lib name seen ds) ≡ some name))
  unfolding domains_errors domain_owners
  domains_owned name seen [] h = (λ k o e. e, λ d m. elim m [ ])
  domains_owned name seen (d ∷ ds) h =
      let domain = normalize_domain lib.lower d in
      let (step, later) = append-nil h in
      let (valid, free, noted) =
        step_free name domain (validate_domain_pattern lib domain) (get domain seen) seen step in
      let now = see_domain lib name domain seen in
      let (keeps, owned) = domains_owned name now ds later in
      let entered : get domain now ≡ some name =
        ap (get domain) noted ∙ get-put_self domain name seen in
      (
        λ k o e. keeps k o (ap (get k) noted ∙ put-Keeps seen domain name free k o e),
        λ x m. elim m [
          | inl same ↦
              subst
                (λ y.
                  (validate_domain_pattern lib (normalize_domain lib.lower y) ≡ none)
                  × (get (normalize_domain lib.lower y) (domain_owners lib name now ds)
                      ≡ some name))
                (sym same) (valid, keeps domain name entered)
          | inr m ↦ owned x m
        ],
      )

  -- An enabled host's own checks, and the domains it owns in the end.
  abbrev pub Kept : Config → List String → List (Text × String) → VirtualHost → Type 0
  Kept c names final v =
      v.enabled ≡ true
      → (host_errors lib c names v ≡ [])
        × ((d : Text)
            → In d v.domains
            → (validate_domain_pattern lib (normalize_domain lib.lower d) ≡ none)
              × (get (normalize_domain lib.lower d) final ≡ some (trim_string v.name)))

  see_host-Kept :
      (c : Config) (names : List String) (owned : List (Text × String)) (v : VirtualHost) (b : Bool)
      → v.enabled ≡ b
      → (let final = if b then domain_owners lib (trim_string v.name) owned v.domains else owned in
          Keeps owned final × Kept c names final v)
      → Keeps owned (see_host lib v owned) × Kept c names (see_host lib v owned) v
  see_host-Kept c names owned v b e =
      subst (λ final. Keeps owned final × Kept c names final v)
        (ap (λ x. if x then domain_owners lib (trim_string v.name) owned v.domains else owned)
          (sym e))

  host_step :
      (c : Config) (names : List String) (owned : List (Text × String)) (v : VirtualHost) (b : Bool)
      → v.enabled ≡ b
      → (if b
          then require (not (nat_beq (length v.domains) 0)) "must contain at least one domain"
            ++ domains_errors lib (trim_string v.name) owned v.domains
            ++ host_errors lib c names v
          else [])
        ≡ []
      → Keeps owned (see_host lib v owned) × Kept c names (see_host lib v owned) v
  host_step c names owned v true on h =
      let (front, own) = append-nil h in
      let (size, domains) = append-nil front in
      let (keeps, owns) = domains_owned (trim_string v.name) owned v.domains domains in
      see_host-Kept c names owned v true on (keeps, λ e. (own, owns))
  host_step c names owned v false off h =
      see_host-Kept c names owned v false off (λ k o e. e, λ e. absurd (ground (arith, e, off)))

  pub hosts-Kept :
      (c : Config) (names seen : List String) (owned : List (Text × String)) (vs : List VirtualHost)
      → hosts_errors lib c names seen owned vs ≡ []
      → Keeps owned (owners lib owned vs)
        × AllNew seen (map (λ v. trim_string v.name) vs)
        × ((v : VirtualHost) → In v vs → Kept c names (owners lib owned vs) v)
  unfolding hosts_errors owners
  hosts-Kept c names seen owned [] h = (λ k o e. e, tt, λ v m. elim m [ ])
  hosts-Kept c names seen owned (v ∷ vs) h =
      let (front, later) = append-nil h in
      let (named, own) = append-nil front in
      let (filled, new, noted) =
        name_errors-nil seen (trim_string v.name) "virtual host name must not be empty"
          "duplicate virtual host name" named in
      let (keeps, kept) = host_step c names owned v v.enabled refl own in
      let (on, news, all_kept) =
        hosts-Kept c names (trim_string v.name ∷ seen) (see_host lib v owned) vs
          (subst (λ s. hosts_errors lib c names s (see_host lib v owned) vs ≡ []) noted later) in
      (
        λ k o e. on k o (keeps k o e),
        (filled, new, news),
        λ w m. elim m [
          | inl same ↦
              subst (Kept c names (owners lib (see_host lib v owned) vs)) (sym same)
                (λ e. ((kept e).0, λ d i. (((kept e).1 d i).0, on _ _ ((kept e).1 d i).1)))
          | inr m ↦ all_kept w m
        ],
      )
