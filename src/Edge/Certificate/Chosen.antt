-- ===== src/Edge/Certificate/Chosen.antt =====
-- That the certificate and the route of a name belong together (internal/certstore/store.go,
-- internal/core/runtime.go).
use cherry_waf.Base.{
  ℕ, ◌≡◌, refl, ap, subst, ◌∙◌, inl, inr, false, Option, none, some, List, [], ◌∷◌, arith,
  if◌then◌else◌, Bool-cases, ◌==◌, ==_refl, Text, nat_eq, string_eq, text_eq,
}
use cherry_waf.Base.Assoc.{get, Keyed}
use cherry_waf.Edge.Route.{covers, wildcard_route, or_wildcard, route}
use cherry_waf.Edge.Route.Order.{after_dot, covers-after_dot, wildcard_lookup}
use cherry_waf.Edge.Certificate.{
  Certificates, server_name, scan, or_scan, certificate_of, get_certificate,
}

module _ {C : Type 0} where
  scan_lookup :
      (host : Text) (es : List (Text × C))
      → scan host es none ≡ (if covers host (after_dot host) then get (after_dot host) es else none)
  unfolding scan get
  scan_lookup host [] = ground arith
  scan_lookup host ((s, c) ∷ es) = elim (Bool-cases (covers host s)) [
    | inl on ↦
        let same : after_dot host ≡ s = covers-after_dot host s on in
        rw (on, same, on, ==_refl s) refl
    | inr off ↦ elim (Bool-cases (s == after_dot host)) [
      | inl same ↦
          let none_covers : covers host (after_dot host) ≡ false =
            subst (λ x. covers host x ≡ false) ((text_eq.same_iff s (after_dot host)).0 same) off in
          rw (off, none_covers) (scan_lookup host es ∙ rw none_covers refl)
      | inr other ↦ rw (off, other) (scan_lookup host es)
    ]
  ]

abbrev pub on_some : {A B : Type 0} → (A → B) → Option A → Option B
on_some f none = none
on_some f (some x) = some (f x)

module _ {R C : Type 0} (to : R → C) (exact wildcards : List (Text × R)) (s : Certificates C)
    (keyed : Keyed wildcards) (same_exact : (k : Text) → get k s.exact ≡ on_some to (get k exact))
    (same_wildcard : (k : Text) → get k s.wildcard ≡ on_some to (get k wildcards)) where
  scanned :
      (host : Text)
      → (host == []) ≡ false
      → scan host s.wildcard (if host == [] then s.fallback else none)
        ≡ on_some to (wildcard_route host wildcards)
  scanned host h =
      rw (h, scan_lookup host s.wildcard, wildcard_lookup host wildcards keyed)
        (elim (Bool-cases (covers host (after_dot host))) [
          | inl on ↦ rw on (same_wildcard (after_dot host))
          | inr off ↦ rw off refl
        ])

  chosen :
      (host : Text)
      → (host == []) ≡ false
      → certificate_of s host ≡ on_some to (route exact wildcards host)
  unfolding certificate_of route
  chosen host h = ap (or_scan s host) (same_exact host) ∙ go (get host exact)
    where
      go :
          (found : Option R)
          → or_scan s host (on_some to found)
            ≡ on_some to (or_wildcard found (wildcard_route host wildcards))
      go (some r) = refl
      go none = scanned host h

  -- Where the certificates stand in the tables under the names that the routes have, in any order: for a
  -- name that is not empty, the certificate that is presented is that of the route which the name
  -- reaches, and there is none exactly where there is no route.
  pub certificate_of_route :
      (fold : ℕ → ℕ) (name : Text)
      → (server_name fold name == []) ≡ false
      → get_certificate fold s name ≡ on_some to (route exact wildcards (server_name fold name))
  unfolding get_certificate
  certificate_of_route fold name h = chosen (server_name fold name) h
