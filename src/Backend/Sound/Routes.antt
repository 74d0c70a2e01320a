-- ===== src/Backend/Sound/Routes.antt =====
-- That the content routes of an accepted configuration compile: validateContentRoutes of
-- internal/config/config.go with compileContentRoutes of internal/proxy/content.go.
use cherry_waf.Base.{
  String, ◌≡◌, refl, inl, inr, Bool, true, false, not, ◌||◌, Option, none, some, List, [], ◌∷◌, map,
  arith, if◌then◌else◌, Bool-cases, All, ◌==◌, Text, nat_eq, string_eq, text_eq, ◌>>=◌,
}
use cherry_waf.Proxy.{ServerPool}
use cherry_waf.Config.{upper_trimmed, valid_method}
use cherry_waf.Config.Types.{ContentRoute, Library}
use cherry_waf.Config.Parts.{is_blank}
use cherry_waf.Config.Validate.Hosts.{content_route_errors, reference_errors, pair_errors}
use cherry_waf.Config.Validate.Sound.{append-nil, require-nil}
use cherry_waf.Backend.{CompiledContentRoute}
use cherry_waf.Backend.Content.{compile_pattern, compile_route, compile_content_routes}

item_added :
    {A : Type 0} (on : Bool) (o : Option A) (rest : Option (List A)) (items : List A)
    → rest ≡ some items
    → (on ≡ true → (item : A) × (o ≡ some item))
    → (all : List A) × ((if not on then rest else (do item ← o; items ← rest; some (item ∷ items)))
        ≡ some all)
item_added true o rest items e f = let (item, done) = f refl in (item ∷ items, rw (done, e) refl)
item_added false o rest items e f = (items, e)

module _ {Regex : Type 0} (lib : Library) (compile : Text → Option Regex)
    (agree : (t : Text) → lib.compiles t ≡ true → (r : Regex) × (compile t ≡ some r)) where
  pattern_compiles :
      (t : Text)
      → (t == [] || lib.compiles t) ≡ true
      → (o : Option Regex) × (compile_pattern compile lib.upper t ≡ some o)
  unfolding compile_pattern
  pattern_compiles t h = elim (Bool-cases (t == [])) [
    | inl e ↦ (none, rw e refl)
    | inr e ↦ let (r, f) = agree t (ground (arith, h, e)) in (some r, rw (e, f) refl)
  ]

  pair_compiles :
      (valid : Bool) (name pattern : Text) (message : String)
      → pair_errors lib valid name pattern message ≡ []
      → (pattern == [] || lib.compiles pattern) ≡ true
  pair_compiles valid name pattern message h = ground (arith, h)

  module _ (pools : List ServerPool) (names : List String) where
    -- What the errors of one route say of its pool and of its patterns.
    route_parts :
        (r : ContentRoute)
        → content_route_errors lib pools names r ≡ []
        → (reference_errors pools names r.pool ≡ [])
          × ((r.path_pattern == [] || lib.compiles r.path_pattern) ≡ true)
          × ((r.header_pattern == [] || lib.compiles r.header_pattern) ≡ true)
          × ((r.query_pattern == [] || lib.compiles r.query_pattern) ≡ true)
    unfolding content_route_errors
    route_parts r h =
        let (front, condition) = append-nil h in
        let (front, query) = append-nil front in
        let (front, header) = append-nil front in
        let (front, path) = append-nil front in
        let (front, prefix) = append-nil front in
        let (refs, methods) = append-nil front in
        (
          refs,
          require-nil (r.path_pattern == [] || lib.compiles r.path_pattern) "path_pattern" path,
          pair_compiles (valid_method r.header_name) r.header_name r.header_pattern
              "requires a valid header_name and header_pattern" header,
          pair_compiles (not (is_blank r.query_name)) r.query_name r.query_pattern
              "requires query_name and query_pattern" query,
        )

    route_compiles :
        (r : ContentRoute)
        → content_route_errors lib pools names r ≡ []
        → (item : CompiledContentRoute Regex) × (compile_route compile lib.upper r ≡ some item)
    unfolding compile_route
    route_compiles r h =
        let (refs, path, header, query) = route_parts r h in
        let (p, path_done) = pattern_compiles r.path_pattern path in
        let (q, header_done) = pattern_compiles r.header_pattern header in
        let (s, query_done) = pattern_compiles r.query_pattern query in
        (
          record {
            config = r;
            methods = map (upper_trimmed lib.upper) r.methods;
            path_pattern = p;
            header_pattern = q;
            query_pattern = s;
          },
          rw (path_done, header_done, query_done) refl,
        )

    pub routes_compile :
        (rs : List ContentRoute)
        → All (λ r. r.enabled ≡ true → content_route_errors lib pools names r ≡ []) rs
        → (items : List (CompiledContentRoute Regex)) × (compile_content_routes compile lib.upper rs
            ≡ some items)
    unfolding compile_content_routes
    routes_compile [] h = ([], refl)
    routes_compile (r ∷ rs) h =
        let (items, rest) = routes_compile rs h.1 in
        item_added r.enabled _ _ items rest (λ e. route_compiles r (h.0 e))

    pub route_reference :
        (r : ContentRoute)
        → content_route_errors lib pools names r ≡ []
        → reference_errors pools names r.pool ≡ []
    route_reference r h = (route_parts r h).0
