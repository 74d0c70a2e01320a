-- ===== src/Backend/Content.antt =====
-- Content routes: internal/proxy/content.go, and selectPool of internal/proxy/proxy.go.
use cherry_waf.Base.{
  ℕ, Bool, true, false, not, ◌&&◌, ◌||◌, Option, none, some, List, [], ◌∷◌, map, if◌then◌else◌,
  nat_beq, length, any, ◌==◌, Text, nat_eq, string_eq, text_eq, strip_prefix, ◌>>=◌,
}
use cherry_waf.Base.Assoc.{get}
use cherry_waf.Proxy.{Pool}
use cherry_waf.Config.{upper_trimmed, to_upper}
use cherry_waf.Config.Types.{ContentRoute}
use cherry_waf.Backend.{CompiledContentRoute, Backend}

-- What a content route reads of a request: `header` and `query` give the first value of a name, or "".
pub record Request : Type 0 where
  pub method : Text
  pub path : Text
  pub header : Text → Text
  pub query : Text → Text

module _ {Regex : Type 0} (compile : Text → Option Regex) (upper : ℕ → ℕ) where
  -- A pattern that is left out is nil; the outer none is an error.
  abbrev pub compiled : Option Regex → Option (Option Regex)
  compiled none = none
  compiled (some r) = some (some r)

  unfoldable pub compile_pattern : Text → Option (Option Regex)
  compile_pattern pattern = if pattern == [] then some none else compiled (compile pattern)

  unfoldable pub compile_route : ContentRoute → Option (CompiledContentRoute Regex)
  unfolding compile_pattern upper_trimmed
  compile_route r = do
    path ← compile_pattern r.path_pattern
    header ← compile_pattern r.header_pattern
    query ← compile_pattern r.query_pattern
    some (record {
      config = r;
      methods = map (upper_trimmed upper) r.methods;
      path_pattern = path;
      header_pattern = header;
      query_pattern = query;
    })

  -- `compileContentRoutes`
  unfoldable pub compile_content_routes :
      List ContentRoute → Option (List (CompiledContentRoute Regex))
  unfolding compile_route
  compile_content_routes [] = some []
  compile_content_routes (r ∷ rs) =
      let rest = compile_content_routes rs in
      if not r.enabled then rest else (do item ← compile_route r; items ← rest; some (item ∷ items))

module _ {Regex : Type 0} (found : Regex → Text → Bool) (upper : ℕ → ℕ) where
  abbrev pub pattern_matches : Option Regex → Text → Bool
  pattern_matches none value = true
  pattern_matches (some r) value = found r value

  -- `matches`
  unfoldable pub matches : CompiledContentRoute Regex → Request → Bool
  unfolding strip_prefix
  matches r q =
      (nat_beq (length r.methods) 0 || any (λ m. m == map (to_upper upper) q.method) r.methods)
      && has_prefix (strip_prefix r.config.path_prefix q.path)
      && pattern_matches r.path_pattern q.path
      && pattern_matches r.header_pattern (q.header r.config.header_name)
      && pattern_matches r.query_pattern (q.query r.config.query_name)
    where
      has_prefix : Option Text → Bool
      has_prefix none = false
      has_prefix (some rest) = true

  abbrev pub or_later : Option Pool → Option Pool → Option Pool
  or_later none later = later
  or_later (some p) later = some p

  unfoldable pub routed : Backend Regex → Request → List (CompiledContentRoute Regex) → Option Pool
  unfolding matches get
  routed b q [] = get b.default_pool b.pools
  routed b q (r ∷ rs) =
      let later = routed b q rs in
      if matches r q then or_later (get r.config.pool b.pools) later else later

  -- `selectPool`
  unfoldable pub select_pool : Backend Regex → Request → Option Pool
  unfolding routed
  select_pool b q = routed b q b.content_routes
