-- ===== src/Backend/Url.antt =====
-- The URL of an upstream request: joinURLPath and rewriteURL of internal/proxy/proxy.go.
use cherry_waf.Base.{
  Bool, true, false, ◌&&◌, ◌||◌, [], ◌∷◌, ◌++◌, if◌then◌else◌, nat_beq, drop, ◌==◌, Text, nat_eq,
  string_eq, text_eq,
}
use cherry_waf.Config.{starts_with_slash}
use cherry_waf.Config.Types.{Url}

abbrev pub ends_with_slash : Text → Bool
ends_with_slash [] = false
ends_with_slash (c ∷ []) = nat_beq c b'/'
ends_with_slash (c ∷ d ∷ ds) = ends_with_slash (d ∷ ds)

-- The `switch` on the slashes of the escaped paths, for the paths that are joined.
unfoldable pub join_at : Bool → Bool → Text → Text → Text
join_at true true a b = a ++ drop 1 b
join_at false false a b = a ++ b'/' ∷ b
join_at true false a b = a ++ b
join_at false true a b = a ++ b

-- `escaped` is EscapedPath of net/url.
module _ (escaped : Url → Text) where
  -- `joinURLPath`: the path and the raw path.
  unfoldable pub join_url_path : Url → Url → Text × Text
  unfolding join_at
  join_url_path a b =
      if a.raw_path == [] && b.raw_path == []
      then (join_at (ends_with_slash a.path) (starts_with_slash b.path) a.path b.path, [])
      else let a_path = escaped a in
        let b_path = escaped b in
        let a_slash = ends_with_slash a_path in
        let b_slash = starts_with_slash b_path in
        (join_at a_slash b_slash a.path b.path, join_at a_slash b_slash a_path b_path)

  -- `rewriteURL`
  unfoldable pub rewrite_url : Url → Url → Url → Url
  unfolding join_url_path
  rewrite_url output target original =
      let (path, raw_path) = join_url_path target original in
      record output {
        scheme = target.scheme;
        host = target.host;
        path = path;
        raw_path = raw_path;
        raw_query =
            if target.raw_query == [] || original.raw_query == []
            then target.raw_query ++ original.raw_query
            else target.raw_query ++ b'&' ∷ original.raw_query;
      }

-- A text without its last slash, and one without its first.
unfoldable pub trim_last_slash : Text → Text
trim_last_slash [] = []
trim_last_slash (c ∷ []) = if nat_beq c b'/' then [] else c ∷ []
trim_last_slash (c ∷ d ∷ ds) = c ∷ trim_last_slash (d ∷ ds)

unfoldable pub trim_first_slash : Text → Text
trim_first_slash [] = []
trim_first_slash (c ∷ cs) = if nat_beq c b'/' then cs else c ∷ cs
