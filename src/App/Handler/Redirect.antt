-- ===== src/App/Handler/Redirect.antt =====
-- redirectURL and routeRedirectURL of internal/app/app.go.
use cherry_waf.Base.{
  Bool, Option, none, some, List, [], ◌∷◌, ◌++◌, if◌then◌else◌, nat_beq, any, ◌==◌, Text, codes,
  nat_eq, string_eq, text_eq,
}
use cherry_waf.Base.Replace.{replace_words}
use cherry_waf.Config.{starts_with_slash}
use cherry_waf.App.{Request}

abbrev pub contains_colon : Text → Bool
contains_colon = any (nat_beq b':')

-- `net.JoinHostPort`
unfoldable pub join_host_port : Text → Text → Text
join_host_port host port =
    if contains_colon host then b'[' ∷ host ++ codes "]:" ++ port else host ++ b':' ∷ port

abbrev pub with_port : Text → Option (Text × Text) → Text
with_port host none = host
with_port host (some (listen, port)) =
    if port == codes "443" then host else join_host_port host port

-- `redirectURL`, of the normalised host and the address that HTTPS listens on.
unfoldable pub redirect_url : (Text → Option (Text × Text)) → Text → Text → Request → Text
unfolding join_host_port
redirect_url split_host_port host listen r =
    codes "https://" ++ with_port host (split_host_port listen) ++ r.request_uri

abbrev pub scheme_of : Option Text → Text
scheme_of none = codes "http"
scheme_of (some server_name) = codes "https"

abbrev pub words_of : Request → List (Text × Text)
words_of r =
    (codes "{host}", r.host)
    ∷ (codes "{request_uri}", r.request_uri)
    ∷ (codes "{path}", r.escaped_path)
    ∷ (codes "{query}", r.raw_query)
    ∷ []

-- `routeRedirectURL`, of the URL that the virtual host redirects to.
unfoldable pub route_redirect_url : Text → Request → Text
unfolding replace_words
route_redirect_url url r =
    let target = replace_words (words_of r) 0 url in
    if starts_with_slash target
    then scheme_of r.server_name ++ codes "://" ++ r.host ++ target
    else target
