-- ===== src/Backend/Serve/Headers.antt =====
-- The headers that a backend sets: rewrite and modifyResponse of internal/proxy/proxy.go. Go's library
-- makes a header's name canonical and sets the forwarding headers.
use cherry_waf.Base.{
  ℕ, ◌≡◌, refl, ap, ◌∙◌, inl, inr, true, false, Option, none, some, List, [], ◌∷◌, ◌++◌, map, arith,
  if◌then◌else◌, Bool-cases, All, ◌==◌, Text, codes, nat_eq, string_eq, text_eq, if_both, to_lower,
}
use cherry_waf.Base.Assoc.{get, put, get-put_ne}
use cherry_waf.Proxy.{Pool, Member}
use cherry_waf.Config.Types.{VirtualHost, Url}
use cherry_waf.Config.Parts.{each, forbidden_request_name, forbidden_request_header}
use cherry_waf.Config.Validate.Hosts.{header_errors}
use cherry_waf.Config.Validate.Sound.{append-nil}

-- The outgoing request, as far as the code writes it.
pub record Outgoing : Type 0 where
  pub url : Url
  pub host : Text
  pub headers : List (Text × List Text)

-- `http.Header`: the values of each name.
abbrev pub Headers : Type 0
Headers = List (Text × List Text)

module _ (canonical : Text → Text) where
  -- `Header.Set`
  unfoldable pub set : Text → Text → Headers → Headers
  unfolding put
  set name value headers = put (canonical name) (value ∷ []) headers

  unfoldable pub set_all : List (Text × Text) → Headers → Headers
  unfolding set
  set_all [] headers = headers
  set_all ((name, value) ∷ rest) headers = set_all rest (set name value headers)

  -- `if Header.Get(X) == "" { Header.Set(X, …) }`
  abbrev pub set_missing : Text → Text → Headers → Option (List Text) → Headers
  set_missing name value headers none = set name value headers
  set_missing name value headers (some []) = set name value headers
  set_missing name value headers (some (v ∷ vs)) =
      if v == [] then set name value headers else headers

  -- `rewrite`, for a member whose target is `target`: `set_url` and `set_forwarded` are SetURL and
  -- SetXForwarded of httputil, and `new_id` is the value of NewRequestID.
  unfoldable pub rewrite :
      (Url → Outgoing → Outgoing)
      → (Headers → Headers)
      → VirtualHost
      → Pool
      → Member
      → Url
      → Text
      → Text
      → Outgoing
      → Outgoing
  unfolding set set_all get
  rewrite set_url set_forwarded v p m target in_host new_id out =
      let out = set_url target out in
      let headers = set (codes "X-CherryWAF") (codes "1") (set_forwarded out.headers) in
      let headers = set (codes "X-CherryWAF-Pool") (codes p.config.name) headers in
      let headers = set (codes "X-CherryWAF-Member") (codes m.config.id) headers in
      let headers =
        set_missing (codes "X-Request-ID") new_id headers
          (get (canonical (codes "X-Request-ID")) headers) in
      record out {
        host = if v.preserve_host then in_host else target.host;
        headers = set_all v.request_headers headers;
      }

  -- `Header.Add` on a canonical name.
  abbrev pub added : Text → Text → Headers → Option (List Text) → Headers
  added name value headers none = put name (value ∷ []) headers
  added name value headers (some values) = put name (values ++ value ∷ []) headers

  abbrev pub with_cookie : VirtualHost → Option Text → Headers → Headers
  with_cookie v none headers = headers
  with_cookie v (some c) headers =
      if v.persistence.mode == "cookie"
      then added (codes "Set-Cookie") c headers (get (codes "Set-Cookie") headers)
      else headers

  -- `modifyResponse` on the headers; `cookie` is the cookie that keeps a client at its member, if a
  -- member is known.
  unfoldable pub modify_response : VirtualHost → Option Text → Headers → Headers
  unfolding set set_all get put
  modify_response v cookie headers =
      set (codes "Via") (codes "CherryWAF")
        (set_all v.response_headers (with_cookie v cookie headers))

  set_all-other :
      (k : Text) (sets : List (Text × Text)) (headers : Headers)
      → All (λ e. (canonical e.0 == k) ≡ false) sets
      → get k (set_all sets headers) ≡ get k headers
  unfolding set_all set
  set_all-other k [] headers h = refl
  set_all-other k ((name, value) ∷ rest) headers h =
      set_all-other k rest (set name value headers) h.1
      ∙ get-put_ne (canonical name) k (value ∷ []) headers h.0

  -- Names that are one name to Go are one in lower case.
  module _ (lower : ℕ → ℕ)
      (same_name : (m n : Text)
        → canonical m ≡ canonical n
        → map (to_lower lower) m ≡ map (to_lower lower) n) where
    forbidden-apart :
        (k n : Text)
        → forbidden_request_header lower k ≡ true
        → forbidden_request_header lower n ≡ false
        → (canonical n == canonical k) ≡ false
    unfolding forbidden_request_header
    forbidden-apart k n managed free = elim (Bool-cases (canonical n == canonical k)) [
      | inr e ↦ e
      | inl e ↦
          let same = same_name n k ((text_eq.same_iff (canonical n) (canonical k)).0 e) in
          absurd (ground (arith, managed, free, ap forbidden_request_name same))
    ]

    header_allowed :
        (e : Text × Text)
        → header_errors (forbidden_request_header lower) e ≡ []
        → forbidden_request_header lower e.0 ≡ false
    unfolding header_errors
    header_allowed (n, value) h = ground (arith, h)

    headers-apart :
        (k : Text) (sets : List (Text × Text))
        → forbidden_request_header lower k ≡ true
        → each (header_errors (forbidden_request_header lower)) sets ≡ []
        → All (λ e. (canonical e.0 == canonical k) ≡ false) sets
    unfolding each
    headers-apart k [] managed h = tt
    headers-apart k (e ∷ es) managed h =
        let (now, later) = append-nil h in
        (forbidden-apart k e.0 managed (header_allowed e now), headers-apart k es managed later)

    get-set :
        (k n value : Text) (headers : Headers)
        → forbidden_request_header lower k ≡ true
        → forbidden_request_header lower n ≡ false
        → get (canonical k) (set n value headers) ≡ get (canonical k) headers
    unfolding set
    get-set k n value headers managed free =
        get-put_ne (canonical n) (canonical k) (value ∷ []) headers
          (forbidden-apart k n managed free)

    get-set_missing :
        (k n value : Text) (headers : Headers) (o : Option (List Text))
        → forbidden_request_header lower k ≡ true
        → forbidden_request_header lower n ≡ false
        → get (canonical k) (set_missing n value headers o) ≡ get (canonical k) headers
    get-set_missing k n value headers none managed free = get-set k n value headers managed free
    get-set_missing k n value headers (some []) managed free =
        get-set k n value headers managed free
    get-set_missing k n value headers (some (v ∷ vs)) managed free =
        if_both (λ hs. get (canonical k) hs ≡ get (canonical k) headers) (v == []) _ _
          (get-set k n value headers managed free) refl

    -- Whatever headers a host without errors is configured to set, the entry of the outgoing header map
    -- for a name that is forbidden to it, such as X-Forwarded-For or Content-Length, is the one that the
    -- library set, and the host sent upstream is that of the request, if the virtual host preserves it,
    -- or of the member's URL. This holds where Go takes two names for one only if they are the same in
    -- lower case.
    pub rewrite_keeps_managed :
        (set_url : Url → Outgoing → Outgoing) (set_forwarded : Headers → Headers) (v : VirtualHost)
        (p : Pool) (m : Member) (target : Url) (in_host new_id : Text) (out : Outgoing) (k : Text)
        → each (header_errors (forbidden_request_header lower)) v.request_headers ≡ []
        → forbidden_request_header lower k ≡ true
        → (get (canonical k) (rewrite set_url set_forwarded v p m target in_host new_id out).headers
            ≡ get (canonical k) (set_forwarded (set_url target out).headers))
          × (v.preserve_host ≡ true
              → (rewrite set_url set_forwarded v p m target in_host new_id out).host ≡ in_host)
          × (v.preserve_host ≡ false
              → (rewrite set_url set_forwarded v p m target in_host new_id out).host ≡ target.host)
    unfolding rewrite forbidden_request_header to_lower
    rewrite_keeps_managed set_url set_forwarded v p m target in_host new_id out k valid managed = (
      set_all-other (canonical k) v.request_headers _
            (headers-apart k v.request_headers managed valid)
          ∙ get-set_missing k (codes "X-Request-ID") new_id _ _ managed refl
          ∙ get-set k (codes "X-CherryWAF-Member") (codes m.config.id) _ managed refl
          ∙ get-set k (codes "X-CherryWAF-Pool") (codes p.config.name) _ managed refl
          ∙ get-set k (codes "X-CherryWAF") (codes "1") _ managed refl,
      (λ kept. rw kept refl),
      (λ changed. rw changed refl),
    )
