-- ===== src/App/Admin.antt =====
-- Who may use the admin listener, and the request's own ID: authorized and validRequestID of
-- internal/app/app.go.
use cherry_waf.Base.{
  ℕ, ◌≡◌, ◌↔◌, Bool, true, false, not, ◌&&◌, ◌||◌, Option, none, some, [], arith, ltb,
  if◌then◌else◌, nat_beq, any, all, ◌==◌, Text, codes, nat_eq, string_eq, text_eq, between,
  trim_space, byte_len, strip_prefix,
}

-- The rune is in [A-Za-z0-9-_.:].
abbrev pub is_id_rune : ℕ → Bool
is_id_rune c =
    between b'a' b'z' c
    || between b'A' b'Z' c
    || between b'0' b'9' c
    || any (nat_beq c) (codes "-_.:")

unfoldable pub valid_request_id : Text → Bool
unfolding byte_len
valid_request_id value =
    not (nat_beq (byte_len value) 0 || ltb 128 (byte_len value)) && all is_id_rune value

abbrev pub after_prefix : Text → Option Text → Text
after_prefix value none = value
after_prefix value (some rest) = rest

-- The token of a request: that of Authorization, or else that of X-Admin-Token.
unfoldable pub provided_token : Text → Text → Text
unfolding strip_prefix
provided_token authorization admin_token =
    let bearer =
      trim_space (after_prefix authorization (strip_prefix (codes "Bearer ") authorization)) in
    if bearer == [] then trim_space admin_token else bearer

-- `authorized`: `configured` is the value of the variable that the configuration names, if a runtime is
-- there.
unfoldable pub authorized : Option Text → Text → Text → Bool
unfolding provided_token
authorized none authorization admin_token = false
authorized (some configured) authorization admin_token =
    let expected = trim_space configured in
    let provided = provided_token authorization admin_token in
    if expected == []
    then false
    else nat_beq (byte_len provided) (byte_len expected) && provided == expected

-- Where a runtime is there, a request is authorized exactly if the configured token is not blank and is
-- what the request provides; so nobody is authorized while no token is configured. Without a runtime
-- nobody is.
pub authorized_iff :
    (configured : Option Text) (authorization admin_token : Text)
    → (authorized configured authorization admin_token ≡ true) ↔ (elim configured [
      | none ↦ ⊥
      | some t ↦
          ((trim_space t == []) ≡ false) × (provided_token authorization admin_token ≡ trim_space t)
    ])
unfolding authorized
authorized_iff none authorization admin_token = ground arith
authorized_iff (some t) authorization admin_token =
    ground (arith, text_eq.same_iff (provided_token authorization admin_token) (trim_space t))
