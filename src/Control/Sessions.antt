-- ===== src/Control/Sessions.antt =====
-- The sessions: createSession, sessionPrincipal, deleteSession and pruneSessionsLocked of
-- internal/control/store.go.
pub mod Sound
use cherry_waf.Base.{
  ℕ, zero, suc, ◌+◌, ◌-◌, ◌*◌, ◌/◌, ◌%◌, ◌^◌, ◌≤◌, ◌<◌, min, max, String, ◌≡◌, refl, sym, ap, subst,
  fun_ext, ◌∙◌, ◌≢◌, ◌↔◌, ◌⊎◌, inl, inr, Bool, true, false, not, ◌&&◌, ◌||◌, Option, none, some,
  List, [], ◌∷◌, ◌++◌, map, arith, eq_iff, ltb, leb, if◌then◌else◌, ltb→lt, lt→ltb, leb→le, nat_beq,
  nat_beq_iff, Bool-cases, Option-cases, length, get_elem?, take, drop, In, All, any, all, keep_if,
  find_first, length-append, length-take-le, length-keep_if-le, In-keep_if, In-keep_if_of, All-In,
  find_first-some, find_first-none, Eq, ◌==◌, list_beq, list_beq_iff, ==_refl, Text, codes, nat_eq,
  string_eq, text_eq, if_both, between, is_space, trim_left, trim_right, trim_space, rune_len,
  byte_len, strip_prefix, strip_suffix, to_lower, ◌>>=◌,
}
use cherry_waf.Base.Assoc.{get, put, drop_key}
use cherry_waf.Control.{
  Role, User, PersistedUser, State, Session, LoginFailure, Store, Error, Reply, is_admin,
  valid_role, role_level, enabled_admin, has_admin, with_users, with_state, saved_at,
  setup_completed, username_rune, normalize_username, other_rune, validate_password, hash_password,
  viewer, operator, admin, other_role, invalid_username, invalid_password, setup_done, save_failed,
  username_taken, invalid_role, not_found, empty_display_name, own_role, own_account, no_admin,
  login_blocked, login_failed, ok, err,
}

-- Eight hours.
abbrev pub session_duration : ℕ
session_duration = 28800000000000

abbrev pub prune_sessions : ℕ → List (Text × Session) → List (Text × Session)
prune_sessions now sessions = keep_if (λ e. ltb now e.1.expires_at) sessions

abbrev pub new_session : Text → Text → Text → ℕ → Session
new_session user_id token csrf now = record {
  token = token;
  csrf_token = csrf;
  user_id = user_id;
  expires_at = now + session_duration;
}

-- `token` and `csrf` are what `randomToken` draws.
unfoldable pub create_session : Store → Text → Text → Text → ℕ → Store × Session
unfolding keep_if put
create_session s user_id token csrf now =
    let made = new_session user_id token csrf now in
    (record s { sessions = put token made (prune_sessions now s.sessions) }, made)

abbrev pub owns : Session → PersistedUser → Bool
owns sess p = p.user.id == sess.user_id && not p.user.disabled

unfoldable pub principal_of :
    Store → Text → Session → Option PersistedUser → Store × Option (User × Session)
principal_of s token sess none = (record s { sessions = drop_key token s.sessions }, none)
principal_of s token sess (some p) = (s, some (p.user, sess))

-- `sessionPrincipal`, on the store that the pruning leaves and the session found in it.
unfoldable pub lookup_found : Store → Text → ℕ → Option Session → Store × Option (User × Session)
unfolding find_first principal_of
lookup_found s token now none = (s, none)
lookup_found s token now (some sess) =
    if not (ltb now sess.expires_at)
    then (s, none)
    else principal_of s token sess (find_first (owns sess) s.state.users)

unfoldable pub lookup_session : Store → Text → ℕ → Store × Option (User × Session)
unfolding get lookup_found
lookup_session s token now = lookup_found s token now (get token s.sessions)

unfoldable pub session_principal : Store → Text → ℕ → Store × Option (User × Session)
unfolding lookup_session keep_if
session_principal s token now =
    lookup_session (record s { sessions = prune_sessions now s.sessions }) token now

pub delete_session : Store → Text → Store
unfolding drop_key
delete_session s token = record s { sessions = drop_key token s.sessions }
