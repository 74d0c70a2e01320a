-- ===== src/Control/Login.antt =====
-- Logging in: authenticate and pruneFailuresLocked of internal/control/store.go.
pub mod Sound
pub mod Failures
pub mod Lockout
use cherry_waf.Base.{
  ℕ, zero, suc, ◌+◌, ◌-◌, ◌*◌, ◌/◌, ◌%◌, ◌^◌, ◌≤◌, ◌<◌, min, max, String, ◌≡◌, refl, sym, ap, subst,
  fun_ext, ◌∙◌, ◌≢◌, ◌↔◌, ◌⊎◌, inl, inr, Bool, true, false, not, ◌&&◌, ◌||◌, Option, none, some,
  List, [], ◌∷◌, ◌++◌, map, arith, eq_iff, ltb, leb, if◌then◌else◌, ltb→lt, lt→ltb, leb→le, nat_beq,
  nat_beq_iff, Bool-cases, Option-cases, length, get_elem?, take, drop, In, All, any, all, keep_if,
  find_first, length-append, length-take-le, length-keep_if-le, In-keep_if, In-keep_if_of, All-In,
  find_first-some, find_first-none, Eq, ◌==◌, list_beq, list_beq_iff, ==_refl, Text, codes, nat_eq,
  string_eq, text_eq, if_both, between, is_space, trim_left, trim_right, trim_space, rune_len,
  byte_len, strip_prefix, strip_suffix, to_lower, ◌>>=◌,
}
use cherry_waf.Base.Assoc.{get, put, drop_key}
use cherry_waf.Control.{
  Role, User, PersistedUser, State, Session, LoginFailure, Store, Error, Reply, is_admin,
  valid_role, role_level, enabled_admin, has_admin, with_users, with_state, saved_at,
  setup_completed, username_rune, normalize_username, other_rune, validate_password, hash_password,
  viewer, operator, admin, other_role, invalid_username, invalid_password, setup_done, save_failed,
  username_taken, invalid_role, not_found, empty_display_name, own_role, own_account, no_admin,
  login_blocked, login_failed, ok, err,
}

abbrev pub fifteen_minutes : ℕ
fifteen_minutes = 900000000000

abbrev thirty_minutes : ℕ
thirty_minutes = 1800000000000

abbrev pub no_failure : LoginFailure
no_failure = record { count = 0; window_start = 0; blocked_until = 0 }

abbrev pub or_no_failure : Option LoginFailure → LoginFailure
or_no_failure none = no_failure
or_no_failure (some failure) = failure

-- `s.failures[key]`
unfoldable pub failure_of : Text → List (Text × LoginFailure) → LoginFailure
unfolding get
failure_of key failures = or_no_failure (get key failures)

unfoldable pub stale : ℕ → LoginFailure → Bool
stale now f =
    not (nat_beq f.window_start 0)
    && ltb (f.window_start + thirty_minutes) now
    && (nat_beq f.blocked_until 0 || not (ltb now f.blocked_until))

-- Go deletes any entries of the map down to 8,192; here the first of the list.
unfoldable pub prune_failures : ℕ → List (Text × LoginFailure) → List (Text × LoginFailure)
unfolding keep_if stale
prune_failures now failures =
    if ltb (length failures) 1024
    then failures
    else let kept = keep_if (λ e. not (stale now e.1)) failures in drop (length kept - 8192) kept

-- The attempt that the first locked part hands to the second: the account's ID, empty when the name
-- is not known, and the hash to check.
pub record Attempt : Type 0 where
  pub key : Text
  pub username : Text
  pub user_id : Text
  pub encoded : Text

abbrev pub dummy_password_hash : Text
dummy_password_hash =
    codes "pbkdf2-sha256$310000$MDEyMzQ1Njc4OWFiY2RlZg$lv7QgaHREeVBg5pIrJ0xjilHOruDnf1Tc7lmvDusOWc"

abbrev pub login_key : Text → Text → Text
login_key remote username = remote ++ b'|' ∷ username

pub attempt_of : Text → Text → Option PersistedUser → Attempt
attempt_of key username none = record {
  key = key;
  username = username;
  user_id = [];
  encoded = dummy_password_hash;
}
attempt_of key username (some p) = record {
  key = key;
  username = username;
  user_id = p.user.id;
  encoded = p.password_hash;
}

-- The first locked part of `authenticate`.
unfoldable pub begin_login : Store → Text → Text → ℕ → Store × Reply Attempt
unfolding failure_of prune_failures find_first attempt_of
begin_login s remote username now =
    let key = login_key remote username in
    let s = record s { failures = prune_failures now s.failures } in
    let until = (failure_of key s.failures).blocked_until in
    if ltb now until then (s, err (login_blocked until)) else (
      s,
      ok (attempt_of key username (find_first (λ p. p.user.username == username) s.state.users)),
    )

-- The failure that a rejected attempt records.
abbrev pub restart_window : ℕ → LoginFailure → LoginFailure
restart_window now f =
    if nat_beq f.window_start 0 || ltb (f.window_start + fifteen_minutes) now
    then record { count = 0; window_start = now; blocked_until = 0 }
    else f

unfoldable pub count_failure : ℕ → LoginFailure → LoginFailure
count_failure now f =
    let f = restart_window now f in
    let f = record f { count = f.count + 1 } in
    if leb 8 f.count then record f { blocked_until = now + fifteen_minutes } else f

-- The account that the attempt was read from, if it still stands as it was.
abbrev pub is_attempted : Attempt → PersistedUser → Bool
is_attempted a p =
    p.user.id == a.user_id && (p.user.username == a.username && p.password_hash == a.encoded)

unfoldable pub set_login : Attempt → ℕ → List PersistedUser → List PersistedUser
set_login a now [] = []
set_login a now (p ∷ ps) =
    if is_attempted a p
    then record p { user = record p.user { last_login_at = now; updated_at = now } } ∷ ps
    else p ∷ set_login a now ps

abbrev pub reject_login : Store → Attempt → ℕ → Store
reject_login s a now = record s {
  failures = put a.key (count_failure now (failure_of a.key s.failures)) s.failures;
}

unfoldable pub accept_login : Store → Attempt → ℕ → Option ℕ → PersistedUser → Store × Reply User
unfolding set_login drop_key
accept_login s a now written p =
    let s = record s { failures = drop_key a.key s.failures } in
    elim written [
      | none ↦ (s, err save_failed)
      | some saved ↦ (
        with_state s (saved_at saved (with_users s.state (set_login a now s.state.users))),
        ok (record p.user { last_login_at = now; updated_at = now }),
      )
    ]

unfoldable pub judge_login :
    Store → Attempt → Bool → ℕ → Option ℕ → Option PersistedUser → Store × Reply User
unfolding accept_login count_failure failure_of put
judge_login s a password_ok now written none = (reject_login s a now, err login_failed)
judge_login s a password_ok now written (some p) =
    if not p.user.disabled && password_ok
    then accept_login s a now written p
    else (reject_login s a now, err login_failed)

-- The second locked part, with what verifying the password gave.
unfoldable pub finish_login : Store → Attempt → Bool → ℕ → Option ℕ → Store × Reply User
unfolding judge_login failure_of find_first
finish_login s a password_ok now written =
    let until = (failure_of a.key s.failures).blocked_until in
    if ltb now until
    then (s, err (login_blocked until))
    else judge_login s a password_ok now written (find_first (is_attempted a) s.state.users)

-- `verify` is verifyPassword, and `meanwhile` what other requests do to the store while it runs.
module _ (fold : ℕ → ℕ) (verify : Text → Text → Bool) (meanwhile : Store → Store) where
  unfoldable pub resume : Text → ℕ → Option ℕ → Store × Reply Attempt → Store × Reply User
  unfolding finish_login
  resume password now written (s, err e) = (s, err e)
  resume password now written (s, ok a) =
      finish_login (meanwhile s) a (verify a.encoded password) now written

  unfoldable pub authenticate : Store → Text → Text → Text → ℕ → ℕ → Option ℕ → Store × Reply User
  unfolding resume begin_login to_lower
  authenticate s username password remote now later written =
      let username = map (to_lower fold) (trim_space username) in
      resume password later written (begin_login s remote username now)
