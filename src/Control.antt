-- ===== src/Control.antt =====
-- The control service's store of accounts and sessions: types.go and store.go of internal/control. A
-- time is a number of nanoseconds since Go's zero time; each call takes the readings of the clock it
-- makes, the random values it draws and whether its write of the state file succeeds.
pub mod Users
pub mod Bundle
pub mod Login
pub mod Sessions
use cherry_waf.Base.{
  ℕ, zero, suc, ◌+◌, ◌-◌, ◌*◌, ◌/◌, ◌%◌, ◌^◌, ◌≤◌, ◌<◌, min, max, String, ◌≡◌, refl, sym, ap, subst,
  fun_ext, ◌∙◌, ◌≢◌, ◌↔◌, ◌⊎◌, inl, inr, Bool, true, false, not, ◌&&◌, ◌||◌, Option, none, some,
  List, [], ◌∷◌, ◌++◌, map, arith, eq_iff, ltb, leb, if◌then◌else◌, ltb→lt, lt→ltb, leb→le, nat_beq,
  nat_beq_iff, Bool-cases, Option-cases, length, get_elem?, take, drop, In, All, any, all, keep_if,
  find_first, length-append, length-take-le, length-keep_if-le, In-keep_if, In-keep_if_of, All-In,
  find_first-some, find_first-none, Eq, ◌==◌, list_beq, list_beq_iff, ==_refl, Text, codes, nat_eq,
  string_eq, text_eq, if_both, between, is_space, trim_left, trim_right, trim_space, rune_len,
  byte_len, strip_prefix, strip_suffix, to_lower, ◌>>=◌,
}

pub data Role : Type 0 where
  viewer : Role
  operator : Role
  admin : Role
  other_role : Text → Role

pub record User : Type 0 where
  pub id : Text
  pub username : Text
  pub display_name : Text
  pub role : Role
  pub disabled : Bool
  pub created_at : ℕ
  pub updated_at : ℕ
  pub last_login_at : ℕ

pub record PersistedUser : Type 0 where
  pub user : User
  pub password_hash : Text

pub record State : Type 0 where
  pub version : ℕ
  pub setup_completed : Bool
  pub users : List PersistedUser
  pub created_at : ℕ
  pub updated_at : ℕ

pub record Session : Type 0 where
  pub token : Text
  pub csrf_token : Text
  pub user_id : Text
  pub expires_at : ℕ

pub record LoginFailure : Type 0 where
  pub count : ℕ
  pub window_start : ℕ
  pub blocked_until : ℕ

pub record Store : Type 0 where
  pub state : State
  pub sessions : List (Text × Session)
  pub failures : List (Text × LoginFailure)

pub data Error : Type 0 where
  invalid_username : Error
  invalid_password : Error
  no_salt : Error
  setup_done : Error
  save_failed : Error
  username_taken : Error
  invalid_role : Error
  not_found : Error
  empty_display_name : Error
  own_role : Error
  own_account : Error
  no_admin : Error
  login_blocked : ℕ → Error
  login_failed : Error

pub data Reply (A : Type 0) : Type 0 where
  ok : A → Reply A
  err : Error → Reply A

pub is_admin : Role → Bool
is_admin admin = true
is_admin viewer = false
is_admin operator = false
is_admin (other_role name) = false

-- `validRole`
unfoldable pub valid_role : Role → Bool
valid_role viewer = true
valid_role operator = true
valid_role admin = true
valid_role (other_role name) = false

-- `roleLevel`
pub role_level : Role → ℕ
role_level admin = 3
role_level operator = 2
role_level viewer = 1
role_level (other_role name) = 0

-- `ensureAdminLocked`
pub enabled_admin : PersistedUser → Bool
unfolding is_admin
enabled_admin p = is_admin p.user.role && not p.user.disabled

unfoldable pub has_admin : List PersistedUser → Bool
unfolding enabled_admin
has_admin users = any enabled_admin users

abbrev pub with_users : State → List PersistedUser → State
with_users s users = record s { users = users }

abbrev pub with_state : Store → State → Store
with_state s state = record s { state = state }

-- `saveLocked` when the write succeeds, at the time it reads.
abbrev pub saved_at : ℕ → State → State
saved_at now s = record s { version = 1; updated_at = now }

-- `setupCompleted`
pub setup_completed : Store → Bool
setup_completed s = s.state.setup_completed && ltb 0 (length s.state.users)

-- `normalizeUsername`; `fold` lowers a rune outside ASCII.
pub username_rune : ℕ → Bool
username_rune c =
    between b'a' b'z' c || between b'0' b'9' c || nat_beq c b'-' || nat_beq c b'_' || nat_beq c b'.'

unfoldable pub normalize_username : (ℕ → ℕ) → Text → Option Text
unfolding to_lower username_rune
normalize_username fold value =
    let name = map (to_lower fold) (trim_space value) in
    if ltb (byte_len name) 3 || ltb 64 (byte_len name)
    then none
    else if all username_rune name
    then some name
    else none

-- `validatePassword`
pub other_rune : ℕ → Bool
other_rune c = not (between b'a' b'z' c || between b'A' b'Z' c || between b'0' b'9' c)

unfoldable pub validate_password : Text → Bool
unfolding other_rune
validate_password p =
    leb 12 (byte_len p)
    && leb (byte_len p) 256
    && (any (between b'a' b'z') p
        && any (between b'A' b'Z') p
        && any (between b'0' b'9') p
        && any other_rune p)

-- `hashPassword`. `derive` draws the salt, which can fail, and encodes the key of PBKDF2.
unfoldable pub hash_password : (Text → Option Text) → Text → Reply Text
unfolding validate_password
hash_password derive p =
    if not (validate_password p)
    then err invalid_password
    else (elim (derive p) [ none ↦ err no_salt | some hash ↦ ok hash ])
