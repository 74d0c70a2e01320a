-- ===== src/Control/Users.antt =====
-- The accounts: createInitialAdmin, createUser, updateUser and deleteUser of internal/control/store.go.
pub mod Kept
pub mod Valid
pub mod Sessions
use cherry_waf.Base.{
  ℕ, zero, suc, ◌+◌, ◌-◌, ◌*◌, ◌/◌, ◌%◌, ◌^◌, ◌≤◌, ◌<◌, min, max, String, ◌≡◌, refl, sym, ap, subst,
  fun_ext, ◌∙◌, ◌≢◌, ◌↔◌, ◌⊎◌, inl, inr, Bool, true, false, not, ◌&&◌, ◌||◌, Option, none, some,
  List, [], ◌∷◌, ◌++◌, map, arith, eq_iff, ltb, leb, if◌then◌else◌, ltb→lt, lt→ltb, leb→le, nat_beq,
  nat_beq_iff, Bool-cases, Option-cases, length, get_elem?, take, drop, In, All, any, all, keep_if,
  find_first, length-append, length-take-le, length-keep_if-le, In-keep_if, In-keep_if_of, All-In,
  find_first-some, find_first-none, Eq, ◌==◌, list_beq, list_beq_iff, ==_refl, Text, codes, nat_eq,
  string_eq, text_eq, if_both, between, is_space, trim_left, trim_right, trim_space, rune_len,
  byte_len, strip_prefix, strip_suffix, to_lower, ◌>>=◌,
}
use cherry_waf.Base.Assoc.{get, put}
use cherry_waf.Control.{
  Role, User, PersistedUser, State, Session, LoginFailure, Store, Error, Reply, is_admin,
  valid_role, role_level, enabled_admin, has_admin, with_users, with_state, saved_at,
  setup_completed, username_rune, normalize_username, other_rune, validate_password, hash_password,
  viewer, operator, admin, other_role, invalid_username, invalid_password, setup_done, save_failed,
  username_taken, invalid_role, not_found, empty_display_name, own_role, own_account, no_admin,
  login_blocked, login_failed, ok, err,
}

abbrev default_name : Text
default_name = codes "CherryWAF Administrator"

-- The display name, or what stands in for an empty one.
abbrev pub display_or : Text → Text → Text
display_or fallback name = let name = trim_space name in if name == [] then fallback else name

abbrev pub new_user : Text → Text → Text → Text → Role → ℕ → Text → PersistedUser
new_user id username display fallback role now hash = record {
  user = record {
    id = id;
    username = username;
    display_name = display_or fallback display;
    role = role;
    disabled = false;
    created_at = now;
    updated_at = now;
    last_login_at = 0;
  };
  password_hash = hash;
}

-- The end of a change: the state as written, or as it was before when the write fails.
unfoldable pub save : Store → State → Option ℕ → User → Store × Reply User
save s state none user = (s, err save_failed)
save s state (some now) user = (with_state s (saved_at now state), ok user)

unfoldable pub has_username : Text → List PersistedUser → Bool
has_username name users = any (λ p. p.user.username == name) users

module _ (fold : ℕ → ℕ) (derive : Text → Option Text) where
  -- `id` is what `newID` draws, `written` the time of the write of the state file when it succeeds.
  unfoldable pub create_initial_admin :
      Store → Text → Text → Text → Text → ℕ → Option ℕ → Store × Reply User
  unfolding save hash_password normalize_username
  create_initial_admin s username display password id now written =
      elim (normalize_username fold username) [
        | none ↦ (s, err invalid_username)
        | some name ↦ elim (hash_password derive password) [
          | err e ↦ (s, err e)
          | ok hash ↦
              if s.state.setup_completed || ltb 0 (length s.state.users)
              then (s, err setup_done)
              else let created = new_user id name display default_name admin now hash in
                let state = record (with_users s.state (created ∷ [])) { setup_completed = true } in
                save s state written created.user
        ]
      ]

-- `createUser` once the password is hashed, and once the name is in its normal form.
unfoldable pub add_account :
    Store → Text → Text → Role → Text → ℕ → Option ℕ → Reply Text → Store × Reply User
unfolding save has_username
add_account s display name role id now written (err e) = (s, err e)
add_account s display name role id now written (ok hash) =
    if has_username name s.state.users
    then (s, err username_taken)
    else let created = new_user id name display name role now hash in
      save s (with_users s.state (s.state.users ++ created ∷ [])) written created.user

unfoldable pub create_named :
    Store → Text → Reply Text → Role → Text → ℕ → Option ℕ → Option Text → Store × Reply User
unfolding add_account
create_named s display hashed role id now written none = (s, err invalid_username)
create_named s display hashed role id now written (some name) =
    if not (valid_role role)
    then (s, err invalid_role)
    else add_account s display name role id now written hashed

unfoldable pub create_user :
    (ℕ → ℕ)
    → (Text → Option Text)
    → Store
    → Text
    → Text
    → Text
    → Role
    → Text
    → ℕ
    → Option ℕ
    → Store × Reply User
unfolding create_named hash_password normalize_username
create_user fold derive s username display password role id now written =
    create_named s display (hash_password derive password) role id now written
      (normalize_username fold username)

-- `userUpdate`
pub record UserUpdate : Type 0 where
  pub new_name : Option Text
  pub new_role : Option Role
  pub new_disabled : Option Bool
  pub new_password : Option Text

-- The record as edited so far, in place; a rejected edit leaves it there.
pub data Edit : Type 0 where
  rejected : PersistedUser → Error → Edit
  edited : PersistedUser → Edit

pub edit_name : Option Text → PersistedUser → Edit
edit_name none p = edited p
edit_name (some name) p =
    let name = trim_space name in
    if name == []
    then rejected p empty_display_name
    else edited (record p { user = record p.user { display_name = name } })

pub edit_role : Option Role → Text → PersistedUser → Edit
edit_role none actor p = edited p
edit_role (some role) actor p =
    if not (valid_role role)
    then rejected p invalid_role
    else if p.user.id == actor && not (is_admin role)
    then rejected p own_role
    else edited (record p { user = record p.user { role = role } })

pub edit_disabled : Option Bool → Text → PersistedUser → Edit
edit_disabled none actor p = edited p
edit_disabled (some disabled) actor p =
    if p.user.id == actor && disabled
    then rejected p own_account
    else edited (record p { user = record p.user { disabled = disabled } })

abbrev pub then_edit : Edit → (PersistedUser → Edit) → Edit
then_edit (rejected p e) next = rejected p e
then_edit (edited p) next = next p

unfoldable pub edit : UserUpdate → Text → PersistedUser → Edit
unfolding edit_name edit_role edit_disabled
edit u actor p =
    then_edit (then_edit (edit_name u.new_name p) (edit_role u.new_role actor))
      (edit_disabled u.new_disabled actor)

-- The first user with the ID, and the same user replaced or taken out.
unfoldable pub user_with_id : Text → List PersistedUser → Option PersistedUser
unfolding find_first
user_with_id id users = find_first (λ p. p.user.id == id) users

unfoldable pub replace_user : Text → PersistedUser → List PersistedUser → List PersistedUser
replace_user id new [] = []
replace_user id new (p ∷ ps) = if p.user.id == id then new ∷ ps else p ∷ replace_user id new ps

unfoldable pub remove_user : Text → List PersistedUser → List PersistedUser
remove_user id [] = []
remove_user id (p ∷ ps) = if p.user.id == id then ps else p ∷ remove_user id ps

module _ (derive : Text → Option Text) where
  -- The new hash: none when the password is not changed.
  unfoldable pub rehash : Option Text → Reply (Option Text)
  unfolding hash_password
  rehash none = ok none
  rehash (some password) =
      if password == []
      then ok none
      else (elim (hash_password derive password) [ err e ↦ err e | ok hash ↦ ok (some hash) ])

abbrev pub with_hash : Option Text → PersistedUser → PersistedUser
with_hash none p = p
with_hash (some hash) p = record p { password_hash = hash }

abbrev pub stamped : ℕ → PersistedUser → PersistedUser
stamped now p = record p { user = record p.user { updated_at = now } }

abbrev pub changes_password : Option Text → Bool
changes_password none = false
changes_password (some hash) = true

abbrev pub spared : PersistedUser → Text → Text × Session → Bool
spared p actor e = not (e.1.user_id == p.user.id && (not (p.user.id == actor) || p.user.disabled))

-- The sessions that a change ends: all of the user's, but for a change of one's own password.
abbrev pub end_sessions :
    PersistedUser → Bool → Text → List (Text × Session) → List (Text × Session)
end_sessions p password_changed actor sessions =
    if p.user.disabled || password_changed then keep_if (spared p actor) sessions else sessions

-- What `ensureAdminLocked` found, the write, and then the sessions.
unfoldable pub finish_change :
    Store → PersistedUser → Bool → Text → List PersistedUser → Option ℕ → Bool → Store × Reply User
finish_change s p password_changed actor users written false = (s, err no_admin)
finish_change s p password_changed actor users none true = (s, err save_failed)
finish_change s p password_changed actor users (some now) true = (
  record s {
    state = saved_at now (with_users s.state users);
    sessions = end_sessions p password_changed actor s.sessions;
  },
  ok p.user,
)

unfoldable pub finish_update :
    Store → PersistedUser → Bool → Text → List PersistedUser → Option ℕ → Store × Reply User
unfolding has_admin finish_change
finish_update s p password_changed actor users written =
    finish_change s p password_changed actor users written (has_admin users)

unfoldable pub on_hash :
    Store → Text → PersistedUser → Text → ℕ → Option ℕ → Reply (Option Text) → Store × Reply User
unfolding finish_update replace_user
on_hash s id p actor now written (err e) = (s, err e)
on_hash s id p actor now written (ok hash) =
    let p = stamped now (with_hash hash p) in
    finish_update s p (changes_password hash) actor (replace_user id p s.state.users) written

unfoldable pub on_edit :
    Store → Text → Text → ℕ → Option ℕ → Reply (Option Text) → Edit → Store × Reply User
unfolding on_hash replace_user
on_edit s id actor now written hashed (rejected p e) =
    (with_state s (with_users s.state (replace_user id p s.state.users)), err e)
on_edit s id actor now written hashed (edited p) = on_hash s id p actor now written hashed

unfoldable pub update_found :
    (Text → Option Text)
    → Store
    → Text
    → UserUpdate
    → Text
    → ℕ
    → Option ℕ
    → Option PersistedUser
    → Store × Reply User
unfolding on_edit edit rehash
update_found derive s id u actor now written none = (s, err not_found)
update_found derive s id u actor now written (some p) =
    on_edit s id actor now written (rehash derive u.new_password) (edit u actor p)

unfoldable pub update_user :
    (Text → Option Text) → Store → Text → UserUpdate → Text → ℕ → Option ℕ → Store × Reply User
unfolding update_found user_with_id
update_user derive s id u actor now written =
    update_found derive s id u actor now written (user_with_id id s.state.users)

unfoldable pub delete_user : Store → Text → Text → Option ℕ → Store × Reply Unit
unfolding user_with_id remove_user has_admin
delete_user s id actor written =
    if id == actor then (s, err own_account) else (elim (user_with_id id s.state.users) [
      | none ↦ (s, err not_found)
      | some p ↦
          let users = remove_user id s.state.users in
          if not (has_admin users) then (s, err no_admin) else (elim written [
            | none ↦ (s, err save_failed)
            | some now ↦ (
              record s {
                state = saved_at now (with_users s.state users);
                sessions = keep_if (λ e. not (e.1.user_id == id)) s.sessions;
              },
              ok tt,
            )
          ])
    ])
