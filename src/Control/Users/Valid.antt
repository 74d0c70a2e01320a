-- ===== src/Control/Users/Valid.antt =====
-- The invariant of the accounts of internal/control/store.go.
use cherry_waf.Base.{
  ℕ, ◌≡◌, refl, sym, ap, ◌∙◌, Bool, true, false, Option, none, some, List, [], ◌∷◌, ◌++◌, arith,
  if◌then◌else◌, find_first, Text, nat_eq, string_eq, text_eq,
}
use cherry_waf.Control.{
  Role, User, PersistedUser, State, Store, Reply, is_admin, enabled_admin, has_admin, with_users,
  normalize_username, hash_password, ok, err,
}
use cherry_waf.Control.Users.{
  new_user, save, has_username, create_initial_admin, add_account, create_named, create_user,
  UserUpdate, Edit, edit, user_with_id, replace_user, rehash, with_hash, stamped, changes_password,
  finish_update, on_hash, on_edit, update_found, update_user, delete_user, rejected, edited,
}
use cherry_waf.Control.Login.{Attempt, is_attempted, accept_login, judge_login, finish_login}
use cherry_waf.Control.Users.Kept.{
  ValidUsers, Unique, has_username-NotNamed, Unique-append, has_admin-append, edit_result,
  edit-username, rejected-enabled_admin, replace_user-Unique, replace_user-has_admin,
  remove_user-Unique, set_login-Unique, set_login-has_admin,
}

-- What can change the accounts, with the arguments of the call.
pub data Action : Type 0 where
  setup : Text → Text → Text → Text → ℕ → Option ℕ → Action
  add : Text → Text → Text → Role → Text → ℕ → Option ℕ → Action
  change : Text → UserUpdate → Text → ℕ → Option ℕ → Action
  remove : Text → Text → Option ℕ → Action
  login : Attempt → Bool → ℕ → Option ℕ → Action

module _ (fold : ℕ → ℕ) (derive : Text → Option Text) where
  unfoldable pub apply : Store → Action → Store
  unfolding create_initial_admin create_user update_user delete_user finish_login
  apply s (setup username display password id now written) =
      (create_initial_admin fold derive s username display password id now written).0
  apply s (add username display password role id now written) =
      (create_user fold derive s username display password role id now written).0
  apply s (change id u actor now written) = (update_user derive s id u actor now written).0
  apply s (remove id actor written) = (delete_user s id actor written).0
  apply s (login a password_ok now written) = (finish_login s a password_ok now written).0

  unfoldable pub run : Store → List Action → Store
  unfolding apply
  run s [] = s
  run s (a ∷ rest) = run (apply s a) rest

unfoldable pub Valid : Store → Type 0
Valid s = ValidUsers s.state.users

save-Valid :
    (s : Store) (state : State) (written : Option ℕ) (user : User)
    → Valid s
    → ValidUsers state.users
    → Valid (save s state written user).0
unfolding save Valid
save-Valid s state none user h k = h
save-Valid s state (some now) user h k = k

module _ (fold : ℕ → ℕ) (derive : Text → Option Text) where
  setup-Valid :
      (s : Store) (username display password id : Text) (now : ℕ) (written : Option ℕ)
      → Valid s
      → Valid (create_initial_admin fold derive s username display password id now written).0
  unfolding create_initial_admin Valid ValidUsers save has_admin enabled_admin is_admin
  setup-Valid s username display password id now written h = ground (arith, h)

if-Valid :
    (b : Bool) (x y : Store × Reply User)
    → (b ≡ true → Valid x.0)
    → (b ≡ false → Valid y.0)
    → Valid (if b then x else y).0
if-Valid true x y h k = h refl
if-Valid false x y h k = k refl

add_account-Valid :
    (s : Store) (display name : Text) (role : Role) (id : Text) (now : ℕ) (written : Option ℕ)
    (hashed : Reply Text)
    → Valid s
    → Valid (add_account s display name role id now written hashed).0
unfolding add_account Valid ValidUsers
add_account-Valid s display name role id now written (err e) h = h
add_account-Valid s display name role id now written (ok hash) h =
    if-Valid (has_username name s.state.users) _ _ (λ e. h)
      (λ e.
        save-Valid s (with_users s.state (s.state.users ++ created ∷ [])) written created.user h (
          Unique-append created s.state.users h.0 (has_username-NotNamed name s.state.users e),
          has_admin-append created s.state.users h.1,
        ))
  where
    created : PersistedUser
    created = new_user id name display name role now hash

create_named-Valid :
    (s : Store) (display : Text) (hashed : Reply Text) (role : Role) (id : Text) (now : ℕ)
    (written : Option ℕ) (name : Option Text)
    → Valid s
    → Valid (create_named s display hashed role id now written name).0
unfolding create_named
create_named-Valid s display hashed role id now written none h = h
create_named-Valid s display hashed role id now written (some name) h =
    ground (arith, h, add_account-Valid s display name role id now written hashed h)

finish_update-Valid :
    (s : Store) (p : PersistedUser) (changed : Bool) (actor : Text) (users : List PersistedUser)
    (written : Option ℕ)
    → Valid s
    → Unique users
    → Valid (finish_update s p changed actor users written).0
unfolding finish_update Valid ValidUsers
finish_update-Valid s p changed actor users written h u = ground (arith, h, u)

hash_name :
    (hash : Option Text) (q : PersistedUser) → (with_hash hash q).user.username ≡ q.user.username
hash_name none q = refl
hash_name (some hash) q = refl

on_edit-Valid :
    (s : Store) (id : Text) (p : PersistedUser) (u : UserUpdate) (actor : Text) (now : ℕ)
    (written : Option ℕ) (hashed : Reply (Option Text)) (e : Edit)
    → Valid s
    → user_with_id id s.state.users ≡ some p
    → edit u actor p ≡ e
    → Valid (on_edit s id actor now written hashed e).0
unfolding on_edit on_hash Valid ValidUsers edit_result
on_edit-Valid s id p u actor now written hashed (rejected q e) h found ed = (
  replace_user-Unique id p q s.state.users found
      (sym (ap (λ x. (edit_result x).user.username) ed) ∙ edit-username u actor p) h.0,
  replace_user-has_admin id p q s.state.users found (rejected-enabled_admin u actor p q e ed) h.1,
)
on_edit-Valid s id p u actor now written (err e) (edited q) h found ed = h
on_edit-Valid s id p u actor now written (ok hash) (edited q) h found ed =
    finish_update-Valid s (stamped now (with_hash hash q)) (changes_password hash) actor
      (replace_user id (stamped now (with_hash hash q)) s.state.users) written h
      (replace_user-Unique id p (stamped now (with_hash hash q)) s.state.users found
        (hash_name hash q
          ∙ sym (ap (λ x. (edit_result x).user.username) ed)
          ∙ edit-username u actor p)
        h.0)

delete_user-Valid :
    (s : Store) (id actor : Text) (written : Option ℕ)
    → Valid s
    → Valid (delete_user s id actor written).0
unfolding delete_user Valid ValidUsers
delete_user-Valid s id actor written h = ground (arith, h, remove_user-Unique id s.state.users h.0)

update_found-Valid :
    (derive : Text → Option Text) (s : Store) (id : Text) (u : UserUpdate) (actor : Text) (now : ℕ)
    (written : Option ℕ) (found : Option PersistedUser)
    → Valid s
    → user_with_id id s.state.users ≡ found
    → Valid (update_found derive s id u actor now written found).0
unfolding update_found
update_found-Valid derive s id u actor now written none h e = h
update_found-Valid derive s id u actor now written (some p) h e =
    on_edit-Valid s id p u actor now written (rehash derive u.new_password) (edit u actor p) h e
      refl

judge_login-Valid :
    (s : Store) (a : Attempt) (password_ok : Bool) (now : ℕ) (written : Option ℕ)
    (found : Option PersistedUser)
    → Valid s
    → Valid (judge_login s a password_ok now written found).0
unfolding judge_login accept_login Valid ValidUsers
judge_login-Valid s a password_ok now written none h = h
judge_login-Valid s a password_ok now written (some p) h = ground (
  arith,
  h,
  set_login-Unique a now s.state.users h.0,
  set_login-has_admin a now s.state.users h.1,
)

finish_login-Valid :
    (s : Store) (a : Attempt) (password_ok : Bool) (now : ℕ) (written : Option ℕ)
    → Valid s
    → Valid (finish_login s a password_ok now written).0
unfolding finish_login
finish_login-Valid s a password_ok now written h =
    if-Valid _ _ _ (λ e. h)
      (λ e.
        judge_login-Valid s a password_ok now written (find_first (is_attempted a) s.state.users) h)

module _ (fold : ℕ → ℕ) (derive : Text → Option Text) where
  apply-Valid : (s : Store) (a : Action) → Valid s → Valid (apply fold derive s a)
  unfolding apply create_user update_user
  apply-Valid s (setup name display password id now written) h =
      setup-Valid fold derive s name display password id now written h
  apply-Valid s (add name display password role id now written) h =
      create_named-Valid s display (hash_password derive password) role id now written
        (normalize_username fold name) h
  apply-Valid s (change id u actor now written) h =
      update_found-Valid derive s id u actor now written (user_with_id id s.state.users) h refl
  apply-Valid s (remove id actor written) h = delete_user-Valid s id actor written h
  apply-Valid s (login a password_ok now written) h =
      finish_login-Valid s a password_ok now written h

  -- From the accounts of a finished setup, whatever sequence of setups, additions, changes, removals
  -- and logins follows, each accepted, refused or failing to be written, leaves the usernames distinct
  -- and at least one administrator enabled.
  pub actions-Valid :
      (s : Store) (actions : List Action) → Valid s → Valid (run fold derive s actions)
  unfolding run
  actions-Valid s [] h = h
  actions-Valid s (a ∷ rest) h = actions-Valid (apply fold derive s a) rest (apply-Valid s a h)
