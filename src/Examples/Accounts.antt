-- ===== src/Examples/Accounts.antt =====
-- The store of internal/control/store.go at concrete accounts.
use cherry_waf.Base.{
  ℕ, ◌+◌, ◌≡◌, refl, Bool, true, not, Option, none, some, [], ◌∷◌, ◌++◌, map, arith, In, find_first,
  ◌==◌, Text, codes, nat_eq, string_eq, text_eq, is_space, trim_left, trim_right, trim_space,
  to_lower,
}
use cherry_waf.Control.{
  Role, User, PersistedUser, Session, Store, Reply, valid_role, has_admin, with_users, with_state,
  viewer, admin, other_role, invalid_role, login_blocked, err,
}
use cherry_waf.Control.Users.{new_user, UserUpdate, user_with_id, replace_user, update_user}
use cherry_waf.Control.Sessions.{new_session, session_principal}
use cherry_waf.Control.Login.{
  fifteen_minutes, failure_of, begin_login, prune_failures, authenticate,
}
use cherry_waf.Control.Users.Kept.{ValidUsers}
use cherry_waf.Control.Users.Valid.{change, remove, run, Valid, actions-Valid}
use cherry_waf.Control.Users.Sessions.{SignedOut, disabled_user-SignedOut, rejected_update_renames}
use cherry_waf.Control.Sessions.Sound.{Stands, session_principal_sound}
use cherry_waf.Control.Login.Sound.{Admits, authenticate_sound}
use cherry_waf.Control.Login.Lockout.{log_in_all, eight_failures_block}

abbrev account : Text → Text → Role → PersistedUser
account id name role = new_user id name name name role 1 (codes "hash")

abbrev root : PersistedUser
root = account (codes "u1") (codes "root") admin

abbrev guest : PersistedUser
guest = account (codes "u2") (codes "guest") viewer

abbrev guest_session : Session
guest_session = new_session (codes "u2") (codes "t") (codes "c") 5

abbrev store : Store
store = record {
  state = record {
    version = 1;
    setup_completed = true;
    users = root ∷ guest ∷ [];
    created_at = 1;
    updated_at = 1;
  };
  sessions = (codes "t", guest_session) ∷ [];
  failures = [];
}

abbrev fold : ℕ → ℕ
fold c = c

abbrev derive : Text → Option Text
derive password = some (codes "hash")

abbrev verify : Text → Text → Bool
verify hash password = password == codes "secret"

abbrev update : UserUpdate
update = record { new_name = none; new_role = none; new_disabled = some true; new_password = none }

store-Valid : Valid store
unfolding Valid ValidUsers has_admin
store-Valid = ground arith

actions-Valid_example : Valid (
    run fold derive store (
      remove (codes "u1") (codes "u2") (some 9)
      ∷ change (codes "u2") update (codes "u1") 7 (some 7)
      ∷ []))
actions-Valid_example =
    actions-Valid fold derive store
      (remove (codes "u1") (codes "u2") (some 9)
        ∷ change (codes "u2") update (codes "u1") 7 (some 7)
        ∷ [])
      store-Valid

abbrev guest_disabled : Store × Reply User
guest_disabled = update_user derive store (codes "u2") update (codes "u1") 7 (some 7)

abbrev disabled_guest : User
disabled_guest = record guest.user { disabled = true; updated_at = 7 }

disabled_user-SignedOut_example : SignedOut (codes "u2") guest_disabled.0.sessions
unfolding update_user
disabled_user-SignedOut_example =
    disabled_user-SignedOut derive store (codes "u2") update (codes "u1") 7 (some 7)
      guest_disabled.0 disabled_guest refl refl

abbrev renaming : UserUpdate
renaming = record {
  new_name = some (codes "New");
  new_role = some (other_role (codes "owner"));
  new_disabled = none;
  new_password = none;
}

rejected_update_renames_example :
    update_user derive store (codes "u2") renaming (codes "u1") 7 (some 7) ≡ (
      with_state store (
          with_users store.state (
            replace_user
              (codes "u2")
              (record guest {
                user = record guest.user { display_name = trim_space (codes "New") };
              })
              store.state.users)),
      err invalid_role,
    )
unfolding user_with_id find_first trim_space trim_left trim_right is_space valid_role
rejected_update_renames_example =
    rejected_update_renames derive store (codes "u2") (codes "New") (other_role (codes "owner"))
      renaming (codes "u1") 7 (some 7) guest refl refl refl refl refl

session_principal_sound_example : Stands store (codes "t") 9 guest.user guest_session
unfolding session_principal
session_principal_sound_example =
    session_principal_sound store (codes "t") 9 (session_principal store (codes "t") 9).0 guest.user
      guest_session (refl, tt) refl

abbrev guest_login : Store × Reply User
guest_login =
    authenticate fold verify (λ s. s) store (codes " Guest") (codes "secret") (codes "192.0.2.1") 9
      10 (some 11)

authenticate_sound_example :
    (p : PersistedUser) × In p
      (begin_login store
        (codes "192.0.2.1")
        (map (to_lower fold) (trim_space (codes " Guest")))
        9).0.state.users
    × Admits verify (map (to_lower fold) (trim_space (codes " Guest"))) (codes "secret") p
    × (codes "u2" ≡ p.user.id)
unfolding authenticate trim_space
authenticate_sound_example =
    authenticate_sound fold verify (λ s. s) store (codes " Guest") (codes "secret")
      (codes "192.0.2.1") 9 10 (some 11) guest_login.0
      (record guest.user { last_login_at = 10; updated_at = 10 }) refl

-- Logins at which the password `guess` fails and any other is right.
abbrev is_right : Text → Text → Bool
is_right hash password = not (password == codes "guess")

abbrev guesses : Store
guesses =
    log_in_all fold is_right (λ s. s) (λ s. refl) (codes "192.0.2.1") (codes " Guest")
      (codes "guess") (λ hash. refl)
      ((0, 1) ∷ ((1, 2) ∷ (2, 3) ∷ (3, 4) ∷ (4, 5) ∷ (5, 6) ∷ (6, 7) ∷ []) ++ (7, 8) ∷ []) store

eight_failures_block_example :
    authenticate fold is_right
      (λ s. s)
      guesses
      (codes " Guest")
      (codes "secret")
      (codes "192.0.2.1")
      9
      10
      (some 10)
    ≡ (
      record guesses { failures = prune_failures 9 guesses.failures },
      err (login_blocked (8 + fifteen_minutes)),
    )
unfolding failure_of
eight_failures_block_example =
    eight_failures_block fold is_right (λ s. s) (λ s. refl) (codes "192.0.2.1") (codes " Guest")
      (codes "guess") (λ hash. refl) store (0, 1) (7, 8)
      ((1, 2) ∷ (2, 3) ∷ (3, 4) ∷ (4, 5) ∷ (5, 6) ∷ (6, 7) ∷ []) (codes "secret") 9 10 (some 10)
      refl (omega arith) (omega arith) refl (ground arith) (ground arith) (omega arith)
