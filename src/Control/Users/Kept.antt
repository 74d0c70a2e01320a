-- ===== src/Control/Users/Kept.antt =====
-- What the changes of accounts keep, for internal/control/store.go.
use cherry_waf.Base.{
  ℕ, ◌≡◌, sym, ap, subst, ◌∙◌, inl, inr, true, false, some, List, [], ◌∷◌, ◌++◌, arith, Bool-cases,
  In, All, find_first, All-In, find_first-some, ◌==◌, Text, nat_eq, string_eq, text_eq,
}
use cherry_waf.Control.{PersistedUser, Error, is_admin, enabled_admin, has_admin}
use cherry_waf.Control.Login.{Attempt, is_attempted, set_login}
use cherry_waf.Control.Users.{
  has_username, UserUpdate, Edit, edit_name, edit_role, edit_disabled, edit, user_with_id,
  replace_user, remove_user, rejected, edited,
}

-- No two accounts share a username, and one is an enabled administrator.
abbrev pub NotNamed : Text → List PersistedUser → Type 0
NotNamed name users = All (λ p. (p.user.username == name) ≡ false) users

abbrev pub Unique : List PersistedUser → Type 0
Unique [] = Unit
Unique (p ∷ ps) = NotNamed p.user.username ps × Unique ps

unfoldable pub ValidUsers : List PersistedUser → Type 0
ValidUsers users = Unique users × (has_admin users ≡ true)

pub has_username-NotNamed :
    (name : Text) (users : List PersistedUser)
    → has_username name users ≡ false
    → NotNamed name users
unfolding has_username
has_username-NotNamed name [] h = tt
has_username-NotNamed name (p ∷ ps) h = ground (arith, has_username-NotNamed name ps)

==_flip : (s t : Text) → (t == s) ≡ false → (s == t) ≡ false
==_flip s t h = ground (arith, text_eq.same_iff s t, text_eq.same_iff t s)

pub NotNamed-append :
    (name : Text) (p : PersistedUser) (users : List PersistedUser)
    → NotNamed name users
    → (p.user.username == name) ≡ false
    → NotNamed name (users ++ p ∷ [])
NotNamed-append name p [] h k = (k, tt)
NotNamed-append name p (q ∷ qs) h k = (h.0, NotNamed-append name p qs h.1 k)

pub Unique-append :
    (p : PersistedUser) (users : List PersistedUser)
    → Unique users
    → NotNamed p.user.username users
    → Unique (users ++ p ∷ [])
Unique-append p [] u h = (tt, tt)
Unique-append p (q ∷ qs) u h = (
  NotNamed-append q.user.username p qs u.0 (==_flip p.user.username q.user.username h.0),
  Unique-append p qs u.1 h.1,
)

pub has_admin-append :
    (p : PersistedUser) (users : List PersistedUser)
    → has_admin users ≡ true
    → has_admin (users ++ p ∷ []) ≡ true
unfolding has_admin
has_admin-append p [] h = cc
has_admin-append p (q ∷ qs) h = ground (arith, has_admin-append p qs)

pub replace_user-NotNamed :
    (name id : Text) (new : PersistedUser) (users : List PersistedUser)
    → NotNamed name users
    → (new.user.username == name) ≡ false
    → NotNamed name (replace_user id new users)
unfolding replace_user
replace_user-NotNamed name id new [] h k = tt
replace_user-NotNamed name id new (p ∷ ps) h k = elim (Bool-cases (p.user.id == id)) [
  | inl e ↦ rw e (k, h.1)
  | inr e ↦ rw e (h.0, replace_user-NotNamed name id new ps h.1 k)
]

remove_user-NotNamed :
    (name id : Text) (users : List PersistedUser)
    → NotNamed name users
    → NotNamed name (remove_user id users)
unfolding remove_user
remove_user-NotNamed name id [] h = tt
remove_user-NotNamed name id (p ∷ ps) h = elim (Bool-cases (p.user.id == id)) [
  | inl e ↦ rw e h.1
  | inr e ↦ rw e (h.0, remove_user-NotNamed name id ps h.1)
]

pub remove_user-Unique :
    (id : Text) (users : List PersistedUser) → Unique users → Unique (remove_user id users)
unfolding remove_user
remove_user-Unique id [] u = tt
remove_user-Unique id (p ∷ ps) u = elim (Bool-cases (p.user.id == id)) [
  | inl e ↦ rw e u.1
  | inr e ↦ rw e (remove_user-NotNamed p.user.username id ps u.0, remove_user-Unique id ps u.1)
]

-- An edit, accepted or not, keeps the name.
unfoldable pub edit_result : Edit → PersistedUser
edit_result (rejected p e) = p
edit_result (edited p) = p

pub edit-username :
    (u : UserUpdate) (actor : Text) (p : PersistedUser)
    → (edit_result (edit u actor p)).user.username ≡ p.user.username
unfolding edit edit_name edit_role edit_disabled edit_result
edit-username u actor p = ground arith

-- A rejected edit does not take an administrator away.
pub rejected-enabled_admin :
    (u : UserUpdate) (actor : Text) (p q : PersistedUser) (e : Error)
    → edit u actor p ≡ rejected q e
    → enabled_admin p ≡ true
    → enabled_admin q ≡ true
unfolding edit edit_name edit_role edit_disabled enabled_admin is_admin
rejected-enabled_admin u actor p q e h k = ground arith

found_head :
    (id : Text) (p r : PersistedUser) (rs : List PersistedUser)
    → (r.user.id == id) ≡ true
    → user_with_id id (r ∷ rs) ≡ some p
    → r ≡ p
unfolding user_with_id find_first
found_head id p r rs e found = ground arith

found_tail :
    (id : Text) (p r : PersistedUser) (rs : List PersistedUser)
    → (r.user.id == id) ≡ false
    → user_with_id id (r ∷ rs) ≡ some p
    → user_with_id id rs ≡ some p
unfolding user_with_id find_first
found_tail id p r rs e found = ground arith

found-In :
    (id : Text) (p : PersistedUser) (users : List PersistedUser)
    → user_with_id id users ≡ some p
    → In p users
unfolding user_with_id
found-In id p users found = (find_first-some (λ x. x.user.id == id) users p found).0

pub replace_user-Unique :
    (id : Text) (p q : PersistedUser) (users : List PersistedUser)
    → user_with_id id users ≡ some p
    → q.user.username ≡ p.user.username
    → Unique users
    → Unique (replace_user id q users)
unfolding replace_user
replace_user-Unique id p q [] found same u = tt
replace_user-Unique id p q (r ∷ rs) found same u = elim (Bool-cases (r.user.id == id)) [
  | inl e ↦ rw e (
    subst (λ name. NotNamed name rs)
        (ap (λ x. x.user.username) (found_head id p r rs e found) ∙ sym same) u.0,
    u.1,
  )
  | inr e ↦ rw e (
    replace_user-NotNamed r.user.username id q rs u.0 (
        subst (λ name. (name == r.user.username) ≡ false) (sym same)
          (All-In (λ x. (x.user.username == r.user.username) ≡ false) p rs u.0
            (found-In id p rs (found_tail id p r rs e found)))),
    replace_user-Unique id p q rs (found_tail id p r rs e found) same u.1,
  )
]

pub replace_user-has_admin :
    (id : Text) (p q : PersistedUser) (users : List PersistedUser)
    → user_with_id id users ≡ some p
    → (enabled_admin p ≡ true → enabled_admin q ≡ true)
    → has_admin users ≡ true
    → has_admin (replace_user id q users) ≡ true
unfolding replace_user user_with_id find_first has_admin
replace_user-has_admin id p q [] found keeps h = cc
replace_user-has_admin id p q (r ∷ rs) found keeps h =
    ground (arith, replace_user-has_admin id p q rs)

-- Logging in changes times only.
pub set_login-NotNamed :
    (name : Text) (a : Attempt) (now : ℕ) (users : List PersistedUser)
    → NotNamed name users
    → NotNamed name (set_login a now users)
unfolding set_login
set_login-NotNamed name a now [] h = tt
set_login-NotNamed name a now (p ∷ ps) h = elim (Bool-cases (is_attempted a p)) [
  | inl e ↦ rw e h
  | inr e ↦ rw e (h.0, set_login-NotNamed name a now ps h.1)
]

pub set_login-Unique :
    (a : Attempt) (now : ℕ) (users : List PersistedUser)
    → Unique users
    → Unique (set_login a now users)
unfolding set_login
set_login-Unique a now [] u = tt
set_login-Unique a now (p ∷ ps) u = elim (Bool-cases (is_attempted a p)) [
  | inl e ↦ rw e u
  | inr e ↦ rw e (set_login-NotNamed p.user.username a now ps u.0, set_login-Unique a now ps u.1)
]

pub set_login-has_admin :
    (a : Attempt) (now : ℕ) (users : List PersistedUser)
    → has_admin users ≡ true
    → has_admin (set_login a now users) ≡ true
unfolding set_login has_admin enabled_admin
set_login-has_admin a now [] h = h
set_login-has_admin a now (p ∷ ps) h = ground (arith, set_login-has_admin a now ps)
