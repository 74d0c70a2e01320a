-- ===== src/Control/Users/Sessions.antt =====
-- What a change of an account does to its sessions, and what a rejected one leaves behind, for
-- updateUser and deleteUser of internal/control/store.go.
use cherry_waf.Base.{
  ℕ, ◌≡◌, refl, sym, subst, inl, inr, Bool, true, false, ◌||◌, Option, none, some, List, [], ◌∷◌,
  arith, if◌then◌else◌, Bool-cases, All, keep_if, ◌==◌, Text, nat_eq, string_eq, text_eq,
  trim_space,
}
use cherry_waf.Control.{
  Role, User, PersistedUser, Session, Store, Reply, valid_role, has_admin, with_users, with_state,
  invalid_role, ok, err,
}
use cherry_waf.Control.Users.{
  UserUpdate, Edit, edit_name, edit_role, edit, user_with_id, replace_user, rehash, with_hash,
  stamped, changes_password, end_sessions, spared, finish_change, finish_update, on_hash, on_edit,
  update_found, update_user, rejected, edited,
}

-- No session belongs to the user.
abbrev pub SignedOut : Text → List (Text × Session) → Type 0
SignedOut id sessions = All (λ e. (e.1.user_id == id) ≡ false) sessions

keep_if-SignedOut :
    (p : Text × Session → Bool) (id : Text)
    → ((e : Text × Session) → p e ≡ true → (e.1.user_id == id) ≡ false)
    → (sessions : List (Text × Session)) → SignedOut id (keep_if p sessions)
unfolding keep_if
keep_if-SignedOut p id h [] = tt
keep_if-SignedOut p id h (e ∷ es) = elim (Bool-cases (p e)) [
  | inl k ↦ rw k (h e k, keep_if-SignedOut p id h es)
  | inr k ↦ rw k (keep_if-SignedOut p id h es)
]

end_sessions-SignedOut :
    (p : PersistedUser) (changed : Bool) (actor : Text) (sessions : List (Text × Session))
    → p.user.disabled ≡ true
    → SignedOut p.user.id (end_sessions p changed actor sessions)
end_sessions-SignedOut p changed actor sessions d =
    subst
      (λ b.
        SignedOut p.user.id (if b || changed then keep_if (spared p actor) sessions else sessions))
      (sym d) (keep_if-SignedOut (spared p actor) p.user.id (λ e k. ground (arith, d, k)) sessions)

Out : Store × Reply User → Type 0
Out (t, err e) = Unit
Out (t, ok user) = user.disabled ≡ true → SignedOut user.id t.sessions

finish_change-Out :
    (s : Store) (p : PersistedUser) (changed : Bool) (actor : Text) (users : List PersistedUser)
    (written : Option ℕ) (admin_left : Bool)
    → Out (finish_change s p changed actor users written admin_left)
unfolding finish_change Out
finish_change-Out s p changed actor users written false = tt
finish_change-Out s p changed actor users none true = tt
finish_change-Out s p changed actor users (some now) true =
    λ d. end_sessions-SignedOut p changed actor s.sessions d

update_found-Out :
    (derive : Text → Option Text) (s : Store) (id : Text) (u : UserUpdate) (actor : Text) (now : ℕ)
    (written : Option ℕ) (found : Option PersistedUser)
    → Out (update_found derive s id u actor now written found)
unfolding update_found on_edit on_hash finish_update Out
update_found-Out derive s id u actor now written none = tt
update_found-Out derive s id u actor now written (some p) =
    go (rehash derive u.new_password) (edit u actor p)
  where
    go : (hashed : Reply (Option Text)) (e : Edit) → Out (on_edit s id actor now written hashed e)
    go hashed (rejected q e) = tt
    go (err e) (edited q) = tt
    go (ok hash) (edited q) =
        finish_change-Out s (stamped now (with_hash hash q)) (changes_password hash) actor
          (replace_user id (stamped now (with_hash hash q)) s.state.users) written
          (has_admin (replace_user id (stamped now (with_hash hash q)) s.state.users))

-- An update that answers with a disabled account leaves it no session.
pub disabled_user-SignedOut :
    (derive : Text → Option Text) (s : Store) (id : Text) (u : UserUpdate) (actor : Text) (now : ℕ)
    (written : Option ℕ) (t : Store) (user : User)
    → update_user derive s id u actor now written ≡ (t, ok user)
    → user.disabled ≡ true
    → SignedOut user.id t.sessions
unfolding update_user Out
disabled_user-SignedOut derive s id u actor now written t user h d =
    subst Out h (update_found-Out derive s id u actor now written (user_with_id id s.state.users)) d

-- An update whose role is invalid is refused, but a new display name sent with it stays in the
-- store's memory all the same.
pub rejected_update_renames :
    (derive : Text → Option Text) (s : Store) (id name : Text) (role : Role) (u : UserUpdate)
    (actor : Text) (now : ℕ) (written : Option ℕ) (p : PersistedUser)
    → user_with_id id s.state.users ≡ some p
    → (trim_space name == []) ≡ false
    → valid_role role ≡ false
    → u.new_name ≡ some name
    → u.new_role ≡ some role
    → update_user derive s id u actor now written ≡ (
      with_state s (
          with_users s.state (
            replace_user id
              (record p { user = record p.user { display_name = trim_space name } })
              s.state.users)),
      err invalid_role,
    )
unfolding update_user update_found on_edit edit edit_name edit_role
rejected_update_renames derive s id name role u actor now written p found named bad en er =
    rw (found, en, named, er, bad) refl
