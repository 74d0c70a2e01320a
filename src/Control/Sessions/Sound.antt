-- ===== src/Control/Sessions/Sound.antt =====
-- What a session token stands for, by sessionPrincipal of internal/control/store.go.
use cherry_waf.Base.{
  ℕ, ◌<◌, ◌≡◌, false, Option, none, some, arith, ltb, find_first, find_first-some, Text, nat_eq,
  string_eq, text_eq,
}
use cherry_waf.Base.Assoc.{get, Keyed, get-keep_if}
use cherry_waf.Control.{User, PersistedUser, Session, Store}
use cherry_waf.Control.Sessions.{
  prune_sessions, owns, principal_of, lookup_found, lookup_session, session_principal,
}

-- The user is that of an account that is not disabled, and the session its own, not yet expired.
abbrev pub Stands : Store → Text → ℕ → User → Session → Type 0
Stands s token now user sess =
    (get token s.sessions ≡ some sess)
    × (now < sess.expires_at)
    × (user.id ≡ sess.user_id)
    × (user.disabled ≡ false)

principal_of-some :
    (s : Store) (token : Text) (now : ℕ) (x : Session) (found : Option PersistedUser) (t : Store)
    (user : User) (sess : Session)
    → principal_of s token x found ≡ (t, some (user, sess))
    → find_first (owns x) s.state.users ≡ found
    → (x ≡ sess) × (user.id ≡ sess.user_id) × (user.disabled ≡ false)
unfolding principal_of
principal_of-some s token now x none t user sess h e = cc
principal_of-some s token now x (some p) t user sess h e =
    ground (
      arith,
      h,
      (find_first-some (owns x) s.state.users p e).1,
      text_eq.same_iff p.user.id x.user_id,
    )

lookup_found-some :
    (s : Store) (token : Text) (now : ℕ) (found : Option Session) (t : Store) (user : User)
    (sess : Session)
    → lookup_found s token now found ≡ (t, some (user, sess))
    → (found ≡ some sess)
      × (now < sess.expires_at)
      × (user.id ≡ sess.user_id)
      × (user.disabled ≡ false)
unfolding lookup_found
lookup_found-some s token now none t user sess h = cc
lookup_found-some s token now (some x) t user sess h =
    ground
      (arith, h, principal_of-some s token now x (find_first (owns x) s.state.users) t user sess)

-- A token that is accepted is that of a session in the store which has not expired, and the user
-- answered is the session's and is not disabled.
pub session_principal_sound :
    (s : Store) (token : Text) (now : ℕ) (t : Store) (user : User) (sess : Session)
    → Keyed s.sessions
    → session_principal s token now ≡ (t, some (user, sess))
    → Stands s token now user sess
unfolding session_principal lookup_session
session_principal_sound s token now t user sess k h =
    let kept = record s { sessions = prune_sessions now s.sessions } in
    let (e, live, own, on) =
      lookup_found-some kept token now (get token kept.sessions) t user sess h in
    ((get-keep_if (λ x. ltb now x.1.expires_at) token sess s.sessions k e).0, live, own, on)
