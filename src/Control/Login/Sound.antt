-- ===== src/Control/Login/Sound.antt =====
-- Who is let in, by authenticate of internal/control/store.go.
use cherry_waf.Base.{
  ℕ, ◌≡◌, refl, Bool, true, false, Option, none, some, map, arith, In, find_first, find_first-some,
  Text, nat_eq, string_eq, text_eq, trim_space, to_lower,
}
use cherry_waf.Control.{User, PersistedUser, Store, Reply, ok, err}
use cherry_waf.Control.Login.{
  Attempt, attempt_of, begin_login, is_attempted, accept_login, judge_login, finish_login, resume,
  authenticate,
}

-- An account with the hash that the password verifies against, enabled.
abbrev pub Admits : (Text → Text → Bool) → Text → Text → PersistedUser → Type 0
Admits verify name password p =
    (p.user.username ≡ name) × (p.user.disabled ≡ false) × (verify p.password_hash password ≡ true)

judge_login-ok :
    (s : Store) (a : Attempt) (password_ok : Bool) (now : ℕ) (written : Option ℕ)
    (p : PersistedUser) (t : Store) (user : User)
    → judge_login s a password_ok now written (some p) ≡ (t, ok user)
    → (p.user.disabled ≡ false) × (password_ok ≡ true) × (user.id ≡ p.user.id)
unfolding judge_login accept_login
judge_login-ok s a password_ok now written p t user h = ground (arith, h)

-- The account that an attempt is accepted for.
abbrev Accepted : Store → Attempt → Bool → User → Type 0
Accepted s a password_ok user =
    (password_ok ≡ true)
    × ((p : PersistedUser) × In p s.state.users
        × (is_attempted a p ≡ true)
        × (p.user.disabled ≡ false)
        × (user.id ≡ p.user.id))

judge_found :
    (s : Store) (a : Attempt) (password_ok : Bool) (now : ℕ) (written : Option ℕ)
    (found : Option PersistedUser) (t : Store) (user : User)
    → find_first (is_attempted a) s.state.users ≡ found
    → judge_login s a password_ok now written found ≡ (t, ok user)
    → Accepted s a password_ok user
unfolding judge_login
judge_found s a password_ok now written none t user e h = absurd (ground arith)
judge_found s a password_ok now written (some p) t user e h =
    let (on, passed, same) = judge_login-ok s a password_ok now written p t user h in
    let (here, is) = find_first-some (is_attempted a) s.state.users p e in
    (passed, (p, here, is, on, same))

finish_login-ok :
    (s : Store) (a : Attempt) (password_ok : Bool) (now : ℕ) (written : Option ℕ) (t : Store)
    (user : User)
    → finish_login s a password_ok now written ≡ (t, ok user)
    → judge_login s a password_ok now written (find_first (is_attempted a) s.state.users)
      ≡ (t, ok user)
unfolding finish_login
finish_login-ok s a password_ok now written t user h = ground (arith, h)

module _ (fold : ℕ → ℕ) (verify : Text → Text → Bool) (meanwhile : Store → Store) where
  resume-ok :
      (password : Text) (now : ℕ) (written : Option ℕ) (s : Store) (r : Reply Attempt) (t : Store)
      (user : User)
      → resume fold verify meanwhile password now written (s, r) ≡ (t, ok user)
      → (a : Attempt) × (r ≡ ok a) × Accepted (meanwhile s) a (verify a.encoded password) user
  unfolding resume
  resume-ok password now written s (err e) t user h = absurd (ground arith)
  resume-ok password now written s (ok a) t user h = (
    a,
    refl,
    judge_found (meanwhile s) a (verify a.encoded password) now written
        (find_first (is_attempted a) (meanwhile s).state.users) t user refl
        (finish_login-ok (meanwhile s) a (verify a.encoded password) now written t user h),
  )

  begin_login-ok :
      (s : Store) (remote username : Text) (now : ℕ) (a : Attempt)
      → (begin_login s remote username now).1 ≡ ok a
      → a.username ≡ username
  unfolding begin_login attempt_of
  begin_login-ok s remote username now a h = ground (arith, h)

  -- A login is accepted only for an account that is in the store when the password has been verified,
  -- whatever other requests did meanwhile: its username is the given one in lower case and without
  -- spaces around it, it is enabled, its hash verifies the password, and the user answered is its own.
  pub authenticate_sound :
      (s : Store) (username password remote : Text) (now later : ℕ) (written : Option ℕ) (t : Store)
      (user : User)
      → authenticate fold verify meanwhile s username password remote now later written
        ≡ (t, ok user)
      → (p : PersistedUser) × In p
          (meanwhile
            (begin_login s remote (map (to_lower fold) (trim_space username)) now).0).state.users
        × Admits verify (map (to_lower fold) (trim_space username)) password p
        × (user.id ≡ p.user.id)
  unfolding authenticate
  authenticate_sound s username password remote now later written t user h =
      let name = map (to_lower fold) (trim_space username) in
      let r = begin_login s remote name now in
      let (a, e, accepted) = resume-ok password later written r.0 r.1 t user h in
      let (p, here, is, on, same) = accepted.1 in
      (
        p,
        here,
        ground (
          arith,
          is,
          on,
          accepted.0,
          begin_login-ok s remote name now a e,
          text_eq.same_iff p.user.username a.username,
          text_eq.same_iff p.password_hash a.encoded,
        ),
        same,
      )
