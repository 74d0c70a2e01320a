-- ===== src/Control/Login/Lockout.antt =====
-- The lockout of authenticate in internal/control/store.go.
use cherry_waf.Base.{
  ℕ, ◌+◌, ◌≤◌, ◌<◌, ◌≡◌, refl, sym, ap, subst, ◌∙◌, Bool, true, false, Option, none, some, List, [],
  ◌∷◌, ◌++◌, map, arith, ltb, length, All, find_first, ◌==◌, Text, nat_eq, string_eq, text_eq,
  trim_space, to_lower,
}
use cherry_waf.Base.Assoc.{get, put, get-put_self}
use cherry_waf.Control.{PersistedUser, LoginFailure, Store, login_blocked, err, ok}
use cherry_waf.Control.Login.{
  fifteen_minutes, no_failure, failure_of, Attempt, or_no_failure, count_failure, login_key,
  attempt_of, stale, prune_failures, begin_login, resume, authenticate,
}
use cherry_waf.Control.Login.Failures.{
  pruned, length-put-le, length-put_present, finish_login-failures, new_fresh, counted_from,
  counted_fresh, count_first, count_next, eight_from, count_eighth, blocked_fresh, Within,
}

-- Logins of one remote address under one name with one password that no hash verifies, while other
-- requests leave the failures alone.
module _ (fold : ℕ → ℕ) (verify : Text → Text → Bool) (meanwhile : Store → Store)
    (elsewhere : (s : Store) → (meanwhile s).failures ≡ s.failures) (remote name password : Text)
    (wrong : (hash : Text) → verify hash password ≡ false) where
  abbrev pub username : Text
  username = map (to_lower fold) (trim_space name)

  abbrev pub key : Text
  key = login_key remote username

  -- One login that begins and ends at the times.
  abbrev pub log_in : ℕ × ℕ → Store → Store
  log_in (begun, ended) s =
      (authenticate fold verify meanwhile s name password remote begun ended none).0

  -- Logins at the times, in turn.
  unfoldable pub log_in_all : List (ℕ × ℕ) → Store → Store
  unfolding authenticate
  log_in_all [] s = s
  log_in_all (t ∷ ts) s = log_in_all ts (log_in t s)

  resumed-failures :
      (s : Store) (a : Attempt) (ended : ℕ) (f : LoginFailure)
      → a.key ≡ key
      → failure_of key s.failures ≡ f
      → ltb ended f.blocked_until ≡ false
      → (resume fold verify meanwhile password ended none (s, ok a)).0.failures
        ≡ put key (count_failure ended f) s.failures
  unfolding resume
  resumed-failures s a ended f e same free =
      rw (wrong a.encoded) (
        finish_login-failures (meanwhile s) a ended none f
          (ap (failure_of a.key) (elsewhere s) ∙ ap (λ k. failure_of k s.failures) e ∙ same) free)
      ∙ ap (λ k. put k (count_failure ended f) (meanwhile s).failures) e
      ∙ ap (put key (count_failure ended f)) (elsewhere s)

  begun_login :
      (s : Store) (begun : ℕ) (f : LoginFailure)
      → failure_of key (prune_failures begun s.failures) ≡ f
      → ltb begun f.blocked_until ≡ false
      → begin_login s remote username begun ≡ (
        record s { failures = prune_failures begun s.failures },
        ok (attempt_of key username (find_first (λ p. p.user.username == username) s.state.users)),
      )
  unfolding begin_login
  begun_login s begun f same free =
      let open_now : ltb begun (failure_of key (prune_failures begun s.failures)).blocked_until
          ≡ false =
        ap (λ g. ltb begun g.blocked_until) same ∙ free in
      rw open_now refl

  log_in-failures :
      (s : Store) (begun ended : ℕ) (f : LoginFailure)
      → failure_of key (prune_failures begun s.failures) ≡ f
      → ltb begun f.blocked_until ≡ false
      → ltb ended f.blocked_until ≡ false
      → (log_in (begun, ended) s).failures
        ≡ put key (count_failure ended f) (prune_failures begun s.failures)
  unfolding authenticate attempt_of
  log_in-failures s begun ended f same free free_still =
      ap (λ r. (resume fold verify meanwhile password ended none r).0.failures)
        (begun_login s begun f same free)
      ∙ go (find_first (λ p. p.user.username == username) s.state.users)
    where
      go :
          (found : Option PersistedUser)
          → (resume fold verify meanwhile password ended none (
            record s { failures = prune_failures begun s.failures },
            ok (attempt_of key username found),
          )).0.failures
            ≡ put key (count_failure ended f) (prune_failures begun s.failures)
      go none =
          resumed-failures (record s { failures = prune_failures begun s.failures }) _ ended f refl
            same free_still
      go (some p) =
          resumed-failures (record s { failures = prune_failures begun s.failures }) _ ended f refl
            same free_still

  -- The failure that is on record, where the map is within its bound.
  abbrev Recorded : LoginFailure → Store → Type 0
  Recorded f s = (get key s.failures ≡ some f) × (length s.failures ≤ 8192)

  recorded-put :
      (begun : ℕ) (f g : LoginFailure) (s : Store) (failures : List (Text × LoginFailure))
      → failures ≡ put key g (prune_failures begun s.failures)
      → length (put key g (prune_failures begun s.failures)) ≤ 8192
      → (get key failures ≡ some g) × (length failures ≤ 8192)
  recorded-put begun f g s failures e bound = rw e (get-put_self key g _, bound)

  first-Recorded :
      (s : Store) (begun ended : ℕ)
      → failure_of key s.failures ≡ no_failure
      → length s.failures < 8192
      → Recorded (count_failure ended no_failure) (log_in (begun, ended) s)
  unfolding failure_of
  first-Recorded s begun ended clean few =
      let (kept, shorter) =
        pruned begun key s.failures (ap (stale begun) clean ∙ new_fresh begun)
          (omega (arith, few)) in
      let g = count_failure ended no_failure in
      recorded-put begun no_failure g s _
        (log_in-failures s begun ended no_failure (ap or_no_failure kept ∙ clean) (ground arith)
          (ground arith))
        (omega (arith, shorter, few, length-put-le key g (prune_failures begun s.failures)))

  next-Recorded :
      (s : Store) (begun ended : ℕ) (f : LoginFailure)
      → Recorded f s
      → stale begun f ≡ false
      → ltb begun f.blocked_until ≡ false
      → ltb ended f.blocked_until ≡ false
      → Recorded (count_failure ended f) (log_in (begun, ended) s)
  unfolding failure_of
  next-Recorded s begun ended f (here, few) fresh free free_still =
      let same : failure_of key s.failures ≡ f = ap or_no_failure here in
      let (kept, shorter) = pruned begun key s.failures (ap (stale begun) same ∙ fresh) few in
      let g = count_failure ended f in
      recorded-put begun f g s _
        (log_in-failures s begun ended f (ap or_no_failure kept ∙ same) free free_still)
        (omega (
          arith,
          shorter,
          few,
          length-put_present key g f (prune_failures begun s.failures) (kept ∙ here),
        ))

  repeated-Recorded :
      (first n : ℕ) (times : List (ℕ × ℕ)) (s : Store)
      → 0 < first
      → All (Within first) times
      → n + length times ≡ 7
      → Recorded (counted_from first n) s
      → Recorded (counted_from first 7) (log_in_all times s)
  unfolding log_in_all
  repeated-Recorded first n [] s p within count r =
      subst (λ k. Recorded (counted_from first k) s) (omega (arith, count)) r
  repeated-Recorded first n ((begun, ended) ∷ ts) s p within count r =
      repeated-Recorded first (n + 1) ts (log_in (begun, ended) s) p within.1 (omega (arith, count))
        (subst (λ f. Recorded f (log_in (begun, ended) s))
          (count_next first n ended p within.0.1 (omega (arith, count)))
          (next-Recorded s begun ended (counted_from first n) r
            (counted_fresh first n begun p within.0.0) (ground arith) (ground arith)))

  log_in_all-append :
      (ts us : List (ℕ × ℕ)) (s : Store) → log_in_all (ts ++ us) s ≡ log_in_all us (log_in_all ts s)
  unfolding log_in_all
  log_in_all-append [] us s = refl
  log_in_all-append (t ∷ ts) us s = log_in_all-append ts us (log_in t s)

  eight-Recorded :
      (s : Store) (first eighth : ℕ × ℕ) (others : List (ℕ × ℕ))
      → failure_of key s.failures ≡ no_failure
      → length s.failures < 8192
      → 0 < first.1
      → length others ≡ 6
      → All (Within first.1) others
      → Within first.1 eighth
      → Recorded (eight_from first.1 eighth.1) (log_in_all (first ∷ others ++ eighth ∷ []) s)
  unfolding log_in_all
  eight-Recorded s (begun, first) (begun8, eighth) others clean few p six within last =
      let one =
        subst (λ f. Recorded f (log_in (begun, first) s)) (count_first first p)
          (first-Recorded s begun first clean few) in
      let seven =
        repeated-Recorded first 1 others (log_in (begun, first) s) p within (omega (arith, six))
          one in
      subst (Recorded (eight_from first eighth))
        (sym (log_in_all-append others ((begun8, eighth) ∷ []) (log_in (begun, first) s)))
        (subst
          (λ f. Recorded f (log_in (begun8, eighth) (log_in_all others (log_in (begun, first) s))))
          (count_eighth first eighth p last.1)
          (next-Recorded (log_in_all others (log_in (begun, first) s)) begun8 eighth
            (counted_from first 7) seven (counted_fresh first 7 begun8 p last.0) (ground arith)
            (ground arith)))

  blocked_login :
      (s : Store) (f : LoginFailure) (other_password : Text) (now later : ℕ) (written : Option ℕ)
      → Recorded f s
      → stale now f ≡ false
      → now < f.blocked_until
      → authenticate fold verify meanwhile s name other_password remote now later written ≡ (
        record s { failures = prune_failures now s.failures },
        err (login_blocked f.blocked_until),
      )
  unfolding authenticate begin_login resume failure_of
  blocked_login s f other_password now later written (here, few) fresh before =
      let same : failure_of key s.failures ≡ f = ap or_no_failure here in
      let kept = (pruned now key s.failures (ap (stale now) same ∙ fresh) few).0 in
      let blocked : ltb now f.blocked_until ≡ true = ground (arith, before) in
      rw (kept, here, blocked) refl

  -- Eight logins in a row with a password that no hash verifies, from one remote address under one name,
  -- with no failure on record for them and fewer than 8192 for others, each within fifteen minutes of
  -- the end of the first, which is after the zero time, block the pair: a login that begins within fifteen minutes of the end of the
  -- eighth is refused whatever its password is, and changes nothing but that stale failures are pruned.
  -- While a password is verified, other requests may change anything but the failures.
  pub eight_failures_block :
      (s : Store) (first eighth : ℕ × ℕ) (others : List (ℕ × ℕ)) (other_password : Text)
      (now later : ℕ) (written : Option ℕ)
      → failure_of key s.failures ≡ no_failure
      → length s.failures < 8192
      → 0 < first.1
      → length others ≡ 6
      → All (Within first.1) others
      → Within first.1 eighth
      → now < eighth.1 + fifteen_minutes
      → let blocked = log_in_all (first ∷ others ++ eighth ∷ []) s in
        authenticate fold verify meanwhile blocked name other_password remote now later written ≡ (
          record blocked { failures = prune_failures now blocked.failures },
          err (login_blocked (eighth.1 + fifteen_minutes)),
        )
  eight_failures_block s first eighth others other_password now later written clean few p six within
        last before =
      blocked_login (log_in_all (first ∷ others ++ eighth ∷ []) s) (eight_from first.1 eighth.1)
        other_password now later written
        (eight-Recorded s first eighth others clean few p six within last)
        (blocked_fresh first.1 eighth.1 now before) before
