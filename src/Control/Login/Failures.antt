-- ===== src/Control/Login/Failures.antt =====
-- The failures that authenticate keeps (internal/control/store.go): pruning them and counting one more.
use cherry_waf.Base.{
  ℕ, ◌+◌, ◌-◌, ◌≤◌, ◌<◌, ◌≡◌, refl, ap, inl, inr, false, not, Option, none, some, List, [], ◌∷◌,
  arith, ltb, Bool-cases, length, drop, keep_if, find_first, length-keep_if-le, ◌==◌, Text, nat_eq,
  string_eq, text_eq,
}
use cherry_waf.Base.Assoc.{get, put}
use cherry_waf.Control.{PersistedUser, LoginFailure, Store}
use cherry_waf.Control.Login.{
  fifteen_minutes, no_failure, failure_of, Attempt, count_failure, is_attempted, stale,
  prune_failures, judge_login, finish_login,
}

-- Pruning spares a failure that is not stale, where the map is within its bound.
pub get-unstale :
    (now : ℕ) (key : Text) (failures : List (Text × LoginFailure))
    → stale now (failure_of key failures) ≡ false
    → get key (keep_if (λ e. not (stale now e.1)) failures) ≡ get key failures
unfolding get keep_if failure_of
get-unstale now key [] h = refl
get-unstale now key ((j, f) ∷ rest) h = elim (Bool-cases (j == key)) [
  | inl here ↦ let fresh : stale now f ≡ false = ground (arith, h, here) in rw fresh (rw here refl)
  | inr there ↦
      let later = get-unstale now key rest (ground (arith, h, there)) in
      elim (Bool-cases (stale now f)) [
        | inl old ↦ rw (old, there) later
        | inr fresh ↦ rw fresh (rw there later)
      ]
]

pub drop-none : {A : Type 0} (n : ℕ) (xs : List A) → n ≡ 0 → drop n xs ≡ xs
drop-none n xs h = ap (λ k. drop k xs) h

pub pruned :
    (now : ℕ) (key : Text) (failures : List (Text × LoginFailure))
    → stale now (failure_of key failures) ≡ false
    → length failures ≤ 8192
    → (get key (prune_failures now failures) ≡ get key failures)
      × (length (prune_failures now failures) ≤ length failures)
unfolding prune_failures
pruned now key failures h few = elim (Bool-cases (ltb (length failures) 1024)) [
  | inl small ↦ rw small (refl, omega arith)
  | inr large ↦
      let kept = keep_if (λ e. not (stale now e.1)) failures in
      let bound = length-keep_if-le (λ e. not (stale now e.1)) failures in
      let all = drop-none (length kept - 8192) kept (omega (arith, bound, few)) in
      rw (large, all) (get-unstale now key failures h, bound)
]

pub length-put-le :
    (key : Text) (f : LoginFailure) (failures : List (Text × LoginFailure))
    → length (put key f failures) ≤ length failures + 1
unfolding put
length-put-le key f [] = omega arith
length-put-le key f ((j, g) ∷ rest) = elim (Bool-cases (j == key)) [
  | inl here ↦ rw here (omega arith)
  | inr there ↦ rw there (omega (arith, length-put-le key f rest))
]

pub length-put_present :
    (key : Text) (f g : LoginFailure) (failures : List (Text × LoginFailure))
    → get key failures ≡ some g
    → length (put key f failures) ≡ length failures
unfolding put get
length-put_present key f g [] h = absurd (ground (arith, h))
length-put_present key f g ((j, e) ∷ rest) h = elim (Bool-cases (j == key)) [
  | inl here ↦ rw here refl
  | inr there ↦ rw there (omega (arith, length-put_present key f g rest (ground (arith, h, there))))
]

pub finish_login-failures :
    (s : Store) (a : Attempt) (now : ℕ) (written : Option ℕ) (f : LoginFailure)
    → failure_of a.key s.failures ≡ f
    → ltb now f.blocked_until ≡ false
    → (finish_login s a false now written).0.failures ≡ put a.key (count_failure now f) s.failures
unfolding finish_login judge_login
finish_login-failures s a now written f same free =
    rw (same, free) (judged (find_first (is_attempted a) s.state.users))
  where
    judged :
        (found : Option PersistedUser)
        → (judge_login s a false now written found).0.failures
          ≡ put a.key (count_failure now f) s.failures
    judged none = ap (λ x. put a.key (count_failure now x) s.failures) same
    judged (some p) = ground (arith, ap (λ x. put a.key (count_failure now x) s.failures) same)

pub new_fresh : (now : ℕ) → stale now no_failure ≡ false
unfolding stale
new_fresh now = ground arith

-- Fewer than eight, within the window of the first, are counted and do not block.
abbrev pub counted_from : ℕ → ℕ → LoginFailure
counted_from first n = record { count = n; window_start = first; blocked_until = 0 }

pub counted_fresh :
    (first n now : ℕ)
    → 0 < first
    → now ≤ first + fifteen_minutes
    → stale now (counted_from first n) ≡ false
unfolding stale
counted_fresh first n now p h = ground (arith, p, h)

pub count_first : (first : ℕ) → 0 < first → count_failure first no_failure ≡ counted_from first 1
unfolding count_failure
count_first first p = ground (arith, p)

pub count_next :
    (first n now : ℕ)
    → 0 < first
    → now ≤ first + fifteen_minutes
    → n < 7
    → count_failure now (counted_from first n) ≡ counted_from first (n + 1)
unfolding count_failure
count_next first n now p h k = ground (arith, p, h, k)

abbrev pub eight_from : ℕ → ℕ → LoginFailure
eight_from first eighth = record {
  count = 8;
  window_start = first;
  blocked_until = eighth + fifteen_minutes;
}

pub count_eighth :
    (first eighth : ℕ)
    → 0 < first
    → eighth ≤ first + fifteen_minutes
    → count_failure eighth (counted_from first 7) ≡ eight_from first eighth
unfolding count_failure
count_eighth first eighth p h = ground (arith, p, h)

pub blocked_fresh :
    (first eighth now : ℕ)
    → now < eighth + fifteen_minutes
    → stale now (eight_from first eighth) ≡ false
unfolding stale
blocked_fresh first eighth now h = ground (arith, h)

-- A login that begins and ends within fifteen minutes of a time.
abbrev pub Within : ℕ → ℕ × ℕ → Type 0
Within first t = (t.0 ≤ first + fifteen_minutes) × (t.1 ≤ first + fifteen_minutes)
