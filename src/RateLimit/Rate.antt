-- ===== src/RateLimit/Rate.antt =====
-- The promise of internal/ratelimit/limiter.go over a whole history of requests and cleanups.
use cherry_waf.Base.{
  ℕ, ◌+◌, ◌-◌, ◌*◌, ◌≤◌, String, ◌≡◌, refl, inl, inr, Option, none, some, List, [], ◌∷◌, arith,
  eq_iff, Bool-cases, ◌==◌, nat_eq, string_eq, text_eq,
}
use cherry_waf.Base.Assoc.{get}
use cherry_waf.RateLimit.{Bucket, Limiter, Event, call, tick, at, sweep, step, run}
use cherry_waf.RateLimit.Bounds.{
  Valid, available, available_in, available-later, allow_spends, allow_others, allow-Settings,
  allow-Valid, sweep-Valid, available-sweep, Valid-later, mul_apart, Settings,
}

-- The events take the lock in the order of their clock readings.
abbrev pub Ordered : ℕ → List Event → Type 0
Ordered t [] = Unit
Ordered t (e ∷ es) = (t ≤ at e) × Ordered (at e) es

abbrev pub last_at : ℕ → List Event → ℕ
last_at t [] = t
last_at t (e ∷ es) = last_at (at e) es

last_at-le : (t : ℕ) (es : List Event) → Ordered t es → t ≤ last_at t es
last_at-le t [] h = omega arith
last_at-le t (e ∷ es) h = omega (arith, last_at-le (at e) es h.1)

available_in-le : (l : Limiter) (t : ℕ) (o : Option Bucket) → available_in l t o ≤ l.burst
available_in-le l t none = omega arith
available_in-le l t (some b) = omega arith

step-Settings : (k : String) (l : Limiter) (e : Event) → Settings l (step k l e).0
unfolding step sweep
step-Settings k l (call j now) = allow-Settings l j now
step-Settings k l (tick now) = (refl, refl, refl, refl)

step-Valid : (k : String) (l : Limiter) (e : Event) → Valid l (at e) → Valid (step k l e).0 (at e)
unfolding step
step-Valid k l (call j now) v = allow-Valid l j now v
step-Valid k l (tick now) v = sweep-Valid l now v

-- One event: what it grants to `k` and what it leaves were both available before.
step_accounts :
    (k : String) (l : Limiter) (e : Event)
    → Valid l (at e)
    → l.burst ≤ l.ttl * l.rate
    → available (step k l e).0 k (at e) + (step k l e).1 * l.unit ≡ available l k (at e)
unfolding step
step_accounts k l (call j now) v h = elim (Bool-cases (j == k)) [
  | inl same ↦ ground (arith, eq_iff j k, allow_spends l j now v)
  | inr other ↦ ground (arith, allow_others l j k now other, allow-Settings l j now)
]
step_accounts k l (tick now) v h = ground (arith, available-sweep l k now v h)

run_accounts :
    (k : String) (l : Limiter) (t : ℕ) (es : List Event)
    → Valid l t
    → l.burst ≤ l.ttl * l.rate
    → Ordered t es
    → available (run k l es).0 k (last_at t es) + (run k l es).1 * l.unit
      ≤ available l k t + (last_at t es - t) * l.rate
unfolding run
run_accounts k l t [] v h o = omega arith
run_accounts k l t (e ∷ es) v h o =
    let v' = Valid-later l t (at e) v o.0 in
    let l' = (step k l e).0 in
    let set = step-Settings k l e in
    let ih = run_accounts k l' (at e) es (step-Valid k l e v') (rw (set.1, set.3, set.0) h) o.1 in
    let ih' = rw (set.0, set.2) at ih in
    omega (
      arith,
      ih',
      step_accounts k l e v' h,
      available-later l t (at e) (get k l.buckets) (v.sound k) o.0,
      mul_apart t (at e) (last_at (at e) es) l.rate o.0 (last_at-le (at e) es o.1),
    )

-- Over any history of requests and cleanups whose clock does not go back, the requests of one key that
-- are let through cost at most the burst and what the key earns in between, where the limiter is valid
-- and a bucket that idles for the TTL fills up.
pub granted_le_rate :
    (k : String) (l : Limiter) (t : ℕ) (es : List Event)
    → Valid l t
    → l.burst ≤ l.ttl * l.rate
    → Ordered t es
    → (run k l es).1 * l.unit ≤ l.burst + (last_at t es - t) * l.rate
granted_le_rate k l t es v h o =
    omega (arith, run_accounts k l t es v h o, available_in-le l t (get k l.buckets))
