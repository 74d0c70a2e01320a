-- ===== src/Examples/Limits.antt =====
-- The rate limiter of internal/ratelimit/limiter.go at concrete requests.
use cherry_waf.Base.{
  ℕ, ◌+◌, ◌-◌, ◌*◌, ◌≤◌, ◌≡◌, none, some, List, [], ◌∷◌, arith, leb, if◌then◌else◌, nat_eq,
  string_eq, text_eq,
}
use cherry_waf.Base.Assoc.{get}
use cherry_waf.RateLimit.{Limiter, Bucket, Event, call, tick, new, allow, sweep, run}
use cherry_waf.RateLimit.Bounds.{
  Valid, BucketValid, available, allow_spends, allow-Valid, available-sweep,
}
use cherry_waf.RateLimit.Rate.{last_at, granted_le_rate}

abbrev empty : Limiter
empty = new 1 2 1 10

abbrev used : Limiter
used = (allow empty "10.0.0.1" 3).0

no_bucket : (now : ℕ) (b : Bucket) → none ≡ some b → BucketValid empty now b
no_bucket now b e = absurd (ground (arith, e))

empty-Valid : (now : ℕ) → Valid empty now
unfolding new get
empty-Valid now = record { keyed = tt; one_token = omega arith; sound = λ k b e. no_bucket now b e }

used-Valid : Valid used 3
used-Valid = allow-Valid empty "10.0.0.1" 3 (empty-Valid 3)

allow_spends_example :
    ((allow used "10.0.0.1" 3).1 ≡ leb used.unit (available used "10.0.0.1" 3))
    × (available (allow used "10.0.0.1" 3).0 "10.0.0.1" 3
          + (if (allow used "10.0.0.1" 3).1 then used.unit else 0)
        ≡ available used "10.0.0.1" 3)
allow_spends_example = allow_spends used "10.0.0.1" 3 used-Valid

available-sweep_example : available (sweep used 3) "10.0.0.1" 3 ≡ available used "10.0.0.1" 3
unfolding allow get new
available-sweep_example = available-sweep used "10.0.0.1" 3 used-Valid (omega arith)

abbrev history : List Event
history =
    call "10.0.0.1" 0 ∷ call "10.0.0.1" 0 ∷ call "10.0.0.1" 0 ∷ tick 5 ∷ call "10.0.0.1" 6 ∷ []

granted_le_rate_example :
    (run "10.0.0.1" empty history).1 * empty.unit
    ≤ empty.burst + (last_at 0 history - 0) * empty.rate
unfolding new
granted_le_rate_example =
    granted_le_rate "10.0.0.1" empty 0 history (empty-Valid 0) (omega arith) (ground arith)
