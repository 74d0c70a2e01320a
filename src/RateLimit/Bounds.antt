-- ===== src/RateLimit/Bounds.antt =====
-- What a token bucket promises (internal/ratelimit/limiter.go).
use cherry_waf.Base.{
  ℕ, ◌+◌, ◌-◌, ◌*◌, ◌≤◌, ◌<◌, min, String, ◌≡◌, refl, inl, inr, false, Option, none, some, arith,
  leb, if◌then◌else◌, Bool-cases, Option-cases, ◌==◌, nat_eq, string_eq, text_eq,
}
use cherry_waf.Base.Assoc.{
  get, get-put_self, get-put_ne, get-put, put-Keyed, keep_if-Keyed, Keyed, get-keep_if,
  get-keep_if-some, get-keep_if-none,
}
use cherry_waf.RateLimit.{
  Bucket, Limiter, refill, draw, allow, sweep, store_bucket, drawn, fresh, is_live,
}

-- The state of a bucket that the clock has reached `now` with: no more tokens than the burst, and both
-- of its times at its last request.
pub record BucketValid (l : Limiter) (now : ℕ) (b : Bucket) : Type 0 where
  pub capped : b.tokens ≤ l.burst
  pub seen : b.last_seen ≡ b.last
  pub past : b.last ≤ now

pub record Valid (l : Limiter) (now : ℕ) : Type 0 where
  pub keyed : Keyed l.buckets
  pub one_token : l.unit ≤ l.burst
  pub sound : (k : String) (b : Bucket) → get k l.buckets ≡ some b → BucketValid l now b

-- What a key could spend at `now`: its bucket's tokens and what they have earned since.
abbrev pub available_in : Limiter → ℕ → Option Bucket → ℕ
available_in l now none = l.burst
available_in l now (some b) = min l.burst (b.tokens + (now - b.last) * l.rate)

abbrev pub available : Limiter → String → ℕ → ℕ
available l k now = available_in l now (get k l.buckets)

pub mul_apart : (a b c r : ℕ) → a ≤ b → b ≤ c → (c - a) * r ≡ (b - a) * r + (c - b) * r
mul_apart a b c r h k = grind arith

pub available-later :
    (l : Limiter) (s t : ℕ) (o : Option Bucket)
    → ((b : Bucket) → o ≡ some b → BucketValid l s b)
    → s ≤ t
    → available_in l t o ≤ available_in l s o + (t - s) * l.rate
available-later l s t none v h = omega arith
available-later l s t (some b) v h =
    let w = v b refl in omega (arith, mul_apart b.last s t l.rate w.past h)

refill_tokens :
    (l : Limiter) (now : ℕ) (b : Bucket)
    → BucketValid l now b
    → ((refill l b now).tokens ≡ available_in l now (some b)) × ((refill l b now).last ≡ now)
unfolding refill
refill_tokens l now b v = ground arith

draw_spends :
    (l : Limiter) (k : String) (now : ℕ) (b : Bucket)
    → BucketValid l now b
    → let (l', ok) = draw l k now b in
      (ok ≡ leb l.unit (available_in l now (some b)))
      × (available l' k now + (if ok then l.unit else 0) ≡ available_in l now (some b))
unfolding draw
draw_spends l k now b v =
    ground (arith, refill_tokens l now b v, get-put_self k (drawn l now b) l.buckets)

-- `Allow` admits a request exactly when its key can spend a whole token, and takes just that token.
pub allow_spends :
    (l : Limiter) (k : String) (now : ℕ)
    → Valid l now
    → let (l', ok) = allow l k now in
      (ok ≡ leb l.unit (available l k now))
      × (available l' k now + (if ok then l.unit else 0) ≡ available l k now)
unfolding allow
allow_spends l k now v = elim (Option-cases (get k l.buckets)) [
  | inl e ↦ rw (e, allow) (ground (arith, v.one_token, get-put_self k (fresh l now) l.buckets))
  | inr (b, e) ↦ rw (e, allow) (draw_spends l k now b (v.sound k b e))
]

draw_others :
    (l : Limiter) (k j : String) (now : ℕ) (b : Bucket)
    → (k == j) ≡ false
    → get j (draw l k now b).0.buckets ≡ get j l.buckets
unfolding draw
draw_others l k j now b h = ground (arith, get-put_ne k j (drawn l now b) l.buckets h)

-- A request leaves the buckets of all other keys as they were.
pub allow_others :
    (l : Limiter) (k j : String) (now : ℕ)
    → (k == j) ≡ false
    → get j (allow l k now).0.buckets ≡ get j l.buckets
unfolding allow
allow_others l k j now h = elim (Option-cases (get k l.buckets)) [
  | inl e ↦ rw (e, allow) (get-put_ne k j (fresh l now) l.buckets h)
  | inr (b, e) ↦ rw (e, allow) (draw_others l k j now b h)
]

abbrev pub Settings : Limiter → Limiter → Type 0
Settings l l' = (l'.rate ≡ l.rate) × (l'.burst ≡ l.burst) × (l'.unit ≡ l.unit) × (l'.ttl ≡ l.ttl)

pub allow-Settings : (l : Limiter) (k : String) (now : ℕ) → Settings l (allow l k now).0
unfolding allow draw
allow-Settings l k now = ground arith

BucketValid-later :
    (l : Limiter) (s t : ℕ) (b : Bucket) → BucketValid l s b → s ≤ t → BucketValid l t b
BucketValid-later l s t b v h = ground arith

pub Valid-later : (l : Limiter) (s t : ℕ) → Valid l s → s ≤ t → Valid l t
Valid-later l s t v h = record {
  keyed = v.keyed;
  one_token = v.one_token;
  sound = λ k b e. BucketValid-later l s t b (v.sound k b e) h;
}

drawn-BucketValid :
    (l : Limiter) (now : ℕ) (b : Bucket) → BucketValid l now b → BucketValid l now (drawn l now b)
unfolding refill
drawn-BucketValid l now b v = ground arith

store_bucket-Valid :
    (l : Limiter) (k : String) (now : ℕ) (b : Bucket)
    → Valid l now
    → BucketValid l now b
    → Valid (store_bucket l k b) now
store_bucket-Valid l k now b v w = record {
  keyed = put-Keyed k b l.buckets v.keyed;
  one_token = v.one_token;
  sound = λ j c e. elim (Bool-cases (k == j)) [
    | inl same ↦ ground (arith, get-put k j b l.buckets)
    | inr other ↦ ground (arith, get-put k j b l.buckets, v.sound j c)
  ];
}

-- A request keeps the limiter valid: distinct keys, a burst of at least one token, and no bucket above
-- the burst or ahead of the clock.
pub allow-Valid : (l : Limiter) (k : String) (now : ℕ) → Valid l now → Valid (allow l k now).0 now
unfolding allow draw
allow-Valid l k now v = elim (Option-cases (get k l.buckets)) [
  | inl e ↦ rw (e, allow) (store_bucket-Valid l k now (fresh l now) v (omega arith))
  | inr (b, e) ↦
      rw (e, allow)
        (store_bucket-Valid l k now (drawn l now b) v (drawn-BucketValid l now b (v.sound k b e)))
]

-- The cleanup keeps the limiter valid.
pub sweep-Valid : (l : Limiter) (now : ℕ) → Valid l now → Valid (sweep l now) now
unfolding sweep
sweep-Valid l now v = record {
  keyed = keep_if-Keyed (is_live l now) l.buckets v.keyed;
  one_token = v.one_token;
  sound = λ k b e.
      let w = v.sound k b (get-keep_if (is_live l now) k b l.buckets v.keyed e).0 in
      record { capped = w.capped; seen = w.seen; past = w.past };
}

-- A bucket that the cleanup drops was full again, if idling for the TTL earns a whole burst.
idle_full :
    (l : Limiter) (now : ℕ) (b : Bucket)
    → BucketValid l now b
    → l.burst ≤ l.ttl * l.rate
    → l.ttl < now - b.last_seen
    → available_in l now (some b) ≡ l.burst
idle_full l now b v h idle = grind (arith, mul_apart 0 l.ttl (now - b.last) l.rate)

-- The cleanup takes nothing from anyone: where the limiter is valid and idling for the TTL earns a whole
-- burst, every key can spend after it what it could before.
pub available-sweep :
    (l : Limiter) (k : String) (now : ℕ)
    → Valid l now
    → l.burst ≤ l.ttl * l.rate
    → available (sweep l now) k now ≡ available l k now
unfolding sweep
available-sweep l k now v h = elim (Option-cases (get k l.buckets)) [
  | inl e ↦ rw (e, get-keep_if-none (is_live l now) k l.buckets e) refl
  | inr (b, e) ↦
      rw (e, get-keep_if-some (is_live l now) k b l.buckets v.keyed e)
        (ground (arith, idle_full l now b (v.sound k b e) h))
]
