-- ===== src/RateLimit.antt =====
-- The token buckets of internal/ratelimit/limiter.go. A time is a number of nanoseconds, passed to
-- the call that reads the clock. Go's float64 amounts are exact here: they are counted in a unit of
-- which `unit` make one token, with `rate` of them earned each nanosecond, so rounding is left out.
pub mod Bounds
pub mod Rate
use cherry_waf.Base.{
  ℕ, zero, suc, ◌+◌, ◌-◌, ◌*◌, ◌/◌, ◌%◌, ◌^◌, ◌≤◌, ◌<◌, min, max, String, ◌≡◌, refl, sym, ap, subst,
  fun_ext, ◌∙◌, ◌≢◌, ◌↔◌, ◌⊎◌, inl, inr, Bool, true, false, not, ◌&&◌, ◌||◌, Option, none, some,
  List, [], ◌∷◌, ◌++◌, map, arith, eq_iff, ltb, leb, if◌then◌else◌, ltb→lt, lt→ltb, leb→le, nat_beq,
  nat_beq_iff, Bool-cases, Option-cases, length, get_elem?, take, drop, In, All, any, all, keep_if,
  find_first, length-append, length-take-le, length-keep_if-le, In-keep_if, In-keep_if_of, All-In,
  find_first-some, find_first-none, Eq, ◌==◌, list_beq, list_beq_iff, ==_refl, Text, codes, nat_eq,
  string_eq, text_eq, if_both, between, is_space, trim_left, trim_right, trim_space, rune_len,
  byte_len, strip_prefix, strip_suffix, to_lower, ◌>>=◌,
}
use cherry_waf.Base.Assoc.{get, put}

pub record Bucket : Type 0 where
  pub tokens : ℕ
  pub last : ℕ
  pub last_seen : ℕ

pub record Limiter : Type 0 where
  pub rate : ℕ
  pub burst : ℕ
  pub unit : ℕ
  pub ttl : ℕ
  pub buckets : List (String × Bucket)

abbrev pub ten_minutes : ℕ
ten_minutes = 600000000000

-- `burst` is counted in whole tokens, as the configuration does.
unfoldable pub new : ℕ → ℕ → ℕ → ℕ → Limiter
new rate burst unit ttl = record {
  rate = rate;
  burst = burst * unit;
  unit = unit;
  ttl = if nat_beq ttl 0 then ten_minutes else ttl;
  buckets = [];
}

-- `if b.tokens > l.burst { b.tokens = l.burst }`
abbrev pub cap : Limiter → ℕ → ℕ
cap l earned = if ltb l.burst earned then l.burst else earned

-- The refill at the head of `Allow`: nothing is earned unless the clock went forward.
unfoldable pub refill : Limiter → Bucket → ℕ → Bucket
refill l b now =
    if ltb b.last now
    then record b { tokens = cap l (b.tokens + (now - b.last) * l.rate); last = now }
    else b

abbrev pub store_bucket : Limiter → String → Bucket → Limiter
store_bucket l key b = record l { buckets = put key b l.buckets }

-- The bucket of a key that is seen for the first time.
abbrev pub fresh : Limiter → ℕ → Bucket
fresh l now = record { tokens = l.burst - l.unit; last = now; last_seen = now }

-- The bucket that a request leaves.
abbrev pub drawn : Limiter → ℕ → Bucket → Bucket
drawn l now b =
    let b' = record (refill l b now) { last_seen = now } in
    if ltb b'.tokens l.unit then b' else record b' { tokens = b'.tokens - l.unit }

-- `Allow` on a key that has a bucket: is a token left once it is refilled?
unfoldable pub draw : Limiter → String → ℕ → Bucket → Limiter × Bool
draw l key now b = (store_bucket l key (drawn l now b), leb l.unit (refill l b now).tokens)

unfoldable pub allow : Limiter → String → ℕ → Limiter × Bool
allow l key now = elim (get key l.buckets) [
  | none ↦ (store_bucket l key (fresh l now), true)
  | some b ↦ draw l key now b
]

pub size : Limiter → ℕ
size l = length l.buckets

abbrev pub is_live : Limiter → ℕ → String × Bucket → Bool
is_live l now e = not (ltb l.ttl (now - e.1.last_seen))

-- One tick of `cleanupLoop`.
unfoldable pub sweep : Limiter → ℕ → Limiter
sweep l now = record l { buckets = keep_if (is_live l now) l.buckets }

pub data Event : Type 0 where
  call : String → ℕ → Event
  tick : ℕ → Event

abbrev pub at : Event → ℕ
at (call key now) = now
at (tick now) = now

-- A run of requests and ticks in the order in which they take the lock, with the number of requests
-- of `k` that were let through.
unfoldable pub step : String → Limiter → Event → Limiter × ℕ
step k l (call key now) = let (l', ok) = allow l key now in (l', if (key == k) && ok then 1 else 0)
step k l (tick now) = (sweep l now, 0)

unfoldable pub run : String → Limiter → List Event → Limiter × ℕ
run k l [] = (l, 0)
run k l (e ∷ es) = let (l', n) = step k l e in let (l'', m) = run k l' es in (l'', n + m)
