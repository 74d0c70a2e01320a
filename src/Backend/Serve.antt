-- ===== src/Backend/Serve.antt =====
-- Serving a request through a backend, of internal/proxy/proxy.go: ServeHTTP up to the round trip, the
-- headers of rewrite and modifyResponse, Upstream and Status.
pub mod Headers
use Prim.Native.String.{◌++◌ as string_append}
use cherry_waf.Base.{
  ℕ, zero, suc, ◌+◌, ◌-◌, ◌*◌, ◌/◌, ◌%◌, ◌^◌, ◌≤◌, ◌<◌, min, max, String, ◌≡◌, refl, sym, ap, subst,
  fun_ext, ◌∙◌, ◌≢◌, ◌↔◌, ◌⊎◌, inl, inr, Bool, true, false, not, ◌&&◌, ◌||◌, Option, none, some,
  List, [], ◌∷◌, ◌++◌, map, arith, eq_iff, ltb, leb, if◌then◌else◌, ltb→lt, lt→ltb, leb→le, nat_beq,
  nat_beq_iff, Bool-cases, Option-cases, length, get_elem?, take, drop, In, All, any, all, keep_if,
  find_first, length-append, length-take-le, length-keep_if-le, In-keep_if, In-keep_if_of, All-In,
  find_first-some, find_first-none, Eq, ◌==◌, list_beq, list_beq_iff, ==_refl, Text, codes, nat_eq,
  string_eq, text_eq, if_both, between, is_space, trim_left, trim_right, trim_space, rune_len,
  byte_len, strip_prefix, strip_suffix, to_lower, ◌>>=◌,
}
use cherry_waf.Base.Assoc.{get, put}
use cherry_waf.Proxy.{Pool, Member}
use cherry_waf.Proxy.Select.{select_member, Request as Choice}
use cherry_waf.Proxy.RoundTrip.{Selection}
use cherry_waf.Backend.{Backend}
use cherry_waf.Backend.Build.{is_direct}
use cherry_waf.Backend.Content.{Request, select_pool}

-- Either the answer 503 with its message, or the state of a request that is sent on; each with what
-- is logged as its upstream until a member has answered.
pub data Start : Type 0 where
  unavailable : String → String → Start
  started : Selection → Start

abbrev pub pool_label : Pool → String
pool_label p = string_append "pool:" p.config.name

module _ {Regex : Type 0} (found : Regex → Text → Bool) (upper : ℕ → ℕ) (mac : List ℕ → List ℕ)
    (encode : List ℕ → String) where
  -- The pool is shared, so the choice's counters are written to it.
  abbrev pub on_member : Backend Regex → Option Member × Pool → Start × Backend Regex
  on_member b (none, p) = (
    unavailable "no healthy upstream member" (pool_label p),
    record b { pools = put p.config.name p b.pools },
  )
  on_member b (some m, p) = (
    started (record { pool = p; member = m.config.id; attempted = m.config.id ∷ [] }),
    record b { pools = put p.config.name p b.pools },
  )

  abbrev pub on_pool : Backend Regex → Choice → Option Pool → Start × Backend Regex
  on_pool b choice none = (unavailable "server pool unavailable" "", b)
  on_pool b choice (some p) = on_member b (select_member mac encode p choice [])

  -- `ServeHTTP`, until the proxy takes over.
  unfoldable pub start : Backend Regex → Request → Choice → Start × Backend Regex
  unfolding select_pool select_member
  start b q choice = on_pool b choice (select_pool found upper b q)

-- `Upstream`; `redacted` prints a member's target.
abbrev upstream_of : (Member → String) → Option Pool → String
upstream_of redacted none = ""
upstream_of redacted (some p) = only p p.members
  where
    only : Pool → List Member → String
    only p (m ∷ []) = if is_direct p.config.name then redacted m else pool_label p
    only p [] = pool_label p
    only p (m ∷ n ∷ ms) = pool_label p

unfoldable pub upstream : {Regex : Type 0} → (Member → String) → Backend Regex → String
unfolding is_direct get
upstream redacted b = upstream_of redacted (get b.default_pool b.pools)

-- `PoolStatus`, with the members it counts.
pub record PoolStatus : Type 0 where
  pub name : String
  pub algorithm : String
  pub failure_mode : String
  pub healthy : ℕ
  pub total : ℕ
  pub members : List Member

abbrev pub pool_status : String → Pool → PoolStatus
pool_status name p = record {
  name = name;
  algorithm = p.config.algorithm;
  failure_mode = p.config.failure_mode;
  healthy = length (keep_if (λ m. m.healthy) p.members);
  total = length p.members;
  members = p.members;
}

abbrev add_status : String → Option Pool → List PoolStatus → List PoolStatus
add_status n none rest = rest
add_status n (some p) rest = pool_status n p ∷ rest

statuses : {Regex : Type 0} → Backend Regex → List String → List PoolStatus
unfolding get keep_if
statuses b [] = []
statuses b (n ∷ ns) = add_status n (get n b.pools) (statuses b ns)

-- `Status`; `sort` is sort.Strings.
unfoldable pub status :
    {Regex : Type 0} → (List String → List String) → Backend Regex → List PoolStatus
unfolding statuses
status sort b = statuses b (sort (map (λ e. e.0) b.pools))
