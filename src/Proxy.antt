-- ===== src/Proxy.antt =====
-- The server pools of internal/proxy: a pool, its members and their counters (proxy.go), with the pool
-- settings of internal/config/config.go that they read. A member's ID stands for the pointer to it:
-- configuration gives each member of a pool an ID of its own. int32 and uint64 counters wrap.
pub mod Select
pub mod Weighted
pub mod Health
pub mod RoundTrip
use cherry_waf.Base.{
  ℕ, zero, suc, ◌+◌, ◌-◌, ◌*◌, ◌/◌, ◌%◌, ◌^◌, ◌≤◌, ◌<◌, min, max, String, ◌≡◌, refl, sym, ap, subst,
  fun_ext, ◌∙◌, ◌≢◌, ◌↔◌, ◌⊎◌, inl, inr, Bool, true, false, not, ◌&&◌, ◌||◌, Option, none, some,
  List, [], ◌∷◌, ◌++◌, map, arith, eq_iff, ltb, leb, if◌then◌else◌, ltb→lt, lt→ltb, leb→le, nat_beq,
  nat_beq_iff, Bool-cases, Option-cases, length, get_elem?, take, drop, In, All, any, all, keep_if,
  find_first, length-append, length-take-le, length-keep_if-le, In-keep_if, In-keep_if_of, All-In,
  find_first-some, find_first-none, Eq, ◌==◌, list_beq, list_beq_iff, ==_refl, Text, codes, nat_eq,
  string_eq, text_eq, if_both, between, is_space, trim_left, trim_right, trim_space, rune_len,
  byte_len, strip_prefix, strip_suffix, to_lower, ◌>>=◌,
}
use cherry_waf.Base.Int.{ℤ}

pub record OriginTls : Type 0 where
  pub server_name : String
  pub ca_file : String
  pub insecure_skip_verify : Bool

pub record PoolMember : Type 0 where
  pub id : String
  pub url : String
  pub enabled : Bool
  pub weight : ℕ
  pub priority : ℕ
  pub backup : Bool
  pub origin_tls : OriginTls

pub record HealthCheck : Type 0 where
  pub enabled : Bool
  pub kind : String
  pub interval_seconds : ℕ
  pub timeout_seconds : ℕ
  pub healthy_threshold : ℕ
  pub unhealthy_threshold : ℕ
  pub method : String
  pub path : Text
  pub host : String
  pub expected_status_min : ℕ
  pub expected_status_max : ℕ

pub record ServerPool : Type 0 where
  pub name : String
  pub enabled : Bool
  pub algorithm : String
  pub failure_mode : String
  pub members : List PoolMember
  pub health_check : HealthCheck

-- `memberRuntime`, without its parsed URL and its transport.
pub record Member : Type 0 where
  pub config : PoolMember
  pub health : HealthCheck
  pub healthy : Bool
  pub active : ℕ
  pub requests : ℕ
  pub failures : ℕ
  pub consecutive_success : ℕ
  pub consecutive_failures : ℕ
  pub last_check : ℕ
  pub last_error : Text
  pub current_weight : ℤ
  pub checking : Bool

-- `poolRuntime`; `rr` is its atomic.Uint64.
pub record Pool : Type 0 where
  pub config : ServerPool
  pub members : List Member
  pub rr : ℕ

abbrev pub u64 : ℕ
u64 = 18446744073709551616

-- `max(member.config.Weight, 1)`
abbrev pub weight_of : Member → ℕ
weight_of m = max m.config.weight 1

-- What a write through the pointer to a member does to the pool's list.
unfoldable pub update_member : String → (Member → Member) → List Member → List Member
update_member id f [] = []
update_member id f (m ∷ ms) =
    let rest = update_member id f ms in if m.config.id == id then f m ∷ rest else m ∷ rest

-- Each member of a pool has an ID of its own.
abbrev pub Fresh : String → List Member → Type 0
Fresh id = All (λ m. (m.config.id == id) ≡ false)

abbrev pub Distinct : List Member → Type 0
Distinct [] = Unit
Distinct (m ∷ ms) = Fresh m.config.id ms × Distinct ms
