-- ===== src/Proxy/RoundTrip.antt =====
-- One request through a pool: poolTransport.RoundTrip and the selection state of internal/proxy/proxy.go.
-- The transport is a parameter: what the n-th exchange with a member comes to.
pub mod Retry
use cherry_waf.Base.{
  ℕ, zero, suc, ◌+◌, ◌-◌, ◌*◌, ◌/◌, ◌%◌, ◌^◌, ◌≤◌, ◌<◌, min, max, String, ◌≡◌, refl, sym, ap, subst,
  fun_ext, ◌∙◌, ◌≢◌, ◌↔◌, ◌⊎◌, inl, inr, Bool, true, false, not, ◌&&◌, ◌||◌, Option, none, some,
  List, [], ◌∷◌, ◌++◌, map, arith, eq_iff, ltb, leb, if◌then◌else◌, ltb→lt, lt→ltb, leb→le, nat_beq,
  nat_beq_iff, Bool-cases, Option-cases, length, get_elem?, take, drop, In, All, any, all, keep_if,
  find_first, length-append, length-take-le, length-keep_if-le, In-keep_if, In-keep_if_of, All-In,
  find_first-some, find_first-none, Eq, ◌==◌, list_beq, list_beq_iff, ==_refl, Text, codes, nat_eq,
  string_eq, text_eq, if_both, between, is_space, trim_left, trim_right, trim_space, rune_len,
  byte_len, strip_prefix, strip_suffix, to_lower, ◌>>=◌,
}
use cherry_waf.Proxy.{Member, Pool, update_member, u64}
use cherry_waf.Proxy.Health.{record_failure}
use cherry_waf.Proxy.Select.{Request, select_member}

pub data Outcome : Type 0 where
  response : ℕ → Outcome
  failed : Text → Outcome

-- `selectionState`: the member that serves the request now, and those it was tried on.
pub record Selection : Type 0 where
  pub pool : Pool
  pub member : String
  pub attempted : List String

-- A request, as `retryable` and `cloneForRetry` look at it: its method, whether it has a body, and what
-- GetBody returns where there is one.
pub record Exchange : Type 0 where
  pub request : Request
  pub method : String
  pub has_body : Bool
  pub get_body : Option (Option Text)

-- What RoundTrip returns, with the errors that it joins.
pub data Reply : Type 0 where
  served : ℕ → Reply
  refused : List Text → Reply

unfoldable pub retryable : Exchange → Bool
retryable x =
    if x.method == "GET" || x.method == "HEAD" || x.method == "OPTIONS" || x.method == "TRACE"
    then true
    else (elim x.get_body [ none ↦ false | some _ ↦ true ])

-- The error of `cloneForRetry`, if the body cannot be replayed.
unfoldable pub clone_error : Exchange → Option Text
clone_error x =
    if x.has_body
    then (elim x.get_body [
      | none ↦ some (codes "request body cannot be replayed")
      | some error ↦ error
    ])
    else none

abbrev pub in_pool : (Member → Member) → Selection → Selection
in_pool f s = record s {
  pool = record s.pool { members = update_member s.member f s.pool.members };
}

-- `roundTripMember` on return: one request more, and no connection more.
abbrev pub counted : Member → Member
counted m = record m { requests = (m.requests + 1) % u64 }

abbrev pub set_member : Member → Selection → Selection
set_member m s = record s { member = m.config.id; attempted = m.config.id ∷ s.attempted }

-- The members that a request was sent to, in order, ride along in the result.
module _ (mac : List ℕ → List ℕ) (encode : List ℕ → String) (send : ℕ → String → Outcome) where
  unfoldable pub second_try : Exchange → Text → Selection → Reply × Selection × List String
  second_try x first s = elim (clone_error x) [
    | some error ↦ (refused (first ∷ error ∷ []), s, [])
    | none ↦ elim (send 1 s.member) [
      | response status ↦ (served status, in_pool counted s, s.member ∷ [])
      | failed error ↦ (
        refused (first ∷ error ∷ []),
        in_pool (λ m. record_failure error (counted m)) s,
        s.member ∷ [],
      )
    ]
  ]

  on_alternate : Exchange → Text → Selection → Option Member → Reply × Selection × List String
  on_alternate x first s none = (refused (first ∷ []), s, [])
  on_alternate x first s (some alternate) = second_try x first (set_member alternate s)

  reselect : Exchange → Text → Selection → Reply × Selection × List String
  reselect x first s =
      let (found, pool) = select_member mac encode s.pool x.request s.attempted in
      on_alternate x first (record s { pool = pool }) found

  after_failure : Exchange → Text → Selection → Reply × Selection × List String
  unfolding second_try on_alternate reselect
  after_failure x first s =
      if retryable x then reselect x first s else (refused (first ∷ []), s, [])

  on_outcome : Exchange → Selection → Outcome → Reply × Selection × List String
  on_outcome x s (response status) = (served status, in_pool counted s, s.member ∷ [])
  on_outcome x s (failed error) =
      let (reply, s', sent) =
        after_failure x error (in_pool (λ m. record_failure error (counted m)) s) in
      (reply, s', s.member ∷ sent)

  unfoldable pub round_trip : Exchange → Selection → Reply × Selection × List String
  unfolding after_failure on_outcome
  round_trip x s = on_outcome x s (send 0 s.member)
