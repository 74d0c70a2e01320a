-- ===== src/Proxy/RoundTrip/Retry.antt =====
-- What poolTransport.RoundTrip of internal/proxy/proxy.go promises about retries.
use cherry_waf.Base.{
  ℕ, String, ◌≡◌, refl, sym, ap, subst, ◌⊎◌, inl, inr, Bool, true, false, Option, none, some, List,
  [], ◌∷◌, arith, eq_iff, if◌then◌else◌, Bool-cases, any, ◌==◌, Text, nat_eq, string_eq, text_eq,
}
use cherry_waf.Proxy.{Member, PoolMember}
use cherry_waf.Proxy.Health.{record_failure}
use cherry_waf.Proxy.Select.{select_member}
use cherry_waf.Proxy.Select.Sound.{Free, select_member_sound}
use cherry_waf.Proxy.RoundTrip.{
  Outcome, response, failed, Selection, Exchange, Reply, served, refused, retryable, clone_error,
  in_pool, counted, set_member, second_try, after_failure, round_trip, reselect, on_alternate,
  on_outcome,
}

Free-apart :
    (id : String) (excluded : List String) (u : Bool) (x : Member)
    → any (λ k. k == id) excluded ≡ true
    → Free excluded u x
    → (x.config.id == id) ≡ false
Free-apart id excluded u x h k = elim (Bool-cases (x.config.id == id)) [
  | inr apart ↦ apart
  | inl same ↦
      let e : x.config.id ≡ id = (eq_iff x.config.id id).0 same in
      let h' = subst (λ j. any (λ k. k == j) excluded ≡ true) (sym e) h in
      absurd (ground (arith, h', k))
]

module _ (mac : List ℕ → List ℕ) (encode : List ℕ → String) (send : ℕ → String → Outcome) where
  -- Where a second exchange goes, if there is one.
  abbrev Tried : Exchange → String → List String → Type 0
  Tried x first sent =
      (sent ≡ [])
      ⊎ ((other : String) × (sent ≡ other ∷ [])
          × ((other == first) ≡ false)
          × (retryable x ≡ true)
          × (clone_error x ≡ none))

  second_try-Tried :
      (x : Exchange) (error : Text) (first : String) (s : Selection)
      → (s.member == first) ≡ false
      → retryable x ≡ true
      → Tried x first (second_try mac encode send x error s).2
  unfolding second_try
  second_try-Tried x error first s apart r = ground arith

  set_member-apart :
      (m : Member) (s : Selection) (x : Exchange) (first : String)
      → any (λ k. k == first) s.attempted ≡ true
      → (select_member mac encode s.pool x.request s.attempted).0 ≡ some m
      → (m.config.id == first) ≡ false
  set_member-apart m s x first h e =
      let (y, same, why) = select_member_sound mac encode s.pool x.request s.attempted m e in
      let apart : (y.config.id == first) ≡ false = elim why [
        | inl v ↦ Free-apart first s.attempted false y h v.free
        | inr v ↦ Free-apart first s.attempted true y h v.0.free
      ] in
      subst (λ (c : PoolMember). (c.id == first) ≡ false) same apart

  reselect-Tried :
      (x : Exchange) (error : Text) (s : Selection)
      → any (λ k. k == s.member) s.attempted ≡ true
      → retryable x ≡ true
      → Tried x s.member (reselect mac encode send x error s).2
  unfolding reselect on_alternate
  reselect-Tried x error s h r = go (select_member mac encode s.pool x.request s.attempted).0 refl
    where
      next : Selection
      next = record s { pool = (select_member mac encode s.pool x.request s.attempted).1 }

      go :
          (o : Option Member)
          → (select_member mac encode s.pool x.request s.attempted).0 ≡ o
          → Tried x s.member (on_alternate mac encode send x error next o).2
      go none e = inl refl
      go (some m) e =
          second_try-Tried x error s.member (set_member m next)
            (set_member-apart m s x s.member h e) r

  after_failure-Tried :
      (x : Exchange) (error : Text) (s : Selection)
      → any (λ k. k == s.member) s.attempted ≡ true
      → Tried x s.member (after_failure mac encode send x error s).2
  unfolding after_failure
  after_failure-Tried x error s h = go (retryable x) refl
    where
      go :
          (b : Bool)
          → retryable x ≡ b
          → Tried x s.member
              (if b then reselect mac encode send x error s else (refused (error ∷ []), s, [])).2
      go true r = reselect-Tried x error s h r
      go false r = inl refl

  abbrev pub Attempts : Exchange → Selection → Outcome → List String → Type 0
  Attempts x s first sent =
      (sent ≡ s.member ∷ [])
      ⊎ ((other : String) × (error : Text) × (sent ≡ s.member ∷ other ∷ [])
          × ((other == s.member) ≡ false)
          × (first ≡ failed error)
          × (retryable x ≡ true)
          × (clone_error x ≡ none))

  on_outcome-Attempts :
      (x : Exchange) (s : Selection) (o : Outcome)
      → any (λ k. k == s.member) s.attempted ≡ true
      → Attempts x s o (on_outcome mac encode send x s o).2
  unfolding on_outcome
  on_outcome-Attempts x s (response status) h = inl refl
  on_outcome-Attempts x s (failed error) h =
      elim (after_failure-Tried x error (in_pool (λ m. record_failure error (counted m)) s) h) [
        | inl e ↦ inl (ap (◌∷◌ s.member) e)
        | inr (other, e, apart, r, c) ↦ inr (other, error, ap (◌∷◌ s.member) e, apart, refl, r, c)
      ]

  -- A request whose member is among those attempted is sent to that member alone, or to it and then to
  -- one other: the latter only if the first exchange failed, the request may be repeated and its body,
  -- where it has one, could be had again.
  pub round_trip-Attempts :
      (x : Exchange) (s : Selection)
      → any (λ k. k == s.member) s.attempted ≡ true
      → Attempts x s (send 0 s.member) (round_trip mac encode send x s).2
  unfolding round_trip
  round_trip-Attempts x s h = on_outcome-Attempts x s (send 0 s.member) h

  second_try-served :
      (x : Exchange) (error : Text) (s : Selection) (status : ℕ)
      → (second_try mac encode send x error s).0 ≡ served status
      → ((second_try mac encode send x error s).2 ≡ s.member ∷ [])
        × (send 1 s.member ≡ response status)
  unfolding second_try
  second_try-served x error s status e = ground arith

  reselect-served :
      (x : Exchange) (error : Text) (s : Selection) (status : ℕ)
      → (reselect mac encode send x error s).0 ≡ served status
      → (other : String) × ((reselect mac encode send x error s).2 ≡ other ∷ [])
        × (send 1 other ≡ response status)
  unfolding reselect on_alternate
  reselect-served x error s status = go (select_member mac encode s.pool x.request s.attempted).0
    where
      next : Selection
      next = record s { pool = (select_member mac encode s.pool x.request s.attempted).1 }

      go :
          (o : Option Member)
          → (on_alternate mac encode send x error next o).0 ≡ served status
          → (other : String) × ((on_alternate mac encode send x error next o).2 ≡ other ∷ [])
            × (send 1 other ≡ response status)
      go none e = cc
      go (some m) e =
          let (a, b) = second_try-served x error (set_member m next) status e in (m.config.id, a, b)

  after_failure-served :
      (x : Exchange) (error : Text) (s : Selection) (status : ℕ)
      → (after_failure mac encode send x error s).0 ≡ served status
      → (other : String) × ((after_failure mac encode send x error s).2 ≡ other ∷ [])
        × (send 1 other ≡ response status)
  unfolding after_failure
  after_failure-served x error s status = go (retryable x)
    where
      branch : Bool → Reply × Selection × List String
      branch b = if b then reselect mac encode send x error s else (refused (error ∷ []), s, [])

      go :
          (b : Bool)
          → (branch b).0 ≡ served status
          → (other : String) × ((branch b).2 ≡ other ∷ []) × (send 1 other ≡ response status)
      go true e = reselect-served x error s status e
      go false e = cc

  -- What is returned as a response was received: the last member that the request was sent to gave it.
  pub round_trip_served :
      (x : Exchange) (s : Selection) (status : ℕ)
      → (round_trip mac encode send x s).0 ≡ served status
      → (((round_trip mac encode send x s).2 ≡ s.member ∷ []) × (send 0 s.member ≡ response status))
        ⊎ ((other : String) × ((round_trip mac encode send x s).2 ≡ s.member ∷ other ∷ [])
            × (send 1 other ≡ response status))
  unfolding round_trip
  round_trip_served x s status = go (send 0 s.member)
    where
      go :
          (o : Outcome)
          → (on_outcome mac encode send x s o).0 ≡ served status
          → (((on_outcome mac encode send x s o).2 ≡ s.member ∷ []) × (o ≡ response status))
            ⊎ ((other : String) × ((on_outcome mac encode send x s o).2 ≡ s.member ∷ other ∷ [])
                × (send 1 other ≡ response status))
      go (response n) e = inl (refl, cc)
      go (failed error) e =
          let s1 = in_pool (λ m. record_failure error (counted m)) s in
          let (other, sent, got) = after_failure-served x error s1 status e in
          inr (other, ap (◌∷◌ s.member) sent, got)
