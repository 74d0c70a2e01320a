-- ===== src/Proxy/Select/Balance.antt =====
-- What leastConnections and primaryBackup of internal/proxy/proxy.go choose.
use cherry_waf.Base.{
  ℕ, ◌*◌, ◌≤◌, ◌<◌, ◌≡◌, refl, sym, ap, subst, inl, inr, true, false, List, [], ◌∷◌, arith,
  if◌then◌else◌, Bool-cases, In, All, nat_eq, string_eq, text_eq,
}
use native.Mathlib.Nat.{le_of_mul-le-mul_right, mul-le-mul_right, le_trans}
use cherry_waf.Proxy.{Member, weight_of}
use cherry_waf.Proxy.Select.{least_connections, primary_backup, less_loaded}

-- `s` carries no more connections for its weight than `m`, and at the same ratio has had no more requests.
abbrev pub NoMoreLoaded : Member → Member → Type 0
NoMoreLoaded s m =
    (s.active * weight_of m ≤ m.active * weight_of s)
    × (s.active * weight_of m ≡ m.active * weight_of s → s.requests ≤ m.requests)

-- `s` has a smaller priority number than `m`, or the same and no more connections.
abbrev pub NoLaterThan : Member → Member → Type 0
NoLaterThan s m =
    (s.config.priority ≤ m.config.priority)
    × (s.config.priority ≡ m.config.priority → s.active ≤ m.active)

primary_backup_min :
    (s : Member) (ms : List Member)
    → NoLaterThan (primary_backup s ms) s × All (NoLaterThan (primary_backup s ms)) ms
unfolding primary_backup
primary_backup_min s [] = (omega arith, tt)
primary_backup_min s (m ∷ ms) = ground (arith, primary_backup_min s ms, primary_backup_min m ms)

primary_backup-In : (s : Member) (ms : List Member) → In (primary_backup s ms) (s ∷ ms)
unfolding primary_backup
primary_backup-In s [] = inl refl
primary_backup-In s (m ∷ ms) = ground (arith, primary_backup-In s ms, primary_backup-In m ms)

-- The member chosen is one of the candidates, and no candidate goes before it.
pub primary_backup_best :
    (m : Member) (ms : List Member)
    → In (primary_backup m ms) (m ∷ ms) × All (NoLaterThan (primary_backup m ms)) (m ∷ ms)
primary_backup_best m ms = (primary_backup-In m ms, primary_backup_min m ms)

ratio_trans : (a b c u v w : ℕ) → 0 < v → a * v ≤ b * u → b * w ≤ c * v → a * w ≤ c * u
ratio_trans a b c u v w p h k =
    le_of_mul-le-mul_right {k = v}
      (omega (
        arith,
        mul-le-mul_right {m = a * v} {n = b * u} w h,
        mul-le-mul_right {m = b * w} {n = c * v} u k,
      ))
      p

ratio_eq :
    (a b c u v w : ℕ)
    → 0 < u
    → 0 < w
    → a * v ≤ b * u
    → b * w ≤ c * v
    → a * w ≡ c * u
    → (a * v ≡ b * u) × (b * w ≡ c * v)
ratio_eq a b c u v w p q h k e =
    let e' : a * w * v ≡ c * u * v = ap (λ x. x * v) e in
    let first : b * u ≤ a * v =
      le_of_mul-le-mul_right {k = w}
        (omega (arith, e', mul-le-mul_right {m = b * w} {n = c * v} u k)) q in
    let second : c * v ≤ b * w =
      le_of_mul-le-mul_right {k = u}
        (omega (arith, e', mul-le-mul_right {m = a * v} {n = b * u} w h)) p in
    (omega arith, omega arith)

NoMoreLoaded-trans : (a b c : Member) → NoMoreLoaded a b → NoMoreLoaded b c → NoMoreLoaded a c
NoMoreLoaded-trans a b c h k = (
  ratio_trans a.active b.active c.active (weight_of a) (weight_of b) (weight_of c) (omega arith) h.0
      k.0,
  λ e.
      let both =
        ratio_eq a.active b.active c.active (weight_of a) (weight_of b) (weight_of c) (omega arith)
          (omega arith) h.0 k.0 e in
      le_trans (h.1 both.0) (k.1 both.1),
)

NoMoreLoaded-refl : (a : Member) → NoMoreLoaded a a
NoMoreLoaded-refl a = (omega arith, λ e. omega arith)

less_loaded-NoMoreLoaded : (m s : Member) → less_loaded m s ≡ true → NoMoreLoaded m s
less_loaded-NoMoreLoaded m s h = ground arith

not-less_loaded : (m s : Member) → less_loaded m s ≡ false → NoMoreLoaded s m
not-less_loaded m s h = ground arith

least_connections_take :
    (s m : Member) (ms : List Member)
    → less_loaded m s ≡ true
    → least_connections s (m ∷ ms) ≡ least_connections m ms
unfolding least_connections
least_connections_take s m ms h = ap (λ b. least_connections (if b then m else s) ms) h

least_connections_keep :
    (s m : Member) (ms : List Member)
    → less_loaded m s ≡ false
    → least_connections s (m ∷ ms) ≡ least_connections s ms
unfolding least_connections
least_connections_keep s m ms h = ap (λ b. least_connections (if b then m else s) ms) h

least_connections_nil : (s : Member) → least_connections s [] ≡ s
unfolding least_connections
least_connections_nil s = refl

abbrev Least : Member → Member → List Member → Type 0
Least x s ms = NoMoreLoaded x s × All (NoMoreLoaded x) ms

least_connections_min :
    (s : Member) (ms : List Member)
    → NoMoreLoaded (least_connections s ms) s × All (NoMoreLoaded (least_connections s ms)) ms
least_connections_min s [] = rw (least_connections_nil s) (NoMoreLoaded-refl s, tt)
least_connections_min s (m ∷ ms) = elim (Bool-cases (less_loaded m s)) [
  | inl less ↦
      let ih = least_connections_min m ms in
      subst (λ x. Least x s (m ∷ ms)) (sym (least_connections_take s m ms less))
        (
          NoMoreLoaded-trans (least_connections m ms) m s ih.0 (less_loaded-NoMoreLoaded m s less),
          ih,
        )
  | inr more ↦
      let ih = least_connections_min s ms in
      subst (λ x. Least x s (m ∷ ms)) (sym (least_connections_keep s m ms more))
        (
          ih.0,
          (NoMoreLoaded-trans (least_connections s ms) s m ih.0 (not-less_loaded m s more), ih.1),
        )
]

least_connections-In : (s : Member) (ms : List Member) → In (least_connections s ms) (s ∷ ms)
least_connections-In s [] = rw (least_connections_nil s) (inl refl)
least_connections-In s (m ∷ ms) = elim (Bool-cases (less_loaded m s)) [
  | inl less ↦
      subst (λ x. In x (s ∷ m ∷ ms)) (sym (least_connections_take s m ms less))
        (inr (least_connections-In m ms))
  | inr more ↦
      subst (λ x. In x (s ∷ m ∷ ms)) (sym (least_connections_keep s m ms more))
        (skip (least_connections-In s ms))
]
  where
    skip : {x : Member} → In x (s ∷ ms) → In x (s ∷ m ∷ ms)
    skip (inl e) = inl e
    skip (inr h) = inr (inr h)

-- The member chosen is one of the candidates, and carries the fewest connections for its weight, the
-- fewest requests deciding between equals.
pub least_connections_best :
    (m : Member) (ms : List Member)
    → In (least_connections m ms) (m ∷ ms) × All (NoMoreLoaded (least_connections m ms)) (m ∷ ms)
least_connections_best m ms = (least_connections-In m ms, least_connections_min m ms)
