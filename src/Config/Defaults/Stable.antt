-- ===== src/Config/Defaults/Stable.antt =====
-- Filling in the defaults a second time (applyDefaults of internal/config/config.go).
use cherry_waf.Base.{
  ℕ, ◌+◌, String, ◌≡◌, refl, inl, inr, Bool, true, false, List, [], ◌∷◌, map, if◌then◌else◌,
  Bool-cases, Eq, ◌==◌, nat_eq, string_eq, text_eq,
}
use cherry_waf.Base.Trim.{trim_string, trim_string_idem}
use cherry_waf.Proxy.{ServerPool, PoolMember}
use cherry_waf.Config.Types.{VirtualHost, Config}
use cherry_waf.Config.Defaults.{
  fill, member_id, default_member, default_members, default_pool, default_persistence,
  default_bot_policy, default_virtual_host, apply_defaults,
}

fill_idem :
    {A : Type 0} ⦃e : Eq A⦄ (empty default value : A)
    → fill empty default (fill empty default value) ≡ fill empty default value
unfolding fill
fill_idem empty default value = elim (Bool-cases (value == empty)) [
  | inl e ↦ rw e (if_same (default == empty) default)
  | inr e ↦ rw (e, e) refl
]
  where
    if_same : {A : Type 0} (b : Bool) (a : A) → (if b then a else a) ≡ a
    if_same true a = refl
    if_same false a = refl

virtual_host_stable :
    (v : VirtualHost) → default_virtual_host (default_virtual_host v) ≡ default_virtual_host v
unfolding default_virtual_host default_persistence default_bot_policy
virtual_host_stable v = elim (Bool-cases v.bot_policy.enabled) [
  | inl e ↦ simp (fill_idem, trim_string_idem, e)
  | inr e ↦ simp (fill_idem, trim_string_idem, e)
]

map_stable :
    {A : Type 0} (f : A → A) (xs : List A) → ((a : A) → f (f a) ≡ f a) → map f (map f xs) ≡ map f xs
map_stable f [] h = refl
map_stable f (x ∷ xs) h = rw (h x, map_stable f xs h) refl

module _ (itoa : ℕ → String)
    (trimmed : (n : ℕ) → trim_string (member_id itoa n) ≡ member_id itoa n) where
  id_stable :
      (n : ℕ) (id : String)
      → trim_string (fill "" (member_id itoa n) (trim_string id))
        ≡ fill "" (member_id itoa n) (trim_string id)
  unfolding fill
  id_stable n id = elim (Bool-cases (trim_string id == "")) [
    | inl e ↦ rw e (trimmed n)
    | inr e ↦ rw e (trim_string_idem id)
  ]

  member_stable :
      (n : ℕ) (m : PoolMember)
      → default_member itoa n (default_member itoa n m) ≡ default_member itoa n m
  unfolding default_member
  member_stable n m = simp (fill_idem, id_stable n m.id)

  members_stable :
      (n : ℕ) (ms : List PoolMember)
      → default_members itoa n (default_members itoa n ms) ≡ default_members itoa n ms
  unfolding default_members
  members_stable n [] = refl
  members_stable n (m ∷ ms) = rw (member_stable n m, members_stable (n + 1) ms) refl

  pool_stable : (p : ServerPool) → default_pool itoa (default_pool itoa p) ≡ default_pool itoa p
  unfolding default_pool
  pool_stable p = simp (fill_idem, trim_string_idem, members_stable 0 p.members)

  -- Filling in the defaults twice is filling them in once, where the names made for members have no
  -- white space around them.
  pub apply_defaults_once :
      (c : Config) → apply_defaults itoa (apply_defaults itoa c) ≡ apply_defaults itoa c
  unfolding apply_defaults
  apply_defaults_once c = simp (
    fill_idem,
    map_stable (default_pool itoa) c.server_pools pool_stable,
    map_stable default_virtual_host c.virtual_hosts virtual_host_stable,
  )
