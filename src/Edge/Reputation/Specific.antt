-- ===== src/Edge/Reputation/Specific.antt =====
-- Which entry a lookup answers with, in the reputation store of internal/reputation/store.go.
use cherry_waf.Base.{
  ℕ, ◌≤◌, ◌≡◌, refl, sym, ap, subst, ◌∙◌, ◌⊎◌, inl, inr, true, false, Option, none, some, List, [],
  ◌∷◌, arith, ltb, Bool-cases, In, All, find_first, All-In, find_first-some, find_first-none, Text,
  nat_eq, string_eq, text_eq, trim_space,
}
use cherry_waf.Edge.{Addr, Prefix, unmap, contains}
use cherry_waf.Edge.Reputation.{
  Entry, Store, insert_entry, sort_entries, store_of, match_of, matched, lookup_parsed, add_all,
  load, lookup,
}

-- The longer prefixes come first.
abbrev pub Sorted : List Entry → Type 0
Sorted [] = Unit
Sorted (e ∷ es) = All (λ x. x.prefix.bits ≤ e.prefix.bits) es × Sorted es

insert-All :
    (n : ℕ) (e : Entry) (es : List Entry)
    → e.prefix.bits ≤ n
    → All (λ x. x.prefix.bits ≤ n) es
    → All (λ x. x.prefix.bits ≤ n) (insert_entry e es)
unfolding insert_entry
insert-All n e [] h k = (h, tt)
insert-All n e (x ∷ xs) h k = elim (Bool-cases (ltb e.prefix.bits x.prefix.bits)) [
  | inl l ↦ rw l (k.0, insert-All n e xs h k.1)
  | inr l ↦ rw l (h, k)
]

All-le :
    (m n : ℕ) (es : List Entry)
    → m ≤ n
    → All (λ x. x.prefix.bits ≤ m) es
    → All (λ x. x.prefix.bits ≤ n) es
All-le m n [] h k = tt
All-le m n (e ∷ es) h k = (omega (arith, h, k.0), All-le m n es h k.1)

insert-Sorted : (e : Entry) (es : List Entry) → Sorted es → Sorted (insert_entry e es)
unfolding insert_entry
insert-Sorted e [] h = (tt, tt)
insert-Sorted e (x ∷ xs) h = elim (Bool-cases (ltb e.prefix.bits x.prefix.bits)) [
  | inl l ↦ rw l (insert-All x.prefix.bits e xs (ground (arith, l)) h.0, insert-Sorted e xs h.1)
  | inr l ↦
      rw l ((ground (arith, l), All-le x.prefix.bits e.prefix.bits xs (ground (arith, l)) h.0), h)
]

sort-Sorted : (es : List Entry) → Sorted (sort_entries es)
unfolding sort_entries
sort-Sorted [] = tt
sort-Sorted (e ∷ es) = insert-Sorted e (sort_entries es) (sort-Sorted es)

load-Sorted :
    (mode : Text) (loaded : Option (List Entry)) (s : Store)
    → store_of mode loaded ≡ some s
    → Sorted s.entries
load-Sorted mode none s h = cc
load-Sorted mode (some entries) s h =
    subst Sorted (ap (λ r. elim r [ none ↦ [] | some x ↦ x.entries ]) h) (sort-Sorted entries)

first_is :
    (y : Entry) (ys : List Entry) (e x : Entry)
    → Sorted (y ∷ ys)
    → In x (y ∷ ys)
    → y ≡ e
    → x.prefix.bits ≤ e.prefix.bits
first_is y ys e x o (inl same) h =
    subst (λ n. n ≤ e.prefix.bits) (ap (λ z. z.prefix.bits) (sym h ∙ sym same)) (omega arith)
first_is y ys e x o (inr later) h =
    subst (λ n. x.prefix.bits ≤ n) (ap (λ z. z.prefix.bits) h)
      (All-In (λ z. z.prefix.bits ≤ y.prefix.bits) x ys o.0 later)

-- The first entry found contains the address, and no entry that does is more specific.
first_found :
    (a : Addr) (es : List Entry) (e : Entry)
    → Sorted es
    → find_first (λ x. contains x.prefix a) es ≡ some e
    → (x : Entry) → In x es
    → contains x.prefix a ≡ true
    → x.prefix.bits ≤ e.prefix.bits
unfolding find_first
first_found a [] e o h x m k = elim m [ ]
first_found a (y ∷ ys) e o h x m k = elim (Bool-cases (contains y.prefix a)) [
  | inl c ↦ first_is y ys e x o m (ground (arith, c, h))
  | inr c ↦ elim m [
    | inl same ↦ absurd (ground (arith, c, k, ap (λ z. contains z.prefix a) same))
    | inr later ↦ first_found a ys e o.1 (ground (arith, c, h)) x later k
  ]
]

-- The entry that a match is made of: it is in the store, contains the address, and no entry of the
-- store that contains it has a longer prefix.
abbrev pub MostSpecific : Store → Addr → Entry → Type 0
MostSpecific s a e =
    In e s.entries
    × (contains e.prefix a ≡ true)
    × ((x : Entry) → In x s.entries → contains x.prefix a ≡ true → x.prefix.bits ≤ e.prefix.bits)

module _ (parse_addr : Text → Option Addr) (parse_network : Text → Option Prefix) where
  -- In a store as it is loaded, the lookup of an address that parses either finds nothing, and then no
  -- entry contains the address, or answers with an entry of the store that contains it and has the
  -- longest prefix of those that do, whatever the order of the feeds' lines.
  pub lookup-MostSpecific :
      (mode : Text) (lines : List (Text × Text)) (s : Store) (value : Text) (a : Addr)
      → load parse_addr parse_network mode lines ≡ some s
      → parse_addr (trim_space value) ≡ some a
      → ((lookup parse_addr parse_network s value ≡ none)
          × ((x : Entry) → In x s.entries → contains x.prefix (unmap a) ≡ false))
        ⊎ ((e : Entry) × (lookup parse_addr parse_network s value ≡ some (match_of s.mode e))
            × MostSpecific s (unmap a) e)
  unfolding load lookup
  lookup-MostSpecific mode lines s value a loaded parsed =
      go (find_first (λ e. contains e.prefix (unmap a)) s.entries) refl
    where
      found :
          lookup parse_addr parse_network s value
          ≡ matched s.mode (find_first (λ e. contains e.prefix (unmap a)) s.entries)
      found = ap (lookup_parsed s) parsed

      o : Sorted s.entries
      o = load-Sorted mode (add_all parse_addr parse_network lines []) s loaded

      go :
          (r : Option Entry)
          → find_first (λ e. contains e.prefix (unmap a)) s.entries ≡ r
          → ((lookup parse_addr parse_network s value ≡ none)
              × ((x : Entry) → In x s.entries → contains x.prefix (unmap a) ≡ false))
            ⊎ ((e : Entry) × (lookup parse_addr parse_network s value ≡ some (match_of s.mode e))
                × MostSpecific s (unmap a) e)
      go none h = inl (
        found ∙ ap (matched s.mode) h,
        λ x. find_first-none (λ e. contains e.prefix (unmap a)) s.entries x h,
      )
      go (some e) h =
          let here = find_first-some (λ x. contains x.prefix (unmap a)) s.entries e h in
          inr (
            e,
            found ∙ ap (matched s.mode) h,
            (here.0, here.1, first_found (unmap a) s.entries e o h),
          )
