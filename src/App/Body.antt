-- ===== src/App/Body.antt =====
-- inspectionBody of internal/app/app.go: the body that the engine inspects.
use cherry_waf.Base.{
  ℕ, zero, suc, ◌≤◌, ◌≡◌, refl, sym, ap, subst, ◌∙◌, ◌⊎◌, inl, inr, Bool, true, false, not, ◌&&◌,
  ◌||◌, Option, none, some, List, [], ◌∷◌, map, arith, ltb, if◌then◌else◌, length, take, all, ◌==◌,
  Text, codes, nat_eq, string_eq, text_eq, trim_space, to_lower,
}
use cherry_waf.App.{Stream}

-- The body to inspect with the one that replaces the request's, or an error.
pub data Inspection : Type 0 where
  body : List ℕ → Option (List ℕ) → Inspection
  too_large : Inspection
  unsupported : Text → Inspection
  unreadable : Inspection

-- `io.ReadAll(io.LimitReader(…, limit))`
unfoldable pub read_limited : ℕ → Stream → Option (List ℕ)
read_limited limit s =
    if ltb (length s.bytes) limit && s.fails then none else some (take limit s.bytes)

abbrev decompressed : ℕ → Bool → List ℕ → Option (List ℕ) → Inspection
decompressed limit close_fails raw none = unreadable
decompressed limit close_fails raw (some bytes) =
    if close_fails
    then unreadable
    else if ltb limit (length bytes)
    then too_large
    else body bytes (some raw)

abbrev gunzipped : ℕ → List ℕ → Option Stream → Inspection
gunzipped limit raw none = unreadable
gunzipped limit raw (some s) = decompressed limit s.close_fails raw (read_limited (suc limit) s)

module _ (lower : ℕ → ℕ) (gunzip : List ℕ → Option Stream) where
  -- `encoding`, in lower case and without white space around it.
  abbrev decoded : ℕ → List ℕ → Text → Inspection
  decoded limit raw encoding =
      if not (encoding == [] || encoding == codes "identity" || encoding == codes "gzip")
      then unsupported encoding
      else if encoding == codes "gzip"
      then gunzipped limit raw (gunzip raw)
      else body raw (some raw)

  abbrev on_raw : ℕ → Text → Option (List ℕ) → Inspection
  on_raw limit encoding none = unreadable
  on_raw limit encoding (some raw) =
      if ltb limit (length raw)
      then too_large
      else decoded limit raw (map (to_lower lower) (trim_space encoding))

  -- `inspectionBody`; `encoding` is the joined values of Content-Encoding.
  unfoldable pub inspection_body : ℕ → Text → Option Stream → Inspection
  unfolding read_limited
  inspection_body limit encoding none = body [] none
  inspection_body limit encoding (some s) = on_raw limit encoding (read_limited (suc limit) s)

take-all : (n : ℕ) (xs : List ℕ) → length (take (suc n) xs) ≤ n → take (suc n) xs ≡ xs
take-all n [] h = refl
take-all zero (x ∷ xs) h = absurd (ground (arith, h))
take-all (suc n) (x ∷ xs) h = ap (λ t. x ∷ t) (take-all n xs (ground (arith, h)))

some_inj : {A : Type 0} {a b : A} → some a ≡ some b → a ≡ b
some_inj {a = a} h = ap (λ o. elim o [ none ↦ a | some x ↦ x ]) h

read_some :
    (b : Bool) (x y : List ℕ) → (if b then none else some x) ≡ some y → (b ≡ false) × (x ≡ y)
read_some true x y h = absurd (ground (arith, h))
read_some false x y h = (refl, some_inj h)

-- A limited read that stays within the limit has read everything.
read_whole :
    (limit : ℕ) (s : Stream) (bytes : List ℕ)
    → read_limited (suc limit) s ≡ some bytes
    → length bytes ≤ limit
    → (bytes ≡ s.bytes) × (s.fails ≡ false)
unfolding read_limited
read_whole limit s bytes h bound =
    let (early, got) =
      read_some (ltb (length s.bytes) (suc limit) && s.fails) (take (suc limit) s.bytes) bytes h in
    let same : bytes ≡ s.bytes =
      sym got ∙ take-all limit s.bytes (subst (λ x. length x ≤ limit) (sym got) bound) in
    (same, ground (arith, early, subst (λ x. length x ≤ limit) same bound))

-- What the engine is given to inspect of a stream, where nothing was refused.
abbrev pub Whole : (List ℕ → Option Stream) → ℕ → Stream → List ℕ → Type 0
Whole gunzip limit s bytes =
    (length bytes ≤ limit)
    × ((bytes ≡ s.bytes)
        ⊎ ((z : Stream) × (gunzip s.bytes ≡ some z) × (bytes ≡ z.bytes) × (z.fails ≡ false)))

bodies_same : {b c : List ℕ} {r q : Option (List ℕ)} → body b r ≡ body c q → (b ≡ c) × (r ≡ q)
bodies_same {b} {c} {r} {q} h =
    (ap (λ x. elim x [ body d o ↦ d | _ ↦ b ]) h, ap (λ x. elim x [ body d o ↦ o | _ ↦ r ]) h)

decompressed_body :
    (closing longer : Bool) {b c : List ℕ} {q r : Option (List ℕ)}
    → (if closing then unreadable else if longer then too_large else body b q) ≡ body c r
    → (longer ≡ false) × (b ≡ c) × (q ≡ r)
decompressed_body true longer h = absurd (ground (arith, h))
decompressed_body false true h = absurd (ground (arith, h))
decompressed_body false false h = let (same, kept) = bodies_same h in (refl, same, kept)

not_too_large :
    (longer : Bool) (i : Inspection) {b : List ℕ} {r : Option (List ℕ)}
    → (if longer then too_large else i) ≡ body b r
    → (longer ≡ false) × (i ≡ body b r)
not_too_large true i h = absurd (ground (arith, h))
not_too_large false i h = (refl, h)

module _ (lower : ℕ → ℕ) (gunzip : List ℕ → Option Stream) where
  unzipped-Whole :
      (limit : ℕ) (s z : Stream) (o : Option (List ℕ)) (bytes : List ℕ) (r : Option (List ℕ))
      → gunzip s.bytes ≡ some z
      → read_limited (suc limit) z ≡ o
      → decompressed limit z.close_fails s.bytes o ≡ body bytes r
      → (r ≡ some s.bytes) × Whole gunzip limit s bytes
  unzipped-Whole limit s z none bytes r g e h = absurd (ground (arith, h))
  unzipped-Whole limit s z (some got) bytes r g e h =
      let (short, same, kept) = decompressed_body z.close_fails (ltb limit (length got)) h in
      let bound : length got ≤ limit = ground (arith, short) in
      let (all, quiet) = read_whole limit z got e bound in
      (sym kept, (subst (λ x. length x ≤ limit) same bound, inr (z, g, sym same ∙ all, quiet)))

  gunzipped-Whole :
      (limit : ℕ) (s : Stream) (o : Option Stream) (bytes : List ℕ) (r : Option (List ℕ))
      → gunzip s.bytes ≡ o
      → gunzipped limit s.bytes o ≡ body bytes r
      → (r ≡ some s.bytes) × Whole gunzip limit s bytes
  gunzipped-Whole limit s none bytes r g h = absurd (ground (arith, h))
  gunzipped-Whole limit s (some z) bytes r g h =
      unzipped-Whole limit s z (read_limited (suc limit) z) bytes r g refl h

  decoded-Whole :
      (limit : ℕ) (s : Stream) (unknown gzip : Bool) (e : Text) (bytes : List ℕ)
      (r : Option (List ℕ))
      → length s.bytes ≤ limit
      → (if unknown
          then unsupported e
          else if gzip
          then gunzipped limit s.bytes (gunzip s.bytes)
          else body s.bytes (some s.bytes))
        ≡ body bytes r
      → (r ≡ some s.bytes) × Whole gunzip limit s bytes
  decoded-Whole limit s true gzip e bytes r bound h = absurd (ground (arith, h))
  decoded-Whole limit s false true e bytes r bound h =
      gunzipped-Whole limit s (gunzip s.bytes) bytes r refl h
  decoded-Whole limit s false false e bytes r bound h =
      let (same, kept) = bodies_same h in
      (sym kept, (subst (λ x. length x ≤ limit) same bound, inl (sym same)))

  raw-Whole :
      (limit : ℕ) (encoding : Text) (s : Stream) (o : Option (List ℕ)) (bytes : List ℕ)
      (r : Option (List ℕ))
      → read_limited (suc limit) s ≡ o
      → on_raw lower gunzip limit encoding o ≡ body bytes r
      → (s.fails ≡ false) × (r ≡ some s.bytes) × Whole gunzip limit s bytes
  raw-Whole limit encoding s none bytes r e h = absurd (ground (arith, h))
  raw-Whole limit encoding s (some raw) bytes r e h =
      let (short, go) = not_too_large (ltb limit (length raw)) _ h in
      let bound : length raw ≤ limit = ground (arith, short) in
      let (all, quiet) = read_whole limit s raw e bound in
      let (kept, whole) =
        decoded-Whole limit s _ _ _ bytes r (subst (λ x. length x ≤ limit) all bound) (
          subst
            (λ x.
              decoded lower gunzip limit x (map (to_lower lower) (trim_space encoding))
              ≡ body bytes r)
            all go) in
      (quiet, kept, whole)

  -- Where inspectionBody returns a body, the request's body was read to its end without an error and is
  -- what is sent on, and the engine inspects either that whole body or the whole of what it decompresses
  -- to, which is within the limit.
  pub inspection_body-Whole :
      (limit : ℕ) (encoding : Text) (s : Stream) (bytes : List ℕ) (r : Option (List ℕ))
      → inspection_body lower gunzip limit encoding (some s) ≡ body bytes r
      → (s.fails ≡ false) × (r ≡ some s.bytes) × Whole gunzip limit s bytes
  unfolding inspection_body
  inspection_body-Whole limit encoding s bytes r h =
      raw-Whole limit encoding s (read_limited (suc limit) s) bytes r refl h
