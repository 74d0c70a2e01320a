-- ===== src/Waf/Normalize/Decoding.antt =====
-- Percent encoding in layers, for decodePath and decodeQuery of internal/waf/normalize.go.
use cherry_waf.Base.{
  ℕ, zero, suc, ◌+◌, ◌*◌, ◌≤◌, ◌<◌, ◌≡◌, refl, sym, ap, subst, ◌∙◌, inl, inr, Bool, true, false,
  ◌&&◌, some, [], ◌∷◌, arith, Bool-cases, All, ◌==◌, list_beq_iff, ==_refl, Text, nat_eq, string_eq,
  text_eq,
}
use cherry_waf.Waf.Normalize.{unescape, decode, hex_value, plain}

-- A hexadecimal digit of either case, with its value.
pub data HexDigit : ℕ → ℕ → Type 0 where
  decimal : (n : ℕ) → n < 10 → HexDigit (b'0' + n) n
  lower_case : (n : ℕ) → n < 6 → HexDigit (b'a' + n) (10 + n)
  upper_case : (n : ℕ) → n < 6 → HexDigit (b'A' + n) (10 + n)

-- A text, and what it encodes: each byte is written as an escape, as itself if it is not a percent sign
-- (nor, in a query, a plus sign), or, if it is a space of a query, as a plus sign.
pub data Encodes (query : Bool) : Text → Text → Type 0 where
  done : Encodes query [] []
  itself :
      {c : ℕ} {s t : Text}
      → (c == b'%') ≡ false
      → (query && (c == b'+')) ≡ false
      → Encodes query s t
      → Encodes query (c ∷ s) (c ∷ t)
  space : {s t : Text} → query ≡ true → Encodes query s t → Encodes query (b'+' ∷ s) (32 ∷ t)
  escaped :
      {h l hi lo : ℕ} {s t : Text}
      → HexDigit h hi
      → HexDigit l lo
      → Encodes query s t
      → Encodes query (b'%' ∷ h ∷ l ∷ s) ((hi * 16 + lo) ∷ t)

hex_value-HexDigit : {c n : ℕ} → HexDigit c n → hex_value c ≡ some n
hex_value-HexDigit (decimal n h) = ground arith
hex_value-HexDigit (lower_case n h) = ground arith
hex_value-HexDigit (upper_case n h) = ground arith

unescape_step :
    (query : Bool) (c : ℕ) (s t : Text)
    → (c == b'%') ≡ false
    → unescape query s ≡ some t
    → unescape query (c ∷ s) ≡ some (plain query c ∷ t)
unfolding unescape
unescape_step query c [] t h k = ground (arith, h, k)
unescape_step query c (d ∷ []) t h k = ground (arith, h, k)
unescape_step query c (d ∷ e ∷ s) t h k = ground (arith, h, k)

unescape-Encodes : (query : Bool) {s t : Text} → Encodes query s t → unescape query s ≡ some t
unfolding unescape
unescape-Encodes query done = refl
unescape-Encodes query (itself {c} {s} {t} h k e) =
    unescape_step query c s t h (unescape-Encodes query e)
    ∙ ap (λ x. some (x ∷ t)) (ground (arith, k))
unescape-Encodes query (space {s} {t} q e) =
    unescape_step query b'+' s t refl (unescape-Encodes query e)
    ∙ ap (λ x. some (x ∷ t)) (ground (arith, q))
unescape-Encodes query (escaped {h} {l} {hi} {lo} {s} {t} x y e) =
    rw (hex_value-HexDigit x, hex_value-HexDigit y, unescape-Encodes query e) refl

-- A text that decoding leaves alone.
abbrev pub IsPlain : Bool → Text → Type 0
IsPlain query = All (λ c. ((c == b'%') ≡ false) × ((query && (c == b'+')) ≡ false))

Encodes-plain : (query : Bool) (s : Text) → IsPlain query s → Encodes query s s
Encodes-plain query [] h = done
Encodes-plain query (c ∷ s) h = itself h.0.0 h.0.1 (Encodes-plain query s h.1)

-- A text in layers of encoding, each over the whole of the next.
pub data Layers (query : Bool) : ℕ → Text → Text → Type 0 where
  bare : {s : Text} → Layers query 0 s s
  layer : {k : ℕ} {s t u : Text} → Encodes query s t → Layers query k t u → Layers query (suc k) s u

-- What decoding leaves alone stands for itself under any layers.
Layers-same :
    (query : Bool) {k : ℕ} {s u : Text} → Layers query k s u → unescape query s ≡ some s → s ≡ u
Layers-same query bare h = refl
Layers-same query (layer {k} {s} {t} {u} e rest) h =
    let same : t ≡ s = some_inj (sym (unescape-Encodes query e) ∙ h) in
    sym same ∙ Layers-same query rest (subst (λ x. unescape query x ≡ some x) (sym same) h)
  where
    some_inj : {x y : Text} → some x ≡ some y → x ≡ y
    some_inj h = cc

-- All layers of percent encoding come off, with escapes of either case beside bytes that are not
-- escaped, as many of them as the loop has rounds, around any bytes that are no escapes themselves (nor,
-- in a query, a plus sign).
pub decode-Layers :
    (query : Bool) (n : ℕ) {k : ℕ} {s u : Text}
    → k ≤ n
    → Layers query k s u
    → IsPlain query u
    → decode query n s ≡ u
unfolding decode
decode-Layers query zero h bare p = refl
decode-Layers query zero h (layer e rest) p = absurd (omega arith)
decode-Layers query (suc n) h (bare {s}) p =
    rw (unescape-Encodes query (Encodes-plain query s p), decode) (rw (==_refl s) refl)
decode-Layers query (suc n) h (layer {k} {s} {t} {u} e rest) p = elim (Bool-cases (t == s)) [
  | inl same ↦
      let stays : t ≡ s = (list_beq_iff t s).0 same in
      rw (unescape-Encodes query e, decode)
        (rw same (Layers-same query (layer e rest) (unescape-Encodes query e ∙ ap some stays)))
  | inr apart ↦
      rw (unescape-Encodes query e, decode)
        (rw apart (decode-Layers query n (omega (arith, h)) rest p))
]
