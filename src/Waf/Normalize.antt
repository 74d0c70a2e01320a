-- ===== src/Waf/Normalize.antt =====
-- The views of a request that rules look at: internal/waf/normalize.go. A text stands for its bytes;
-- percent decoding is modelled on them. Go's UTF-8 coding, its replacement of invalid UTF-8, its HTML
-- unescaping and its case tables are parameters.
pub mod Decoding
use mathlib.Core.List.{foldr}
use cherry_waf.Base.{
  ℕ, zero, suc, ◌+◌, ◌-◌, ◌*◌, ◌/◌, ◌%◌, ◌^◌, ◌≤◌, ◌<◌, min, max, String, ◌≡◌, refl, sym, ap, subst,
  fun_ext, ◌∙◌, ◌≢◌, ◌↔◌, ◌⊎◌, inl, inr, Bool, true, false, not, ◌&&◌, ◌||◌, Option, none, some,
  List, [], ◌∷◌, ◌++◌, map, arith, eq_iff, ltb, leb, if◌then◌else◌, ltb→lt, lt→ltb, leb→le, nat_beq,
  nat_beq_iff, Bool-cases, Option-cases, length, get_elem?, take, drop, In, All, any, all, keep_if,
  find_first, length-append, length-take-le, length-keep_if-le, In-keep_if, In-keep_if_of, All-In,
  find_first-some, find_first-none, Eq, ◌==◌, list_beq, list_beq_iff, ==_refl, Text, codes, nat_eq,
  string_eq, text_eq, if_both, between, is_space, trim_left, trim_right, trim_space, rune_len,
  byte_len, strip_prefix, strip_suffix, to_lower, ◌>>=◌,
}
use cherry_waf.Waf.{text_lt}

abbrev pub Byte : Type 0
Byte = ℕ

abbrev pub hex_value : Byte → Option ℕ
hex_value c =
    if between b'0' b'9' c
    then some (c - b'0')
    else if between b'a' b'f' c
    then some (c - b'a' + 10)
    else if between b'A' b'F' c
    then some (c - b'A' + 10)
    else none

-- What stands for a byte that is no escape: url.QueryUnescape reads `+` as a space.
abbrev pub plain : Bool → Byte → Byte
plain query c = if query && nat_beq c b'+' then 32 else c

abbrev pub pair_value : Option ℕ → Option ℕ → Option ℕ
pair_value (some hi) (some lo) = some (hi * 16 + lo)
pair_value _ _ = none

abbrev pub cons_some : Option ℕ → Option Text → Option Text
cons_some (some c) (some s) = some (c ∷ s)
cons_some _ _ = none

-- `url.PathUnescape`, and with `query` `url.QueryUnescape`; `none` is their error.
unfoldable pub unescape : Bool → Text → Option Text
unescape query [] = some []
unescape query (c ∷ []) = if nat_beq c b'%' then none else some (plain query c ∷ [])
unescape query (c ∷ d ∷ []) =
    let rest = unescape query (d ∷ []) in
    if nat_beq c b'%' then none else cons_some (some (plain query c)) rest
unescape query (c ∷ h ∷ l ∷ s) =
    let escaped = unescape query s in
    let rest = unescape query (h ∷ l ∷ s) in
    if nat_beq c b'%'
    then cons_some (pair_value (hex_value h) (hex_value l)) escaped
    else cons_some (some (plain query c)) rest

-- `decodePath` and `decodeQuery`: until nothing changes, an error, or the rounds are used up.
unfoldable pub decode : Bool → ℕ → Text → Text
decode query zero value = value
decode query (suc rounds) value = elim (unescape query value) [
  | none ↦ value
  | some decoded ↦
      let rest = decode query rounds decoded in if decoded == value then value else rest
]

-- What the code takes from Go's library.
pub record Go : Type 0 where
  pub to_valid_utf8 : Text → Text
  pub runes : Text → List ℕ
  pub bytes : List ℕ → Text
  pub unescape_html : Text → Text
  pub lower : ℕ → ℕ
  pub upper : ℕ → ℕ

-- `unicode.IsControl`, of a rune.
abbrev pub is_control : ℕ → Bool
is_control c = ltb c 32 || between 0x7f 0x9f c

abbrev pub blank_control : ℕ → ℕ
blank_control c =
    if is_control c && not (nat_beq c 10 || nat_beq c 13 || nat_beq c 9) then 32 else c

-- A request, as the engine reads it: its headers with their values by name.
pub record Request : Type 0 where
  pub method : Text
  pub escaped_path : Text
  pub raw_query : Text
  pub headers : List (Text × List Text)
  pub cookies : List (Text × Text)
  pub known_length : Bool
  pub transfer_encoding : List String

module _ (go : Go) where
  -- `strings.Map`: rune by rune.
  abbrev pub map_runes : (ℕ → ℕ) → Text → Text
  map_runes f value = go.bytes (map f (go.runes value))

  abbrev pub lower_text : Text → Text
  lower_text = map_runes (to_lower go.lower)

  -- `strings.ToUpper`
  abbrev pub upper_text : Text → Text
  upper_text =
      map_runes λ c. if ltb c 0x80 then (if between b'a' b'z' c then c - 32 else c) else go.upper c

  pub normalize_text : Bool → Text → Text
  normalize_text query_decode value =
      let valid = go.to_valid_utf8 value in
      let decoded = if query_decode then decode true 2 valid else valid in
      let shown = keep_if (λ c. not (nat_beq c 0)) (go.unescape_html decoded) in
      lower_text (map_runes blank_control shown)

  pub normalize_path : Text → Text
  normalize_path value = normalize_text false (decode false 3 value)

  pub normalize_query : Text → Text
  normalize_query value = normalize_text false (decode true 3 value)

  insert_header : Text × List Text → List (Text × List Text) → List (Text × List Text)
  insert_header h [] = h ∷ []
  insert_header h (x ∷ xs) = if text_lt x.0 h.0 then x ∷ insert_header h xs else h ∷ x ∷ xs

  sort_headers : List (Text × List Text) → List (Text × List Text)
  sort_headers [] = []
  sort_headers (h ∷ hs) = insert_header h (sort_headers hs)

  header_values : List Text → Text
  header_values [] = []
  header_values (v ∷ vs) = normalize_text true v ++ 32 ∷ header_values vs

  header_lines : List (Text × List Text) → Text
  unfolding header_values
  header_lines [] = []
  header_lines ((key, values) ∷ hs) =
      lower_text key ++ b':' ∷ (header_values values ++ 10 ∷ header_lines hs)

  pub normalize_headers : List (Text × List Text) → Text
  unfolding sort_headers insert_header header_lines
  normalize_headers headers = header_lines (sort_headers headers)

  pub normalize_cookies : List (Text × Text) → Text
  normalize_cookies [] = []
  normalize_cookies ((name, value) ∷ cs) =
      lower_text name ++ b'=' ∷ (normalize_text true value ++ b';' ∷ normalize_cookies cs)

  -- `requestTargets`, as the function that reads the map: no entry reads as the empty text.
  unfoldable pub request_targets : Request → Text → String → Text
  unfolding normalize_path normalize_query normalize_headers normalize_cookies normalize_text
  request_targets r body target =
      if target == "method"
      then upper_text r.method
      else if target == "path"
      then normalize_path r.escaped_path
      else if target == "query"
      then normalize_query r.raw_query
      else if target == "headers"
      then normalize_headers r.headers
      else if target == "cookies"
      then normalize_cookies r.cookies
      else if target == "body"
      then normalize_text true body
      else []
