-- ===== src/Edge/Reputation.antt =====
-- The reputation store: internal/reputation/store.go.
pub mod Specific
use cherry_waf.Base.{
  ℕ, zero, suc, ◌+◌, ◌-◌, ◌*◌, ◌/◌, ◌%◌, ◌^◌, ◌≤◌, ◌<◌, min, max, String, ◌≡◌, refl, sym, ap, subst,
  fun_ext, ◌∙◌, ◌≢◌, ◌↔◌, ◌⊎◌, inl, inr, Bool, true, false, not, ◌&&◌, ◌||◌, Option, none, some,
  List, [], ◌∷◌, ◌++◌, map, arith, eq_iff, ltb, leb, if◌then◌else◌, ltb→lt, lt→ltb, leb→le, nat_beq,
  nat_beq_iff, Bool-cases, Option-cases, length, get_elem?, take, drop, In, All, any, all, keep_if,
  find_first, length-append, length-take-le, length-keep_if-le, In-keep_if, In-keep_if_of, All-In,
  find_first-some, find_first-none, Eq, ◌==◌, list_beq, list_beq_iff, ==_refl, Text, codes, nat_eq,
  string_eq, text_eq, if_both, between, is_space, trim_left, trim_right, trim_space, rune_len,
  byte_len, strip_prefix, strip_suffix, to_lower, ◌>>=◌,
}
use cherry_waf.Edge.{
  Addr, Prefix, bit_len, unmap, contains, masked, single, mask_found, single_found, parse_prefix,
}

pub record Entry : Type 0 where
  pub prefix : Prefix
  pub reason : Text

pub record Store : Type 0 where
  pub mode : Text
  pub entries : List Entry

pub record Match : Type 0 where
  pub prefix : Prefix
  pub reason : Text
  pub mode : Text

-- `strings.Cut` at a comment: what stands before it.
pub before_comment : Text → Text
before_comment [] = []
before_comment (c ∷ cs) = let rest = before_comment cs in if nat_beq c b'#' then [] else c ∷ rest

-- `strings.Fields`: the words, given the one that is being read.
abbrev push_word : Text → List Text → List Text
push_word [] words = words
push_word (c ∷ cs) words = (c ∷ cs) ∷ words

pub fields_from : Text → Text → List Text
unfolding is_space
fields_from word [] = push_word word []
fields_from word (c ∷ cs) =
    let ended = push_word word (fields_from [] cs) in
    let longer = fields_from (word ++ c ∷ []) cs in if is_space c then ended else longer

-- `strings.Join` with a space.
pub join_words : List Text → Text
join_words [] = []
join_words (w ∷ []) = w
join_words (w ∷ v ∷ ws) = w ++ b' ' ∷ join_words (v ∷ ws)

abbrev reason_or : Text → List Text → Text
reason_or source [] = source
reason_or source (w ∷ ws) = join_words (w ∷ ws)

abbrev pub append_entry : List Entry → Text → Option Prefix → Option (List Entry)
append_entry entries reason none = none
append_entry entries reason (some p) =
    some (entries ++ (record { prefix = p; reason = reason }) ∷ [])

-- `sort.SliceStable`, the longer prefix first.
unfoldable pub insert_entry : Entry → List Entry → List Entry
insert_entry e [] = e ∷ []
insert_entry e (x ∷ xs) =
    if ltb e.prefix.bits x.prefix.bits then x ∷ insert_entry e xs else e ∷ x ∷ xs

unfoldable pub sort_entries : List Entry → List Entry
unfolding insert_entry
sort_entries [] = []
sort_entries (e ∷ es) = insert_entry e (sort_entries es)

abbrev pub store_of : Text → Option (List Entry) → Option Store
store_of mode none = none
store_of mode (some entries) = some (record { mode = mode; entries = sort_entries entries })

abbrev pub match_of : Text → Entry → Match
match_of mode e = record { prefix = e.prefix; reason = e.reason; mode = mode }

abbrev pub matched : Text → Option Entry → Option Match
matched mode none = none
matched mode (some e) = some (match_of mode e)

abbrev pub lookup_parsed : Store → Option Addr → Option Match
lookup_parsed s none = none
lookup_parsed s (some a) = matched s.mode (find_first (λ e. contains e.prefix (unmap a)) s.entries)

module _ (parse_addr : Text → Option Addr) (parse_network : Text → Option Prefix) where
  abbrev add_fields : List Entry → Text → List Text → Option (List Entry)
  add_fields entries source [] = some entries
  add_fields entries source (w ∷ ws) =
      append_entry entries (reason_or source ws) (parse_prefix parse_addr parse_network w)

  -- `add`: a line of a feed, or nothing when its prefix does not parse.
  unfoldable pub add : List Entry → Text → Text → Option (List Entry)
  unfolding fields_from before_comment join_words
  add entries value source =
      add_fields entries source (fields_from [] (trim_space (before_comment (trim_space value))))

  abbrev pub add_rest :
      Option (List Entry) → (List Entry → Option (List Entry)) → Option (List Entry)
  add_rest none next = none
  add_rest (some entries) next = next entries

  unfoldable pub add_all : List (Text × Text) → List Entry → Option (List Entry)
  unfolding add
  add_all [] entries = some entries
  add_all ((value, source) ∷ rest) entries = add_rest (add entries value source) (add_all rest)

  -- `Load`, on the lines with their sources: the inline entries, then those of the files, less the
  -- blank ones and comments.
  unfoldable pub load : Text → List (Text × Text) → Option Store
  unfolding add_all sort_entries
  load mode lines = store_of mode (add_all lines [])

  -- `Lookup`
  unfoldable pub lookup : Store → Text → Option Match
  unfolding find_first contains unmap
  lookup s value = lookup_parsed s (parse_addr (trim_space value))
