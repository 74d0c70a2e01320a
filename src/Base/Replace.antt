-- ===== src/Base/Replace.antt =====
-- `strings.Replacer` and `strings.Split` on texts.
use cherry_waf.Base.{
  ℕ, zero, suc, ◌-◌, Option, none, some, List, [], ◌∷◌, ◌++◌, if◌then◌else◌, length, Text,
  strip_prefix, nat_beq,
}

-- The first pair whose old word stands here.
unfoldable pub word_here : List (Text × Text) → Text → Option (Text × Text)
unfolding strip_prefix
word_here [] s = none
word_here ((old, new) ∷ pairs) s = elim (strip_prefix old s) [
  | some rest ↦ some (old, new)
  | none ↦ word_here pairs s
]

-- `Replace` of `strings.NewReplacer`, with the number of runes of an old word that are still to be
-- passed over; no old word is empty.
unfoldable pub replace_words : List (Text × Text) → ℕ → Text → Text
unfolding word_here
replace_words pairs skip [] = []
replace_words pairs (suc skip) (c ∷ cs) = replace_words pairs skip cs
replace_words pairs zero (c ∷ cs) = elim (word_here pairs (c ∷ cs)) [
  | none ↦ c ∷ replace_words pairs 0 cs
  | some (old, new) ↦ new ++ replace_words pairs (length old - 1) cs
]

abbrev pub cons_rune : ℕ → List Text → List Text
cons_rune c [] = (c ∷ []) ∷ []
cons_rune c (p ∷ ps) = (c ∷ p) ∷ ps

-- `strings.Split` at one rune.
unfoldable pub split_rune : ℕ → Text → List Text
split_rune sep [] = [] ∷ []
split_rune sep (c ∷ cs) =
    let rest = split_rune sep cs in if nat_beq c sep then [] ∷ rest else cons_rune c rest
