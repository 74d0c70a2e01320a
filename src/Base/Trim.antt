-- ===== src/Base/Trim.antt =====
-- `strings.TrimSpace` on a native string.
use Prim.Native.Char.{Char, code}
use cherry_waf.Base.{
  String, ◌≡◌, refl, ap, ◌∙◌, arith, if◌then◌else◌, is_space, Bool-cases, inl, inr,
}

unfoldable pub trim_start : String → String
trim_start String.[] = String.[]
trim_start (String.◌∷◌ r s) = if is_space (code r) then trim_start s else String.◌∷◌ r s

abbrev pub keep_rune : Char → String → String
keep_rune r String.[] = if is_space (code r) then String.[] else String.◌∷◌ r String.[]
keep_rune r (String.◌∷◌ d ds) = String.◌∷◌ r (String.◌∷◌ d ds)

unfoldable pub trim_end : String → String
trim_end String.[] = String.[]
trim_end (String.◌∷◌ r s) = keep_rune r (trim_end s)

unfoldable pub trim_string : String → String
unfolding trim_start trim_end
trim_string s = trim_end (trim_start s)

start_rune :
    (r : Char) (s t : String)
    → trim_start s ≡ t
    → trim_start (keep_rune r s) ≡ (if is_space (code r) then t else keep_rune r s)
unfolding trim_start
start_rune r String.[] t h = elim (Bool-cases (is_space (code r))) [
  | inl e ↦ rw e h
  | inr e ↦ rw (e, e) refl
]
start_rune r (String.◌∷◌ d ds) t h = ground (arith, h)

trim_start-trim_end : (s : String) → trim_start (trim_end s) ≡ trim_end (trim_start s)
unfolding trim_start trim_end
trim_start-trim_end String.[] = refl
trim_start-trim_end (String.◌∷◌ r s) =
    ground (arith, start_rune r (trim_end s) (trim_end (trim_start s)) (trim_start-trim_end s))

trim_start_idem : (s : String) → trim_start (trim_start s) ≡ trim_start s
unfolding trim_start
trim_start_idem String.[] = refl
trim_start_idem (String.◌∷◌ r s) = ground (arith, trim_start_idem s)

end_rune : (r : Char) (s : String) → trim_end s ≡ s → trim_end (keep_rune r s) ≡ keep_rune r s
unfolding trim_end
end_rune r String.[] h = elim (Bool-cases (is_space (code r))) [
  | inl e ↦ rw e refl
  | inr e ↦ rw (e, e) refl
]
end_rune r (String.◌∷◌ d ds) h = ground (arith, h)

trim_end_idem : (s : String) → trim_end (trim_end s) ≡ trim_end s
unfolding trim_end
trim_end_idem String.[] = refl
trim_end_idem (String.◌∷◌ r s) = end_rune r (trim_end s) (trim_end_idem s)

pub trim_string_idem : (s : String) → trim_string (trim_string s) ≡ trim_string s
unfolding trim_string
trim_string_idem s =
    ap trim_end (trim_start-trim_end (trim_start s) ∙ ap trim_end (trim_start_idem s))
    ∙ trim_end_idem (trim_start s)
