-- ===== src/Formatting/Clean.antt =====
-- The functions of src/util/Formatting.cpp that clean a whole text.
use slang_server.Common.{
  ℕ, zero, suc, Bool, true, false, not, List, [], ◌∷◌, Option, none, some, Bytes, ◌==◌, is_empty,
  any, is_space, ◌≡◌, refl, ap, ◌∙◌, arith, Bool-cases, inl, inr,
}
use slang_server.Formatting.{
  get_lines, drop_last, is_single_line, squash_line, squash_spaces, min_indent, unindent,
  behind_first, shift_by, indent_char_of, shift_indent,
}
use slang_server.Formatting.Visible.{
  visible, map_visible, has_text, has_text-join_first, write_lines_blank, written_back,
  squash_line-visible, ltrim-visible, unindent-visible, min_indent_blank,
}

-- Some byte is no line feed.
abbrev pub has_other : Bytes → Bool
has_other s = any (λ c. not (c == b'\n')) s

get_lines-has_text : (s : Bytes) → has_text (get_lines s) ≡ has_other s
unfolding get_lines
get_lines-has_text [] = refl
get_lines-has_text (c ∷ s) =
    ground (arith, has_text-join_first c (get_lines s), get_lines-has_text s)

squashed : (s : Bytes) → has_other s ≡ true → map_visible (squash_spaces s) ≡ some (visible s)
unfolding squash_spaces
squashed [] h = refl
squashed (c ∷ s) h =
    written_back squash_line (c ∷ s) squash_line-visible (get_lines-has_text (c ∷ s) ∙ h)

-- `squashSpaces` fails exactly for a text that is not empty and consists of line feeds; every other
-- text keeps all that is no blank.
pub squash_spaces_lem :
    (s : Bytes)
    → (has_other s ≡ true → map_visible (squash_spaces s) ≡ some (visible s))
      × ((has_other s ≡ false → is_empty s ≡ false → squash_spaces s ≡ none)
          × (is_empty s ≡ true → squash_spaces s ≡ some []))
squash_spaces_lem s = (squashed s, (failing s, empty s))
  where
    failing : (s : Bytes) → has_other s ≡ false → is_empty s ≡ false → squash_spaces s ≡ none
    failing [] h k = cc k
    failing (c ∷ s) h k =
        unfold squash_spaces in
        rw (write_lines_blank squash_line (get_lines (c ∷ s)) (get_lines-has_text (c ∷ s) ∙ h))
          (unfold drop_last in refl)

    empty : (s : Bytes) → is_empty s ≡ true → squash_spaces s ≡ some []
    empty [] h = unfold squash_spaces in refl
    empty (c ∷ s) h = cc h

indent_char_blank : (s : Bytes) → is_space (indent_char_of s) ≡ true
unfolding is_space
indent_char_blank s = ground arith

behind_first-has_text : (ls : List Bytes) → has_text (behind_first ls) ≡ true → has_text ls ≡ true
behind_first-has_text [] h = h
behind_first-has_text (l ∷ ls) h = ground (arith, h)

shifted :
    (s : Bytes) (k : ℕ) (found : Option ℕ)
    → is_space k ≡ true
    → min_indent k none (behind_first (get_lines s)) ≡ found
    → map_visible (shift_by k found s) ≡ some (visible s)
shifted s k none h e = refl
shifted s k (some zero) h e = refl
shifted s k (some (suc count)) h e =
    written_back (unindent k (suc count)) s (λ l. unindent-visible k (suc count) l h) text
  where
    text : has_text (get_lines s) ≡ true
    text = elim (Bool-cases (has_text (behind_first (get_lines s)))) [
      | inl some_text ↦ behind_first-has_text (get_lines s) some_text
      | inr blank ↦ cc (e, min_indent_blank k none (behind_first (get_lines s)) blank)
    ]

-- `shiftIndent` never fails, and takes nothing but blanks and line feeds from a text.
pub shift_indent-visible : (s : Bytes) → map_visible (shift_indent s) ≡ some (visible s)
unfolding shift_indent
shift_indent-visible [] = refl
shift_indent-visible (c ∷ s) = elim (Bool-cases (is_single_line (c ∷ s))) [
  | inl single ↦ rw single (ap some (ltrim-visible (c ∷ s)))
  | inr several ↦ rw several (
      shifted (c ∷ s) (indent_char_of (c ∷ s))
        (min_indent (indent_char_of (c ∷ s)) none (behind_first (get_lines (c ∷ s))))
        (indent_char_blank (c ∷ s)) refl)
]
