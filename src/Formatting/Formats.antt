-- ===== src/Formatting/Formats.antt =====
-- `detailFormat`, `formatCode` and `formatCodeWithLeadingComments` of src/util/Formatting.cpp.
use slang_server.Common.{
  ℕ, Bool, true, not, [], ◌∷◌, Option, none, some, Bytes, ◌==◌, is_space, ◌≡◌, refl, ap, ◌∙◌, arith,
  Bool-cases, inl, inr,
}
use slang_server.Formatting.{
  ltrim, is_single_line, strip_from, strip_blank_lines, squash_spaces, shift_indent, and_then,
  detail_format, format_code, format_code_with_leading_comments,
}
use slang_server.Formatting.Visible.{visible, map_visible, ltrim-visible}
use slang_server.Formatting.Clean.{squash_spaces_lem, shift_indent-visible}

abbrev starts_plain : Bytes → Bool
starts_plain [] = true
starts_plain (c ∷ s) = not (c == b'\n')

squashed_plain :
    (s : Bytes) → starts_plain s ≡ true → map_visible (squash_spaces s) ≡ some (visible s)
squashed_plain [] h = unfold squash_spaces in refl
squashed_plain (c ∷ s) h = (squash_spaces_lem (c ∷ s)).0 (ground (arith, h))

-- slang's `isWhitespace` on the characters that are blanks for `std::isspace`.
module _ (is_whitespace : ℕ → Bool)
    (only_blanks : (c : ℕ) → is_whitespace c ≡ true → is_space c ≡ true) where
  strip_from-visible :
      (s kept : Bytes)
      → visible kept ≡ visible s
      → visible (strip_from is_whitespace kept s) ≡ visible s
  unfolding strip_from
  strip_from-visible [] kept h = h
  strip_from-visible (c ∷ s) kept h = elim (Bool-cases (is_whitespace c)) [
    | inl white ↦ rw white (
        rw (only_blanks c white) (elim (Bool-cases (c == b'\n')) [
          | inl feed ↦ rw feed (strip_from-visible s s refl)
          | inr other ↦ rw other (strip_from-visible s kept (h ∙ rw (only_blanks c white) refl))
        ]))
    | inr text ↦ rw text h
  ]

  strip_blank_lines-visible : (s : Bytes) → visible (strip_blank_lines is_whitespace s) ≡ visible s
  unfolding strip_blank_lines
  strip_blank_lines-visible s = strip_from-visible s s refl

  -- A text cleaned with its leading comments keeps all that is no blank, and the clean-up does not
  -- fail.
  pub format_code_with_leading_comments-visible :
      (s : Bytes)
      → map_visible (format_code_with_leading_comments is_whitespace s) ≡ some (visible s)
  unfolding format_code_with_leading_comments
  format_code_with_leading_comments-visible s =
      shift_indent-visible (strip_blank_lines is_whitespace s)
      ∙ ap some (strip_blank_lines-visible s)

  cleaned :
      (o : Option Bytes) (t : Bytes)
      → map_visible o ≡ some t
      → map_visible (and_then o (λ s. shift_indent (strip_blank_lines is_whitespace s))) ≡ some t
  cleaned none t h = cc h
  cleaned (some s) t h =
      shift_indent-visible (strip_blank_lines is_whitespace s)
      ∙ (ap some (strip_blank_lines-visible s) ∙ h)

  single_plain : (s : Bytes) → is_single_line s ≡ true → starts_plain s ≡ true
  unfolding is_single_line
  single_plain [] h = refl
  single_plain (c ∷ s) h = ground (arith, h)

  -- `formatCode` never fails, and what it gives is the printed code up to blanks and line feeds.
  pub format_code-visible :
      (s : Bytes) → map_visible (format_code is_whitespace s) ≡ some (visible s)
  unfolding format_code
  format_code-visible s = elim (Bool-cases (is_single_line s)) [
    | inl single ↦
        rw single (cleaned (squash_spaces s) (visible s) (squashed_plain s (single_plain s single)))
    | inr several ↦ rw several (cleaned (some s) (visible s) refl)
  ]

  module _ (feed : is_whitespace b'\n' ≡ true) where
    -- What stays behind the last line feed of the leading blanks starts with no line feed.
    strip_from_plain :
        (s : Bytes)
        → ((kept : Bytes)
            → starts_plain kept ≡ true
            → starts_plain (strip_from is_whitespace kept s) ≡ true)
          × (starts_plain (strip_from is_whitespace s s) ≡ true)
    unfolding strip_from
    strip_from_plain [] = (λ kept h. h, refl)
    strip_from_plain (c ∷ s) =
        let (kept_plain, fed_plain) = strip_from_plain s in
        elim (Bool-cases (c == b'\n')) [
          | inl e ↦
              let same : c ≡ b'\n' = ground arith in
              rw e (rw same (rw feed (λ kept h. fed_plain, fed_plain)))
          | inr e ↦ elim (Bool-cases (is_whitespace c)) [
            | inl white ↦
                rw white
                  (rw e ((λ kept h. kept_plain kept h), kept_plain (c ∷ s) (ground (arith, e))))
            | inr text ↦ rw text ((λ kept h. h), ground (arith, e))
          ]
        ]

    detailed :
        (o : Option Bytes) (t : Bytes)
        → map_visible o ≡ some t
        → map_visible (and_then o (λ s. some (ltrim s))) ≡ some t
    detailed none t h = cc h
    detailed (some s) t h = ap some (ltrim-visible s) ∙ h

    -- `detailFormat` never fails, since no line feed stands in front once the blank lines are
    -- stripped, and what it gives is the printed code up to blanks and line feeds.
    pub detail_format-visible :
        (s : Bytes) → map_visible (detail_format is_whitespace s) ≡ some (visible s)
    unfolding detail_format
    detail_format-visible s =
        detailed (squash_spaces (strip_blank_lines is_whitespace s)) (visible s) (
          squashed_plain (strip_blank_lines is_whitespace s)
            (unfold strip_blank_lines in (strip_from_plain s).1)
          ∙ ap some (strip_blank_lines-visible s))
