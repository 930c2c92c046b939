-- ===== src/SlangDoc/Edits.antt =====
-- The edits of `SlangDoc::onChange` of src/document/SlangDoc.cpp against those of the LSP
-- specification, which change the plain text one after the other at its own positions.
use slang_server.Common.{
  ℕ, zero, suc, ◌≤◌, true, false, ◌||◌, List, [], ◌∷◌, ◌++◌, Bytes, ltb, length, take, drop,
  length-append, ◌≡◌, refl, ap, ◌∙◌, arith, append_assoc, Bool-cases, inl, inr,
}
use slang_server.Diagnostics.Types.{Range}
use slang_server.SlangDoc.Positions.{
  lsp_offset, InAscii, feed_return, KnowsLines, offset_of-lsp_offset,
}
use slang_server.SlangDoc.{
  ContentChange, partial, whole, Edited, edited, then_edit, ends_null, ensure_null, replace_between,
  erase_range, insert_at, erase_insert, at_offsets, first_change, later_change, later_changes,
  changed_buffer,
}

-- The text with the bytes from `start` to `stop` replaced.
abbrev pub splice : Bytes → ℕ → ℕ → Bytes → Bytes
splice t start stop new = take start t ++ (new ++ drop stop t)

take-append : (n : ℕ) (s t : Bytes) → n ≤ length s → take n (s ++ t) ≡ take n s
take-append zero s t h = refl
take-append (suc n) [] t h = absurd (omega arith)
take-append (suc n) (c ∷ s) t h = ap (◌∷◌ c) (take-append n s t (omega arith))

drop-append : (n : ℕ) (s t : Bytes) → n ≤ length s → drop n (s ++ t) ≡ drop n s ++ t
drop-append zero s t h = refl
drop-append (suc n) [] t h = absurd (omega arith)
drop-append (suc n) (c ∷ s) t h = drop-append n s t (omega arith)

length-take : (n : ℕ) (s : Bytes) → n ≤ length s → length (take n s) ≡ n
length-take zero s h = refl
length-take (suc n) [] h = absurd (omega arith)
length-take (suc n) (c ∷ s) h = omega (arith, length-take n s)

take-take-append : (n : ℕ) (s t : Bytes) → n ≤ length s → take n (take n s ++ t) ≡ take n s
take-take-append zero s t h = refl
take-take-append (suc n) [] t h = absurd (omega arith)
take-take-append (suc n) (c ∷ s) t h = ap (◌∷◌ c) (take-take-append n s t (omega arith))

drop-take-append : (n : ℕ) (s t : Bytes) → n ≤ length s → drop n (take n s ++ t) ≡ t
drop-take-append zero s t h = refl
drop-take-append (suc n) [] t h = absurd (omega arith)
drop-take-append (suc n) (c ∷ s) t h = drop-take-append n s t (omega arith)

ends_null-append : (s : Bytes) → ends_null (s ++ 0 ∷ []) ≡ true
unfolding ends_null
ends_null-append [] = refl
ends_null-append (c ∷ []) = refl
ends_null-append (c ∷ d ∷ s) = ends_null-append (d ∷ s)

ensure_null-append : (s : Bytes) → ensure_null (s ++ 0 ∷ []) ≡ s ++ 0 ∷ []
unfolding ensure_null
ensure_null-append s = rw (ends_null-append s) refl

splice-append :
    (t new : Bytes) (start stop : ℕ)
    → start ≤ stop
    → stop ≤ length t
    → splice (t ++ 0 ∷ []) start stop new ≡ splice t start stop new ++ 0 ∷ []
splice-append t new start stop h l =
    rw (take-append start t (0 ∷ []) (omega arith))
      (rw (drop-append stop t (0 ∷ []) l) (rw append_assoc (rw append_assoc refl)))

-- Both ways of editing a buffer do what the specification says of its text.
replace_between-splice :
    (t new : Bytes) (start stop : ℕ)
    → start ≤ stop
    → stop ≤ length t
    → replace_between (t ++ 0 ∷ []) new start stop ≡ edited (splice t start stop new ++ 0 ∷ [])
unfolding replace_between
replace_between-splice t new start stop h l =
    let inside : (ltb (length (t ++ 0 ∷ [])) start || ltb (length (t ++ 0 ∷ [])) stop) ≡ false =
      ground (arith, length-append t (0 ∷ [])) in
    rw inside (ap edited (splice-append t new start stop h l))

insert_at-erased :
    (b new rest : Bytes) (start : ℕ)
    → start ≤ length b
    → insert_at new start (take start b ++ rest) ≡ edited (take start b ++ (new ++ rest))
unfolding insert_at
insert_at-erased b new rest start h =
    let inside : ltb (length (take start b ++ rest)) start ≡ false =
      ground (arith, length-append (take start b) rest, length-take start b h) in
    rw inside (rw (take-take-append start b rest h) (rw (drop-take-append start b rest h) refl))

erase_insert-inside :
    (b new : Bytes) (start stop : ℕ)
    → start ≤ stop
    → stop ≤ length b
    → erase_insert b new start stop ≡ edited (splice b start stop new)
unfolding erase_insert erase_range
erase_insert-inside b new start stop h l = elim (Bool-cases (ltb start stop)) [
  | inl some_text ↦
      let inside : ltb (length b) stop ≡ false = ground arith in
      rw some_text (rw inside (insert_at-erased b new (drop stop b) start (omega arith)))
  | inr no_text ↦
      let same : stop ≡ start = ground arith in
      let inside : ltb (length b) start ≡ false = ground arith in
      rw no_text (rw same (unfold insert_at in rw inside refl))
]

erase_insert-splice :
    (t new : Bytes) (start stop : ℕ)
    → start ≤ stop
    → stop ≤ length t
    → erase_insert (t ++ 0 ∷ []) new start stop ≡ edited (splice t start stop new ++ 0 ∷ [])
erase_insert-splice t new start stop h l =
    erase_insert-inside (t ++ 0 ∷ []) new start stop h (omega (arith, length-append t (0 ∷ [])))
    ∙ ap edited (splice-append t new start stop h l)

-- The specification: a change of a plain text, at the positions of its range.
abbrev pub apply_change : Bytes → ContentChange → Bytes
apply_change t (partial r new) = splice t (lsp_offset t r.start) (lsp_offset t r.stop) new
apply_change t (whole new) = new

abbrev pub apply_changes : Bytes → List ContentChange → Bytes
apply_changes t [] = t
apply_changes t (c ∷ cs) = apply_changes (apply_change t c) cs

-- A range has ASCII before its positions in their lines, which they are not past the end of, and it does
-- not end before it starts; no line feed that ends no CR LF stands before a carriage return. A whole
-- text does not end in a NUL.
abbrev pub Fits : Bytes → ContentChange → Type 0
Fits t (partial r new) =
    (feed_return false t ≡ false)
    × InAscii t r.start
    × InAscii t r.stop
    × (lsp_offset t r.start ≤ lsp_offset t r.stop)
Fits t (whole new) = ends_null new ≡ false

abbrev pub AllFit : Bytes → List ContentChange → Type 0
AllFit t [] = Unit {0}
AllFit t (c ∷ cs) = Fits t c × AllFit (apply_change t c) cs

whole_null :
    (new : Bytes) → ends_null new ≡ false → edited (ensure_null new) ≡ edited (new ++ 0 ∷ [])
unfolding ensure_null
whole_null new h = rw h refl

module _ (line_offsets : Bytes → List ℕ) (knows : KnowsLines line_offsets) where
  at_offsets-Fits :
      (t new : Bytes) (r : Range) (f : ℕ → ℕ → Edited)
      → ((start stop : ℕ)
          → start ≤ stop
          → stop ≤ length t
          → f start stop ≡ edited (splice t start stop new ++ 0 ∷ []))
      → Fits t (partial r new)
      → at_offsets line_offsets (t ++ 0 ∷ []) r f
        ≡ edited (apply_change t (partial r new) ++ 0 ∷ [])
  at_offsets-Fits t new r f h (lines, start, stop, k) =
      let (e, _) = offset_of-lsp_offset t r.start start in
      let (e', inside) = offset_of-lsp_offset t r.stop stop in
      rw (knows t lines) (rw e (rw e' (h (lsp_offset t r.start) (lsp_offset t r.stop) k inside)))

  first_change-apply_change :
      (t : Bytes) (c : ContentChange)
      → Fits t c
      → first_change line_offsets (t ++ 0 ∷ []) c ≡ edited (apply_change t c ++ 0 ∷ [])
  unfolding first_change
  first_change-apply_change t (partial r new) h =
      ap (λ e. then_edit e (λ b. edited (ensure_null b)))
        (at_offsets-Fits t new r (replace_between (t ++ 0 ∷ []) new) (replace_between-splice t new)
          h)
      ∙ ap edited (ensure_null-append (apply_change t (partial r new)))
  first_change-apply_change t (whole new) h = whole_null new h

  later_change-apply_change :
      (t : Bytes) (c : ContentChange)
      → Fits t c
      → later_change line_offsets (t ++ 0 ∷ []) c ≡ edited (apply_change t c ++ 0 ∷ [])
  unfolding later_change
  later_change-apply_change t (partial r new) h =
      at_offsets-Fits t new r (erase_insert (t ++ 0 ∷ []) new) (erase_insert-splice t new) h
  later_change-apply_change t (whole new) h = whole_null new h

  later_changes-apply_changes :
      (t : Bytes) (cs : List ContentChange)
      → AllFit t cs
      → later_changes line_offsets cs (t ++ 0 ∷ []) ≡ edited (apply_changes t cs ++ 0 ∷ [])
  unfolding later_changes
  later_changes-apply_changes t [] h = refl
  later_changes-apply_changes t (c ∷ cs) (h, rest) =
      ap (λ e. then_edit e (later_changes line_offsets cs)) (later_change-apply_change t c h)
      ∙ later_changes-apply_changes (apply_change t c) cs rest

  -- If slang's table gives the lines of a text, the buffer after `onChange` is the plain text after
  -- the changes, applied one after the other at the positions of the LSP specification, in lines and
  -- UTF-16 code units, and one NUL. In the text that it is applied to, each range must not end before
  -- it starts, and its positions must be on lines of the text, not past their ends and with only
  -- ASCII before them in the line; no line feed, but that of a CR LF, may stand before a carriage
  -- return. No whole text may end in a NUL of its own.
  pub changed_buffer-apply_changes :
      (t : Bytes) (c : ContentChange) (cs : List ContentChange)
      → AllFit t (c ∷ cs)
      → changed_buffer line_offsets (t ++ 0 ∷ []) c cs ≡ edited (apply_changes t (c ∷ cs) ++ 0 ∷ [])
  unfolding changed_buffer
  changed_buffer-apply_changes t c cs (h, rest) =
      ap (λ e. then_edit e (later_changes line_offsets cs)) (first_change-apply_change t c h)
      ∙ later_changes-apply_changes (apply_change t c) cs rest
