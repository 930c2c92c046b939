-- ===== src/SlangDoc.antt =====
-- src/document/SlangDoc.cpp: the text of an open document, and what is kept of its parse. The text
-- of a buffer ends in a NUL. `line_offsets` is `SourceManager::computeLineOffsets` of slang: where
-- each line of a text starts.
pub mod Positions
pub mod Edits
pub mod State
pub mod Fresh
mod Tests
use slang_server.Common.{
  ℕ, zero, suc, ◌+◌, ◌<◌, Bool, true, false, not, ◌&&◌, ◌||◌, List, [], ◌∷◌, ◌++◌, Option, none,
  some, Bytes, equal, ltb, ◌==◌, if◌then◌else◌, length, get_elem?, take, drop,
}
use slang_server.Diagnostics.Types.{Position, Range}

-- TextDocumentContentChangePartial and TextDocumentContentChangeWholeDocument.
pub data ContentChange : Type 0 where
  partial : Range → Bytes → ContentChange
  whole : Bytes → ContentChange

-- The buffer after a change; or the exception of `getOffsets`; or an iterator past the end of the
-- buffer, on which C++ gives no result.
pub data Edited : Type 0 where
  edited : Bytes → Edited
  out_of_bounds : Edited
  past_the_end : Edited

abbrev pub then_edit : Edited → (Bytes → Edited) → Edited
then_edit (edited b) f = f b
then_edit out_of_bounds f = out_of_bounds
then_edit past_the_end f = past_the_end

unfoldable pub ends_null : Bytes → Bool
ends_null [] = false
ends_null (c ∷ []) = c == 0
ends_null (c ∷ d ∷ s) = ends_null (d ∷ s)

-- `ensureNullTerminated`
unfoldable pub ensure_null : Bytes → Bytes
unfolding ends_null
ensure_null buffer = if ends_null buffer then buffer else buffer ++ 0 ∷ []

abbrev pub plus_character : Option ℕ → ℕ → Option ℕ
plus_character none character = none
plus_character (some offset) character = some (offset + character)

-- `lineOffsets[p.line] + p.character`, if the line is in bounds.
abbrev pub offset_of : List ℕ → Position → Option ℕ
offset_of lines p = plus_character (get_elem? lines p.line) p.character

abbrev pub both : Option ℕ → Option ℕ → (ℕ → ℕ → Edited) → Edited
both (some start) (some stop) f = f start stop
both none stop f = out_of_bounds
both (some start) none f = out_of_bounds

-- The first change: what stands before the range, the new text, what stands behind the range.
unfoldable pub replace_between : Bytes → Bytes → ℕ → ℕ → Edited
replace_between text new start stop =
    if ltb (length text) start || ltb (length text) stop
    then past_the_end
    else edited (take start text ++ (new ++ drop stop text))

-- A later change: `buffer.erase`, if the range is not empty, and `buffer.insert`.
unfoldable pub erase_range : Bytes → ℕ → ℕ → Edited
erase_range buffer start stop =
    if not (ltb start stop)
    then edited buffer
    else if ltb (length buffer) stop
    then past_the_end
    else edited (take start buffer ++ drop stop buffer)

unfoldable pub insert_at : Bytes → ℕ → Bytes → Edited
insert_at new start buffer =
    if ltb (length buffer) start
    then past_the_end
    else edited (take start buffer ++ (new ++ drop start buffer))

unfoldable pub erase_insert : Bytes → Bytes → ℕ → ℕ → Edited
unfolding erase_range insert_at
erase_insert buffer new start stop = then_edit (erase_range buffer start stop) (insert_at new start)

module _ (line_offsets : Bytes → List ℕ) where
  -- `getOffsets`, and an edit at the offsets that it gives.
  abbrev pub at_offsets : Bytes → Range → (ℕ → ℕ → Edited) → Edited
  at_offsets text r f =
      both (offset_of (line_offsets text) r.start) (offset_of (line_offsets text) r.stop) f

  unfoldable pub first_change : Bytes → ContentChange → Edited
  unfolding replace_between ensure_null
  first_change text (partial r new) =
      then_edit (at_offsets text r (replace_between text new)) (λ b. edited (ensure_null b))
  first_change text (whole new) = edited (ensure_null new)

  unfoldable pub later_change : Bytes → ContentChange → Edited
  unfolding erase_insert ensure_null
  later_change buffer (partial r new) = at_offsets buffer r (erase_insert buffer new)
  later_change buffer (whole new) = edited (ensure_null new)

  -- The loop over the later changes.
  unfoldable pub later_changes : List ContentChange → Bytes → Edited
  unfolding later_change
  later_changes [] buffer = edited buffer
  later_changes (c ∷ cs) buffer = then_edit (later_change buffer c) (later_changes cs)

  -- The buffer that `onChange` makes of a text and of one or more changes.
  unfoldable pub changed_buffer : Bytes → ContentChange → List ContentChange → Edited
  unfolding first_change later_changes
  changed_buffer text c cs = then_edit (first_change text c) (later_changes cs)

-- `textMatches`: the document's text, without its NUL, is the given one.
unfoldable pub text_matches : Bytes → Bytes → Bool
text_matches buffer text = length buffer == length text + 1 && equal buffer (text ++ 0 ∷ [])
