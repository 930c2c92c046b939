-- ===== src/Markdown.antt =====
-- src/util/Markdown.cpp and include/util/Markdown.h: paragraphs and documents of hover texts. A
-- paragraph is its buffer, a document its list of paragraphs.
pub mod Escape
pub mod Rules
pub mod Spans
pub mod Build
mod Tests
use slang_server.Common.{
  ℕ, suc, ◌+◌, ◌<◌, max, Bool, true, false, not, ◌&&◌, List, [], ◌∷◌, ◌++◌, Bytes, ltb, ◌==◌,
  if◌then◌else◌, is_empty, all, replicate, codes,
}

-- The loop of `appendCode`: the run of backticks it is in, and the longest so far.
unfoldable pub longest_run : ℕ → ℕ → Bytes → ℕ
longest_run current longest [] = longest
longest_run current longest (c ∷ code) =
    if c == b'`'
    then longest_run (current + 1) (max longest (current + 1)) code
    else longest_run 0 longest code

-- What `appendCode` puts between the delimiters.
unfoldable pub spaced : ℕ → Bytes → Bytes
spaced backticks code = if ltb 0 backticks then b' ' ∷ (code ++ b' ' ∷ []) else code

unfoldable pub code_text : Bytes → Bytes
unfolding longest_run spaced
code_text code =
    let backticks = longest_run 0 0 code in
    let delimiter = replicate (backticks + 1) b'`' in
    delimiter ++ (spaced backticks code ++ delimiter)

-- A Paragraph is its buffer.
abbrev pub Paragraph : Type 0
Paragraph = Bytes

unfoldable pub append_text : Bytes → Paragraph → Paragraph
append_text text p = p ++ text

unfoldable pub append_code : Bytes → Paragraph → Paragraph
unfolding code_text
append_code code p = p ++ code_text code

-- Whether the buffer is not empty and ends in something else than a blank.
unfoldable pub wants_space : Paragraph → Bool
wants_space [] = false
wants_space (c ∷ []) = not (c == b' ')
wants_space (c ∷ d ∷ p) = wants_space (d ∷ p)

unfoldable pub after_space : Paragraph → Paragraph
unfolding wants_space
after_space p = if wants_space p then p ++ b' ' ∷ [] else p

unfoldable pub append_bold : Bytes → Paragraph → Paragraph
unfolding after_space
append_bold text p = after_space p ++ (codes "**" ++ (text ++ codes "** "))

-- The level is a count of `#`; the source's int is never negative where it is called.
unfoldable pub append_header : Bytes → ℕ → Paragraph → Paragraph
unfolding after_space
append_header text level p = after_space p ++ (replicate level b'#' ++ b' ' ∷ text)

unfoldable pub append_code_block : Bytes → Paragraph → Paragraph
append_code_block code p = p ++ (codes "````systemverilog\n" ++ (code ++ codes "\n````"))

unfoldable pub new_line : Paragraph → Paragraph
new_line p = p ++ codes "  \n"

unfoldable pub append : Paragraph → Paragraph → Paragraph
append q p = if is_empty p then q else p ++ q

abbrev pub Document : Type 0
Document = List Paragraph

unfoldable pub add_paragraph : Paragraph → Document → Document
add_paragraph p d = d ++ p ∷ []

unfoldable pub append_document : Document → Document → Document
append_document more d = d ++ more

unfoldable pub is_empty_document : Document → Bool
is_empty_document d = all is_empty d

abbrev pub separator : Bytes
separator = codes "\n\n---\n\n"

-- The loop of `build`; the flag is `first`.
unfoldable pub build_from : Bool → Document → Bytes
build_from first [] = []
build_from first (p ∷ d) =
    let next = build_from false d in
    let skipped = build_from first d in
    if is_empty p then skipped else (if first then [] else separator) ++ (p ++ next)

unfoldable pub build : Document → Bytes
unfolding build_from
build d = build_from true d
