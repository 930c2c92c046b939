-- ===== src/Formatting/Docs.antt =====
-- `findLeadingDocCommentStart` and `getDocCommentForHover` of src/util/Formatting.cpp, on the trivia
-- of a node's first token. The format `raw`, which the source's assertion rules out, is left out.
use slang_server.Common.{
  ℕ, zero, suc, ◌-◌, Bool, true, false, not, ◌&&◌, List, [], ◌∷◌, ◌++◌, Option, none, some, Bytes,
  leb, equal, bytes_eq, ◌==◌, if◌then◌else◌, is_empty, length, take, drop, get_elem?, starts_with,
  codes,
}
use slang_server.Markdown.Rules.{escape_markdown_line}
use slang_server.Formatting.{ltrim, join_first}

-- The kinds that the code names, and the others.
pub data TriviaKind : Type 0 where
  end_of_line line_comment block_comment other_trivia : TriviaKind

pub record Trivia : Type 0 where
  pub kind : TriviaKind
  pub text : Bytes

abbrev pub kind_of : Option Trivia → TriviaKind
kind_of none = other_trivia
kind_of (some t) = t.kind

abbrev pub is_some : Option ℕ → Bool
is_some none = false
is_some (some i) = true

-- What one round of `findDocBoundary` decides: a result, or the next `lastIsNewline`, `lastComment`
-- and `leadingCommentStart`.
pub data Turn : Type 0 where
  stop : Option ℕ → Turn
  go : Bool → Option ℕ → Option ℕ → Turn

unfoldable pub turn : ℕ → TriviaKind → Bool → Option ℕ → Option ℕ → Turn
turn i end_of_line newline last start =
    if newline && is_some last then stop start else go true last last
turn i line_comment newline last start = go false (some i) start
turn i block_comment newline last start = stop (some i)
turn i other_trivia newline last start = go false last start

abbrev pub resume : (Bool → Option ℕ → Option ℕ → Option ℕ) → Turn → Option ℕ
resume next (stop result) = result
resume next (go newline last start) = next newline last start

-- The loop, where `i` trivia are left.
unfoldable pub walk : List Trivia → ℕ → Bool → Option ℕ → Option ℕ → Option ℕ
unfolding turn
walk ts zero newline last start = start
walk ts (suc i) newline last start =
    resume (walk ts i) (turn i (kind_of (get_elem? ts i)) newline last start)

unfoldable pub find_leading_doc_comment_start : List Trivia → Option ℕ
unfolding walk
find_leading_doc_comment_start ts = walk ts (length ts) false none none

pub data DocCommentFormat : Type 0 where
  plaintext markdown : DocCommentFormat

abbrev pub without_prefix : Bytes → Bytes → Bytes
without_prefix p s = if starts_with s p then drop (length p) s else s

-- `if (line.starts_with("///")) … else if (line.starts_with("//")) …`
unfoldable pub without_slashes : Bytes → Bytes
without_slashes line =
    if starts_with line (codes "///") then drop 3 line else without_prefix (codes "//") line

-- The line without its marker, and without the blanks before and behind the marker.
unfoldable pub comment_line : TriviaKind → Bytes → Bytes
unfolding ltrim without_slashes
comment_line line_comment line = ltrim (without_slashes (ltrim line))
comment_line kind line = ltrim (without_prefix (codes "*") (ltrim line))

abbrev pub shown : DocCommentFormat → Bytes → Bytes
shown plaintext line = escape_markdown_line line
shown markdown line = line

unfoldable pub append_line : DocCommentFormat → Bytes → Bytes
unfolding escape_markdown_line
append_line format line = shown format line ++ (if is_empty line then codes "\n" else codes "  \n")

abbrev pub ends_with : Bytes → Bytes → Bool
ends_with s end = leb (length end) (length s) && equal (drop (length s - length end) s) end

abbrev pub without_suffix : Bytes → Bytes → Bytes
without_suffix end s = take (length s - length end) s

unfoldable pub block_front : Bytes → Bytes
block_front text =
    if starts_with text (codes "/*") then without_prefix (codes "*") (drop 2 text) else text

unfoldable pub block_back : Bytes → Bytes
block_back text =
    let inner = without_suffix (codes "*/") text in
    if not (ends_with text (codes "*/"))
    then text
    else if ends_with inner (codes "*")
    then without_suffix (codes "*") inner
    else inner

-- The loop on `pos`: the texts between the line feeds, also an empty last one.
unfoldable pub split_lines : Bytes → List Bytes
split_lines [] = [] ∷ []
split_lines (c ∷ s) =
    let rest = split_lines s in if c == b'\n' then [] ∷ rest else join_first c rest

unfoldable pub append_lines : DocCommentFormat → TriviaKind → List Bytes → Bytes
unfolding append_line comment_line
append_lines format kind [] = []
append_lines format kind (l ∷ ls) =
    append_line format (comment_line kind l) ++ append_lines format kind ls

abbrev pub trivia_text : DocCommentFormat → TriviaKind → Bytes → Bytes
trivia_text format line_comment text = append_line format (comment_line line_comment text)
trivia_text format block_comment text =
    append_lines format block_comment (split_lines (block_back (block_front text)))
trivia_text format kind text = []

unfoldable pub doc_text : DocCommentFormat → List Trivia → Bytes
unfolding append_line append_lines block_back block_front split_lines
doc_text format [] = []
doc_text format (t ∷ ts) = trivia_text format t.kind t.text ++ doc_text format ts

abbrev pub from_start : DocCommentFormat → List Trivia → Option ℕ → Bytes
from_start format ts none = []
from_start format ts (some i) = doc_text format (drop i ts)

unfoldable pub get_doc_comment_for_hover : DocCommentFormat → List Trivia → Bytes
unfolding find_leading_doc_comment_start doc_text
get_doc_comment_for_hover format ts = from_start format ts (find_leading_doc_comment_start ts)
