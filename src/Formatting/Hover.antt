-- ===== src/Formatting/Hover.antt =====
-- What `getDocCommentForHover` of src/util/Formatting.cpp makes of the comments before a node.
use slang_server.Common.{
  ℕ, zero, suc, Bool, true, false, ◌&&◌, List, [], ◌∷◌, ◌++◌, Option, none, some, Bytes,
  if◌then◌else◌, is_empty, length, drop, get_elem?, codes, ◌≡◌, refl, sym, ap, ◌∙◌, append_assoc,
  append-nil, Bool-cases, inl, inr,
}
use slang_server.Markdown.Rules.{escape_markdown_line}
use slang_server.Markdown.Escape.{unescape, escaped-unescape}
use slang_server.Formatting.Docs.{
  TriviaKind, end_of_line, line_comment, block_comment, other_trivia, Trivia, kind_of, is_some,
  turn, resume, walk, find_leading_doc_comment_start, plaintext, markdown, comment_line,
  append_line, append_lines, trivia_text, doc_text, split_lines, block_back, block_front,
  from_start, get_doc_comment_for_hover,
}

-- A text that reads the same behind every text that follows: no escape is left open.
abbrev Reads : Bytes → Bytes → Type 0
Reads s t = (behind : Bytes) → unescape false (s ++ behind) ≡ t ++ unescape false behind

Reads-append : (s t u v : Bytes) → Reads s t → Reads u v → Reads (s ++ u) (t ++ v)
Reads-append s t u v h k behind =
    rw append_assoc (rw append_assoc (h (u ++ behind) ∙ ap (λ x. t ++ x) (k behind)))

append_line-Reads : (l : Bytes) → Reads (append_line plaintext l) (append_line markdown l)
unfolding append_line
append_line-Reads l =
    Reads-append (escape_markdown_line l) l (if is_empty l then codes "\n" else codes "  \n")
      (if is_empty l then codes "\n" else codes "  \n") (escaped-unescape l) (feed (is_empty l))
  where
    feed :
        (b : Bool)
        → Reads (if b then codes "\n" else codes "  \n") (if b then codes "\n" else codes "  \n")
    feed true behind = unfold unescape in refl
    feed false behind = unfold unescape in refl

append_lines-Reads :
    (k : TriviaKind) (ls : List Bytes)
    → Reads (append_lines plaintext k ls) (append_lines markdown k ls)
unfolding append_lines
append_lines-Reads k [] = λ behind. refl
append_lines-Reads k (l ∷ ls) =
    Reads-append (append_line plaintext (comment_line k l))
      (append_line markdown (comment_line k l)) (append_lines plaintext k ls)
      (append_lines markdown k ls) (append_line-Reads (comment_line k l)) (append_lines-Reads k ls)

trivia_text-Reads :
    (k : TriviaKind) (s : Bytes) → Reads (trivia_text plaintext k s) (trivia_text markdown k s)
trivia_text-Reads line_comment s = append_line-Reads (comment_line line_comment s)
trivia_text-Reads block_comment s =
    append_lines-Reads block_comment (split_lines (block_back (block_front s)))
trivia_text-Reads end_of_line s = λ behind. refl
trivia_text-Reads other_trivia s = λ behind. refl

doc_text-Reads : (ts : List Trivia) → Reads (doc_text plaintext ts) (doc_text markdown ts)
unfolding doc_text
doc_text-Reads [] = λ behind. refl
doc_text-Reads (t ∷ ts) =
    Reads-append (trivia_text plaintext t.kind t.text) (trivia_text markdown t.kind t.text)
      (doc_text plaintext ts) (doc_text markdown ts) (trivia_text-Reads t.kind t.text)
      (doc_text-Reads ts)

from_start-Reads :
    (ts : List Trivia) (start : Option ℕ)
    → Reads (from_start plaintext ts start) (from_start markdown ts start)
from_start-Reads ts none = λ behind. refl
from_start-Reads ts (some i) = doc_text-Reads (drop i ts)

abbrev pub is_comment : TriviaKind → Bool
is_comment line_comment = true
is_comment block_comment = true
is_comment k = false

-- A place, if there is one, has a comment.
abbrev pub HasComment : List Trivia → Option ℕ → Type 0
HasComment ts none = Unit {0}
HasComment ts (some i) = is_comment (kind_of (get_elem? ts i)) ≡ true

turn-HasComment :
    (ts : List Trivia) (i : ℕ) (next : Bool → Option ℕ → Option ℕ → Option ℕ) (k : TriviaKind)
    (newline : Bool) (last start : Option ℕ)
    → kind_of (get_elem? ts i) ≡ k
    → ((b : Bool) (l s : Option ℕ) → HasComment ts l → HasComment ts s → HasComment ts (next b l s))
    → HasComment ts last
    → HasComment ts start
    → HasComment ts (resume next (turn i k newline last start))
unfolding turn
turn-HasComment ts i next end_of_line newline last start e h hl hs =
    elim (Bool-cases (newline && is_some last)) [
      | inl both ↦ rw both hs
      | inr one ↦ rw one (h true last last hl hl)
    ]
turn-HasComment ts i next line_comment newline last start e h hl hs =
    h false (some i) start (ap is_comment e) hs
turn-HasComment ts i next block_comment newline last start e h hl hs = ap is_comment e
turn-HasComment ts i next other_trivia newline last start e h hl hs = h false last start hl hs

walk-HasComment :
    (ts : List Trivia) (i : ℕ) (newline : Bool) (last start : Option ℕ)
    → HasComment ts last
    → HasComment ts start
    → HasComment ts (walk ts i newline last start)
unfolding walk
walk-HasComment ts zero newline last start hl hs = hs
walk-HasComment ts (suc i) newline last start hl hs =
    turn-HasComment ts i (walk ts i) (kind_of (get_elem? ts i)) newline last start refl
      (λ b l s. walk-HasComment ts i b l s) hl hs

-- Where a documentation comment is found, it starts with a comment; and reading its plain text form
-- as markdown, where a backslash stands for the punctuation behind it, gives the very text of the
-- markdown form.
pub get_doc_comment_for_hover-unescape :
    (ts : List Trivia)
    → HasComment ts (find_leading_doc_comment_start ts)
      × (unescape false (get_doc_comment_for_hover plaintext ts)
          ≡ get_doc_comment_for_hover markdown ts)
unfolding get_doc_comment_for_hover find_leading_doc_comment_start
get_doc_comment_for_hover-unescape ts =
    let start = find_leading_doc_comment_start ts in
    (
      walk-HasComment ts (length ts) false none none tt tt,
      ap (unescape false) (sym (append-nil (from_start plaintext ts start)))
          ∙ (from_start-Reads ts start []
              ∙ unfold unescape in append-nil (from_start markdown ts start)),
    )
