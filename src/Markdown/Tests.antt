-- ===== src/Markdown/Tests.antt =====
-- Concrete runs of src/util/Markdown.cpp.
use slang_server.Common.{is_space, is_alnum, false, [], ◌∷◌, ◌++◌, some, codes, ◌≡◌, refl}
use slang_server.Markdown.{append_code, append_bold, code_text, spaced, longest_run, build}
use slang_server.Markdown.Rules.{
  escape_markdown_line, escape_from, needs_leading_escape, looks_like_tag,
}
use slang_server.Markdown.Escape.{unescape, escape_markdown_line-unescape}
use slang_server.Markdown.Spans.{read_span, code_text-read}

a_bullet : escape_markdown_line (codes "- a_b <b>") ≡ codes "\\- a_b \\<b>"
unfolding escape_markdown_line escape_from needs_leading_escape looks_like_tag is_space is_alnum
a_bullet = refl

a_rule : escape_markdown_line (codes "---") ≡ codes "\\---"
unfolding escape_markdown_line escape_from needs_leading_escape is_space
a_rule = refl

a_hover :
    append_bold (codes "x") (append_code (codes "a`b") (codes "see")) ≡ codes "see`` a`b `` **x** "
unfolding append_bold append_code code_text
a_hover = refl

two_parts : build (codes "a" ∷ [] ∷ codes "b" ∷ []) ≡ codes "a\n\n---\n\nb"
unfolding build
two_parts = refl

escape_markdown_line-unescape_example :
    unescape false (escape_markdown_line (codes "1. `a` \\ *")) ≡ codes "1. `a` \\ *"
escape_markdown_line-unescape_example = escape_markdown_line-unescape (codes "1. `a` \\ *")

code_text-read_example :
    read_span 0 (code_text (codes "`MACRO``x") ++ codes " is")
    ≡ some (spaced (longest_run 0 0 (codes "`MACRO``x")) (codes "`MACRO``x"), codes " is")
code_text-read_example = code_text-read (codes "`MACRO``x") (codes " is") refl refl
