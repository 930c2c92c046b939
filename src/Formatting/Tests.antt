-- ===== src/Formatting/Tests.antt =====
-- Concrete texts for src/util/Formatting.cpp. slang's blanks are those of `std::isspace` here.
use slang_server.Common.{
  List, true, false, [], ◌∷◌, some, none, codes, is_empty, is_space, is_upper, to_lower, ◌≡◌, refl,
}
use slang_server.Formatting.{
  squash_spaces, shift_indent, format_code, format_code_with_leading_comments, to_camel_case,
}
use slang_server.Markdown.Escape.{unescape}
use slang_server.Formatting.Docs.{
  Trivia, line_comment, end_of_line, find_leading_doc_comment_start, plaintext, markdown,
  comment_line, get_doc_comment_for_hover,
}
use slang_server.Formatting.Hover.{HasComment, get_doc_comment_for_hover-unescape}
use slang_server.Formatting.Visible.{visible, map_visible}
use slang_server.Formatting.Clean.{has_other, squash_spaces_lem}
use slang_server.Formatting.Formats.{format_code-visible, format_code_with_leading_comments-visible}

squashed_text : squash_spaces (codes "  a   b\n\nc") ≡ some (codes "  a b\nc")
unfolding squash_spaces
squashed_text = refl

shifted_text : shift_indent (codes "a\n\n    b\n      c") ≡ some (codes "a\nb\n  c")
unfolding shift_indent
shifted_text = refl

parser : to_camel_case (codes "JSONParser") ≡ codes "jsonParser"
unfolding to_camel_case to_lower is_upper
parser = refl

squash_spaces_lem_example :
    (has_other (codes "\n") ≡ true
      → map_visible (squash_spaces (codes "\n")) ≡ some (visible (codes "\n")))
    × ((has_other (codes "\n") ≡ false
          → is_empty (codes "\n") ≡ false
          → squash_spaces (codes "\n") ≡ none)
        × (is_empty (codes "\n") ≡ true → squash_spaces (codes "\n") ≡ some []))
squash_spaces_lem_example = squash_spaces_lem (codes "\n")

format_code-visible_example :
    map_visible (format_code is_space (codes "\n\n  a  b")) ≡ some (visible (codes "\n\n  a  b"))
format_code-visible_example = format_code-visible is_space (λ c h. h) (codes "\n\n  a  b")

format_code_with_leading_comments-visible_example :
    map_visible (format_code_with_leading_comments is_space (codes "\n  // x\n  a"))
    ≡ some (visible (codes "\n  // x\n  a"))
format_code_with_leading_comments-visible_example =
    format_code_with_leading_comments-visible is_space (λ c h. h) (codes "\n  // x\n  a")

space_feed : is_space b'\n' ≡ true
unfolding is_space
space_feed = refl

abbrev a_doc : List Trivia
a_doc =
    record { kind = line_comment; text = codes "// old" }
    ∷ record { kind = end_of_line; text = [] }
    ∷ record { kind = end_of_line; text = [] }
    ∷ record { kind = line_comment; text = codes "/// a *b*" }
    ∷ record { kind = end_of_line; text = [] }
    ∷ []

a_hover : get_doc_comment_for_hover markdown a_doc ≡ codes "a *b*  \n"
unfolding get_doc_comment_for_hover comment_line is_space
a_hover = refl

get_doc_comment_for_hover-unescape_example :
    HasComment a_doc (find_leading_doc_comment_start a_doc)
    × (unescape false (get_doc_comment_for_hover plaintext a_doc)
        ≡ get_doc_comment_for_hover markdown a_doc)
get_doc_comment_for_hover-unescape_example = get_doc_comment_for_hover-unescape a_doc
