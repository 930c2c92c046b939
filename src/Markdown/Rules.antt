-- ===== src/Markdown/Rules.antt =====
-- `looksLikeTag`, `needsLeadingEscapePlaintext` and `escapeMarkdownLine` of src/util/Markdown.cpp.
use slang_server.Common.{
  ℕ, ◌+◌, Bool, true, false, not, ◌&&◌, ◌||◌, [], ◌∷◌, ◌++◌, Option, none, some, Bytes, ltb, leb,
  ◌==◌, if◌then◌else◌, is_empty, all, length, starts_with, codes, is_space, is_alpha, is_digit,
  is_alnum, is_xdigit,
}

unfoldable pub rtrim : Bytes → Bytes
rtrim [] = []
rtrim (c ∷ s) = let rest = rtrim s in if is_space c && is_empty rest then [] else c ∷ rest

abbrev pub drop_while : (ℕ → Bool) → Bytes → Bytes
drop_while p [] = []
drop_while p (c ∷ s) = let rest = drop_while p s in if p c then rest else c ∷ s

abbrev pub is_tag_char : ℕ → Bool
is_tag_char c = is_alnum c || c == b'-' || c == b'_' || c == b':'

-- The last loop of `looksLikeTag`.
unfoldable pub attributes_may_follow : Bytes → Bool
attributes_may_follow [] = true
attributes_may_follow (c ∷ s) =
    let rest = attributes_may_follow s in
    if is_alnum c || is_space c
    then rest
    else if c == b'>' || starts_with (c ∷ s) (codes "/>")
    then true
    else c == b'='

unfoldable pub looks_like_tag : Bytes → Bool
unfolding attributes_may_follow
looks_like_tag [] = false
looks_like_tag (c ∷ s) =
    if c == b'!' || c == b'?' || c == b'/'
    then true
    else if not (is_alpha c)
    then false
    else attributes_may_follow (drop_while is_space (drop_while is_tag_char (c ∷ s)))

-- The lambdas of `needsLeadingEscapePlaintext`.
unfoldable pub ruler_length : ℕ → Bytes → Bytes → Bool → ℕ
unfolding rtrim
ruler_length c before after starts_line =
    if not starts_line || not (is_empty before)
    then 0
    else let trimmed = rtrim after in if all (λ d. d == c) trimmed then 1 + length trimmed else 0

abbrev pub is_bullet : Bytes → Bytes → Bool → Bool
is_bullet before after starts_line =
    starts_line && is_empty before && (is_empty after || starts_with after (codes " "))

-- `p` of the first byte, and of the last one; `e` where there is none.
abbrev pub front : Bool → (ℕ → Bool) → Bytes → Bool
front e p [] = e
front e p (c ∷ s) = p c

abbrev pub back : Bool → (ℕ → Bool) → Bytes → Bool
back e p [] = e
back e p (c ∷ s) = back (p c) p s

abbrev pub space_surrounds : Bytes → Bytes → Bool
space_surrounds before after = front true is_space after && back true is_space before

abbrev pub word_surrounds : Bytes → Bytes → Bool
word_surrounds before after = front false is_alnum after && back false is_alnum before

-- `after.substr(0, after.find(';'))`
abbrev pub until_semicolon : Bytes → Option Bytes
until_semicolon [] = none
until_semicolon (c ∷ s) = if c == b';' then some [] else cons_to (until_semicolon s)
  where
    cons_to : Option Bytes → Option Bytes
    cons_to none = none
    cons_to (some t) = some (c ∷ t)

-- Behind `#`.
abbrev pub is_number_entity : Bytes → Bool
is_number_entity [] = true
is_number_entity (c ∷ s) = if c == b'x' || c == b'X' then all is_xdigit s else all is_digit (c ∷ s)

abbrev pub is_entity : Option Bytes → Bool
is_entity none = false
is_entity (some []) = true
is_entity (some (c ∷ s)) = if c == b'#' then is_number_entity s else all is_alpha (c ∷ s)

abbrev pub is_heading : Bytes → Bytes → Bool → Bool
is_heading before after starts_line =
    if not starts_line || not (is_empty before)
    then false
    else let rest = drop_while (λ d. d == b'#') after in
      is_empty rest || starts_with rest (codes " ")

unfoldable pub needs_leading_escape : ℕ → Bytes → Bytes → Bool → Bool
unfolding ruler_length looks_like_tag
needs_leading_escape c before after starts_line =
    if c == b'\\'
    then true
    else if c == b'`'
    then true
    else if c == b'~'
    then starts_line && is_empty before && starts_with after (codes "~~")
    else if c == b'#'
    then is_heading before after starts_line
    else if c == b']'
    then starts_with after (codes ":") || starts_with after (codes "(")
    else if c == b'='
    then ltb 0 (ruler_length c before after starts_line)
    else if c == b'_'
    then leb 3 (ruler_length c before after starts_line)
      || not (space_surrounds before after || word_surrounds before after)
    else if c == b'-'
    then ltb 0 (ruler_length c before after starts_line) || is_bullet before after starts_line
    else if c == b'+'
    then is_bullet before after starts_line
    else if c == b'*'
    then is_bullet before after starts_line
      || leb 3 (ruler_length c before after starts_line)
      || not (space_surrounds before after)
    else if c == b'<'
    then looks_like_tag after
    else if c == b'>'
    then starts_line && is_empty before
    else if c == b'&'
    then is_entity (until_semicolon after)
    else if c == b'.' || c == b')'
    then starts_line
      && not (is_empty before)
      && all is_digit before
      && starts_with after (codes " ")
    else false

-- The loop of `escapeMarkdownLine`, behind the bytes `before`.
unfoldable pub escape_from : Bytes → Bytes → Bytes
unfolding needs_leading_escape
escape_from before [] = []
escape_from before (c ∷ after) =
    (if needs_leading_escape c before after true then b'\\' ∷ c ∷ [] else c ∷ [])
    ++ escape_from (before ++ c ∷ []) after

unfoldable pub escape_markdown_line : Bytes → Bytes
unfolding escape_from
escape_markdown_line line = escape_from [] line
