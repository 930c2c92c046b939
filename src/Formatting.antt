-- ===== src/Formatting.antt =====
-- src/util/Formatting.cpp: the clean-up of source text for hovers and completions. `none` is the
-- exception of `s.resize(s.size() - 1)` on an empty string. slang's `isWhitespace` is a parameter.
pub mod Visible
pub mod Docs
pub mod Hover
pub mod Clean
pub mod Formats
pub mod Camel
mod Tests
use slang_server.Common.{
  ℕ, zero, suc, ◌+◌, ◌<◌, min, Bool, true, false, ◌&&◌, ◌||◌, List, [], ◌∷◌, ◌++◌, Option, none,
  some, Bytes, ltb, ◌==◌, if◌then◌else◌, is_empty, any, length, drop, is_space, is_upper, to_lower,
}

-- The lines that `std::getline` gives, one after the other: a line feed at the end of the text
-- starts no further line.
abbrev pub join_first : ℕ → List Bytes → List Bytes
join_first c [] = (c ∷ []) ∷ []
join_first c (l ∷ ls) = (c ∷ l) ∷ ls

unfoldable pub get_lines : Bytes → List Bytes
get_lines [] = []
get_lines (c ∷ s) = let rest = get_lines s in if c == b'\n' then [] ∷ rest else join_first c rest

abbrev pub cons_to : ℕ → Option Bytes → Option Bytes
cons_to c none = none
cons_to c (some t) = some (c ∷ t)

-- `s.resize(s.size() - 1)`
unfoldable pub drop_last : Bytes → Option Bytes
drop_last [] = none
drop_last (c ∷ []) = some []
drop_last (c ∷ d ∷ s) = cons_to c (drop_last (d ∷ s))

unfoldable pub ltrim : Bytes → Bytes
ltrim [] = []
ltrim (c ∷ s) = let rest = ltrim s in if is_space c then rest else c ∷ s

unfoldable pub is_single_line : Bytes → Bool
is_single_line [] = true
is_single_line (c ∷ s) = let rest = is_single_line s in if c == b'\n' then false else rest

-- `kept` is what would stay: the text behind the last line feed so far.
unfoldable pub strip_from : (ℕ → Bool) → Bytes → Bytes → Bytes
strip_from is_whitespace kept [] = kept
strip_from is_whitespace kept (c ∷ s) =
    let fed = strip_from is_whitespace s s in
    let on = strip_from is_whitespace kept s in
    if is_whitespace c then if c == b'\n' then fed else on else kept

unfoldable pub strip_blank_lines : (ℕ → Bool) → Bytes → Bytes
unfolding strip_from
strip_blank_lines is_whitespace s = strip_from is_whitespace s s

-- The second loop of a line in `squashSpaces`; the flag is `inSpaceSequence`.
unfoldable pub squash_content : Bool → Bytes → Bytes
squash_content spaces [] = []
squash_content spaces (c ∷ s) =
    let blank = squash_content true s in
    let other = squash_content false s in
    if c == b' ' then if spaces then blank else c ∷ blank else c ∷ other

unfoldable pub squash_line : Bytes → Bytes
unfolding squash_content
squash_line [] = []
squash_line (c ∷ s) =
    let rest = squash_line s in
    if c == b' ' || c == b'\t' then c ∷ rest else squash_content false (c ∷ s)

-- What both loops over lines write: nothing for an empty line, else the changed line and a line
-- feed.
unfoldable pub write_lines : (Bytes → Bytes) → List Bytes → Bytes
write_lines change [] = []
write_lines change (l ∷ ls) =
    (if is_empty l then [] else change l ++ b'\n' ∷ []) ++ write_lines change ls

unfoldable pub squash_spaces : Bytes → Option Bytes
unfolding squash_line write_lines get_lines drop_last
squash_spaces s = if is_empty s then some s else drop_last (write_lines squash_line (get_lines s))

-- The number of `iChar` in front of a line.
unfoldable pub indent_of : ℕ → Bytes → ℕ
indent_of indent_char [] = 0
indent_of indent_char (c ∷ s) = if c == indent_char then suc (indent_of indent_char s) else 0

-- `none` is `SIZE_MAX`.
abbrev pub smaller : ℕ → Option ℕ → Option ℕ
smaller n none = some n
smaller n (some m) = some (min m n)

-- The first pass, behind the first line.
unfoldable pub min_indent : ℕ → Option ℕ → List Bytes → Option ℕ
unfolding indent_of
min_indent indent_char found [] = found
min_indent indent_char found (l ∷ ls) =
    min_indent indent_char
      (if ltb (indent_of indent_char l) (length l)
        then smaller (indent_of indent_char l) found
        else found)
      ls

-- A line without up to `count` of its leading `iChar`.
unfoldable pub unindent : ℕ → ℕ → Bytes → Bytes
unindent indent_char zero s = s
unindent indent_char (suc count) [] = []
unindent indent_char (suc count) (c ∷ s) =
    if c == indent_char then unindent indent_char count s else c ∷ s

abbrev pub behind_first : List Bytes → List Bytes
behind_first [] = []
behind_first (l ∷ ls) = ls

abbrev pub shift_by : ℕ → Option ℕ → Bytes → Option Bytes
shift_by indent_char none s = some s
shift_by indent_char (some zero) s = some s
shift_by indent_char (some (suc count)) s =
    drop_last (write_lines (unindent indent_char (suc count)) (get_lines s))

abbrev pub indent_char_of : Bytes → ℕ
indent_char_of s = if any (λ c. c == b'\t') s then b'\t' else b' '

unfoldable pub shift_indent : Bytes → Option Bytes
unfolding is_single_line ltrim min_indent unindent write_lines get_lines drop_last
shift_indent s =
    if is_empty s
    then some s
    else if is_single_line s
    then some (ltrim s)
    else shift_by (indent_char_of s)
        (min_indent (indent_char_of s) none (behind_first (get_lines s))) s

abbrev pub and_then : Option Bytes → (Bytes → Option Bytes) → Option Bytes
and_then none f = none
and_then (some s) f = f s

-- `detailFormat`, on what slang's printer gives.
unfoldable pub detail_format : (ℕ → Bool) → Bytes → Option Bytes
unfolding squash_spaces strip_blank_lines ltrim
detail_format is_whitespace printed =
    and_then (squash_spaces (strip_blank_lines is_whitespace printed)) (λ s. some (ltrim s))

-- `formatCode`
unfoldable pub format_code : (ℕ → Bool) → Bytes → Option Bytes
unfolding squash_spaces strip_blank_lines shift_indent is_single_line
format_code is_whitespace printed =
    and_then (if is_single_line printed then squash_spaces printed else some printed)
      (λ s. shift_indent (strip_blank_lines is_whitespace s))

-- `formatCodeWithLeadingComments`
unfoldable pub format_code_with_leading_comments : (ℕ → Bool) → Bytes → Option Bytes
unfolding strip_blank_lines shift_indent
format_code_with_leading_comments is_whitespace printed =
    shift_indent (strip_blank_lines is_whitespace printed)

-- The loop of `toCamelCase` and what follows it, from the second character on.
unfoldable pub lower_tail : Bytes → Bytes
lower_tail [] = []
lower_tail (c ∷ []) = (if is_upper c then to_lower c else c) ∷ []
lower_tail (c ∷ d ∷ s) =
    let rest = lower_tail (d ∷ s) in
    if is_upper c then if is_upper d then to_lower c ∷ rest else c ∷ d ∷ s else c ∷ d ∷ s

unfoldable pub to_camel_case : Bytes → Bytes
unfolding lower_tail
to_camel_case [] = []
to_camel_case (c ∷ s) = to_lower c ∷ lower_tail s
