-- ===== src/Completions/Signature.antt =====
-- The signature in a system task's documentation, of src/completions/SystemTaskCompletions.cpp: its
-- arguments and what a placeholder shows of each. `is_whitespace` and `is_alpha_numeric` are slang's
-- tests of a character. A position in a text is the text from there on.
pub mod Brackets
pub mod Split
use slang_server.Common.{
  ℕ, zero, suc, ◌+◌, ◌-◌, Bool, true, false, not, ◌&&◌, ◌||◌, List, [], ◌∷◌, ◌++◌, Option, none,
  some, Bytes, codes, equal, ◌==◌, ltb, any, all, map, length, drop, take, is_empty, if◌then◌else◌,
}
use slang_server.Snippet.{
  SnippetString, empty_snippet, append_text, append_placeholder, append_tabstop,
}

pub data SignatureArgs : Type 0 where
  call_args with_clause : Bytes → SignatureArgs

-- The loops over `value.front()` and `value.back()`.
unfoldable pub drop_front : (ℕ → Bool) → Bytes → Bytes
drop_front p [] = []
drop_front p (c ∷ s) = let rest = drop_front p s in if p c then rest else c ∷ s

unfoldable pub drop_back : (ℕ → Bool) → Bytes → Bytes
drop_back p [] = []
drop_back p (c ∷ s) = let rest = drop_back p s in if p c && is_empty rest then [] else c ∷ rest

unfoldable pub get_system_subroutine_insert_text : Bytes → Bytes
get_system_subroutine_insert_text [] = []
get_system_subroutine_insert_text (c ∷ s) = if c == b'$' then s else c ∷ s

unfoldable pub first_line : Bytes → Bytes
first_line [] = []
first_line (c ∷ s) = let rest = first_line s in if c == b'\n' then [] else c ∷ rest

abbrev pub cons_contents : ℕ → Option (Bytes × Bytes) → Option (Bytes × Bytes)
cons_contents c none = none
cons_contents c (some (contents, rest)) = some (c ∷ contents, rest)

-- The loop of `findBalancedContents` and `findBalancedClose` behind the opening bracket, at the depth
-- `deeper + 1`: what is inside, and what comes behind the closing bracket.
unfoldable pub balanced : (opener closer : ℕ) → ℕ → Bytes → Option (Bytes × Bytes)
balanced opener closer deeper [] = none
balanced opener closer zero (c ∷ s) =
    let opened = cons_contents c (balanced opener closer 1 s) in
    let next = cons_contents c (balanced opener closer 0 s) in
    if c == opener then opened else if c == closer then some ([], s) else next
balanced opener closer (suc deeper) (c ∷ s) =
    let opened = cons_contents c (balanced opener closer (suc (suc deeper)) s) in
    let closed = cons_contents c (balanced opener closer deeper s) in
    let next = cons_contents c (balanced opener closer (suc deeper) s) in
    if c == opener then opened else if c == closer then closed else next

abbrev pub contents_of : Option (Bytes × Bytes) → Option Bytes
contents_of none = none
contents_of (some (contents, rest)) = some contents

-- On a text that starts with the opening bracket.
unfoldable pub find_balanced_contents : (opener closer : ℕ) → Bytes → Option Bytes
unfolding balanced
find_balanced_contents opener closer [] = none
find_balanced_contents opener closer (c ∷ s) = contents_of (balanced opener closer 0 s)

-- `kept` and `skipped` are the loop from the next byte, and from behind the closing bracket.
abbrev pub strip_segment : Bytes → (Bytes → Bytes) → Option (Bytes × Bytes) → Bytes
strip_segment s again none = b'[' ∷ again s
strip_segment s again (some (contents, rest)) = again rest

-- The loop of `stripOptionalSegments`; each round takes a byte at least, so the length is fuel enough.
unfoldable pub strip_segments : ℕ → Bytes → Bytes
unfolding balanced
strip_segments zero s = []
strip_segments (suc fuel) [] = []
strip_segments (suc fuel) (c ∷ s) =
    let kept = c ∷ strip_segments fuel s in
    let stripped = strip_segment s (strip_segments fuel) (balanced b'[' b']' 0 s) in
    if c == b'[' then stripped else kept

-- The next byte belongs to the first part.
abbrev pub cons_head : ℕ → List Bytes → List Bytes
cons_head c [] = (c ∷ []) ∷ []
cons_head c (p ∷ ps) = (c ∷ p) ∷ ps

-- The loop of `splitSignatureArgs`, at a depth of parentheses.
unfoldable pub split_from : ℕ → Bytes → List Bytes
split_from depth [] = [] ∷ []
split_from zero (c ∷ s) =
    let opened = cons_head c (split_from 1 s) in
    let next = split_from 0 s in
    if c == b'(' then opened else if c == b',' then [] ∷ next else cons_head c next
split_from (suc depth) (c ∷ s) =
    let opened = cons_head c (split_from (suc (suc depth)) s) in
    let closed = cons_head c (split_from depth s) in
    let next = cons_head c (split_from (suc depth) s) in
    if c == b'(' then opened else if c == b')' then closed else next

-- The text before the first `=` outside of brackets; the loop of `stripDefaultValue`.
unfoldable pub before_default : (parens brackets : ℕ) → Bytes → Bytes
before_default parens brackets [] = []
before_default parens brackets (c ∷ s) =
    let opened_paren = c ∷ before_default (suc parens) brackets s in
    let closed_paren = c ∷ before_default (parens - 1) brackets s in
    let opened_bracket = c ∷ before_default parens (suc brackets) s in
    let closed_bracket = c ∷ before_default parens (brackets - 1) s in
    let next = c ∷ before_default parens brackets s in
    if c == b'('
    then opened_paren
    else if c == b')'
    then closed_paren
    else if c == b'['
    then opened_bracket
    else if c == b']'
    then closed_bracket
    else if c == b'=' && parens == 0 && brackets == 0
    then []
    else next

unfoldable pub starts_with_text : Bytes → Bytes → Bool
starts_with_text [] s = true
starts_with_text (c ∷ p) [] = false
starts_with_text (c ∷ p) (d ∷ s) = (c == d) && starts_with_text p s

unfoldable pub from_open : Bytes → Bytes
from_open [] = []
from_open (c ∷ s) = let rest = from_open s in if c == b'(' then c ∷ s else rest

abbrev pub or_item : Bytes → Bytes
or_item [] = codes "item.expr"
or_item (c ∷ s) = c ∷ s

module _ (is_whitespace is_alpha_numeric : ℕ → Bool) where
  unfoldable pub trim : Bytes → Bytes
  unfolding drop_front drop_back
  trim s = drop_back is_whitespace (drop_front is_whitespace s)

  unfoldable pub is_name_char : ℕ → Bool
  is_name_char c = is_alpha_numeric c || c == b'_' || c == b'$'

  unfoldable pub first_signature : Bytes → Bytes
  unfolding trim first_line
  first_signature signature = trim (first_line signature)

  abbrev pub has_name_boundary_after : Bytes → Bool
  has_name_boundary_after [] = true
  has_name_boundary_after (c ∷ s) = not (is_name_char c)

  -- The search for a name that is not empty: `skip` bytes of an earlier match are passed over, and
  -- `boundary` is `hasNameBoundaryBefore`. The result is what comes behind the name.
  unfoldable pub find_name : Bytes → ℕ → Bool → Bytes → Option Bytes
  unfolding is_name_char starts_with_text
  find_name name skip boundary [] = none
  find_name name (suc skip) boundary (c ∷ s) = find_name name skip (not (is_name_char c)) s
  find_name name zero boundary (c ∷ s) =
      let behind = drop (length name) (c ∷ s) in
      let past_match = find_name name (length name - 1) (not (is_name_char c)) s in
      let next = find_name name 0 (not (is_name_char c)) s in
      if starts_with_text name (c ∷ s)
      then if boundary && has_name_boundary_after behind then some behind else past_match
      else next

  abbrev pub find_if_named : Bytes → Bytes → Option Bytes
  find_if_named [] signature = none
  find_if_named (c ∷ name) signature = find_name (c ∷ name) 0 true signature

  abbrev pub or_find : Option Bytes → Option Bytes → Option Bytes
  or_find none second = second
  or_find (some rest) second = some rest

  unfoldable pub find_system_subroutine_name : Bytes → Bytes → Bytes → Option Bytes
  unfolding find_name
  find_system_subroutine_name signature label insert_text =
      or_find (find_if_named label signature) (find_if_named insert_text signature)

  abbrev pub as_call : Option Bytes → Option SignatureArgs
  as_call none = none
  as_call (some args) = some (call_args args)

  abbrev pub args_of_rest : Bytes → Option SignatureArgs
  args_of_rest [] = none
  args_of_rest (c ∷ s) =
      if starts_with_text (codes "with ") (c ∷ s)
      then some (with_clause (c ∷ s))
      else if c == b'['
      then some (call_args [])
      else if c == b'('
      then as_call (find_balanced_contents b'(' b')' (c ∷ s))
      else none

  abbrev pub args_behind : Option Bytes → Option SignatureArgs
  args_behind none = none
  args_behind (some rest) = args_of_rest (trim rest)

  unfoldable pub get_signature_args : Bytes → Bytes → Option SignatureArgs
  unfolding first_signature find_system_subroutine_name get_system_subroutine_insert_text
      find_balanced_contents
  get_signature_args label signature = args_behind (
      find_system_subroutine_name (first_signature signature) label
        (get_system_subroutine_insert_text label))

  unfoldable pub strip_optional_segments : Bytes → Bytes
  unfolding trim strip_segments
  strip_optional_segments value = trim (strip_segments (length value) value)

  unfoldable pub split_signature_args : Bytes → List Bytes
  unfolding trim split_from
  split_signature_args args = map trim (split_from 0 args)

  -- Each of the two loops trims after each marker, so it drops blanks and markers alike.
  unfoldable pub strip_optional_arg_markers : Bytes → Bytes
  unfolding trim
  strip_optional_arg_markers arg =
      drop_back (λ c. is_whitespace c || c == b'[' || c == b']')
        (drop_front (λ c. is_whitespace c || c == b'[' || c == b',') (trim arg))

  unfoldable pub strip_default_value : Bytes → Bytes
  unfolding trim before_default
  strip_default_value arg = trim (before_default 0 0 arg)

  unfoldable pub has_default_value : Bytes → Bool
  unfolding strip_default_value
  has_default_value arg = not (length (strip_default_value arg) == length (trim arg))

  abbrev pub trimmed_or_item : Option Bytes → Bytes
  trimmed_or_item none = codes "item.expr"
  trimmed_or_item (some contents) = or_item (trim contents)

  unfoldable pub get_with_clause_placeholder : Bytes → Bytes
  unfolding trim from_open find_balanced_contents
  get_with_clause_placeholder value =
      trimmed_or_item (find_balanced_contents b'(' b')' (from_open value))

  -- The run of name characters at the end.
  unfoldable pub last_name : Bytes → Bytes
  unfolding is_name_char
  last_name [] = []
  last_name (c ∷ s) = let rest = last_name s in if all is_name_char (c ∷ s) then c ∷ s else rest

  abbrev pub name_or_none : Bytes → Option Bytes
  name_or_none [] = none
  name_or_none (c ∷ s) = some (last_name (c ∷ s))

  abbrev pub placeholder_of : Bytes → Option Bytes
  placeholder_of [] = none
  placeholder_of (c ∷ s) =
      if equal (c ∷ s) (codes "...")
      then some []
      else name_or_none (drop_back (λ d. not (is_name_char d)) (c ∷ s))

  unfoldable pub get_argument_placeholder : Bytes → Option Bytes
  unfolding strip_default_value strip_optional_arg_markers last_name drop_back
  get_argument_placeholder arg =
      placeholder_of (strip_default_value (strip_optional_arg_markers arg))
