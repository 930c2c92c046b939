-- ===== src/Syntax.antt =====
-- src/document/SyntaxIndexer.cpp: the tokens of a document and the look-ups by location. All tokens
-- of `collected` lie in the document's buffer, so a token is its kind, the offsets of its range and
-- its parent node; a node is a number, with its parent by a table.
pub mod Search
pub mod Lookup
pub mod Words
pub mod Parent
mod Tests
use slang_server.Common.{
  ℕ, zero, suc, ◌+◌, ◌-◌, ◌/◌, Bool, true, false, not, ◌&&◌, ◌||◌, List, [], ◌∷◌, Option, none,
  some, ◌==◌, ltb, leb, if◌then◌else◌, length, get_elem?, any,
}

-- The kinds that the code names, and the others.
pub data TokenKind : Type 0 where
  identifier system_identifier directive macro_usage : TokenKind
  dollar open_parenthesis double_colon dot hash : TokenKind
  other_kind : ℕ → TokenKind

-- `start` is `location()` and `range().start()`; `stop` is `range().end()`.
pub record Token : Type 0 where
  pub kind : TokenKind
  pub start : ℕ
  pub stop : ℕ

pub record SourceLocation : Type 0 where
  pub buffer : ℕ
  pub offset : ℕ

pub record SyntaxIndexer : Type 0 where
  pub buffer : ℕ
  pub collected : List Token
  -- `tokenToParent`, by the token's place in `collected`.
  pub token_to_parent : List (Option ℕ)

abbrev or_zero : Option Token → ℕ
or_zero none = 0
or_zero (some t) = t.start

-- `collected[i]->location()`; every index that the code uses is in range.
abbrev pub start_at : List Token → ℕ → ℕ
start_at ts i = or_zero (get_elem? ts i)

-- The loop of `tokenIndexBefore` on `low` and `high`. Each round leaves a smaller interval, so fuel
-- of `high - low` is enough.
unfoldable pub search : ℕ → List Token → ℕ → ℕ → ℕ → ℕ
search zero ts loc low high = low
search (suc fuel) ts loc low high =
    let mid = low + (high - low) / 2 in
    let upper = search fuel ts loc mid high in
    let lower = search fuel ts loc low mid in
    if ltb (low + 1) high then if leb (start_at ts mid) loc then upper else lower else low

-- `none` is -1.
unfoldable pub token_index_before : SyntaxIndexer → SourceLocation → Option ℕ
unfolding search
token_index_before ix loc =
    if not (loc.buffer == ix.buffer)
    then none
    else if length ix.collected == 0
    then none
    else if ltb loc.offset (start_at ix.collected 0)
    then none
    else some (search (length ix.collected) ix.collected loc.offset 0 (length ix.collected))

unfoldable pub editor_contains : Token → ℕ → Bool
editor_contains t loc = leb t.start loc && ltb loc t.stop

unfoldable pub is_id_token : TokenKind → Bool
is_id_token identifier = true
is_id_token system_identifier = true
is_id_token directive = true
is_id_token macro_usage = true
is_id_token dollar = false
is_id_token open_parenthesis = false
is_id_token double_colon = false
is_id_token dot = false
is_id_token hash = false
is_id_token (other_kind n) = false

abbrev pub holds_at : (Token → Bool) → Option Token → Bool
holds_at p none = false
holds_at p (some t) = p t

-- `isIdToken(t->kind) && editorContains(t->range(), loc)`
abbrev pub is_word : ℕ → Token → Bool
is_word loc t = is_id_token t.kind && editor_contains t loc

-- The word token at an index, or the one before it.
unfoldable pub word_token_from : List Token → ℕ → Option ℕ → Option ℕ
unfolding editor_contains is_id_token
word_token_from ts loc none = none
word_token_from ts loc (some zero) =
    if holds_at (is_word loc) (get_elem? ts zero) then some zero else none
word_token_from ts loc (some (suc i)) =
    if holds_at (is_word loc) (get_elem? ts (suc i))
    then some (suc i)
    else if holds_at (is_word loc) (get_elem? ts i)
    then some i
    else none

-- The answer is the token's place in `collected`.
unfoldable pub get_word_token_at : SyntaxIndexer → SourceLocation → Option ℕ
unfolding token_index_before word_token_from
get_word_token_at ix loc = word_token_from ix.collected loc.offset (token_index_before ix loc)

abbrev pub token_from : (Token → ℕ → Bool) → List Token → ℕ → Option ℕ → Option ℕ
token_from contains ts loc none = none
token_from contains ts loc (some i) =
    if holds_at (λ t. contains t loc) (get_elem? ts i) then some i else none

-- `contains` is slang's `SourceRange::contains`.
unfoldable pub get_token_at : (Token → ℕ → Bool) → SyntaxIndexer → SourceLocation → Option ℕ
unfolding token_index_before
get_token_at contains ix loc =
    token_from contains ix.collected loc.offset (token_index_before ix loc)

-- `while (index >= 0 && collected[index]->location() >= loc) index--;`
unfoldable pub step_back : List Token → ℕ → Option ℕ → Option ℕ
step_back ts loc none = none
step_back ts loc (some zero) = if leb loc (start_at ts zero) then none else some zero
step_back ts loc (some (suc i)) =
    let before = step_back ts loc (some i) in
    if leb loc (start_at ts (suc i)) then before else some (suc i)

abbrev pub previous : ℕ → Option ℕ
previous zero = none
previous (suc i) = some i

-- `if (index >= 0 && loc < collected[index]->range().end()) index--;`
unfoldable pub skip_open : List Token → ℕ → Option ℕ → Option ℕ
skip_open ts loc none = none
skip_open ts loc (some i) =
    if holds_at (λ t. ltb loc t.stop) (get_elem? ts i) then previous i else some i

unfoldable pub get_token_before : SyntaxIndexer → SourceLocation → Option ℕ
get_token_before ix loc =
    skip_open ix.collected loc.offset
      (step_back ix.collected loc.offset (token_index_before ix loc))

-- `std::lower_bound` by location: the first token that does not start before the location, by the
-- halving of a range of `count` tokens from `first` on.
unfoldable pub lower_bound : ℕ → List Token → ℕ → ℕ → ℕ → ℕ
lower_bound zero ts loc first count = first
lower_bound (suc fuel) ts loc first count =
    let half = count / 2 in
    let right = lower_bound fuel ts loc (first + half + 1) (count - half - 1) in
    let left = lower_bound fuel ts loc first half in
    if count == 0 then first else if ltb (start_at ts (first + half)) loc then right else left

unfoldable pub get_token_after : SyntaxIndexer → SourceLocation → Option ℕ
get_token_after ix loc =
    let i =
      lower_bound (suc (length ix.collected)) ix.collected loc.offset 0 (length ix.collected) in
    if not (loc.buffer == ix.buffer)
    then none
    else if length ix.collected == 0
    then none
    else if ltb i (length ix.collected)
    then some i
    else none
