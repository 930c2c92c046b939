-- ===== src/Completions/Query.antt =====
-- `CompletionQuery::fromLocation` of src/completions/CompletionDispatch.cpp: which query answers.
use slang_server.Common.{
  ℕ, ◌≤◌, Bool, true, false, ◌&&◌, ◌||◌, [], ◌∷◌, Option, none, some, Bytes, ◌==◌, ◌-◌, take,
  if◌then◌else◌, length, get_elem?, all, ◌≡◌, ◌<◌,
}
use slang_server.Syntax.{
  TokenKind, identifier, open_parenthesis, double_colon, dot, hash, SourceLocation, start_at,
  get_token_before, holds_at,
}
use slang_server.Syntax.Search.{FirstAfter}
use slang_server.Syntax.Lookup.{stop_at, EndsBefore}
use slang_server.Completions.Site.{
  TriviaKind, whitespace, end_of_line, other_trivia, Tokens, CompletionSite, at_offset,
  get_completion_site, NoWord,
}

pub record Range : Type 0 where
  pub start : ℕ
  pub stop : ℕ

-- The queries with what `create` is given; a token is its place.
pub data CompletionQuery : Type 0 where
  system_subroutine : Range → Bool → CompletionQuery
  macro_query : Range → Bytes → Bool → CompletionQuery
  scoped_access : Range → Option ℕ → Bool → CompletionQuery
  member_access : Range → Option ℕ → Bool → CompletionQuery
  instance_query : Range → Option ℕ → CompletionQuery
  lexical : Range → Bool → Bool → CompletionQuery

unfoldable pub is_layout : TriviaKind → Bool
is_layout whitespace = true
is_layout end_of_line = true
is_layout other_trivia = false

unfoldable pub is_separated_only_by_whitespace : Tokens → ℕ → Bool
unfolding is_layout
is_separated_only_by_whitespace t i = all is_layout (t.trivia i)

unfoldable pub is_identifier : TokenKind → Bool
is_identifier identifier = true
is_identifier _ = false

unfoldable pub is_hash : TokenKind → Bool
is_hash hash = true
is_hash _ = false

unfoldable pub is_open_parenthesis : TokenKind → Bool
is_open_parenthesis open_parenthesis = true
is_open_parenthesis _ = false

unfoldable pub is_double_colon : TokenKind → Bool
is_double_colon double_colon = true
is_double_colon _ = false

unfoldable pub is_dot : TokenKind → Bool
is_dot dot = true
is_dot _ = false

-- `token && token->kind == ...`
abbrev pub has_kind : (TokenKind → Bool) → Tokens → Option ℕ → Bool
has_kind p t none = false
has_kind p t (some i) = holds_at (λ k. p k.kind) (get_elem? t.syntaxes.collected i)

abbrev pub separated : Tokens → Option ℕ → Bool
separated t none = false
separated t (some i) = is_separated_only_by_whitespace t i

unfoldable pub followed_by_call : Tokens → CompletionSite → Bool
followed_by_call t s = has_kind is_open_parenthesis t s.token_after && separated t s.token_after

unfoldable pub followed_by_instantiation : Tokens → CompletionSite → Bool
followed_by_instantiation t s =
    separated t s.token_after
    && (has_kind is_identifier t s.token_after || has_kind is_hash t s.token_after)

abbrev pub starts_with : ℕ → Bytes → Bool
starts_with c [] = false
starts_with c (d ∷ s) = d == c

-- `token && token->rawText().starts_with(...)`
abbrev pub text_starts : Tokens → ℕ → Option ℕ → Bool
text_starts t c none = false
text_starts t c (some i) = starts_with c (t.raw_text i)

-- `getTokenBefore(token->location())`
abbrev pub before_token : Tokens → SourceLocation → Option ℕ → Option ℕ
before_token t cursor none = none
before_token t cursor (some i) =
    get_token_before t.syntaxes (at_offset cursor (start_at t.syntaxes.collected i))

abbrev pub is_none : Option ℕ → Bool
is_none none = true
is_none (some i) = false

abbrev pub range_of : CompletionSite → Range
range_of s = record { start = s.start; stop = s.stop }

unfoldable pub query_at : Tokens → SourceLocation → CompletionSite → CompletionQuery
query_at t cursor s =
    if text_starts t b'$' s.target_token
    then system_subroutine (range_of s) (followed_by_call t s)
    else if text_starts t b'`' s.target_token
    then macro_query (range_of s) s.typed_prefix (followed_by_call t s)
    else if has_kind is_double_colon t s.token_before
    then scoped_access (range_of s) (before_token t cursor s.token_before) (followed_by_call t s)
    else if has_kind is_dot t s.token_before
    then member_access (range_of s) (before_token t cursor s.token_before) (followed_by_call t s)
    else if is_none s.target_token && has_kind is_hash t s.token_before
    then instance_query (range_of s) (before_token t cursor s.token_before)
    else lexical (range_of s) (followed_by_call t s) (followed_by_instantiation t s)

unfoldable pub from_location : Tokens → SourceLocation → CompletionQuery
unfolding query_at
from_location t cursor = query_at t cursor (get_completion_site t cursor)

module _ (t : Tokens) (cursor : SourceLocation) where
  -- The range holds the cursor.
  abbrev pub Around : Range → Type 0
  Around r = (r.start ≤ cursor.offset) × (cursor.offset ≤ r.stop)

  -- The range is that of a token whose text starts with this byte.
  abbrev pub OnText : ℕ → Range → ℕ → Type 0
  OnText c r i =
      (i < length t.syntaxes.collected)
      × (r.start ≡ start_at t.syntaxes.collected i)
      × (r.stop ≡ stop_at t.syntaxes.collected i)
      × (text_starts t c (some i) ≡ true)

  -- Whether the first token behind the range is an opening parenthesis behind nothing but layout.
  abbrev pub Called : Range → Bool → Type 0
  Called r call =
      (a : Option ℕ) × FirstAfter t.syntaxes (at_offset cursor r.stop) a
      × (call ≡ (has_kind is_open_parenthesis t a && separated t a))

  -- The last token that stands before the range is of this kind, and `name` is the last before that one.
  abbrev pub Qualified : (TokenKind → Bool) → Range → Option ℕ → Type 0
  Qualified kind r name =
      (b : ℕ) × EndsBefore t.syntaxes.collected r.start (some b)
      × (has_kind kind t (some b) ≡ true)
      × EndsBefore t.syntaxes.collected (start_at t.syntaxes.collected b) name

  abbrev pub Unqualified : Range → Type 0
  Unqualified r =
      (b : Option ℕ) × EndsBefore t.syntaxes.collected r.start b
      × (has_kind is_double_colon t b ≡ false)
      × (has_kind is_dot t b ≡ false)

  abbrev pub Fits : CompletionQuery → Type 0
  Fits (system_subroutine r call) = Around r × Called r call × ((i : ℕ) × OnText b'$' r i)
  Fits (macro_query r typed call) =
      Around r
      × Called r call
      × ((i : ℕ) × OnText b'`' r i × (typed ≡ take (cursor.offset - r.start) (t.raw_text i)))
  Fits (scoped_access r name call) = Around r × Called r call × Qualified is_double_colon r name
  Fits (member_access r name call) = Around r × Called r call × Qualified is_dot r name
  Fits (instance_query r name) =
      (r.start ≡ cursor.offset)
      × (r.stop ≡ cursor.offset)
      × NoWord t cursor
      × Qualified is_hash r name
  Fits (lexical r call instantiation) = Around r × Called r call × Unqualified r
