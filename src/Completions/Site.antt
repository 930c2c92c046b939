-- ===== src/Completions/Site.antt =====
-- `getCompletionSite` of src/completions/CompletionDispatch.cpp: the word at the cursor, what is
-- replaced and the tokens beside it.
use slang_server.Common.{
  ℕ, ◌-◌, ◌≤◌, ◌<◌, min, Bool, true, false, ◌&&◌, ◌||◌, List, [], ◌∷◌, Option, none, some, Bytes,
  ◌==◌, ltb, equal, if◌then◌else◌, length, get_elem?, take, ◌≡◌, ◌⊎◌,
}
use slang_server.Syntax.{
  Token, TokenKind, dollar, SourceLocation, SyntaxIndexer, start_at, get_word_token_at,
  get_token_before, get_token_after, holds_at,
}
use slang_server.Syntax.Search.{FirstAfter}
use slang_server.Syntax.Lookup.{stop_at, AreTokens, EndsBefore}
use slang_server.Syntax.Words.{WordAt}

-- The kinds of trivia that the code names, and the others.
pub data TriviaKind : Type 0 where
  whitespace end_of_line other_trivia : TriviaKind

-- The tokens of a document with their `rawText()` and the kinds of their `trivia()`, by their places.
pub record Tokens : Type 0 where
  pub syntaxes : SyntaxIndexer
  pub raw_text : ℕ → Bytes
  pub trivia : ℕ → List TriviaKind

-- `start` and `stop` are the offsets of the replacement range.
pub record CompletionSite : Type 0 where
  pub start : ℕ
  pub stop : ℕ
  pub target_token : Option ℕ
  pub token_before : Option ℕ
  pub token_after : Option ℕ
  pub typed_prefix : Bytes

abbrev pub at_offset : SourceLocation → ℕ → SourceLocation
at_offset cursor o = record cursor { offset = o }

-- The probe of the previous byte.
abbrev pub probe_previous : SyntaxIndexer → SourceLocation → Option ℕ → Option ℕ
probe_previous ix cursor (some i) = some i
probe_previous ix cursor none =
    if ltb 0 cursor.offset
    then get_word_token_at ix (at_offset cursor (cursor.offset - 1))
    else none

-- A token whose range does not touch the cursor is none.
abbrev pub touching : List Token → ℕ → Option ℕ → Option ℕ
touching ts cursor none = none
touching ts cursor (some i) =
    if ltb cursor (start_at ts i) || ltb (stop_at ts i) cursor then none else some i

unfoldable pub word_target : SyntaxIndexer → SourceLocation → Option ℕ
word_target ix cursor =
    touching ix.collected cursor.offset (probe_previous ix cursor (get_word_token_at ix cursor))

unfoldable pub is_dollar : TokenKind → Bool
is_dollar dollar = true
is_dollar _ = false

-- `$` or a backtick that ends at the cursor.
unfoldable pub is_marker : Tokens → ℕ → Option ℕ → Bool
is_marker t cursor none = false
is_marker t cursor (some i) =
    (stop_at t.syntaxes.collected i == cursor)
    && (holds_at (λ k. is_dollar k.kind) (get_elem? t.syntaxes.collected i)
        || equal (t.raw_text i) (b'`' ∷ []))

abbrev pub prefix_of : Tokens → ℕ → Option ℕ → ℕ → Bytes
prefix_of t cursor none start = []
prefix_of t cursor (some i) start =
    take (min (cursor - start) (length (t.raw_text i))) (t.raw_text i)

-- The site of a target and the offsets that it gives.
abbrev pub site_on : Tokens → SourceLocation → Option ℕ → ℕ → ℕ → CompletionSite
site_on t cursor target start stop = record {
  start = start;
  stop = stop;
  target_token = target;
  token_before = get_token_before t.syntaxes (at_offset cursor start);
  token_after = get_token_after t.syntaxes (at_offset cursor stop);
  typed_prefix = prefix_of t cursor.offset target start;
}

abbrev pub token_site : Tokens → SourceLocation → ℕ → CompletionSite
token_site t cursor i =
    site_on t cursor (some i) (start_at t.syntaxes.collected i) (stop_at t.syntaxes.collected i)

abbrev pub empty_site : Tokens → SourceLocation → CompletionSite
empty_site t cursor = site_on t cursor none cursor.offset cursor.offset

-- The token before the cursor, when there is no word.
abbrev pub marker_site : Tokens → SourceLocation → Option ℕ → CompletionSite
marker_site t cursor none = empty_site t cursor
marker_site t cursor (some i) =
    if is_marker t cursor.offset (some i) then token_site t cursor i else empty_site t cursor

abbrev pub target_site : Tokens → SourceLocation → Option ℕ → CompletionSite
target_site t cursor (some i) = token_site t cursor i
target_site t cursor none = marker_site t cursor (get_token_before t.syntaxes cursor)

unfoldable pub get_completion_site : Tokens → SourceLocation → CompletionSite
unfolding word_target
get_completion_site t cursor = target_site t cursor (word_target t.syntaxes cursor)

-- No word token holds the byte at the cursor or the one before it.
abbrev pub NoWord : Tokens → SourceLocation → Type 0
NoWord t cursor =
    WordAt t.syntaxes.collected cursor.offset none
    × (0 < cursor.offset → WordAt t.syntaxes.collected (cursor.offset - 1) none)

-- The word token holds the byte at the cursor, or the one before it.
abbrev pub WordNear : Tokens → SourceLocation → ℕ → Type 0
WordNear t cursor i =
    WordAt t.syntaxes.collected cursor.offset (some i)
    ⊎ ((0 < cursor.offset) × WordAt t.syntaxes.collected (cursor.offset - 1) (some i))

-- The token that a site is on, and the text that was typed of it.
abbrev pub OnTarget : Tokens → SourceLocation → CompletionSite → Option ℕ → Type 0
OnTarget t cursor s none =
    (s.start ≡ cursor.offset) × (s.stop ≡ cursor.offset) × (s.typed_prefix ≡ []) × NoWord t cursor
OnTarget t cursor s (some i) =
    (i < length t.syntaxes.collected)
    × (s.start ≡ start_at t.syntaxes.collected i)
    × (s.stop ≡ stop_at t.syntaxes.collected i)
    × (s.typed_prefix ≡ take (cursor.offset - s.start) (t.raw_text i))
    × (WordNear t cursor i ⊎ (NoWord t cursor × (is_marker t cursor.offset (some i) ≡ true)))

pub record IsSite (t : Tokens) (cursor : SourceLocation) (s : CompletionSite) : Type 0 where
  pub from : s.start ≤ cursor.offset
  pub upto : cursor.offset ≤ s.stop
  pub target : OnTarget t cursor s s.target_token
  pub before : EndsBefore t.syntaxes.collected s.start s.token_before
  pub after : FirstAfter t.syntaxes (at_offset cursor s.stop) s.token_after

module _ (t : Tokens) (cursor : SourceLocation) (w : AreTokens t.syntaxes.collected)
    (same : cursor.buffer ≡ t.syntaxes.buffer) where
  abbrev Touches : ℕ → Type 0
  Touches i =
      (i < length t.syntaxes.collected)
      × (start_at t.syntaxes.collected i ≤ cursor.offset)
      × (cursor.offset ≤ stop_at t.syntaxes.collected i)

  abbrev Chosen : ℕ → Type 0
  Chosen i = WordNear t cursor i ⊎ (NoWord t cursor × (is_marker t cursor.offset (some i) ≡ true))

  -- What the word at the cursor is.
  abbrev IsTarget : Option ℕ → Type 0
  IsTarget none = NoWord t cursor
  IsTarget (some i) = Touches i × WordNear t cursor i
