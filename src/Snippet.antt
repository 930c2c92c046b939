-- ===== src/Snippet.antt =====
-- include/lsp/SnippetString.h: the builder of completion snippets. A snippet is its text and the
-- number of the next tab stop. Tab stop numbers are the non-negative values of the source's int.
pub mod Reader
pub mod RoundTrip
pub mod Tabstops
mod Tests
use slang_server.Common.{
  ℕ, suc, ◌+◌, max, Bool, true, false, ◌||◌, List, [], ◌∷◌, ◌++◌, Option, none, some, Bytes, ◌==◌,
  if◌then◌else◌, is_empty,
}
use slang_server.Common.Decimal.{to_string}

pub record SnippetString : Type 0 where
  pub value : Bytes
  pub tabstop : ℕ

unfoldable pub empty_snippet : SnippetString
empty_snippet = record { value = []; tabstop = 1 }

-- The switch of `_escape`.
unfoldable pub is_special : ℕ → Bool
is_special c = c == b'$' || c == b'}' || c == b'\\'

unfoldable pub escape : Bytes → Bytes
unfolding is_special
escape [] = []
escape (c ∷ s) = (if is_special c then b'\\' ∷ c ∷ [] else c ∷ []) ++ escape s

-- The number to use, and the snippet with its counter moved on.
unfoldable pub next_tabstop : Option ℕ → SnippetString → ℕ × SnippetString
next_tabstop (some n) s = (n, record s { tabstop = max s.tabstop (n + 1) })
next_tabstop none s = (s.tabstop, record s { tabstop = s.tabstop + 1 })

-- `_value += text`
abbrev pub add : Bytes → SnippetString → SnippetString
add text s = record s { value = s.value ++ text }

unfoldable pub append_text : Bytes → SnippetString → SnippetString
unfolding escape
append_text text s = add (escape text) s

unfoldable pub append_tabstop : Option ℕ → SnippetString → SnippetString
unfolding next_tabstop
append_tabstop number s = let (n, s') = next_tabstop number s in add (b'$' ∷ to_string n) s'

-- `${n:value}`
abbrev pub placeholder_text : ℕ → Bytes → Bytes
placeholder_text n value = b'$' ∷ b'{' ∷ (to_string n ++ (b':' ∷ (escape value ++ b'}' ∷ [])))

unfoldable pub append_placeholder : Bytes → Option ℕ → SnippetString → SnippetString
unfolding escape next_tabstop
append_placeholder value number s =
    let (n, s') = next_tabstop number s in add (placeholder_text n value) s'

unfoldable pub is_choice_special : ℕ → Bool
is_choice_special c = c == b',' || c == b'|' || c == b'\\'

-- The loop of `find_first_of(",|\\", pos)`: each byte found gets a backslash, and the search goes
-- on behind it.
unfoldable pub escape_choice : Bytes → Bytes
unfolding is_choice_special
escape_choice [] = []
escape_choice (c ∷ s) = (if is_choice_special c then b'\\' ∷ c ∷ [] else c ∷ []) ++ escape_choice s

-- The stringstream of `appendChoice`; the flag is `first`.
unfoldable pub join_choices : Bool → List Bytes → Bytes
unfolding escape_choice
join_choices first [] = []
join_choices first (v ∷ vs) =
    (if first then [] else b',' ∷ []) ++ (escape_choice v ++ join_choices false vs)

-- `${n|a,b|}`
abbrev pub choice_text : ℕ → List Bytes → Bytes
choice_text n values =
    b'$' ∷ b'{' ∷ (to_string n ++ (b'|' ∷ (join_choices true values ++ b'|' ∷ b'}' ∷ [])))

unfoldable pub append_choice : List Bytes → Option ℕ → SnippetString → SnippetString
unfolding join_choices next_tabstop
append_choice values number s =
    let (n, s') = next_tabstop number s in
    if is_empty values then s else add (choice_text n values) s'

-- `appendVariable` with a text as its default.
unfoldable pub append_variable : Bytes → Bytes → SnippetString → SnippetString
unfolding escape
append_variable name default s =
    add
      (b'$'
        ∷ b'{'
        ∷ (name ++ ((if is_empty default then [] else b':' ∷ escape default) ++ b'}' ∷ [])))
      s

-- `appendVariable` with a nested snippet, which starts its own counter.
unfoldable pub append_variable_nested :
    Bytes → (SnippetString → SnippetString) → SnippetString → SnippetString
unfolding empty_snippet
append_variable_nested name callback s =
    let nested = callback empty_snippet in
    add
      (b'$'
        ∷ b'{'
        ∷ (name ++ ((if is_empty nested.value then [] else b':' ∷ nested.value) ++ b'}' ∷ [])))
      s
