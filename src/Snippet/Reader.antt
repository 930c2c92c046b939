-- ===== src/Snippet/Reader.antt =====
-- The editor's side of a snippet, by the LSP snippet grammar: an independent reader of what the
-- builder of include/lsp/SnippetString.h writes.
use slang_server.Common.{
  ℕ, Bool, true, false, ◌||◌, List, [], ◌∷◌, ◌++◌, Option, none, some, Bytes, ◌==◌, if◌then◌else◌,
}
use slang_server.Common.Decimal.{read_number}

abbrev cons : ℕ → Bytes × Bytes → Bytes × Bytes
cons c (text, rest) = (c ∷ text, rest)

-- Literal text up to an unescaped `$` or `}`, and the rest. The flag says that a backslash was read.
unfoldable pub read_from : Bool → Bytes → Bytes × Bytes
read_from escaped [] = ([], [])
read_from true (c ∷ s) = cons c (read_from false s)
read_from false (c ∷ s) =
    let escaped = read_from true s in
    let plain = cons c (read_from false s) in
    if c == b'$' || c == b'}' then ([], c ∷ s) else if c == b'\\' then escaped else plain

abbrev pub read_text : Bytes → Bytes × Bytes
read_text = read_from false

abbrev then_value : Bytes → Option (List Bytes × Bytes) → Option (List Bytes × Bytes)
then_value v none = none
then_value v (some (vs, rest)) = some (v ∷ vs, rest)

-- Values between commas up to an unescaped bar; the first bytes are the value read so far.
unfoldable pub read_choices : Bool → Bytes → Bytes → Option (List Bytes × Bytes)
read_choices escaped v [] = none
read_choices true v (c ∷ s) = read_choices false (v ++ c ∷ []) s
read_choices false v (c ∷ s) =
    let escaped = read_choices true v s in
    let plain = read_choices false (v ++ c ∷ []) s in
    let next = then_value v (read_choices false [] s) in
    if c == b'|'
    then some (v ∷ [], s)
    else if c == b','
    then next
    else if c == b'\\'
    then escaped
    else plain

-- A tab stop with what it holds, and the rest of the snippet.
pub data Stop : Type 0 where
  bare : ℕ → Bytes → Stop
  placeholder : ℕ → Bytes → Bytes → Stop
  choice : ℕ → List Bytes → Bytes → Stop
  malformed : Stop

abbrev close_placeholder : ℕ → Bytes × Bytes → Stop
close_placeholder n (text, []) = malformed
close_placeholder n (text, c ∷ rest) = if c == b'}' then placeholder n text rest else malformed

abbrev close_choice : ℕ → Option (List Bytes × Bytes) → Stop
close_choice n none = malformed
close_choice n (some (vs, [])) = malformed
close_choice n (some (vs, c ∷ rest)) = if c == b'}' then choice n vs rest else malformed

abbrev read_body : ℕ × Bytes → Stop
read_body (n, []) = malformed
read_body (n, c ∷ s) =
    if c == b':'
    then close_placeholder n (read_text s)
    else if c == b'|'
    then close_choice n (read_choices false [] s)
    else malformed

abbrev read_bare : ℕ × Bytes → Stop
read_bare (n, rest) = bare n rest

-- `$1`, `${1:text}` or `${1|a,b|}`.
unfoldable pub read_stop : Bytes → Stop
read_stop [] = malformed
read_stop (c ∷ []) = malformed
read_stop (c ∷ d ∷ s) =
    if c == b'$'
    then if d == b'{' then read_body (read_number 0 s) else read_bare (read_number 0 (d ∷ s))
    else malformed
