-- ===== src/Snippet/RoundTrip.antt =====
-- What the builder of include/lsp/SnippetString.h appends is read back by the snippet grammar.
use slang_server.Common.{
  is_digit, ℕ, true, false, ◌||◌, List, [], ◌∷◌, ◌++◌, Option, none, some, Bytes, ◌==◌, ◌≡◌, refl,
  ap, ◌∙◌, arith, append-nil, append_assoc, drop, length, drop-length-append,
}
use slang_server.Common.Decimal.{to_string, NoDigit, to_string-head, read_number-to_string}
use slang_server.Snippet.{
  SnippetString, is_special, escape, next_tabstop, append_text, append_tabstop, append_placeholder,
  placeholder_text, choice_text, escape_choice, join_choices, append_choice,
}
use slang_server.Snippet.Reader.{
  read_from, read_text, read_choices, bare, placeholder, choice, read_stop,
}

-- The text ends here: at the end of the snippet, or before a `$` or a closing brace.
abbrev pub EndsText : Bytes → Type 0
EndsText [] = Unit {0}
EndsText (c ∷ s) = (c == b'$' || c == b'}') ≡ true

read_from-EndsText : (rest : Bytes) → EndsText rest → read_text rest ≡ ([], rest)
unfolding read_from
read_from-EndsText [] h = refl
read_from-EndsText (c ∷ s) h = ground arith

pub read_text-escape :
    (text rest : Bytes) → EndsText rest → read_text (escape text ++ rest) ≡ (text, rest)
unfolding read_from escape is_special
read_text-escape [] rest h = read_from-EndsText rest h
read_text-escape (c ∷ s) rest h = ground (arith, read_text-escape s rest h)

read_choices-escape_choice :
    (v w rest : Bytes)
    → read_choices false w (escape_choice v ++ rest) ≡ read_choices false (w ++ v) rest
unfolding read_choices escape_choice
read_choices-escape_choice [] w rest = rw append-nil
read_choices-escape_choice (c ∷ v) w rest =
    ground (arith, read_choices-escape_choice v (w ++ c ∷ []) rest, append_assoc w (c ∷ []) v)

read_choices_tail :
    (v : Bytes) (vs : List Bytes) (rest : Bytes)
    → read_choices false v (join_choices false vs ++ b'|' ∷ rest) ≡ some (v ∷ vs, rest)
unfolding read_choices join_choices
read_choices_tail v [] rest = refl
read_choices_tail v (w ∷ vs) rest = ground (
  arith,
  append_assoc (escape_choice w) (join_choices false vs) (b'|' ∷ rest),
  read_choices-escape_choice w [] (join_choices false vs ++ b'|' ∷ rest),
  read_choices_tail w vs rest,
)

pub read_choices-join_choices :
    (v : Bytes) (vs : List Bytes) (rest : Bytes)
    → read_choices false [] (join_choices true (v ∷ vs) ++ b'|' ∷ rest) ≡ some (v ∷ vs, rest)
unfolding join_choices
read_choices-join_choices v vs rest =
    ap (read_choices false []) (append_assoc (escape_choice v) (join_choices false vs) _)
    ∙ read_choices-escape_choice v [] _
    ∙ read_choices_tail v vs rest

-- What an operation wrote behind the text that was there.
abbrev pub written : SnippetString → SnippetString → Bytes
written s s' = drop (length s.value) s'.value

-- Text that is appended is read back as literal text, whatever bytes it holds, up to the next stop.
pub append_text-read :
    (text rest : Bytes) (s : SnippetString)
    → EndsText rest
    → read_text (written s (append_text text s) ++ rest) ≡ (text, rest)
unfolding append_text
append_text-read text rest s h =
    rw (drop-length-append s.value (escape text)) (read_text-escape text rest h)

digit_not_brace : (d : ℕ) → is_digit d ≡ true → (d == b'{') ≡ false
unfolding is_digit
digit_not_brace d h = ground arith

read_stop_bare :
    (n : ℕ) (rest : Bytes) → NoDigit rest → read_stop (b'$' ∷ (to_string n ++ rest)) ≡ bare n rest
unfolding read_stop
read_stop_bare n rest h =
    let (d, s, e, digit) = to_string-head n in
    let whole = read_number-to_string n rest h in
    rw e (ground (arith, rw e at whole, digit_not_brace d digit))

pub read_stop_placeholder :
    (n : ℕ) (value rest : Bytes)
    → read_stop (b'$' ∷ b'{' ∷ (to_string n ++ (b':' ∷ (escape value ++ b'}' ∷ rest))))
      ≡ placeholder n value rest
unfolding read_stop
read_stop_placeholder n value rest =
    rw (read_number-to_string n (b':' ∷ (escape value ++ b'}' ∷ rest)) (unfold is_digit in refl))
      (rw (read_text-escape value (b'}' ∷ rest) refl))

read_stop_choice :
    (n : ℕ) (v : Bytes) (vs : List Bytes) (rest : Bytes)
    → read_stop
        (b'$' ∷ b'{' ∷ (to_string n ++ (b'|' ∷ (join_choices true (v ∷ vs) ++ b'|' ∷ b'}' ∷ rest))))
      ≡ choice n (v ∷ vs) rest
unfolding read_stop
read_stop_choice n v vs rest =
    rw
      (read_number-to_string n (b'|' ∷ (join_choices true (v ∷ vs) ++ b'|' ∷ b'}' ∷ rest))
        (unfold is_digit in refl))
      (rw (read_choices-join_choices v vs (b'}' ∷ rest)))

-- A tab stop is read back with its number, if no digit follows it.
pub append_tabstop-read :
    (number : Option ℕ) (rest : Bytes) (s : SnippetString)
    → NoDigit rest
    → read_stop (written s (append_tabstop number s) ++ rest) ≡ bare (next_tabstop number s).0 rest
unfolding append_tabstop read_stop
append_tabstop-read (some n) rest s h =
    rw (drop-length-append s.value (b'$' ∷ to_string n)) (read_stop_bare n rest h)
append_tabstop-read none rest s h =
    rw (drop-length-append s.value (b'$' ∷ to_string s.tabstop)) (read_stop_bare s.tabstop rest h)

-- A placeholder is read back with its number and its value, whatever bytes the value holds.
pub append_placeholder-read :
    (value : Bytes) (number : Option ℕ) (rest : Bytes) (s : SnippetString)
    → read_stop (written s (append_placeholder value number s) ++ rest)
      ≡ placeholder (next_tabstop number s).0 value rest
unfolding append_placeholder read_stop
append_placeholder-read value (some n) rest s =
    rw (drop-length-append s.value (placeholder_text n value)) (
      rw (append_assoc (to_string n) _ rest, append_assoc (escape value) _ rest)
        (read_stop_placeholder n value rest))
append_placeholder-read value none rest s =
    rw (drop-length-append s.value (placeholder_text s.tabstop value)) (
      rw (append_assoc (to_string s.tabstop) _ rest, append_assoc (escape value) _ rest)
        (read_stop_placeholder s.tabstop value rest))

-- A choice is read back with its number and all its values, if there is a value.
pub append_choice-read :
    (v : Bytes) (vs : List Bytes) (number : Option ℕ) (rest : Bytes) (s : SnippetString)
    → read_stop (written s (append_choice (v ∷ vs) number s) ++ rest)
      ≡ choice (next_tabstop number s).0 (v ∷ vs) rest
unfolding append_choice read_stop
append_choice-read v vs (some n) rest s = rw (drop-length-append s.value (choice_text n (v ∷ vs))) (
    rw (append_assoc (to_string n) _ rest, append_assoc (join_choices true (v ∷ vs)) _ rest)
      (read_stop_choice n v vs rest))
append_choice-read v vs none rest s =
    rw (drop-length-append s.value (choice_text s.tabstop (v ∷ vs))) (
      rw
        (
          append_assoc (to_string s.tabstop) _ rest,
          append_assoc (join_choices true (v ∷ vs)) _ rest,
        )
        (read_stop_choice s.tabstop v vs rest))
