-- ===== src/Rpc/Framing.antt =====
-- `readJson` and `sendMessage` of include/lsp/JsonRpc.h: the framing of messages on the standard
-- input and output. The JSON reader is a parameter; `good` is `std::cin.good()`.
use slang_server.Common.{
  ℕ, zero, suc, ◌-◌, Bool, true, false, not, List, [], ◌∷◌, ◌++◌, Option, none, some, Bytes, ltb,
  leb, ◌==◌, if◌then◌else◌, is_empty, length, take, drop, replicate, starts_with, codes, is_space,
  is_digit,
}
use slang_server.Common.Decimal.{to_string, read_number}

pub record Stream : Type 0 where
  pub left : Bytes
  pub good : Bool

-- The text up to the first line feed, and what stands behind it, if there is one.
unfoldable pub cut_line : Bytes → Bytes × Option Bytes
cut_line [] = ([], none)
cut_line (c ∷ s) = if c == b'\n' then ([], some s) else on c (cut_line s)
  where
    on : ℕ → Bytes × Option Bytes → Bytes × Option Bytes
    on c (l, rest) = (c ∷ l, rest)

-- The stream, the line, and whether a line was read.
abbrev pub got_line : Bytes × Option Bytes → Stream × Bytes × Bool
got_line (l, some rest) = (record { left = rest; good = true }, l, true)
got_line (l, none) = (record { left = []; good = false }, l, not (is_empty l))

-- `std::getline`; a stream that is not good leaves the line as it was.
unfoldable pub get_line : Stream → Bytes → Stream × Bytes × Bool
unfolding cut_line
get_line input line = if input.good then got_line (cut_line input.left) else (input, line, false)

-- The value of `std::stoi`, behind the sign, as `resize` takes it; `none` is an exception, of
-- `stoi` or of `resize` to a negative size.
abbrev pub sized : Bool → ℕ → Option ℕ
sized true n = if n == 0 then some 0 else none
sized false n = if ltb n 2147483648 then some n else none

unfoldable pub unsigned : Bool → Bytes → Option ℕ
unsigned negative [] = none
unsigned negative (c ∷ s) =
    if not (is_digit c) then none else sized negative (read_number 0 (c ∷ s)).0

unfoldable pub stoi : Bytes → Option ℕ
unfolding unsigned
stoi [] = none
stoi (c ∷ s) =
    let rest = stoi s in
    if is_space c
    then rest
    else if c == b'-'
    then unsigned true s
    else if c == b'+'
    then unsigned false s
    else unsigned false (c ∷ s)

-- `content.resize(n)`
unfoldable pub resized : ℕ → Bytes → Bytes
resized n content = take n content ++ replicate (n - length content) 0

-- `std::cin.read(&content[0], n)` on a content of size n.
unfoldable pub read_content : ℕ → Stream → Bytes → Stream × Bytes
read_content n input content =
    if input.good
    then (
      record { left = drop n input.left; good = leb n (length input.left) },
      take n input.left ++ drop (length input.left) content,
    )
    else (input, content)

-- `do std::getline(std::cin, line); while (line.size() > 1);` within the fuel, if it ends.
unfoldable pub skip_headers : ℕ → Stream → Bytes → Option (Stream × Bytes)
unfolding get_line
skip_headers zero input line = none
skip_headers (suc fuel) input line =
    let (input', line', ok) = get_line input line in
    let more = skip_headers fuel input' line' in
    if ltb 1 (length line') then more else some (input', line')

-- What the JSON readers make of a content.
pub data Content (Req : Type 0) : Type 0 where
  request : Req → Content Req
  reply : Content Req
  unreadable : Bytes → Content Req

-- How `readJson` ends: with a request, at the end of the input, in an exception, or not within the
-- fuel. `sent` is what it has written, one text per message.
pub data Reading (Req : Type 0) : Type 0 where
  read : Req → Stream → Bytes → Bytes → List Bytes → Reading Req
  ended : Stream → List Bytes → Reading Req
  threw : Reading Req
  runs_on : Reading Req

module _ {Req : Type 0} (parse : Bytes → Content Req) where
  -- What happens to a content: the next round is `again`.
  abbrev pub with_content :
      (List Bytes → Reading Req) → Stream → Bytes → Bytes → List Bytes → Content Req → Reading Req
  with_content again input line content sent (request req) = read req input line content sent
  with_content again input line content sent reply = again sent
  with_content again input line content sent (unreadable why) = again (sent ++ why ∷ [])

  -- One round of `readJson`, up to the content: the content's size is known.
  abbrev pub read_sized :
      (Stream → Bytes → Bytes → List Bytes → Reading Req)
      → ℕ
      → Option (Stream × Bytes)
      → Bytes
      → List Bytes
      → Reading Req
  read_sized again n none content sent = runs_on
  read_sized again n (some (input, line)) content sent =
      let (input', content') = read_content n input (resized n content) in
      with_content (again input' line content') input' line content' sent (parse content')

  abbrev pub read_header :
      (Stream → Bytes → Bytes → List Bytes → Reading Req)
      → ℕ
      → Option ℕ
      → Stream
      → Bytes
      → Bytes
      → List Bytes
      → Reading Req
  read_header again fuel none input line content sent = threw
  read_header again fuel (some n) input line content sent =
      read_sized again n (skip_headers fuel input line) content sent

  unfoldable pub read_json : ℕ → Stream → Bytes → Bytes → List Bytes → Reading Req
  unfolding get_line stoi skip_headers resized read_content
  read_json zero input line content sent = runs_on
  read_json (suc fuel) input line content sent =
      let again = read_json fuel in
      let (input', line', ok) = get_line input line in
      if not ok
      then ended input' sent
      else if starts_with line' (codes "Content-Length: ")
      then read_header again fuel (stoi (drop 16 line')) input' line' content sent
      else again input' line' content sent

-- `sendMessage`, on the text of the message.
unfoldable pub send_message : Bytes → Bytes
send_message text =
    codes "Content-Length: " ++ (to_string (length text) ++ (codes "\r\n\r\n" ++ text))
