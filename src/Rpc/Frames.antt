-- ===== src/Rpc/Frames.antt =====
-- What `readJson` of include/lsp/JsonRpc.h reads of messages framed as `sendMessage` frames them.
use slang_server.Common.{
  ℕ, zero, suc, ◌+◌, ◌-◌, ◌<◌, ◌≤◌, Bool, true, false, not, List, [], ◌∷◌, ◌++◌, some, Bytes, ◌==◌,
  all, length, take, drop, replicate, starts_with, codes, is_space, is_digit, length-append,
  drop-length-append, take-length-append, ◌≡◌, refl, sym, ap, ◌∙◌, arith, append_assoc, append-nil,
}
use slang_server.Common.Decimal.{
  to_string, read_number, read_number-to_string, to_string-head, to_string-all,
}
use slang_server.Rpc.Framing.{
  Stream, cut_line, got_line, sized, get_line, unsigned, stoi, resized, read_content, skip_headers,
  Content, request, reply, Reading, read, read_sized, read_header, with_content, read_json,
  send_message,
}

abbrev no_feed : Bytes → Bool
no_feed s = all (λ c. not (c == b'\n')) s

cut_line-append : (s t : Bytes) → no_feed s ≡ true → cut_line (s ++ b'\n' ∷ t) ≡ (s, some t)
unfolding cut_line
cut_line-append [] t h = refl
cut_line-append (c ∷ s) t h = ground (arith, cut_line-append s t)

digits_no_feed : (s : Bytes) → all is_digit s ≡ true → no_feed (s ++ b'\r' ∷ []) ≡ true
unfolding is_digit
digits_no_feed [] h = refl
digits_no_feed (c ∷ s) h = ground (arith, digits_no_feed s)

stoi_digit : (d : ℕ) (s : Bytes) → is_digit d ≡ true → stoi (d ∷ s) ≡ unsigned false (d ∷ s)
unfolding stoi is_digit is_space
stoi_digit d s h = ground (arith, h)

unsigned_number :
    (d n : ℕ) (s : Bytes)
    → is_digit d ≡ true
    → (read_number 0 (d ∷ s)).0 ≡ n
    → n < 2147483648
    → unsigned false (d ∷ s) ≡ some n
unfolding unsigned
unsigned_number d n s h e l = rw h (ap (sized false) e ∙ ground (arith, l))

stoi-to_string : (n : ℕ) → n < 2147483648 → stoi (to_string n ++ b'\r' ∷ []) ≡ some n
stoi-to_string n l =
    let (d, s, e, h) = to_string-head n in
    let value : (read_number 0 (to_string n ++ b'\r' ∷ [])).0 ≡ n =
      ap (λ t. t.0) (read_number-to_string n (b'\r' ∷ []) (unfold is_digit in refl)) in
    ap (λ t. stoi (t ++ b'\r' ∷ [])) e
    ∙ (stoi_digit d (s ++ b'\r' ∷ []) h
        ∙ unsigned_number d n (s ++ b'\r' ∷ []) h
            (ap (λ t. (read_number 0 (t ++ b'\r' ∷ [])).0) (sym e) ∙ value) l)

length-replicate : (n : ℕ) → length {A = ℕ} (replicate n 0) ≡ n
length-replicate zero = refl
length-replicate (suc n) = omega (arith, length-replicate n)

length-take : (n : ℕ) (s : Bytes) → length (take n s) + (n - length s) ≡ n
length-take zero s = omega arith
length-take (suc n) [] = omega arith
length-take (suc n) (c ∷ s) = omega (arith, length-take n s)

length-resized : (n : ℕ) (s : Bytes) → length (resized n s) ≡ n
unfolding resized
length-resized n s = omega (
  arith,
  length-append (take n s) (replicate (n - length s) 0),
  length-replicate (n - length s),
  length-take n s,
)

drop_all : (n : ℕ) (s : Bytes) → length s ≤ n → drop n s ≡ []
drop_all zero [] h = refl
drop_all zero (c ∷ s) h = absurd (omega arith)
drop_all (suc n) [] h = refl
drop_all (suc n) (c ∷ s) h = drop_all n s (omega arith)

read_content-body :
    (body rest content : Bytes)
    → read_content
        (length body)
        (record { left = body ++ rest; good = true })
        (resized (length body) content)
      ≡ (record { left = rest; good = true }, body)
unfolding read_content
read_content-body body rest content = rw (drop-length-append body rest) (
    rw (take-length-append body rest) (
      rw
        (drop_all (length (body ++ rest)) (resized (length body) content)
          (omega (arith, length-resized (length body) content, length-append body rest)))
        (rw append-nil (
          ap (λ b. (record { left = rest; good = b }, body))
            (ground (arith, length-append body rest))))))

abbrev header_line : Bytes → Bytes
header_line body = codes "Content-Length: " ++ (to_string (length body) ++ b'\r' ∷ [])

framed :
    (body rest : Bytes)
    → send_message body ++ rest ≡ header_line body ++ (b'\n' ∷ (codes "\r\n" ++ (body ++ rest)))
unfolding send_message
framed body rest =
    ap (λ t. codes "Content-Length: " ++ t)
      (append_assoc (to_string (length body)) (codes "\r\n\r\n" ++ body) rest
        ∙ sym (
            append_assoc (to_string (length body)) (b'\r' ∷ [])
              (b'\n' ∷ (codes "\r\n" ++ (body ++ rest)))))

get_line_good :
    (s t line : Bytes)
    → no_feed s ≡ true
    → get_line (record { left = s ++ b'\n' ∷ t; good = true }) line
      ≡ (record { left = t; good = true }, s, true)
unfolding get_line
get_line_good s t line h = ap got_line (cut_line-append s t h)

header_got :
    (body rest line : Bytes)
    → get_line (record { left = send_message body ++ rest; good = true }) line
      ≡ (record { left = codes "\r\n" ++ (body ++ rest); good = true }, header_line body, true)
header_got body rest line =
    ap (λ t. get_line (record { left = t; good = true }) line) (framed body rest)
    ∙ get_line_good (header_line body) (codes "\r\n" ++ (body ++ rest)) line
        (digits_no_feed (to_string (length body)) (to_string-all (length body)))

headers_skipped :
    (f : ℕ) (body rest line : Bytes)
    → skip_headers (suc f) (record { left = codes "\r\n" ++ (body ++ rest); good = true }) line
      ≡ some (record { left = body ++ rest; good = true }, b'\r' ∷ [])
unfolding skip_headers get_line cut_line
headers_skipped f body rest line = refl

module _ {Req : Type 0} (parse : Bytes → Content Req) where
  read_json_header :
      (f : ℕ) (input input' : Stream) (line line' content : Bytes) (sent : List Bytes)
      → get_line input line ≡ (input', line', true)
      → starts_with line' (codes "Content-Length: ") ≡ true
      → read_json parse (suc f) input line content sent
        ≡ read_header parse (read_json parse f) f (stoi (drop 16 line')) input' line' content sent
  unfolding read_json
  read_json_header f input input' line line' content sent e h = rw e (rw h refl)

  read_header_content :
      (again : Stream → Bytes → Bytes → List Bytes → Reading Req) (f n : ℕ)
      (input input' input'' : Stream) (line line' content content' : Bytes) (sent : List Bytes)
      → skip_headers f input line ≡ some (input', line')
      → read_content n input' (resized n content) ≡ (input'', content')
      → read_header parse again f (some n) input line content sent
        ≡ with_content parse
            (again input'' line' content')
            input''
            line'
            content'
            sent
            (parse content')
  read_header_content again f n input input' input'' line line' content content' sent e h =
      ap (λ o. read_sized parse again n o content sent) e
      ∙ ap (λ t. with_content parse (again t.0 line' t.1) t.0 line' t.1 sent (parse t.1)) h

  -- One framed message is read up to its end, whatever stands behind it.
  read_json-send_message :
      (f : ℕ) (body rest line content : Bytes) (sent : List Bytes)
      → length body < 2147483648
      → read_json parse
          (suc (suc f))
          (record { left = send_message body ++ rest; good = true })
          line
          content
          sent
        ≡ with_content parse
            (read_json parse (suc f) (record { left = rest; good = true }) (b'\r' ∷ []) body)
            (record { left = rest; good = true })
            (b'\r' ∷ [])
            body
            sent
            (parse body)
  read_json-send_message f body rest line content sent l =
      let behind : Stream = record { left = codes "\r\n" ++ (body ++ rest); good = true } in
      read_json_header (suc f) (record { left = send_message body ++ rest; good = true }) behind
        line (header_line body) content sent (header_got body rest line) refl
      ∙ (ap
            (λ o.
              read_header parse (read_json parse (suc f)) (suc f) o behind (header_line body)
                content sent)
            (stoi-to_string (length body) l)
          ∙ read_header_content (read_json parse (suc f)) (suc f) (length body) behind
              (record { left = body ++ rest; good = true }) (record { left = rest; good = true })
              (header_line body) (b'\r' ∷ []) content body sent
              (headers_skipped f body rest (header_line body))
              (read_content-body body rest content))

  -- The messages as they stand in the input, one behind the other.
  abbrev pub send_all : List Bytes → Bytes
  send_all [] = []
  send_all (m ∷ ms) = send_message m ++ send_all ms

  -- A content that is a reply of the editor, shorter than 2 ^ 31 bytes.
  abbrev pub IsReply : Bytes → Type 0
  IsReply m = (parse m ≡ reply) × (length m < 2147483648)

  abbrev pub AllReplies : List Bytes → Type 0
  AllReplies [] = Unit {0}
  AllReplies (m ∷ ms) = IsReply m × AllReplies ms

  -- Reading what `sendMessage` wrote: replies of the editor are passed over, the request behind them
  -- is read with its whole content, exactly what stands behind it is left, and nothing is sent.
  -- Contents are shorter than 2 ^ 31 bytes; two rounds more than there are replies are enough.
  pub read_json-send_all :
      (ms : List Bytes) (body rest line content : Bytes) (sent : List Bytes) (req : Req)
      → AllReplies ms
      → parse body ≡ request req
      → length body < 2147483648
      → read_json parse
          (suc (suc (length ms)))
          (record { left = send_all ms ++ (send_message body ++ rest); good = true })
          line
          content
          sent
        ≡ read req (record { left = rest; good = true }) (b'\r' ∷ []) body sent
  read_json-send_all [] body rest line content sent req h e l =
      read_json-send_message 0 body rest line content sent l ∙ rw e refl
  read_json-send_all (m ∷ ms) body rest line content sent req ((p, k), h) e l =
      ap
        (λ t.
          read_json parse (suc (suc (suc (length ms)))) (record { left = t; good = true }) line
            content sent)
        (append_assoc (send_message m) (send_all ms) (send_message body ++ rest))
      ∙ (read_json-send_message (suc (length ms)) m (send_all ms ++ (send_message body ++ rest))
            line content sent k
          ∙ rw p (read_json-send_all ms body rest (b'\r' ∷ []) m sent req h e l))
