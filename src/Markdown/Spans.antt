-- ===== src/Markdown/Spans.antt =====
-- How a markdown reader takes the code spans of `appendCode` of src/util/Markdown.cpp.
use slang_server.Common.{
  ℕ, zero, suc, ◌+◌, ◌<◌, ◌≤◌, max, Bool, true, false, not, [], ◌∷◌, ◌++◌, Option, none, some,
  Bytes, ltb, ◌==◌, if◌then◌else◌, is_empty, replicate, ◌≡◌, refl, ap, ◌∙◌, sym, arith,
  append_assoc, Bool-cases, inl, inr,
}
use slang_server.Markdown.{longest_run, spaced, code_text}

abbrev pub before_rest : Bytes → Option (Bytes × Bytes) → Option (Bytes × Bytes)
before_rest s none = none
before_rest s (some (t, rest)) = some (s ++ t, rest)

-- The text up to the first run of exactly `n` backticks, and what stands behind that run; `run`
-- backticks have just been read.
unfoldable pub close : ℕ → ℕ → Bytes → Option (Bytes × Bytes)
close n run [] = if run == n then some ([], []) else none
close n run (c ∷ s) =
    let longer = close n (suc run) s in
    let later = close n 0 s in
    if c == b'`'
    then longer
    else if run == n
    then some ([], c ∷ s)
    else before_rest (replicate run b'`' ++ c ∷ []) later

-- A span that starts at the front of a text: its content and what stands behind it; `run` backticks
-- have been read.
unfoldable pub read_span : ℕ → Bytes → Option (Bytes × Bytes)
unfolding close
read_span run [] = none
read_span run (c ∷ s) =
    let longer = read_span (suc run) s in if c == b'`' then longer else close run 0 (c ∷ s)

-- A text does not go on with a backtick.
abbrev pub starts_plain : Bytes → Bool
starts_plain [] = true
starts_plain (c ∷ s) = not (c == b'`')

-- Behind `run` backticks, a text ends in something else than a backtick.
unfoldable ends_plain : ℕ → Bytes → Bool
ends_plain run [] = run == 0
ends_plain run (c ∷ s) = if c == b'`' then ends_plain (suc run) s else ends_plain 0 s

longest_run_le : (s : Bytes) (run m : ℕ) → m ≤ longest_run run m s
unfolding longest_run
longest_run_le [] run m = omega arith
longest_run_le (c ∷ s) run m =
    ground (arith, longest_run_le s (run + 1) (max m (run + 1)), longest_run_le s 0 m)

replicate-cons : (k : ℕ) (s : Bytes) → replicate k b'`' ++ b'`' ∷ s ≡ b'`' ∷ (replicate k b'`' ++ s)
replicate-cons zero s = refl
replicate-cons (suc k) s = ap (◌∷◌ b'`') (replicate-cons k s)

close-ticks : (k n run : ℕ) (s : Bytes) → close n run (replicate k b'`' ++ s) ≡ close n (run + k) s
unfolding close
close-ticks zero n run s = ap (λ r. close n r s) (omega arith)
close-ticks (suc k) n run s = close-ticks k n (suc run) s ∙ ap (λ r. close n r s) (omega arith)

close-run : (k n : ℕ) (s : Bytes) → close n 0 (replicate k b'`' ++ s) ≡ close n k s
close-run k n s = close-ticks k n 0 s ∙ ap (λ r. close n r s) (omega arith)

close_here : (n : ℕ) (rest : Bytes) → starts_plain rest ≡ true → close n n rest ≡ some ([], rest)
unfolding close
close_here n [] h = ground arith
close_here n (c ∷ rest) h = ground arith

close_behind :
    (inner rest : Bytes) (n run m : ℕ)
    → longest_run run m inner < n
    → run < n
    → ends_plain run inner ≡ true
    → starts_plain rest ≡ true
    → close n run (inner ++ (replicate n b'`' ++ rest)) ≡ some (replicate run b'`' ++ inner, rest)
unfolding longest_run ends_plain close
close_behind [] rest n run m l b e h =
    let z : run ≡ 0 = ground arith in rw z (close-run n n rest ∙ close_here n rest h)
close_behind (c ∷ inner) rest n run m l b e h = elim (Bool-cases (c == b'`')) [
  | inl tick ↦
      let same : c ≡ b'`' = ground arith in
      let longer : longest_run (run + 1) (max m (run + 1)) inner < n = ground arith in
      rw tick (
        close_behind inner rest n (suc run) (max m (run + 1)) (ground arith)
          (omega (arith, longest_run_le inner (run + 1) (max m (run + 1)))) (ground arith) h
        ∙ ap (λ s. some (s, rest)) (rw same (sym (replicate-cons run inner))))
  | inr other ↦
      let differs : (run == n) ≡ false = ground arith in
      rw other (
        rw differs (
          rw (close_behind inner rest n 0 m (ground arith) (omega arith) (ground arith) h)
            (rw append_assoc refl)))
]

longest_run-blank :
    (s : Bytes) (run m : ℕ) → longest_run run m (s ++ b' ' ∷ []) ≡ longest_run run m s
unfolding longest_run
longest_run-blank [] run m = refl
longest_run-blank (c ∷ s) run m =
    ground (arith, longest_run-blank s (run + 1) (max m (run + 1)), longest_run-blank s 0 m)

ends_plain-blank : (s : Bytes) (run : ℕ) → ends_plain run (s ++ b' ' ∷ []) ≡ true
unfolding ends_plain
ends_plain-blank [] run = refl
ends_plain-blank (c ∷ s) run = ground (arith, ends_plain-blank s (suc run), ends_plain-blank s 0)

ends_plain_without : (s : Bytes) (m : ℕ) → longest_run 0 m s ≡ 0 → ends_plain 0 s ≡ true
unfolding ends_plain longest_run
ends_plain_without [] m h = refl
ends_plain_without (c ∷ s) m h =
    ground (arith, longest_run_le s 1 (max m 1), ends_plain_without s m)

-- Before an opening delimiter of `n` backticks.
read_span-ticks :
    (k run : ℕ) (s : Bytes) → read_span run (replicate k b'`' ++ s) ≡ read_span (run + k) s
unfolding read_span
read_span-ticks zero run s = ap (λ r. read_span r s) (omega arith)
read_span-ticks (suc k) run s =
    read_span-ticks k (suc run) s ∙ ap (λ r. read_span r s) (omega arith)

read_span-run : (k : ℕ) (s : Bytes) → read_span 0 (replicate k b'`' ++ s) ≡ read_span k s
read_span-run k s = read_span-ticks k 0 s ∙ ap (λ r. read_span r s) (omega arith)

read_span_behind :
    (inner rest : Bytes) (n : ℕ)
    → longest_run 0 0 inner < n
    → ends_plain 0 inner ≡ true
    → starts_plain inner ≡ true
    → is_empty inner ≡ false
    → starts_plain rest ≡ true
    → read_span 0 (replicate n b'`' ++ (inner ++ (replicate n b'`' ++ rest))) ≡ some (inner, rest)
unfolding read_span
read_span_behind [] rest n l e h i g = cc i
read_span_behind (c ∷ inner) rest n l e h i g =
    read_span-run n ((c ∷ inner) ++ (replicate n b'`' ++ rest))
    ∙ (opened n c (inner ++ (replicate n b'`' ++ rest)) h
        ∙ close_behind (c ∷ inner) rest n 0 0 l (omega arith) e g)
  where
    opened :
        (n c : ℕ) (s : Bytes)
        → starts_plain (c ∷ []) ≡ true
        → read_span n (c ∷ s) ≡ close n 0 (c ∷ s)
    opened n c s h = ground arith

blanks_lem :
    (code : Bytes)
    → (longest_run 0 0 (b' ' ∷ (code ++ b' ' ∷ [])) ≡ longest_run 0 0 code)
      × (ends_plain 0 (b' ' ∷ (code ++ b' ' ∷ [])) ≡ true)
blanks_lem code =
    (unfold longest_run in longest_run-blank code 0 0, unfold ends_plain in ends_plain-blank code 0)

without_starts_plain : (code : Bytes) → longest_run 0 0 code ≡ 0 → starts_plain code ≡ true
unfolding longest_run
without_starts_plain [] e = refl
without_starts_plain (c ∷ code) e = ground (arith, longest_run_le code 1 (max 0 1))

spaced_lem :
    (code : Bytes) (n : ℕ)
    → longest_run 0 0 code ≡ n
    → is_empty code ≡ false
    → (longest_run 0 0 (spaced n code) ≡ n)
      × ((ends_plain 0 (spaced n code) ≡ true)
          × ((starts_plain (spaced n code) ≡ true) × (is_empty (spaced n code) ≡ false)))
unfolding spaced
spaced_lem code zero e h = (e, (ends_plain_without code 0 e, (without_starts_plain code e, h)))
spaced_lem code (suc n) e h =
    let more : ltb 0 (suc n) ≡ true = ground arith in
    let (run, ends) = blanks_lem code in rw more (run ∙ e, (ends, (refl, refl)))

-- For code that is not empty, a markdown reader that stands before what `appendCode` appends, with
-- no further backtick behind it, reads one code span: the code, between blanks if it has a backtick.
pub code_text-read :
    (code rest : Bytes)
    → is_empty code ≡ false
    → starts_plain rest ≡ true
    → read_span 0 (code_text code ++ rest) ≡ some (spaced (longest_run 0 0 code) code, rest)
unfolding code_text
code_text-read code rest h g =
    let n = longest_run 0 0 code in
    let (len, (ends, (starts, full))) = spaced_lem code n refl h in
    rw append_assoc (
      rw append_assoc
        (read_span_behind (spaced n code) rest (n + 1) (omega (arith, len)) ends starts full g))
