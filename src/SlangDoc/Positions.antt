-- ===== src/SlangDoc/Positions.antt =====
-- Positions of the LSP specification, as the comment of `Position` of include/lsp/LspTypes.h gives them,
-- in a plain text: its lines, and UTF-16 code units in a line. They do not use the offsets of
-- src/document/SlangDoc.cpp.
use slang_server.Common.{
  ℕ, zero, suc, ◌+◌, ◌-◌, ◌≤◌, Bool, true, false, not, ◌&&◌, ◌||◌, List, [], ◌∷◌, ◌++◌, Option,
  none, some, Bytes, ◌==◌, ltb, if◌then◌else◌, length, get_elem?, drop, ◌≡◌, refl, ap, arith,
  Bool-cases, inl, inr,
}
use slang_server.Diagnostics.Types.{Position}
use slang_server.SlangDoc.{offset_of}

abbrev is_line_end : ℕ → Bool
is_line_end c = c == b'\n' || c == b'\r'

abbrev starts_with : ℕ → Bytes → Bool
starts_with c [] = false
starts_with c (d ∷ s) = d == c

-- Whether a line ends behind a byte, with what stands behind it: at a line feed, and at a carriage
-- return that no line feed follows.
abbrev breaks : ℕ → Bytes → Bool
breaks c s = c == b'\n' || (c == b'\r' && not (starts_with b'\n' s))

-- Where the lines but the first start, in a text that stands at an offset.
unfoldable later_starts : ℕ → Bytes → List ℕ
later_starts i [] = []
later_starts i (c ∷ s) =
    let rest = later_starts (suc i) s in if breaks c s then suc i ∷ rest else rest

unfoldable pub line_starts : Bytes → List ℕ
unfolding later_starts
line_starts t = 0 ∷ later_starts 0 t

-- The bytes that follow the first of a character in UTF-8, and its code units in UTF-16.
abbrev following : ℕ → ℕ
following c = if ltb c 192 then 0 else if ltb c 224 then 1 else if ltb c 240 then 2 else 3

abbrev units : ℕ → ℕ
units c = if ltb c 240 then 1 else 2

-- The bytes of as many code units, but not past the end of the line; `pending` is what is left of a
-- character.
unfoldable advance : ℕ → ℕ → Bytes → ℕ
advance pending character [] = 0
advance (suc pending) character (c ∷ s) = suc (advance pending character s)
advance zero zero (c ∷ s) = 0
advance zero (suc n) (c ∷ s) =
    let rest = advance (following c) (suc n - units c) s in if is_line_end c then 0 else suc rest

abbrev in_line : Option ℕ → ℕ → Bytes → ℕ
in_line none character t = length t
in_line (some start) character t = start + advance 0 character (drop start t)

-- The offset of a position: a character past the end of its line is the end of the line.
unfoldable pub lsp_offset : Bytes → Position → ℕ
unfolding line_starts advance
lsp_offset t p = in_line (get_elem? (line_starts t) p.line) p.character t

-- Whether as many bytes stand in the line, all of them ASCII.
unfoldable pub is_ascii_line : ℕ → Bytes → Bool
is_ascii_line zero s = true
is_ascii_line (suc n) [] = false
is_ascii_line (suc n) (c ∷ s) = ltb c 128 && (not (is_line_end c) && is_ascii_line n s)

-- A position on a line of the text and not past its end, with ASCII before it in the line.
abbrev pub InAscii : Bytes → Position → Type 0
InAscii t p =
    (start : ℕ) × (get_elem? (line_starts t) p.line ≡ some start)
    × (is_ascii_line p.character (drop start t) ≡ true)

-- Whether a line feed that ends no CR LF stands before a carriage return: slang takes the two as one
-- line end.
unfoldable pub feed_return : Bool → Bytes → Bool
feed_return after_return [] = false
feed_return after_return (c ∷ s) =
    let rest = feed_return (c == b'\r') s in
    (not after_return && (c == b'\n' && starts_with b'\r' s)) || rest

-- `SourceManager::computeLineOffsets` of slang on the buffer of a text.
abbrev pub KnowsLines : (Bytes → List ℕ) → Type 0
KnowsLines line_offsets =
    (t : Bytes) → feed_return false t ≡ false → line_offsets (t ++ 0 ∷ []) ≡ line_starts t

-- In ASCII a code unit is a byte.
advance-ascii : (n : ℕ) (s : Bytes) → is_ascii_line n s ≡ true → advance 0 n s ≡ n
unfolding advance is_ascii_line
advance-ascii zero [] h = refl
advance-ascii zero (c ∷ s) h = refl
advance-ascii (suc n) [] h = cc h
advance-ascii (suc n) (c ∷ s) h =
    let small : ltb c 192 ≡ true = ground (arith, h) in
    let one : ltb c 240 ≡ true = ground (arith, h) in
    let inside : is_line_end c ≡ false = ground (arith, h) in
    let rest : is_ascii_line n s ≡ true = ground (arith, h) in
    let same : suc n - 1 ≡ n = omega arith in
    rw inside (rw small (rw one (rw same (ap suc (advance-ascii n s rest)))))

ascii-length : (n : ℕ) (s : Bytes) → is_ascii_line n s ≡ true → n ≤ length s
unfolding is_ascii_line
ascii-length zero s h = omega arith
ascii-length (suc n) [] h = cc h
ascii-length (suc n) (c ∷ s) h = omega (arith, ascii-length n s (ground (arith, h)))

drop-inside : (n k : ℕ) (s : Bytes) → n ≤ length s → k ≤ length (drop n s) → n + k ≤ length s
drop-inside zero k s h l = omega arith
drop-inside (suc n) k [] h l = absurd (omega arith)
drop-inside (suc n) k (c ∷ s) h l = omega (arith, drop-inside n k s (omega arith) l)

head_inside :
    (n bound : ℕ) (ns : List ℕ)
    → n ≤ bound
    → ((line start : ℕ) → get_elem? ns line ≡ some start → start ≤ bound)
    → (line start : ℕ) → get_elem? (n ∷ ns) line ≡ some start
    → start ≤ bound
head_inside n bound ns h k zero start e = let same : n ≡ start = cc e in omega arith
head_inside n bound ns h k (suc line) start e = k line start e

later_starts-inside :
    (i : ℕ) (t : Bytes) (line start : ℕ)
    → get_elem? (later_starts i t) line ≡ some start
    → start ≤ i + length t
unfolding later_starts
later_starts-inside i [] line start h = cc h
later_starts-inside i (c ∷ s) line start h = elim (Bool-cases (breaks c s)) [
  | inr no_end ↦ omega (arith, later_starts-inside (suc i) s line start (rw no_end at h))
  | inl line_end ↦
      head_inside (suc i) (i + length (c ∷ s)) (later_starts (suc i) s) (omega arith)
        (λ l n e. omega (arith, later_starts-inside (suc i) s l n e)) line start (rw line_end at h)
]

line_starts-inside :
    (t : Bytes) (line start : ℕ) → get_elem? (line_starts t) line ≡ some start → start ≤ length t
unfolding line_starts
line_starts-inside t zero start h = let e : 0 ≡ start = cc h in omega arith
line_starts-inside t (suc line) start h = omega (arith, later_starts-inside 0 t line start h)

-- Before a position in ASCII, the line's offset and the character give the position's offset, which is
-- in the text.
pub offset_of-lsp_offset :
    (t : Bytes) (p : Position)
    → InAscii t p
    → (offset_of (line_starts t) p ≡ some (lsp_offset t p)) × (lsp_offset t p ≤ length t)
unfolding lsp_offset
offset_of-lsp_offset t p (start, e, h) =
    let col = advance-ascii p.character (drop start t) h in
    let inside =
      drop-inside start p.character t (line_starts-inside t p.line start e)
        (ascii-length p.character (drop start t) h) in
    rw e (rw col (refl, inside))

starts_with-null : (s : Bytes) → starts_with b'\n' (s ++ 0 ∷ []) ≡ starts_with b'\n' s
starts_with-null [] = refl
starts_with-null (d ∷ s) = refl

later_starts-null : (i : ℕ) (t : Bytes) → later_starts i (t ++ 0 ∷ []) ≡ later_starts i t
unfolding later_starts
later_starts-null i [] = refl
later_starts-null i (c ∷ s) =
    let same : breaks c (s ++ 0 ∷ []) ≡ breaks c s = rw (starts_with-null s) refl in
    rw same (rw (later_starts-null (suc i) s) refl)

-- The table of the lines is one that knows them.
pub line_starts-KnowsLines : KnowsLines line_starts
unfolding line_starts
line_starts-KnowsLines t h = ap (◌∷◌ 0) (later_starts-null 0 t)
