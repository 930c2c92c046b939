-- ===== src/Completions/Signature/Split.antt =====
-- The split of a signature at its commas of src/completions/SystemTaskCompletions.cpp.
use slang_server.Common.{
  ℕ, zero, suc, Bool, true, false, List, [], ◌∷◌, ◌++◌, Bytes, ◌==◌, if◌then◌else◌, ◌≡◌,
}

-- The parts with commas between them.
abbrev pub join : List Bytes → Bytes
join [] = []
join (p ∷ []) = p
join (p ∷ q ∷ ps) = p ++ b',' ∷ join (q ∷ ps)

-- The number of commas outside of parentheses, of which `depth` are open before the text.
abbrev pub commas : ℕ → Bytes → ℕ
commas depth [] = 0
commas zero (c ∷ s) =
    let opened = commas 1 s in
    let next = commas 0 s in if c == b'(' then opened else if c == b',' then suc next else next
commas (suc depth) (c ∷ s) =
    let opened = commas (suc (suc depth)) s in
    let closed = commas depth s in
    let next = commas (suc depth) s in
    if c == b'(' then opened else if c == b')' then closed else next

abbrev pub NoCommas : ℕ → List Bytes → Type 0
NoCommas depth [] = Unit {0}
NoCommas depth (p ∷ ps) = (commas depth p ≡ 0) × NoCommas 0 ps

abbrev has_part : List Bytes → Bool
has_part [] = false
has_part (p ∷ ps) = true

-- What the split of a text at a depth is.
abbrev Splits : ℕ → Bytes → List Bytes → Type 0
Splits depth s ps = (join ps ≡ s) × NoCommas depth ps × (has_part ps ≡ true)
