-- ===== src/Formatting/Camel.antt =====
-- `toCamelCase` of src/util/Formatting.cpp.
use slang_server.Common.{
  ℕ, zero, suc, true, false, ◌&&◌, [], ◌∷◌, Bytes, if◌then◌else◌, is_upper, to_lower, ◌≡◌, refl,
  sym, ap, Bool-cases, inl, inr, ◌∙◌, arith, length, ◌==◌, ◌-◌,
}
use slang_server.Formatting.{lower_tail, to_camel_case}

-- The number of capital letters in front.
abbrev pub capitals : Bytes → ℕ
capitals [] = 0
capitals (c ∷ s) = let rest = capitals s in if is_upper c then suc rest else 0

-- The first `n` characters in lower case, the others as they are.
abbrev pub lower_first : ℕ → Bytes → Bytes
lower_first zero s = s
lower_first (suc n) [] = []
lower_first (suc n) (c ∷ s) = to_lower c ∷ lower_first n s

-- All leading capitals if there is nothing else, else all but the last of them.
abbrev pub lowered_count : Bytes → ℕ
lowered_count s = if capitals s == length s then capitals s else capitals s - 1

count_next :
    (c d : ℕ) (s : Bytes)
    → is_upper c ≡ true
    → is_upper d ≡ true
    → lowered_count (c ∷ d ∷ s) ≡ suc (lowered_count (d ∷ s))
count_next c d s h k = ground (arith, h, k)

count_stop :
    (c d : ℕ) (s : Bytes) → (is_upper c && is_upper d) ≡ false → lowered_count (c ∷ d ∷ s) ≡ 0
count_stop c d s h = ground (arith, h)

lower_tail-next :
    (c d : ℕ) (s : Bytes)
    → is_upper c ≡ true
    → is_upper d ≡ true
    → lower_tail (c ∷ d ∷ s) ≡ to_lower c ∷ lower_tail (d ∷ s)
unfolding lower_tail
lower_tail-next c d s h k = rw h (rw k refl)

tail_lowered : (s : Bytes) → lower_tail s ≡ lower_first (lowered_count s) s
unfolding lower_tail
tail_lowered [] = refl
tail_lowered (c ∷ []) = ground arith
tail_lowered (c ∷ d ∷ s) = elim (Bool-cases (is_upper c && is_upper d)) [
  | inl both ↦
      let h : is_upper c ≡ true = ground (arith, both) in
      let k : is_upper d ≡ true = ground (arith, both) in
      lower_tail-next c d s h k
      ∙ (ap (◌∷◌ (to_lower c)) (tail_lowered (d ∷ s))
          ∙ ap (λ n. lower_first n (c ∷ d ∷ s)) (sym (count_next c d s h k)))
  | inr e ↦ rw (count_stop c d s e) (ground (arith, e))
]

-- `toCamelCase` lowers the first character; of the capitals behind it, it lowers all if they end
-- the name, and else all but the last one, which starts the next word. Nothing else changes.
pub to_camel_case_lem :
    (c : ℕ) (s : Bytes) → to_camel_case (c ∷ s) ≡ to_lower c ∷ lower_first (lowered_count s) s
unfolding to_camel_case
to_camel_case_lem c s = ap (◌∷◌ (to_lower c)) (tail_lowered s)
