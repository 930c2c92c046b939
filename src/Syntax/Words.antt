-- ===== src/Syntax/Words.antt =====
-- `getWordTokenAt` of src/document/SyntaxIndexer.cpp on tokens that are in order.
use slang_server.Common.{
  ℕ, zero, suc, ◌≤◌, ◌<◌, true, false, List, Option, none, some, ◌==◌, ltb, length, get_elem?, ◌≡◌,
  refl, arith, Bool-cases, inl, inr, Option-cases,
}
use slang_server.Syntax.{
  Token, SourceLocation, SyntaxIndexer, start_at, token_index_before, is_word, holds_at,
  editor_contains, word_token_from, get_word_token_at,
}
use slang_server.Syntax.Search.{Behind, IndexBefore, token_index_before_exact}
use slang_server.Syntax.Lookup.{stop_at, AreTokens, starts_mono, Behind-late, none-late}

-- The word token whose range holds the offset, or none if there is no such token.
abbrev pub WordAt : List Token → ℕ → Option ℕ → Type 0
WordAt ts loc none = (j : ℕ) → j < length ts → holds_at (is_word loc) (get_elem? ts j) ≡ false
WordAt ts loc (some i) = (i < length ts) × (holds_at (is_word loc) (get_elem? ts i) ≡ true)

pub word_range :
    (ts : List Token) (loc j : ℕ)
    → holds_at (is_word loc) (get_elem? ts j) ≡ true
    → (start_at ts j ≤ loc) × (loc < stop_at ts j)
unfolding editor_contains
word_range ts loc j h = elim (Option-cases (get_elem? ts j)) [
  | inl e ↦ absurd (cc (rw e at h))
  | inr (t, e) ↦ rw e (ground (arith, rw e at h))
]

no_word :
    (ts : List Token) (loc j : ℕ)
    → (start_at ts j ≤ loc → loc < stop_at ts j → ⊥)
    → holds_at (is_word loc) (get_elem? ts j) ≡ false
no_word ts loc j out = elim (Bool-cases (holds_at (is_word loc) (get_elem? ts j))) [
  | inl hit ↦ absurd (out (word_range ts loc j hit).0 (word_range ts loc j hit).1)
  | inr miss ↦ miss
]

module _ (ts : List Token) (loc r : ℕ) (w : AreTokens ts) (h : r < length ts)
    (starts : start_at ts r ≤ loc) (last : Behind ts loc (suc r)) where
  -- Only the token at the index can be the word.
  only_index :
      holds_at (is_word loc) (get_elem? ts r) ≡ false
      → (j : ℕ) → j < length ts
      → holds_at (is_word loc) (get_elem? ts j) ≡ false
  only_index miss j l = elim (Bool-cases (j == r)) [
    | inl same ↦ let e : j ≡ r = ground arith in rw e miss
    | inr differ ↦ elim (Bool-cases (ltb j r)) [
      | inl below ↦
          let lt : j < r = ground arith in
          no_word ts loc j (λ a b. omega (arith, w.disjoint j r lt h))
      | inr above ↦
          let gt : r < j = ground arith in
          no_word ts loc j
            (λ a b. omega (arith, Behind-late ts loc r (starts_mono ts w) last j gt l))
    ]
  ]

word_token_from-WordAt :
    (ts : List Token) (loc r : ℕ)
    → AreTokens ts
    → r < length ts
    → start_at ts r ≤ loc
    → Behind ts loc (suc r)
    → WordAt ts loc (word_token_from ts loc (some r))
unfolding word_token_from
word_token_from-WordAt ts loc zero w h s b =
    elim (Bool-cases (holds_at (is_word loc) (get_elem? ts zero))) [
      | inl hit ↦ rw hit (h, hit)
      | inr miss ↦ rw miss (only_index ts loc zero w h s b miss)
    ]
word_token_from-WordAt ts loc (suc r) w h s b =
    elim (Bool-cases (holds_at (is_word loc) (get_elem? ts (suc r)))) [
      | inl hit ↦ rw hit (h, hit)
      | inr miss ↦ rw miss (elim (Bool-cases (holds_at (is_word loc) (get_elem? ts r))) [
        | inl before ↦ rw before (omega arith, before)
        | inr nowhere ↦ rw nowhere (only_index ts loc (suc r) w h s b miss)
      ])
    ]

index-WordAt :
    (ix : SyntaxIndexer) (loc : SourceLocation) (index : Option ℕ)
    → AreTokens ix.collected
    → loc.buffer ≡ ix.buffer
    → IndexBefore ix loc index
    → WordAt ix.collected loc.offset (word_token_from ix.collected loc.offset index)
index-WordAt ix loc none w same f =
    unfold word_token_from in
    λ j l. no_word ix.collected loc.offset j (λ a b. omega (arith, none-late ix loc w same f j l))
index-WordAt ix loc (some r) w same f =
    word_token_from-WordAt ix.collected loc.offset r w f.1 f.2 f.3

-- In tokens of which each ends before a later one starts, `getWordTokenAt` gives a token of a word kind whose range holds the
-- location, and gives none only if no token of the document is so.
pub get_word_token_at_exact :
    (ix : SyntaxIndexer) (loc : SourceLocation)
    → AreTokens ix.collected
    → loc.buffer ≡ ix.buffer
    → WordAt ix.collected loc.offset (get_word_token_at ix loc)
get_word_token_at_exact ix loc w same =
    unfold get_word_token_at in
    index-WordAt ix loc (token_index_before ix loc) w same (token_index_before_exact ix loc)

word_end-none :
    (ts : List Token) (loc i : ℕ) (found : Option ℕ)
    → AreTokens ts
    → i < length ts
    → stop_at ts i ≡ loc
    → ((j : ℕ) → start_at ts j ≡ loc → holds_at (is_word loc) (get_elem? ts j) ≡ false)
    → WordAt ts loc found
    → found ≡ none
word_end-none ts loc i none w l e others f = refl
word_end-none ts loc i (some j) w l e others f =
    let range = word_range ts loc j f.1 in
    elim (Bool-cases (ltb i j)) [
      | inl later ↦
          let lt : i < j = ground arith in
          let at_loc : start_at ts j ≡ loc = omega (arith, w.disjoint i j lt f.0, range.0) in
          absurd (cc (others j at_loc, f.1))
      | inr sooner ↦ elim (Bool-cases (j == i)) [
        | inl same ↦
            let same' : j ≡ i = ground arith in
            let stops : loc < stop_at ts i = rw same' at range.1 in absurd (omega arith)
        | inr before ↦
            let lt : j < i = ground arith in
            absurd (omega (arith, w.disjoint j i lt l, w.forward i l, range.1))
      ]
    ]

-- At the end of a token, where no word token starts, no word is found: the look at the token before
-- the one at the index does not find the word that ends there.
pub word_end_not_found :
    (ix : SyntaxIndexer) (loc : SourceLocation) (i : ℕ)
    → AreTokens ix.collected
    → loc.buffer ≡ ix.buffer
    → i < length ix.collected
    → stop_at ix.collected i ≡ loc.offset
    → ((j : ℕ)
        → start_at ix.collected j ≡ loc.offset
        → holds_at (is_word loc.offset) (get_elem? ix.collected j) ≡ false)
    → get_word_token_at ix loc ≡ none
word_end_not_found ix loc i w same l e others =
    word_end-none ix.collected loc.offset i (get_word_token_at ix loc) w l e others
      (get_word_token_at_exact ix loc w same)
