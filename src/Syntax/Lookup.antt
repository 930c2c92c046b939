-- ===== src/Syntax/Lookup.antt =====
-- `getWordTokenAt` and `getTokenBefore` of src/document/SyntaxIndexer.cpp on tokens that are in order.
use slang_server.Common.{
  ℕ, zero, suc, ◌≤◌, ◌<◌, List, [], ◌∷◌, Option, none, some, ◌==◌, ltb, leb, length, get_elem?, ◌≡◌,
  inl, inr, refl, arith, Bool-cases,
}
use slang_server.Syntax.{
  Token, SourceLocation, SyntaxIndexer, start_at, token_index_before, holds_at, step_back, previous,
  skip_open, get_token_before,
}
use slang_server.Syntax.Search.{Behind, IsSorted, IndexBefore, token_index_before_exact}

abbrev stop_or_zero : Option Token → ℕ
stop_or_zero none = 0
stop_or_zero (some t) = t.stop

-- `collected[i]->range().end()`
abbrev pub stop_at : List Token → ℕ → ℕ
stop_at ts i = stop_or_zero (get_elem? ts i)

-- Each token ends before a later one starts. A token may be empty, as the one at the end of the file
-- is, and one that the parser adds for a missing name.
pub record AreTokens (ts : List Token) : Type 0 where
  pub forward : (i : ℕ) → i < length ts → start_at ts i ≤ stop_at ts i
  pub disjoint : (i j : ℕ) → i < j → j < length ts → stop_at ts i ≤ start_at ts j

-- A token that stands before an offset: it starts before it, and ends at or before it.
abbrev pub StandsBefore : List Token → ℕ → ℕ → Type 0
StandsBefore ts loc j = (start_at ts j < loc) × (stop_at ts j ≤ loc)

-- The last token that stands before an offset.
abbrev pub EndsBefore : List Token → ℕ → Option ℕ → Type 0
EndsBefore ts loc none = (j : ℕ) → j < length ts → StandsBefore ts loc j → ⊥
EndsBefore ts loc (some i) =
    (i < length ts)
    × StandsBefore ts loc i
    × ((j : ℕ) → i < j → j < length ts → StandsBefore ts loc j → ⊥)

-- The last token that starts before an offset.
abbrev StartsBefore : List Token → ℕ → Option ℕ → Type 0
StartsBefore ts loc none = (j : ℕ) → j < length ts → loc ≤ start_at ts j
StartsBefore ts loc (some i) =
    (i < length ts)
    × (start_at ts i < loc)
    × ((j : ℕ) → i < j → j < length ts → loc ≤ start_at ts j)

get_elem?-lt : (ts : List Token) (i : ℕ) → i < length ts → (t : Token) × (get_elem? ts i ≡ some t)
get_elem?-lt [] i h = elim h [ ]
get_elem?-lt (t ∷ ts) zero h = (t, refl)
get_elem?-lt (t ∷ ts) (suc i) h = get_elem?-lt ts i (omega arith)

from_index :
    (ts : List Token) (loc i : ℕ)
    → loc ≤ start_at ts i
    → ((j : ℕ) → i < j → j < length ts → loc ≤ start_at ts j)
    → (j : ℕ) → i ≤ j
    → j < length ts
    → loc ≤ start_at ts j
from_index ts loc i behind late j h l = elim (Bool-cases (j == i)) [
  | inl same ↦ let e : j ≡ i = ground arith in rw e behind
  | inr later ↦ late j (ground arith) l
]

step_back-StartsBefore :
    (ts : List Token) (loc i : ℕ)
    → i < length ts
    → ((j : ℕ) → i < j → j < length ts → loc ≤ start_at ts j)
    → StartsBefore ts loc (step_back ts loc (some i))
unfolding step_back
step_back-StartsBefore ts loc zero h late = elim (Bool-cases (leb loc (start_at ts zero))) [
  | inl behind ↦ rw behind (λ j l. from_index ts loc zero (ground arith) late j (omega arith) l)
  | inr here ↦ rw here (h, ground arith, late)
]
step_back-StartsBefore ts loc (suc i) h late = elim (Bool-cases (leb loc (start_at ts (suc i)))) [
  | inl behind ↦ rw behind (
      step_back-StartsBefore ts loc i (omega arith) (from_index ts loc (suc i) (ground arith) late))
  | inr here ↦ rw here (h, ground arith, late)
]

ends_after :
    (ts : List Token) (loc i : ℕ)
    → i < length ts
    → holds_at (λ t. ltb loc t.stop) (get_elem? ts i) ≡ ltb loc (stop_at ts i)
ends_after ts loc i h = let (t, e) = get_elem?-lt ts i h in rw e refl

open_from :
    (ts : List Token) (loc i : ℕ)
    → loc < stop_at ts i
    → ((j : ℕ) → i < j → j < length ts → loc ≤ start_at ts j)
    → (j : ℕ) → i ≤ j
    → j < length ts
    → StandsBefore ts loc j
    → ⊥
open_from ts loc i still late j h l (a, b) = elim (Bool-cases (j == i)) [
  | inl same ↦
      let e : j ≡ i = ground arith in let ends : stop_at ts i ≤ loc = rw e at b in omega arith
  | inr later ↦ let lt : i < j = ground arith in omega (arith, late j lt l)
]

previous-EndsBefore :
    (ts : List Token) (loc i : ℕ)
    → AreTokens ts
    → i < length ts
    → start_at ts i < loc
    → loc < stop_at ts i
    → ((j : ℕ) → i < j → j < length ts → loc ≤ start_at ts j)
    → EndsBefore ts loc (previous i)
previous-EndsBefore ts loc zero w h before still late =
    λ j l p. open_from ts loc zero still late j (omega arith) l p
previous-EndsBefore ts loc (suc i) w h before still late =
    let ends : stop_at ts i ≤ start_at ts (suc i) = w.disjoint i (suc i) (omega arith) h in
    (
      omega arith,
      (omega (arith, w.forward i (omega arith)), omega arith),
      λ j lt l p. open_from ts loc (suc i) still late j (omega arith) l p,
    )

skip_open-EndsBefore :
    (ts : List Token) (loc : ℕ) (i : Option ℕ)
    → AreTokens ts
    → StartsBefore ts loc i
    → EndsBefore ts loc (skip_open ts loc i)
unfolding skip_open
skip_open-EndsBefore ts loc none w s = λ j l (a, b). omega (arith, s j l)
skip_open-EndsBefore ts loc (some i) w (h, before, late) =
    rw (ends_after ts loc i h) (elim (Bool-cases (ltb loc (stop_at ts i))) [
      | inr closed ↦
          rw closed (h, (before, ground arith), λ j lt l (a, b). omega (arith, late j lt l))
      | inl open_token ↦ rw open_token (previous-EndsBefore ts loc i w h before (ground arith) late)
    ])

pub starts_mono : (ts : List Token) → AreTokens ts → IsSorted ts
starts_mono ts w i j h l = elim (Bool-cases (j == i)) [
  | inl same ↦ let e : j ≡ i = ground arith in rw e (omega arith)
  | inr later ↦
      let lt : i < j = ground arith in omega (arith, w.forward i (omega arith), w.disjoint i j lt l)
]

pub Behind-late :
    (ts : List Token) (loc i : ℕ)
    → IsSorted ts
    → Behind ts loc (suc i)
    → (j : ℕ) → i < j
    → j < length ts
    → loc < start_at ts j
Behind-late ts loc i sorted (inl e) j h l = absurd (omega arith)
Behind-late ts loc i sorted (inr b) j h l = omega (arith, sorted (suc i) j h l)

pub none-late :
    (ix : SyntaxIndexer) (loc : SourceLocation)
    → AreTokens ix.collected
    → loc.buffer ≡ ix.buffer
    → IndexBefore ix loc none
    → (j : ℕ) → j < length ix.collected
    → loc.offset < start_at ix.collected j
none-late ix loc w same (inl other) j l = absurd (other same)
none-late ix loc w same (inr (inl empty)) j l = absurd (omega arith)
none-late ix loc w same (inr (inr early)) j l =
    omega (arith, starts_mono ix.collected w 0 j (omega arith) l)

before-EndsBefore :
    (ix : SyntaxIndexer) (loc : SourceLocation) (index : Option ℕ)
    → AreTokens ix.collected
    → loc.buffer ≡ ix.buffer
    → IndexBefore ix loc index
    → EndsBefore ix.collected loc.offset
        (skip_open ix.collected loc.offset (step_back ix.collected loc.offset index))
before-EndsBefore ix loc none w same f =
    unfold step_back in
    skip_open-EndsBefore ix.collected loc.offset none w
      (λ j l. omega (arith, none-late ix loc w same f j l))
before-EndsBefore ix loc (some r) w same f =
    let sorted = starts_mono ix.collected w in
    skip_open-EndsBefore ix.collected loc.offset _ w (
      step_back-StartsBefore ix.collected loc.offset r f.1
        (λ j h l. omega (arith, Behind-late ix.collected loc.offset r sorted f.3 j h l)))

-- In tokens of which each ends before a later one starts, and which may be empty, `getTokenBefore`
-- gives the last token of the document that starts before the location and ends at or before it,
-- and no token only if no token does so. An empty token at the location is not given.
pub get_token_before_exact :
    (ix : SyntaxIndexer) (loc : SourceLocation)
    → AreTokens ix.collected
    → loc.buffer ≡ ix.buffer
    → EndsBefore ix.collected loc.offset (get_token_before ix loc)
get_token_before_exact ix loc w same =
    unfold get_token_before in
    before-EndsBefore ix loc (token_index_before ix loc) w same (token_index_before_exact ix loc)
