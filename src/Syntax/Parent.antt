-- ===== src/Syntax/Parent.antt =====
-- `getTokenParent` and `getSyntaxAt` of src/document/SyntaxIndexer.cpp. `chain` is slang's tree: a
-- node and, behind it, its parents in their order.
use slang_server.Common.{
  ℕ, suc, ◌+◌, ◌≤◌, ◌<◌, Bool, true, false, List, [], ◌∷◌, ◌++◌, Option, none, some, ◌==◌, ltb, leb,
  if◌then◌else◌, length, get_elem?, any, ◌≡◌, refl, arith, Bool-cases, inl, inr, ◌⊎◌, ap,
}
use slang_server.Syntax.{SourceLocation, SyntaxIndexer, token_index_before}
use slang_server.Syntax.Search.{IndexBefore, token_index_before_exact}
use slang_server.Syntax.Lookup.{stop_at}

abbrev parent_or_none : Option (Option ℕ) → Option ℕ
parent_or_none none = none
parent_or_none (some p) = p

unfoldable pub get_token_parent : SyntaxIndexer → ℕ → Option ℕ
get_token_parent ix i = parent_or_none (get_elem? ix.token_to_parent i)

abbrev pub has_node : ℕ → List ℕ → Bool
has_node n ns = any (λ m. m == n) ns

-- The second loop: the first of these nodes that is among the parents that were collected.
unfoldable pub first_common : List ℕ → List ℕ → Option ℕ
first_common before [] = none
first_common before (n ∷ after) = if has_node n before then some n else first_common before after

module _ (chain : ℕ → List ℕ) where
  abbrev pub parents_of : Option ℕ → List ℕ
  parents_of none = []
  parents_of (some n) = chain n

  abbrev pub syntax_from : SyntaxIndexer → ℕ → Option ℕ → Option ℕ
  syntax_from ix loc none = none
  syntax_from ix loc (some i) =
      if ltb loc (stop_at ix.collected i)
      then get_token_parent ix i
      else if leb (length ix.collected) (i + 1)
      then none
      else first_common (parents_of (get_token_parent ix i))
          (parents_of (get_token_parent ix (suc i)))

  unfoldable pub get_syntax_at : SyntaxIndexer → SourceLocation → Option ℕ
  unfolding first_common
  get_syntax_at ix loc = syntax_from ix loc.offset (token_index_before ix loc)

-- The first node of the second list that is in the first.
abbrev pub FirstShared : List ℕ → List ℕ → Option ℕ → Type 0
FirstShared before after none = (n : ℕ) → has_node n after ≡ true → has_node n before ≡ false
FirstShared before after (some n) =
    (has_node n before ≡ true)
    × ((near : List ℕ) × (far : List ℕ) × (after ≡ near ++ n ∷ far)
        × ((m : ℕ) → has_node m near ≡ true → has_node m before ≡ false))

FirstShared-cons :
    (before after : List ℕ) (a : ℕ) (r : Option ℕ)
    → has_node a before ≡ false
    → FirstShared before after r
    → FirstShared before (a ∷ after) r
FirstShared-cons before after a none h s = λ n e. elim (Bool-cases (a == n)) [
  | inl same ↦ let eq : a ≡ n = ground (arith, same) in rw⁻¹ eq h
  | inr other ↦ s n (ground (arith, e, other))
]
FirstShared-cons before after a (some n) h (shared, (near, far, e, out)) = (
  shared,
  (
    a ∷ near,
    far,
    ap (◌∷◌ a) e,
    λ m e'. elim (Bool-cases (a == m)) [
      | inl same ↦ let eq : a ≡ m = ground (arith, same) in rw⁻¹ eq h
      | inr other ↦ out m (ground (arith, e', other))
    ],
  ),
)

first_common-FirstShared :
    (before after : List ℕ) → FirstShared before after (first_common before after)
unfolding first_common
first_common-FirstShared before [] = λ n h. cc h
first_common-FirstShared before (a ∷ after) = elim (Bool-cases (has_node a before)) [
  | inl shared ↦ rw shared (shared, ([], after, refl, λ m h. cc h))
  | inr other ↦ rw other (
      FirstShared-cons before after a (first_common before after) other
        (first_common-FirstShared before after))
]

-- What stands at a location, given the token before it.
abbrev pub SyntaxFrom : (ℕ → List ℕ) → SyntaxIndexer → ℕ → Option ℕ → Option ℕ → Type 0
SyntaxFrom chain ix loc none r = r ≡ none
SyntaxFrom chain ix loc (some i) r =
    ((loc < stop_at ix.collected i) × (r ≡ get_token_parent ix i))
    ⊎ (((stop_at ix.collected i ≤ loc) × (length ix.collected ≤ suc i) × (r ≡ none))
        ⊎ ((stop_at ix.collected i ≤ loc)
            × (suc i < length ix.collected)
            × FirstShared (parents_of chain (get_token_parent ix i))
                (parents_of chain (get_token_parent ix (suc i))) r))

abbrev pub SyntaxAt : (ℕ → List ℕ) → SyntaxIndexer → SourceLocation → Option ℕ → Type 0
SyntaxAt chain ix loc r = (i : Option ℕ) × IndexBefore ix loc i × SyntaxFrom chain ix loc.offset i r

syntax_from-SyntaxFrom :
    (chain : ℕ → List ℕ) (ix : SyntaxIndexer) (loc : ℕ) (i : Option ℕ)
    → SyntaxFrom chain ix loc i (syntax_from chain ix loc i)
syntax_from-SyntaxFrom chain ix loc none = refl
syntax_from-SyntaxFrom chain ix loc (some i) =
    elim (Bool-cases (ltb loc (stop_at ix.collected i))) [
      | inl inside ↦ rw inside (inl (ground (arith, inside), refl))
      | inr past ↦ rw past (elim (Bool-cases (leb (length ix.collected) (i + 1))) [
        | inl last ↦ rw last (inr (inl (ground (arith, past), ground (arith, last), refl)))
        | inr more ↦
            rw more
              (inr (inr (ground (arith, past), ground (arith, more), first_common-FirstShared _ _)))
      ])
    ]

-- The syntax at a location is the parent of the token that holds it; between two tokens it is the
-- nearest node above the later token that is also above the earlier one, and none only if they share no
-- node; before the first and behind the last token there is none.
pub get_syntax_at_exact :
    (chain : ℕ → List ℕ) (ix : SyntaxIndexer) (loc : SourceLocation)
    → SyntaxAt chain ix loc (get_syntax_at chain ix loc)
unfolding get_syntax_at
get_syntax_at_exact chain ix loc = (
  token_index_before ix loc,
  token_index_before_exact ix loc,
  syntax_from-SyntaxFrom chain ix loc.offset (token_index_before ix loc),
)
