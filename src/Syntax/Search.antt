-- ===== src/Syntax/Search.antt =====
-- The binary searches of src/document/SyntaxIndexer.cpp.
use slang_server.Common.{
  ℕ, zero, suc, ◌+◌, ◌-◌, ◌/◌, ◌≤◌, ◌<◌, List, Option, none, some, ◌==◌, ltb, length, ◌≡◌, ◌≢◌, ◌⊎◌,
  inl, inr, refl, arith, Bool-cases,
}
use slang_server.Syntax.{
  Token, SourceLocation, SyntaxIndexer, start_at, search, token_index_before, lower_bound,
  get_token_after,
}

-- No token stands at this index, or one that starts behind the location.
abbrev pub Behind : List Token → ℕ → ℕ → Type 0
Behind ts loc i = (i ≡ length ts) ⊎ (loc < start_at ts i)

record Found (ts : List Token) (loc low high r : ℕ) : Type 0 where
  pub from : low ≤ r
  pub below : r < high
  pub starts : start_at ts r ≤ loc
  pub last : Behind ts loc (suc r)

search-Found :
    (fuel : ℕ) (ts : List Token) (loc low high : ℕ)
    → high - low ≤ fuel
    → low < high
    → start_at ts low ≤ loc
    → Behind ts loc high
    → Found ts loc low high (search fuel ts loc low high)
unfolding search
search-Found zero ts loc low high f lt s b = absurd (omega arith)
search-Found (suc fuel) ts loc low high f lt s b =
    let mid = low + (high - low) / 2 in
    ground (arith, search-Found fuel ts loc mid high, search-Found fuel ts loc low mid)

-- What an index before a location is.
abbrev pub IndexBefore : SyntaxIndexer → SourceLocation → Option ℕ → Type 0
IndexBefore ix loc none =
    (loc.buffer ≢ ix.buffer) ⊎ ((length ix.collected ≡ 0) ⊎ (loc.offset < start_at ix.collected 0))
IndexBefore ix loc (some r) =
    (loc.buffer ≡ ix.buffer)
    × (r < length ix.collected)
    × (start_at ix.collected r ≤ loc.offset)
    × Behind ix.collected loc.offset (suc r)

search_whole :
    (ts : List Token) (loc : ℕ)
    → length ts ≢ 0
    → start_at ts 0 ≤ loc
    → Found ts loc 0 (length ts) (search (length ts) ts loc 0 (length ts))
search_whole ts loc ne s =
    search-Found (length ts) ts loc 0 (length ts) (omega arith) (omega arith) s (inl refl)

-- `tokenIndexBefore` gives the index of a token that starts at or before the location, while the
-- next one, if any, starts behind it; it gives -1 only for another buffer, for no token at all,
-- and for a location before the first token.
pub token_index_before_exact :
    (ix : SyntaxIndexer) (loc : SourceLocation) → IndexBefore ix loc (token_index_before ix loc)
unfolding token_index_before
token_index_before_exact ix loc = elim (Bool-cases (loc.buffer == ix.buffer)) [
  | inr other ↦ rw other (inl (ground arith))
  | inl same ↦ rw same (elim (Bool-cases (length ix.collected == 0)) [
    | inl empty ↦ rw empty (inr (inl (ground arith)))
    | inr full ↦ rw full (elim (Bool-cases (ltb loc.offset (start_at ix.collected 0))) [
      | inl early ↦ rw early (inr (inr (ground arith)))
      | inr late ↦ rw late (
          let found = search_whole ix.collected loc.offset (ground arith) (ground arith) in
          (ground arith, found.below, found.starts, found.last))
    ])
  ])
]

-- Tokens stand in the order of their starts.
abbrev pub IsSorted : List Token → Type 0
IsSorted ts = (i j : ℕ) → i ≤ j → j < length ts → start_at ts i ≤ start_at ts j

record Split (ts : List Token) (loc first count r : ℕ) : Type 0 where
  pub from : first ≤ r
  pub upto : r ≤ first + count
  pub before : (j : ℕ) → j < r → start_at ts j < loc
  pub after : (j : ℕ) → r ≤ j → j < length ts → loc ≤ start_at ts j

lower_bound-Split :
    (fuel : ℕ) (ts : List Token) (loc first count : ℕ)
    → IsSorted ts
    → count < fuel
    → first + count ≤ length ts
    → ((j : ℕ) → j < first → start_at ts j < loc)
    → ((j : ℕ) → first + count ≤ j → j < length ts → loc ≤ start_at ts j)
    → Split ts loc first count (lower_bound fuel ts loc first count)
unfolding lower_bound
lower_bound-Split zero ts loc first count sorted f fits b a = elim f [ ]
lower_bound-Split (suc fuel) ts loc first count sorted f fits b a = elim (Bool-cases (count == 0)) [
  | inl empty ↦ rw empty (record {
    from = omega arith;
    upto = omega arith;
    before = b;
    after = λ j h l. a j (ground arith) l;
  })
  | inr more ↦ rw more (elim (Bool-cases (ltb (start_at ts (first + count / 2)) loc)) [
    | inl small ↦ rw small (
        let half = count / 2 in
        let s =
          lower_bound-Split fuel ts loc (first + half + 1) (count - half - 1) sorted (ground arith)
            (ground arith) (λ j h. ground (arith, sorted j (first + half)))
            (λ j h l. a j (ground arith) l) in
        record {
          from = omega (arith, s.from);
          upto = ground (arith, s.upto);
          before = s.before;
          after = s.after;
        })
    | inr large ↦ rw large (
        let half = count / 2 in
        let s =
          lower_bound-Split fuel ts loc first half sorted (ground arith) (ground arith) b
            (λ j h l. ground (arith, sorted (first + half) j)) in
        record { from = s.from; upto = ground (arith, s.upto); before = s.before; after = s.after })
  ])
]

-- The first token that starts at or after the location, or none.
abbrev pub FirstAfter : SyntaxIndexer → SourceLocation → Option ℕ → Type 0
FirstAfter ix loc none =
    (loc.buffer ≡ ix.buffer)
    → (j : ℕ) → j < length ix.collected
    → start_at ix.collected j < loc.offset
FirstAfter ix loc (some r) =
    (loc.buffer ≡ ix.buffer)
    × (r < length ix.collected)
    × (loc.offset ≤ start_at ix.collected r)
    × ((j : ℕ) → j < r → start_at ix.collected j < loc.offset)

-- In sorted tokens `getTokenAfter` gives the first token that starts at or after the location, and
-- no token only if every token of the document's buffer starts before it.
pub get_token_after_exact :
    (ix : SyntaxIndexer) (loc : SourceLocation)
    → IsSorted ix.collected
    → FirstAfter ix loc (get_token_after ix loc)
unfolding get_token_after
get_token_after_exact ix loc sorted = elim (Bool-cases (loc.buffer == ix.buffer)) [
  | inr other ↦ rw other (λ same. absurd (ground arith))
  | inl same ↦ rw same (elim (Bool-cases (length ix.collected == 0)) [
    | inl empty ↦ rw empty (λ _ j h. absurd (ground arith))
    | inr full ↦ rw full (
        let n = length ix.collected in
        let r = lower_bound (suc n) ix.collected loc.offset 0 n in
        let s =
          lower_bound-Split (suc n) ix.collected loc.offset 0 n sorted (omega arith) (omega arith)
            (λ j h. absurd (omega arith)) (λ j h l. absurd (omega arith)) in
        elim (Bool-cases (ltb r n)) [
          | inl inside ↦
              rw inside
                (ground arith, ground arith, s.after r (omega arith) (ground arith), s.before)
          | inr past ↦ rw past (λ _ j h. s.before j (ground (arith, s.upto)))
        ])
  ])
]
