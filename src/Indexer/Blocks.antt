-- ===== src/Indexer/Blocks.antt =====
-- `indexPaths` of src/Indexer.cpp splits the paths into blocks that the threads of a pool work on.
-- Each round writes the slot of its own file, so a schedule is a list of blocks in any order; blocks
-- of one file give every interleaving of the rounds.
use slang_server.Common.{
  ℕ, zero, suc, ◌+◌, ◌≤◌, ◌<◌, Bool, true, ◌&&◌, List, [], ◌∷◌, Option, none, some, Bytes, ◌==◌,
  leb, ltb, if◌then◌else◌, map, any, length, get_elem?, set, replicate, get_elem?-set,
  get_elem?-ext, ◌≡◌, refl, arith,
}
use slang_server.Indexer.Extract.{IndexedPath, Parsed, empty_path, index_file}

module _ (read : Bytes → Option Parsed) (paths : List Bytes) where
  abbrev store : List IndexedPath → ℕ → Option Bytes → List IndexedPath
  store results i none = results
  store results i (some path) = set results i (index_file (read path))

  -- The loop of `processRange`, over the paths that are left from `i` on.
  unfoldable pub process_range : ℕ → ℕ → List IndexedPath → List IndexedPath
  process_range zero i results = results
  process_range (suc count) i results =
      process_range count (suc i) (store results i (get_elem? paths i))

  -- A block is its first index and its length.
  unfoldable pub run_blocks : List (ℕ × ℕ) → List IndexedPath → List IndexedPath
  unfolding process_range
  run_blocks [] results = results
  run_blocks ((i, count) ∷ blocks) results = run_blocks blocks (process_range count i results)

  abbrev in_block : ℕ → ℕ × ℕ → Bool
  in_block j (i, count) = leb i j && ltb j (i + count)

  -- Some block has the index.
  abbrev pub covered : ℕ → List (ℕ × ℕ) → Bool
  covered j blocks = any (in_block j) blocks

  -- What a slot holds once its file is indexed.
  abbrev fill : Option IndexedPath → Option Bytes → Option IndexedPath
  fill none path = none
  fill (some x) none = some x
  fill (some x) (some path) = some (index_file (read path))

  store_slot :
      (results : List IndexedPath) (i j : ℕ)
      → get_elem? (store results i (get_elem? paths i)) j
        ≡ (if i == j then fill (get_elem? results j) (get_elem? paths j) else get_elem? results j)
  store_slot results i j = either (get_elem? paths i) refl
    where
      either :
          (path : Option Bytes)
          → get_elem? paths i ≡ path
          → get_elem? (store results i path) j ≡ (
              if i == j
              then fill (get_elem? results j) (get_elem? paths j)
              else get_elem? results j)
      either none e = ground arith
      either (some path) e = ground (arith, get_elem?-set results i j (index_file (read path)))

  process_range_slot :
      (count i j : ℕ) (results : List IndexedPath)
      → get_elem? (process_range count i results) j ≡ (
          if in_block j (i, count)
          then fill (get_elem? results j) (get_elem? paths j)
          else get_elem? results j)
  unfolding process_range
  process_range_slot zero i j results = ground arith
  process_range_slot (suc count) i j results = ground (
    arith,
    process_range_slot count (suc i) j (store results i (get_elem? paths i)),
    store_slot results i j,
  )

  run_blocks_slot :
      (blocks : List (ℕ × ℕ)) (j : ℕ) (results : List IndexedPath)
      → get_elem? (run_blocks blocks results) j ≡ (
          if covered j blocks
          then fill (get_elem? results j) (get_elem? paths j)
          else get_elem? results j)
  unfolding run_blocks
  run_blocks_slot [] j results = refl
  run_blocks_slot ((i, count) ∷ blocks) j results = ground (
    arith,
    run_blocks_slot blocks j (process_range count i results),
    process_range_slot count i j results,
  )

module _ (read : Bytes → Option Parsed) where
  abbrev indexed : Bytes → IndexedPath
  indexed path = index_file (read path)

  fill_fresh :
      (paths : List Bytes) (j : ℕ)
      → fill read paths (get_elem? (replicate (length paths) empty_path) j) (get_elem? paths j)
        ≡ get_elem? (map indexed paths) j
  fill_fresh [] j = refl
  fill_fresh (p ∷ paths) zero = refl
  fill_fresh (p ∷ paths) (suc j) = fill_fresh paths j

  get_elem?_fresh :
      (paths : List Bytes) (j : ℕ)
      → length paths ≤ j
      → get_elem? (replicate (length paths) empty_path) j ≡ get_elem? (map indexed paths) j
  get_elem?_fresh [] j h = refl
  get_elem?_fresh (p ∷ paths) zero h = absurd (omega arith)
  get_elem?_fresh (p ∷ paths) (suc j) h = get_elem?_fresh paths j (omega arith)

  -- Whatever blocks the threads take and in whatever order, if every file lies in a block, the
  -- result is that of indexing the files one by one.
  pub run_blocks-map :
      (paths : List Bytes) (blocks : List (ℕ × ℕ))
      → ((j : ℕ) → j < length paths → covered read paths j blocks ≡ true)
      → run_blocks read paths blocks (replicate (length paths) empty_path) ≡ map indexed paths
  run_blocks-map paths blocks all_covered = get_elem?-ext _ _ λ j.
      let slot = run_blocks_slot read paths blocks j (replicate (length paths) empty_path) in
      ground (arith, slot, fill_fresh paths j, get_elem?_fresh paths j, all_covered j)
