-- ===== src/Indexer/Tests.antt =====
-- Runs of the index of src/Indexer.cpp, and instances of its theorems.
use slang_server.Indexer.Walk.{
  Entries, no_more, file, directory, is_excluded, collect_files, wanted, select, files_below,
  collect_files-select,
}
use slang_server.Common.{
  ℕ, ◌<◌, true, false, List, [], ◌∷◌, Option, none, some, Bytes, ◌≡◌, refl, codes, equal,
  if◌then◌else◌, arith, map, length, replicate, bytes_eq,
}
use slang_server.Common.Dict.{find}
use slang_server.Indexer.Postings.{entries, mem}
use slang_server.Indexer.Extract.{Parsed, empty_path, index_file, extract_document}
use slang_server.Indexer.Holds.{file_at, at, lists_symbol}
use slang_server.Indexer.Coherence.{IsCoherent, empty_index-IsCoherent, update_document-IsCoherent}
use slang_server.Indexer.Watched.{on_watched_files-IsCoherent}
use slang_server.Indexer.Latest.{update_all, latest, declares, defines, mentions, update_all-latest}
use slang_server.Indexer.Stale.{added_twice-stale}
use slang_server.Indexer.Blocks.{run_blocks, covered, run_blocks-map}
use slang_server.Indexer.{
  loc_eq, Indexer, empty_index, contains, update_document, add_documents, remove_path_from_index,
  created, changed, FileEvent, on_watched_files, get_files_for_symbol, get_files_for_macro,
  get_files_referencing_symbol,
}

-- A file with the module `name`, and a header with a macro and a class.
abbrev module_file : Bytes → Parsed
module_file name = record {
  members = record { is_module = true; kind = 5; name = name } ∷ [];
  node_meta_empty = false;
  class_decls_empty = true;
  referenced = codes "sub" ∷ codes "sub" ∷ [];
  macros = [];
}

abbrev class_header : Parsed
class_header = record {
  members = [];
  node_meta_empty = true;
  class_decls_empty = false;
  referenced = [];
  macros = none ∷ some (record { name = codes "M"; has_location = true }) ∷ [];
}

abbrev a_sv : Bytes
a_sv = codes "a.sv"

abbrev b_sv : Bytes
b_sv = codes "b.sv"

-- `a.sv` now holds the module `new`, `b.sv` the module `top`.
abbrev read : Bytes → Option Parsed
read path =
    if equal path a_sv
    then some (module_file (codes "new"))
    else if equal path b_sv
    then some (module_file (codes "top"))
    else none

-- The index when `a.sv` held the module `old`.
abbrev opened : Indexer
opened = update_document a_sv (module_file (codes "old")) empty_index

opened-IsCoherent : IsCoherent opened
opened-IsCoherent =
    update_document-IsCoherent a_sv (module_file (codes "old")) empty_index empty_index-IsCoherent

abbrev events : List FileEvent
events = record { path = a_sv; type = changed } ∷ record { path = b_sv; type = created } ∷ []

reindexed :
    (get_files_for_symbol (codes "old") (on_watched_files read (λ p. true) events opened) ≡ [])
    × (get_files_for_symbol (codes "new") (on_watched_files read (λ p. true) events opened)
        ≡ a_sv ∷ [])
    × (get_files_referencing_symbol (codes "sub") (on_watched_files read (λ p. true) events opened)
        ≡ a_sv ∷ b_sv ∷ [])
unfolding on_watched_files update_document empty_index get_files_for_symbol
    get_files_referencing_symbol extract_document
reindexed = (refl, refl, refl)

update_document-IsCoherent_example : IsCoherent opened
update_document-IsCoherent_example =
    update_document-IsCoherent a_sv (module_file (codes "old")) empty_index empty_index-IsCoherent

on_watched_files-IsCoherent_example : IsCoherent (on_watched_files read (λ p. true) events opened)
unfolding update_document empty_index
on_watched_files-IsCoherent_example =
    on_watched_files-IsCoherent read (λ p. true) events opened
      (tt, refl, refl, (refl, refl, refl, tt)) opened-IsCoherent

-- A document is updated twice and another once.
abbrev updates : List (Bytes × Parsed)
updates =
    (a_sv, module_file (codes "old"))
    ∷ (b_sv, module_file (codes "old"))
    ∷ (a_sv, module_file (codes "new"))
    ∷ []

update_all-latest_example :
    let ix = update_all updates empty_index in
    (contains a_sv (get_files_for_symbol (codes "old") ix)
      ≡ declares (latest a_sv updates) (codes "old"))
    × (contains a_sv (get_files_for_macro (codes "old") ix)
        ≡ defines (latest a_sv updates) (codes "old"))
    × (contains a_sv (get_files_referencing_symbol (codes "old") ix)
        ≡ mentions (latest a_sv updates) (codes "old"))
update_all-latest_example = update_all-latest updates (codes "old") a_sv

added_twice-stale_example :
    let again = add_documents read (a_sv ∷ []) opened in
    let after = remove_path_from_index a_sv again in
    (lists_symbol (file_at again a_sv) (codes "old") 5 ≡ false)
    × (mem (at a_sv 5) (entries again.symbol_to_files (codes "old")) ≡ true)
    × (mem (at a_sv 5) (entries after.symbol_to_files (codes "old")) ≡ true)
    × (find a_sv after.indexed_files ≡ none)
    × (mem (at a_sv 5) (entries (remove_path_from_index a_sv after).symbol_to_files (codes "old"))
        ≡ true)
unfolding update_document empty_index index_file extract_document
added_twice-stale_example =
    added_twice-stale read a_sv (codes "old") 5 opened opened-IsCoherent refl refl

abbrev two_paths : List Bytes
two_paths = a_sv ∷ b_sv ∷ []

both_covered :
    (j : ℕ) → j < length two_paths → covered read two_paths j ((1, 1) ∷ (0, 1) ∷ []) ≡ true
both_covered j h = ground arith

run_blocks-map_example :
    run_blocks read two_paths ((1, 1) ∷ (0, 1) ∷ []) (replicate (length two_paths) empty_path)
    ≡ map (λ p. index_file (read p)) two_paths
run_blocks-map_example = run_blocks-map read two_paths ((1, 1) ∷ (0, 1) ∷ []) both_covered

-- A file and a directory `out` with one file in it.
abbrev small_tree : Entries
small_tree = file (codes "/w/a.sv") true (
    directory (codes "/w/out") (file (codes "/w/out/b.sv") true no_more)
      (file (codes "/w/notes") true no_more))

abbrev extension_of : Bytes → Bytes
extension_of path = if equal path (codes "/w/notes") then [] else codes ".sv"

collect_files-select_example :
    collect_files extension_of (codes "out" ∷ []) small_tree
    ≡ select (wanted extension_of (codes "out" ∷ [])) (files_below [] small_tree)
collect_files-select_example = collect_files-select extension_of (codes "out" ∷ []) small_tree

-- The name `layout` holds `out`.
layout_excluded : is_excluded (codes "/w/layout") (codes "out" ∷ []) ≡ true
unfolding is_excluded
layout_excluded = refl
