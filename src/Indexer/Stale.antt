-- ===== src/Indexer/Stale.antt =====
-- A path that is added again while it is indexed: src/Indexer.cpp overwrites the record of the file
-- without removing what the maps hold for it.
use slang_server.Common.{
  ℕ, true, false, [], ◌∷◌, Option, none, some, Bytes, equal_iff, map, bytes_eq, ◌≡◌, ◌∙◌, arith,
}
use slang_server.Common.Dict.{find}
use slang_server.Indexer.Postings.{entries, mem, mem-post_all, mem-unpost_all}
use slang_server.Indexer.Extract.{IndexedPath, Parsed, index_file}
use slang_server.Indexer.Holds.{file_at, at, lists_symbol, has-symbol_item}
use slang_server.Indexer.Coherence.{IsCoherent}
use slang_server.Indexer.Events.{find-index_path, find-remove_path_from_index}
use slang_server.Indexer.{
  loc_eq, Indexer, symbol_item, add_entries, remove_entries, index_path, index_each, add_documents,
  remove_indexed, remove_path_from_index,
}

index_path-keeps :
    (v name : Bytes) (kind : ℕ) (file : IndexedPath) (ix : Indexer)
    → mem (at v kind) (entries ix.symbol_to_files name) ≡ true
    → mem (at v kind) (entries (index_path v file ix).symbol_to_files name) ≡ true
unfolding index_path add_entries
index_path-keeps v name kind file ix h =
    ground
      (arith, mem-post_all name (at v kind) (map (symbol_item v) file.symbols) ix.symbol_to_files)

remove_indexed-keeps :
    (v name : Bytes) (kind : ℕ) (file : IndexedPath) (ix : Indexer)
    → lists_symbol file name kind ≡ false
    → mem (at v kind) (entries ix.symbol_to_files name) ≡ true
    → mem (at v kind) (entries (remove_indexed v (some file) ix).symbol_to_files name) ≡ true
unfolding remove_entries
remove_indexed-keeps v name kind file ix n h = ground (
  arith,
  mem-unpost_all name (at v kind) (map (symbol_item v) file.symbols) ix.symbol_to_files,
  has-symbol_item v v name kind file.symbols,
)

unmoved :
    (v name : Bytes) (kind : ℕ) (ix : Indexer)
    → find v ix.indexed_files ≡ none
    → mem (at v kind) (entries ix.symbol_to_files name) ≡ true
    → mem (at v kind) (entries (remove_path_from_index v ix).symbol_to_files name) ≡ true
unfolding remove_path_from_index
unmoved v name kind ix gone h = rw gone h

-- If a file of a coherent index lists a symbol and is added again with contents that do not, its
-- record does not list the symbol, but the index names the file for it; it still does after the file
-- is removed from the index, which leaves no record of it, and after it is removed once more.
pub added_twice-stale :
    (read : Bytes → Option Parsed) (v name : Bytes) (kind : ℕ) (ix : Indexer)
    → IsCoherent ix
    → lists_symbol (file_at ix v) name kind ≡ true
    → lists_symbol (index_file (read v)) name kind ≡ false
    → let again = add_documents read (v ∷ []) ix in
      let after = remove_path_from_index v again in
      (lists_symbol (file_at again v) name kind ≡ false)
      × (mem (at v kind) (entries again.symbol_to_files name) ≡ true)
      × (mem (at v kind) (entries after.symbol_to_files name) ≡ true)
      × (find v after.indexed_files ≡ none)
      × (mem (at v kind) (entries (remove_path_from_index v after).symbol_to_files name) ≡ true)
unfolding add_documents index_each
added_twice-stale read v name kind ix c old new =
    let file = index_file (read v) in
    let again = index_path v file ix in
    let after = remove_path_from_index v again in
    let found : find v again.indexed_files ≡ some file =
      ground (arith, find-index_path v v file ix, equal_iff v v) in
    let named = index_path-keeps v name kind file ix (c.holds.symbols name v kind ∙ old) in
    let kept : mem (at v kind) (entries after.symbol_to_files name) ≡ true =
      unfold remove_path_from_index in
      rw found (remove_indexed-keeps v name kind file again new named) in
    let gone : find v after.indexed_files ≡ none =
      ground (arith, find-remove_path_from_index v v again, equal_iff v v) in
    (rw found new, named, kept, gone, unmoved v name kind after gone kept)
