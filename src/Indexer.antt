-- ===== src/Indexer.antt =====
-- src/Indexer.cpp and include/Indexer.h: the workspace index. A path that is interned in
-- `uniqueUris_` stands for the pointer to it; two pointers are equal when the paths are. A syntax
-- kind is the number of its enumerator. The lock is taken by each operation as a whole, so the
-- operations are steps on the state. What slang's parser says of a file is a `Parsed`.
pub mod Postings
pub mod Extract
pub mod Holds
pub mod Coherence
pub mod Events
pub mod Watched
pub mod Queries
pub mod Latest
pub mod Stale
pub mod Headers
pub mod Blocks
pub mod Walk
mod Tests
use slang_server.Common.{
  ℕ, Bool, true, false, not, ◌&&◌, List, [], ◌∷◌, ◌++◌, Option, none, some, Bytes, Eq, equal,
  equal_iff, ◌==◌, ==_iff, ◌↔◌, ◌≡◌, arith, if◌then◌else◌, map, any, is_empty, bytes_eq, length,
}
use slang_server.Common.Dict.{find, assign, erase}
use Postings.{entries, post_all, unpost_all}
use Extract.{GlobalSymbol, IndexedPath, Parsed, empty_path, index_file, extract_document}

pub record GlobalSymbolLoc : Type 0 where
  pub uri : Bytes
  pub kind : ℕ

abbrev pub same_loc : GlobalSymbolLoc → GlobalSymbolLoc → Bool
same_loc a b = equal a.uri b.uri && a.kind == b.kind

pub same_loc_iff : (a b : GlobalSymbolLoc) → (same_loc a b ≡ true) ↔ (a ≡ b)
same_loc_iff a b = ground (arith, equal_iff a.uri b.uri)

-- `loc.uri == uriPtr && loc.kind == oldItem.kind`
instance abbrev pub loc_eq : Eq GlobalSymbolLoc
loc_eq = record { beq = same_loc; beq_iff = same_loc_iff }

pub record Indexer : Type 0 where
  pub symbol_to_files : List (Bytes × List GlobalSymbolLoc)
  pub macro_to_files : List (Bytes × List Bytes)
  pub symbol_references : List (Bytes × List Bytes)
  pub unique_uris : List Bytes
  pub indexed_files : List (Bytes × IndexedPath)

unfoldable pub empty_index : Indexer
empty_index = record {
  symbol_to_files = [];
  macro_to_files = [];
  symbol_references = [];
  unique_uris = [];
  indexed_files = [];
}

abbrev pub contains : Bytes → List Bytes → Bool
contains u us = any (λ v. equal v u) us

unfoldable pub intern_uri : Bytes → List Bytes → List Bytes
intern_uri path us = if contains path us then us else us ++ path ∷ []

-- What the three loops over a file's symbols, macros and references put into the maps.
abbrev pub symbol_item : Bytes → GlobalSymbol → Bytes × GlobalSymbolLoc
symbol_item uri s = (s.name, record { uri = uri; kind = s.kind })

abbrev pub name_item : Bytes → Bytes → Bytes × Bytes
name_item uri name = (name, uri)

unfoldable pub add_entries : Bytes → IndexedPath → Indexer → Indexer
unfolding post_all
add_entries uri file ix = record ix {
  symbol_to_files = post_all (map (symbol_item uri) file.symbols) ix.symbol_to_files;
  macro_to_files = post_all (map (name_item uri) file.macros) ix.macro_to_files;
  symbol_references = post_all (map (name_item uri) file.referenced_symbols) ix.symbol_references;
}

unfoldable pub remove_entries : Bytes → IndexedPath → Indexer → Indexer
unfolding unpost_all
remove_entries uri file ix = record ix {
  symbol_to_files = unpost_all (map (symbol_item uri) file.symbols) ix.symbol_to_files;
  macro_to_files = unpost_all (map (name_item uri) file.macros) ix.macro_to_files;
  symbol_references = unpost_all (map (name_item uri) file.referenced_symbols) ix.symbol_references;
}

-- `if (it != indexedFiles.end()) { … }`
abbrev pub remove_found : Bytes → Option IndexedPath → Indexer → Indexer
remove_found uri none ix = ix
remove_found uri (some file) ix = remove_entries uri file ix

abbrev pub set_file : Bytes → IndexedPath → Indexer → Indexer
set_file uri file ix = record ix { indexed_files = assign uri file ix.indexed_files }

abbrev pub with_uri : Bytes → Indexer → Indexer
with_uri path ix = record ix { unique_uris = intern_uri path ix.unique_uris }

-- The record that the index had for the path leaves it, and the new one takes its place.
unfoldable pub replace_file : Bytes → IndexedPath → Option IndexedPath → Indexer → Indexer
unfolding add_entries remove_entries assign
replace_file path file old ix =
    set_file path file (add_entries path file (remove_found path old ix))

-- `updateDocument`, for a document that is open in the editor.
unfoldable pub update_document : Bytes → Parsed → Indexer → Indexer
unfolding replace_file
update_document path tree ix =
    let ix' = with_uri path ix in
    replace_file path (extract_document tree) (find path ix'.indexed_files) ix'

unfoldable pub index_path : Bytes → IndexedPath → Indexer → Indexer
unfolding intern_uri add_entries assign
index_path path file ix = set_file path file (add_entries path file (with_uri path ix))

-- The loop over the paths and their files.
unfoldable pub index_each : List (Bytes × IndexedPath) → Indexer → Indexer
unfolding index_path
index_each [] ix = ix
index_each ((path, file) ∷ rest) ix = index_each rest (index_path path file ix)

abbrev pub remove_indexed : Bytes → Option IndexedPath → Indexer → Indexer
remove_indexed uri none ix = ix
remove_indexed uri (some file) ix =
    let ix' = remove_entries uri file ix in
    record ix' { indexed_files = erase uri ix'.indexed_files }

unfoldable pub remove_path_from_index : Bytes → Indexer → Indexer
unfolding remove_entries erase
remove_path_from_index uri ix = remove_indexed uri (find uri ix.indexed_files) ix

abbrev pub file_of : (Bytes → Option Parsed) → Bytes → Bytes × IndexedPath
file_of read path = (path, index_file (read path))

-- `addDocuments`; `read` is the file system and slang's parser. Each path has its slot of
-- `loadResults`, whatever thread fills it (Blocks).
unfoldable pub add_documents : (Bytes → Option Parsed) → List Bytes → Indexer → Indexer
unfolding index_each index_file
add_documents read paths ix = index_each (map (file_of read) paths) ix

pub data FileChangeType : Type 0 where
  created changed deleted : FileChangeType

pub record FileEvent : Type 0 where
  pub path : Bytes
  pub type : FileChangeType

abbrev pub remove_interned : Bytes → Indexer → Indexer
remove_interned path ix =
    if contains path ix.unique_uris then remove_path_from_index path ix else ix

-- One round of the switch: the index, and the paths to add.
unfoldable pub on_change :
    (Bytes → Bool) → FileChangeType → Bytes → Indexer × List Bytes → Indexer × List Bytes
unfolding remove_path_from_index
on_change exists created path (ix, to_add) = (ix, to_add ++ path ∷ [])
on_change exists changed path (ix, to_add) =
    (remove_interned path ix, if exists path then to_add ++ path ∷ [] else to_add)
on_change exists deleted path (ix, to_add) = (remove_interned path ix, to_add)

unfoldable pub on_changes :
    (Bytes → Bool) → List FileEvent → Indexer × List Bytes → Indexer × List Bytes
unfolding on_change
on_changes exists [] s = s
on_changes exists (c ∷ cs) s = on_changes exists cs (on_change exists c.type c.path s)

-- `onWorkspaceDidChangeWatchedFiles`
unfoldable pub on_watched_files :
    (Bytes → Option Parsed) → (Bytes → Bool) → List FileEvent → Indexer → Indexer
unfolding on_changes add_documents
on_watched_files read exists changes ix =
    let (ix', to_add) = on_changes exists changes (ix, []) in
    if is_empty to_add then ix' else add_documents read to_add ix'

-- The queries.
abbrev pub uri_of : GlobalSymbolLoc → Bytes
uri_of l = l.uri

unfoldable pub get_files_for_symbol : Bytes → Indexer → List Bytes
get_files_for_symbol name ix = map uri_of (entries ix.symbol_to_files name)

unfoldable pub get_files_for_macro : Bytes → Indexer → List Bytes
get_files_for_macro name ix = entries ix.macro_to_files name

unfoldable pub get_files_referencing_symbol : Bytes → Indexer → List Bytes
get_files_referencing_symbol name ix = entries ix.symbol_references name

abbrev pub first_of_list : List GlobalSymbolLoc → Option GlobalSymbolLoc
first_of_list [] = none
first_of_list (x ∷ xs) = some x

unfoldable pub get_first_symbol_loc : Bytes → Indexer → Option GlobalSymbolLoc
get_first_symbol_loc name ix = first_of_list (entries ix.symbol_to_files name)

abbrev pub name_of : Bytes × List Bytes → Bytes
name_of (name, uris) = name

unfoldable pub get_all_macro_names : Indexer → List Bytes
get_all_macro_names ix = map name_of ix.macro_to_files

unfoldable pub get_symbol_count : Indexer → ℕ
get_symbol_count ix = length ix.symbol_to_files
