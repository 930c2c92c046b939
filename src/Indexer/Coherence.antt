-- ===== src/Indexer/Coherence.antt =====
-- The invariant of the index of src/Indexer.cpp: the three maps hold exactly what the records of
-- the indexed files list, and every indexed file is interned.
use slang_server.Common.{
  true, false, Option, none, some, Bytes, equal, equal_iff, bytes_eq, ◌≡◌, refl, arith,
}
use slang_server.Common.Dict.{find, find-assign, find-erase}
use slang_server.Indexer.Extract.{IndexedPath, Parsed, empty_path, extract_document}
use slang_server.Indexer.Holds.{
  file_at, instead, Holds, Holds-cong, remove_entries-Holds, add_entries-Holds, contains-intern_uri,
}
use slang_server.Indexer.{
  replace_file, loc_eq, Indexer, empty_index, contains, add_entries, remove_entries,
  update_document, index_path, remove_indexed, remove_path_from_index, with_uri, set_file,
}

pub record IsCoherent (ix : Indexer) : Type 0 where
  pub holds : Holds (file_at ix) ix
  pub interned : (u : Bytes) → contains u ix.unique_uris ≡ false → find u ix.indexed_files ≡ none

pub empty_index-IsCoherent : IsCoherent empty_index
unfolding empty_index
empty_index-IsCoherent = record {
  holds = record {
    symbols = λ name u kind. refl;
    macros = λ name u. refl;
    references = λ name u. refl;
  };
  interned = λ u h. refl;
}

remove_indexed-IsCoherent :
    (v : Bytes) (found : Option IndexedPath) (ix : Indexer)
    → find v ix.indexed_files ≡ found
    → IsCoherent ix
    → IsCoherent (remove_indexed v found ix)
unfolding remove_entries
remove_indexed-IsCoherent v none ix e c = c
remove_indexed-IsCoherent v (some file) ix e c =
    let h =
      Holds-cong {look' = file_at (remove_indexed v (some file) ix)}
        (λ u. ground (arith, find-erase v u ix.indexed_files))
        (remove_entries-Holds v file (file_at ix) ix (ground arith) c.holds) in
    record {
      holds = record { symbols = h.symbols; macros = h.macros; references = h.references };
      interned = λ u clean. ground (arith, find-erase v u ix.indexed_files, c.interned u);
    }

-- Removing a path keeps the index coherent.
pub remove_path_from_index-IsCoherent :
    (v : Bytes) (ix : Indexer) → IsCoherent ix → IsCoherent (remove_path_from_index v ix)
unfolding remove_path_from_index
remove_path_from_index-IsCoherent v ix =
    remove_indexed-IsCoherent v (find v ix.indexed_files) ix refl

-- Storing the record of a file whose entries are in the maps, and in no other place.
stored-IsCoherent :
    (v : Bytes) (file : IndexedPath) (look : Bytes → IndexedPath) (ix : Indexer)
    → look v ≡ empty_path
    → ((u : Bytes) → equal v u ≡ false → look u ≡ file_at ix u)
    → Holds look ix
    → ((u : Bytes) → contains u ix.unique_uris ≡ false → find u ix.indexed_files ≡ none)
    → contains v ix.unique_uris ≡ true
    → IsCoherent (set_file v file (add_entries v file ix))
unfolding add_entries
stored-IsCoherent v file look ix e others h interned known =
    let k =
      Holds-cong {look' = file_at (set_file v file (add_entries v file ix))}
        (λ u. ground (arith, find-assign v u file ix.indexed_files, others u))
        (add_entries-Holds v file look ix e h) in
    record {
      holds = record { symbols = k.symbols; macros = k.macros; references = k.references };
      interned = λ u clean.
          ground (arith, equal_iff v u, find-assign v u file ix.indexed_files, interned u);
    }

interned_with_uri :
    (v : Bytes) (ix : Indexer)
    → IsCoherent ix
    → (u : Bytes) → contains u (with_uri v ix).unique_uris ≡ false
    → find u ix.indexed_files ≡ none
interned_with_uri v ix c u clean =
    ground (arith, contains-intern_uri v u ix.unique_uris, c.interned u)

contains-with_uri : (v : Bytes) (ix : Indexer) → contains v (with_uri v ix).unique_uris ≡ true
contains-with_uri v ix = ground (arith, contains-intern_uri v v ix.unique_uris, equal_iff v v)

-- Indexing a file that is not indexed keeps the index coherent.
pub index_path-IsCoherent :
    (v : Bytes) (file : IndexedPath) (ix : Indexer)
    → find v ix.indexed_files ≡ none
    → IsCoherent ix
    → IsCoherent (index_path v file ix)
unfolding index_path
index_path-IsCoherent v file ix e c =
    stored-IsCoherent v file (file_at ix) (with_uri v ix) (ground arith) (λ u n. refl)
      (record {
        symbols = c.holds.symbols;
        macros = c.holds.macros;
        references = c.holds.references;
      })
      (interned_with_uri v ix c) (contains-with_uri v ix)

replace_file-IsCoherent :
    (v : Bytes) (file : IndexedPath) (old : Option IndexedPath) (ix : Indexer)
    → find v ix.indexed_files ≡ old
    → IsCoherent ix
    → contains v ix.unique_uris ≡ true
    → IsCoherent (replace_file v file old ix)
unfolding replace_file remove_entries
replace_file-IsCoherent v file none ix e c known =
    stored-IsCoherent v file (file_at ix) ix (ground arith) (λ u n. refl) c.holds c.interned known
replace_file-IsCoherent v file (some old) ix e c known =
    stored-IsCoherent v file (instead v empty_path (file_at ix)) (remove_entries v old ix)
      (ground (arith, equal_iff v v)) (λ u n. ground arith)
      (remove_entries-Holds v old (file_at ix) ix (ground arith) c.holds) c.interned known

-- `updateDocument` keeps the index coherent, whether the document was indexed or not.
pub update_document-IsCoherent :
    (v : Bytes) (tree : Parsed) (ix : Indexer)
    → IsCoherent ix
    → IsCoherent (update_document v tree ix)
unfolding update_document
update_document-IsCoherent v tree ix c =
    replace_file-IsCoherent v (extract_document tree) (find v ix.indexed_files) (with_uri v ix) refl
      (record {
        holds = record {
          symbols = c.holds.symbols;
          macros = c.holds.macros;
          references = c.holds.references;
        };
        interned = interned_with_uri v ix c;
      })
      (contains-with_uri v ix)
