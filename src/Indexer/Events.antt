-- ===== src/Indexer/Events.antt =====
-- File events of the workspace on the index of src/Indexer.cpp: when they keep it coherent.
use slang_server.Common.{
  Bool, true, false, List, [], ◌∷◌, Option, none, some, Bytes, equal, equal_iff, if◌then◌else◌, map,
  bytes_eq, ◌≡◌, refl, arith,
}
use slang_server.Common.Dict.{find, find-assign, find-erase}
use slang_server.Indexer.Extract.{IndexedPath, Parsed}
use slang_server.Indexer.Coherence.{
  IsCoherent, index_path-IsCoherent, remove_path_from_index-IsCoherent,
}
use slang_server.Indexer.{
  Indexer, contains, remove_entries, index_path, index_each, remove_indexed, remove_path_from_index,
  file_of, add_documents, remove_interned,
}

-- None of the paths is indexed, and none stands twice.
abbrev pub Fresh : Indexer → List Bytes → Type 0
Fresh ix [] = Unit {0}
Fresh ix (p ∷ ps) = (find p ix.indexed_files ≡ none) × (contains p ps ≡ false) × Fresh ix ps

pub find-index_path :
    (v u : Bytes) (file : IndexedPath) (ix : Indexer)
    → find u (index_path v file ix).indexed_files
      ≡ (if equal v u then some file else find u ix.indexed_files)
unfolding index_path
find-index_path v u file ix = find-assign v u file ix.indexed_files

find-remove_indexed :
    (v u : Bytes) (found : Option IndexedPath) (ix : Indexer)
    → find v ix.indexed_files ≡ found
    → find u (remove_indexed v found ix).indexed_files
      ≡ (if equal v u then none else find u ix.indexed_files)
unfolding remove_entries
find-remove_indexed v u none ix e = ground (arith, equal_iff v u)
find-remove_indexed v u (some file) ix e = find-erase v u ix.indexed_files

pub find-remove_path_from_index :
    (v u : Bytes) (ix : Indexer)
    → find u (remove_path_from_index v ix).indexed_files
      ≡ (if equal v u then none else find u ix.indexed_files)
unfolding remove_path_from_index
find-remove_path_from_index v u ix = find-remove_indexed v u (find v ix.indexed_files) ix refl

pub find-remove_interned :
    (v u : Bytes) (ix : Indexer)
    → IsCoherent ix
    → find u (remove_interned v ix).indexed_files
      ≡ (if equal v u then none else find u ix.indexed_files)
find-remove_interned v u ix c =
    ground (arith, equal_iff v u, find-remove_path_from_index v u ix, c.interned v)

pub remove_interned-IsCoherent :
    (v : Bytes) (ix : Indexer) → IsCoherent ix → IsCoherent (remove_interned v ix)
remove_interned-IsCoherent v ix c = either (contains v ix.unique_uris)
  where
    either : (known : Bool) → IsCoherent (if known then remove_path_from_index v ix else ix)
    either true = remove_path_from_index-IsCoherent v ix c
    either false = c

Fresh-index_path :
    (v : Bytes) (file : IndexedPath) (ix : Indexer) (ps : List Bytes)
    → contains v ps ≡ false
    → Fresh ix ps
    → Fresh (index_path v file ix) ps
Fresh-index_path v file ix [] n f = tt
Fresh-index_path v file ix (p ∷ ps) n f = (
  ground (arith, find-index_path v p file ix, equal_iff v p, equal_iff p v),
  f.1,
  Fresh-index_path v file ix ps (ground arith) f.2,
)

abbrev pub path_of : Bytes × IndexedPath → Bytes
path_of (path, file) = path

-- Indexing files one after the other keeps the index coherent if they are new and distinct.
pub index_each-IsCoherent :
    (items : List (Bytes × IndexedPath)) (ix : Indexer)
    → Fresh ix (map path_of items)
    → IsCoherent ix
    → IsCoherent (index_each items ix)
unfolding index_each
index_each-IsCoherent [] ix f c = c
index_each-IsCoherent ((p, file) ∷ items) ix f c =
    index_each-IsCoherent items (index_path p file ix)
      (Fresh-index_path p file ix (map path_of items) f.1 f.2)
      (index_path-IsCoherent p file ix f.0 c)

paths-file_of :
    (read : Bytes → Option Parsed) (ps : List Bytes) → map path_of (map (file_of read) ps) ≡ ps
paths-file_of read [] = refl
paths-file_of read (p ∷ ps) = rw (paths-file_of read ps)

-- `addDocuments` keeps the index coherent if its paths are not indexed yet and are distinct.
pub add_documents-IsCoherent :
    (read : Bytes → Option Parsed) (ps : List Bytes) (ix : Indexer)
    → Fresh ix ps
    → IsCoherent ix
    → IsCoherent (add_documents read ps ix)
unfolding add_documents
add_documents-IsCoherent read ps ix f c =
    index_each-IsCoherent (map (file_of read) ps) ix (rw (paths-file_of read ps) f) c
