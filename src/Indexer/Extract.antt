-- ===== src/Indexer/Extract.antt =====
-- `extractFromRoot`, `extractMacros` and the work on one file in `indexPaths` and `updateDocument`
-- of src/Indexer.cpp, on what slang's parser gives.
use slang_server.Common.{
  ℕ, Bool, List, [], ◌∷◌, ◌++◌, Option, none, some, Bytes, equal, if◌then◌else◌, any, is_empty,
}

pub record GlobalSymbol : Type 0 where
  pub name : Bytes
  pub kind : ℕ

-- The field `path` of the source, which each caller sets to the interned path, is the key under
-- which the index holds the record.
pub record IndexedPath : Type 0 where
  pub symbols : List GlobalSymbol
  pub macros : List Bytes
  pub referenced_symbols : List Bytes

abbrev pub empty_path : IndexedPath
empty_path = record { symbols = []; macros = []; referenced_symbols = [] }

-- A top-level member: whether it is a module declaration, its kind and its name.
pub record Member : Type 0 where
  pub is_module : Bool
  pub kind : ℕ
  pub name : Bytes

pub record Macro : Type 0 where
  pub name : Bytes
  pub has_location : Bool

-- The tree, the metadata and the macros of a parsed file. A macro may be a null pointer.
pub record Parsed : Type 0 where
  pub members : List Member
  pub node_meta_empty : Bool
  pub class_decls_empty : Bool
  pub referenced : List Bytes
  pub macros : List (Option Macro)

-- The loop over the members.
unfoldable pub extract_symbols : List Member → List GlobalSymbol
extract_symbols [] = []
extract_symbols (m ∷ ms) =
    (if m.is_module
      then if is_empty m.name then [] else record { name = m.name; kind = m.kind } ∷ []
      else [])
    ++ extract_symbols ms

-- The visit of the referenced symbols; the first list is `seenDeps`.
unfoldable pub extract_references : List Bytes → List Bytes → List Bytes
extract_references seen [] = []
extract_references seen (name ∷ names) =
    let later = extract_references (name ∷ seen) names in
    let skipped = extract_references seen names in
    if any (λ s. equal s name) seen then skipped else name ∷ later

unfoldable pub extract_macros : List (Option Macro) → List Bytes
extract_macros [] = []
extract_macros (none ∷ ms) = extract_macros ms
extract_macros (some m ∷ ms) = (if m.has_location then m.name ∷ [] else []) ++ extract_macros ms

unfoldable pub extract_from_root : Parsed → IndexedPath → IndexedPath
unfolding extract_symbols extract_references
extract_from_root p dest = record dest {
  symbols = dest.symbols ++ extract_symbols p.members;
  referenced_symbols = dest.referenced_symbols ++ extract_references [] p.referenced;
}

abbrev pub add_macros : Parsed → IndexedPath → IndexedPath
add_macros p dest = record dest { macros = dest.macros ++ extract_macros p.macros }

-- The body of `processRange` for one file; `none` is a file that cannot be read.
unfoldable pub index_file : Option Parsed → IndexedPath
unfolding extract_from_root extract_macros
index_file none = empty_path
index_file (some p) =
    if p.node_meta_empty
    then if p.class_decls_empty then add_macros p empty_path else empty_path
    else extract_from_root p empty_path

-- `Extract new data` in `updateDocument`.
unfoldable pub extract_document : Parsed → IndexedPath
unfolding extract_from_root extract_macros
extract_document p =
    let file = extract_from_root p empty_path in
    if is_empty file.symbols then add_macros p file else file
