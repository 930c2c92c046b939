-- ===== src/Indexer/Holds.antt =====
-- What the maps of the index of src/Indexer.cpp hold, for any table of the files' records: the
-- loops that add and remove the entries of one file change the table at that file.
use slang_server.Common.{
  ℕ, Bool, ◌&&◌, ◌||◌, List, [], ◌∷◌, Option, none, some, Bytes, equal, equal_iff, ◌==◌,
  if◌then◌else◌, map, any, bytes_eq, ◌≡◌, arith, any-append,
}
use mathlib.Core.Path.{subst, fun_ext}
use slang_server.Common.Dict.{find}
use slang_server.Indexer.Postings.{entries, mem, has, mem-post_all, mem-unpost_all}
use slang_server.Indexer.Extract.{GlobalSymbol, IndexedPath, empty_path}
use slang_server.Indexer.{
  GlobalSymbolLoc, loc_eq, Indexer, contains, intern_uri, symbol_item, name_item, add_entries,
  remove_entries,
}

abbrev pub or_empty_path : Option IndexedPath → IndexedPath
or_empty_path none = empty_path
or_empty_path (some f) = f

-- The record of a file; a file that is not indexed lists nothing.
abbrev pub file_at : Indexer → Bytes → IndexedPath
file_at ix u = or_empty_path (find u ix.indexed_files)

abbrev pub lists_symbol : IndexedPath → Bytes → ℕ → Bool
lists_symbol f name kind = any (λ s. equal s.name name && s.kind == kind) f.symbols

abbrev pub lists_name : List Bytes → Bytes → Bool
lists_name names name = any (λ n. equal n name) names

abbrev pub at : Bytes → ℕ → GlobalSymbolLoc
at u kind = record { uri = u; kind = kind }

-- The three maps list what `look` gives for each path.
pub record Holds (look : Bytes → IndexedPath) (ix : Indexer) : Type 0 where
  pub symbols :
      (name u : Bytes) (kind : ℕ)
      → mem (at u kind) (entries ix.symbol_to_files name) ≡ lists_symbol (look u) name kind
  pub macros :
      (name u : Bytes) → mem u (entries ix.macro_to_files name) ≡ lists_name (look u).macros name
  pub references :
      (name u : Bytes)
      → mem u (entries ix.symbol_references name) ≡ lists_name (look u).referenced_symbols name

-- `look` with another record for one path.
abbrev pub instead : Bytes → IndexedPath → (Bytes → IndexedPath) → Bytes → IndexedPath
instead v file look u = if equal v u then file else look u

pub has-symbol_item :
    (v u name : Bytes) (kind : ℕ) (ss : List GlobalSymbol)
    → has name (at u kind) (map (symbol_item v) ss)
      ≡ (equal v u && any (λ s. equal s.name name && s.kind == kind) ss)
has-symbol_item v u name kind [] = ground arith
has-symbol_item v u name kind (s ∷ ss) = ground (arith, has-symbol_item v u name kind ss)

pub has-name_item :
    (v u name : Bytes) (ns : List Bytes)
    → has name u (map (name_item v) ns) ≡ (equal v u && lists_name ns name)
has-name_item v u name [] = ground arith
has-name_item v u name (n ∷ ns) = ground (arith, has-name_item v u name ns)

pub contains-intern_uri :
    (v u : Bytes) (us : List Bytes) → contains u (intern_uri v us) ≡ (contains u us || equal v u)
unfolding intern_uri
contains-intern_uri v u us = ground (arith, equal_iff v u, any-append (λ w. equal w u) us (v ∷ []))

pub remove_entries-Holds :
    (v : Bytes) (file : IndexedPath) (look : Bytes → IndexedPath) (ix : Indexer)
    → look v ≡ file
    → Holds look ix
    → Holds (instead v empty_path look) (remove_entries v file ix)
unfolding remove_entries
remove_entries-Holds v file look ix e h = record {
  symbols = λ name u kind. ground (
    arith,
    equal_iff v u,
    mem-unpost_all name (at u kind) (map (symbol_item v) file.symbols) ix.symbol_to_files,
    has-symbol_item v u name kind file.symbols,
    h.symbols name u kind,
  );
  macros = λ name u. ground (
    arith,
    equal_iff v u,
    mem-unpost_all name u (map (name_item v) file.macros) ix.macro_to_files,
    has-name_item v u name file.macros,
    h.macros name u,
  );
  references = λ name u. ground (
    arith,
    equal_iff v u,
    mem-unpost_all name u (map (name_item v) file.referenced_symbols) ix.symbol_references,
    has-name_item v u name file.referenced_symbols,
    h.references name u,
  );
}

pub add_entries-Holds :
    (v : Bytes) (file : IndexedPath) (look : Bytes → IndexedPath) (ix : Indexer)
    → look v ≡ empty_path
    → Holds look ix
    → Holds (instead v file look) (add_entries v file ix)
unfolding add_entries
add_entries-Holds v file look ix e h = record {
  symbols = λ name u kind. ground (
    arith,
    equal_iff v u,
    mem-post_all name (at u kind) (map (symbol_item v) file.symbols) ix.symbol_to_files,
    has-symbol_item v u name kind file.symbols,
    h.symbols name u kind,
  );
  macros = λ name u. ground (
    arith,
    equal_iff v u,
    mem-post_all name u (map (name_item v) file.macros) ix.macro_to_files,
    has-name_item v u name file.macros,
    h.macros name u,
  );
  references = λ name u. ground (
    arith,
    equal_iff v u,
    mem-post_all name u (map (name_item v) file.referenced_symbols) ix.symbol_references,
    has-name_item v u name file.referenced_symbols,
    h.references name u,
  );
}

pub Holds-cong :
    {look look' : Bytes → IndexedPath} {ix : Indexer}
    → ((u : Bytes) → look u ≡ look' u)
    → Holds look ix
    → Holds look' ix
Holds-cong {ix = ix} e h = subst (λ l. Holds l ix) (fun_ext e) h
