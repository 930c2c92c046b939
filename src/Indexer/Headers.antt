-- ===== src/Indexer/Headers.antt =====
-- The same header file, indexed at startup and after it is opened in the editor: src/Indexer.cpp
-- takes its macros on different conditions.
use slang_server.Common.{true, false, [], some, ◌≡◌, arith, is_empty}
use slang_server.Indexer.Extract.{
  Parsed, extract_symbols, extract_macros, index_file, extract_document, extract_from_root,
}

-- On a file with a module, `updateDocument` and `indexPaths` take the same symbols, references and
-- macros. On a header that declares a class and no module, `indexPaths` takes no macro, while
-- `updateDocument` takes them all.
pub class_header_differs :
    (p : Parsed)
    → (p.node_meta_empty ≡ false
        → is_empty (extract_symbols p.members) ≡ false
        → extract_document p ≡ index_file (some p))
      × (p.node_meta_empty ≡ true
          → p.class_decls_empty ≡ false
          → extract_symbols p.members ≡ []
          → ((index_file (some p)).macros ≡ [])
            × ((extract_document p).macros ≡ extract_macros p.macros))
class_header_differs p = (
  (λ meta named. both_take p meta named),
  λ meta classes none. only_one_takes p meta classes none,
)
  where
    both_take :
        (p : Parsed)
        → p.node_meta_empty ≡ false
        → is_empty (extract_symbols p.members) ≡ false
        → extract_document p ≡ index_file (some p)
    both_take p meta named = unfold index_file extract_document extract_from_root in ground arith

    only_one_takes :
        (p : Parsed)
        → p.node_meta_empty ≡ true
        → p.class_decls_empty ≡ false
        → extract_symbols p.members ≡ []
        → ((index_file (some p)).macros ≡ [])
          × ((extract_document p).macros ≡ extract_macros p.macros)
    only_one_takes p meta classes none =
        unfold index_file extract_document extract_from_root in ground arith
