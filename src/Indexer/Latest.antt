-- ===== src/Indexer/Latest.antt =====
-- The queries of src/Indexer.cpp after the updates of documents, against the texts themselves.
use slang_server.Common.{
  Bool, true, false, not, ◌&&◌, ◌||◌, List, [], ◌∷◌, Option, none, some, Bytes, equal, equal_iff,
  any, is_empty, bytes_eq, if◌then◌else◌, ◌≡◌, refl, ap, ◌∙◌, arith, Bool-cases, inl, inr,
}
use slang_server.Common.Dict.{find, find-assign}
use slang_server.Indexer.Extract.{
  GlobalSymbol, IndexedPath, empty_path, Member, Macro, Parsed, extract_symbols, extract_references,
  extract_macros, extract_from_root, extract_document,
}
use slang_server.Indexer.Holds.{file_at, lists_name}
use slang_server.Indexer.Coherence.{IsCoherent, empty_index-IsCoherent, update_document-IsCoherent}
use slang_server.Indexer.Queries.{lists_any, queries_exact}
use slang_server.Indexer.{
  Indexer, empty_index, contains, with_uri, remove_entries, replace_file, update_document,
  get_files_for_symbol, get_files_for_macro, get_files_referencing_symbol,
}

-- What a text declares, mentions and defines; a text with a module gives no macro.
abbrev is_declared : Bytes → Member → Bool
is_declared name m = m.is_module && (not (is_empty m.name) && equal m.name name)

abbrev is_defined : Bytes → Option Macro → Bool
is_defined name none = false
is_defined name (some m) = m.has_location && equal m.name name

abbrev has_module : Parsed → Bool
has_module p = any (λ m. m.is_module && not (is_empty m.name)) p.members

abbrev pub declares : Option Parsed → Bytes → Bool
declares none name = false
declares (some p) name = any (is_declared name) p.members

abbrev pub mentions : Option Parsed → Bytes → Bool
mentions none name = false
mentions (some p) name = any (λ n. equal n name) p.referenced

abbrev pub defines : Option Parsed → Bytes → Bool
defines none name = false
defines (some p) name = not (has_module p) && any (is_defined name) p.macros

-- The last text of a document in a row of updates.
unfoldable pub latest_from : Bytes → Option Parsed → List (Bytes × Parsed) → Option Parsed
latest_from v old [] = old
latest_from v old ((u, p) ∷ us) = latest_from v (if equal u v then some p else old) us

abbrev pub latest : Bytes → List (Bytes × Parsed) → Option Parsed
latest v us = latest_from v none us

unfoldable pub update_all : List (Bytes × Parsed) → Indexer → Indexer
unfolding update_document
update_all [] ix = ix
update_all ((u, p) ∷ us) ix = update_all us (update_document u p ix)

lists_any-symbols :
    (name : Bytes) (ms : List Member)
    → any (λ (s : GlobalSymbol). equal s.name name) (extract_symbols ms) ≡ any (is_declared name) ms
unfolding extract_symbols
lists_any-symbols name [] = refl
lists_any-symbols name (m ∷ ms) = elim (Bool-cases m.is_module) [
  | inr other ↦ rw other (lists_any-symbols name ms)
  | inl module_ ↦ elim (Bool-cases (is_empty m.name)) [
    | inl unnamed ↦ rw module_ (rw unnamed (lists_any-symbols name ms))
    | inr named ↦
        rw module_ (rw named (ap (λ b. equal m.name name || b) (lists_any-symbols name ms)))
  ]
]

no_symbols :
    (ms : List Member)
    → is_empty (extract_symbols ms) ≡ not (any (λ m. m.is_module && not (is_empty m.name)) ms)
unfolding extract_symbols
no_symbols [] = refl
no_symbols (m ∷ ms) = elim (Bool-cases m.is_module) [
  | inr other ↦ rw other (no_symbols ms)
  | inl module_ ↦ elim (Bool-cases (is_empty m.name)) [
    | inl unnamed ↦ rw module_ (rw unnamed (no_symbols ms))
    | inr named ↦ rw module_ (rw named refl)
  ]
]

-- A name that is left out has been seen.
lists_name-references :
    (name : Bytes) (seen names : List Bytes)
    → (any (λ s. equal s name) seen || lists_name (extract_references seen names) name)
      ≡ (any (λ s. equal s name) seen || any (λ n. equal n name) names)
unfolding extract_references
lists_name-references name seen [] = refl
lists_name-references name seen (n ∷ names) = elim (Bool-cases (any (λ s. equal s n) seen)) [
  | inr new ↦ rw new (ground (arith, lists_name-references name (n ∷ seen) names))
  | inl known ↦ rw known (elim (Bool-cases (equal n name)) [
    | inr other ↦ rw other (lists_name-references name seen names)
    | inl same ↦
        let e : n ≡ name = (equal_iff n name).0 same in
        let k : any (λ s. equal s name) seen ≡ true = rw e at known in ground arith
  ])
]

lists_name-macros :
    (name : Bytes) (ms : List (Option Macro))
    → lists_name (extract_macros ms) name ≡ any (is_defined name) ms
unfolding extract_macros
lists_name-macros name [] = refl
lists_name-macros name (none ∷ ms) = lists_name-macros name ms
lists_name-macros name (some m ∷ ms) = elim (Bool-cases m.has_location) [
  | inr nowhere ↦ rw nowhere (lists_name-macros name ms)
  | inl here ↦ rw here (ap (λ b. equal m.name name || b) (lists_name-macros name ms))
]

-- What the record of a text lists.
abbrev record_of : Option Parsed → IndexedPath
record_of none = empty_path
record_of (some p) = extract_document p

record-declares :
    (o : Option Parsed) (name : Bytes) → lists_any (record_of o) name ≡ declares o name
unfolding extract_document extract_from_root
record-declares none name = refl
record-declares (some p) name = elim (Bool-cases (is_empty (extract_symbols p.members))) [
  | inl bare ↦ rw bare (lists_any-symbols name p.members)
  | inr full ↦ rw full (lists_any-symbols name p.members)
]

record-mentions :
    (o : Option Parsed) (name : Bytes)
    → lists_name (record_of o).referenced_symbols name ≡ mentions o name
unfolding extract_document extract_from_root
record-mentions none name = refl
record-mentions (some p) name = elim (Bool-cases (is_empty (extract_symbols p.members))) [
  | inl bare ↦ rw bare (lists_name-references name [] p.referenced)
  | inr full ↦ rw full (lists_name-references name [] p.referenced)
]

record-defines :
    (o : Option Parsed) (name : Bytes) → lists_name (record_of o).macros name ≡ defines o name
unfolding extract_document extract_from_root
record-defines none name = refl
record-defines (some p) name = elim (Bool-cases (has_module p)) [
  | inl module_ ↦
      let full : is_empty (extract_symbols p.members) ≡ false =
        no_symbols p.members ∙ ap not module_ in
      rw full (rw module_ refl)
  | inr header ↦
      let bare : is_empty (extract_symbols p.members) ≡ true =
        no_symbols p.members ∙ ap not header in
      rw bare (rw header (lists_name-macros name p.macros))
]

file_at-replace_file :
    (u v : Bytes) (file : IndexedPath) (old : Option IndexedPath) (ix : Indexer)
    → file_at (replace_file u file old ix) v ≡ (if equal u v then file else file_at ix v)
unfolding replace_file remove_entries
file_at-replace_file u v file none ix = elim (Bool-cases (equal u v)) [
  | inl same ↦ rw same (rw (find-assign u v file ix.indexed_files, same) refl)
  | inr other ↦ rw other (rw (find-assign u v file ix.indexed_files, other) refl)
]
file_at-replace_file u v file (some f) ix = elim (Bool-cases (equal u v)) [
  | inl same ↦ rw same (rw (find-assign u v file ix.indexed_files, same) refl)
  | inr other ↦ rw other (rw (find-assign u v file ix.indexed_files, other) refl)
]

file_at-update_document :
    (u v : Bytes) (p : Parsed) (o : Option Parsed) (ix : Indexer)
    → file_at ix v ≡ record_of o
    → file_at (update_document u p ix) v ≡ record_of (if equal u v then some p else o)
unfolding update_document
file_at-update_document u v p o ix h =
    file_at-replace_file u v (extract_document p) (find u (with_uri u ix).indexed_files)
      (with_uri u ix)
    ∙ elim (Bool-cases (equal u v)) [ inl same ↦ rw same refl | inr other ↦ rw other h ]

file_at-update_all :
    (v : Bytes) (o : Option Parsed) (us : List (Bytes × Parsed)) (ix : Indexer)
    → file_at ix v ≡ record_of o
    → file_at (update_all us ix) v ≡ record_of (latest_from v o us)
unfolding update_all latest_from
file_at-update_all v o [] ix h = h
file_at-update_all v o ((u, p) ∷ us) ix h =
    file_at-update_all v (if equal u v then some p else o) us (update_document u p ix)
      (file_at-update_document u v p o ix h)

update_all-IsCoherent :
    (us : List (Bytes × Parsed)) (ix : Indexer) → IsCoherent ix → IsCoherent (update_all us ix)
unfolding update_all
update_all-IsCoherent [] ix c = c
update_all-IsCoherent ((u, p) ∷ us) ix c =
    update_all-IsCoherent us (update_document u p ix) (update_document-IsCoherent u p ix c)

-- From the empty index, after any row of updates of documents, the queries for a name give a document
-- exactly if its last text declares a module of the name, if it defines a macro of the name at a
-- location and declares no module with a name, and if it refers to the name. A document that was not
-- updated is given by none of them.
pub update_all-latest :
    (us : List (Bytes × Parsed)) (name v : Bytes)
    → let ix = update_all us empty_index in
      (contains v (get_files_for_symbol name ix) ≡ declares (latest v us) name)
      × (contains v (get_files_for_macro name ix) ≡ defines (latest v us) name)
      × (contains v (get_files_referencing_symbol name ix) ≡ mentions (latest v us) name)
update_all-latest us name v =
    let ix = update_all us empty_index in
    let (symbols, macros, references) =
      queries_exact ix name v (update_all-IsCoherent us empty_index empty_index-IsCoherent) in
    let e : file_at ix v ≡ record_of (latest v us) =
      file_at-update_all v none us empty_index (unfold empty_index in refl) in
    (
      symbols ∙ ap (λ f. lists_any f name) e ∙ record-declares (latest v us) name,
      macros ∙ ap (λ f. lists_name f.macros name) e ∙ record-defines (latest v us) name,
      references
          ∙ ap (λ f. lists_name f.referenced_symbols name) e
          ∙ record-mentions (latest v us) name,
    )
