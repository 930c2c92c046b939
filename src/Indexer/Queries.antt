-- ===== src/Indexer/Queries.antt =====
-- The queries of src/Indexer.cpp against the records of the indexed files.
use slang_server.Common.{
  ℕ, Bool, true, false, ◌&&◌, List, [], ◌∷◌, none, some, Bytes, equal, ◌==◌, ==_iff, map, any,
  bytes_eq, ◌≡◌, refl, sym, ◌∙◌, arith, Bool-cases, inl, inr,
}
use slang_server.Indexer.Postings.{entries, mem}
use slang_server.Indexer.Extract.{GlobalSymbol, IndexedPath}
use slang_server.Indexer.Holds.{file_at, at, lists_symbol, lists_name}
use slang_server.Indexer.Coherence.{IsCoherent}
use slang_server.Indexer.{
  GlobalSymbolLoc, same_loc_iff, loc_eq, Indexer, contains, uri_of, get_files_for_symbol,
  get_files_for_macro, get_files_referencing_symbol, get_first_symbol_loc, first_of_list,
}

iff_eq : (a b : Bool) → (a ≡ true → b ≡ true) → (b ≡ true → a ≡ true) → a ≡ b
iff_eq true true f g = refl
iff_eq true false f g = sym (f refl)
iff_eq false true f g = g refl
iff_eq false false f g = refl

uri_kind :
    (v : Bytes) (es : List GlobalSymbolLoc)
    → contains v (map uri_of es) ≡ true
    → (kind : ℕ) × (mem (at v kind) es ≡ true)
uri_kind v [] h = cc
uri_kind v (e ∷ es) h = elim (Bool-cases (equal e.uri v)) [
  | inl hit ↦ (e.kind, ground (arith, ==_iff e.kind e.kind))
  | inr miss ↦ let (kind, k) = uri_kind v es (ground arith) in (kind, ground arith)
]

kind_uri :
    (v : Bytes) (kind : ℕ) (es : List GlobalSymbolLoc)
    → mem (at v kind) es ≡ true
    → contains v (map uri_of es) ≡ true
kind_uri v kind [] h = cc
kind_uri v kind (e ∷ es) h = ground (arith, kind_uri v kind es)

-- Whether a file lists a symbol of this name, of any kind.
abbrev pub lists_any : IndexedPath → Bytes → Bool
lists_any f name = any (λ (s : GlobalSymbol). equal s.name name) f.symbols

name_kind :
    (name : Bytes) (ss : List GlobalSymbol)
    → any (λ s. equal s.name name) ss ≡ true
    → (kind : ℕ) × (any (λ s. equal s.name name && s.kind == kind) ss ≡ true)
name_kind name [] h = cc
name_kind name (s ∷ ss) h = elim (Bool-cases (equal s.name name)) [
  | inl hit ↦ (s.kind, ground (arith, ==_iff s.kind s.kind))
  | inr miss ↦ let (kind, k) = name_kind name ss (ground arith) in (kind, ground arith)
]

kind_name :
    (name : Bytes) (kind : ℕ) (ss : List GlobalSymbol)
    → any (λ s. equal s.name name && s.kind == kind) ss ≡ true
    → any (λ s. equal s.name name) ss ≡ true
kind_name name kind [] h = cc
kind_name name kind (s ∷ ss) h = ground (arith, kind_name name kind ss)

-- In a coherent index each query gives exactly the files whose records list the name: as a symbol,
-- as a macro, as a reference.
pub queries_exact :
    (ix : Indexer) (name v : Bytes)
    → IsCoherent ix
    → (contains v (get_files_for_symbol name ix) ≡ lists_any (file_at ix v) name)
      × (contains v (get_files_for_macro name ix) ≡ lists_name (file_at ix v).macros name)
      × (contains v (get_files_referencing_symbol name ix)
          ≡ lists_name (file_at ix v).referenced_symbols name)
unfolding get_files_for_symbol get_files_for_macro get_files_referencing_symbol
queries_exact ix name v c = (
  iff_eq _ _
      (λ h.
        let (kind, k) = uri_kind v (entries ix.symbol_to_files name) h in
        kind_name name kind (file_at ix v).symbols (sym (c.holds.symbols name v kind) ∙ k))
      (λ h.
        let (kind, k) = name_kind name (file_at ix v).symbols h in
        kind_uri v kind (entries ix.symbol_to_files name) (c.holds.symbols name v kind ∙ k)),
  c.holds.macros name v,
  c.holds.references name v,
)

first_mem :
    (l : GlobalSymbolLoc) (es : List GlobalSymbolLoc) → first_of_list es ≡ some l → mem l es ≡ true
first_mem l [] h = cc
first_mem l (e ∷ es) h = ground (arith, same_loc_iff e l)

first_none :
    (v : Bytes) (es : List GlobalSymbolLoc)
    → first_of_list es ≡ none
    → contains v (map uri_of es) ≡ false
first_none v [] h = refl
first_none v (e ∷ es) h = cc

-- In a coherent index `getFirstSymbolLoc` gives a file that lists the name with that kind, and
-- gives nothing only if no file lists the name.
pub get_first_symbol_loc_sound :
    (ix : Indexer) (name : Bytes)
    → IsCoherent ix
    → ((l : GlobalSymbolLoc)
        → get_first_symbol_loc name ix ≡ some l
        → lists_symbol (file_at ix l.uri) name l.kind ≡ true)
      × (get_first_symbol_loc name ix ≡ none → (v : Bytes) → lists_any (file_at ix v) name ≡ false)
unfolding get_first_symbol_loc
get_first_symbol_loc_sound ix name c = (
  λ l h. sym (c.holds.symbols name l.uri l.kind) ∙ first_mem l (entries ix.symbol_to_files name) h,
  λ h v.
      sym (queries_exact ix name v c).0
      ∙ unfold get_files_for_symbol in first_none v (entries ix.symbol_to_files name) h,
)
