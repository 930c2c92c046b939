-- ===== src/Completions/Pieces.antt =====
-- Rows of calls on the snippet builder of include/lsp/SnippetString.h, as the completions make them.
use slang_server.Common.{
  ℕ, zero, suc, ◌+◌, ◌≤◌, List, [], ◌∷◌, ◌++◌, none, Bytes, ◌≡◌, refl, sym, ap, ◌∙◌, arith,
  append_assoc, append-nil,
}
use slang_server.Snippet.{
  SnippetString, empty_snippet, escape, append_text, append_placeholder, placeholder_text,
}
use slang_server.Completions.Macro.Expand.{expand, escape-append, expand-text, stop-placeholder}

-- `appendText` and `appendPlaceholder`.
pub data Piece : Type 0 where
  fixed hole : Bytes → Piece

unfoldable pub emit : List Piece → SnippetString → SnippetString
unfolding append_text append_placeholder
emit [] s = s
emit (fixed t ∷ ps) s = emit ps (append_text t s)
emit (hole v ∷ ps) s = emit ps (append_placeholder v none s)

abbrev pub holes : List Piece → ℕ
holes [] = 0
holes (fixed t ∷ ps) = holes ps
holes (hole v ∷ ps) = suc (holes ps)

-- The text of the pieces, with what each placeholder starts with.
abbrev pub plain : List Piece → Bytes
plain [] = []
plain (fixed t ∷ ps) = t ++ plain ps
plain (hole v ∷ ps) = v ++ plain ps

pub plain-append : (ps qs : List Piece) → plain (ps ++ qs) ≡ plain ps ++ plain qs
plain-append [] qs = refl
plain-append (fixed t ∷ ps) qs =
    ap (λ x. t ++ x) (plain-append ps qs) ∙ sym (append_assoc t (plain ps) (plain qs))
plain-append (hole v ∷ ps) qs =
    ap (λ x. v ++ x) (plain-append ps qs) ∙ sym (append_assoc v (plain ps) (plain qs))

abbrev raw : ℕ → List Piece → Bytes
raw n [] = []
raw n (fixed t ∷ ps) = escape t ++ raw n ps
raw n (hole v ∷ ps) = placeholder_text n v ++ raw (n + 1) ps

emit-raw : (ps : List Piece) (s : SnippetString) → (emit ps s).value ≡ s.value ++ raw s.tabstop ps
unfolding emit
emit-raw [] s = sym (append-nil s.value)
emit-raw (fixed t ∷ ps) s = emit-raw ps _ ∙ append_assoc s.value (escape t) (raw s.tabstop ps)
emit-raw (hole v ∷ ps) s =
    emit-raw ps _ ∙ append_assoc s.value (placeholder_text s.tabstop v) (raw (s.tabstop + 1) ps)

raw-expand :
    (ps : List Piece) (n fuel : ℕ) (read : Bytes)
    → holes ps ≤ fuel
    → expand (suc fuel) (escape read ++ raw n ps) ≡ read ++ plain ps
unfolding escape
raw-expand [] n fuel read h = expand-text fuel read [] tt ∙ sym (append-nil read)
raw-expand (fixed t ∷ ps) n fuel read h =
    ap (expand (suc fuel)) (
      sym (append_assoc (escape read) (escape t) (raw n ps))
      ∙ ap (λ x. x ++ raw n ps) (sym (escape-append read t)))
    ∙ raw-expand ps n fuel (read ++ t) h
    ∙ append_assoc read t (plain ps)
raw-expand (hole v ∷ ps) n zero read h = absurd (omega (arith, h))
raw-expand (hole v ∷ ps) n (suc fuel) read h =
    expand-text (suc fuel) read (placeholder_text n v ++ raw (n + 1) ps) refl
    ∙ stop-placeholder (suc fuel) n read v (raw (n + 1) ps)
    ∙ ap (λ x. read ++ (v ++ x)) (raw-expand ps (n + 1) fuel [] (omega (arith, h)))

-- An editor that takes over the placeholders as they are puts the texts of the calls into the document.
pub emit-expand :
    (ps : List Piece) (fuel : ℕ)
    → holes ps ≤ fuel
    → expand (suc fuel) (emit ps empty_snippet).value ≡ plain ps
unfolding empty_snippet escape
emit-expand ps fuel h =
    ap (expand (suc fuel)) (emit-raw ps (record { value = []; tabstop = 1 }))
    ∙ raw-expand ps 1 fuel [] h
