-- ===== src/Markdown/Build.antt =====
-- `Document::build` of src/util/Markdown.cpp.
use slang_server.Common.{
  true, false, ◌&&◌, [], ◌∷◌, ◌++◌, Bytes, is_empty, ◌≡◌, refl, sym, ap, ◌∙◌, append-nil,
  append_assoc,
}
use slang_server.Markdown.{
  Document, append_document, is_empty_document, separator, build_from, build,
}

-- Two texts, with a rule between them where both have content.
abbrev pub joined : Bytes → Bytes → Bytes
joined [] t = t
joined (c ∷ s) [] = c ∷ s
joined (c ∷ s) (d ∷ t) = (c ∷ s) ++ (separator ++ (d ∷ t))

next_joined :
    (p : Bytes) (d : Document)
    → is_empty p ≡ false
    → p ++ build_from false d ≡ joined p (build_from true d)
unfolding build_from
next_joined [] d h = cc h
next_joined (c ∷ p) [] h = rw append-nil
next_joined (c ∷ p) ([] ∷ d) h = next_joined (c ∷ p) d h
next_joined (c ∷ p) ((x ∷ q) ∷ d) h = refl

joined_assoc : (s t u : Bytes) → joined (joined s t) u ≡ joined s (joined t u)
joined_assoc [] t u = refl
joined_assoc (c ∷ s) [] u = refl
joined_assoc (c ∷ s) (x ∷ t) [] = refl
joined_assoc (c ∷ s) (x ∷ t) (y ∷ u) = rw append_assoc refl

build-cons : (p : Bytes) (d : Document) → build (p ∷ d) ≡ joined p (build d)
unfolding build build_from
build-cons [] d = refl
build-cons (c ∷ p) d = next_joined (c ∷ p) d refl

build-concat : (d more : Document) → build (append_document more d) ≡ joined (build d) (build more)
unfolding append_document
build-concat [] more = unfold build build_from in refl
build-concat (p ∷ d) more =
    build-cons p (d ++ more)
    ∙ (ap (joined p) (build-concat d more)
        ∙ (sym (joined_assoc p (build d) (build more))
            ∙ ap (λ s. joined s (build more)) (sym (build-cons p d))))

joined-is_empty : (s t : Bytes) → is_empty (joined s t) ≡ (is_empty s && is_empty t)
joined-is_empty [] t = refl
joined-is_empty (c ∷ s) [] = refl
joined-is_empty (c ∷ s) (d ∷ t) = refl

build-is_empty : (d : Document) → is_empty (build d) ≡ is_empty_document d
unfolding is_empty_document
build-is_empty [] = unfold build build_from in refl
build-is_empty (p ∷ d) =
    ap is_empty (build-cons p d)
    ∙ (joined-is_empty p (build d) ∙ ap (λ b. is_empty p && b) (build-is_empty d))

-- The text of a document is that of its paragraphs with content, a rule between each two; so a
-- document followed by another is the two texts with a rule between them, and a document has no
-- text exactly if `isEmpty`.
pub build-append :
    (d more : Document)
    → (build (append_document more d) ≡ joined (build d) (build more))
      × (is_empty (build d) ≡ is_empty_document d)
build-append d more = (build-concat d more, build-is_empty d)
