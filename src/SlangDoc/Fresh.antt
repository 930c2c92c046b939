-- ===== src/SlangDoc/Fresh.antt =====
-- The syntax tree and the analysis that a document of src/document/SlangDoc.cpp gives are made of its
-- buffer and of the latest data.
use slang_server.Common.{
  ℕ, Bool, true, List, [], ◌∷◌, ◌++◌, Option, none, some, Bytes, map, ◌≡◌, refl, sym, ap, ◌∙◌, ◌||◌,
  is_empty, if◌then◌else◌, Bool-cases, inl, inr,
}
use mathlib.Core.Path.{subst}
use slang_server.SlangDoc.{
  ContentChange, Edited, edited, out_of_bounds, past_the_end, changed_buffer,
}
use slang_server.SlangDoc.Positions.{KnowsLines}
use slang_server.SlangDoc.Edits.{AllFit, apply_changes, changed_buffer-apply_changes}
use slang_server.SlangDoc.State.{
  Slang, SlangDoc, OnChange, changed, threw, undefined, has_valid_buffers, replaced, replace_text,
  on_change, reloaded, reload_buffer, parsed, tree_or_parse, get_syntax_tree, get_analysis,
}

-- What the code relies on in slang: a buffer that was read or replaced is the latest; the first buffer of
-- a tree is the one that was parsed; a parse of a latest buffer includes the latest buffers.
pub record IsSlang {M Tree : Type 0} (slang : Slang M Tree) : Type 0 where
  pub read_latest :
      (m : M) (path : Bytes)
      → slang.is_latest_data (slang.read_source m path).0 (slang.read_source m path).1 ≡ true
  pub replace_latest :
      (m : M) (b : ℕ) (text : Bytes)
      → slang.is_latest_data (slang.replace_buffer m b text).0 (slang.replace_buffer m b text).1
        ≡ true
  pub parse_own :
      (m : M) (b : ℕ) → (included : List ℕ) × (slang.buffer_ids (slang.parse m b).1 ≡ b ∷ included)
  pub parse_latest :
      (m : M) (b : ℕ)
      → slang.is_latest_data m b ≡ true
      → has_valid_buffers slang (slang.parse m b).0 (slang.parse m b).1 ≡ true

-- What happens to a document: the source manager comes to any other state, the document is edited or
-- reloaded, or its tree is asked for.
pub data Event (M : Type 0) : Type 0 where
  elsewhere : M → Event M
  edits : List ContentChange → Event M
  reloads asks : Event M

module _ {M Tree : Type 0} (slang : Slang M Tree) where
  -- After an exception, the document goes on as it is.
  abbrev after_change : OnChange M Tree → Option (M × SlangDoc Tree)
  after_change (changed m doc) = some (m, doc)
  after_change (threw m doc) = some (m, doc)
  after_change undefined = none

  abbrev happen : (Bytes → List ℕ) → Event M → M → SlangDoc Tree → Option (M × SlangDoc Tree)
  happen line_offsets (elsewhere m') m doc = some (m', doc)
  happen line_offsets (edits cs) m doc = after_change (on_change slang line_offsets cs m doc)
  happen line_offsets reloads m doc = some (reload_buffer slang m doc).0
  happen line_offsets asks m doc = some (get_syntax_tree slang m doc).0

  abbrev and_then :
      Option (M × SlangDoc Tree)
      → (M → SlangDoc Tree → Option (M × SlangDoc Tree))
      → Option (M × SlangDoc Tree)
  and_then none f = none
  and_then (some (m, doc)) f = f m doc

  unfoldable pub live :
      (Bytes → List ℕ) → List (Event M) → M → SlangDoc Tree → Option (M × SlangDoc Tree)
  live line_offsets [] m doc = some (m, doc)
  live line_offsets (e ∷ es) m doc = and_then (happen line_offsets e m doc) (live line_offsets es)

  -- The first buffer of a tree.
  abbrev pub OwnBuffer : Tree → ℕ → Type 0
  OwnBuffer t b = (included : List ℕ) × (slang.buffer_ids t ≡ b ∷ included)

  abbrev pub OwnTree : Option Tree → ℕ → Type 0
  OwnTree none b = Unit {0}
  OwnTree (some t) b = OwnBuffer t b

  abbrev pub IsOwn : SlangDoc Tree → Type 0
  IsOwn doc = OwnTree doc.tree doc.buffer

  abbrev StillOwn : Option (M × SlangDoc Tree) → Type 0
  StillOwn none = Unit {0}
  StillOwn (some (m, doc)) = IsOwn doc

  -- The tree given is the one kept, made of the document's buffer, and all its buffers are the latest.
  abbrev pub GivesLatest : (M × SlangDoc Tree) × Tree → Type 0
  GivesLatest ((m, doc), t) =
      (doc.tree ≡ some t) × OwnBuffer t doc.buffer × (has_valid_buffers slang m t ≡ true)

  -- The trees that an analysis was made from, if the edit went through.
  abbrev pub analyzed :
      (Tree → List Bytes) → (Bytes → Tree) → Bool → OnChange M Tree → Option (List Tree)
  analyzed dependents_of tree_of refresh (changed m doc) =
      some (get_analysis slang dependents_of tree_of refresh m doc).1
  analyzed dependents_of tree_of refresh (threw m doc) = none
  analyzed dependents_of tree_of refresh undefined = none

  replaced-StillOwn :
      (doc : SlangDoc Tree) (r : M × ℕ) → StillOwn (after_change (replaced slang doc r))
  replaced-StillOwn doc (m, b) = tt

  replace_text-StillOwn :
      (m : M) (doc : SlangDoc Tree) (e : Edited)
      → IsOwn doc
      → StillOwn (after_change (replace_text slang m doc e))
  replace_text-StillOwn m doc (edited text) h =
      replaced-StillOwn doc (slang.replace_buffer m doc.buffer text)
  replace_text-StillOwn m doc out_of_bounds h = h
  replace_text-StillOwn m doc past_the_end h = tt

  on_change-StillOwn :
      (line_offsets : Bytes → List ℕ) (cs : List ContentChange) (m : M) (doc : SlangDoc Tree)
      → IsOwn doc
      → StillOwn (after_change (on_change slang line_offsets cs m doc))
  unfolding on_change
  on_change-StillOwn line_offsets [] m doc h = h
  on_change-StillOwn line_offsets (c ∷ cs) m doc h =
      replace_text-StillOwn m doc
        (changed_buffer line_offsets (slang.get_source_text m doc.buffer) c cs) h

  reloaded-IsOwn :
      (m : M) (doc : SlangDoc Tree) (o : Option (M × ℕ))
      → IsOwn doc
      → StillOwn (some (reloaded slang m doc o).0)
  reloaded-IsOwn m doc none h = h
  reloaded-IsOwn m doc (some (m', b)) h = tt

  module _ (laws : IsSlang slang) where
    parsed-GivesLatest :
        (doc : SlangDoc Tree) (m : M) (b : ℕ)
        → slang.is_latest_data m b ≡ true
        → GivesLatest (parsed slang doc (m, b))
    parsed-GivesLatest doc m b h = (refl, laws.parse_own m b, laws.parse_latest m b h)

    tree_or_parse-GivesLatest :
        (o : Option Tree) (m : M) (doc : SlangDoc Tree)
        → doc.tree ≡ o
        → OwnTree o doc.buffer
        → GivesLatest (tree_or_parse slang o m doc)
    tree_or_parse-GivesLatest none m doc e h =
        elim (Bool-cases (slang.is_latest_data m doc.buffer)) [
          | inl latest ↦ rw latest (parsed-GivesLatest doc m doc.buffer latest)
          | inr old ↦ rw old (
              parsed-GivesLatest doc (slang.read_source m doc.path).0
                (slang.read_source m doc.path).1 (laws.read_latest m doc.path))
        ]
    tree_or_parse-GivesLatest (some t) m doc e h = elim (Bool-cases (has_valid_buffers slang m t)) [
      | inl valid ↦ rw valid (e, h, valid)
      | inr stale ↦ rw stale (
          parsed-GivesLatest doc (slang.read_source m doc.path).0 (slang.read_source m doc.path).1
            (laws.read_latest m doc.path))
    ]

    get_syntax_tree-GivesLatest :
        (m : M) (doc : SlangDoc Tree) → IsOwn doc → GivesLatest (get_syntax_tree slang m doc)
    unfolding get_syntax_tree
    get_syntax_tree-GivesLatest m doc h = tree_or_parse-GivesLatest doc.tree m doc refl h

    GivesLatest-IsOwn : (r : (M × SlangDoc Tree) × Tree) → GivesLatest r → StillOwn (some r.0)
    GivesLatest-IsOwn ((m, doc), t) (e, own, _) = subst (λ o. OwnTree o doc.buffer) (sym e) own

    happen-StillOwn :
        (line_offsets : Bytes → List ℕ) (e : Event M) (m : M) (doc : SlangDoc Tree)
        → IsOwn doc
        → StillOwn (happen line_offsets e m doc)
    unfolding reload_buffer
    happen-StillOwn line_offsets (elsewhere m') m doc h = h
    happen-StillOwn line_offsets (edits cs) m doc h = on_change-StillOwn line_offsets cs m doc h
    happen-StillOwn line_offsets reloads m doc h =
        reloaded-IsOwn m doc (slang.reload_buffer m doc.buffer) h
    happen-StillOwn line_offsets asks m doc h =
        GivesLatest-IsOwn (get_syntax_tree slang m doc) (get_syntax_tree-GivesLatest m doc h)

    and_then-StillOwn :
        (o : Option (M × SlangDoc Tree)) (f : M → SlangDoc Tree → Option (M × SlangDoc Tree))
        → StillOwn o
        → ((m : M) (doc : SlangDoc Tree) → IsOwn doc → StillOwn (f m doc))
        → StillOwn (and_then o f)
    and_then-StillOwn none f h k = tt
    and_then-StillOwn (some (m, doc)) f h k = k m doc h

    live-StillOwn :
        (line_offsets : Bytes → List ℕ) (es : List (Event M)) (m : M) (doc : SlangDoc Tree)
        → IsOwn doc
        → StillOwn (live line_offsets es m doc)
    unfolding live
    live-StillOwn line_offsets [] m doc h = h
    live-StillOwn line_offsets (e ∷ es) m doc h =
        and_then-StillOwn (happen line_offsets e m doc) (live line_offsets es)
          (happen-StillOwn line_offsets e m doc h)
          (λ m' doc' k. live-StillOwn line_offsets es m' doc' k)

    -- slang is taken to read, to replace and to parse with the latest data, and to give as a tree's first
    -- buffer the one that was parsed. From a document whose kept tree, if it has one, was made of its
    -- buffer: after any row of edits that succeed or throw, of reloads that succeed or fail, of requests
    -- for the tree and of any changes of the source manager, the tree that `getSyntaxTree` gives is the
    -- one that the document then keeps, it was made of the document's buffer, and that buffer and those
    -- of the files that it includes are the latest.
    pub get_syntax_tree-live :
        (line_offsets : Bytes → List ℕ) (es : List (Event M)) (m m' : M) (doc doc' : SlangDoc Tree)
        → IsOwn doc
        → live line_offsets es m doc ≡ some (m', doc')
        → GivesLatest (get_syntax_tree slang m' doc')
    get_syntax_tree-live line_offsets es m m' doc doc' h e =
        get_syntax_tree-GivesLatest m' doc'
          (subst StillOwn e (live-StillOwn line_offsets es m doc h))

    made_after :
        (dependents_of : Tree → List Bytes) (tree_of : Bytes → Tree) (refresh : Bool) (m : M)
        (b : ℕ) (doc : SlangDoc Tree)
        → slang.is_latest_data m b ≡ true
        → analyzed dependents_of tree_of refresh (replaced slang doc (m, b))
          ≡ some (
              (slang.parse m b).1
              ∷ map tree_of (
                  if is_empty doc.dependents || refresh
                  then dependents_of (slang.parse m b).1
                  else doc.dependents))
    unfolding get_analysis get_syntax_tree
    made_after dependents_of tree_of refresh m b doc h = rw h refl

    -- slang is taken to read, to replace and to parse with the latest data, and its table to give the
    -- lines of a text. After changes of a document whose buffer is the plain text `t` and a NUL, an
    -- analysis is made anew, whatever was kept: from the tree of the new buffer, whose text is what the
    -- changes make of `t` at the positions of the LSP specification, and from the trees of the documents
    -- that it depends on. These are those of the new tree if they are to be refreshed or there were
    -- none, and else those that the document had. In the text that it is applied to, each range must not
    -- end before it starts, and its positions must be on lines of the text, not past their ends and with
    -- only ASCII before them in the line; no line feed, but that of a CR LF, may stand before a carriage
    -- return. No whole text may end in a NUL.
    pub on_change-get_analysis :
        (line_offsets : Bytes → List ℕ) (c : ContentChange) (cs : List ContentChange) (t : Bytes)
        (dependents_of : Tree → List Bytes) (tree_of : Bytes → Tree) (refresh : Bool) (m : M)
        (doc : SlangDoc Tree)
        → KnowsLines line_offsets
        → slang.get_source_text m doc.buffer ≡ t ++ 0 ∷ []
        → AllFit t (c ∷ cs)
        → let (m', b) = slang.replace_buffer m doc.buffer (apply_changes t (c ∷ cs) ++ 0 ∷ []) in
          analyzed dependents_of tree_of refresh (on_change slang line_offsets (c ∷ cs) m doc)
          ≡ some (
              (slang.parse m' b).1
              ∷ map tree_of (
                  if is_empty doc.dependents || refresh
                  then dependents_of (slang.parse m' b).1
                  else doc.dependents))
    unfolding on_change
    on_change-get_analysis line_offsets c cs t dependents_of tree_of refresh m doc knows e fit =
        let new = apply_changes t (c ∷ cs) ++ 0 ∷ [] in
        let edit : changed_buffer line_offsets (slang.get_source_text m doc.buffer) c cs
            ≡ edited new =
          ap (λ b. changed_buffer line_offsets b c cs) e
          ∙ changed_buffer-apply_changes line_offsets knows t c cs fit in
        let (m', b) = slang.replace_buffer m doc.buffer new in
        ap (λ x. analyzed dependents_of tree_of refresh (replace_text slang m doc x)) edit
        ∙ made_after dependents_of tree_of refresh m' b doc (laws.replace_latest m doc.buffer new)
