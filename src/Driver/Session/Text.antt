-- ===== src/Driver/Session/Text.antt =====
-- The texts of the documents of src/ServerDriver.cpp: the editor's, and those of a new driver.
use slang_server.Common.{
  ◌+◌, ◌<◌, Bool, true, false, List, [], ◌∷◌, ◌++◌, Option, none, some, Bytes, equal_iff, bytes_eq,
  length, if◌then◌else◌, ◌≡◌, refl, sym, ap, ◌∙◌, arith, Bool-cases, inl, inr,
}
use mathlib.Core.Path.{subst}
use slang_server.Common.Dict.{find, assign, find-assign}
use slang_server.Diagnostics.{contains, emplace}
use slang_server.Diagnostics.Sync.{contains-emplace}
use slang_server.SlangDoc.{
  ContentChange, Edited, edited, out_of_bounds, past_the_end, ends_null, ensure_null,
  changed_buffer, text_matches,
}
use slang_server.SlangDoc.Positions.{KnowsLines}
use slang_server.SlangDoc.Edits.{AllFit, apply_changes, changed_buffer-apply_changes}
use slang_server.Driver.Dependencies.{Tree, Found, found, threw, out_of_fuel, get_dependent_docs}
use slang_server.Driver.Invariant.{Bounded, Ensures}
use slang_server.Driver.Closure.{Complete, get_dependent_docs-Complete}
use slang_server.Driver.Session.{
  ServerDriver, World, FileUpdateType, open_update, change_update, Outcome, finished, failed,
  undefined, exhausted, then_do, or_read, with_doc, after_search, load_tree, update_doc, open_new,
  open_found, open_document, save_update, save_text, on_doc_did_save, with_document, change_all,
  changed, on_doc_did_change,
}
use slang_server.Driver.Session.Watch.{copy_known, copy_found, copy_open_docs, create}
use slang_server.Driver.Session.Keeps.{with_doc-KeepsDocs}
use slang_server.Driver.Session.Keeps.{
  KeepsDocs, keep_new-KeepsDocs, Always, then_do-Always, Always-mono, Updated,
  insert_loaded-KeepsDocs, update_doc-Updated,
}

-- An operation ends, and its state is so.
abbrev pub EndsWith : (ServerDriver → Type 0) → Outcome → Type 0
EndsWith P (finished s) = P s
EndsWith P (failed s) = P s
EndsWith P undefined = ⊥
EndsWith P exhausted = ⊥

abbrev pub HasText : Bytes → Bytes → ServerDriver → Type 0
HasText u b s = find u s.docs ≡ some b

-- A document was opened with this buffer: it is tracked as open, or the operation ended in an exception
-- and the same documents are open as before.
abbrev pub Opened : Bytes → Bytes → List Bytes → Outcome → Type 0
Opened u b open_docs (finished s) = HasText u b s × (contains s.open_docs u ≡ true)
Opened u b open_docs (failed s) = HasText u b s × (s.open_docs ≡ open_docs)
Opened u b open_docs undefined = ⊥
Opened u b open_docs exhausted = ⊥

-- The buffer that an opened text makes has one NUL behind the text.
null_added : (text : Bytes) → ends_null text ≡ false → ensure_null text ≡ text ++ 0 ∷ []
unfolding ensure_null
null_added text h = rw h refl

matched : (b text : Bytes) → text_matches b text ≡ true → b ≡ text ++ 0 ∷ []
unfolding text_matches
matched b text h = ground (arith, h, equal_iff b (text ++ 0 ∷ []))

edited_same : (c b : Bytes) → edited c ≡ edited b → c ≡ b
edited_same c b h = cc h

module _ (w : World) (files : List Bytes) (bounded : Bounded w.find_file (λ p. none) files)
    (enough : 1 + length files < w.fuel) where
  -- What an update leaves, and that it ends.
  abbrev pub Left : ServerDriver → ServerDriver → Type 0
  Left s s' = KeepsDocs s.docs s'.docs × (s'.open_docs ≡ s.open_docs)

  after_search-Left :
      (t : Tree) (r : Found) (u b : Bytes) (type : FileUpdateType) (s : ServerDriver)
      → Ensures w.find_file
          (load_tree w s.docs)
          files
          (Complete w.find_file (load_tree w s.docs) files t)
          r
      → EndsWith (Left s) (after_search w r u b type s)
  after_search-Left t (found r) u b type s h = (insert_loaded-KeepsDocs w r.result s.docs, refl)
  after_search-Left t (threw r) u b type s h = (insert_loaded-KeepsDocs w r.result s.docs, refl)
  after_search-Left t out_of_fuel u b type s h = elim h [ ]

  pub update_doc-Left :
      (u b : Bytes) (type : FileUpdateType) (s : ServerDriver)
      → EndsWith (Left s) (update_doc w u b type s)
  unfolding update_doc
  update_doc-Left u b type s =
      after_search-Left (w.parse b)
        (get_dependent_docs w.find_file (load_tree w s.docs) w.fuel (w.parse b)) u b type s
        (get_dependent_docs-Complete w.find_file (load_tree w s.docs) files w.fuel (w.parse b)
          bounded enough)

  -- The document has this buffer, and the open documents are these.
  abbrev Stands : Bytes → Bytes → List Bytes → ServerDriver → Type 0
  Stands u b os s = HasText u b s × (s.open_docs ≡ os)

  EndsWith-mono :
      (P Q : ServerDriver → Type 0) (r : Outcome)
      → EndsWith P r
      → ((s : ServerDriver) → P s → Q s)
      → EndsWith Q r
  EndsWith-mono P Q (finished s) h k = k s h
  EndsWith-mono P Q (failed s) h k = k s h
  EndsWith-mono P Q undefined h k = elim h [ ]
  EndsWith-mono P Q exhausted h k = elim h [ ]

  update_doc-Stands :
      (u b c : Bytes) (type : FileUpdateType) (s : ServerDriver)
      → HasText u b s
      → EndsWith (Stands u b s.open_docs) (update_doc w u c type s)
  update_doc-Stands u b c type s h =
      EndsWith-mono (Left s) (Stands u b s.open_docs) (update_doc w u c type s)
        (update_doc-Left u c type s) (λ s' (k, o). (k u b h, o))

  assigned-HasText :
      (u b : Bytes) (s : ServerDriver) → HasText u b (record s { docs = assign u b s.docs })
  assigned-HasText u b s = rw (find-assign u u b s.docs, (equal_iff u u).1 refl) refl

  open_new-Stands :
      (u text : Bytes) (s : ServerDriver)
      → ends_null text ≡ false
      → EndsWith (Stands u (text ++ 0 ∷ []) s.open_docs) (open_new w u text s)
  open_new-Stands u text s n =
      update_doc-Stands u (text ++ 0 ∷ []) (ensure_null text) open_update
        (record s { docs = assign u (ensure_null text) s.docs })
        (assigned-HasText u (ensure_null text) s ∙ ap some (null_added text n))

  either_way :
      (comp : Bool) (u b text : Bytes) (s : ServerDriver)
      → HasText u (text ++ 0 ∷ []) s
      → EndsWith
          (Stands u (text ++ 0 ∷ []) s.open_docs)
          (if comp then finished s else update_doc w u b open_update s)
  either_way true u b text s h = (h, refl)
  either_way false u b text s h = update_doc-Stands u (text ++ 0 ∷ []) b open_update s h

  open_found-Stands :
      (u text : Bytes) (o : Option Bytes) (s : ServerDriver)
      → find u s.docs ≡ o
      → ends_null text ≡ false
      → EndsWith (Stands u (text ++ 0 ∷ []) s.open_docs) (open_found w u text o s)
  open_found-Stands u text none s e n = open_new-Stands u text s n
  open_found-Stands u text (some b) s e n = elim (Bool-cases (text_matches b text)) [
    | inr differ ↦ rw differ (open_new-Stands u text s n)
    | inl same ↦
        let h : HasText u (text ++ 0 ∷ []) s = e ∙ ap some (matched b text same) in
        rw same (either_way s.has_comp u b text s h)
  ]

  Opened-then_do :
      (u b : Bytes) (os : List Bytes) (r : Outcome)
      → EndsWith (Stands u b os) r
      → Opened u b os
          (then_do r (λ s'. finished (record s' { open_docs = emplace u s'.open_docs })))
  Opened-then_do u b os (finished s) (h, o) =
      (h, ground (arith, contains-emplace u u s.open_docs, (equal_iff u u).1 refl))
  Opened-then_do u b os (failed s) (h, o) = (h, o)
  Opened-then_do u b os undefined h = elim h [ ]
  Opened-then_do u b os exhausted h = elim h [ ]

  -- With two rounds of fuel more than the index can name files, or above, the opening of a
  -- document ends with the editor's text, which has no NUL at its end, as the document's,
  -- whatever the driver held for it. Either the document is then open, or the opening ended in an
  -- exception and the same documents are open as before.
  pub open_document-Opened :
      (u text : Bytes) (s : ServerDriver)
      → ends_null text ≡ false
      → Opened u (text ++ 0 ∷ []) s.open_docs (open_document w u text s)
  unfolding open_document
  open_document-Opened u text s n =
      Opened-then_do u (text ++ 0 ∷ []) s.open_docs (open_found w u text (find u s.docs) s)
        (open_found-Stands u text (find u s.docs) s refl n)

  changed-Stands :
      (u b : Bytes) (e : Edited) (s : ServerDriver)
      → e ≡ edited b
      → EndsWith (Stands u b s.open_docs) (changed w u e s)
  changed-Stands u b (edited c) s h =
      update_doc-Stands u b c change_update (record s { docs = assign u c s.docs })
        (assigned-HasText u c s ∙ ap some (edited_same c b h))
  changed-Stands u b out_of_bounds s h = cc h
  changed-Stands u b past_the_end s h = cc h

  change_known :
      (u b b' : Bytes) (o : Option Bytes) (s : ServerDriver) (f : Bytes → ServerDriver → Outcome)
      → find u s.docs ≡ some b
      → EndsWith (Stands u b' s.open_docs) (f b (record s { docs = with_doc w u s.docs }))
      → EndsWith (Stands u b' s.open_docs) (with_document w u (or_read (find u s.docs) o) s f)
  change_known u b b' o s f h k =
      subst (λ x. EndsWith (Stands u b' s.open_docs) (with_document w u (or_read x o) s f)) (sym h)
        k

  -- With two rounds of fuel more than the index can name files, or above, and if slang's table gives
  -- the lines of a text, an edit of a document whose text is `t` ends, in an exception too, with the
  -- text that the changes make of `t` one after the other at the positions of the LSP specification,
  -- in lines and UTF-16 code units, and with the same documents open. In the text that it is applied
  -- to, each range must not end before it starts, and its positions must be on lines of the text, not
  -- past their ends and with only ASCII before them in the line; no line feed, but that of a CR LF,
  -- may stand before a carriage return. No whole text may end in a NUL.
  pub on_doc_did_change-apply_changes :
      (u t : Bytes) (c : ContentChange) (cs : List ContentChange) (s : ServerDriver)
      → KnowsLines w.line_offsets
      → HasText u (t ++ 0 ∷ []) s
      → AllFit t (c ∷ cs)
      → EndsWith
          (Stands u (apply_changes t (c ∷ cs) ++ 0 ∷ []) s.open_docs)
          (on_doc_did_change w u (c ∷ cs) s)
  unfolding on_doc_did_change
  on_doc_did_change-apply_changes u t c cs s knows h fit =
      let b = t ++ 0 ∷ [] in
      let b' = apply_changes t (c ∷ cs) ++ 0 ∷ [] in
      change_known u b b' (w.read u) s (change_all w u (c ∷ cs)) h (
        changed-Stands u b' (changed_buffer w.line_offsets b c cs)
          (record s { docs = with_doc w u s.docs })
          (changed_buffer-apply_changes w.line_offsets knows t c cs fit))

  Opened-then_update :
      (u b : Bytes) (os : List Bytes) (r : Outcome) (f : ServerDriver → Outcome)
      → Opened u b os r
      → ((s : ServerDriver) → HasText u b s → EndsWith (HasText u b) (f s))
      → EndsWith (HasText u b) (then_do r f)
  Opened-then_update u b os (finished s) f (h, o) k = k s h
  Opened-then_update u b os (failed s) f (h, o) k = h
  Opened-then_update u b os undefined f h k = elim h [ ]
  Opened-then_update u b os exhausted f h k = elim h [ ]

  update_doc-HasText :
      (u b c : Bytes) (type : FileUpdateType) (s : ServerDriver)
      → HasText u b s
      → EndsWith (HasText u b) (update_doc w u c type s)
  update_doc-HasText u b c type s h =
      EndsWith-mono (Stands u b s.open_docs) (HasText u b) (update_doc w u c type s)
        (update_doc-Stands u b c type s h) (λ s' (k, o). k)

  save_text-HasText :
      (u text b : Bytes) (s : ServerDriver)
      → HasText u b s
      → ends_null text ≡ false
      → EndsWith (HasText u (text ++ 0 ∷ [])) (save_text w u (some text) b s)
  save_text-HasText u text b s h n = elim (Bool-cases (text_matches b text)) [
    | inl same ↦
        rw same (
          update_doc-HasText u (text ++ 0 ∷ []) b save_update s (h ∙ ap some (matched b text same)))
    | inr differ ↦ rw differ (
        Opened-then_update u (text ++ 0 ∷ []) s.open_docs (open_document w u text s)
          (update_doc w u (ensure_null text) save_update) (open_document-Opened u text s n)
          (λ s' k. update_doc-HasText u (text ++ 0 ∷ []) (ensure_null text) save_update s' k))
  ]

  -- With two rounds of fuel more than the index can name files, or above, the save of an open
  -- document that the driver knows ends with the saved text, which has no NUL at its end, as the
  -- document's, whether the texts agreed before or not, in an exception too.
  pub on_doc_did_save-HasText :
      (u text b : Bytes) (s : ServerDriver)
      → contains s.open_docs u ≡ true
      → HasText u b s
      → ends_null text ≡ false
      → EndsWith (HasText u (text ++ 0 ∷ [])) (on_doc_did_save w u (some text) s)
  unfolding on_doc_did_save
  on_doc_did_save-HasText u text b s o h n = rw o (
      subst
        (λ x.
          EndsWith (HasText u (text ++ 0 ∷ []))
            (with_document w u (or_read x (w.read u)) s (save_text w u (some text))))
        (sym h)
        (save_text-HasText u text b (record s { docs = with_doc w u s.docs })
          (with_doc-KeepsDocs w u s.docs u b h) n))

-- The document keeps its buffer.
abbrev pub Still : Bytes → Bytes → Outcome → Type 0
Still u b r = Always (HasText u b) r

module _ (w : World) where
  update_doc-Still :
      (u b v c : Bytes) (type : FileUpdateType) (s : ServerDriver)
      → HasText u b s
      → Still u b (update_doc w v c type s)
  update_doc-Still u b v c type s h =
      Always-mono (Updated s) (HasText u b) (update_doc w v c type s)
        (update_doc-Updated w v c type s) (λ s' k. k.keeps_docs u b h)

  copy_known-Still :
      (u b v text : Bytes) (o : Option Bytes) (s : ServerDriver)
      → find v s.docs ≡ o
      → HasText u b s
      → Still u b (copy_known w v text o s)
  unfolding open_document
  copy_known-Still u b v text (some c) s e h =
      update_doc-Still u b v c open_update (record s { open_docs = emplace v s.open_docs }) h
  copy_known-Still u b v text none s e h =
      let other : HasText u b (record s { docs = assign v (ensure_null text) s.docs }) =
        keep_new-KeepsDocs v none (some (ensure_null text)) s.docs e u b h in
      then_do-Always (HasText u b) (HasText u b) (open_found w v text (find v s.docs) s)
        (λ s'. finished (record s' { open_docs = emplace v s'.open_docs }))
        (subst (λ x. Still u b (open_found w v text x s)) (sym e)
          (update_doc-Still u b v (ensure_null text) open_update
            (record s { docs = assign v (ensure_null text) s.docs }) other))
        (λ s' k. k) (λ s' k. k)

  copy_found-Still :
      (u b v : Bytes) (o : Option Bytes) (s : ServerDriver)
      → HasText u b s
      → Still u b (copy_found w v o s)
  copy_found-Still u b v none s h = h
  copy_found-Still u b v (some text) s h = copy_known-Still u b v text (find v s.docs) s refl h

  copy_open_docs-Still :
      (u b : Bytes) (us : List Bytes) (old : List (Bytes × Bytes)) (s : ServerDriver)
      → HasText u b s
      → Still u b (copy_open_docs w us old s)
  unfolding copy_open_docs
  copy_open_docs-Still u b [] old s h = h
  copy_open_docs-Still u b (v ∷ us) old s h =
      then_do-Always (HasText u b) (HasText u b) (copy_found w v (find v old) s)
        (copy_open_docs w us old) (copy_found-Still u b v (find v old) s h) (λ s' k. k)
        (λ s' k. copy_open_docs-Still u b us old s' k)

  -- A document that the sources of the build bring into a new driver keeps the text that they gave it,
  -- whatever text the old driver held for it, open or not.
  pub create-Still :
      (u b : Bytes) (new old : ServerDriver) → HasText u b new → Still u b (create w new old).0
  unfolding create
  create-Still u b new old h = copy_open_docs-Still u b old.open_docs old.docs new h
