-- ===== src/Driver/Session/Serve.antt =====
-- Rows of requests on the documents of src/ServerDriver.cpp.
use slang_server.Common.{
  ◌+◌, ◌<◌, length, Bool, true, false, List, [], ◌∷◌, ◌++◌, Option, none, some, Bytes, equal_iff,
  bytes_eq, if◌then◌else◌, ◌≡◌, refl, sym, Bool-cases, inl, inr,
}
use slang_server.Driver.Invariant.{Bounded}
use mathlib.Core.Path.{subst}
use slang_server.Common.Dict.{find, assign, find-assign}
use slang_server.Diagnostics.{contains, emplace}
use slang_server.SlangDoc.{
  ContentChange, Edited, edited, out_of_bounds, past_the_end, ensure_null, changed_buffer,
  text_matches,
}
use slang_server.Driver.Session.{
  ServerDriver, World, FileUpdateType, save_update, save_text, on_doc_did_save, open_update,
  change_update, Outcome, finished, has, with_doc, update_doc, open_new, open_found, open_document,
  with_document, get_document, or_read, changed, change_all, on_doc_did_change, close_document,
  reload, reload_document,
}
use slang_server.Driver.Session.Watch.{
  FileChangeType, file_created, file_changed, file_deleted, Request, opens, changes, saves, closes,
  reloads, watches, update_known, update_each, reload_changed, watch_one, watch_all,
  on_workspace_did_change_watched_files, handle, serve,
}
use slang_server.Driver.Session.Keeps.{
  IsGood, Updated, known_kept, Updated-IsGood, assign-IsGood, track-IsGood, close_document-IsGood,
  with_doc-KeepsDocs,
}
use slang_server.Driver.Session.Ends.{
  Ends, then_do-Ends, Ends-mono, resume-Ends, update_doc-Ends, update_doc-IsGood,
}

module _ (w : World) (files : List Bytes) (bounded : Bounded w.find_file (λ p. none) files)
    (enough : 1 + length files < w.fuel) where
  abbrev GoodWith : Bytes → ServerDriver → Type 0
  GoodWith u s = IsGood s × (has u s ≡ true)

  update_doc-GoodWith :
      (u b : Bytes) (type : FileUpdateType) (s : ServerDriver)
      → GoodWith u s
      → Ends (GoodWith u) (update_doc w u b type s)
  update_doc-GoodWith u b type s (g, h) =
      Ends-mono (Updated s) (GoodWith u) (update_doc w u b type s)
        (update_doc-Ends w files bounded enough u b type s)
        (λ s' k. (Updated-IsGood s s' g k, known_kept u s.docs s'.docs k.keeps_docs h))

  assigned :
      (u b : Bytes) (s : ServerDriver)
      → IsGood s
      → GoodWith u (record s { docs = assign u b s.docs })
  assigned u b s g =
      (assign-IsGood u b s g, rw (find-assign u u b s.docs, (equal_iff u u).1 refl) refl)

  open_new-GoodWith :
      (u text : Bytes) (s : ServerDriver) → IsGood s → Ends (GoodWith u) (open_new w u text s)
  open_new-GoodWith u text s g =
      update_doc-GoodWith u (ensure_null text) open_update
        (record s { docs = assign u (ensure_null text) s.docs }) (assigned u (ensure_null text) s g)

  open_found-GoodWith :
      (u text : Bytes) (o : Option Bytes) (s : ServerDriver)
      → find u s.docs ≡ o
      → IsGood s
      → Ends (GoodWith u) (open_found w u text o s)
  open_found-GoodWith u text none s e g = open_new-GoodWith u text s g
  open_found-GoodWith u text (some b) s e g = elim (Bool-cases (text_matches b text)) [
    | inr differ ↦ rw differ (open_new-GoodWith u text s g)
    | inl same ↦ rw same (elim (Bool-cases s.has_comp) [
      | inl comp ↦
          subst (λ c. Ends (GoodWith u) (if c then finished s else update_doc w u b open_update s))
            (sym comp) (g, rw e refl)
      | inr none_yet ↦
          subst (λ c. Ends (GoodWith u) (if c then finished s else update_doc w u b open_update s))
            (sym none_yet) (update_doc-GoodWith u b open_update s (g, rw e refl))
    ])
  ]

  open_document-IsGood :
      (u text : Bytes) (s : ServerDriver) → IsGood s → Ends IsGood (open_document w u text s)
  unfolding open_document
  open_document-IsGood u text s g =
      then_do-Ends (GoodWith u) IsGood (open_found w u text (find u s.docs) s)
        (λ s'. finished (record s' { open_docs = emplace u s'.open_docs }))
        (open_found-GoodWith u text (find u s.docs) s refl g) (λ s' k. k.0)
        (λ s' (h, k). track-IsGood u s' h k)

  with_document-IsGood :
      (o : Option Bytes) (u : Bytes) (s : ServerDriver) (f : Bytes → ServerDriver → Outcome)
      → IsGood s
      → ((b : Bytes) (s' : ServerDriver) → IsGood s' → Ends IsGood (f b s'))
      → Ends IsGood (with_document w u o s f)
  with_document-IsGood none u s f g k = g
  with_document-IsGood (some b) u s f g k =
      k b (record s { docs = with_doc w u s.docs })
        (Updated-IsGood s (record s { docs = with_doc w u s.docs }) g
          (record {
            keeps_docs = with_doc-KeepsDocs w u s.docs;
            keeps_open = refl;
            keeps_synced = λ h. h;
          }))

  changed-IsGood :
      (u : Bytes) (e : Edited) (s : ServerDriver) → IsGood s → Ends IsGood (changed w u e s)
  changed-IsGood u (edited b) s g =
      update_doc-IsGood w files bounded enough u b change_update
        (record s { docs = assign u b s.docs }) (assign-IsGood u b s g)
  changed-IsGood u out_of_bounds s g = g
  changed-IsGood u past_the_end s g = tt

  update_known-IsGood :
      (u : Bytes) (o : Option Bytes) (s : ServerDriver)
      → IsGood s
      → Ends IsGood (update_known w u o s)
  update_known-IsGood u none s g = g
  update_known-IsGood u (some b) s g =
      update_doc-IsGood w files bounded enough u b change_update s g

  get_document-IsGood :
      (u : Bytes) (s : ServerDriver) (f : Bytes → ServerDriver → Outcome)
      → IsGood s
      → ((b : Bytes) (s' : ServerDriver) → IsGood s' → Ends IsGood (f b s'))
      → Ends IsGood (get_document w u s f)
  get_document-IsGood u s f g k =
      with_document-IsGood (or_read (find u s.docs) (w.read u)) u s f g k

  change_all-IsGood :
      (u : Bytes) (cs : List ContentChange) (b : Bytes) (s : ServerDriver)
      → IsGood s
      → Ends IsGood (change_all w u cs b s)
  change_all-IsGood u [] b s g = update_doc-IsGood w files bounded enough u b change_update s g
  change_all-IsGood u (c ∷ cs) b s g = changed-IsGood u (changed_buffer w.line_offsets b c cs) s g

  on_doc_did_change-IsGood :
      (u : Bytes) (cs : List ContentChange) (s : ServerDriver)
      → IsGood s
      → Ends IsGood (on_doc_did_change w u cs s)
  unfolding on_doc_did_change
  on_doc_did_change-IsGood u cs s g =
      get_document-IsGood u s (change_all w u cs) g (change_all-IsGood u cs)

  save_text-IsGood :
      (u : Bytes) (text : Option Bytes) (b : Bytes) (s : ServerDriver)
      → IsGood s
      → Ends IsGood (save_text w u text b s)
  save_text-IsGood u none b s g = update_doc-IsGood w files bounded enough u b save_update s g
  save_text-IsGood u (some text) b s g = elim (Bool-cases (text_matches b text)) [
    | inl same ↦ rw same (update_doc-IsGood w files bounded enough u b save_update s g)
    | inr differ ↦ rw differ (
        then_do-Ends IsGood IsGood (open_document w u text s)
          (update_doc w u (ensure_null text) save_update) (open_document-IsGood u text s g)
          (λ s' h. h)
          (λ s' h. update_doc-IsGood w files bounded enough u (ensure_null text) save_update s' h))
  ]

  on_doc_did_save-IsGood :
      (u : Bytes) (text : Option Bytes) (s : ServerDriver)
      → IsGood s
      → Ends IsGood (on_doc_did_save w u text s)
  unfolding on_doc_did_save
  on_doc_did_save-IsGood u text s g = elim (Bool-cases (contains s.open_docs u)) [
    | inr closed ↦ rw closed g
    | inl is_open ↦
        rw is_open (get_document-IsGood u s (save_text w u text) g (save_text-IsGood u text))
  ]

  reload-IsGood :
      (u : Bytes) (file : Option Bytes) (s : ServerDriver)
      → IsGood s
      → Ends IsGood (reload w u file s (λ b s'. update_doc w u b change_update s'))
  reload-IsGood u none s g = g
  reload-IsGood u (some b) s g =
      update_doc-IsGood w files bounded enough u b change_update
        (record s { docs = assign u b s.docs }) (assign-IsGood u b s g)

  reload_document-IsGood :
      (u : Bytes) (s : ServerDriver) → IsGood s → Ends IsGood (reload_document w u s)
  unfolding reload_document
  reload_document-IsGood u s g = elim (Bool-cases (contains s.open_docs u)) [
    | inr closed ↦ rw closed g
    | inl is_open ↦ rw is_open (
        get_document-IsGood u s
          (λ b s'. reload w u (w.read u) s' (λ b' s''. update_doc w u b' change_update s'')) g
          (λ b s' h. reload-IsGood u (w.read u) s' h))
  ]

  update_each-IsGood :
      (us : List Bytes) (s : ServerDriver) → IsGood s → Ends IsGood (update_each w us s)
  unfolding update_each
  update_each-IsGood [] s g = g
  update_each-IsGood (u ∷ us) s g =
      then_do-Ends IsGood IsGood (update_known w u (find u s.docs) s) (update_each w us)
        (update_known-IsGood u (find u s.docs) s g) (λ s' h. h) (λ s' h. update_each-IsGood us s' h)

  -- The rest of the loop over the file events keeps the state good.
  abbrev GoesOn : (Bool → ServerDriver → Outcome) → Type 0
  GoesOn f = (note : Bool) (s : ServerDriver) → IsGood s → Ends IsGood (f note s)

  reload_changed-IsGood :
      (u : Bytes) (file : Option Bytes) (f : Bool → ServerDriver → Outcome) (s : ServerDriver)
      → GoesOn f
      → IsGood s
      → Ends IsGood (reload_changed w u file f s)
  reload_changed-IsGood u none f s k g = k false s g
  reload_changed-IsGood u (some b) f s k g =
      k true (record s { docs = assign u b s.docs }) (assign-IsGood u b s g)

  watch_one-IsGood :
      (u : Bytes) (type : FileChangeType) (f : Bool → ServerDriver → Outcome) (s : ServerDriver)
      → GoesOn f
      → IsGood s
      → Ends IsGood (watch_one w u type f s)
  watch_one-IsGood u file_created f s k g = k false s g
  watch_one-IsGood u file_deleted f s k g =
      k false (close_document u s) (close_document-IsGood u s g)
  watch_one-IsGood u file_changed f s k g = elim (Bool-cases (contains s.open_docs u)) [
    | inr closed ↦ rw closed (k false s g)
    | inl is_open ↦ rw is_open (
        get_document-IsGood u s (λ b s'. reload_changed w u (w.read u) f s') g
          (λ b s' h. reload_changed-IsGood u (w.read u) f s' k h))
  ]

  watch_all-IsGood :
      (cs : List (Bytes × FileChangeType)) (noted : List Bytes) (s : ServerDriver)
      → IsGood s
      → Ends IsGood (watch_all w cs noted s)
  unfolding watch_all
  watch_all-IsGood [] noted s g = update_each-IsGood noted s g
  watch_all-IsGood ((u, type) ∷ cs) noted s g =
      watch_one-IsGood u type (λ note. watch_all w cs (if note then noted ++ u ∷ [] else noted)) s
        (λ note s' h. watch_all-IsGood cs (if note then noted ++ u ∷ [] else noted) s' h) g

  handle-IsGood : (r : Request) (s : ServerDriver) → IsGood s → Ends IsGood (handle w r s)
  unfolding handle on_workspace_did_change_watched_files
  handle-IsGood (opens u text) s g = open_document-IsGood u text s g
  handle-IsGood (changes u cs) s g = on_doc_did_change-IsGood u cs s g
  handle-IsGood (saves u text) s g = on_doc_did_save-IsGood u text s g
  handle-IsGood (closes u) s g = close_document-IsGood u s g
  handle-IsGood (reloads u) s g = reload_document-IsGood u s g
  handle-IsGood (watches cs) s g = watch_all-IsGood cs [] s g

  -- With two rounds of fuel more than the index can name files, or above: from a state in which an
  -- open document is known and the editor shows the diagnostics that are held for each document that
  -- is not marked dirty, every row of openings, edits, saves, closings, reloads and file events, each
  -- of which may end in an exception, ends and leads to such a state, unless one of its edits reaches
  -- past the end of a buffer, on which C++ gives no result.
  pub serve-IsGood : (rs : List Request) (s : ServerDriver) → IsGood s → Ends IsGood (serve w rs s)
  unfolding serve
  serve-IsGood [] s g = g
  serve-IsGood (r ∷ rs) s g =
      resume-Ends IsGood (handle w r s) (serve w rs) (handle-IsGood r s g) (serve-IsGood rs)
