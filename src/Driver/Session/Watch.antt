-- ===== src/Driver/Session/Watch.antt =====
-- The file events and the start of a new driver of src/ServerDriver.cpp, and rows of requests.
use slang_server.Common.{
  Bool, true, false, List, [], ◌∷◌, ◌++◌, Option, none, some, Bytes, bytes_eq, if◌then◌else◌,
}
use slang_server.Common.Dict.{find, assign}
use slang_server.Diagnostics.{contains, emplace, clear_and_push}
use slang_server.SlangDoc.{ContentChange}
use slang_server.Driver.Session.{
  ServerDriver, World, open_update, change_update, Outcome, finished, failed, undefined, exhausted,
  then_do, update_doc, open_document, get_document, on_doc_did_change, on_doc_did_save,
  close_document, reload_document,
}

pub data FileChangeType : Type 0 where
  file_created file_changed file_deleted : FileChangeType

-- What the editor asks of the driver.
pub data Request : Type 0 where
  opens : Bytes → Bytes → Request
  changes : Bytes → List ContentChange → Request
  saves : Bytes → Option Bytes → Request
  closes reloads : Bytes → Request
  watches : List (Bytes × FileChangeType) → Request

-- After an exception, which is answered as an error, the server goes on.
abbrev pub resume : Outcome → (ServerDriver → Outcome) → Outcome
resume (finished s) f = f s
resume (failed s) f = f s
resume undefined f = undefined
resume exhausted f = exhausted

module _ (w : World) where
  abbrev pub update_known : Bytes → Option Bytes → ServerDriver → Outcome
  update_known u none s = finished s
  update_known u (some b) s = update_doc w u b change_update s

  -- The second loop; every document of it is in `docs`.
  unfoldable pub update_each : List Bytes → ServerDriver → Outcome
  update_each [] s = finished s
  update_each (u ∷ us) s = then_do (update_known u (find u s.docs) s) (update_each us)

  -- A changed file: `go_on` is the rest of the first loop, which notes the document or not.
  abbrev pub reload_changed :
      Bytes → Option Bytes → (Bool → ServerDriver → Outcome) → ServerDriver → Outcome
  reload_changed u none go_on s = go_on false s
  reload_changed u (some b) go_on s = go_on true (record s { docs = assign u b s.docs })

  abbrev pub watch_changed : Bytes → (Bool → ServerDriver → Outcome) → ServerDriver → Outcome
  watch_changed u go_on s =
      if contains s.open_docs u
      then get_document w u s (λ b s'. reload_changed u (w.read u) go_on s')
      else go_on false s

  abbrev pub watch_one :
      Bytes → FileChangeType → (Bool → ServerDriver → Outcome) → ServerDriver → Outcome
  watch_one u file_created go_on s = go_on false s
  watch_one u file_changed go_on s = watch_changed u go_on s
  watch_one u file_deleted go_on s = go_on false (close_document u s)

  -- The first loop, with the documents noted so far.
  unfoldable pub watch_all : List (Bytes × FileChangeType) → List Bytes → ServerDriver → Outcome
  unfolding update_each
  watch_all [] noted s = update_each noted s
  watch_all ((u, type) ∷ cs) noted s =
      watch_one u type (λ note. watch_all cs (if note then noted ++ u ∷ [] else noted)) s

  unfoldable pub on_workspace_did_change_watched_files :
      List (Bytes × FileChangeType) → ServerDriver → Outcome
  unfolding watch_all
  on_workspace_did_change_watched_files cs s = watch_all cs [] s

  -- The copy of one open document with its text to the new driver, which has it already or not.
  abbrev pub copy_known : Bytes → Bytes → Option Bytes → ServerDriver → Outcome
  copy_known u text none s = open_document w u text s
  copy_known u text (some b) s =
      update_doc w u b open_update (record s { open_docs = emplace u s.open_docs })

  abbrev pub copy_found : Bytes → Option Bytes → ServerDriver → Outcome
  copy_found u none s = finished s
  copy_found u (some text) s = copy_known u text (find u s.docs) s

  unfoldable pub copy_open_docs : List Bytes → List (Bytes × Bytes) → ServerDriver → Outcome
  copy_open_docs [] old s = finished s
  copy_open_docs (u ∷ us) old s = then_do (copy_found u (find u old) s) (copy_open_docs us old)

  -- `create`, on the driver that the sources of the build make, and what it leaves of the old one.
  unfoldable pub create : ServerDriver → ServerDriver → Outcome × ServerDriver
  unfolding copy_open_docs clear_and_push
  create new old = (
    copy_open_docs old.open_docs old.docs new,
    record old { diag_client = clear_and_push old.diag_client },
  )

  unfoldable pub handle : Request → ServerDriver → Outcome
  handle (opens u text) s = open_document w u text s
  handle (changes u cs) s = on_doc_did_change w u cs s
  handle (saves u text) s = on_doc_did_save w u text s
  handle (closes u) s = finished (close_document u s)
  handle (reloads u) s = reload_document w u s
  handle (watches cs) s = on_workspace_did_change_watched_files cs s

  unfoldable pub serve : List Request → ServerDriver → Outcome
  unfolding handle
  serve [] s = finished s
  serve (r ∷ rs) s = resume (handle r s) (serve rs)
