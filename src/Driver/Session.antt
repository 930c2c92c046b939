-- ===== src/Driver/Session.antt =====
-- The documents of src/ServerDriver.cpp from their opening to their closing, with the diagnostics
-- client. A document is its buffer, as its tree is that of the buffer; a URI is its path. What
-- slang, the index and the file system give is the record `World`.
pub mod Keeps
pub mod Ends
pub mod Serve
pub mod Publish
pub mod Text
pub mod Watch
mod Tests
use slang_server.Common.{
  ℕ, Bool, true, false, not, ◌&&◌, ◌||◌, List, [], ◌∷◌, ◌++◌, Option, none, some, Bytes, equal,
  bytes_eq, map, remove_if, if◌then◌else◌,
}
use slang_server.Common.Dict.{find, assign}
use slang_server.Diagnostics.{
  DiagClient, contains, emplace, clear_uri, clear_and_push, push_diags_first,
}
use slang_server.Diagnostics.Types.{Engine, ReportedDiagnostic}
use slang_server.Diagnostics.History.{Op, reports, clears, clears_all, pushes_first, run}
use slang_server.SlangDoc.{
  ContentChange, Edited, edited, out_of_bounds, past_the_end, ensure_null, changed_buffer,
  text_matches,
}
use slang_server.Driver.Dependencies.{
  Tree, Search, Found, found, threw, out_of_fuel, get_dependent_docs,
}

-- `docs`, `m_openDocs`, `diagClient`, and whether there is a compilation.
pub record ServerDriver : Type 0 where
  pub docs : List (Bytes × Bytes)
  pub open_docs : List Bytes
  pub diag_client : DiagClient
  pub has_comp : Bool

-- `parse` makes a buffer's tree, `line_offsets` its line table, `read` reads a file, `find_file` is the
-- index's first file of a name; `shallow` gives the diagnostics of one document from its buffer, `build` those of all
-- documents and the compilation; `fuel` bounds the rounds of a search.
pub record World : Type 0 where
  pub engine : Engine
  pub parse : Bytes → Tree
  pub line_offsets : Bytes → List ℕ
  pub read : Bytes → Option Bytes
  pub find_file : Bytes → Option Bytes
  pub shallow : Bytes → Bytes → List (Bytes × Bytes) → List ReportedDiagnostic
  pub build : List (Bytes × Bytes) → List ReportedDiagnostic
  pub fuel : ℕ

pub data FileUpdateType : Type 0 where
  open_update change_update save_update : FileUpdateType

-- How an operation ends: done, in an exception with what was done before it, with an edit past the
-- end of a buffer, or with the fuel used up.
pub data Outcome : Type 0 where
  finished : ServerDriver → Outcome
  failed : ServerDriver → Outcome
  undefined : Outcome
  exhausted : Outcome

abbrev pub then_do : Outcome → (ServerDriver → Outcome) → Outcome
then_do (finished s) f = f s
then_do (failed s) f = failed s
then_do undefined f = undefined
then_do exhausted f = exhausted

unfoldable pub is_save : FileUpdateType → Bool
is_save save_update = true
is_save _ = false

abbrev pub or_read : Option Bytes → Option Bytes → Option Bytes
or_read none file = file
or_read (some b) file = some b

abbrev pub map_tree : (Bytes → Tree) → Option Bytes → Option Tree
map_tree parse none = none
map_tree parse (some b) = some (parse b)

abbrev pub keep_new :
    Bytes → Option Bytes → Option Bytes → List (Bytes × Bytes) → List (Bytes × Bytes)
keep_new p (some b) file docs = docs
keep_new p none none docs = docs
keep_new p none (some b) docs = assign p b docs

-- `m_openDocs.erase`
abbrev pub close_in : Bytes → List Bytes → List Bytes
close_in u us = remove_if (λ v. equal v u) us

abbrev pub is_known : Option Bytes → Bool
is_known none = false
is_known (some b) = true

abbrev pub has : Bytes → ServerDriver → Bool
has u s = is_known (find u s.docs)

unfoldable pub close_document : Bytes → ServerDriver → ServerDriver
close_document u s = record s {
  open_docs = close_in u s.open_docs;
  diag_client = if s.has_comp then s.diag_client else clear_uri u s.diag_client;
}

module _ (w : World) where
  -- The tree of the document that `getDocument` gives.
  abbrev pub load_tree : List (Bytes × Bytes) → Bytes → Option Tree
  load_tree docs path = map_tree w.parse (or_read (find path docs) (w.read path))

  -- What `getDocument` leaves in `docs`.
  abbrev pub with_doc : Bytes → List (Bytes × Bytes) → List (Bytes × Bytes)
  with_doc path docs = keep_new path (find path docs) (w.read path) docs

  unfoldable pub insert_loaded : List Bytes → List (Bytes × Bytes) → List (Bytes × Bytes)
  unfolding assign
  insert_loaded [] docs = docs
  insert_loaded (p ∷ ps) docs = insert_loaded ps (with_doc p docs)

  -- The calls on the diagnostics client.
  abbrev pub diag_ops : Bytes → Bytes → Bool → List (Bytes × Bytes) → List Op
  diag_ops u b whole docs =
      clears u
      ∷ ((if whole
            then clears_all ∷ map reports (w.build docs)
            else map reports (w.shallow u b docs))
          ++ pushes_first u ∷ [])

  abbrev pub publish_update : Bytes → Bytes → FileUpdateType → ServerDriver → ServerDriver
  publish_update u b type s = record s {
    diag_client = run w.engine (diag_ops u b (s.has_comp && is_save type) s.docs) s.diag_client;
  }

  abbrev pub with_loaded : Search → ServerDriver → ServerDriver
  with_loaded r s = record s { docs = insert_loaded r.result s.docs }

  abbrev pub after_search : Found → Bytes → Bytes → FileUpdateType → ServerDriver → Outcome
  after_search (found r) u b type s = finished (publish_update u b type (with_loaded r s))
  after_search (threw r) u b type s = failed (with_loaded r s)
  after_search out_of_fuel u b type s = exhausted

  -- `updateDoc` of the document `u` with buffer `b`. The search that the diagnostics start once more
  -- finds the same documents, as a file that was read is in `docs` now.
  unfoldable pub update_doc : Bytes → Bytes → FileUpdateType → ServerDriver → Outcome
  unfolding insert_loaded is_save
  update_doc u b type s =
      after_search (get_dependent_docs w.find_file (load_tree s.docs) w.fuel (w.parse b)) u b type s

  abbrev pub track : Bytes → ServerDriver → Outcome
  track u s = finished (record s { open_docs = emplace u s.open_docs })

  -- The document `uri` is made of the text.
  abbrev pub open_new : Bytes → Bytes → ServerDriver → Outcome
  open_new u text s =
      update_doc u (ensure_null text) open_update
        (record s { docs = assign u (ensure_null text) s.docs })

  abbrev pub open_found : Bytes → Bytes → Option Bytes → ServerDriver → Outcome
  open_found u text none s = open_new u text s
  open_found u text (some b) s =
      let same = if s.has_comp then finished s else update_doc u b open_update s in
      if text_matches b text then same else open_new u text s

  unfoldable pub open_document : Bytes → Bytes → ServerDriver → Outcome
  unfolding update_doc text_matches emplace
  open_document u text s = then_do (open_found u text (find u s.docs) s) (track u)

  -- `getDocument`, and what is done with the buffer that it gives.
  abbrev pub with_document :
      Bytes → Option Bytes → ServerDriver → (Bytes → ServerDriver → Outcome) → Outcome
  with_document u none s f = failed s
  with_document u (some b) s f = f b (record s { docs = with_doc u s.docs })

  abbrev pub get_document : Bytes → ServerDriver → (Bytes → ServerDriver → Outcome) → Outcome
  get_document u s f = with_document u (or_read (find u s.docs) (w.read u)) s f

  -- Where the texts differ, the document that was found reads its buffer anew for the update, as the
  -- one that it read is replaced.
  abbrev pub save_text : Bytes → Option Bytes → Bytes → ServerDriver → Outcome
  save_text u none b s = update_doc u b save_update s
  save_text u (some text) b s =
      let same = update_doc u b save_update s in
      let saved = update_doc u (ensure_null text) save_update in
      let overwritten = then_do (open_document u text s) saved in
      if text_matches b text then same else overwritten

  -- `onDocDidSave` of src/SlangServer.cpp, but for the index.
  unfoldable pub on_doc_did_save : Bytes → Option Bytes → ServerDriver → Outcome
  unfolding update_doc open_document text_matches
  on_doc_did_save u text s =
      let saved = get_document u s (save_text u text) in
      if contains s.open_docs u then saved else finished s

  abbrev pub changed : Bytes → Edited → ServerDriver → Outcome
  changed u (edited b) s = update_doc u b change_update (record s { docs = assign u b s.docs })
  changed u out_of_bounds s = failed s
  changed u past_the_end s = undefined

  abbrev pub change_all : Bytes → List ContentChange → Bytes → ServerDriver → Outcome
  change_all u [] b s = update_doc u b change_update s
  change_all u (c ∷ cs) b s = changed u (changed_buffer w.line_offsets b c cs) s

  unfoldable pub on_doc_did_change : Bytes → List ContentChange → ServerDriver → Outcome
  unfolding update_doc
  on_doc_did_change u cs s = get_document u s (change_all u cs)

  -- What a new read gives is the document's buffer; a failed read changes nothing.
  abbrev pub reload :
      Bytes → Option Bytes → ServerDriver → (Bytes → ServerDriver → Outcome) → Outcome
  reload u none s f = finished s
  reload u (some b) s f = f b (record s { docs = assign u b s.docs })

  unfoldable pub reload_document : Bytes → ServerDriver → Outcome
  unfolding update_doc
  reload_document u s =
      if contains s.open_docs u
      then get_document u s
          (λ b s'. reload u (w.read u) s' (λ b' s''. update_doc u b' change_update s''))
      else finished s
