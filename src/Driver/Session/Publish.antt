-- ===== src/Driver/Session/Publish.antt =====
-- What the editor shows after an update of a document of src/ServerDriver.cpp.
use slang_server.Common.{List, [], ◌∷◌, ◌++◌, Bytes, ◌≡◌, refl, sym}
use mathlib.Core.Path.{subst}
use slang_server.Diagnostics.{DiagClient}
use slang_server.Diagnostics.Types.{Engine}
use slang_server.Diagnostics.Sync.{view, held, IsSynced, push_diags_first-view}
use slang_server.Diagnostics.History.{Op, clears, pushes_first, step, run, run-IsSynced}
use slang_server.Driver.Dependencies.{Found, found, threw, out_of_fuel, get_dependent_docs}
use slang_server.Driver.Session.{
  ServerDriver, World, FileUpdateType, Outcome, finished, failed, undefined, exhausted, load_tree,
  after_search, update_doc,
}

-- The editor shows what the diagnostics client holds.
abbrev pub IsShown : DiagClient → Type 0
IsShown c = (v : Bytes) → view v c ≡ held v c

abbrev pub Published : Outcome → Type 0
Published (finished s) = IsShown s.diag_client
Published (failed s) = Unit {0}
Published undefined = Unit {0}
Published exhausted = Unit {0}

run-append :
    (engine : Engine) (a b : List Op) (c : DiagClient)
    → run engine (a ++ b) c ≡ run engine b (run engine a c)
unfolding run
run-append engine [] b c = refl
run-append engine (o ∷ a) b c = run-append engine a b (step engine o c)

pushed :
    (engine : Engine) (u : Bytes) (ops : List Op) (c : DiagClient)
    → IsSynced c
    → IsShown (run engine (ops ++ pushes_first u ∷ []) c)
unfolding run step
pushed engine u ops c h =
    subst IsShown (sym (run-append engine ops (pushes_first u ∷ []) c))
      (push_diags_first-view u (run engine ops c) (run-IsSynced engine ops c h))

after_search-Published :
    (w : World) (r : Found) (u b : Bytes) (type : FileUpdateType) (s : ServerDriver)
    → IsSynced s.diag_client
    → Published (after_search w r u b type s)
after_search-Published w (found r) u b type s h = pushed w.engine u (clears u ∷ _) s.diag_client h
after_search-Published w (threw r) u b type s h = tt
after_search-Published w out_of_fuel u b type s h = tt

-- If the editor showed what was held for each document not marked dirty, then after an update of
-- a document that ends without an exception, on opening, editing or saving, it shows for every
-- document exactly the diagnostics that the client object holds.
pub update_doc-Published :
    (w : World) (u b : Bytes) (type : FileUpdateType) (s : ServerDriver)
    → IsSynced s.diag_client
    → Published (update_doc w u b type s)
unfolding update_doc
update_doc-Published w u b type s h =
    after_search-Published w
      (get_dependent_docs w.find_file (load_tree w s.docs) w.fuel (w.parse b)) u b type s h
