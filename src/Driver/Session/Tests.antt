-- ===== src/Driver/Session/Tests.antt =====
-- Instances of the theorems on the documents of src/ServerDriver.cpp: two files, of which the index names
-- one that is gone.
use slang_server.Common.{
  Bool, true, false, List, [], ◌∷◌, ◌++◌, Option, none, some, Bytes, codes, equal, bytes_eq,
  if◌then◌else◌, ◌≡◌, refl, arith,
}
use mathlib.Core.Path.{subst}
use mathlib.Core.Option.{some-injective, none-ne-some}
use slang_server.SlangDoc.Positions.{
  line_starts, line_starts-KnowsLines, lsp_offset, is_ascii_line, feed_return,
}
use slang_server.Diagnostics.{fresh}
use slang_server.Diagnostics.Sync.{view_from}
use slang_server.Diagnostics.Types.{Engine}
use slang_server.SlangDoc.{ContentChange, partial, whole, ends_null, ensure_null}
use slang_server.SlangDoc.Edits.{AllFit}
use slang_server.Driver.Dependencies.{Tree, mem, get_dependent_docs}
use slang_server.Driver.Invariant.{Bounded}
use slang_server.Driver.Session.{on_doc_did_save, save_update}
use slang_server.Driver.Session.{
  ServerDriver, World, Outcome, failed, update_doc, insert_loaded, open_document, on_doc_did_change,
}
use slang_server.Driver.Session.Watch.{opens, changes, closes, watches, file_changed, create, serve}
use slang_server.Driver.Session.Keeps.{IsGood}
use slang_server.Driver.Session.Ends.{Ends}
use slang_server.Driver.Session.Publish.{Published, update_doc-Published}
use slang_server.Driver.Session.Serve.{serve-IsGood}
use slang_server.Driver.Session.Text.{on_doc_did_save-HasText}
use slang_server.Driver.Session.Text.{
  EndsWith, HasText, Opened, open_document-Opened, on_doc_did_change-apply_changes, Still,
  create-Still,
}

-- An engine without a mapping of locations.
abbrev flat : Engine
flat = record {
  no_location = record { buffer = 9; offset = 0 };
  map_source_ranges = λ loc rs. rs;
  to_location = λ r. record {
    uri = r.start.buffer ∷ [];
    range = record {
      start = record { line = 0; character = 0 };
      stop = record { line = 0; character = 0 };
    };
  };
  loc_to_location = λ l. record {
    uri = l.buffer ∷ [];
    range = record {
      start = record { line = 0; character = 0 };
      stop = record { line = 0; character = 0 };
    };
  };
  fully_original_loc = λ l. l;
  format_message = λ n. [];
  show_note_with_no_location = λ c. true;
  option_name = λ c. [];
  from_web = λ t. t;
}

abbrev top : Bytes
top = codes "use gone"

abbrev tree_of : Bytes → Tree
tree_of b = record {
  declared = [];
  referenced = if equal b (top ++ 0 ∷ []) then codes "gone" ∷ [] else [];
  is_library = false;
}

abbrev indexed : Bytes → Option Bytes
indexed name = if equal name (codes "gone") then some (codes "gone.sv") else none

abbrev files : List Bytes
files = codes "gone.sv" ∷ []

abbrev world : World
world = record {
  engine = flat;
  parse = tree_of;
  line_offsets = line_starts;
  read = λ p. if equal p (codes "a.sv") then some (codes "old" ++ 0 ∷ []) else none;
  find_file = indexed;
  shallow = λ u b docs. [];
  build = λ docs. [];
  fuel = 3;
}

indexed_at :
    (gone : Bool) (path : Bytes)
    → (if gone then some (codes "gone.sv") else none) ≡ some path
    → mem path files ≡ true
indexed_at true path h =
    subst (λ x. mem x files ≡ true) (some-injective (codes "gone.sv") path h) refl
indexed_at false path h = absurd (none-ne-some path h)

world-Bounded : Bounded world.find_file (λ p. none) files
world-Bounded name path h = indexed_at (equal name (codes "gone")) path h

abbrev empty_driver : ServerDriver
empty_driver = record { docs = []; open_docs = []; diag_client = fresh; has_comp = false }

abbrev with_old : ServerDriver
with_old = record {
  docs = (codes "a.sv", codes "old" ++ 0 ∷ []) ∷ [];
  open_docs = [];
  diag_client = fresh;
  has_comp = true;
}

-- The editor has a new text, which is not saved.
abbrev with_new : ServerDriver
with_new = record {
  docs = (codes "a.sv", codes "new" ++ 0 ∷ []) ∷ [];
  open_docs = codes "a.sv" ∷ [];
  diag_client = fresh;
  has_comp = false;
}

empty_driver-IsGood : IsGood empty_driver
empty_driver-IsGood = record {
  open_known = λ u h. cc h;
  synced = λ v clean. unfold fresh view_from in refl;
}

serve-IsGood_example : Ends IsGood (
    serve world
      (opens (codes "t.sv") top
        ∷ changes (codes "a.sv") (whole (codes "new") ∷ [])
        ∷ closes (codes "t.sv")
        ∷ watches ((codes "a.sv", file_changed) ∷ [])
        ∷ [])
      empty_driver)
serve-IsGood_example =
    serve-IsGood world files world-Bounded (omega arith)
      (opens (codes "t.sv") top
        ∷ changes (codes "a.sv") (whole (codes "new") ∷ [])
        ∷ closes (codes "t.sv")
        ∷ watches ((codes "a.sv", file_changed) ∷ [])
        ∷ [])
      empty_driver empty_driver-IsGood

abbrev open_after : Outcome → Option (List Bytes)
open_after (failed s) = some s.open_docs
open_after _ = none

-- The index names a file that is gone: the document is not open after its opening.
gone_file : open_after (open_document world (codes "t.sv") top empty_driver) ≡ some []
unfolding open_document update_doc get_dependent_docs insert_loaded ensure_null
gone_file = refl

open_document-Opened_example :
    Opened (codes "t.sv") (top ++ 0 ∷ []) [] (open_document world (codes "t.sv") top empty_driver)
open_document-Opened_example =
    open_document-Opened world files world-Bounded (omega arith) (codes "t.sv") top empty_driver
      (unfold ends_null in refl)

-- The first letter becomes another, then the whole text is new.
abbrev letter : ContentChange
letter =
    partial
      (record {
        start = record { line = 0; character = 0 };
        stop = record { line = 0; character = 1 };
      })
      (codes "c")

letter-AllFit : AllFit (codes "old") (letter ∷ whole (codes "new") ∷ [])
letter-AllFit =
    unfold feed_return line_starts lsp_offset is_ascii_line ends_null in
    ((refl, (0, refl, refl), (0, refl, refl), omega arith), (refl, tt))

on_doc_did_change-apply_changes_example :
    EndsWith
      (λ s. HasText (codes "a.sv") (codes "new" ++ 0 ∷ []) s × (s.open_docs ≡ []))
      (on_doc_did_change world (codes "a.sv") (letter ∷ whole (codes "new") ∷ []) with_old)
on_doc_did_change-apply_changes_example =
    on_doc_did_change-apply_changes world files world-Bounded (omega arith) (codes "a.sv")
      (codes "old") letter (whole (codes "new") ∷ []) with_old line_starts-KnowsLines refl
      letter-AllFit

create-Still_example :
    Still (codes "a.sv") (codes "old" ++ 0 ∷ []) (create world with_old with_new).0
create-Still_example =
    create-Still world (codes "a.sv") (codes "old" ++ 0 ∷ []) with_old with_new refl

on_doc_did_save-HasText_example :
    EndsWith
      (HasText (codes "a.sv") (codes "saved" ++ 0 ∷ []))
      (on_doc_did_save world (codes "a.sv") (some (codes "saved")) with_new)
on_doc_did_save-HasText_example =
    on_doc_did_save-HasText world files world-Bounded (omega arith) (codes "a.sv") (codes "saved")
      (codes "new" ++ 0 ∷ []) with_new refl refl (unfold ends_null in refl)

update_doc-Published_example :
    Published (update_doc world (codes "a.sv") (codes "new" ++ 0 ∷ []) save_update with_new)
update_doc-Published_example =
    update_doc-Published world (codes "a.sv") (codes "new" ++ 0 ∷ []) save_update with_new
      (λ v clean. unfold fresh view_from in refl)
