-- ===== src/Diagnostics/Tests.antt =====
-- Runs of the diagnostic client of src/ServerDiagClient.cpp, and instances of its theorems.
use slang_server.Common.{ℕ, true, List, [], ◌∷◌, ◌≡◌, refl, codes, map}
use slang_server.Diagnostics.Types.{
  SourceLocation, warning, analysis, unused_net, no_top_modules, command_line_error,
  ReportedDiagnostic, Diagnostic, Engine,
}
use slang_server.Diagnostics.Sync.{view, view_from, held, IsSynced}
use slang_server.Diagnostics.History.{
  Op, reports, clears, pushes, step, run, run-IsSynced, run-push-view,
}
use slang_server.Diagnostics.{push_diags, fresh}

-- Buffer 9 is no buffer; the file of buffer `b` has the one-byte URI `b`, all on one line.
abbrev toy : Engine
toy = record {
  no_location = record { buffer = 9; offset = 0 };
  map_source_ranges = λ loc rs. rs;
  to_location = λ r. record {
    uri = r.start.buffer ∷ [];
    range = record {
      start = record { line = 0; character = r.start.offset };
      stop = record { line = 0; character = r.stop.offset };
    };
  };
  loc_to_location = λ l. record {
    uri = l.buffer ∷ [];
    range = record {
      start = record { line = 0; character = l.offset };
      stop = record { line = 0; character = l.offset };
    };
  };
  fully_original_loc = λ l. l;
  format_message = λ n. [];
  show_note_with_no_location = λ c. true;
  option_name = λ c. codes "unused-net";
  from_web = λ s. s;
}

abbrev loc : ℕ → ℕ → SourceLocation
loc b o = record { buffer = b; offset = o }

abbrev unused : ReportedDiagnostic
unused = record {
  code = analysis unused_net;
  severity = warning;
  location = loc 1 20;
  ranges =
      record { start = loc 1 12; stop = loc 1 14 }
      ∷ record { start = loc 2 0; stop = loc 2 1 }
      ∷ [];
  expansion_locs = [];
  message = codes "unused net";
  notes = [];
}

abbrev no_tops : ReportedDiagnostic
no_tops = record unused { code = no_top_modules }

abbrev with_message : ReportedDiagnostic
with_message = record unused { code = command_line_error }

abbrev history : List Op
history =
    reports unused
    ∷ reports no_tops
    ∷ reports with_message
    ∷ pushes
    ∷ clears (1 ∷ [])
    ∷ reports unused
    ∷ []

abbrev columns : Diagnostic → ℕ × ℕ
columns d = (d.range.start.character, d.range.stop.character)

-- The range is joined with the location, and the range in the other buffer is dropped.
reported : map columns (held (1 ∷ []) (run toy history fresh)) ≡ (12, 20) ∷ []
unfolding run step fresh
reported = refl

history-IsSynced : IsSynced (run toy history fresh)
history-IsSynced = run-IsSynced toy history fresh (λ u clean. unfold fresh view_from in refl)

run-IsSynced_example : IsSynced (run toy history fresh)
run-IsSynced_example = run-IsSynced toy history fresh (λ u clean. unfold fresh view_from in refl)

run-push-view_example :
    view (1 ∷ []) (push_diags (run toy history fresh)) ≡ held (1 ∷ []) (run toy history fresh)
run-push-view_example = run-push-view toy history (1 ∷ [])
