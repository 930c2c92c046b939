-- ===== src/Diagnostics/Report.antt =====
-- `convertSeverity`, `isUnusedCode` and `ServerDiagClient::report` of src/ServerDiagClient.cpp. The
-- messages that only go to the server's own log are left out.
use slang_server.Common.{
  Bool, true, false, not, List, [], ◌∷◌, ◌++◌, Option, none, some, Bytes, ◌==◌, ltb, if◌then◌else◌,
  is_empty, bytes_eq, codes,
}
use slang_server.Common.Dict.{assign}
use slang_server.Diagnostics.Types.{
  SourceLocation, SourceRange, Location, DiagnosticSeverity, ignored, note, warning, error, fatal,
  LspSeverity, lsp_error, lsp_warning, lsp_information, lsp_hint, other_analysis, DiagCode,
  no_top_modules, command_line_warning, command_line_error, analysis, Note, ReportedDiagnostic,
  RelatedInformation, Diagnostic, Engine,
}
use slang_server.Diagnostics.{show_warning, show_error, DiagClient, emplace, current, send}

unfoldable pub convert_severity : DiagnosticSeverity → LspSeverity
convert_severity ignored = lsp_hint
convert_severity note = lsp_information
convert_severity warning = lsp_warning
convert_severity error = lsp_error
convert_severity fatal = lsp_error

unfoldable pub is_unused_code : DiagCode → Bool
is_unused_code (analysis (other_analysis n)) = false
is_unused_code (analysis c) = true
is_unused_code c = false

-- slang's order of locations: by buffer, then by offset.
unfoldable pub loc_lt : SourceLocation → SourceLocation → Bool
loc_lt a b = if a.buffer == b.buffer then ltb a.offset b.offset else ltb a.buffer b.buffer

-- `std::min` and `std::max`
unfoldable pub loc_min : SourceLocation → SourceLocation → SourceLocation
unfolding loc_lt
loc_min a b = if loc_lt b a then b else a

unfoldable pub loc_max : SourceLocation → SourceLocation → SourceLocation
unfolding loc_lt
loc_max a b = if loc_lt a b then b else a

-- One round of the loop that collapses the ranges of one buffer.
unfoldable pub join_range : SourceRange → SourceRange → SourceRange
unfolding loc_min loc_max
join_range total r =
    if r.start.buffer == total.start.buffer
    then record { start = loc_min total.start r.start; stop = loc_max total.stop r.stop }
    else total

unfoldable pub collapse : SourceRange → List SourceRange → SourceRange
unfolding join_range
collapse total [] = total
collapse total (r ∷ rs) = collapse (join_range total r) rs

-- The location itself joins the collapsed range if it lies in the same buffer.
unfoldable pub join_location : SourceLocation → SourceRange → SourceRange
unfolding loc_min loc_max
join_location loc total =
    if loc.buffer == total.start.buffer
    then record { start = loc_min total.start loc; stop = loc_max total.stop loc }
    else total

module _ (engine : Engine) where
  open engine use {
    no_location, map_source_ranges, to_location, loc_to_location, fully_original_loc,
    format_message, show_note_with_no_location, option_name, from_web,
  }

  abbrev pub has_location : SourceLocation → Bool
  has_location loc = not (loc.buffer == no_location.buffer)

  -- The lambda `getLocation`.
  unfoldable pub get_location : SourceLocation → List SourceRange → Option Location
  unfolding collapse join_location
  get_location loc [] = if has_location loc then some (loc_to_location loc) else none
  get_location loc (r ∷ rs) =
      let total = collapse r rs in
      some (to_location (if has_location loc then join_location loc total else total))

  abbrev pub prepend : Option Location → Bytes → List RelatedInformation → List RelatedInformation
  prepend none message related = related
  prepend (some l) message related = record { location = l; message = message } ∷ related

  -- The loop over the macro expansions, from the last to the first: `done` is what stands behind.
  unfoldable pub expansion_notes :
      ReportedDiagnostic → List SourceLocation → List RelatedInformation → List RelatedInformation
  unfolding get_location
  expansion_notes d [] done = done
  expansion_notes d (loc ∷ locs) done = expansion_notes d locs (
      prepend (get_location (fully_original_loc loc) (map_source_ranges loc d.ranges)) d.message
        done)

  abbrev pub same_location : SourceLocation → SourceLocation → Bool
  same_location a b = if a.buffer == b.buffer then a.offset == b.offset else false

  -- The loop over the notes of the diagnostic.
  unfoldable pub note_related : Location → List Note → List RelatedInformation
  note_related main [] = []
  note_related main (n ∷ ns) =
      (if same_location n.location no_location
        then if show_note_with_no_location n.code
          then record { location = main; message = format_message n } ∷ []
          else []
        else record { location = loc_to_location n.location; message = format_message n } ∷ [])
      ++ note_related main ns

  abbrev pub or_none : List RelatedInformation → Option (List RelatedInformation)
  or_none [] = none
  or_none (r ∷ rs) = some (r ∷ rs)

  -- The diagnostic with its code link and its tag, if the engine has an option name for it.
  unfoldable pub make_diagnostic : ReportedDiagnostic → Location → Diagnostic
  unfolding convert_severity is_unused_code expansion_notes note_related
  make_diagnostic d main =
      let name = option_name d.code in
      record {
        range = main.range;
        severity = convert_severity d.severity;
        message = d.message;
        related = or_none (expansion_notes d d.expansion_locs [] ++ note_related main d.notes);
        code = if is_empty name then none else some name;
        href =
            if is_empty name
            then none
            else some (from_web (codes "sv-lang.com/warning-ref.html#" ++ name));
        unnecessary = if is_empty name then false else is_unused_code d.code;
      }

  -- `m_dirtyUris.emplace(uri)` and `m_diagnostics[uri].push_back(…)`.
  unfoldable pub record_diagnostic : Bytes → Diagnostic → DiagClient → DiagClient
  unfolding emplace assign
  record_diagnostic u d c = record c {
    diagnostics = assign u (current c.diagnostics u ++ d ∷ []) c.diagnostics;
    dirty = emplace u c.dirty;
  }

  abbrev pub is_note : DiagnosticSeverity → Bool
  is_note note = true
  is_note s = false

  unfoldable pub report_at : ReportedDiagnostic → Option Location → DiagClient → DiagClient
  report_at d none c = c
  report_at d (some main) c = record_diagnostic main.uri (make_diagnostic d main) c

  -- The part of `report` behind the early returns.
  unfoldable pub report_located : ReportedDiagnostic → DiagClient → DiagClient
  unfolding report_at get_location make_diagnostic record_diagnostic
  report_located d c =
      report_at d (get_location d.location (map_source_ranges d.location d.ranges)) c

  unfoldable pub report_code : DiagCode → ReportedDiagnostic → DiagClient → DiagClient
  report_code command_line_warning d c = send (show_warning d.message ∷ []) c
  report_code command_line_error d c = send (show_error d.message ∷ []) c
  report_code _ d c = report_located d c

  unfoldable pub report_checked : DiagCode → ReportedDiagnostic → DiagClient → DiagClient
  report_checked no_top_modules d c = c
  report_checked code d c = if is_note d.severity then c else report_code code d c

  unfoldable pub report : ReportedDiagnostic → DiagClient → DiagClient
  unfolding report_located report_checked report_code
  report d c = report_checked d.code d c
