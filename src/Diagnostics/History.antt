-- ===== src/Diagnostics/History.antt =====
-- Any history of calls on the client object of src/ServerDiagClient.cpp.
use slang_server.Common.{
  Bool, true, false, List, [], ◌∷◌, ◌++◌, Option, none, some, Bytes, if◌then◌else◌, bytes_eq, ◌≡◌,
  refl, ◌∙◌, arith,
}
use slang_server.Common.Dict.{find-assign}
use slang_server.Diagnostics.Types.{
  Diagnostic, Engine, ReportedDiagnostic, Location, DiagCode, no_top_modules, command_line_warning,
  command_line_error,
}
use slang_server.Diagnostics.Report.{
  report, report_at, report_code, report_checked, is_note, report_located, record_diagnostic,
  get_location, make_diagnostic,
}
use slang_server.Diagnostics.{
  show_warning, show_error, DiagClient, current, send, clear_uri, clear_and_push, clear, push_diags,
  push_diags_first, fresh,
}
use slang_server.Diagnostics.Sync.{
  view, view_from, held, IsSynced, contains-emplace, view_from-append, clear_uri-IsSynced,
  clear-IsSynced, push_diags-view, push_diags_first-view, clear_and_push-view,
}

record_diagnostic-IsSynced :
    (engine : Engine) (v : Bytes) (d : Diagnostic) (c : DiagClient)
    → IsSynced c
    → IsSynced (record_diagnostic engine v d c)
unfolding record_diagnostic
record_diagnostic-IsSynced engine v d c h u clean = ground (
  arith,
  contains-emplace v u c.dirty,
  find-assign v u (current c.diagnostics v ++ d ∷ []) c.diagnostics,
  h u,
)

send_message-IsSynced :
    (text : Bytes) (c : DiagClient)
    → IsSynced c
    → IsSynced (send (show_warning text ∷ []) c) × IsSynced (send (show_error text ∷ []) c)
unfolding view_from
send_message-IsSynced text c h = (
  λ u clean. view_from-append u [] c.sent (show_warning text ∷ []) ∙ h u clean,
  λ u clean. view_from-append u [] c.sent (show_error text ∷ []) ∙ h u clean,
)

report_at-IsSynced :
    (engine : Engine) (d : ReportedDiagnostic) (main : Option Location) (c : DiagClient)
    → IsSynced c
    → IsSynced (report_at engine d main c)
unfolding report_at
report_at-IsSynced engine d none c h = h
report_at-IsSynced engine d (some main) c h =
    record_diagnostic-IsSynced engine main.uri (make_diagnostic engine d main) c h

report_located-IsSynced :
    (engine : Engine) (d : ReportedDiagnostic) (c : DiagClient)
    → IsSynced c
    → IsSynced (report_located engine d c)
unfolding report_located
report_located-IsSynced engine d c h =
    report_at-IsSynced engine d
      (get_location engine d.location (engine.map_source_ranges d.location d.ranges)) c h

report_code-IsSynced :
    (engine : Engine) (code : DiagCode) (d : ReportedDiagnostic) (c : DiagClient)
    → IsSynced c
    → IsSynced (report_code engine code d c)
unfolding report_code
report_code-IsSynced engine command_line_warning d c h = (send_message-IsSynced d.message c h).0
report_code-IsSynced engine command_line_error d c h = (send_message-IsSynced d.message c h).1
report_code-IsSynced engine _ d c h = report_located-IsSynced engine d c h

skip_note-IsSynced :
    (skip : Bool) (c c' : DiagClient) → IsSynced c → IsSynced c' → IsSynced (if skip then c else c')
skip_note-IsSynced true c c' h k = h
skip_note-IsSynced false c c' h k = k

report-IsSynced :
    (engine : Engine) (code : DiagCode) (d : ReportedDiagnostic) (c : DiagClient)
    → IsSynced c
    → IsSynced (report_checked engine code d c)
unfolding report_checked
report-IsSynced engine no_top_modules d c h = h
report-IsSynced engine code d c h =
    skip_note-IsSynced (is_note engine d.severity) c _ h (report_code-IsSynced engine code d c h)

-- The calls that the server makes on the client object.
pub data Op : Type 0 where
  reports : ReportedDiagnostic → Op
  clears : Bytes → Op
  clears_all clears_and_pushes pushes : Op
  pushes_first : Bytes → Op

unfoldable pub step : Engine → Op → DiagClient → DiagClient
unfolding report clear_uri clear clear_and_push push_diags push_diags_first
step engine (reports d) c = report engine d c
step engine (clears u) c = clear_uri u c
step engine clears_all c = clear c
step engine clears_and_pushes c = clear_and_push c
step engine pushes c = push_diags c
step engine (pushes_first u) c = push_diags_first u c

unfoldable pub run : Engine → List Op → DiagClient → DiagClient
run engine [] c = c
run engine (o ∷ os) c = run engine os (step engine o c)

step-IsSynced :
    (engine : Engine) (o : Op) (c : DiagClient) → IsSynced c → IsSynced (step engine o c)
step-IsSynced engine (reports d) c h = unfold step report in report-IsSynced engine d.code d c h
step-IsSynced engine (clears u) c h = unfold step in clear_uri-IsSynced u c h
step-IsSynced engine clears_all c h = unfold step in clear-IsSynced c h
step-IsSynced engine clears_and_pushes c h = unfold step in λ u clean. clear_and_push-view c h u
step-IsSynced engine pushes c h = unfold step in λ u clean. push_diags-view c h u
step-IsSynced engine (pushes_first v) c h = unfold step in λ u clean. push_diags_first-view v c h u

-- After any calls, an editor shows what is held for each document that is not marked dirty.
pub run-IsSynced :
    (engine : Engine) (ops : List Op) (c : DiagClient) → IsSynced c → IsSynced (run engine ops c)
unfolding run
run-IsSynced engine [] c h = h
run-IsSynced engine (o ∷ ops) c h =
    run-IsSynced engine ops (step engine o c) (step-IsSynced engine o c h)

-- From a fresh client object, any calls and then `pushDiags` leave the editor with exactly the
-- diagnostics that are held, for every document.
pub run-push-view :
    (engine : Engine) (ops : List Op) (u : Bytes)
    → view u (push_diags (run engine ops fresh)) ≡ held u (run engine ops fresh)
run-push-view engine ops u =
    push_diags-view (run engine ops fresh)
      (run-IsSynced engine ops fresh (λ v clean. unfold fresh view_from in refl)) u
