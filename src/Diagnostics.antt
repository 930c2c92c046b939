-- ===== src/Diagnostics.antt =====
-- src/ServerDiagClient.cpp and include/ServerDiagClient.h: the diagnostics of each document, the
-- documents whose diagnostics the editor has not seen yet, and the messages sent to the editor.
-- The sets' and the maps' order of iteration is that of the lists here.
pub mod Types
pub mod Report
pub mod Sync
pub mod History
mod Tests
use slang_server.Common.{
  ℕ, Bool, true, false, List, [], ◌∷◌, ◌++◌, Option, none, some, Bytes, equal, if◌then◌else◌, map,
  any, remove_if, bytes_eq,
}
use slang_server.Common.Dict.{find, assign, erase}
use Types.{Diagnostic}

-- What the client object is asked to send.
pub data Sent : Type 0 where
  publish : Bytes → List Diagnostic → Sent
  show_warning : Bytes → Sent
  show_error : Bytes → Sent

-- `m_diagnostics`, `m_dirtyUris` and the messages sent so far. A URI is its text.
pub record DiagClient : Type 0 where
  pub diagnostics : List (Bytes × List Diagnostic)
  pub dirty : List Bytes
  pub sent : List Sent

abbrev pub contains : List Bytes → Bytes → Bool
contains us u = any (λ v. equal v u) us

-- `m_dirtyUris.emplace(uri)`
unfoldable pub emplace : Bytes → List Bytes → List Bytes
emplace u us = if contains us u then us else us ++ u ∷ []

abbrev pub or_empty : Option (List Diagnostic) → List Diagnostic
or_empty none = []
or_empty (some ds) = ds

-- What `pushDiags` publishes for a URI: its diagnostics, or the empty list.
abbrev pub current : List (Bytes × List Diagnostic) → Bytes → List Diagnostic
current m u = or_empty (find u m)

abbrev pub send : List Sent → DiagClient → DiagClient
send messages c = record c { sent = c.sent ++ messages }

unfoldable pub clear_uri : Bytes → DiagClient → DiagClient
unfolding emplace erase
clear_uri u c = record c { diagnostics = erase u c.diagnostics; dirty = emplace u c.dirty }

abbrev pub publish_empty : Bytes → Sent
publish_empty u = publish u []

abbrev pub key : Bytes × List Diagnostic → Bytes
key (u, ds) = u

unfoldable pub clear_and_push : DiagClient → DiagClient
clear_and_push c = record {
  diagnostics = [];
  dirty = [];
  sent = c.sent ++ (map publish_empty (map key c.diagnostics) ++ map publish_empty c.dirty);
}

-- `m_dirtyUris.emplace` for each key of the map.
unfoldable pub emplace_all : List (Bytes × List Diagnostic) → List Bytes → List Bytes
unfolding emplace
emplace_all [] us = us
emplace_all ((u, ds) ∷ m) us = emplace_all m (emplace u us)

unfoldable pub clear : DiagClient → DiagClient
unfolding emplace_all
clear c = record c { diagnostics = []; dirty = emplace_all c.diagnostics c.dirty }

unfoldable pub push_diags : DiagClient → DiagClient
push_diags c = record c {
  dirty = [];
  sent = c.sent ++ map (λ u. publish u (current c.diagnostics u)) c.dirty;
}

-- The messages that `pushDiags(priorityUri)` sends first.
unfoldable pub priority_messages : Bytes → DiagClient → List Sent
priority_messages u c = elim (find u c.diagnostics) [
  | some ds ↦ publish u ds ∷ []
  | none ↦ if contains c.dirty u then publish u [] ∷ [] else []
]

unfoldable pub push_diags_first : Bytes → DiagClient → DiagClient
unfolding push_diags priority_messages
push_diags_first u c =
    let c' = send (priority_messages u c) c in
    push_diags (record c' { dirty = remove_if (λ v. equal v u) c'.dirty })

-- A fresh client object.
unfoldable pub fresh : DiagClient
fresh = record { diagnostics = []; dirty = []; sent = [] }
