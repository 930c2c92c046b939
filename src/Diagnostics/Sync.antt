-- ===== src/Diagnostics/Sync.antt =====
-- What the editor shows against what the client object of src/ServerDiagClient.cpp holds.
use slang_server.Common.{
  false, ◌||◌, List, [], ◌∷◌, ◌++◌, none, Bytes, equal, equal_iff, if◌then◌else◌, map, remove_if,
  bytes_eq, ◌≡◌, refl, ◌∙◌, arith, any-append,
}
use slang_server.Common.Dict.{find, find-erase}
use slang_server.Diagnostics.Types.{Diagnostic}
use slang_server.Diagnostics.{
  Sent, publish, show_warning, show_error, DiagClient, contains, emplace, current, send, clear_uri,
  publish_empty, key, clear_and_push, emplace_all, clear, push_diags, priority_messages,
  push_diags_first,
}

-- The diagnostics that an editor shows for a URI: those of the last publication, or `ds`.
unfoldable pub view_from : Bytes → List Diagnostic → List Sent → List Diagnostic
view_from u ds [] = ds
view_from u ds (publish v new ∷ log) = view_from u (if equal v u then new else ds) log
view_from u ds (show_warning m ∷ log) = view_from u ds log
view_from u ds (show_error m ∷ log) = view_from u ds log

abbrev pub view : Bytes → DiagClient → List Diagnostic
view u c = view_from u [] c.sent

abbrev pub held : Bytes → DiagClient → List Diagnostic
held u c = current c.diagnostics u

-- A document whose diagnostics the editor does not show as they are is marked dirty.
abbrev pub IsSynced : DiagClient → Type 0
IsSynced c = (u : Bytes) → contains c.dirty u ≡ false → view u c ≡ held u c

pub view_from-append :
    (u : Bytes) (ds : List Diagnostic) (l m : List Sent)
    → view_from u ds (l ++ m) ≡ view_from u (view_from u ds l) m
unfolding view_from
view_from-append u ds [] m = refl
view_from-append u ds (publish v new ∷ l) m = view_from-append u (if equal v u then new else ds) l m
view_from-append u ds (show_warning t ∷ l) m = view_from-append u ds l m
view_from-append u ds (show_error t ∷ l) m = view_from-append u ds l m

-- Publishing `f v` for every `v` of a list sets the view of exactly those.
view_from-map :
    (f : Bytes → List Diagnostic) (u : Bytes) (ds : List Diagnostic) (us : List Bytes)
    → view_from u ds (map (λ v. publish v (f v)) us) ≡ (if contains us u then f u else ds)
unfolding view_from
view_from-map f u ds [] = refl
view_from-map f u ds (v ∷ us) =
    ground (arith, equal_iff v u, view_from-map f u (if equal v u then f v else ds) us)

pub contains-emplace :
    (v u : Bytes) (us : List Bytes) → contains (emplace v us) u ≡ (contains us u || equal v u)
unfolding emplace
contains-emplace v u us = ground (arith, equal_iff v u, any-append (λ w. equal w u) us (v ∷ []))

pub contains-remove_if :
    (v u : Bytes) (us : List Bytes)
    → contains (remove_if (λ w. equal w v) us) u ≡ (if equal v u then false else contains us u)
contains-remove_if v u [] = ground arith
contains-remove_if v u (w ∷ us) =
    ground (arith, equal_iff v u, equal_iff w v, equal_iff w u, contains-remove_if v u us)

contains-emplace_all :
    (u : Bytes) (m : List (Bytes × List Diagnostic)) (us : List Bytes)
    → contains (emplace_all m us) u ≡ (contains us u || contains (map key m) u)
unfolding emplace_all
contains-emplace_all u [] us = ground arith
contains-emplace_all u ((v, ds) ∷ m) us =
    ground (arith, contains-emplace_all u m (emplace v us), contains-emplace v u us)

find-none :
    (u : Bytes) (m : List (Bytes × List Diagnostic))
    → contains (map key m) u ≡ false
    → find u m ≡ none
find-none u [] h = refl
find-none u ((v, ds) ∷ m) h = ground (arith, find-none u m)

pub clear_uri-IsSynced : (v : Bytes) (c : DiagClient) → IsSynced c → IsSynced (clear_uri v c)
unfolding clear_uri
clear_uri-IsSynced v c h u clean =
    ground (arith, contains-emplace v u c.dirty, find-erase v u c.diagnostics, h u)

pub clear-IsSynced : (c : DiagClient) → IsSynced c → IsSynced (clear c)
unfolding clear
clear-IsSynced c h u clean =
    ground (arith, contains-emplace_all u c.diagnostics c.dirty, find-none u c.diagnostics, h u)

-- `pushDiags` leaves the editor with what is held, for every document.
pub push_diags-view : (c : DiagClient) → IsSynced c → (u : Bytes) → view u (push_diags c) ≡ held u c
unfolding push_diags
push_diags-view c h u =
    view_from-append u [] c.sent _
    ∙ view_from-map (current c.diagnostics) u (view u c) c.dirty
    ∙ ground (arith, h u)

priority-view :
    (v u : Bytes) (c : DiagClient)
    → IsSynced c
    → view u (send (priority_messages v c) c) ≡ (if equal v u then held u c else view u c)
unfolding priority_messages view_from
priority-view v u c h =
    view_from-append u [] c.sent (priority_messages v c) ∙ ground (arith, equal_iff v u, h u)

-- `pushDiags(priorityUri)` does so too, with the messages about that document in front.
pub push_diags_first-view :
    (v : Bytes) (c : DiagClient)
    → IsSynced c
    → (u : Bytes) → view u (push_diags_first v c) ≡ held u c
unfolding push_diags_first
push_diags_first-view v c h =
    push_diags-view _
      λ u clean. priority-view v u c h ∙ ground (arith, contains-remove_if v u c.dirty, h u)

-- `clearAndPush` leaves the editor with no diagnostics at all.
pub clear_and_push-view :
    (c : DiagClient) → IsSynced c → (u : Bytes) → view u (clear_and_push c) ≡ []
unfolding clear_and_push
clear_and_push-view c h u =
    view_from-append u [] c.sent _
    ∙ view_from-append u _ (map publish_empty (map key c.diagnostics)) _
    ∙ view_from-map (λ _. []) u _ c.dirty
    ∙ ground (
      arith,
      view_from-map (λ _. []) u (view u c) (map key c.diagnostics),
      find-none u c.diagnostics,
      h u,
    )
