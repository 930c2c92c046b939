-- ===== src/Indexer/Watched.antt =====
-- `onWorkspaceDidChangeWatchedFiles` of src/Indexer.cpp: when a batch of file events keeps the index
-- coherent.
use slang_server.Common.{
  Bool, true, false, ◌||◌, List, [], ◌∷◌, ◌++◌, Option, none, Bytes, equal, equal_iff,
  if◌then◌else◌, map, is_empty, bytes_eq, ◌≡◌, refl, arith, any-append,
}
use slang_server.Common.Dict.{find}
use slang_server.Indexer.Extract.{Parsed}
use slang_server.Indexer.Coherence.{IsCoherent}
use slang_server.Indexer.{
  Indexer, contains, add_documents, FileChangeType, created, changed, deleted, FileEvent,
  remove_interned, on_change, on_changes, on_watched_files,
}
use slang_server.Indexer.Events.{
  Fresh, find-remove_interned, remove_interned-IsCoherent, add_documents-IsCoherent,
}

-- A created file is not indexed yet.
abbrev pub IsNew : FileChangeType → Bytes → Indexer → Type 0
IsNew created p ix = find p ix.indexed_files ≡ none
IsNew changed p ix = Unit {0}
IsNew deleted p ix = Unit {0}

abbrev pub event_path : FileEvent → Bytes
event_path e = e.path

-- The events are about distinct files, none of which waits to be added, and created files are new.
abbrev pub Ready : Indexer → List Bytes → List FileEvent → Type 0
Ready ix to_add [] = Unit {0}
Ready ix to_add (e ∷ es) =
    IsNew e.type e.path ix
    × (contains e.path to_add ≡ false)
    × (contains e.path (map event_path es) ≡ false)
    × Ready ix to_add es

Fresh-remove_interned :
    (v : Bytes) (ix : Indexer) (ps : List Bytes)
    → IsCoherent ix
    → Fresh ix ps
    → Fresh (remove_interned v ix) ps
Fresh-remove_interned v ix [] c f = tt
Fresh-remove_interned v ix (p ∷ ps) c f =
    (ground (arith, find-remove_interned v p ix c), f.1, Fresh-remove_interned v ix ps c f.2)

IsNew-remove_interned :
    (t : FileChangeType) (v p : Bytes) (ix : Indexer)
    → IsCoherent ix
    → IsNew t p ix
    → IsNew t p (remove_interned v ix)
IsNew-remove_interned created v p ix c n = ground (arith, find-remove_interned v p ix c)
IsNew-remove_interned changed v p ix c n = tt
IsNew-remove_interned deleted v p ix c n = tt

Ready-remove_interned :
    (v : Bytes) (ix : Indexer) (ps : List Bytes) (es : List FileEvent)
    → IsCoherent ix
    → Ready ix ps es
    → Ready (remove_interned v ix) ps es
Ready-remove_interned v ix ps [] c r = tt
Ready-remove_interned v ix ps (e ∷ es) c r = (
  IsNew-remove_interned e.type v e.path ix c r.0,
  r.1,
  r.2,
  Ready-remove_interned v ix ps es c r.3,
)

contains-concat :
    (p v : Bytes) (ps : List Bytes) → contains v (ps ++ p ∷ []) ≡ (contains v ps || equal p v)
contains-concat p v ps = ground (arith, any-append (λ w. equal w v) ps (p ∷ []))

Ready-concat :
    (p : Bytes) (ix : Indexer) (ps : List Bytes) (es : List FileEvent)
    → contains p (map event_path es) ≡ false
    → Ready ix ps es
    → Ready ix (ps ++ p ∷ []) es
Ready-concat p ix ps [] n r = tt
Ready-concat p ix ps (e ∷ es) n r = (
  r.0,
  ground (arith, contains-concat p e.path ps, equal_iff p e.path, equal_iff e.path p),
  r.2,
  Ready-concat p ix ps es (ground arith) r.3,
)

Fresh-concat :
    (p : Bytes) (ix : Indexer) (ps : List Bytes)
    → find p ix.indexed_files ≡ none
    → contains p ps ≡ false
    → Fresh ix ps
    → Fresh ix (ps ++ p ∷ [])
Fresh-concat p ix [] e n f = (e, refl, tt)
Fresh-concat p ix (q ∷ ps) e n f = (
  f.0,
  ground (arith, contains-concat p q ps, equal_iff p q, equal_iff q p),
  Fresh-concat p ix ps e (ground arith) f.2,
)

-- The state of the loop: a coherent index, and distinct paths to add that it does not have.
abbrev Good : Indexer × List Bytes → Type 0
Good (ix, to_add) = IsCoherent ix × Fresh ix to_add

if-Good :
    (b : Bool) (ix : Indexer) (ps qs : List Bytes)
    → Good (ix, ps)
    → Good (ix, qs)
    → Good (ix, if b then ps else qs)
if-Good true ix ps qs h k = h
if-Good false ix ps qs h k = k

on_change-Good :
    (exists : Bytes → Bool) (t : FileChangeType) (p : Bytes) (ix : Indexer) (ps : List Bytes)
    → Good (ix, ps)
    → IsNew t p ix
    → contains p ps ≡ false
    → Good (on_change exists t p (ix, ps))
unfolding on_change
on_change-Good exists created p ix ps (c, f) new n = (c, Fresh-concat p ix ps new n f)
on_change-Good exists changed p ix ps (c, f) new n =
    let c' = remove_interned-IsCoherent p ix c in
    let f' = Fresh-remove_interned p ix ps c f in
    let gone : find p (remove_interned p ix).indexed_files ≡ none =
      ground (arith, find-remove_interned p p ix c, equal_iff p p) in
    if-Good (exists p) (remove_interned p ix) (ps ++ p ∷ []) ps
      (c', Fresh-concat p (remove_interned p ix) ps gone n f') (c', f')
on_change-Good exists deleted p ix ps (c, f) new n =
    (remove_interned-IsCoherent p ix c, Fresh-remove_interned p ix ps c f)

if-Ready :
    (b : Bool) (ix : Indexer) (ps qs : List Bytes) (es : List FileEvent)
    → Ready ix ps es
    → Ready ix qs es
    → Ready ix (if b then ps else qs) es
if-Ready true ix ps qs es h k = h
if-Ready false ix ps qs es h k = k

-- The round leaves the later events ready.
abbrev ReadyState : Indexer × List Bytes → List FileEvent → Type 0
ReadyState (ix, ps) es = Ready ix ps es

on_change-Ready :
    (exists : Bytes → Bool) (t : FileChangeType) (p : Bytes) (ix : Indexer) (ps : List Bytes)
    (es : List FileEvent)
    → IsCoherent ix
    → contains p (map event_path es) ≡ false
    → Ready ix ps es
    → ReadyState (on_change exists t p (ix, ps)) es
unfolding on_change
on_change-Ready exists created p ix ps es c n r = Ready-concat p ix ps es n r
on_change-Ready exists changed p ix ps es c n r =
    let r' = Ready-remove_interned p ix ps es c r in
    if-Ready (exists p) (remove_interned p ix) (ps ++ p ∷ []) ps es
      (Ready-concat p (remove_interned p ix) ps es n r') r'
on_change-Ready exists deleted p ix ps es c n r = Ready-remove_interned p ix ps es c r

on_changes-Good :
    (exists : Bytes → Bool) (es : List FileEvent) (s : Indexer × List Bytes)
    → Good s
    → ReadyState s es
    → Good (on_changes exists es s)
unfolding on_changes
on_changes-Good exists [] s g r = g
on_changes-Good exists (e ∷ es) (ix, ps) g r =
    on_changes-Good exists es (on_change exists e.type e.path (ix, ps))
      (on_change-Good exists e.type e.path ix ps g r.0 r.1)
      (on_change-Ready exists e.type e.path ix ps es g.0 r.2 r.3)

added-IsCoherent :
    (read : Bytes → Option Parsed) (s : Indexer × List Bytes)
    → Good s
    → IsCoherent (if is_empty s.1 then s.0 else add_documents read s.1 s.0)
added-IsCoherent read (ix, []) g = g.0
added-IsCoherent read (ix, p ∷ ps) g = add_documents-IsCoherent read (p ∷ ps) ix g.1 g.0

-- A batch of file events keeps the index coherent, whatever the files now hold, if the events are
-- about distinct files and those reported as created are not indexed yet.
pub on_watched_files-IsCoherent :
    (read : Bytes → Option Parsed) (exists : Bytes → Bool) (es : List FileEvent) (ix : Indexer)
    → Ready ix [] es
    → IsCoherent ix
    → IsCoherent (on_watched_files read exists es ix)
unfolding on_watched_files
on_watched_files-IsCoherent read exists es ix r c =
    added-IsCoherent read (on_changes exists es (ix, []))
      (on_changes-Good exists es (ix, []) (c, tt) r)
