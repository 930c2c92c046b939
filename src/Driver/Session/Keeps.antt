-- ===== src/Driver/Session/Keeps.antt =====
-- What every operation on the documents of src/ServerDriver.cpp keeps.
use slang_server.Common.{
  Bool, true, false, List, [], ◌∷◌, Option, none, some, Bytes, equal, equal_iff, bytes_eq,
  if◌then◌else◌, ◌≡◌, refl, sym, ap, ◌∙◌, arith, Bool-cases, Option-cases, inl, inr,
}
use mathlib.Core.Path.{subst}
use slang_server.Common.Dict.{find, assign, find-assign}
use slang_server.Diagnostics.{DiagClient, contains, emplace, clear_uri}
use slang_server.Diagnostics.Sync.{
  IsSynced, contains-emplace, contains-remove_if, clear_uri-IsSynced,
}
use slang_server.Diagnostics.History.{run-IsSynced}
use slang_server.Driver.Dependencies.{Found, found, threw, out_of_fuel, get_dependent_docs}
use slang_server.Driver.Session.{
  ServerDriver, World, FileUpdateType, Outcome, finished, failed, undefined, exhausted, then_do,
  is_known, has, keep_new, with_doc, insert_loaded, after_search, load_tree, update_doc,
  close_document,
}

abbrev Docs : Type 0
Docs = List (Bytes × Bytes)

-- The documents that were there have the text that they had.
abbrev pub KeepsDocs : Docs → Docs → Type 0
KeepsDocs docs docs' = (u b : Bytes) → find u docs ≡ some b → find u docs' ≡ some b

pub keep_new-KeepsDocs :
    (p : Bytes) (o file : Option Bytes) (docs : Docs)
    → find p docs ≡ o
    → KeepsDocs docs (keep_new p o file docs)
keep_new-KeepsDocs p (some c) file docs e u b h = h
keep_new-KeepsDocs p none none docs e u b h = h
keep_new-KeepsDocs p none (some c) docs e u b h = elim (Bool-cases (equal p u)) [
  | inl same ↦ let q : p ≡ u = (equal_iff p u).0 same in absurd (cc (rw q at e, h))
  | inr other ↦ find-assign p u c docs ∙ rw other h
]

-- The state after an operation, however it ends.
abbrev pub Always : (ServerDriver → Type 0) → Outcome → Type 0
Always P (finished s) = P s
Always P (failed s) = P s
Always P undefined = Unit {0}
Always P exhausted = Unit {0}

pub then_do-Always :
    (P Q : ServerDriver → Type 0) (r : Outcome) (f : ServerDriver → Outcome)
    → Always P r
    → ((s : ServerDriver) → P s → Q s)
    → ((s : ServerDriver) → P s → Always Q (f s))
    → Always Q (then_do r f)
then_do-Always P Q (finished s) f h k l = l s h
then_do-Always P Q (failed s) f h k l = k s h
then_do-Always P Q undefined f h k l = tt
then_do-Always P Q exhausted f h k l = tt

pub Always-mono :
    (P Q : ServerDriver → Type 0) (r : Outcome)
    → Always P r
    → ((s : ServerDriver) → P s → Q s)
    → Always Q r
Always-mono P Q (finished s) h k = k s h
Always-mono P Q (failed s) h k = k s h
Always-mono P Q undefined h k = tt
Always-mono P Q exhausted h k = tt

-- An open document is known, and the editor shows what the diagnostics client holds for each
-- document that is not marked dirty.
pub record IsGood (s : ServerDriver) : Type 0 where
  pub open_known : (u : Bytes) → contains s.open_docs u ≡ true → has u s ≡ true
  pub synced : IsSynced s.diag_client

-- What an update of a document changes.
pub record Updated (s s' : ServerDriver) : Type 0 where
  pub keeps_docs : KeepsDocs s.docs s'.docs
  pub keeps_open : s'.open_docs ≡ s.open_docs
  pub keeps_synced : IsSynced s.diag_client → IsSynced s'.diag_client

pub known_kept :
    (u : Bytes) (docs docs' : Docs)
    → KeepsDocs docs docs'
    → is_known (find u docs) ≡ true
    → is_known (find u docs') ≡ true
known_kept u docs docs' k h = elim (Option-cases (find u docs)) [
  | inl e ↦ absurd (cc (rw e at h))
  | inr (b, e) ↦ rw (k u b e) refl
]

pub Updated-IsGood : (s s' : ServerDriver) → IsGood s → Updated s s' → IsGood s'
Updated-IsGood s s' g k = record {
  open_known = λ u h.
      known_kept u s.docs s'.docs k.keeps_docs
        (g.open_known u (ap (λ os. contains os u) (sym k.keeps_open) ∙ h));
  synced = k.keeps_synced g.synced;
}

assign-known :
    (u v b : Bytes) (docs : Docs)
    → is_known (find v docs) ≡ true
    → is_known (find v (assign u b docs)) ≡ true
assign-known u v b docs h = elim (Bool-cases (equal u v)) [
  | inl same ↦ rw (find-assign u v b docs, same) refl
  | inr other ↦ rw (find-assign u v b docs, other) h
]

pub assign-IsGood :
    (u b : Bytes) (s : ServerDriver) → IsGood s → IsGood (record s { docs = assign u b s.docs })
assign-IsGood u b s g = record {
  open_known = λ v h. assign-known u v b s.docs (g.open_known v h);
  synced = g.synced;
}

pub track-IsGood :
    (u : Bytes) (s : ServerDriver)
    → IsGood s
    → has u s ≡ true
    → IsGood (record s { open_docs = emplace u s.open_docs })
track-IsGood u s g k = record {
  open_known = λ v h. elim (Bool-cases (equal u v)) [
    | inl same ↦ subst (λ x. has x s ≡ true) ((equal_iff u v).0 same) k
    | inr other ↦ g.open_known v (ground (arith, contains-emplace u v s.open_docs, h, other))
  ];
  synced = g.synced;
}

either-IsSynced :
    (b : Bool) (c c' : DiagClient) → IsSynced c → IsSynced c' → IsSynced (if b then c else c')
either-IsSynced true c c' h k = h
either-IsSynced false c c' h k = k

pub close_document-IsGood : (u : Bytes) (s : ServerDriver) → IsGood s → IsGood (close_document u s)
unfolding close_document
close_document-IsGood u s g = record {
  open_known = λ v h. g.open_known v (ground (arith, contains-remove_if u v s.open_docs, h));
  synced =
      either-IsSynced s.has_comp s.diag_client (clear_uri u s.diag_client) g.synced
        (clear_uri-IsSynced u s.diag_client g.synced);
}

module _ (w : World) where
  pub with_doc-KeepsDocs : (p : Bytes) (docs : Docs) → KeepsDocs docs (with_doc w p docs)
  with_doc-KeepsDocs p docs = keep_new-KeepsDocs p (find p docs) (w.read p) docs refl

  pub insert_loaded-KeepsDocs :
      (ps : List Bytes) (docs : Docs) → KeepsDocs docs (insert_loaded w ps docs)
  unfolding insert_loaded
  insert_loaded-KeepsDocs [] docs u b h = h
  insert_loaded-KeepsDocs (p ∷ ps) docs u b h =
      insert_loaded-KeepsDocs ps (with_doc w p docs) u b (with_doc-KeepsDocs p docs u b h)

  after_search-Updated :
      (r : Found) (u b : Bytes) (type : FileUpdateType) (s : ServerDriver)
      → Always (Updated s) (after_search w r u b type s)
  after_search-Updated (found r) u b type s = record {
    keeps_docs = insert_loaded-KeepsDocs r.result s.docs;
    keeps_open = refl;
    keeps_synced = λ h. run-IsSynced w.engine _ s.diag_client h;
  }
  after_search-Updated (threw r) u b type s = record {
    keeps_docs = insert_loaded-KeepsDocs r.result s.docs;
    keeps_open = refl;
    keeps_synced = λ h. h;
  }
  after_search-Updated out_of_fuel u b type s = tt

  -- However the update of a document ends, in an exception too, the known documents keep their text,
  -- the same documents are open, and the editor shows what is held where nothing is marked dirty.
  pub update_doc-Updated :
      (u b : Bytes) (type : FileUpdateType) (s : ServerDriver)
      → Always (Updated s) (update_doc w u b type s)
  unfolding update_doc
  update_doc-Updated u b type s =
      after_search-Updated (get_dependent_docs w.find_file (load_tree w s.docs) w.fuel (w.parse b))
        u b type s
