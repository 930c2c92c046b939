-- ===== src/Driver/Session/Ends.antt =====
-- How the operations on the documents of src/ServerDriver.cpp end, when the fuel is enough.
use slang_server.Common.{◌+◌, ◌<◌, List, Bytes, length, none}
use slang_server.Driver.Invariant.{Bounded}
use slang_server.Driver.Session.{
  ServerDriver, World, FileUpdateType, Outcome, finished, failed, undefined, exhausted, then_do,
  update_doc,
}
use slang_server.Driver.Session.Watch.{resume}
use slang_server.Driver.Session.Keeps.{Always, IsGood, Updated, Updated-IsGood, update_doc-Updated}
use slang_server.Driver.Session.Text.{EndsWith, Left, update_doc-Left}

-- An operation ends, in an exception or not, and its state is so; or an edit reached past the end of
-- a buffer, on which C++ gives no result. It does not use up its fuel.
abbrev pub Ends : (ServerDriver → Type 0) → Outcome → Type 0
Ends P (finished s) = P s
Ends P (failed s) = P s
Ends P undefined = Unit {0}
Ends P exhausted = ⊥

pub then_do-Ends :
    (P Q : ServerDriver → Type 0) (r : Outcome) (f : ServerDriver → Outcome)
    → Ends P r
    → ((s : ServerDriver) → P s → Q s)
    → ((s : ServerDriver) → P s → Ends Q (f s))
    → Ends Q (then_do r f)
then_do-Ends P Q (finished s) f h k l = l s h
then_do-Ends P Q (failed s) f h k l = k s h
then_do-Ends P Q undefined f h k l = tt
then_do-Ends P Q exhausted f h k l = elim h [ ]

pub Ends-mono :
    (P Q : ServerDriver → Type 0) (r : Outcome)
    → Ends P r
    → ((s : ServerDriver) → P s → Q s)
    → Ends Q r
Ends-mono P Q (finished s) h k = k s h
Ends-mono P Q (failed s) h k = k s h
Ends-mono P Q undefined h k = tt
Ends-mono P Q exhausted h k = elim h [ ]

pub resume-Ends :
    (P : ServerDriver → Type 0) (r : Outcome) (f : ServerDriver → Outcome)
    → Ends P r
    → ((s : ServerDriver) → P s → Ends P (f s))
    → Ends P (resume r f)
resume-Ends P (finished s) f h k = k s h
resume-Ends P (failed s) f h k = k s h
resume-Ends P undefined f h k = tt
resume-Ends P exhausted f h k = elim h [ ]

Always-Ends : (P Q : ServerDriver → Type 0) (r : Outcome) → Always P r → EndsWith Q r → Ends P r
Always-Ends P Q (finished s) h k = h
Always-Ends P Q (failed s) h k = h
Always-Ends P Q undefined h k = tt
Always-Ends P Q exhausted h k = k

module _ (w : World) (files : List Bytes) (bounded : Bounded w.find_file (λ p. none) files)
    (enough : 1 + length files < w.fuel) where
  pub update_doc-Ends :
      (u b : Bytes) (type : FileUpdateType) (s : ServerDriver)
      → Ends (Updated s) (update_doc w u b type s)
  update_doc-Ends u b type s =
      Always-Ends (Updated s) (Left w files bounded enough s) (update_doc w u b type s)
        (update_doc-Updated w u b type s) (update_doc-Left w files bounded enough u b type s)

  pub update_doc-IsGood :
      (u b : Bytes) (type : FileUpdateType) (s : ServerDriver)
      → IsGood s
      → Ends IsGood (update_doc w u b type s)
  update_doc-IsGood u b type s g =
      Ends-mono (Updated s) IsGood (update_doc w u b type s) (update_doc-Ends u b type s)
        (λ s' k. Updated-IsGood s s' g k)
