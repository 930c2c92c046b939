-- ===== src/Driver/Tests.antt =====
-- A search of `getDependentDocs` of src/ServerDriver.cpp on two packages that refer to each other.
use slang_server.Common.{
  Bool, true, false, List, [], ◌∷◌, Option, none, some, Bytes, equal, codes, if◌then◌else◌, ◌≡◌,
  refl, arith,
}
use mathlib.Core.Path.{subst}
use mathlib.Core.Option.{some-injective, none-ne-some}
use slang_server.Driver.Dependencies.{Tree, mem, get_dependent_docs}
use slang_server.Driver.Invariant.{Bounded, Ensures}
use slang_server.Driver.Closure.{Complete, get_dependent_docs-Complete}

abbrev find_file : Bytes → Option Bytes
find_file name =
    if equal name (codes "p")
    then some (codes "p.sv")
    else if equal name (codes "q")
    then some (codes "q.sv")
    else none

abbrev load : Bytes → Option Tree
load path =
    if equal path (codes "p.sv")
    then some (record {
      declared = codes "p" ∷ [];
      referenced = codes "q" ∷ codes "gone" ∷ [];
      is_library = true;
    })
    else if equal path (codes "q.sv")
    then some (record { declared = codes "q" ∷ []; referenced = codes "p" ∷ []; is_library = true })
    else none

abbrev top : Tree
top = record {
  declared = codes "m" ∷ [];
  referenced = codes "p" ∷ codes "m" ∷ [];
  is_library = false;
}

abbrev files : List Bytes
files = codes "p.sv" ∷ codes "q.sv" ∷ []

bounded_at :
    (p q : Bool) (path : Bytes)
    → (if p then some (codes "p.sv") else if q then some (codes "q.sv") else none) ≡ some path
    → mem path files ≡ true
bounded_at true q path h =
    subst (λ x. mem x files ≡ true) (some-injective (codes "p.sv") path h) refl
bounded_at false true path h =
    subst (λ x. mem x files ≡ true) (some-injective (codes "q.sv") path h) refl
bounded_at false false path h = absurd (none-ne-some path h)

files-Bounded : Bounded find_file load files
files-Bounded name path h = bounded_at (equal name (codes "p")) (equal name (codes "q")) path h

get_dependent_docs-Complete_example :
    Ensures find_file load files
      (Complete find_file load files top)
      (get_dependent_docs find_file load 4 top)
get_dependent_docs-Complete_example =
    get_dependent_docs-Complete find_file load files 4 top files-Bounded (omega arith)
