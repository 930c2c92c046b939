-- ===== src/Driver/Dependencies.antt =====
-- `ServerDriver::getDependentDocs` of src/ServerDriver.cpp: the files that a document needs, found
-- by a queue of trees. `find_file` is the path of `Indexer::getFirstSymbolLoc`; `load` is the tree of
-- the document that `getDocument` gives for a path, or none where opening it throws.
use slang_server.Common.{
  ℕ, zero, suc, Bool, List, [], ◌∷◌, ◌++◌, Option, none, some, Bytes, equal, if◌then◌else◌, any,
}

-- The names that a tree declares, those that it refers to, in their order, and whether one of its
-- declarations is a package or an interface.
pub record Tree : Type 0 where
  pub declared : List Bytes
  pub referenced : List Bytes
  pub is_library : Bool

abbrev pub mem : Bytes → List Bytes → Bool
mem x xs = any (λ y. equal y x) xs

-- `knownNames`, `processedFiles`, `result` as the paths of its documents, and `treesToProcess`.
pub record Search : Type 0 where
  pub known : List Bytes
  pub processed : List Bytes
  pub result : List Bytes
  pub queue : List Tree

-- How the search ends; an exception leaves what was done before.
pub data Found : Type 0 where
  found : Search → Found
  threw : Search → Found
  out_of_fuel : Found

abbrev pub then_search : Found → (Search → Found) → Found
then_search (found s) f = f s
then_search (threw s) f = threw s
then_search out_of_fuel f = out_of_fuel

module _ (find_file : Bytes → Option Bytes) (load : Bytes → Option Tree) where
  abbrev pub add_file : Bytes → Option Tree → Search → Found
  add_file path none s = threw (record s { processed = path ∷ s.processed })
  add_file path (some tree) s = found (record s {
    processed = path ∷ s.processed;
    result = s.result ++ path ∷ [];
    queue = if tree.is_library then s.queue ++ tree ∷ [] else s.queue;
  })

  abbrev pub load_file : Option Bytes → Search → Found
  load_file none s = found s
  load_file (some path) s = if mem path s.processed then found s else add_file path (load path) s

  -- The lambda `loadDependency`.
  unfoldable pub load_dependency : Bytes → Search → Found
  load_dependency name s =
      if mem name s.known
      then found s
      else load_file (find_file name) (record s { known = name ∷ s.known })

  unfoldable pub load_dependencies : List Bytes → Search → Found
  unfolding load_dependency
  load_dependencies [] s = found s
  load_dependencies (name ∷ names) s =
      then_search (load_dependency name s) (load_dependencies names)

  -- One round: the tree at the front of the queue, which has left it.
  unfoldable pub visit_tree : Tree → Search → Found
  unfolding load_dependencies
  visit_tree tree s =
      load_dependencies tree.referenced (record s { known = tree.declared ++ s.known })

  -- The rest of the loop is `again`.
  abbrev pub next_tree : List Tree → Search → (Search → Found) → Found
  next_tree [] s again = found s
  next_tree (tree ∷ rest) s again = then_search (visit_tree tree (record s { queue = rest })) again

  unfoldable pub search_queue : ℕ → Search → Found
  unfolding visit_tree
  search_queue zero s = out_of_fuel
  search_queue (suc fuel) s = next_tree s.queue s (search_queue fuel)

  unfoldable pub get_dependent_docs : ℕ → Tree → Found
  unfolding search_queue
  get_dependent_docs fuel tree =
      search_queue fuel (record { known = []; processed = []; result = []; queue = tree ∷ [] })
