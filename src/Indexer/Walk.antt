-- ===== src/Indexer/Walk.antt =====
-- The walk over the file system that fills the index, of src/Indexer.cpp. What the file system holds is
-- a parameter: the entries of a directory with those of the directories in it, in the order of
-- `recursive_directory_iterator`; so are the functions of `std::filesystem` on a path, and `svGlob`.
use slang_server.Common.{
  Bool, true, false, not, ◌&&◌, ◌||◌, List, [], ◌∷◌, ◌++◌, Option, none, some, Bytes, codes, equal,
  ◌==◌, any, any-append, if◌then◌else◌, ◌≡◌, refl, sym, ap, ◌∙◌, arith, Bool-cases, inl, inr,
}
use slang_server.Indexer.Extract.{Parsed}
use slang_server.Indexer.{Indexer, add_documents}

-- Entries that stand side by side: a file, which is regular or not, or a directory with its entries.
pub data Entries : Type 0 where
  no_more : Entries
  file : Bytes → Bool → Entries → Entries
  directory : Bytes → Entries → Entries → Entries

abbrev pub is_prefix : Bytes → Bytes → Bool
is_prefix [] s = true
is_prefix (c ∷ p) [] = false
is_prefix (c ∷ p) (d ∷ s) = (c == d) && is_prefix p s

-- `path.find(dir) != npos`
unfoldable pub occurs : Bytes → Bytes → Bool
occurs dir [] = is_prefix dir []
occurs dir (c ∷ s) = is_prefix dir (c ∷ s) || occurs dir s

unfoldable pub is_excluded : Bytes → List Bytes → Bool
unfolding occurs
is_excluded path exclude_dirs = any (λ dir. occurs dir path) exclude_dirs

-- An `IndexConfig`.
pub record IndexConfig : Type 0 where
  pub dirs : List Bytes
  pub exclude_dirs : Option (List Bytes)

abbrev pub or_nothing : Option (List Bytes) → List Bytes
or_nothing none = []
or_nothing (some dirs) = dirs

module _ (extension : Bytes → Bytes) where
  unfoldable pub is_system_verilog_file : Bytes → Bool
  is_system_verilog_file path =
      let e = extension path in
      equal e (codes ".sv")
      || equal e (codes ".svh")
      || equal e (codes ".v")
      || equal e (codes ".vh")

  -- The loop of `collectFilesFromDirectory`.
  unfoldable pub collect_files : List Bytes → Entries → List Bytes
  unfolding is_excluded is_system_verilog_file
  collect_files exclude_dirs no_more = []
  collect_files exclude_dirs (file path regular rest) =
      let more = collect_files exclude_dirs rest in
      if regular && is_system_verilog_file path then path ∷ more else more
  collect_files exclude_dirs (directory path inner rest) =
      let inside = collect_files exclude_dirs inner in
      let more = collect_files exclude_dirs rest in
      if is_excluded path exclude_dirs then more else inside ++ more

  -- `none` where there is no such directory.
  abbrev pub collect_from : List Bytes → Option Entries → List Bytes
  collect_from exclude_dirs none = []
  collect_from exclude_dirs (some entries) = collect_files exclude_dirs entries

  module _ (entries_at : Bytes → Option Entries) (is_absolute : Bytes → Bool)
      (joined : Bytes → Bytes → Bytes) where
    abbrev pub in_workspace : List Bytes → Option Bytes → Bytes → List Bytes
    in_workspace exclude_dirs none dir = []
    in_workspace exclude_dirs (some folder) dir =
        collect_from exclude_dirs (entries_at (joined folder dir))

    -- One directory of a configuration.
    unfoldable pub collect_dir : List Bytes → Option Bytes → Bytes → List Bytes
    unfolding collect_files
    collect_dir exclude_dirs workspace dir =
        if is_absolute dir
        then collect_from exclude_dirs (entries_at dir)
        else in_workspace exclude_dirs workspace dir

    abbrev pub collect_dirs : List Bytes → Option Bytes → List Bytes → List Bytes
    collect_dirs exclude_dirs workspace [] = []
    collect_dirs exclude_dirs workspace (dir ∷ dirs) =
        collect_dir exclude_dirs workspace dir ++ collect_dirs exclude_dirs workspace dirs

    unfoldable pub collect_configs : Option Bytes → List IndexConfig → List Bytes
    unfolding collect_dir
    collect_configs workspace [] = []
    collect_configs workspace (cfg ∷ cfgs) =
        collect_dirs (or_nothing cfg.exclude_dirs) workspace cfg.dirs
        ++ collect_configs workspace cfgs

    abbrev pub whole_workspace : Option Bytes → List Bytes
    whole_workspace none = []
    whole_workspace (some folder) = collect_from [] (entries_at folder)

    abbrev pub paths_to_index : List IndexConfig → Option Bytes → List Bytes
    paths_to_index [] workspace = whole_workspace workspace
    paths_to_index (cfg ∷ cfgs) workspace = collect_configs workspace (cfg ∷ cfgs)

    -- `startIndexing`, but for the estimate of the memory, which is only logged.
    unfoldable pub start_indexing :
        (Bytes → Option Parsed) → List IndexConfig → Option Bytes → Indexer → Indexer
    unfolding collect_configs add_documents
    start_indexing read configs workspace ix =
        add_documents read (paths_to_index configs workspace) ix

-- A file with the directories above it, from the root of the walk down, and whether it is regular.
pub record Found : Type 0 where
  pub path : Bytes
  pub above : List Bytes
  pub is_regular : Bool

-- Every file of the tree.
abbrev pub files_below : List Bytes → Entries → List Found
files_below above no_more = []
files_below above (file path regular rest) =
    record { path = path; above = above; is_regular = regular } ∷ files_below above rest
files_below above (directory path inner rest) =
    files_below (above ++ path ∷ []) inner ++ files_below above rest

abbrev pub select : (Found → Bool) → List Found → List Bytes
select p [] = []
select p (f ∷ fs) = let rest = select p fs in if p f then f.path ∷ rest else rest

select-append :
    (p : Found → Bool) (fs gs : List Found) → select p (fs ++ gs) ≡ select p fs ++ select p gs
select-append p [] gs = refl
select-append p (f ∷ fs) gs = ground (arith, select-append p fs gs)

module _ (extension : Bytes → Bytes) (exclude_dirs : List Bytes) where
  -- A regular SystemVerilog file of which no directory above is excluded.
  abbrev pub wanted : Found → Bool
  wanted f =
      f.is_regular
      && is_system_verilog_file extension f.path
      && not (any (λ dir. is_excluded dir exclude_dirs) f.above)

  -- Below an excluded directory nothing is wanted.
  select-excluded :
      (above : List Bytes) (entries : Entries)
      → any (λ dir. is_excluded dir exclude_dirs) above ≡ true
      → select wanted (files_below above entries) ≡ []
  select-excluded above no_more h = refl
  select-excluded above (file path regular rest) h = ground (arith, h, select-excluded above rest h)
  select-excluded above (directory path inner rest) h =
      select-append wanted (files_below (above ++ path ∷ []) inner) (files_below above rest)
      ∙ ap (λ x. x ++ select wanted (files_below above rest))
          (select-excluded (above ++ path ∷ []) inner
            (ground (arith, h, any-append (λ dir. is_excluded dir exclude_dirs) above (path ∷ []))))
      ∙ select-excluded above rest h

  collect_files-below :
      (above : List Bytes) (entries : Entries)
      → any (λ dir. is_excluded dir exclude_dirs) above ≡ false
      → collect_files extension exclude_dirs entries ≡ select wanted (files_below above entries)
  unfolding collect_files
  collect_files-below above no_more h = refl
  collect_files-below above (file path regular rest) h =
      ground (arith, h, collect_files-below above rest h)
  collect_files-below above (directory path inner rest) h =
      let split =
        select-append wanted (files_below (above ++ path ∷ []) inner) (files_below above rest) in
      elim (Bool-cases (is_excluded path exclude_dirs)) [
        | inl out ↦ rw out (
            collect_files-below above rest h
            ∙ ap (λ x. x ++ select wanted (files_below above rest))
                (sym (
                  select-excluded (above ++ path ∷ []) inner (
                    ground (
                      arith,
                      out,
                      any-append (λ dir. is_excluded dir exclude_dirs) above (path ∷ []),
                    ))))
            ∙ sym split)
        | inr kept ↦ rw kept (
            ap (λ x. x ++ collect_files extension exclude_dirs rest)
              (collect_files-below (above ++ path ∷ []) inner (
                ground (
                  arith,
                  h,
                  kept,
                  any-append (λ dir. is_excluded dir exclude_dirs) above (path ∷ []),
                )))
            ∙ ap (λ x. select wanted (files_below (above ++ path ∷ []) inner) ++ x)
                (collect_files-below above rest h)
            ∙ sym split)
      ]

  -- The walk that does not enter excluded directories collects, in the same order, what is left of
  -- all files of the tree when only the regular SystemVerilog files are kept that have no excluded
  -- directory above them.
  pub collect_files-select :
      (entries : Entries)
      → collect_files extension exclude_dirs entries ≡ select wanted (files_below [] entries)
  collect_files-select entries = collect_files-below [] entries refl
