-- ===== src/Driver/Closure.antt =====
-- What the search of `getDependentDocs` of src/ServerDriver.cpp finds, and that it ends.
use slang_server.Common.{
  ℕ, zero, suc, ◌+◌, ◌≤◌, ◌<◌, true, false, List, [], ◌∷◌, ◌++◌, Option, none, some, Bytes, equal,
  equal_iff, length, ◌≡◌, inl, inr, refl, sym, ap, arith, Bool-cases,
}
use mathlib.Core.Path.{subst}
use slang_server.Driver.Dependencies.{
  Tree, mem, Search, Found, add_file, load_file, load_dependency, load_dependencies, visit_tree,
  next_tree, search_queue, get_dependent_docs,
}
use slang_server.Driver.Trees.{
  In, known_append, length-grown, mem-add, mem_of_append, moved, settled, unmoved, unseen-length,
  unseen-lt,
}
use slang_server.Driver.Invariant.{
  cost, Provided, Origin, Inv, Ensures, Ensures-then_search, Ensures-mono, Keeps, Bounded,
  Provided-visit, Inv-known, with_file, Inv-with_file,
}

module _ (find_file : Bytes → Option Bytes) (load : Bytes → Option Tree) (files : List Bytes) where
  -- A step keeps the search sound and brings the name that it looks up.
  abbrev Brings : Tree → List Tree → Search → Bytes → Search → Type 0
  Brings start V s name s' = Keeps find_file load files start V s s' × (mem name s'.known ≡ true)

  Keeps-trans :
      (start : Tree) (V : List Tree) (s u v : Search)
      → Keeps find_file load files start V s u
      → Keeps find_file load files start V u v
      → Keeps find_file load files start V s v
  Keeps-trans start V s u v a b = record {
    inv = b.inv;
    cheaper = omega (arith, a.cheaper, b.cheaper);
    remembers = λ n h. b.remembers n (a.remembers n h);
  }

  known_again :
      (name n : Bytes) (known : List Bytes) → mem n known ≡ true → mem n (name ∷ known) ≡ true
  known_again name n known h = ground (arith, h)

  known_now : (name : Bytes) (known : List Bytes) → mem name (name ∷ known) ≡ true
  known_now name known = ground (arith, (equal_iff name name).1 refl)

  Brings-known :
      (start : Tree) (V : List Tree) (s : Search) (name : Bytes)
      → Inv find_file load files start V s
      → Provided find_file load files V s.result name
      → Brings start V s name (record s { known = name ∷ s.known })
  Brings-known start V s name i p = (
    record {
      inv = Inv-known find_file load files start V s name i p;
      cheaper = omega arith;
      remembers = λ n h. known_again name n s.known h;
    },
    known_now name s.known,
  )

  cost-with_file :
      (path : Bytes) (t : Tree) (s : Search)
      → mem path s.processed ≡ false
      → mem path files ≡ true
      → cost find_file load files (with_file find_file load files path t s)
        ≤ cost find_file load files s
  cost-with_file path t s new f =
      omega (arith, length-grown t.is_library t s.queue, unseen-lt path s.processed files new f)

  Brings-add_file :
      (start : Tree) (V : List Tree) (s : Search) (name path : Bytes) (o : Option Tree)
      → load path ≡ o
      → find_file name ≡ some path
      → mem path s.processed ≡ false
      → mem path files ≡ true
      → Inv find_file load files start V s
      → Ensures find_file load files
          (Brings start V s name)
          (add_file find_file load path o (record s { known = name ∷ s.known }))
  Brings-add_file start V s name path none l e new f i = (name, path, e, l)
  Brings-add_file start V s name path (some t) l e new f i =
      let p : Provided find_file load files V (s.result ++ path ∷ []) name =
        inr (inr (path, e, mem-add path s.result path (inr ((equal_iff path path).1 refl)))) in
      let j = Inv-with_file find_file load files start V s path t l i in
      (
        record {
          inv =
              Inv-known find_file load files start V (with_file find_file load files path t s) name
                j p;
          cheaper = cost-with_file path t s new f;
          remembers = λ n h. known_again name n s.known h;
        },
        known_now name s.known,
      )

  Brings-load_file :
      (start : Tree) (V : List Tree) (s : Search) (name : Bytes) (o : Option Bytes)
      → Bounded find_file load files
      → find_file name ≡ o
      → Inv find_file load files start V s
      → Ensures find_file load files
          (Brings start V s name)
          (load_file find_file load o (record s { known = name ∷ s.known }))
  Brings-load_file start V s name none b e i = Brings-known start V s name i (inr (inl e))
  Brings-load_file start V s name (some path) b e i = elim (Bool-cases (mem path s.processed)) [
    | inl old ↦
        rw old (Brings-known start V s name i (inr (inr (path, e, i.processed_ok path old))))
    | inr new ↦
        rw new (Brings-add_file start V s name path (load path) refl e new (b name path e) i)
  ]

  load_dependency-Brings :
      (start : Tree) (V : List Tree) (s : Search) (name : Bytes)
      → Bounded find_file load files
      → Inv find_file load files start V s
      → Ensures find_file load files (Brings start V s name) (load_dependency find_file load name s)
  unfolding load_dependency
  load_dependency-Brings start V s name b i = elim (Bool-cases (mem name s.known)) [
    | inl known ↦ rw known (record { inv = i; cheaper = omega arith; remembers = λ n h. h }, known)
    | inr unknown ↦ rw unknown (Brings-load_file start V s name (find_file name) b refl i)
  ]

  abbrev AllKnown : List Bytes → Search → Type 0
  AllKnown names s = (n : Bytes) → mem n names ≡ true → mem n s.known ≡ true

  load_dependencies-AllKnown :
      (start : Tree) (V : List Tree) (names : List Bytes) (s : Search)
      → Bounded find_file load files
      → Inv find_file load files start V s
      → Ensures find_file load files
          (λ s'. Keeps find_file load files start V s s' × AllKnown names s')
          (load_dependencies find_file load names s)
  unfolding load_dependencies
  load_dependencies-AllKnown start V [] s b i =
      (record { inv = i; cheaper = omega arith; remembers = λ n h. h }, λ n h. cc h)
  load_dependencies-AllKnown start V (name ∷ names) s b i =
      Ensures-then_search find_file load files (Brings start V s name)
        (λ s'. Keeps find_file load files start V s s' × AllKnown (name ∷ names) s')
        (load_dependency find_file load name s) (load_dependencies find_file load names)
        (load_dependency-Brings start V s name b i)
        (λ u (k, now).
          Ensures-mono find_file load files
            (λ s'. Keeps find_file load files start V u s' × AllKnown names s')
            (λ s'. Keeps find_file load files start V s s' × AllKnown (name ∷ names) s')
            (load_dependencies find_file load names u)
            (load_dependencies-AllKnown start V names u b k.inv)
            (λ s' (k', all). (
              Keeps-trans start V s u s' k k',
              λ n h. elim (Bool-cases (equal name n)) [
                | inl same ↦
                    k'.remembers n
                      (subst (λ x. mem x u.known ≡ true) ((equal_iff name n).0 same) now)
                | inr other ↦ all n (ground (arith, h, other))
              ],
            )))

  -- The names that the visited trees refer to are known.
  abbrev pub Closed : List Tree → Search → Type 0
  Closed V s = (t : Tree) → In t V → AllKnown t.referenced s

  -- The front of the queue is visited.
  Inv-visit :
      (start : Tree) (V : List Tree) (s : Search) (tree : Tree) (rest : List Tree)
      → s.queue ≡ tree ∷ rest
      → Inv find_file load files start V s
      → Inv find_file load files start
          (tree ∷ V)
          (record s { queue = rest; known = tree.declared ++ s.known })
  Inv-visit start V s tree rest e i = record {
    known_ok = λ n h. elim (mem_of_append n tree.declared s.known h) [
      | inl d ↦ inl (tree, inl refl, d)
      | inr k ↦ Provided-visit find_file load files tree V s.result n (i.known_ok n k)
    ];
    processed_ok = i.processed_ok;
    library_ok = λ p u m l b. moved u tree V s.queue rest e (i.library_ok p u m l b);
    start_ok = moved start tree V s.queue rest e i.start_ok;
    origin = λ t h. i.origin t (unmoved t tree V s.queue rest e h);
  }

  -- Where the search ends.
  abbrev Ends : Tree → Search → Type 0
  Ends start s = (V : List Tree) × Inv find_file load files start V s × Closed V s × (s.queue ≡ [])

  abbrev Shrinks : Tree → List Tree → Search → Tree → Search → Type 0
  Shrinks start V s tree s' =
      Inv find_file load files start (tree ∷ V) s'
      × Closed (tree ∷ V) s'
      × (cost find_file load files s' < cost find_file load files s)

  visit_tree-Shrinks :
      (start : Tree) (V : List Tree) (s : Search) (tree : Tree) (rest : List Tree)
      → Bounded find_file load files
      → s.queue ≡ tree ∷ rest
      → Inv find_file load files start V s
      → Closed V s
      → Ensures find_file load files
          (Shrinks start V s tree)
          (visit_tree find_file load tree (record s { queue = rest }))
  unfolding visit_tree
  visit_tree-Shrinks start V s tree rest b e i c =
      let u : Search = record s { queue = rest; known = tree.declared ++ s.known } in
      Ensures-mono find_file load files
        (λ s'. Keeps find_file load files start (tree ∷ V) u s' × AllKnown tree.referenced s')
        (Shrinks start V s tree) (load_dependencies find_file load tree.referenced u)
        (load_dependencies-AllKnown start (tree ∷ V) tree.referenced u b
          (Inv-visit start V s tree rest e i))
        (λ s' (k, all). (
          k.inv,
          λ t h. elim h [
            | inl same ↦ subst (λ x. AllKnown x.referenced s') (sym same) all
            | inr old ↦ λ n m. k.remembers n (known_append n tree.declared s.known (c t old n m))
          ],
          let l : length s.queue ≡ suc (length rest) = ap length e in omega (arith, l, k.cheaper),
        ))

  next_tree-Ends :
      (fuel : ℕ) (q : List Tree) (start : Tree) (V : List Tree) (s : Search)
      (again : Search → Found)
      → Bounded find_file load files
      → cost find_file load files s < suc fuel
      → s.queue ≡ q
      → Inv find_file load files start V s
      → Closed V s
      → ((W : List Tree) (u : Search)
          → cost find_file load files u < fuel
          → Inv find_file load files start W u
          → Closed W u
          → Ensures find_file load files (Ends start) (again u))
      → Ensures find_file load files (Ends start) (next_tree find_file load q s again)
  next_tree-Ends fuel [] start V s again b f e i c h = (V, i, c, e)
  next_tree-Ends fuel (tree ∷ rest) start V s again b f e i c h =
      Ensures-then_search find_file load files (Shrinks start V s tree) (Ends start)
        (visit_tree find_file load tree (record s { queue = rest })) again
        (visit_tree-Shrinks start V s tree rest b e i c)
        (λ u (j, d, less). h (tree ∷ V) u (omega (arith, less, f)) j d)

  search_queue-Ends :
      (fuel : ℕ) (start : Tree) (V : List Tree) (s : Search)
      → Bounded find_file load files
      → cost find_file load files s < fuel
      → Inv find_file load files start V s
      → Closed V s
      → Ensures find_file load files (Ends start) (search_queue find_file load fuel s)
  unfolding search_queue
  search_queue-Ends zero start V s b f i c = absurd (omega (arith, f))
  search_queue-Ends (suc fuel) start V s b f i c =
      next_tree-Ends fuel s.queue start V s (search_queue find_file load fuel) b f refl i c
        (λ W u. search_queue-Ends fuel start W u b)

  -- The trees that are visited, of which `start` is one and the others are those of the packages and
  -- interfaces in the result; each name that they refer to is provided.
  abbrev pub Complete : Tree → Search → Type 0
  Complete start s =
      (V : List Tree) × In start V
      × ((t : Tree) → In t V → Origin find_file load files start s.result t)
      × ((path : Bytes) (t : Tree)
          → mem path s.result ≡ true
          → load path ≡ some t
          → t.is_library ≡ true
          → In t V)
      × ((t : Tree) (name : Bytes)
          → In t V
          → mem name t.referenced ≡ true
          → Provided find_file load files V s.result name)

  Ends-Complete : (start : Tree) (s : Search) → Ends start s → Complete start s
  Ends-Complete start s (V, i, c, e) = (
    V,
    settled start V s.queue e i.start_ok,
    λ t h. i.origin t (inl h),
    λ path t m l b. settled t V s.queue e (i.library_ok path t m l b),
    λ t name h m. i.known_ok name (c t h name m),
  )

  -- With two rounds of fuel more than the files that the index can name, or above, the search
  -- ends. It throws only if opening the file of a name throws. Otherwise each name that the given
  -- tree refers to, or that the tree of a package or an interface in the result refers to, is
  -- declared by such a tree, or has no file in the index, or has its file in the result.
  pub get_dependent_docs-Complete :
      (fuel : ℕ) (tree : Tree)
      → Bounded find_file load files
      → 1 + length files < fuel
      → Ensures find_file load files (Complete tree) (get_dependent_docs find_file load fuel tree)
  unfolding get_dependent_docs
  get_dependent_docs-Complete fuel tree b f =
      let s : Search = record { known = []; processed = []; result = []; queue = tree ∷ [] } in
      let i : Inv find_file load files tree [] s = record {
        known_ok = λ n h. cc h;
        processed_ok = λ n h. h;
        library_ok = λ p t m. cc m;
        start_ok = inr (inl refl);
        origin = λ t h. elim h [
          | inl n ↦ absurd n
          | inr o ↦ elim o [ inl e ↦ inl e | inr n ↦ absurd n ]
        ];
      } in
      Ensures-mono find_file load files (Ends tree) (Complete tree)
        (search_queue find_file load fuel s)
        (search_queue-Ends fuel tree [] s b (omega (arith, f, unseen-length [] files)) i
          (λ t h. absurd h))
        (Ends-Complete tree)
