-- ===== src/Driver/Invariant.antt =====
-- What the search of `getDependentDocs` of src/ServerDriver.cpp keeps true.
use slang_server.Common.{
  ℕ, ◌+◌, ◌≤◌, true, List, [], ◌∷◌, ◌++◌, Option, none, some, Bytes, equal, equal_iff,
  if◌then◌else◌, length, ◌≡◌, ◌⊎◌, inl, inr, refl, sym, ap, ◌∙◌, arith, Bool-cases,
}
use mathlib.Core.Path.{subst}
use slang_server.Driver.Dependencies.{
  Tree, mem, Search, Found, found, threw, out_of_fuel, then_search,
}
use slang_server.Driver.Trees.{
  In, In-grown, In-new, In-grown_queue, loaded_same, mem-add, mem-added, unseen,
}

module _ (find_file : Bytes → Option Bytes) (load : Bytes → Option Tree) (files : List Bytes) where
  abbrev pub cost : Search → ℕ
  cost s = length s.queue + unseen s.processed files

  -- A name is declared by a tree that was visited, or has no file, or its file is in the result.
  abbrev pub Provided : List Tree → List Bytes → Bytes → Type 0
  Provided visited result name =
      ((t : Tree) × In t visited × (mem name t.declared ≡ true))
      ⊎ ((find_file name ≡ none)
          ⊎ ((path : Bytes) × (find_file name ≡ some path) × (mem path result ≡ true)))

  -- A tree is the one that the search starts from, or that of a package or interface in the result.
  abbrev pub Origin : Tree → List Bytes → Tree → Type 0
  Origin start result t =
      (t ≡ start)
      ⊎ ((path : Bytes) × (mem path result ≡ true) × (load path ≡ some t) × (t.is_library ≡ true))

  pub record Inv (start : Tree) (visited : List Tree) (s : Search) : Type 0 where
    pub known_ok : (name : Bytes) → mem name s.known ≡ true → Provided visited s.result name
    pub processed_ok : (path : Bytes) → mem path s.processed ≡ true → mem path s.result ≡ true
    pub library_ok :
        (path : Bytes) (t : Tree)
        → mem path s.result ≡ true
        → load path ≡ some t
        → t.is_library ≡ true
        → In t visited ⊎ In t s.queue
    pub start_ok : In start visited ⊎ In start s.queue
    pub origin : (t : Tree) → In t visited ⊎ In t s.queue → Origin start s.result t

  -- Opening the file of some name throws.
  abbrev pub LoadFails : Type 0
  LoadFails = (name : Bytes) × (path : Bytes) × (find_file name ≡ some path) × (load path ≡ none)

  abbrev pub Ensures : (Search → Type 0) → Found → Type 0
  Ensures P (found s) = P s
  Ensures P (threw s) = LoadFails
  Ensures P out_of_fuel = ⊥

  pub Ensures-then_search :
      (P Q : Search → Type 0) (r : Found) (f : Search → Found)
      → Ensures P r
      → ((s : Search) → P s → Ensures Q (f s))
      → Ensures Q (then_search r f)
  Ensures-then_search P Q (found s) f h k = k s h
  Ensures-then_search P Q (threw s) f h k = h
  Ensures-then_search P Q out_of_fuel f h k = elim h [ ]

  pub Ensures-mono :
      (P Q : Search → Type 0) (r : Found) → Ensures P r → ((s : Search) → P s → Q s) → Ensures Q r
  Ensures-mono P Q (found s) h k = k s h
  Ensures-mono P Q (threw s) h k = h
  Ensures-mono P Q out_of_fuel h k = elim h [ ]

  -- What a step of the search keeps, and that it forgets no name.
  pub record Keeps (start : Tree) (visited : List Tree) (s s' : Search) : Type 0 where
    pub inv : Inv start visited s'
    pub cheaper : cost s' ≤ cost s
    pub remembers : (name : Bytes) → mem name s.known ≡ true → mem name s'.known ≡ true

  -- The files that the index can name.
  abbrev pub Bounded : Type 0
  Bounded = (name path : Bytes) → find_file name ≡ some path → mem path files ≡ true

  pub Provided-add :
      (visited : List Tree) (r : List Bytes) (p name : Bytes)
      → Provided visited r name
      → Provided visited (r ++ p ∷ []) name
  Provided-add visited r p name (inl d) = inl d
  Provided-add visited r p name (inr (inl n)) = inr (inl n)
  Provided-add visited r p name (inr (inr (path, e, m))) =
      inr (inr (path, e, mem-add path r p (inl m)))

  pub Provided-visit :
      (u : Tree) (visited : List Tree) (r : List Bytes) (name : Bytes)
      → Provided visited r name
      → Provided (u ∷ visited) r name
  Provided-visit u visited r name (inl (t, i, d)) = inl (t, inr i, d)
  Provided-visit u visited r name (inr o) = inr o

  pub Origin-add :
      (start : Tree) (r : List Bytes) (p : Bytes) (t : Tree)
      → Origin start r t
      → Origin start (r ++ p ∷ []) t
  Origin-add start r p t (inl e) = inl e
  Origin-add start r p t (inr (path, m, l, b)) = inr (path, mem-add path r p (inl m), l, b)

  pub Inv-known :
      (start : Tree) (V : List Tree) (s : Search) (name : Bytes)
      → Inv start V s
      → Provided V s.result name
      → Inv start V (record s { known = name ∷ s.known })
  Inv-known start V s name i p = record {
    known_ok = λ n h. elim (Bool-cases (equal name n)) [
      | inl same ↦ let e : name ≡ n = (equal_iff name n).0 same in subst (Provided V s.result) e p
      | inr other ↦ i.known_ok n (ground (arith, h, other))
    ];
    processed_ok = i.processed_ok;
    library_ok = i.library_ok;
    start_ok = i.start_ok;
    origin = i.origin;
  }

  -- The search with the file `path` and its tree added.
  abbrev pub with_file : Bytes → Tree → Search → Search
  with_file path t s = record s {
    processed = path ∷ s.processed;
    result = s.result ++ path ∷ [];
    queue = if t.is_library then s.queue ++ t ∷ [] else s.queue;
  }

  pub Inv-with_file :
      (start : Tree) (V : List Tree) (s : Search) (path : Bytes) (t : Tree)
      → load path ≡ some t
      → Inv start V s
      → Inv start V (with_file path t s)
  Inv-with_file start V s path t l i = record {
    known_ok = λ n h. Provided-add V s.result path n (i.known_ok n h);
    processed_ok = λ p h. elim (Bool-cases (equal path p)) [
      | inl same ↦ mem-add p s.result path (inr same)
      | inr other ↦ mem-add p s.result path (inl (i.processed_ok p (ground (arith, h, other))))
    ];
    library_ok = λ p u m lu b. elim (mem-added p s.result path m) [
      | inl old ↦ elim (i.library_ok p u old lu b) [
        | inl v ↦ inl v
        | inr q ↦ inr (In-grown t.is_library u t s.queue q)
      ]
      | inr same ↦
          let e : u ≡ t = loaded_same u t (sym lu ∙ sym (ap load same) ∙ l) in
          inr (
            subst (λ x. In x (with_file path t s).queue) (sym e)
              (In-new t.is_library t s.queue (sym (ap (λ (x : Tree). x.is_library) e) ∙ b)))
    ];
    start_ok = elim i.start_ok [
      | inl v ↦ inl v
      | inr q ↦ inr (In-grown t.is_library start t s.queue q)
    ];
    origin = λ u h. elim (In-grown_queue t.is_library u t V s.queue h) [
      | inl old ↦ Origin-add start s.result path u (i.origin u old)
      | inr (lib, same) ↦ inr (
        path,
        mem-add path s.result path (inr ((equal_iff path path).1 refl)),
        l ∙ ap some (sym same),
        ap (λ (x : Tree). x.is_library) same ∙ lib,
      )
    ];
  }
