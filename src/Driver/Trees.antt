-- ===== src/Driver/Trees.antt =====
-- Lists of trees, lists of names and the files not yet processed, for the search of
-- `getDependentDocs` of src/ServerDriver.cpp.
use slang_server.Common.{
  ℕ, suc, ◌+◌, ◌≤◌, ◌<◌, Bool, true, false, List, [], ◌∷◌, ◌++◌, some, Bytes, equal, equal_iff,
  if◌then◌else◌, any-append, length, length-append, ◌≡◌, ◌⊎◌, inl, inr, refl, sym, arith,
  Bool-cases,
}
use mathlib.Core.Path.{subst}
use slang_server.Driver.Dependencies.{Tree, mem}

abbrev pub In : Tree → List Tree → Type 0
In t [] = ⊥
In t (u ∷ us) = (t ≡ u) ⊎ In t us

pub In-append_left : (t : Tree) (us vs : List Tree) → In t us → In t (us ++ vs)
In-append_left t [] vs h = absurd h
In-append_left t (u ∷ us) vs (inl e) = inl e
In-append_left t (u ∷ us) vs (inr h) = inr (In-append_left t us vs h)

pub In-append_last : (t : Tree) (us : List Tree) → In t (us ++ t ∷ [])
In-append_last t [] = inl refl
In-append_last t (u ∷ us) = inr (In-append_last t us)

pub In-grown :
    (b : Bool) (t u : Tree) (us : List Tree) → In t us → In t (if b then us ++ u ∷ [] else us)
In-grown true t u us h = In-append_left t us (u ∷ []) h
In-grown false t u us h = h

pub In-new :
    (b : Bool) (t : Tree) (us : List Tree) → b ≡ true → In t (if b then us ++ t ∷ [] else us)
In-new true t us h = In-append_last t us
In-new false t us h = cc h

pub length-grown :
    (b : Bool) (t : Tree) (us : List Tree)
    → length (if b then us ++ t ∷ [] else us) ≤ suc (length us)
length-grown true t us = omega (arith, length-append us (t ∷ []))
length-grown false t us = omega arith

pub mem-add :
    (p : Bytes) (r : List Bytes) (q : Bytes)
    → (mem p r ≡ true) ⊎ (equal q p ≡ true)
    → mem p (r ++ q ∷ []) ≡ true
mem-add p r q h = ground (arith, any-append (λ y. equal y p) r (q ∷ []), h)

pub mem-added :
    (p : Bytes) (r : List Bytes) (q : Bytes)
    → mem p (r ++ q ∷ []) ≡ true
    → (mem p r ≡ true) ⊎ (q ≡ p)
mem-added p r q h = ground (arith, any-append (λ y. equal y p) r (q ∷ []), h, equal_iff q p)

pub loaded_same : (u t : Tree) → some u ≡ some t → u ≡ t
loaded_same u t h = cc h

-- The front of the queue becomes a visited tree.
pub moved :
    (u tree : Tree) (V q rest : List Tree)
    → q ≡ tree ∷ rest
    → In u V ⊎ In u q
    → In u (tree ∷ V) ⊎ In u rest
moved u tree V q rest e (inl v) = inl (inr v)
moved u tree V q rest e (inr h) = elim (subst (In u) e h) [
  | inl same ↦ inl (inl same)
  | inr later ↦ inr later
]

pub unmoved :
    (u tree : Tree) (V q rest : List Tree)
    → q ≡ tree ∷ rest
    → In u (tree ∷ V) ⊎ In u rest
    → In u V ⊎ In u q
unmoved u tree V q rest e (inl (inl same)) = inr (subst (In u) (sym e) (inl same))
unmoved u tree V q rest e (inl (inr v)) = inl v
unmoved u tree V q rest e (inr h) = inr (subst (In u) (sym e) (inr h))

pub settled : (u : Tree) (V q : List Tree) → q ≡ [] → In u V ⊎ In u q → In u V
settled u V q e (inl v) = v
settled u V q e (inr h) = absurd (subst (In u) e h)

pub In-split : (u t : Tree) (us : List Tree) → In u (us ++ t ∷ []) → In u us ⊎ (u ≡ t)
In-split u t [] (inl e) = inr e
In-split u t [] (inr n) = absurd n
In-split u t (v ∷ us) (inl e) = inl (inl e)
In-split u t (v ∷ us) (inr h) = elim (In-split u t us h) [
  | inl old ↦ inl (inr old)
  | inr new ↦ inr new
]

pub In-grown_queue :
    (b : Bool) (u t : Tree) (V us : List Tree)
    → In u V ⊎ In u (if b then us ++ t ∷ [] else us)
    → (In u V ⊎ In u us) ⊎ ((b ≡ true) × (u ≡ t))
In-grown_queue b u t V us (inl v) = inl (inl v)
In-grown_queue false u t V us (inr h) = inl (inr h)
In-grown_queue true u t V us (inr h) = elim (In-split u t us h) [
  | inl old ↦ inl (inr old)
  | inr new ↦ inr (refl, new)
]

pub known_append : (n : Bytes) (xs ys : List Bytes) → mem n ys ≡ true → mem n (xs ++ ys) ≡ true
known_append n xs ys h = ground (arith, any-append (λ y. equal y n) xs ys, h)

pub mem_of_append :
    (n : Bytes) (xs ys : List Bytes)
    → mem n (xs ++ ys) ≡ true
    → (mem n xs ≡ true) ⊎ (mem n ys ≡ true)
mem_of_append n xs ys h = ground (arith, any-append (λ y. equal y n) xs ys, h)

-- How many of the files are not among those that are processed.
abbrev pub unseen : List Bytes → List Bytes → ℕ
unseen processed [] = 0
unseen processed (f ∷ files) = (if mem f processed then 0 else 1) + unseen processed files

pub unseen-length : (processed files : List Bytes) → unseen processed files ≤ length files
unseen-length processed [] = omega arith
unseen-length processed (f ∷ files) = ground (arith, unseen-length processed files)

pub unseen-le :
    (p : Bytes) (processed files : List Bytes)
    → unseen (p ∷ processed) files ≤ unseen processed files
unseen-le p processed [] = omega arith
unseen-le p processed (f ∷ files) = ground (arith, unseen-le p processed files)

pub unseen-lt :
    (p : Bytes) (processed files : List Bytes)
    → mem p processed ≡ false
    → mem p files ≡ true
    → unseen (p ∷ processed) files < unseen processed files
unseen-lt p processed [] h m = cc m
unseen-lt p processed (f ∷ files) h m = elim (Bool-cases (equal f p)) [
  | inl same ↦
      let e : f ≡ p = (equal_iff f p).0 same in
      rw e (ground (arith, h, (equal_iff p p).1 refl, unseen-le p processed files))
  | inr other ↦
      ground (arith, h, m, other, unseen-lt p processed files h, equal_iff f p, equal_iff p f)
]
