-- ===== src/Indexer/Postings.antt =====
-- The maps from a name to the places that have it, in include/Indexer.h, and the loops of
-- src/Indexer.cpp that add and remove the entries of one file.
use slang_server.Common.{
  Bool, false, ◌&&◌, ◌||◌, List, [], ◌∷◌, ◌++◌, Option, none, some, Bytes, Eq, bytes_eq, equal,
  equal_iff, if◌then◌else◌, any, remove_if, ◌≡◌, refl, arith, any-append,
}
use slang_server.Common.Dict.{find, assign, erase, find-assign, find-erase}

module _ {L : Type 0} ⦃e : Eq L⦄ where
  abbrev pub or_empty : Option (List L) → List L
  or_empty none = []
  or_empty (some v) = v

  -- The places recorded for a name.
  abbrev pub entries : List (Bytes × List L) → Bytes → List L
  entries m name = or_empty (find name m)

  abbrev pub mem : L → List L → Bool
  mem x xs = any (λ y. e.beq y x) xs

  abbrev kept : Bytes → List L → List (Bytes × List L) → List (Bytes × List L)
  kept name [] m = erase name m
  kept name (x ∷ xs) m = assign name (x ∷ xs) m

  abbrev unpost_found : Bytes → L → Option (List L) → List (Bytes × List L) → List (Bytes × List L)
  unpost_found name x none m = m
  unpost_found name x (some v) m = kept name (remove_if (λ y. e.beq y x) v) m

  -- One round of a removing loop: the places equal to `x` leave the name's list, and a name with
  -- no place left leaves the map.
  unfoldable pub unpost : Bytes → L → List (Bytes × List L) → List (Bytes × List L)
  unfolding erase assign
  unpost name x m = unpost_found name x (find name m) m

  -- `map[name].push_back(x)`
  unfoldable pub post : Bytes → L → List (Bytes × List L) → List (Bytes × List L)
  unfolding assign
  post name x m = assign name (entries m name ++ x ∷ []) m

  -- The loops over the items of a file.
  unfoldable pub unpost_all : List (Bytes × L) → List (Bytes × List L) → List (Bytes × List L)
  unfolding unpost
  unpost_all [] m = m
  unpost_all ((name, x) ∷ items) m = unpost_all items (unpost name x m)

  unfoldable pub post_all : List (Bytes × L) → List (Bytes × List L) → List (Bytes × List L)
  unfolding post
  post_all [] m = m
  post_all ((name, x) ∷ items) m = post_all items (post name x m)

  -- Whether the items have this place for this name.
  abbrev pub is_item : Bytes → L → Bytes × L → Bool
  is_item name x (n, y) = equal n name && e.beq y x

  abbrev pub has : Bytes → L → List (Bytes × L) → Bool
  has name x items = any (is_item name x) items

  mem-remove_if :
      (x y : L) (xs : List L)
      → mem x (remove_if (λ z. e.beq z y) xs) ≡ (if e.beq y x then false else mem x xs)
  mem-remove_if x y [] = ground arith
  mem-remove_if x y (z ∷ xs) =
      ground (arith, e.beq_iff y x, e.beq_iff z y, e.beq_iff z x, mem-remove_if x y xs)

  entries-kept :
      (n name : Bytes) (v : List L) (m : List (Bytes × List L))
      → entries (kept name v m) n ≡ (if equal name n then v else entries m n)
  entries-kept n name [] m = ground (arith, find-erase name n m)
  entries-kept n name (x ∷ xs) m = ground (arith, find-assign name n (x ∷ xs) m)

  entries-unpost_found :
      (n name : Bytes) (x : L) (m : List (Bytes × List L)) (found : Option (List L))
      → find name m ≡ found
      → entries (unpost_found name x found m) n
        ≡ (if equal name n then remove_if (λ y. e.beq y x) (entries m n) else entries m n)
  entries-unpost_found n name x m none h = ground (arith, equal_iff name n)
  entries-unpost_found n name x m (some v) h =
      ground (arith, equal_iff name n, entries-kept n name (remove_if (λ y. e.beq y x) v) m)

  pub entries-unpost :
      (n name : Bytes) (x : L) (m : List (Bytes × List L))
      → entries (unpost name x m) n
        ≡ (if equal name n then remove_if (λ y. e.beq y x) (entries m n) else entries m n)
  unfolding unpost
  entries-unpost n name x m = entries-unpost_found n name x m (find name m) refl

  pub entries-post :
      (n name : Bytes) (x : L) (m : List (Bytes × List L))
      → entries (post name x m) n ≡ (if equal name n then entries m n ++ x ∷ [] else entries m n)
  unfolding post
  entries-post n name x m =
      ground (arith, equal_iff name n, find-assign name n (entries m name ++ x ∷ []) m)

  pub mem-unpost_all :
      (n : Bytes) (x : L) (items : List (Bytes × L)) (m : List (Bytes × List L))
      → mem x (entries (unpost_all items m) n)
        ≡ (if has n x items then false else mem x (entries m n))
  unfolding unpost_all
  mem-unpost_all n x [] m = refl
  mem-unpost_all n x ((name, y) ∷ items) m = ground (
    arith,
    mem-unpost_all n x items (unpost name y m),
    entries-unpost n name y m,
    mem-remove_if x y (entries m n),
  )

  pub mem-post_all :
      (n : Bytes) (x : L) (items : List (Bytes × L)) (m : List (Bytes × List L))
      → mem x (entries (post_all items m) n) ≡ (mem x (entries m n) || has n x items)
  unfolding post_all
  mem-post_all n x [] m = ground arith
  mem-post_all n x ((name, y) ∷ items) m = ground (
    arith,
    mem-post_all n x items (post name y m),
    entries-post n name y m,
    any-append (λ z. e.beq z x) (entries m n) (y ∷ []),
  )
