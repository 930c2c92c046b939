-- ===== src/Formatting/Visible.antt =====
-- What the clean-up of src/util/Formatting.cpp leaves of a text, and when it fails.
use slang_server.Common.{
  ℕ, zero, suc, Bool, true, false, not, List, [], ◌∷◌, ◌++◌, Option, none, some, Bytes, ◌==◌,
  if◌then◌else◌, is_empty, any, remove_if, is_space, ◌≡◌, refl, ap, ◌∙◌, arith, append-nil,
  Bool-cases, inl, inr,
}
use slang_server.Formatting.{
  cons_to, join_first, get_lines, drop_last, ltrim, squash_content, squash_line, write_lines,
  min_indent, unindent,
}

-- A text without its blanks and line feeds.
abbrev pub visible : Bytes → Bytes
visible s = remove_if is_space s

abbrev pub map_visible : Option Bytes → Option Bytes
map_visible none = none
map_visible (some s) = some (visible s)

visible-append : (s t : Bytes) → visible (s ++ t) ≡ visible s ++ visible t
visible-append [] t = refl
visible-append (c ∷ s) t = ground (arith, visible-append s t)

pub feed_blank : is_space b'\n' ≡ true
unfolding is_space
feed_blank = refl

abbrev content : List Bytes → Bytes
content [] = []
content (l ∷ ls) = visible l ++ content ls

content-join_first :
    (c : ℕ) (ls : List Bytes) → content (join_first c ls) ≡ visible (c ∷ []) ++ content ls
content-join_first c [] = refl
content-join_first c (l ∷ ls) = ground (arith)

content-get_lines : (s : Bytes) → content (get_lines s) ≡ visible s
unfolding get_lines
content-get_lines [] = refl
content-get_lines (c ∷ s) =
    ground (arith, feed_blank, content-join_first c (get_lines s), content-get_lines s)

-- Some line is not empty.
abbrev pub has_text : List Bytes → Bool
has_text ls = any (λ l. not (is_empty l)) ls

pub has_text-join_first : (c : ℕ) (ls : List Bytes) → has_text (join_first c ls) ≡ true
has_text-join_first c [] = refl
has_text-join_first c (l ∷ ls) = refl

abbrev ends_feed : Bytes → Bool
ends_feed [] = false
ends_feed (c ∷ []) = c == b'\n'
ends_feed (c ∷ d ∷ s) = ends_feed (d ∷ s)

ends_feed-append :
    (s t : Bytes) → ends_feed (s ++ t) ≡ (if is_empty t then ends_feed s else ends_feed t)
ends_feed-append [] [] = refl
ends_feed-append [] (d ∷ t) = refl
ends_feed-append (c ∷ []) [] = refl
ends_feed-append (c ∷ []) (d ∷ t) = refl
ends_feed-append (c ∷ e ∷ s) t = ends_feed-append (e ∷ s) t

cons_to-visible :
    (c : ℕ) (o : Option Bytes) (t : Bytes)
    → map_visible o ≡ some t
    → map_visible (cons_to c o) ≡ some (if is_space c then t else c ∷ t)
cons_to-visible c none t h = cc h
cons_to-visible c (some s) t h = ground (arith, h)

drop_last-visible : (s : Bytes) → ends_feed s ≡ true → map_visible (drop_last s) ≡ some (visible s)
unfolding drop_last
drop_last-visible [] h = cc h
drop_last-visible (c ∷ []) h = ground (arith, feed_blank)
drop_last-visible (c ∷ d ∷ s) h =
    cons_to-visible c (drop_last (d ∷ s)) (visible (d ∷ s)) (drop_last-visible (d ∷ s) h)

module _ (change : Bytes → Bytes) where
  write_lines-visible :
      (ls : List Bytes)
      → ((l : Bytes) → visible (change l) ≡ visible l)
      → visible (write_lines change ls) ≡ content ls
  unfolding write_lines
  write_lines-visible [] h = refl
  write_lines-visible ([] ∷ ls) h = write_lines-visible ls h
  write_lines-visible ((c ∷ l) ∷ ls) h =
      visible-append (change (c ∷ l) ++ b'\n' ∷ []) (write_lines change ls)
      ∙ rw (visible-append (change (c ∷ l)) (b'\n' ∷ []))
          (rw feed_blank (rw append-nil (rw (h (c ∷ l)) (rw (write_lines-visible ls h) refl))))

  pub write_lines_blank : (ls : List Bytes) → has_text ls ≡ false → write_lines change ls ≡ []
  unfolding write_lines
  write_lines_blank [] h = refl
  write_lines_blank ([] ∷ ls) h = write_lines_blank ls h
  write_lines_blank ((c ∷ l) ∷ ls) h = cc h

  write_lines-ends_feed :
      (ls : List Bytes) → has_text ls ≡ true → ends_feed (write_lines change ls) ≡ true
  unfolding write_lines
  write_lines-ends_feed [] h = cc h
  write_lines-ends_feed ([] ∷ ls) h = write_lines-ends_feed ls h
  write_lines-ends_feed ((c ∷ l) ∷ ls) h =
      ends_feed-append (change (c ∷ l) ++ b'\n' ∷ []) (write_lines change ls)
      ∙ rw (ends_feed-append (change (c ∷ l)) (b'\n' ∷ [])) (elim (Bool-cases (has_text ls)) [
        | inl e ↦ ground (arith, write_lines-ends_feed ls e)
        | inr e ↦ rw (write_lines_blank ls e) refl
      ])

  pub written_back :
      (s : Bytes)
      → ((l : Bytes) → visible (change l) ≡ visible l)
      → has_text (get_lines s) ≡ true
      → map_visible (drop_last (write_lines change (get_lines s))) ≡ some (visible s)
  written_back s h k =
      drop_last-visible (write_lines change (get_lines s)) (write_lines-ends_feed (get_lines s) k)
      ∙ ap some (write_lines-visible (get_lines s) h ∙ content-get_lines s)

squash_content-visible : (b : Bool) (s : Bytes) → visible (squash_content b s) ≡ visible s
unfolding squash_content is_space
squash_content-visible b [] = refl
squash_content-visible b (c ∷ s) =
    ground (arith, squash_content-visible true s, squash_content-visible false s)

pub squash_line-visible : (s : Bytes) → visible (squash_line s) ≡ visible s
unfolding squash_line
squash_line-visible [] = refl
squash_line-visible (c ∷ s) =
    ground (arith, squash_line-visible s, squash_content-visible false (c ∷ s))

pub ltrim-visible : (s : Bytes) → visible (ltrim s) ≡ visible s
unfolding ltrim
ltrim-visible [] = refl
ltrim-visible (c ∷ s) = ground (arith, ltrim-visible s)

pub unindent-visible :
    (k count : ℕ) (s : Bytes) → is_space k ≡ true → visible (unindent k count s) ≡ visible s
unfolding unindent
unindent-visible k zero s h = refl
unindent-visible k (suc count) [] h = refl
unindent-visible k (suc count) (c ∷ s) h = ground (arith, unindent-visible k count s h)

pub min_indent_blank :
    (k : ℕ) (found : Option ℕ) (ls : List Bytes)
    → has_text ls ≡ false
    → min_indent k found ls ≡ found
unfolding min_indent
min_indent_blank k found [] h = refl
min_indent_blank k found ([] ∷ ls) h = min_indent_blank k found ls h
min_indent_blank k found ((c ∷ l) ∷ ls) h = cc h
