-- ===== src/Completions/Macro/Offers.antt =====
-- Which macros the completions of src/completions/MacroCompletions.cpp offer.
use slang_server.Common.{
  Bool, true, false, not, ◌&&◌, ◌||◌, List, [], ◌∷◌, ◌++◌, Bytes, equal, equal_iff, any, any-append,
  map, if◌then◌else◌, ◌≡◌, refl, sym, ap, ◌∙◌, arith, Bool-cases, inl, inr,
}
use mathlib.Core.Path.{subst}
use slang_server.Completions.Item.{CompletionItem}
use slang_server.Completions.Macro.{
  DefineDirective, matches_prefix, get_name_completion, spelling, seen, resolve_macro,
  get_macro_completion, add_macros, add_names, get_completions,
}

abbrev pub labels_of : List CompletionItem → List Bytes
labels_of = map (λ item. item.label)

abbrev pub Distinct : List Bytes → Type 0
Distinct [] = Unit {0}
Distinct (l ∷ ls) = (seen l ls ≡ false) × Distinct ls

-- A macro of this name that has a location.
abbrev pub declares : Bytes → List DefineDirective → Bool
declares n ms = any (λ m. m.has_location && equal m.name n) ms

-- The labels that were seen are those of the results, each once.
abbrev Agrees : List Bytes → List CompletionItem → Type 0
Agrees labels results =
    ((l : Bytes) → seen l labels ≡ seen l (labels_of results)) × Distinct (labels_of results)

labels_of-add :
    (r : List CompletionItem) (i : CompletionItem)
    → labels_of (r ++ i ∷ []) ≡ labels_of r ++ i.label ∷ []
labels_of-add [] i = refl
labels_of-add (j ∷ r) i = ap (◌∷◌ j.label) (labels_of-add r i)

seen-last : (l x : Bytes) (ls : List Bytes) → seen l (ls ++ x ∷ []) ≡ (equal x l || seen l ls)
seen-last l x ls = ground (arith, any-append (λ y. equal y l) ls (x ∷ []))

equal_comm : (a b : Bytes) → equal a b ≡ equal b a
equal_comm a b = ground (arith, equal_iff a b, equal_iff b a)

Distinct-add :
    (ls : List Bytes) (x : Bytes) → Distinct ls → seen x ls ≡ false → Distinct (ls ++ x ∷ [])
Distinct-add [] x d h = (refl, tt)
Distinct-add (l ∷ ls) x (new, d) h = (
  ground (arith, seen-last l x ls, new, h, equal_comm x l),
  Distinct-add ls x d (ground (arith, h)),
)

Agrees-add :
    (labels : List Bytes) (results : List CompletionItem) (item : CompletionItem) (label : Bytes)
    → item.label ≡ label
    → Agrees labels results
    → seen label labels ≡ false
    → Agrees (label ∷ labels) (results ++ item ∷ [])
Agrees-add labels results item label e (same, d) h =
    rw (labels_of-add results item, e)
      (
        λ l. ground (arith, seen-last l label (labels_of results), same l),
        Distinct-add (labels_of results) label d (sym (same label) ∙ h),
      )

get_macro_completion-label :
    (sv : DefineDirective → Bytes) (m : DefineDirective)
    → (get_macro_completion sv m).label ≡ spelling m.name
unfolding get_macro_completion resolve_macro
get_macro_completion-label sv m = refl

-- What one loop over candidates leaves: every name that it could offer is seen.
abbrev Offers : (Bytes → Bool) → List Bytes → List Bytes × List CompletionItem → Type 0
Offers offer labels (labels', results') =
    Agrees labels' results'
    × ((n : Bytes) → seen (spelling n) labels' ≡ (seen (spelling n) labels || offer n))

module _ (matches : Bytes → Bool) (labels : List Bytes) (x : Bytes) where
  -- A candidate that is passed over changes nothing that is offered.
  passed_over :
      (ok : Bool)
      → (not ok || not (matches x) || seen (spelling x) labels) ≡ true
      → (n : Bytes) (r : Bool)
      → (seen (spelling n) labels || (matches n && r))
        ≡ (seen (spelling n) labels || (matches n && ((ok && equal x n) || r)))
  passed_over ok h n r = elim (Bool-cases (equal x n)) [
    | inl same ↦ let e : x ≡ n = (equal_iff x n).0 same in rw⁻¹ e (ground (arith, h))
    | inr other ↦ ground (arith, other)
  ]

  -- A candidate that is taken is offered.
  taken :
      (ok : Bool)
      → (not ok || not (matches x) || seen (spelling x) labels) ≡ false
      → (n : Bytes) (r : Bool)
      → (seen (spelling n) (spelling x ∷ labels) || (matches n && r))
        ≡ (seen (spelling n) labels || (matches n && ((ok && equal x n) || r)))
  taken ok h n r = elim (Bool-cases (equal x n)) [
    | inl same ↦ let e : x ≡ n = (equal_iff x n).0 same in rw⁻¹ e (ground (arith, h, equal_iff x x))
    | inr other ↦ ground (arith, other)
  ]

  new_label :
      (ok : Bool)
      → (not ok || not (matches x) || seen (spelling x) labels) ≡ false
      → seen (spelling x) labels ≡ false
  new_label ok h = ground (arith, h)

add_names-Offers :
    (typed : Bytes) (ns : List Bytes) (labels : List Bytes) (results : List CompletionItem)
    → Agrees labels results
    → Offers
        (λ n. matches_prefix n typed && seen n ns)
        labels
        (add_names typed ns (labels, results))
unfolding add_names
add_names-Offers typed [] labels results a = (a, λ n. ground arith)
add_names-Offers typed (x ∷ ns) labels results a =
    let after : Bool → Type 0 = λ b.
      Offers (λ n. matches_prefix n typed && seen n (x ∷ ns)) labels
        (add_names typed ns (
          if b
          then (labels, results)
          else (spelling x ∷ labels, results ++ get_name_completion x ∷ []))) in
    elim (Bool-cases (not (matches_prefix x typed) || seen (spelling x) labels)) [
      | inl skip ↦ subst after (sym skip) (
          let (b, o) = add_names-Offers typed ns labels results a in
          (
            b,
            λ n. o n ∙ passed_over (λ m. matches_prefix m typed) labels x true skip n (seen n ns),
          ))
      | inr pick ↦ subst after (sym pick) (
          let fresh = new_label (λ m. matches_prefix m typed) labels x true pick in
          let (b, o) =
            add_names-Offers typed ns (spelling x ∷ labels) (results ++ get_name_completion x ∷ [])
              (Agrees-add labels results (get_name_completion x) (spelling x) refl a fresh) in
          (b, λ n. o n ∙ taken (λ m. matches_prefix m typed) labels x true pick n (seen n ns)))
    ]

both_loops :
    (n typed : Bytes) (first d i : Bool)
    → first ≡ (matches_prefix n typed && d)
    → (first || (matches_prefix n typed && i)) ≡ (matches_prefix n typed && (d || i))
both_loops n typed first d i h = ground (arith, h)

module _ (sv_code_block : DefineDirective → Bytes) where
  add_macros-Offers :
      (typed : Bytes) (ms : List DefineDirective) (labels : List Bytes)
      (results : List CompletionItem)
      → Agrees labels results
      → Offers
          (λ n. matches_prefix n typed && declares n ms)
          labels
          (add_macros sv_code_block typed ms (labels, results))
  unfolding add_macros
  add_macros-Offers typed [] labels results a = (a, λ n. ground arith)
  add_macros-Offers typed (m ∷ ms) labels results a =
      let after : Bool → Type 0 = λ b.
        Offers (λ n. matches_prefix n typed && declares n (m ∷ ms)) labels
          (add_macros sv_code_block typed ms (
            if b then (labels, results) else (
              spelling m.name ∷ labels,
              results ++ get_macro_completion sv_code_block m ∷ [],
            ))) in
      elim (Bool-cases (
        not m.has_location || not (matches_prefix m.name typed) || seen (spelling m.name) labels)) [
          | inl skip ↦ subst after (sym skip) (
              let (b, o) = add_macros-Offers typed ms labels results a in
              (
                b,
                λ n.
                    o n
                    ∙ passed_over (λ x. matches_prefix x typed) labels m.name m.has_location skip n
                        (declares n ms),
              ))
          | inr pick ↦ subst after (sym pick) (
              let fresh =
                new_label (λ x. matches_prefix x typed) labels m.name m.has_location pick in
              let (b, o) =
                add_macros-Offers typed ms (spelling m.name ∷ labels)
                  (results ++ get_macro_completion sv_code_block m ∷ [])
                  (Agrees-add labels results (get_macro_completion sv_code_block m)
                    (spelling m.name) (get_macro_completion-label sv_code_block m) a fresh) in
              (
                b,
                λ n.
                    o n
                    ∙ taken (λ x. matches_prefix x typed) labels m.name m.has_location pick n
                        (declares n ms),
              ))
        ]

  -- The macros offered have different labels, and a name is offered exactly if it matches the typed
  -- prefix and is that of a macro of the document that has a location or of one of the index.
  pub get_completions-Distinct :
      (typed : Bytes) (macros : List DefineDirective) (names : List Bytes)
      → Distinct (labels_of (get_completions sv_code_block typed macros names))
        × ((n : Bytes)
            → seen (spelling n) (labels_of (get_completions sv_code_block typed macros names))
              ≡ (matches_prefix n typed && (declares n macros || seen n names)))
  unfolding get_completions
  get_completions-Distinct typed macros names =
      let (a, o) = add_macros-Offers typed macros [] [] ((λ l. refl), tt) in
      let acc = add_macros sv_code_block typed macros ([], []) in
      let (b, p) = add_names-Offers typed names acc.0 acc.1 a in
      (
        b.1,
        λ n.
            sym (b.0 (spelling n))
            ∙ p n
            ∙ both_loops n typed (seen (spelling n) acc.0) (declares n macros) (seen n names) (o n),
      )
