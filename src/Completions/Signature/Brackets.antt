-- ===== src/Completions/Signature/Brackets.antt =====
-- The search for a closing bracket of src/completions/SystemTaskCompletions.cpp.
use slang_server.Common.{
  ℕ, zero, suc, [], ◌∷◌, ◌++◌, Option, none, some, Bytes, ◌==◌, if◌then◌else◌, ◌≡◌, refl, ap, ◌∙◌,
  arith, Bool-cases, inl, inr,
}
use slang_server.Completions.Signature.{
  cons_contents, balanced, contents_of, find_balanced_contents,
}

module _ (opener closer : ℕ) where
  -- The depth of brackets behind a text, or none if it closes more than it opens.
  abbrev pub depth_after : ℕ → Bytes → Option ℕ
  depth_after d [] = some d
  depth_after zero (c ∷ s) =
      let opened = depth_after 1 s in
      let next = depth_after 0 s in
      if c == opener then opened else if c == closer then none else next
  depth_after (suc d) (c ∷ s) =
      let opened = depth_after (suc (suc d)) s in
      let closed = depth_after d s in
      let next = depth_after (suc d) s in
      if c == opener then opened else if c == closer then closed else next

  abbrev pub Closes : ℕ → Bytes → Option (Bytes × Bytes) → Type 0
  Closes d s none = (e : ℕ) × (depth_after d s ≡ some e)
  Closes d s (some (contents, rest)) =
      (s ≡ contents ++ closer ∷ rest) × (depth_after d contents ≡ some 0)

  Closes-cons :
      (d e c : ℕ) (s : Bytes) (r : Option (Bytes × Bytes))
      → ((t : Bytes) → depth_after d (c ∷ t) ≡ depth_after e t)
      → Closes e s r
      → Closes d (c ∷ s) (cons_contents c r)
  Closes-cons d e c s none step (f, h) = (f, step s ∙ h)
  Closes-cons d e c s (some (contents, rest)) step (h, k) = (ap (◌∷◌ c) h, step contents ∙ k)

  balanced-Closes : (d : ℕ) (s : Bytes) → Closes d s (balanced opener closer d s)
  unfolding balanced
  balanced-Closes d [] = (d, refl)
  balanced-Closes zero (c ∷ s) = elim (Bool-cases (c == opener)) [
    | inl o ↦
        rw o
          (Closes-cons 0 1 c s (balanced opener closer 1 s) (λ t. rw o refl) (balanced-Closes 1 s))
    | inr n ↦ rw n (elim (Bool-cases (c == closer)) [
      | inl e ↦ rw e (let q : c ≡ closer = ground (arith, e) in ap (λ x. x ∷ s) q, refl)
      | inr m ↦ rw m (
          Closes-cons 0 0 c s (balanced opener closer 0 s) (λ t. rw n (rw m refl))
            (balanced-Closes 0 s))
    ])
  ]
  balanced-Closes (suc d) (c ∷ s) = elim (Bool-cases (c == opener)) [
    | inl o ↦ rw o (
        Closes-cons (suc d) (suc (suc d)) c s (balanced opener closer (suc (suc d)) s)
          (λ t. rw o refl) (balanced-Closes (suc (suc d)) s))
    | inr n ↦ rw n (elim (Bool-cases (c == closer)) [
      | inl e ↦ rw e (
          Closes-cons (suc d) d c s (balanced opener closer d s) (λ t. rw n (rw e refl))
            (balanced-Closes d s))
      | inr m ↦ rw m (
          Closes-cons (suc d) (suc d) c s (balanced opener closer (suc d) s) (λ t. rw n (rw m refl))
            (balanced-Closes (suc d) s))
    ])
  ]

  -- What `findBalancedContents` gives of a text behind an opening bracket.
  abbrev pub IsContents : Bytes → Option Bytes → Type 0
  IsContents s none = (e : ℕ) × (depth_after 0 s ≡ some e)
  IsContents s (some contents) =
      (rest : Bytes) × (s ≡ contents ++ closer ∷ rest) × (depth_after 0 contents ≡ some 0)

  contents_of-IsContents :
      (s : Bytes) (r : Option (Bytes × Bytes)) → Closes 0 s r → IsContents s (contents_of r)
  contents_of-IsContents s none h = h
  contents_of-IsContents s (some (contents, rest)) (h, k) = (rest, h, k)

  -- The contents of a bracket are what stands before its closing bracket, with every bracket inside them
  -- closed; there are none exactly if no bracket behind the opening one closes it.
  pub find_balanced_contents-IsContents :
      (c : ℕ) (s : Bytes) → IsContents s (find_balanced_contents opener closer (c ∷ s))
  unfolding find_balanced_contents
  find_balanced_contents-IsContents c s =
      contents_of-IsContents s (balanced opener closer 0 s) (balanced-Closes 0 s)
