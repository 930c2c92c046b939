-- ===== src/Completions/Context/Roles.antt =====
-- `CompletionContext::fromLocation` of src/completions/CompletionContext.cpp against the table of
-- SystemVerilog's syntax.
use slang_server.Common.{
  ℕ, ◌≤◌, ◌<◌, Bool, true, false, ◌&&◌, List, [], ◌∷◌, ◌++◌, Option, none, some, ltb, map, ◌≡◌,
  refl, ap, arith, Bool-cases, inl, inr, ◌⊎◌, if◌then◌else◌,
}
use slang_server.Syntax.{SourceLocation, SyntaxIndexer}
use slang_server.Syntax.Parent.{get_syntax_at, SyntaxAt, get_syntax_at_exact}
use slang_server.Completions.Context.{
  SyntaxKind, SyntaxNode, CompletionContextKind, unknown, module_member, procedural, expression,
  port_list, is_expression_context, is_port_list_context, is_module_member_context,
  is_procedural_block_context, without_node, or_walk_on, classify, walk_up, context_above,
  context_at,
}
use slang_server.Completions.Context.Table.{
  value_places, port_lists, item_lists, procedures, Among, all-Among, value_place, port_list_place,
  item_list, procedure,
}

-- No list but that of the values has the kind.
abbrev Plain : SyntaxKind → Type 0
Plain k = (Among k procedures → ⊥) × (Among k port_lists → ⊥) × (Among k item_lists → ⊥)

not-Among :
    (P : SyntaxKind → Bool) (k : SyntaxKind) (xs : List SyntaxKind)
    → P k ≡ false
    → (Among k xs → P k ≡ true)
    → Among k xs
    → ⊥
not-Among P k xs out all_in a = cc (out, all_in a)

module _ (is_assignment is_member : SyntaxKind → Bool) where
  -- What a node gives: an assignment, a place of a value and another member whose first token ends
  -- before the cursor an expression, and what the lists have the context of the list.
  abbrev pub Gives : ℕ → SyntaxNode → CompletionContextKind → Type 0
  Gives loc n expression =
      (is_assignment n.kind ≡ true)
      ⊎ (Among n.kind value_places
          ⊎ (Plain n.kind × (is_member n.kind ≡ true) × (n.first_token_stop < loc)))
  Gives loc n procedural = (is_assignment n.kind ≡ false) × Among n.kind procedures
  Gives loc n port_list = (is_assignment n.kind ≡ false) × Among n.kind port_lists
  Gives loc n module_member = (is_assignment n.kind ≡ false) × Among n.kind item_lists
  Gives loc n unknown = ⊥

  abbrev pub GivesNone : ℕ → SyntaxNode → Type 0
  GivesNone loc n =
      (is_assignment n.kind ≡ false)
      × (Among n.kind value_places → ⊥)
      × Plain n.kind
      × (is_member n.kind ≡ true → loc ≤ n.first_token_stop)

  abbrev Role : ℕ → SyntaxNode → Option CompletionContextKind → Type 0
  Role loc n none = GivesNone loc n
  Role loc n (some k) = Gives loc n k

  member-Role :
      (loc : ℕ) (n : SyntaxNode)
      → is_assignment n.kind ≡ false
      → (Among n.kind value_places → ⊥)
      → Plain n.kind
      → Role loc n
          (if is_member n.kind && ltb n.first_token_stop loc then some expression else none)
  member-Role loc n a v p = elim (Bool-cases (is_member n.kind)) [
    | inr out ↦ rw out (a, v, p, λ h. cc (out, h))
    | inl hit ↦ elim (Bool-cases (ltb n.first_token_stop loc)) [
      | inl before ↦ rw hit (rw before (inr (inr (p, hit, ground arith))))
      | inr behind ↦ rw hit (rw behind (a, v, p, λ h. ground arith))
    ]
  ]

  classify-Role : (loc : ℕ) (n : SyntaxNode) → Role loc n (classify is_assignment is_member loc n)
  unfolding classify
  classify-Role loc n = elim (Bool-cases (is_assignment n.kind)) [
    | inl hit ↦ rw hit (inl hit)
    | inr a ↦ rw a (elim (Bool-cases (is_expression_context n.kind)) [
      | inl hit ↦ rw hit (inr (inl (value_place n.kind hit)))
      | inr v ↦ rw v (elim (Bool-cases (is_procedural_block_context n.kind)) [
        | inl hit ↦ rw hit (a, procedure n.kind hit)
        | inr b ↦ rw b (elim (Bool-cases (is_port_list_context n.kind)) [
          | inl hit ↦ rw hit (a, port_list_place n.kind hit)
          | inr p ↦ rw p (elim (Bool-cases (is_module_member_context n.kind)) [
            | inl hit ↦ rw hit (a, item_list n.kind hit)
            | inr m ↦ rw m (
                member-Role loc n a
                  (not-Among is_expression_context n.kind value_places v (
                    all-Among is_expression_context n.kind value_places
                      (unfold is_expression_context in refl)))
                  (
                    not-Among is_procedural_block_context n.kind procedures b (
                        all-Among is_procedural_block_context n.kind procedures
                          (unfold is_procedural_block_context in refl)),
                    not-Among is_port_list_context n.kind port_lists p (
                        all-Among is_port_list_context n.kind port_lists
                          (unfold is_port_list_context in refl)),
                    not-Among is_module_member_context n.kind item_lists m (
                        all-Among is_module_member_context n.kind item_lists
                          (unfold is_module_member_context in refl)),
                  ))
          ])
        ])
      ])
    ])
  ]

  abbrev pub AllGiveNone : ℕ → List SyntaxNode → Type 0
  AllGiveNone loc [] = Unit {0}
  AllGiveNone loc (n ∷ ns) = GivesNone loc n × AllGiveNone loc ns

  -- The nearest node that gives a context gives this one, or no node gives one.
  abbrev pub NearestGives : ℕ → List SyntaxNode → Bool → CompletionContextKind → Type 0
  NearestGives loc ns scope k =
      (AllGiveNone loc ns × (k ≡ without_node scope))
      ⊎ ((near : List SyntaxNode) × (n : SyntaxNode) × (far : List SyntaxNode) × (ns
            ≡ near ++ n ∷ far)
          × AllGiveNone loc near
          × Gives loc n k)

  cons-NearestGives :
      (loc : ℕ) (n : SyntaxNode) (ns : List SyntaxNode) (scope : Bool) (k : CompletionContextKind)
      (o : Option CompletionContextKind)
      → Role loc n o
      → NearestGives loc ns scope k
      → NearestGives loc (n ∷ ns) scope (or_walk_on is_assignment is_member o k)
  cons-NearestGives loc n ns scope k (some c) h rest = inr ([], n, ns, refl, tt, h)
  cons-NearestGives loc n ns scope k none h (inl (out, e)) = inl ((h, out), e)
  cons-NearestGives loc n ns scope k none h (inr (near, m, far, e, out, c)) =
      inr (n ∷ near, m, far, ap (◌∷◌ n) e, (h, out), c)

  walk_up-NearestGives :
      (loc : ℕ) (scope : Bool) (ns : List SyntaxNode)
      → NearestGives loc ns scope (walk_up is_assignment is_member loc scope ns)
  unfolding walk_up
  walk_up-NearestGives loc scope [] = inl (tt, refl)
  walk_up-NearestGives loc scope (n ∷ ns) =
      cons-NearestGives loc n ns scope (walk_up is_assignment is_member loc scope ns)
        (classify is_assignment is_member loc n) (classify-Role loc n)
        (walk_up-NearestGives loc scope ns)

  module _ (chain : ℕ → List ℕ) (node : ℕ → SyntaxNode) where
    abbrev pub ContextGiven : ℕ → Bool → Option ℕ → CompletionContextKind → Type 0
    ContextGiven loc scope none k = k ≡ without_node scope
    ContextGiven loc scope (some n) k = NearestGives loc (map node (chain n)) scope k

    context_above-ContextGiven :
        (loc : ℕ) (scope : Bool) (r : Option ℕ)
        → ContextGiven loc scope r (context_above is_assignment is_member chain node loc scope r)
    context_above-ContextGiven loc scope none = refl
    context_above-ContextGiven loc scope (some n) =
        walk_up-NearestGives loc scope (map node (chain n))

    -- The context of a cursor is that which the nearest node, from the syntax at the cursor upwards,
    -- gives: an expression for an assignment, a place of a value, or a member that is no procedure, no
    -- port list and no list of items and whose first token ends before the cursor; and what the tables
    -- of procedures, of port lists and of lists of items say. Where no node gives one it is a module's
    -- items if the cursor is in a scope, and unknown if not.
    pub context_at-ContextGiven :
        (ix : SyntaxIndexer) (scope : Bool) (loc : SourceLocation)
        → (r : Option ℕ) × SyntaxAt chain ix loc r
          × ContextGiven loc.offset scope r
              (context_at is_assignment is_member chain node ix scope loc)
    unfolding context_at
    context_at-ContextGiven ix scope loc = (
      get_syntax_at chain ix loc,
      get_syntax_at_exact chain ix loc,
      context_above-ContextGiven loc.offset scope (get_syntax_at chain ix loc),
    )
