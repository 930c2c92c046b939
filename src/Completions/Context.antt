-- ===== src/Completions/Context.antt =====
-- `CompletionContext::fromLocation` of src/completions/CompletionContext.cpp: the context of a cursor, by
-- the nodes above it. `is_assignment` is slang's `SyntaxFacts::isAssignmentOperator` and `is_member` its
-- `MemberSyntax::isKind`.
pub mod Table
pub mod Roles
use slang_server.Common.{
  ℕ, Bool, true, false, ◌&&◌, ◌||◌, List, [], ◌∷◌, ◌++◌, Option, none, some, ltb, if◌then◌else◌,
  map, ◌≡◌, refl, inl, inr, ◌⊎◌, ap,
}
use slang_server.Syntax.{SourceLocation, SyntaxIndexer}
use slang_server.Syntax.Parent.{get_syntax_at, SyntaxAt, get_syntax_at_exact}

-- The kinds that the code names, and the others.
pub data SyntaxKind : Type 0 where
  ordered_port_connection named_port_connection ordered_argument named_argument
        ordered_param_assignment named_param_assignment conditional_expression conditional_statement
        parenthesized_expression invocation_expression equals_value_clause macro_actual_argument
        macro_actual_argument_list :
      SyntaxKind
  ansi_port_list non_ansi_port_list wildcard_port_list : SyntaxKind
  module_declaration interface_declaration program_declaration package_declaration class_declaration
        generate_block generate_region :
      SyntaxKind
  function_declaration task_declaration always_block always_comb_block always_ff_block
        always_latch_block initial_block final_block sequential_block_statement
        parallel_block_statement :
      SyntaxKind
  other_syntax : ℕ → SyntaxKind

-- A node: its kind and the end of its first token.
pub record SyntaxNode : Type 0 where
  pub kind : SyntaxKind
  pub first_token_stop : ℕ

pub data CompletionContextKind : Type 0 where
  unknown module_member procedural expression port_list : CompletionContextKind

unfoldable pub is_expression_context : SyntaxKind → Bool
is_expression_context ordered_port_connection = true
is_expression_context named_port_connection = true
is_expression_context ordered_argument = true
is_expression_context named_argument = true
is_expression_context ordered_param_assignment = true
is_expression_context named_param_assignment = true
is_expression_context conditional_expression = true
is_expression_context conditional_statement = true
is_expression_context parenthesized_expression = true
is_expression_context invocation_expression = true
is_expression_context equals_value_clause = true
is_expression_context macro_actual_argument = true
is_expression_context macro_actual_argument_list = true
is_expression_context _ = false

unfoldable pub is_port_list_context : SyntaxKind → Bool
is_port_list_context ansi_port_list = true
is_port_list_context non_ansi_port_list = true
is_port_list_context wildcard_port_list = true
is_port_list_context _ = false

unfoldable pub is_module_member_context : SyntaxKind → Bool
is_module_member_context module_declaration = true
is_module_member_context interface_declaration = true
is_module_member_context program_declaration = true
is_module_member_context package_declaration = true
is_module_member_context class_declaration = true
is_module_member_context generate_block = true
is_module_member_context generate_region = true
is_module_member_context _ = false

unfoldable pub is_procedural_block_context : SyntaxKind → Bool
is_procedural_block_context function_declaration = true
is_procedural_block_context task_declaration = true
is_procedural_block_context always_block = true
is_procedural_block_context always_comb_block = true
is_procedural_block_context always_ff_block = true
is_procedural_block_context always_latch_block = true
is_procedural_block_context initial_block = true
is_procedural_block_context final_block = true
is_procedural_block_context sequential_block_statement = true
is_procedural_block_context parallel_block_statement = true
is_procedural_block_context _ = false

abbrev pub without_node : Bool → CompletionContextKind
without_node scope = if scope then module_member else unknown

module _ (is_assignment is_member : SyntaxKind → Bool) where
  -- One round of the walk: the kind that it returns, or none where it goes on.
  unfoldable pub classify : ℕ → SyntaxNode → Option CompletionContextKind
  unfolding is_expression_context is_port_list_context is_module_member_context
      is_procedural_block_context
  classify loc n =
      if is_assignment n.kind || is_expression_context n.kind
      then some expression
      else if is_procedural_block_context n.kind
      then some procedural
      else if is_port_list_context n.kind
      then some port_list
      else if is_module_member_context n.kind
      then some module_member
      else if is_member n.kind && ltb n.first_token_stop loc
      then some expression
      else none

  abbrev pub or_walk_on :
      Option CompletionContextKind → CompletionContextKind → CompletionContextKind
  or_walk_on none rest = rest
  or_walk_on (some k) rest = k

  unfoldable pub walk_up : ℕ → Bool → List SyntaxNode → CompletionContextKind
  unfolding classify
  walk_up loc scope [] = without_node scope
  walk_up loc scope (n ∷ ns) = or_walk_on (classify loc n) (walk_up loc scope ns)

  module _ (chain : ℕ → List ℕ) (node : ℕ → SyntaxNode) where
    abbrev pub context_above : ℕ → Bool → Option ℕ → CompletionContextKind
    context_above loc scope none = without_node scope
    context_above loc scope (some n) = walk_up loc scope (map node (chain n))

    -- `scope` tells whether `getScopeAt` gave a scope.
    unfoldable pub context_at : SyntaxIndexer → Bool → SourceLocation → CompletionContextKind
    unfolding walk_up
    context_at ix scope loc = context_above loc.offset scope (get_syntax_at chain ix loc)
