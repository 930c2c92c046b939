-- ===== src/Completions/Context/Table.antt =====
-- Which syntax gives which context in src/completions/CompletionContext.cpp, as a table of SystemVerilog's
-- syntax.
use slang_server.Common.{Bool, true, List, [], ◌∷◌, all, ◌≡◌, refl, arith, inl, inr, ◌⊎◌}
use slang_server.Completions.Context.{
  SyntaxKind, ordered_port_connection, named_port_connection, ordered_argument, named_argument,
  ordered_param_assignment, named_param_assignment, conditional_expression, conditional_statement,
  parenthesized_expression, invocation_expression, equals_value_clause, macro_actual_argument,
  macro_actual_argument_list, ansi_port_list, non_ansi_port_list, wildcard_port_list,
  module_declaration, interface_declaration, program_declaration, package_declaration,
  class_declaration, generate_block, generate_region, function_declaration, task_declaration,
  always_block, always_comb_block, always_ff_block, always_latch_block, initial_block, final_block,
  sequential_block_statement, parallel_block_statement, other_syntax, is_expression_context,
  is_port_list_context, is_module_member_context, is_procedural_block_context,
}

-- The places of a value.
abbrev pub value_places : List SyntaxKind
value_places =
    ordered_port_connection ∷ named_port_connection ∷ ordered_argument ∷ named_argument
    ∷ ordered_param_assignment ∷ named_param_assignment ∷ conditional_expression
    ∷ conditional_statement ∷ parenthesized_expression ∷ invocation_expression ∷ equals_value_clause
    ∷ macro_actual_argument ∷ macro_actual_argument_list ∷ []

abbrev pub port_lists : List SyntaxKind
port_lists = ansi_port_list ∷ non_ansi_port_list ∷ wildcard_port_list ∷ []

-- What holds the items of a module or a class.
abbrev pub item_lists : List SyntaxKind
item_lists =
    module_declaration ∷ interface_declaration ∷ program_declaration ∷ package_declaration
    ∷ class_declaration ∷ generate_block ∷ generate_region ∷ []

-- What holds statements.
abbrev pub procedures : List SyntaxKind
procedures =
    function_declaration ∷ task_declaration ∷ always_block ∷ always_comb_block ∷ always_ff_block
    ∷ always_latch_block ∷ initial_block ∷ final_block ∷ sequential_block_statement
    ∷ parallel_block_statement ∷ []

abbrev pub Among : SyntaxKind → List SyntaxKind → Type 0
Among k [] = ⊥
Among k (x ∷ xs) = (k ≡ x) ⊎ Among k xs

pub all-Among :
    (P : SyntaxKind → Bool) (k : SyntaxKind) (xs : List SyntaxKind)
    → all P xs ≡ true
    → Among k xs
    → P k ≡ true
all-Among P k [] h a = elim a [ ]
all-Among P k (x ∷ xs) h (inl e) = rw e (ground (arith, h))
all-Among P k (x ∷ xs) h (inr a) = all-Among P k xs (ground (arith, h)) a

pub value_place : (k : SyntaxKind) → is_expression_context k ≡ true → Among k value_places
unfolding is_expression_context
value_place ordered_port_connection h = inl refl
value_place named_port_connection h = inr (inl refl)
value_place ordered_argument h = inr (inr (inl refl))
value_place named_argument h = inr (inr (inr (inl refl)))
value_place ordered_param_assignment h = inr (inr (inr (inr (inl refl))))
value_place named_param_assignment h = inr (inr (inr (inr (inr (inl refl)))))
value_place conditional_expression h = inr (inr (inr (inr (inr (inr (inl refl))))))
value_place conditional_statement h = inr (inr (inr (inr (inr (inr (inr (inl refl)))))))
value_place parenthesized_expression h = inr (inr (inr (inr (inr (inr (inr (inr (inl refl))))))))
value_place invocation_expression h = inr (inr (inr (inr (inr (inr (inr (inr (inr (inl refl)))))))))
value_place equals_value_clause h =
    inr (inr (inr (inr (inr (inr (inr (inr (inr (inr (inl refl))))))))))
value_place macro_actual_argument h =
    inr (inr (inr (inr (inr (inr (inr (inr (inr (inr (inr (inl refl)))))))))))
value_place macro_actual_argument_list h =
    inr (inr (inr (inr (inr (inr (inr (inr (inr (inr (inr (inr (inl refl))))))))))))
value_place ansi_port_list h = cc h
value_place non_ansi_port_list h = cc h
value_place wildcard_port_list h = cc h
value_place module_declaration h = cc h
value_place interface_declaration h = cc h
value_place program_declaration h = cc h
value_place package_declaration h = cc h
value_place class_declaration h = cc h
value_place generate_block h = cc h
value_place generate_region h = cc h
value_place function_declaration h = cc h
value_place task_declaration h = cc h
value_place always_block h = cc h
value_place always_comb_block h = cc h
value_place always_ff_block h = cc h
value_place always_latch_block h = cc h
value_place initial_block h = cc h
value_place final_block h = cc h
value_place sequential_block_statement h = cc h
value_place parallel_block_statement h = cc h
value_place (other_syntax n) h = cc h

pub port_list_place : (k : SyntaxKind) → is_port_list_context k ≡ true → Among k port_lists
unfolding is_port_list_context
port_list_place ordered_port_connection h = cc h
port_list_place named_port_connection h = cc h
port_list_place ordered_argument h = cc h
port_list_place named_argument h = cc h
port_list_place ordered_param_assignment h = cc h
port_list_place named_param_assignment h = cc h
port_list_place conditional_expression h = cc h
port_list_place conditional_statement h = cc h
port_list_place parenthesized_expression h = cc h
port_list_place invocation_expression h = cc h
port_list_place equals_value_clause h = cc h
port_list_place macro_actual_argument h = cc h
port_list_place macro_actual_argument_list h = cc h
port_list_place ansi_port_list h = inl refl
port_list_place non_ansi_port_list h = inr (inl refl)
port_list_place wildcard_port_list h = inr (inr (inl refl))
port_list_place module_declaration h = cc h
port_list_place interface_declaration h = cc h
port_list_place program_declaration h = cc h
port_list_place package_declaration h = cc h
port_list_place class_declaration h = cc h
port_list_place generate_block h = cc h
port_list_place generate_region h = cc h
port_list_place function_declaration h = cc h
port_list_place task_declaration h = cc h
port_list_place always_block h = cc h
port_list_place always_comb_block h = cc h
port_list_place always_ff_block h = cc h
port_list_place always_latch_block h = cc h
port_list_place initial_block h = cc h
port_list_place final_block h = cc h
port_list_place sequential_block_statement h = cc h
port_list_place parallel_block_statement h = cc h
port_list_place (other_syntax n) h = cc h

pub item_list : (k : SyntaxKind) → is_module_member_context k ≡ true → Among k item_lists
unfolding is_module_member_context
item_list ordered_port_connection h = cc h
item_list named_port_connection h = cc h
item_list ordered_argument h = cc h
item_list named_argument h = cc h
item_list ordered_param_assignment h = cc h
item_list named_param_assignment h = cc h
item_list conditional_expression h = cc h
item_list conditional_statement h = cc h
item_list parenthesized_expression h = cc h
item_list invocation_expression h = cc h
item_list equals_value_clause h = cc h
item_list macro_actual_argument h = cc h
item_list macro_actual_argument_list h = cc h
item_list ansi_port_list h = cc h
item_list non_ansi_port_list h = cc h
item_list wildcard_port_list h = cc h
item_list module_declaration h = inl refl
item_list interface_declaration h = inr (inl refl)
item_list program_declaration h = inr (inr (inl refl))
item_list package_declaration h = inr (inr (inr (inl refl)))
item_list class_declaration h = inr (inr (inr (inr (inl refl))))
item_list generate_block h = inr (inr (inr (inr (inr (inl refl)))))
item_list generate_region h = inr (inr (inr (inr (inr (inr (inl refl))))))
item_list function_declaration h = cc h
item_list task_declaration h = cc h
item_list always_block h = cc h
item_list always_comb_block h = cc h
item_list always_ff_block h = cc h
item_list always_latch_block h = cc h
item_list initial_block h = cc h
item_list final_block h = cc h
item_list sequential_block_statement h = cc h
item_list parallel_block_statement h = cc h
item_list (other_syntax n) h = cc h

pub procedure : (k : SyntaxKind) → is_procedural_block_context k ≡ true → Among k procedures
unfolding is_procedural_block_context
procedure ordered_port_connection h = cc h
procedure named_port_connection h = cc h
procedure ordered_argument h = cc h
procedure named_argument h = cc h
procedure ordered_param_assignment h = cc h
procedure named_param_assignment h = cc h
procedure conditional_expression h = cc h
procedure conditional_statement h = cc h
procedure parenthesized_expression h = cc h
procedure invocation_expression h = cc h
procedure equals_value_clause h = cc h
procedure macro_actual_argument h = cc h
procedure macro_actual_argument_list h = cc h
procedure ansi_port_list h = cc h
procedure non_ansi_port_list h = cc h
procedure wildcard_port_list h = cc h
procedure module_declaration h = cc h
procedure interface_declaration h = cc h
procedure program_declaration h = cc h
procedure package_declaration h = cc h
procedure class_declaration h = cc h
procedure generate_block h = cc h
procedure generate_region h = cc h
procedure function_declaration h = inl refl
procedure task_declaration h = inr (inl refl)
procedure always_block h = inr (inr (inl refl))
procedure always_comb_block h = inr (inr (inr (inl refl)))
procedure always_ff_block h = inr (inr (inr (inr (inl refl))))
procedure always_latch_block h = inr (inr (inr (inr (inr (inl refl)))))
procedure initial_block h = inr (inr (inr (inr (inr (inr (inl refl))))))
procedure final_block h = inr (inr (inr (inr (inr (inr (inr (inl refl)))))))
procedure sequential_block_statement h = inr (inr (inr (inr (inr (inr (inr (inr (inl refl))))))))
procedure parallel_block_statement h =
    inr (inr (inr (inr (inr (inr (inr (inr (inr (inl refl)))))))))
procedure (other_syntax n) h = cc h
