-- ===== src/Completions/SystemTask.antt =====
-- src/completions/SystemTaskCompletions.cpp: the snippet of a system task from the signature in its
-- documentation.
use slang_server.Common.{
  ℕ, Bool, true, false, not, ◌&&◌, ◌||◌, List, [], ◌∷◌, Option, none, some, Bytes, codes, equal,
  is_empty, if◌then◌else◌,
}
use slang_server.Snippet.{
  SnippetString, empty_snippet, append_text, append_placeholder, append_tabstop,
}
use slang_server.Completions.Signature.{
  SignatureArgs, call_args, with_clause, get_system_subroutine_insert_text, starts_with_text,
  get_signature_args, strip_optional_segments, split_signature_args, strip_optional_arg_markers,
  has_default_value, get_with_clause_placeholder, get_argument_placeholder,
}

unfoldable pub should_quote_placeholder : Bytes → Bool
should_quote_placeholder placeholder = equal placeholder (codes "format")

unfoldable pub should_include_default_placeholder : Bytes → Bool → Bool
should_include_default_placeholder placeholder skipped =
    equal placeholder (codes "format") && not skipped

unfoldable pub has_ellipsis : Bytes → Bool
unfolding starts_with_text
has_ellipsis [] = false
has_ellipsis (c ∷ s) = starts_with_text (codes "...") (c ∷ s) || has_ellipsis s

-- The snippet with `needsComma`, `hasFinalTabstop` and `skippedDefaultPlaceholder`.
pub record Building : Type 0 where
  pub text : SnippetString
  pub needs_comma : Bool
  pub has_final_tabstop : Bool
  pub skipped_default : Bool

module _ (is_whitespace is_alpha_numeric : ℕ → Bool) where
  abbrev pub with_comma : Bool → SnippetString → SnippetString
  with_comma needs s = if needs then append_text (codes ", ") s else s

  abbrev pub append_argument : Bytes → SnippetString → SnippetString
  append_argument placeholder s =
      if is_empty placeholder
      then append_tabstop (some 0) s
      else if should_quote_placeholder placeholder
      then append_text (codes "\"")
          (append_placeholder placeholder none (append_text (codes "\"") s))
      else append_placeholder placeholder none s

  abbrev pub add_placeholder : Bool → Option Bytes → Building → Building
  add_placeholder defaulted none b = b
  add_placeholder defaulted (some placeholder) b =
      if is_empty placeholder && b.skipped_default
      then b
      else if defaulted && not (should_include_default_placeholder placeholder b.skipped_default)
      then record b { skipped_default = true }
      else record b {
        text = append_argument placeholder (with_comma b.needs_comma b.text);
        needs_comma = true;
        has_final_tabstop = b.has_final_tabstop || is_empty placeholder;
      }

  -- The loop over the arguments.
  unfoldable pub add_arguments : List Bytes → Building → Building
  unfolding get_argument_placeholder has_default_value should_include_default_placeholder
      should_quote_placeholder
  add_arguments [] b = b
  add_arguments (arg ∷ args) b = add_arguments args (
      add_placeholder
        (has_default_value is_whitespace is_alpha_numeric
          (strip_optional_arg_markers is_whitespace is_alpha_numeric arg))
        (get_argument_placeholder is_whitespace is_alpha_numeric arg) b)

  abbrev pub close_call : Bytes → Building → SnippetString
  close_call args b = append_text (codes ")") (
      if not b.needs_comma && equal args (codes "...")
      then append_tabstop (some 0) b.text
      else if b.needs_comma && has_ellipsis args && not b.has_final_tabstop
      then append_tabstop (some 0) (append_text (codes ", ") b.text)
      else b.text)

  abbrev pub call_snippet : Bytes → SnippetString → SnippetString
  call_snippet args s = close_call args (
      add_arguments (split_signature_args is_whitespace is_alpha_numeric args) (record {
        text = append_text (codes "(") s;
        needs_comma = false;
        has_final_tabstop = false;
        skipped_default = false;
      }))

  unfoldable pub build_snippet_from_args : Bytes → SignatureArgs → Bytes
  unfolding add_arguments split_signature_args strip_optional_segments get_with_clause_placeholder
      has_ellipsis
  build_snippet_from_args insert_text (with_clause args) =
      (append_text (codes ")") (
        append_placeholder (get_with_clause_placeholder is_whitespace is_alpha_numeric args) none
          (append_text (codes " with (") (append_text insert_text empty_snippet)))).value
  build_snippet_from_args insert_text (call_args args) =
      (call_snippet (strip_optional_segments is_whitespace is_alpha_numeric args)
        (append_text insert_text empty_snippet)).value

  abbrev pub snippet_of_args : Bytes → Option SignatureArgs → Bytes
  snippet_of_args insert_text none = (append_text insert_text empty_snippet).value
  snippet_of_args insert_text (some args) = build_snippet_from_args insert_text args

  -- The signature is that of the documentation, if there is one.
  unfoldable pub get_system_subroutine_snippet : Bytes → Option Bytes → Bytes
  unfolding build_snippet_from_args get_signature_args get_system_subroutine_insert_text
  get_system_subroutine_snippet label none = get_system_subroutine_insert_text label
  get_system_subroutine_snippet label (some signature) =
      snippet_of_args (get_system_subroutine_insert_text label)
        (get_signature_args is_whitespace is_alpha_numeric label signature)
