-- ===== src/Completions/Macro.antt =====
-- src/completions/MacroCompletions.cpp: the completions of macros, and their resolution.
-- `sv_code_block` is the documentation that `svCodeBlock` makes of a macro, and `load` gives the macros of
-- a file's syntax tree, or none where it cannot be read.
pub mod Offers
pub mod Expand
pub mod Resolve
use slang_server.Common.{
  ℕ, Bool, true, false, not, ◌&&◌, ◌||◌, List, [], ◌∷◌, ◌++◌, Option, none, some, Bytes, codes,
  equal, ◌==◌, any, to_lower, if◌then◌else◌,
}
use slang_server.Snippet.{SnippetString, empty_snippet, append_text, append_placeholder}
use slang_server.Completions.Item.{
  CompletionItem, constant_item, snippet, update_completion_edit_text,
}

-- A macro of a syntax tree: its name, its formal arguments, and whether its name has a location.
pub record DefineDirective : Type 0 where
  pub name : Bytes
  pub formal_arguments : Option (List Bytes)
  pub has_location : Bool

-- The loop over the typed bytes.
unfoldable pub matches_from : Bytes → Bytes → Bool
matches_from name [] = true
matches_from [] (c ∷ typed) = false
matches_from (d ∷ name) (c ∷ typed) = (to_lower d == to_lower c) && matches_from name typed

abbrev pub remove_backtick : Bytes → Bytes
remove_backtick [] = []
remove_backtick (c ∷ s) = if c == b'`' then s else c ∷ s

unfoldable pub matches_prefix : Bytes → Bytes → Bool
unfolding matches_from
matches_prefix name typed = matches_from name (remove_backtick typed)

abbrev pub spelling : Bytes → Bytes
spelling name = b'`' ∷ name

-- `getCompletion` of a name.
abbrev pub get_name_completion : Bytes → CompletionItem
get_name_completion name = record {
  label = spelling name;
  kind = some constant_item;
  insert_text = none;
  insert_text_format = none;
  edit = none;
  documentation = none;
}

-- The loop over the arguments; the flag is `i > 0`.
unfoldable pub append_arguments : Bool → List Bytes → SnippetString → SnippetString
append_arguments later [] s = s
append_arguments later (a ∷ args) s =
    append_arguments true args
      (append_placeholder a none (if later then append_text (codes ", ") s else s))

abbrev pub append_formals : Option (List Bytes) → SnippetString → SnippetString
append_formals none s = s
append_formals (some args) s =
    append_text (codes ")") (append_arguments false args (append_text (codes "(") s))

unfoldable pub get_completion_text : DefineDirective → Bytes
unfolding append_arguments
get_completion_text m =
    (append_formals m.formal_arguments
      (append_text m.name (append_text (codes "`") empty_snippet))).value

abbrev pub or_snippet : DefineDirective → Option Bytes → CompletionItem → CompletionItem
or_snippet m (some text) item = item
or_snippet m none item = record item {
  insert_text = some (get_completion_text m);
  insert_text_format = some snippet;
}

-- The search among the labels so far.
abbrev pub seen : Bytes → List Bytes → Bool
seen label labels = any (λ l. equal l label) labels

-- `label.substr(1)`, which throws for an empty label.
abbrev pub substr_1 : Bytes → Option Bytes
substr_1 [] = none
substr_1 (c ∷ s) = some s

unfoldable pub find_macro : Bytes → List DefineDirective → Option DefineDirective
find_macro name [] = none
find_macro name (m ∷ ms) = if equal m.name name then some m else find_macro name ms

-- The second loop, over the macros of the index.
unfoldable pub add_names :
    Bytes → List Bytes → List Bytes × List CompletionItem → List Bytes × List CompletionItem
add_names typed [] acc = acc
add_names typed (n ∷ ns) (labels, results) = add_names typed ns (
    if not (matches_prefix n typed) || seen (spelling n) labels
    then (labels, results)
    else (spelling n ∷ labels, results ++ get_name_completion n ∷ []))

module _ (sv_code_block : DefineDirective → Bytes) where
  unfoldable pub resolve_macro : DefineDirective → CompletionItem → CompletionItem
  resolve_macro m item =
      or_snippet m item.insert_text (record item { documentation = some (sv_code_block m) })

  -- `getCompletion` of a macro.
  unfoldable pub get_macro_completion : DefineDirective → CompletionItem
  unfolding resolve_macro
  get_macro_completion m = resolve_macro m (get_name_completion m.name)

  -- The labels seen and the results of the first loop, over the document's macros.
  unfoldable pub add_macros :
      Bytes
      → List DefineDirective
      → List Bytes × List CompletionItem
      → List Bytes × List CompletionItem
  add_macros typed [] acc = acc
  add_macros typed (m ∷ ms) (labels, results) = add_macros typed ms (
      if not m.has_location || not (matches_prefix m.name typed) || seen (spelling m.name) labels
      then (labels, results)
      else (spelling m.name ∷ labels, results ++ get_macro_completion m ∷ []))

  unfoldable pub get_completions : Bytes → List DefineDirective → List Bytes → List CompletionItem
  unfolding add_macros add_names
  get_completions typed macros names = (add_names typed names (add_macros typed macros ([], []))).1

  abbrev pub resolve_found : Option DefineDirective → CompletionItem → CompletionItem
  resolve_found none item = item
  resolve_found (some m) item = update_completion_edit_text (resolve_macro m item)

  abbrev pub resolve_loaded :
      Bytes → Option (List DefineDirective) → CompletionItem → CompletionItem
  resolve_loaded name none item = item
  resolve_loaded name (some macros) item = resolve_found (find_macro name macros) item

  abbrev pub resolve_in :
      (load : Bytes → Option (List DefineDirective))
      → Bytes
      → List Bytes
      → CompletionItem
      → CompletionItem
  resolve_in load name [] item = item
  resolve_in load name (path ∷ paths) item = resolve_loaded name (load path) item

  abbrev pub resolve_name :
      (load : Bytes → Option (List DefineDirective)) (files_for_macro : Bytes → List Bytes)
      → Option Bytes
      → CompletionItem
      → Option CompletionItem
  resolve_name load files_for_macro none item = none
  resolve_name load files_for_macro (some name) item =
      some (resolve_in load name (files_for_macro name) item)

  -- `none` where it throws; `files_for_macro` is the index's `getFilesForMacro`.
  unfoldable pub resolve :
      (load : Bytes → Option (List DefineDirective)) (files_for_macro : Bytes → List Bytes)
      → CompletionItem
      → Option CompletionItem
  unfolding resolve_macro find_macro
  resolve load files_for_macro item = resolve_name load files_for_macro (substr_1 item.label) item
