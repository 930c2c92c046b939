-- ===== src/Completions/Item.antt =====
-- Completion items and their text edits: `setCompletionEdit`, `updateCompletionEditText` and
-- `getCompletionItemResolve` of src/completions/CompletionDispatch.cpp.
use slang_server.Common.{
  ℕ, Bool, true, false, ◌&&◌, ◌||◌, [], ◌∷◌, Option, none, some, Bytes, ◌==◌, if◌then◌else◌,
}
use slang_server.Snippet.{empty_snippet, append_text}
use slang_server.Completions.Query.{Range}

-- The item kinds that the code compares with, and the others.
pub data CompletionItemKind : Type 0 where
  constant_item module_item : CompletionItemKind
  other_item : ℕ → CompletionItemKind

pub data InsertTextFormat : Type 0 where
  plain_text snippet : InsertTextFormat

-- The two alternatives of `textEdit`, with the new text.
pub data ItemEdit : Type 0 where
  text_edit : Range → Bytes → ItemEdit
  insert_replace_edit : Range → Range → Bytes → ItemEdit

-- The fields that the code reads or writes.
pub record CompletionItem : Type 0 where
  pub label : Bytes
  pub kind : Option CompletionItemKind
  pub insert_text : Option Bytes
  pub insert_text_format : Option InsertTextFormat
  pub edit : Option ItemEdit
  pub documentation : Option Bytes

unfoldable pub is_constant : Option CompletionItemKind → Bool
is_constant (some constant_item) = true
is_constant _ = false

unfoldable pub is_module : Option CompletionItemKind → Bool
is_module (some module_item) = true
is_module _ = false

unfoldable pub is_snippet : Option InsertTextFormat → Bool
is_snippet (some snippet) = true
is_snippet _ = false

abbrev pub value_or : Option Bytes → Bytes → Bytes
value_or none d = d
value_or (some x) d = x

-- The first branch: the item keeps its label as its text.
abbrev pub keep_shape : Bool → CompletionItem → CompletionItem
keep_shape true item = record item {
  insert_text = some item.label;
  insert_text_format = some plain_text;
}
keep_shape false item = item

abbrev pub escaped_label : Bytes → Bytes
escaped_label label = (append_text label empty_snippet).value

abbrev pub edit_text : Bool → CompletionItem → Bytes
edit_text use_label item =
    if use_label && is_snippet item.insert_text_format
    then escaped_label item.label
    else if use_label
    then item.label
    else value_or item.insert_text item.label

abbrev pub with_edit : Range → Bool → Bool → CompletionItem → CompletionItem
with_edit range call instantiation item = record item {
  edit = some (
      text_edit range (
        edit_text
          ((call && is_snippet item.insert_text_format) || (instantiation && is_module item.kind))
          item));
}

unfoldable pub set_completion_edit : Range → Bool → Bool → CompletionItem → CompletionItem
unfolding is_constant is_module is_snippet
set_completion_edit range call instantiation item =
    with_edit range call instantiation
      (keep_shape ((call && is_constant item.kind) || (instantiation && is_module item.kind)) item)

abbrev pub set_new_text : Bytes → ItemEdit → ItemEdit
set_new_text text (text_edit range old) = text_edit range text
set_new_text text (insert_replace_edit insert replace old) = insert_replace_edit insert replace text

abbrev pub updated : Option Bytes → Option ItemEdit → CompletionItem → CompletionItem
updated (some text) (some e) item = record item { edit = some (set_new_text text e) }
updated _ _ item = item

unfoldable pub update_completion_edit_text : CompletionItem → CompletionItem
update_completion_edit_text item = updated item.insert_text item.edit item

abbrev pub is_system : Bytes → Bool
is_system [] = false
is_system (c ∷ s) = c == b'$'

-- `none` where a resolver throws, and where `*item.kind` is read of an item that has no kind. The three
-- resolvers are arguments.
abbrev pub resolve_kind :
    (of_macro of_instance of_member : CompletionItem → Option CompletionItem)
    → Option CompletionItemKind
    → CompletionItem
    → Option CompletionItem
resolve_kind of_macro of_instance of_member none item = none
resolve_kind of_macro of_instance of_member (some constant_item) item = of_macro item
resolve_kind of_macro of_instance of_member (some module_item) item = of_instance item
resolve_kind of_macro of_instance of_member (some (other_item n)) item = of_member item

unfoldable pub get_completion_item_resolve :
    (of_macro of_instance of_member : CompletionItem → Option CompletionItem)
    → CompletionItem
    → Option CompletionItem
get_completion_item_resolve of_macro of_instance of_member item =
    if is_system item.label
    then some item
    else resolve_kind of_macro of_instance of_member item.kind item
