-- ===== src/Completions/Tests.antt =====
-- Runs of the completions of src/completions, and instances of their theorems.
use slang_server.Common.{
  ℕ, ◌<◌, Bool, true, false, ◌&&◌, ◌||◌, List, [], ◌∷◌, Option, none, some, Bytes, codes, length,
  leb, ◌+◌, is_space, to_lower, is_upper, ◌==◌, if◌then◌else◌, ◌≡◌, refl, arith,
}
use slang_server.Syntax.{
  Token, identifier, dot, open_parenthesis, other_kind, SourceLocation, token_index_before, search,
  get_word_token_at, get_token_before, get_token_after, lower_bound, step_back, skip_open,
  word_token_from, is_id_token, editor_contains,
}
use slang_server.Syntax.Parent.{SyntaxAt}
use slang_server.Completions.Site.{Tokens, TriviaKind, whitespace, get_completion_site, word_target}
use slang_server.Completions.Query.{
  from_location, member_access, query_at, followed_by_call, is_double_colon, is_dot,
  is_open_parenthesis, is_separated_only_by_whitespace,
}
use slang_server.Completions.Context.{
  SyntaxKind, always_comb_block, module_declaration, other_syntax, SyntaxNode, context_at,
}
use slang_server.Completions.Context.Roles.{ContextGiven, context_at-ContextGiven}
use slang_server.Completions.Item.{CompletionItem}
use slang_server.Completions.Instance.{
  ModuleHeader, ports_of, max_len, spaces, pad, param_names, resolve_module_instance,
}
use slang_server.Completions.Instance.Params.{open_params}
use slang_server.Completions.Instance.Text.{instance_text, resolve_module_instance-expand}
use slang_server.Common.Decimal.{to_string}
use slang_server.Snippet.{append_text, append_placeholder, empty_snippet}
use slang_server.Completions.Signature.{find_balanced_contents}
use slang_server.Completions.SystemTask.{get_system_subroutine_snippet}
use slang_server.Completions.Signature.Brackets.{IsContents, find_balanced_contents-IsContents}
use slang_server.Formatting.{to_camel_case, lower_tail, ltrim}
use slang_server.Completions.Macro.{
  DefineDirective, get_name_completion, matches_prefix, get_completion_text, get_completions,
  spelling, seen,
}
use slang_server.Completions.Macro.Expand.{expand, get_completion_text-expand}
use slang_server.Completions.Macro.Offers.{labels_of, Distinct, declares, get_completions-Distinct}

-- `x.f (` and the empty token at the end of the file.
abbrev line : List Token
line =
    record { kind = identifier; start = 0; stop = 1 }
    ∷ record { kind = dot; start = 1; stop = 2 }
    ∷ record { kind = identifier; start = 2; stop = 3 }
    ∷ record { kind = open_parenthesis; start = 4; stop = 5 }
    ∷ record { kind = other_kind 1; start = 5; stop = 5 }
    ∷ []

abbrev text_at : ℕ → Bytes
text_at i =
    if i == 0
    then codes "x"
    else if i == 1
    then codes "."
    else if i == 2
    then codes "f"
    else codes "("

abbrev layout_at : ℕ → List TriviaKind
layout_at i = if i == 3 then whitespace ∷ [] else []

abbrev doc : Tokens
doc = record {
  syntaxes = record {
    buffer = 1;
    collected = line;
    token_to_parent = some 5 ∷ some 5 ∷ some 6 ∷ some 8 ∷ some 9 ∷ [];
  };
  raw_text = text_at;
  trivia = layout_at;
}

abbrev here : ℕ → SourceLocation
here o = record { buffer = 1; offset = o }

-- A member of `x`, in place of `f`, before a call.
at_member :
    from_location doc (here 3) ≡ member_access (record { start = 2; stop = 3 }) (some 0) true
unfolding from_location query_at get_completion_site word_target get_word_token_at get_token_before
    get_token_after token_index_before search lower_bound step_back skip_open word_token_from
    is_id_token editor_contains followed_by_call is_double_colon is_dot is_open_parenthesis
    is_separated_only_by_whitespace
at_member = refl

-- Node 5 is in node 7, node 6 is in node 7, and that is in the module 8.
abbrev chain : ℕ → List ℕ
chain n = if n == 8 then 8 ∷ [] else n ∷ 7 ∷ 8 ∷ []

abbrev node : ℕ → SyntaxNode
node n = record {
  kind =
      if n == 7 then always_comb_block else if n == 8 then module_declaration else other_syntax n;
  first_token_stop = 9;
}

abbrev never : SyntaxKind → Bool
never k = false

context_at-ContextGiven_example :
    (r : Option ℕ) × SyntaxAt chain doc.syntaxes (here 2) r
    × ContextGiven never never chain node 2 true r
        (context_at never never chain node doc.syntaxes true (here 2))
context_at-ContextGiven_example =
    context_at-ContextGiven never never chain node doc.syntaxes true (here 2)

abbrev adder : DefineDirective
adder = record {
  name = codes "ADD";
  formal_arguments = some (codes "a" ∷ codes "b" ∷ []);
  has_location = true;
}

abbrev plain : DefineDirective
plain = record { name = codes "WIDTH"; formal_arguments = none; has_location = false }

abbrev source_of : DefineDirective → Bytes
source_of m = m.name

get_completion_text-expand_example : expand 3 (get_completion_text adder) ≡ codes "`ADD(a, b)"
get_completion_text-expand_example = get_completion_text-expand adder 2 (omega arith)

get_completions-Distinct_example :
    Distinct (
      labels_of (
        get_completions source_of
          (codes "`a")
          (adder ∷ plain ∷ [])
          (codes "ADD" ∷ codes "AND" ∷ [])))
    × ((n : Bytes)
        → seen (spelling n) (
            labels_of (
              get_completions source_of
                (codes "`a")
                (adder ∷ plain ∷ [])
                (codes "ADD" ∷ codes "AND" ∷ [])))
          ≡ (matches_prefix n (codes "`a")
              && (declares n (adder ∷ plain ∷ []) || seen n (codes "ADD" ∷ codes "AND" ∷ []))))
get_completions-Distinct_example =
    get_completions-Distinct source_of (codes "`a") (adder ∷ plain ∷ [])
      (codes "ADD" ∷ codes "AND" ∷ [])

abbrev load : Bytes → Option (List DefineDirective)
load path = some (plain ∷ adder ∷ [])

abbrev files_for : Bytes → List Bytes
files_for name = codes "m.svh" ∷ []

abbrev keep : CompletionItem → Option CompletionItem
keep item = some item

-- `module fifo #(parameter W = 8, localparam L = 1, D) (clk, data)`
abbrev fifo : ModuleHeader
fifo = record {
  name = codes "Fifo";
  parameters = some (
      record {
        keyword = some false;
        declarators = record { name = codes "W"; default_text = some (codes " 8") } ∷ [];
      }
      ∷ record {
        keyword = some true;
        declarators = record { name = codes "L"; default_text = some (codes "1") } ∷ [];
      }
      ∷ record {
        keyword = none;
        declarators = record { name = codes "M"; default_text = none } ∷ [];
      }
      ∷ record {
        keyword = some false;
        declarators = record { name = codes "DEPTH"; default_text = none } ∷ [];
      }
      ∷ []);
  ports = some (codes "clk" ∷ codes "data" ∷ []);
}

fifo-fits : length (open_params fifo.parameters) + length (ports_of fifo.ports) < 5
fifo-fits = unfold open_params in omega arith

resolve_module_instance-expand_example :
    (t : Bytes) × ((resolve_module_instance [] false fifo
        (get_name_completion (codes "Fifo"))).insert_text
      ≡ some t)
    × (expand 6 t ≡ instance_text false fifo)
    × ((n : Bytes)
        → seen n (param_names (open_params fifo.parameters)) ≡ true
        → length (pad (max_len (param_names (open_params fifo.parameters))) n)
          ≡ max_len (param_names (open_params fifo.parameters)))
    × ((n : Bytes)
        → seen n (ports_of fifo.ports) ≡ true
        → length (pad (max_len (ports_of fifo.ports)) n) ≡ max_len (ports_of fifo.ports))
resolve_module_instance-expand_example =
    resolve_module_instance-expand [] false fifo (get_name_completion (codes "Fifo")) 5 refl
      fifo-fits

fifo_text :
    instance_text true fifo
    ≡ codes
        "(\n\t.W    (W /* default 8 */),\n\t.DEPTH(DEPTH)\n ) fifo (\n\t.clk (clk),\n\t.data(data)\n);"
unfolding open_params max_len pad spaces to_camel_case lower_tail ltrim is_space to_lower is_upper
fifo_text = refl

abbrev is_blank : ℕ → Bool
is_blank c = c == b' '

abbrev is_word_char : ℕ → Bool
is_word_char c = (leb b'a' c && leb c b'z') || (leb b'A' c && leb c b'Z')

find_balanced_contents-IsContents_example :
    IsContents b'(' b')'
      (codes "a(b), c) d")
      (find_balanced_contents b'(' b')' (codes "(a(b), c) d"))
find_balanced_contents-IsContents_example =
    find_balanced_contents-IsContents b'(' b')' b'(' (codes "a(b), c) d")

-- The optional segment goes, and the last argument has a default.
fopen_snippet :
    get_system_subroutine_snippet is_blank is_word_char
      (codes "$fopen")
      (some (codes "$fopen(string name [, string mode])"))
    ≡ codes "fopen(${1:name})"
unfolding get_system_subroutine_snippet append_text append_placeholder empty_snippet to_string
fopen_snippet = refl
