-- ===== src/Completions/Macro/Expand.antt =====
-- What an editor makes of the snippet of a macro completion of src/completions/MacroCompletions.cpp.
use slang_server.Common.{
  ℕ, zero, suc, ◌+◌, ◌≤◌, Bool, true, false, List, [], ◌∷◌, ◌++◌, Option, none, some, Bytes, codes,
  length, ◌≡◌, refl, sym, ap, ◌∙◌, arith, append_assoc, append-nil,
}
use slang_server.Common.Decimal.{to_string}
use slang_server.Snippet.{
  SnippetString, empty_snippet, escape, append_text, append_placeholder, placeholder_text,
}
use slang_server.Snippet.Reader.{read_text, Stop, bare, placeholder, choice, malformed, read_stop}
use slang_server.Snippet.RoundTrip.{EndsText, read_text-escape, read_stop_placeholder}
use slang_server.Completions.Macro.{DefineDirective, append_arguments, get_completion_text}

abbrev after_stop : (Bytes → Bytes) → Stop → Bytes
after_stop again (bare n rest) = again rest
after_stop again (placeholder n text rest) = text ++ again rest
after_stop again (choice n [] rest) = again rest
after_stop again (choice n (v ∷ vs) rest) = v ++ again rest
after_stop again malformed = []

abbrev at_stop : (Bytes → Bytes) → Bytes × Bytes → Bytes
at_stop again (text, []) = text
at_stop again (text, c ∷ rest) = text ++ after_stop again (read_stop (c ∷ rest))

-- The text that a snippet puts into the document while its tab stops hold what they start with, for
-- at most `fuel` stops.
unfoldable pub expand : ℕ → Bytes → Bytes
expand zero s = []
expand (suc fuel) s = at_stop (expand fuel) (read_text s)

abbrev pub later_arguments : List Bytes → Bytes
later_arguments [] = codes ")"
later_arguments (a ∷ args) = codes ", " ++ (a ++ later_arguments args)

abbrev pub arguments : List Bytes → Bytes
arguments [] = codes ")"
arguments (a ∷ args) = a ++ later_arguments args

-- The call of a macro on the names of its formal arguments.
abbrev pub call_text : DefineDirective → Bytes
call_text m = elim m.formal_arguments [
  | none ↦ b'`' ∷ m.name
  | some args ↦ b'`' ∷ (m.name ++ (b'(' ∷ arguments args))
]

abbrev pub stops : DefineDirective → ℕ
stops m = elim m.formal_arguments [ none ↦ 0 | some args ↦ length args ]

pub escape-append : (a b : Bytes) → escape (a ++ b) ≡ escape a ++ escape b
unfolding escape
escape-append [] b = refl
escape-append (c ∷ a) b = rw (escape-append a b) (sym (append_assoc _ (escape a) (escape b)))

-- The snippet text of the arguments from the tab stop `n` on, and of the parenthesis behind them.
abbrev later_snippet : ℕ → List Bytes → Bytes
later_snippet n [] = escape (codes ")")
later_snippet n (a ∷ args) =
    escape (codes ", ") ++ (placeholder_text n a ++ later_snippet (n + 1) args)

abbrev arguments_snippet : ℕ → List Bytes → Bytes
arguments_snippet n [] = escape (codes ")")
arguments_snippet n (a ∷ args) = placeholder_text n a ++ later_snippet (n + 1) args

append_later :
    (args : List Bytes) (s : SnippetString)
    → (append_text (codes ")") (append_arguments true args s)).value
      ≡ s.value ++ later_snippet s.tabstop args
unfolding append_text append_arguments append_placeholder
append_later [] s = refl
append_later (a ∷ args) s =
    append_later args _
    ∙ append_assoc (s.value ++ escape (codes ", ")) (placeholder_text s.tabstop a) _
    ∙ append_assoc s.value (escape (codes ", ")) _

append_first :
    (args : List Bytes) (s : SnippetString)
    → (append_text (codes ")") (append_arguments false args s)).value
      ≡ s.value ++ arguments_snippet s.tabstop args
unfolding append_text append_arguments append_placeholder
append_first [] s = refl
append_first (a ∷ args) s =
    append_later args _ ∙ append_assoc s.value (placeholder_text s.tabstop a) _

pub expand-text :
    (fuel : ℕ) (text rest : Bytes)
    → EndsText rest
    → expand (suc fuel) (escape text ++ rest) ≡ at_stop (expand fuel) (text, rest)
unfolding expand
expand-text fuel text rest h = ap (at_stop (expand fuel)) (read_text-escape text rest h)

pub stop-placeholder :
    (fuel n : ℕ) (text value rest : Bytes)
    → at_stop (expand fuel) (text, placeholder_text n value ++ rest)
      ≡ text ++ (value ++ expand fuel rest)
stop-placeholder fuel n text value rest =
    rw (append_assoc (to_string n) _ rest, append_assoc (escape value) _ rest)
      (ap (λ x. text ++ after_stop (expand fuel) x) (read_stop_placeholder n value rest))

later-expand :
    (args : List Bytes) (n fuel : ℕ)
    → length args ≤ fuel
    → expand (suc fuel) (later_snippet n args) ≡ later_arguments args
later-expand [] n fuel h =
    ap (expand (suc fuel)) (sym (append-nil (escape (codes ")"))))
    ∙ expand-text fuel (codes ")") [] tt
later-expand (a ∷ args) n zero h = absurd (omega (arith, h))
later-expand (a ∷ args) n (suc fuel) h =
    expand-text (suc fuel) (codes ", ") (placeholder_text n a ++ later_snippet (n + 1) args) refl
    ∙ stop-placeholder (suc fuel) n (codes ", ") a (later_snippet (n + 1) args)
    ∙ ap (λ x. codes ", " ++ (a ++ x)) (later-expand args (n + 1) fuel (omega (arith, h)))

first-expand :
    (text : Bytes) (args : List Bytes) (n fuel : ℕ)
    → length args ≤ fuel
    → expand (suc fuel) (escape text ++ arguments_snippet n args) ≡ text ++ arguments args
first-expand text [] n fuel h =
    ap (expand (suc fuel))
      (sym (escape-append text (codes ")")) ∙ sym (append-nil (escape (text ++ codes ")"))))
    ∙ expand-text fuel (text ++ codes ")") [] tt
first-expand text (a ∷ args) n zero h = absurd (omega (arith, h))
first-expand text (a ∷ args) n (suc fuel) h =
    expand-text (suc fuel) text (placeholder_text n a ++ later_snippet (n + 1) args) refl
    ∙ stop-placeholder (suc fuel) n text a (later_snippet (n + 1) args)
    ∙ ap (λ x. text ++ (a ++ x)) (later-expand args (n + 1) fuel (omega (arith, h)))

name_text : (name : Bytes) → escape (codes "`") ++ escape name ≡ escape (b'`' ∷ name)
name_text name = sym (escape-append (codes "`") name)

formals-expand :
    (formals : Option (List Bytes)) (name : Bytes) (located : Bool) (fuel : ℕ)
    → (let m : DefineDirective = record {
      name = name;
      formal_arguments = formals;
      has_location = located;
    } in
        stops m ≤ fuel → expand (suc fuel) (get_completion_text m) ≡ call_text m)
unfolding get_completion_text append_text empty_snippet
formals-expand none name located fuel h =
    ap (expand (suc fuel)) (name_text name ∙ sym (append-nil (escape (b'`' ∷ name))))
    ∙ expand-text fuel (b'`' ∷ name) [] tt
formals-expand (some args) name located fuel h =
    let opened : (escape (codes "`") ++ escape name) ++ escape (codes "(")
        ≡ escape (b'`' ∷ (name ++ codes "(")) =
      ap (λ x. x ++ escape (codes "(")) (name_text name)
      ∙ sym (escape-append (b'`' ∷ name) (codes "(")) in
    ap (expand (suc fuel)) (
      append_first args
        (record { value = (escape (codes "`") ++ escape name) ++ escape (codes "("); tabstop = 1 })
      ∙ ap (λ x. x ++ arguments_snippet 1 args) opened)
    ∙ first-expand (b'`' ∷ (name ++ codes "(")) args 1 fuel h
    ∙ ap (◌∷◌ b'`') (append_assoc name (codes "(") (arguments args))

-- The snippet of a macro puts the call of the macro on the names of its formal arguments into the
-- document, or its bare name where it takes none: whatever bytes the names hold, the fuel being above the number of arguments.
pub get_completion_text-expand :
    (m : DefineDirective) (fuel : ℕ)
    → stops m ≤ fuel
    → expand (suc fuel) (get_completion_text m) ≡ call_text m
get_completion_text-expand m fuel h = formals-expand m.formal_arguments m.name m.has_location fuel h
