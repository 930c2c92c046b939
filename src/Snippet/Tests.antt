-- ===== src/Snippet/Tests.antt =====
-- Runs of the snippet builder of include/lsp/SnippetString.h, and instances of its theorems.
use slang_server.Common.{ℕ, List, [], ◌∷◌, ◌++◌, Option, none, some, ◌≡◌, refl, codes}
use slang_server.Common.Decimal.{to_string}
use slang_server.Snippet.{
  SnippetString, empty_snippet, append_text, append_tabstop, append_placeholder, append_choice,
  append_variable, append_variable_nested, next_tabstop,
}
use slang_server.Snippet.Reader.{read_stop, placeholder}
use slang_server.Snippet.RoundTrip.{written, append_placeholder-read}

abbrev greeting : SnippetString
greeting = record { value = codes "x = "; tabstop = 3 }

built :
    (append_choice
      (codes "a,b" ∷ codes "c" ∷ [])
      none
      (append_placeholder (codes "W}") (some 5) (append_text (codes "$f") empty_snippet))).value
    ≡ codes "\\$f${5:W\\}}${6|a\\,b,c|}"
unfolding append_choice append_placeholder append_text empty_snippet to_string
built = refl

variables :
    (append_variable_nested
      (codes "V")
      (append_tabstop none)
      (append_variable (codes "TM_FILENAME") [] empty_snippet)).value
    ≡ codes "${TM_FILENAME}${V:$1}"
unfolding append_variable_nested append_variable append_tabstop empty_snippet to_string
variables = refl

append_placeholder-read_example :
    read_stop (written greeting (append_placeholder (codes "{$}") (some 12) greeting) ++ codes "}")
    ≡ placeholder (next_tabstop (some 12) greeting).0 (codes "{$}") (codes "}")
append_placeholder-read_example =
    append_placeholder-read (codes "{$}") (some 12) (codes "}") greeting

abbrev requests : List (Option ℕ)
requests = none ∷ some 7 ∷ some 2 ∷ none ∷ []
