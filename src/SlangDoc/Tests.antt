-- ===== src/SlangDoc/Tests.antt =====
-- Edits of a small document for src/document/SlangDoc.cpp, with lines that end in a line feed.
use slang_server.Common.{
  ℕ, suc, false, List, [], ◌∷◌, ◌++◌, none, some, Bytes, ◌==◌, if◌then◌else◌, codes, length, ==_iff,
  ◌≡◌, refl, arith,
}
use slang_server.Diagnostics.Types.{Position}
use slang_server.SlangDoc.{
  ContentChange, partial, edited, changed_buffer, erase_insert, replace_between,
}
use slang_server.SlangDoc.Positions.{
  line_starts, line_starts-KnowsLines, lsp_offset, is_ascii_line, feed_return,
}
use slang_server.SlangDoc.Edits.{AllFit, apply_changes, changed_buffer-apply_changes}
use slang_server.SlangDoc.State.{
  Slang, SlangDoc, all_latest, on_change, reload_buffer, get_syntax_tree,
}
use slang_server.SlangDoc.Fresh.{
  IsSlang, Event, elsewhere, edits, reloads, asks, live, GivesLatest, get_syntax_tree-live,
  analyzed, on_change-get_analysis,
}

abbrev at : ℕ → ℕ → Position
at line character = record { line = line; character = character }

-- `ab` and `cd`: `c` becomes `xyz`, then the first line goes.
abbrev two_lines : Bytes
two_lines = codes "ab\ncd"

abbrev first : ContentChange
first = partial (record { start = at 1 0; stop = at 1 1 }) (codes "xyz")

abbrev second : ContentChange
second = partial (record { start = at 0 0; stop = at 1 0 }) []

edited_twice :
    changed_buffer line_starts (two_lines ++ 0 ∷ []) first (second ∷ [])
    ≡ edited (codes "xyzd" ++ 0 ∷ [])
unfolding changed_buffer line_starts
edited_twice = refl

-- In `aé😀b`, CR LF, `c`: `b` stands behind four code units, which are seven bytes; a character past the
-- end of its line is its end.
abbrev wide : Bytes
wide = b'a' ∷ 195 ∷ 169 ∷ 240 ∷ 159 ∷ 152 ∷ 128 ∷ b'b' ∷ b'\r' ∷ b'\n' ∷ b'c' ∷ []

wide_offsets :
    (lsp_offset wide (at 0 4) ≡ 7)
    × (lsp_offset wide (at 0 9) ≡ 8)
    × (lsp_offset wide (at 1 1) ≡ 11)
    × (line_starts wide ≡ 0 ∷ 10 ∷ [])
unfolding lsp_offset line_starts
wide_offsets = (refl, refl, refl, refl)

-- A range that ends before it starts: the first change of a batch keeps what lies between twice, a
-- later change keeps it once.
reversed_first : replace_between (codes "abcd") [] 3 1 ≡ edited (codes "abcbcd")
unfolding replace_between
reversed_first = refl

reversed_later : erase_insert (codes "abcd") [] 3 1 ≡ edited (codes "abcd")
unfolding erase_insert
reversed_later = refl

fitting : AllFit two_lines (first ∷ second ∷ [])
fitting =
    unfold feed_return line_starts lsp_offset is_ascii_line in
    (
      (refl, (3, refl, refl), (3, refl, refl), omega arith),
      ((refl, (0, refl, refl), (3, refl, refl), omega arith), tt),
    )

changed_buffer-apply_changes_example :
    changed_buffer line_starts (two_lines ++ 0 ∷ []) first (second ∷ [])
    ≡ edited (apply_changes two_lines (first ∷ second ∷ []) ++ 0 ∷ [])
changed_buffer-apply_changes_example =
    changed_buffer-apply_changes line_starts line_starts-KnowsLines two_lines first (second ∷ [])
      fitting

-- A source manager that holds the texts of its buffers, the latest first, of which only that is the latest
-- data. A tree is the buffer that it was parsed from.
abbrev Texts : Type 0
Texts = List Bytes

abbrev text_of : Texts → ℕ → Bytes
text_of [] b = []
text_of (t ∷ ts) b = if length ts == b then t else text_of ts b

abbrev slang : Slang Texts ℕ
slang = record {
  is_latest_data = λ m b. suc b == length m;
  get_source_text = text_of;
  read_source = λ m path. (codes "disk" ∷ m, length m);
  replace_buffer = λ m b text. (text ∷ m, length m);
  reload_buffer = λ m b. some (codes "disk" ∷ m, length m);
  parse = λ m b. (m, b);
  buffer_ids = λ t. t ∷ [];
}

slang-IsSlang : IsSlang slang
slang-IsSlang = record {
  read_latest = λ m path. (==_iff (suc (length m)) (suc (length m))).1 refl;
  replace_latest = λ m b text. (==_iff (suc (length m)) (suc (length m))).1 refl;
  parse_own = λ m b. ([], refl);
  parse_latest = λ m b h. unfold all_latest in rw h refl;
}

abbrev old_text : Texts
old_text = (two_lines ++ 0 ∷ []) ∷ []

abbrev a_doc : SlangDoc ℕ
a_doc = record {
  path = codes "a.sv";
  buffer = 0;
  tree = some 0;
  dependents = codes "old" ∷ [];
  analysis = some (0 ∷ []);
}

-- An edit, another text for the document, a request for the tree, and a reload.
abbrev events : List (Event Texts)
events =
    edits (first ∷ second ∷ [])
    ∷ elsewhere (codes "more" ∷ codes "other" ∷ old_text)
    ∷ asks
    ∷ reloads
    ∷ []

abbrev last_texts : Texts
last_texts = codes "disk" ∷ codes "disk" ∷ codes "more" ∷ codes "other" ∷ old_text

abbrev last_doc : SlangDoc ℕ
last_doc = record a_doc { buffer = 4; tree = none; analysis = none }

last_state : live slang line_starts events old_text a_doc ≡ some (last_texts, last_doc)
unfolding live on_change changed_buffer line_starts get_syntax_tree reload_buffer
last_state = refl

get_syntax_tree-live_example : GivesLatest slang (get_syntax_tree slang last_texts last_doc)
get_syntax_tree-live_example =
    get_syntax_tree-live slang slang-IsSlang line_starts events old_text last_texts a_doc last_doc
      ([], refl) last_state

abbrev new_text : Bytes
new_text = apply_changes two_lines (first ∷ second ∷ []) ++ 0 ∷ []

-- Without a refresh, the documents that the analysis depends on are the old ones.
on_change-get_analysis_example :
    analyzed slang
      (λ t. codes "p" ∷ [])
      length
      false
      (on_change slang line_starts (first ∷ second ∷ []) old_text a_doc)
    ≡ some (1 ∷ 3 ∷ [])
on_change-get_analysis_example =
    on_change-get_analysis slang slang-IsSlang line_starts first (second ∷ []) two_lines
      (λ t. codes "p" ∷ []) length false old_text a_doc line_starts-KnowsLines refl fitting
