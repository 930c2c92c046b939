-- ===== src/SlangDoc/State.antt =====
-- The state of a `SlangDoc` of src/document/SlangDoc.cpp: its buffer by its id, the syntax tree and the
-- analysis made of it, and the documents that it depends on, by their URIs. slang's parser and source
-- manager are parameters; an analysis is the list of the trees that it was made from.
use slang_server.Common.{
  ℕ, Bool, true, false, not, ◌&&◌, ◌||◌, List, [], ◌∷◌, Option, none, some, Bytes, if◌then◌else◌,
  is_empty, map,
}
use slang_server.SlangDoc.{
  ContentChange, Edited, edited, out_of_bounds, past_the_end, changed_buffer,
}

-- slang, with the states `M` of its source manager. `parse` is `SyntaxTree::fromBuffer`, which reads
-- the included files into the source manager; `buffer_ids` is `getSourceBufferIds`, the buffers of a
-- tree, its own and the included. `reload_buffer` gives nothing when the file cannot be read.
pub record Slang (M Tree : Type 0) : Type 0 where
  pub is_latest_data : M → ℕ → Bool
  pub get_source_text : M → ℕ → Bytes
  pub read_source : M → Bytes → M × ℕ
  pub replace_buffer : M → ℕ → Bytes → M × ℕ
  pub reload_buffer : M → ℕ → Option (M × ℕ)
  pub parse : M → ℕ → M × Tree
  pub buffer_ids : Tree → List ℕ

pub record SlangDoc (Tree : Type 0) : Type 0 where
  pub path : Bytes
  pub buffer : ℕ
  pub tree : Option Tree
  pub dependents : List Bytes
  pub analysis : Option (List Tree)

-- How `onChange` ends: with the source manager and the document, in an exception, or past the end of
-- a buffer.
pub data OnChange (M Tree : Type 0) : Type 0 where
  changed : M → SlangDoc Tree → OnChange M Tree
  threw : M → SlangDoc Tree → OnChange M Tree
  undefined : OnChange M Tree

-- `isLatestData` of every buffer of a list.
unfoldable pub all_latest : {M Tree : Type 0} → Slang M Tree → M → List ℕ → Bool
all_latest slang m [] = true
all_latest slang m (b ∷ bs) = slang.is_latest_data m b && all_latest slang m bs

-- `hasValidBuffers` of src/util/SlangExtensions.cpp.
abbrev pub has_valid_buffers : {M Tree : Type 0} → Slang M Tree → M → Tree → Bool
has_valid_buffers slang m t = all_latest slang m (slang.buffer_ids t)

module _ {M Tree : Type 0} (slang : Slang M Tree) where
  -- A new buffer leaves no tree and no analysis.
  abbrev pub with_buffer : SlangDoc Tree → ℕ → SlangDoc Tree
  with_buffer doc b = record doc { buffer = b; tree = none; analysis = none }

  abbrev pub replaced : SlangDoc Tree → M × ℕ → OnChange M Tree
  replaced doc (m, b) = changed m (with_buffer doc b)

  abbrev pub replace_text : M → SlangDoc Tree → Edited → OnChange M Tree
  replace_text m doc (edited text) = replaced doc (slang.replace_buffer m doc.buffer text)
  replace_text m doc out_of_bounds = threw m doc
  replace_text m doc past_the_end = undefined

  unfoldable pub on_change :
      (Bytes → List ℕ) → List ContentChange → M → SlangDoc Tree → OnChange M Tree
  unfolding changed_buffer
  on_change line_offsets [] m doc = changed m doc
  on_change line_offsets (c ∷ cs) m doc =
      replace_text m doc (changed_buffer line_offsets (slang.get_source_text m doc.buffer) c cs)

  abbrev pub reloaded : M → SlangDoc Tree → Option (M × ℕ) → (M × SlangDoc Tree) × Bool
  reloaded m doc none = ((m, doc), false)
  reloaded m doc (some (m', b)) = ((m', with_buffer doc b), true)

  unfoldable pub reload_buffer : M → SlangDoc Tree → (M × SlangDoc Tree) × Bool
  reload_buffer m doc = reloaded m doc (slang.reload_buffer m doc.buffer)

  abbrev pub keep_tree : SlangDoc Tree → ℕ → M × Tree → (M × SlangDoc Tree) × Tree
  keep_tree doc b (m, t) = ((m, record doc { buffer = b; tree = some t }), t)

  abbrev pub parsed : SlangDoc Tree → M × ℕ → (M × SlangDoc Tree) × Tree
  parsed doc (m, b) = keep_tree doc b (slang.parse m b)

  abbrev pub tree_or_parse : Option Tree → M → SlangDoc Tree → (M × SlangDoc Tree) × Tree
  tree_or_parse none m doc =
      if slang.is_latest_data m doc.buffer
      then parsed doc (m, doc.buffer)
      else parsed doc (slang.read_source m doc.path)
  tree_or_parse (some t) m doc =
      if has_valid_buffers slang m t
      then ((m, doc), t)
      else parsed doc (slang.read_source m doc.path)

  unfoldable pub get_syntax_tree : M → SlangDoc Tree → (M × SlangDoc Tree) × Tree
  unfolding all_latest
  get_syntax_tree m doc = tree_or_parse doc.tree m doc

  -- `ShallowAnalysis::hasValidBuffers`
  unfoldable pub analysis_is_valid : M → List Tree → Bool
  unfolding all_latest
  analysis_is_valid m [] = true
  analysis_is_valid m (t ∷ ts) = has_valid_buffers slang m t && analysis_is_valid m ts

  -- `dependents_of` is `getDependentDocs` of the driver, `tree_of` another document's tree; what they
  -- load leaves the data of this document's tree as it is.
  abbrev pub analyze :
      (Tree → List Bytes)
      → (Bytes → Tree)
      → Bool
      → (M × SlangDoc Tree) × Tree
      → (M × SlangDoc Tree) × List Tree
  analyze dependents_of tree_of refresh ((m, doc), t) =
      let deps = if is_empty doc.dependents || refresh then dependents_of t else doc.dependents in
      let trees = t ∷ map tree_of deps in
      ((m, record doc { dependents = deps; analysis = some trees }), trees)

  abbrev pub analysis_or_make :
      Option (List Tree)
      → (Tree → List Bytes)
      → (Bytes → Tree)
      → Bool
      → M
      → SlangDoc Tree
      → (M × SlangDoc Tree) × List Tree
  analysis_or_make none dependents_of tree_of refresh m doc =
      analyze dependents_of tree_of refresh (get_syntax_tree m doc)
  analysis_or_make (some trees) dependents_of tree_of refresh m doc =
      if not (analysis_is_valid m trees) || refresh
      then analyze dependents_of tree_of refresh (get_syntax_tree m doc)
      else ((m, doc), trees)

  unfoldable pub get_analysis :
      (Tree → List Bytes)
      → (Bytes → Tree)
      → Bool
      → M
      → SlangDoc Tree
      → (M × SlangDoc Tree) × List Tree
  unfolding get_syntax_tree analysis_is_valid
  get_analysis dependents_of tree_of refresh m doc =
      analysis_or_make doc.analysis dependents_of tree_of refresh m doc
