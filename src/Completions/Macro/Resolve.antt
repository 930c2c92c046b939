-- ===== src/Completions/Macro/Resolve.antt =====
-- The resolution of a macro completion of src/completions/MacroCompletions.cpp and the text edit that
-- src/completions/CompletionDispatch.cpp gives it.
