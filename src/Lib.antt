-- ===== src/Lib.antt =====
-- slang-server, a language server for SystemVerilog: a verification library for its own logic, the
-- parts that decide what the editor sees and do not belong to the slang library.
--
-- The parts, and how they meet. The JSON-RPC server reads the editor's messages and calls a handler
-- for each; the handlers keep the workspace index, the documents with their tokens and the
-- diagnostics, and answer with texts: snippets for completions, markdown for hovers, URIs for places.
--
-- - Common: Boolean tests, lists measured by native numbers, bytes and characters of the C locale,
--   dictionaries as association lists, decimal numerals.
-- - Snippet: include/lsp/SnippetString.h. A snippet is its text and its next tab stop; append_text,
--   append_tabstop, append_placeholder, append_choice and append_variable are the methods of these
--   names. Snippet.Reader reads snippets by the grammar of the LSP specification.
-- - Diagnostics: src/ServerDiagClient.cpp. The state is m_diagnostics, m_dirtyUris and the messages
--   sent; report, clear, clear_uri, clear_and_push, push_diags and push_diags_first are its methods.
--   slang's engine and source manager are the record Engine of Diagnostics.Types.
-- - Indexer: src/Indexer.cpp and include/Indexer.h. The state is the three maps, the interned paths
--   and the record per file; update_document, add_documents, remove_path_from_index and
--   on_watched_files are its operations, Indexer.Walk is collectFilesFromDirectory and the
--   startIndexing of a configuration, Indexer.Extract is what is taken from a parsed file, and
--   Indexer.Blocks the split of the work over threads; Indexer.Latest compares the queries with the
--   texts. An operation holds the lock from start to end,
--   so it is one step; what slang's parser gives for a file is a parameter.
-- - Syntax: src/document/SyntaxIndexer.cpp, the look-ups of a token by location. The binary search
--   runs on fuel, the size of its interval, which each round makes smaller.
-- - Rpc: include/lsp/JsonRpcServer.h and the messages of include/lsp/JsonRpc.h. The handlers are
--   functions on a state of any type; the loops of run are the phases of a step function. Rpc.Framing
--   is readJson and sendMessage on the bytes of the input and output; its fuel counts the rounds.
-- - Markdown: src/util/Markdown.cpp. A paragraph is its buffer, a document its paragraphs.
--   Markdown.Rules is escapeMarkdownLine with needsLeadingEscapePlaintext and looksLikeTag.
-- - Uri: src/lsp/URI.cpp and include/lsp/URI.h as built elsewhere than on Windows. The match of the
--   RFC 3986 pattern is a parameter.
-- - Formatting: src/util/Formatting.cpp, the clean-up of printed code: stripBlankLines, shiftIndent,
--   squashSpaces and the functions built from them, and toCamelCase; Formatting.Docs is
--   findLeadingDocCommentStart and getDocCommentForHover on the trivia of a token. The text comes
--   from slang's printer.
-- - SlangDoc: src/document/SlangDoc.cpp. SlangDoc.changed_buffer is what onChange does to the buffer,
--   SlangDoc.Positions is the places that the LSP specification gives to lines and characters,
--   SlangDoc.Edits what it makes of the changes; SlangDoc.State is the buffer with the tree and the
--   analysis kept of it and hasValidBuffers of src/util/SlangExtensions.cpp, on the record Slang of
--   what slang's parser and source manager do.
-- - Driver: src/ServerDriver.cpp. Driver.Dependencies is getDependentDocs, on fuel that counts the
--   trees taken from its queue; two more than the files of the index is enough. Driver.Session is the
--   state of the open documents with openDocument, onDocDidChange, closeDocument, reloadDocument and
--   updateDoc, and onDocDidSave of src/SlangServer.cpp; Driver.Session.Watch is the file events and
--   create. They use SlangDoc for the edits, Diagnostics for what is published and
--   Driver.Dependencies for what is loaded; the record World is slang and the file system.
-- - Completions: src/completions/CompletionDispatch.cpp (Site, Query, Item), CompletionContext.cpp
--   (Context, on Syntax.Parent, the getSyntaxAt of src/document/SyntaxIndexer.cpp) and
--   MacroCompletions.cpp (Macro, which writes its texts by Snippet and takes names from the index),
--   InstanceCompletions.cpp (Instance) and SystemTaskCompletions.cpp (Signature, SystemTask).
--
-- Texts are lists of bytes. The order in which the source goes through a hash map or set is that of
-- the lists here. Memory is taken to suffice, and sizes to fit their machine types.
--
-- Not modelled: slang itself (parser, elaboration, source manager) and the visits of its trees, the
-- JSON library, the file system itself, the log, the configuration files, and the clients of
-- the editors.
pub mod Common
pub mod Snippet
pub mod Diagnostics
pub mod Indexer
pub mod Syntax
pub mod Rpc
pub mod Markdown
pub mod Uri
pub mod Formatting
pub mod SlangDoc
pub mod Driver
pub mod Completions
