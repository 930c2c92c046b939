-- ===== src/Completions.antt =====
-- The completions of src/completions: what stands at the cursor, which query answers it, in which
-- context, the text edit of an item, and the completions of macros.
pub mod Site
pub mod Query
pub mod Context
pub mod Item
pub mod Macro
pub mod Pieces
pub mod Instance
pub mod Signature
pub mod SystemTask
mod Tests
