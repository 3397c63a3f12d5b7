-- ===== src/Store.antt =====
-- internal/store: the tables, the query monad and the generated queries.
pub mod Models
pub mod World
pub mod Cursor
pub mod NotesList
pub mod Hoare
pub mod Whole
pub mod Keeps
pub mod TeamQueries
pub mod Errors
pub mod NoteQueries
pub mod ShareQueries
pub mod AttachmentQueries
pub mod UserQueries
