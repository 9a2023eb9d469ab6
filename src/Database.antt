-- ===== src/Database.antt =====
-- internal/database: from the stored layout of files and archives to the spans of a virtual file.
pub mod Spans
pub mod StoredRar
