-- ===== src/Middleware/Store.antt =====
-- internal/store: the configuration rules that both builds share, and the file store of the mips
-- build. The SQLite store of the other builds is not modelled: its behaviour is that of SQL statements.
pub mod Normalize
pub mod File
