-- ===== src/Middleware/Tests.antt =====
-- Concrete inputs, and each theorem that has hypotheses applied to them.
pub mod Data
pub mod Reading
pub mod Storing
pub mod Serving
pub mod Licensing
