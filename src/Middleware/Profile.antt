-- ===== src/Middleware/Profile.antt =====
-- internal/profile: the addresses of a register profile and the blocks in which they are read.
pub mod Address
pub mod Blocks
