-- ===== src/Auth.antt =====
-- The service that signs users in, services/auth-service.
pub mod Tables
pub mod Security
pub mod Login
pub mod Recovery
pub mod Registration
pub mod Rows
pub mod Calls
pub mod Lifetime
pub mod Limits
pub mod Granted
pub mod Resets
mod Tests
