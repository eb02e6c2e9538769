-- ===== src/Middleware.antt =====
-- The Modbus gateway, modbus-api-middleware: one module for each of its packages.
pub mod Domain
pub mod Float64
pub mod Profile
pub mod Decoder
pub mod Modbus
pub mod Store
pub mod Service
pub mod License
pub mod Tests
