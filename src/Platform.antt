-- ===== src/Platform.antt =====
-- The platform's service for plants, services/platform-api: what it does with the readings that the
-- gateways send, and with the gateways that are connected to it.
pub mod Floats
pub mod Alarms
pub mod RegisterAlarms
pub mod UpdateJobs
pub mod GatewayHub
pub mod Ingestion
pub mod Pull
pub mod Dashboard
pub mod Tests
