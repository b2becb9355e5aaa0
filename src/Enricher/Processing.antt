-- ===== src/Enricher/Processing.antt =====
-- What the enricher's processing of telemetry keeps.
pub mod Telemetry
pub mod LogRecords
pub mod AllLogs
pub mod Notices
pub mod Starting
pub mod Attribution
pub mod Panics
pub mod Reachable
