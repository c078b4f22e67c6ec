-- ===== src/Inbound.antt =====
-- The inbound package: mail that customers send back, and the files that come with it.
pub mod Jobs
pub mod Failure
pub mod Mail
pub mod Process
pub mod Worker
pub mod Http
