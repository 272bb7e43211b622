-- ===== src/Service.antt =====
-- What every process of the service has around its handlers: correlation ids, log lines, the health
-- probe and the start.
pub mod Correlation
pub mod Logger
pub mod Health
pub mod Start
