-- ===== src/Efm.antt =====
-- awssql/plugins/efm: the monitor that watches one host and aborts its connections when it dies.
pub mod Health
pub mod Round
mod Tests
