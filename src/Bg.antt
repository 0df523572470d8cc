-- ===== src/Bg.antt =====
-- The blue/green deployment plugin: awssql/plugins/bg.
pub mod Phase
pub mod Status
pub mod Prepare
mod Tests
