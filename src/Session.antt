-- ===== src/Session.antt =====
-- awssql/driver_infrastructure/session_state.go and session_state_service.go: the session settings
-- that follow a logical connection from one physical connection to the next.
pub mod State
pub mod Service
pub mod Apply
pub mod Mysql
pub mod Tests
