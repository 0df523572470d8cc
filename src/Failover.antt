-- ===== src/Failover.antt =====
-- Failover: awssql/plugins/failover_plugin.go with the plugin service that it asks, and the two
-- functions of awssql/utils/utils.go on slices that it uses.
pub mod Service
pub mod Slice
pub mod Plugin
pub mod Writer
pub mod Reader
pub mod Handler
pub mod Tests
