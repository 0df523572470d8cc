-- ===== src/Plugins.antt =====
-- The plugin manager and the plugin service of awssql/plugin_helpers.
pub mod Chain
pub mod Manager
pub mod Nesting
pub mod Hosts
pub mod Current
mod Tests
