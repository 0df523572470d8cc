-- ===== src/Lib.antt =====
-- The core of the AWS advanced Go wrapper (awssql/), part by part.
--
-- The wrapper stands between database/sql and a database driver. Each call goes through a chain of
-- plugins, which the plugin manager makes (awssql/plugin_helpers) and which keep what they know in
-- containers with expiration (awssql/utils). Failover and the read/write splitting (awssql/plugins)
-- ask the plugin service for hosts (awssql/host_info_util) and connections and set the current
-- connection there; the service then moves the session state to the new one, through the session
-- state service (awssql/driver_infrastructure), and tells the plugins. The failure monitor (awssql/plugins/efm) watches the hosts that are
-- in use and closes the connections to one that is dead. The internal pool (awssql/internal_pool)
-- lends the connections that the read/write splitting keeps. The blue/green plugin
-- (awssql/plugins/bg) follows a switchover of a cluster, from the phases that two monitors report.
-- Plugins that may choose among hosts ask a host selector (awssql/driver_infrastructure). Monitors and
-- storage tell each other of what happened through an event publisher (awssql/services).
--
-- Files:
--   Base               shared names, Boolean tests, lists, association lists, `Result` for (T, error)
--   Host               awssql/host_info_util/host_info.go
--   Host/Lists         awssql/host_info_util/host_info_util.go
--   Util/RwQueue       awssql/utils/rw_queue.go
--   Util/RwMap         awssql/utils/rw_map.go
--   Util/CacheMap      awssql/utils/cache_map.go
--   Util/ExpirationCache  awssql/utils/expiration_cache.go
--   Util/SlidingCache  awssql/utils/sliding_expiration_cache.go; Util/SlidingCache/Sections its calls, cut
--                      where they hold the lock
--   Session/State      awssql/driver_infrastructure/session_state.go
--   Session/Service    awssql/driver_infrastructure/session_state_service.go: fields, Begin, Complete
--   Session/Apply      the same file: ApplyCurrentSessionState, ApplyPristineSessionState
--   Session/Mysql      awssql/driver_infrastructure/mysql_database_dialects.go: the SET queries
--   Efm/Health         awssql/plugins/efm/host_monitor.go: UpdateHostHealthStatus,
--                      CheckConnectionStatus, reset
--   Efm/Round          the same file: a round of Monitor, newStateRun; MonitorConnectionState of
--                      awssql/plugins/efm/host_monitoring_service.go
--   Pool               awssql/internal_pool/internal_conn_pool.go
--   Bg/Phase           awssql/driver_infrastructure/bg_helpers.go: phases and roles
--   Bg/Status          awssql/plugins/bg/bg_status_provider.go: UpdatePhase, UpdateDnsFlags, the timer
--   Bg/Status/Summary  the same file: UpdateSummaryStatus and the GetStatusOf functions, by phase
--   Bg/Prepare         the same file: PrepareStatus, UpdateMonitors, ResetContextWhenCompleted
--   Selector           awssql/driver_infrastructure/highest_weight_host_selector.go,
--                      weighted_random_host_selector.go and random_host_selector.go beside it
--   Selector/RoundRobin  round_robin_host_selector.go beside it: the choice of the next host
--   Events             awssql/services/events.go
--   Failover/Service   awssql/error_util/errors.go and the interface of the plugin service
--   Failover/Slice     awssql/utils/utils.go: FilterSlice, RemoveFromSlice
--   Failover/Plugin    awssql/plugins/failover_plugin.go: the state, returnFailoverSuccessError
--   Failover/Writer    the same file: FailoverWriter
--   Failover/Reader    the same file: FailoverReader; Failover/Reader/Search its search for a reader
--   Failover/Handler   the same file: rdsFailoverHandler, Execute, Connect
--   Plugins/Chain      awssql/plugin_helpers/plugin_manager.go: PluginChain
--   Plugins/Manager    the same file: PluginManagerImpl
--   Plugins/Hosts      awssql/plugin_helpers/plugin_service.go: the host list and its changes
--   Plugins/Current    the same file: SetCurrentConnection
--   Splitting          awssql/plugins/read_write_splitting/read_write_splitting_plugin.go: the cached
--                      connections; Splitting/Strategy RdsReadWriteSplittingStrategy,
--                      Splitting/Switch switchConnectionIfRequired and Execute,
--                      Splitting/Connect Connect
-- Below each stand the modules of its theorems, and Tests with runs on concrete input.
--
-- The model. A definition has the name of its Go method in snake case and works on a record with the
-- fields of the Go struct. A method that holds a lock from its start to its end is one step on the
-- state; the pool's Get and Close are cut where they give the lock up, and its threads interleave in
-- any order, and so are the calls of the sliding cache for what becomes of its values. A Go map is an
-- association list without double keys; where the result could depend on the order in which a loop
-- visits a map, as for the ranges of the weighted random selector, the order is an argument. Times and durations are natural numbers of nanoseconds; the clock
-- is an argument: one reading for a method of a container, and each reading of its own for the phase
-- of a deployment. A counter of machine width wraps.
-- Functions that a user supplies, the database driver and the dialect are parameters. The calls of a
-- disposal function, of the driver's Close and of the driver's Exec are recorded in order.
-- Loops run over lists, and where threads interleave a run is a list of events. The status of
-- COMPLETED and the status of POST, which call each other, have fuel: three nested calls, since the
-- timer stays expired under a clock that does not go back. So has the search for a reader: three
-- steps for each unit of time before its deadline, where some time passes between two readings of
-- the clock, which may itself be coarse. Failover works on a state of everything
-- outside the plugin, which it changes through the interface of the plugin service alone.
--
-- Not modelled: of the blue/green plugin the routings and the maps of hosts; the cache of the round
-- robin selector and the parsers of weights; of the plugin service the dialect and the aliases, of
-- failover the helper for stale DNS, whose answer is an argument; the variants for global databases;
-- the log, the telemetry but for the counters of failover, and the goroutines' sleeps; and the parts
-- of the program that only call a database, a web service or a package outside the repository.
pub mod Base
pub mod Host
pub mod Util
pub mod Session
pub mod Efm
pub mod Pool
pub mod Bg
pub mod Selector
pub mod Events
pub mod Failover
pub mod Plugins
pub mod Splitting
