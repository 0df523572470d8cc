-- ===== src/Efm/Health.antt =====
-- awssql/plugins/efm/host_monitor.go: the health of the host, from the checks of its connection.
-- Times and durations are nanoseconds from 0; a time that is not set is `none`.
pub mod Outage
use aws_advanced_go_wrapper.Base.{
  ℕ, ◌+◌, ◌-◌, ◌*◌, ◌%◌, Bool, true, false, not, ◌||◌, Option, none, some, ltb, leb, if◌then◌else◌,
}

-- The settings, from the properties: both are positive.
pub record Config : Type 0 where
  pub failure_detection_interval : ℕ
  pub failure_detection_count : ℕ

pub record Health : Type 0 where
  -- The bits of an `int32`.
  pub failure_count : ℕ
  pub invalid_host_start_time : Option ℕ
  pub host_unhealthy : Bool

pub healthy : Health
healthy = record { failure_count = 0; invalid_host_start_time = none; host_unhealthy = false }

-- `interval * max(0, count - 1)`; the detour by `float64` is exact below 2 ^ 53.
abbrev pub max_invalid_duration : Config → ℕ
max_invalid_duration c = c.failure_detection_interval * (c.failure_detection_count - 1)

or_start : Option ℕ → ℕ → ℕ
or_start none start = start
or_start (some first) start = first

unfoldable pub update_host_health_status : Config → Bool → ℕ → ℕ → Health → Health
unfolding or_start healthy
update_host_health_status c conn_is_valid check_start check_end h =
    if not conn_is_valid
    then record {
      failure_count = (h.failure_count + 1) % 4294967296;
      invalid_host_start_time = some (or_start h.invalid_host_start_time check_start);
      host_unhealthy =
          if leb (or_start h.invalid_host_start_time check_start + max_invalid_duration c) check_end
          then true
          else h.host_unhealthy;
    }
    else healthy

-- The connection that the monitor keeps, and the health: what `reset` clears.
pub record Watch (Conn : Type 0) : Type 0 where
  pub monitoring_conn : Option Conn
  pub health : Health

-- The connection that is closed, and the state.
unfoldable pub reset : {Conn : Type 0} → Watch Conn → Option Conn × Watch Conn
unfolding healthy
reset w = (w.monitoring_conn, record { monitoring_conn = none; health = healthy })

-- A hundred milliseconds.
abbrev pub sleep_duration : ℕ
sleep_duration = 100_000_000

pub ping_timeout : Config → ℕ
ping_timeout c =
    if ltb c.failure_detection_interval (sleep_duration + sleep_duration)
    then sleep_duration
    else c.failure_detection_interval - sleep_duration

-- What the check meets outside: whether the driver calls a connection closed, what a forced connect
-- gives, and whether a connection answers within a time.
module _ {Conn : Type 0} (is_closed : Conn → Bool) (connected : Option Conn)
    (answers : Conn → ℕ → Bool) where
  open_conn : Option Conn → Option Conn → Bool × Option Conn
  open_conn old none = (false, old)
  open_conn old (some conn) = (true, some conn)

  -- The verdict, and the connection kept.
  unfoldable pub check_connection_status : Config → Option Conn → Bool × Option Conn
  unfolding open_conn ping_timeout
  check_connection_status c none = open_conn none connected
  check_connection_status c (some conn) =
      if is_closed conn
      then open_conn (some conn) connected
      else (answers conn (ping_timeout c), some conn)
