-- ===== src/Plugins/Current.antt =====
-- awssql/plugin_helpers/plugin_service.go: `SetCurrentConnection`, over the session state service. A
-- connection is a number, by which the model tells connections apart, and the driver's state of it.
pub mod Transfer
use aws_advanced_go_wrapper.Base.{
  ℕ, Bool, true, false, not, ◌&&◌, ◌||◌, List, [], ◌∷◌, Option, none, some, Error, nat_beq,
  if◌then◌else◌,
}
use aws_advanced_go_wrapper.Host.{HostInfo}
use aws_advanced_go_wrapper.Session.Service.{Service, begin, complete, reset_all}
use aws_advanced_go_wrapper.Session.Apply.{
  Dialect, Driver, apply_current_session_state, apply_pristine_session_state,
}
use aws_advanced_go_wrapper.Plugins.Hosts.{HostChange, Changes, compare_host_infos}

pub record CurrentConn (Conn : Type 0) : Type 0 where
  pub id : ℕ
  pub conn : Conn
  pub host : HostInfo

-- `replaced` are the connections that were current before, the last first, as they were left.
pub record CurrentService (Conn : Type 0) : Type 0 where
  pub current : Option (CurrentConn Conn)
  pub initial_host_info : Option HostInfo
  pub is_in_transaction : Bool
  pub session_state_service : Service
  pub replaced : List (CurrentConn Conn)

-- The driver's calls, and the setting and the plugins' opinion that the method asks for. `preserve`
-- is told the changes, and whether the connection object is among them.
pub record Surroundings (Conn : Type 0) : Type 0 where
  pub rollback : Conn → Conn
  pub close : Conn → Conn
  pub is_closed : Conn → Bool
  pub rollback_on_switch : Bool
  pub preserve : Changes → Bool → Bool

abbrev pub or_initial {ℓ} : {A : Type ℓ} → Option A → A → Option A
or_initial none a = some a
or_initial (some b) a = some b

abbrev pub is_empty : Changes → Bool
is_empty [] = true
is_empty (c ∷ cs) = false

module _ (dialect : Dialect) (driver : Driver) (around : Surroundings driver.Conn) where
  open driver use {Conn}

  unfoldable pub set_initial_connection :
      CurrentConn Conn → CurrentService Conn → Option Error × CurrentService Conn
  unfolding reset_all
  set_initial_connection new s = (
    none,
    record s {
      current = some new;
      session_state_service = reset_all s.session_state_service;
      initial_host_info = or_initial s.initial_host_info new.host;
    },
  )

  -- The pristine state is written to a connection that is going to be closed.
  unfoldable pub close_replaced : CurrentConn Conn → CurrentService Conn → CurrentService Conn
  unfolding apply_pristine_session_state complete
  close_replaced old s =
      let (e, session, conn) =
        apply_pristine_session_state dialect driver s.session_state_service old.conn in
      record s {
        session_state_service = complete session;
        replaced = record old { conn = around.close conn } ∷ s.replaced;
      }

  unfoldable pub leave_replaced : CurrentConn Conn → CurrentService Conn → CurrentService Conn
  unfolding complete
  leave_replaced old s = record s {
    session_state_service = complete s.session_state_service;
    replaced = old ∷ s.replaced;
  }

  -- What follows a transfer without an error.
  unfoldable pub release_replaced :
      Changes → Bool → CurrentConn Conn → CurrentService Conn → CurrentService Conn
  unfolding close_replaced leave_replaced
  release_replaced changes object_changed old s =
      let conn =
        if s.is_in_transaction && around.rollback_on_switch
        then around.rollback old.conn
        else old.conn in
      let old' = record old { conn = conn } in
      let s' = record s { is_in_transaction = false } in
      if object_changed
        && not (around.is_closed conn)
        && not (around.preserve changes object_changed)
      then close_replaced old' s'
      else leave_replaced old' s'

  unfoldable pub after_transfer :
      Changes
      → Bool
      → CurrentConn Conn
      → CurrentConn Conn
      → CurrentService Conn
      → Option Error × Service × Conn
      → Option Error × CurrentService Conn
  unfolding release_replaced complete
  after_transfer changes object_changed old new s (some e, session, conn) = (
    some e,
    record s {
      current = some (record new { conn = conn });
      session_state_service = complete session;
    },
  )
  after_transfer changes object_changed old new s (none, session, conn) = (
    none,
    release_replaced changes object_changed old
        (record s { current = some (record new { conn = conn }); session_state_service = session }),
  )

  -- `Complete` is deferred before the error of `Begin` is looked at.
  unfoldable pub after_begin :
      Changes
      → Bool
      → CurrentConn Conn
      → CurrentConn Conn
      → CurrentService Conn
      → Option Error × Service
      → Option Error × CurrentService Conn
  unfolding after_transfer apply_current_session_state complete
  after_begin changes object_changed old new s (some e, session) =
      (some e, record s { session_state_service = complete session })
  after_begin changes object_changed old new s (none, session) =
      after_transfer changes object_changed old new s
        (apply_current_session_state dialect driver session new.conn)

  unfoldable pub replace_connection :
      CurrentConn Conn → CurrentConn Conn → CurrentService Conn → Option Error × CurrentService Conn
  unfolding after_begin begin compare_host_infos
  replace_connection old new s =
      let changes = compare_host_infos old.host new.host in
      let object_changed = not (nat_beq old.id new.id) in
      if is_empty changes && not object_changed
      then (none, s)
      else after_begin changes object_changed old new s (begin s.session_state_service)

  abbrev pub set_over :
      Option (CurrentConn Conn)
      → CurrentConn Conn
      → CurrentService Conn
      → Option Error × CurrentService Conn
  set_over none new s = set_initial_connection new s
  set_over (some old) new s = replace_connection old new s

  unfoldable pub set_current_connection :
      CurrentConn Conn → CurrentService Conn → Option Error × CurrentService Conn
  unfolding set_initial_connection replace_connection
  set_current_connection new s = set_over s.current new s
