-- ===== src/Session/Apply.antt =====
-- awssql/driver_infrastructure/session_state_service.go: the two methods that write the session
-- settings to a connection, the new one and the one that is given up.
pub mod Queries
pub mod Transfer
pub mod Pristine
use aws_advanced_go_wrapper.Base.{
  String, Bool, true, false, not, Option, none, some, Comparable, nat_comparable, string_comparable,
  bool_comparable, Error, Result, ok, err, if◌then◌else◌,
}
use aws_advanced_go_wrapper.Session.State.{
  Field, reset_pristine_value, can_restore_pristine, SessionState, TransactionIsolationLevel,
}
use aws_advanced_go_wrapper.Session.Service.{
  Service, on_state, setup_pristine_auto_commit, setup_pristine_read_only, setup_pristine_catalog,
  setup_pristine_schema, setup_pristine_transaction_isolation,
}

-- The part of the `DatabaseDialect` interface that the service calls.
pub record Dialect : Type 0 where
  pub get_set_auto_commit_query : Bool → Result String
  pub get_set_read_only_query : Bool → Result String
  pub get_set_catalog_query : String → Result String
  pub get_set_schema_query : String → Result String
  pub get_set_transaction_isolation_query : TransactionIsolationLevel → Result String

-- What lies outside: the state of a driver connection, a query run on it, and the two functions
-- that a user may install, which say whether they have handled the connection.
pub record Driver : Type 1 where
  pub Conn : Type 0
  pub exec : String → Conn → Option Error × Conn
  pub transfer_func : Option (SessionState → Conn → Bool × Conn)
  pub reset_func : Option (SessionState → Conn → Bool × Conn)

module _ (dialect : Dialect) (driver : Driver) where
  open driver use {Conn, exec, transfer_func, reset_func}

  -- A query from the dialect, run with `ExecQueryDirectly`.
  exec_query : Result String → Conn → Option Error × Conn
  exec_query (ok query) conn = exec query conn
  exec_query (err e) conn = (some e, conn)

  -- The error, the service and the connection, after a part of a method.
  abbrev Action : Type 0
  Action = Service → Conn → Option Error × Service × Conn

  abbrev unless_failed : Option Error × Service × Conn → Action → Option Error × Service × Conn
  unless_failed (none, s, conn) next = next s conn
  unless_failed (some e, s, conn) next = (some e, s, conn)

  infixr 5 ◌>>◌
  abbrev ◌>>◌ : Action → Action → Action
  ◌>>◌ m next s conn = unless_failed (m s conn) next

  abbrev done : Action
  done s conn = (none, s, conn)

  -- `if v != nil { … }`, with the body's query and its effect on the service.
  pub transfer : {T : Type 0} → Option T → (T → Result String) → (Service → Service) → Action
  unfolding exec_query
  transfer none query settle s conn = (none, s, conn)
  transfer (some v) query settle s conn =
      let (e, conn') = exec_query (query v) conn in (e, settle s, conn')

  settle_auto_commit : Service → Service
  unfolding setup_pristine_auto_commit reset_pristine_value
  settle_auto_commit s =
      setup_pristine_auto_commit
        (on_state (λ t. record t { auto_commit = reset_pristine_value t.auto_commit }) s)

  transfer_auto_commit : Action
  unfolding transfer settle_auto_commit
  transfer_auto_commit s conn =
      transfer s.session_state.auto_commit.value dialect.get_set_auto_commit_query
        settle_auto_commit s conn

  settle_read_only : Service → Service
  unfolding setup_pristine_read_only reset_pristine_value
  settle_read_only s =
      setup_pristine_read_only
        (on_state (λ t. record t { read_only = reset_pristine_value t.read_only }) s)

  transfer_read_only : Action
  unfolding transfer settle_read_only
  transfer_read_only s conn =
      transfer s.session_state.read_only.value dialect.get_set_read_only_query settle_read_only s
        conn

  settle_catalog : Service → Service
  unfolding setup_pristine_catalog reset_pristine_value
  settle_catalog s =
      setup_pristine_catalog
        (on_state (λ t. record t { catalog = reset_pristine_value t.catalog }) s)

  transfer_catalog : Action
  unfolding transfer settle_catalog
  transfer_catalog s conn =
      transfer s.session_state.catalog.value dialect.get_set_catalog_query settle_catalog s conn

  settle_schema : Service → Service
  unfolding setup_pristine_schema reset_pristine_value
  settle_schema s =
      setup_pristine_schema (on_state (λ t. record t { schema = reset_pristine_value t.schema }) s)

  transfer_schema : Action
  unfolding transfer settle_schema
  transfer_schema s conn =
      transfer s.session_state.schema.value dialect.get_set_schema_query settle_schema s conn

  settle_transaction_isolation : Service → Service
  unfolding setup_pristine_transaction_isolation reset_pristine_value
  settle_transaction_isolation s = setup_pristine_transaction_isolation (
      on_state
        (λ t. record t { transaction_isolation = reset_pristine_value t.transaction_isolation }) s)

  transfer_transaction_isolation : Action
  unfolding transfer settle_transaction_isolation
  transfer_transaction_isolation s conn =
      transfer s.session_state.transaction_isolation.value
        dialect.get_set_transaction_isolation_query settle_transaction_isolation s conn

  transfer_fields : Action
  unfolding transfer_auto_commit transfer_read_only transfer_catalog transfer_schema
      transfer_transaction_isolation
  transfer_fields =
      transfer_auto_commit >> transfer_read_only >> transfer_catalog >> transfer_schema
      >> transfer_transaction_isolation

  unless_handled : Bool × Conn → Action → Action
  unless_handled (true, conn') next s conn = (none, s, conn')
  unless_handled (false, conn') next s conn = next s conn'

  custom : Option (SessionState → Conn → Bool × Conn) → Action → Action
  unfolding unless_handled
  custom none next s conn = next s conn
  custom (some f) next s conn = unless_handled (f s.session_state conn) next s conn

  unfoldable pub apply_current_session_state : Action
  unfolding transfer_fields custom
  apply_current_session_state s conn =
      if not s.transfer_enabled
      then (none, s, conn)
      else custom transfer_func transfer_fields s conn

  -- One field of the copy: the pristine value is written if it can be restored.
  restore : {T : Type 0} → Bool → Option T → (T → Result String) → Action
  unfolding exec_query
  restore can none query s conn = (none, s, conn)
  restore can (some p) query s conn =
      let (e, conn') = exec_query (query p) conn in if can then (e, s, conn') else (none, s, conn)

  restore_field : {T : Type 0} ⦃e : Comparable T⦄ → (T → Result String) → Field T → Action
  unfolding restore can_restore_pristine
  restore_field query f s conn = restore (can_restore_pristine f) f.pristine_value query s conn

  restore_fields : SessionState → Action
  unfolding restore_field
  restore_fields t =
      restore_field dialect.get_set_auto_commit_query t.auto_commit
      >> restore_field dialect.get_set_read_only_query t.read_only
      >> restore_field dialect.get_set_catalog_query t.catalog
      >> restore_field dialect.get_set_schema_query t.schema
      >> restore_field dialect.get_set_transaction_isolation_query t.transaction_isolation

  restore_copy : Option SessionState → Action
  unfolding restore_fields
  restore_copy none s conn = (none, s, conn)
  restore_copy (some t) s conn = restore_fields t s conn

  unfoldable pub apply_pristine_session_state : Action
  unfolding restore_copy custom
  apply_pristine_session_state s conn =
      if not s.reset_enabled
      then (none, s, conn)
      else custom reset_func (λ s' conn'. restore_copy s'.copy_session_state s' conn') s conn
