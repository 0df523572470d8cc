-- ===== src/Session/Service.antt =====
-- awssql/driver_infrastructure/session_state_service.go. The two settings are read from the
-- properties, which stay as they are while a connection lives. The log is left out.
use aws_advanced_go_wrapper.Base.{
  String, Bool, not, ◌&&◌, Option, none, some, Error, if◌then◌else◌, is_some,
}
use aws_advanced_go_wrapper.Session.State.{
  Field, set_value, set_pristine_value, reset_pristine_value, reset, SessionState, empty_state,
  TransactionIsolationLevel, copy,
}

pub record Service : Type 0 where
  pub session_state : SessionState
  pub copy_session_state : Option SessionState
  -- `transferSessionStateOnSwitch` and `resetSessionStateOnClose`
  pub transfer_enabled : Bool
  pub reset_enabled : Bool

unfoldable pub new : Bool → Bool → Service
new transfer_enabled reset_enabled = record {
  session_state = empty_state;
  copy_session_state = none;
  transfer_enabled = transfer_enabled;
  reset_enabled = reset_enabled;
}

-- The bodies that the five fields repeat.
module _ {ℓ} {T : Type ℓ} where
  set_in : Bool → T → Field T → Field T
  unfolding set_value
  set_in enabled v f = if not enabled then f else set_value v f

  current_to_pristine : Option T → Field T → Field T
  unfolding set_pristine_value reset_pristine_value
  current_to_pristine none f = reset_pristine_value f
  current_to_pristine (some v) f = set_pristine_value v f

  setup_pristine_in : Bool → Field T → Field T
  unfolding current_to_pristine
  setup_pristine_in enabled f =
      if not enabled
      then f
      else if is_some f.pristine_value
      then f
      else current_to_pristine f.value f

  setup_pristine_with_val_in : Bool → T → Field T → Field T
  unfolding set_pristine_value
  setup_pristine_with_val_in enabled v f =
      if not enabled then f else if is_some f.pristine_value then f else set_pristine_value v f

abbrev pub on_state : (SessionState → SessionState) → Service → Service
on_state f s = record s { session_state = f s.session_state }

unfoldable pub get_auto_commit : Service → Option Bool
get_auto_commit s = s.session_state.auto_commit.value

unfoldable pub set_auto_commit : Bool → Service → Service
unfolding set_in
set_auto_commit v s =
    on_state (λ t. record t { auto_commit = set_in s.transfer_enabled v t.auto_commit }) s

unfoldable pub setup_pristine_auto_commit : Service → Service
unfolding setup_pristine_in
setup_pristine_auto_commit s =
    on_state (λ t. record t { auto_commit = setup_pristine_in s.transfer_enabled t.auto_commit }) s

unfoldable pub setup_pristine_auto_commit_with_val : Bool → Service → Service
unfolding setup_pristine_with_val_in
setup_pristine_auto_commit_with_val v s =
    on_state
      (λ t. record t {
        auto_commit = setup_pristine_with_val_in s.transfer_enabled v t.auto_commit;
      })
      s

unfoldable pub get_read_only : Service → Option Bool
get_read_only s = s.session_state.read_only.value

unfoldable pub set_read_only : Bool → Service → Service
unfolding set_in
set_read_only v s =
    on_state (λ t. record t { read_only = set_in s.transfer_enabled v t.read_only }) s

unfoldable pub setup_pristine_read_only : Service → Service
unfolding setup_pristine_in
setup_pristine_read_only s =
    on_state (λ t. record t { read_only = setup_pristine_in s.transfer_enabled t.read_only }) s

unfoldable pub setup_pristine_read_only_with_val : Bool → Service → Service
unfolding setup_pristine_with_val_in
setup_pristine_read_only_with_val v s =
    on_state
      (λ t. record t { read_only = setup_pristine_with_val_in s.transfer_enabled v t.read_only }) s

unfoldable pub get_catalog : Service → Option String
get_catalog s = s.session_state.catalog.value

unfoldable pub set_catalog : String → Service → Service
unfolding set_in
set_catalog v s = on_state (λ t. record t { catalog = set_in s.transfer_enabled v t.catalog }) s

unfoldable pub setup_pristine_catalog : Service → Service
unfolding setup_pristine_in
setup_pristine_catalog s =
    on_state (λ t. record t { catalog = setup_pristine_in s.transfer_enabled t.catalog }) s

unfoldable pub setup_pristine_catalog_with_val : String → Service → Service
unfolding setup_pristine_with_val_in
setup_pristine_catalog_with_val v s =
    on_state (λ t. record t { catalog = setup_pristine_with_val_in s.transfer_enabled v t.catalog })
      s

unfoldable pub get_schema : Service → Option String
get_schema s = s.session_state.schema.value

unfoldable pub set_schema : String → Service → Service
unfolding set_in
set_schema v s = on_state (λ t. record t { schema = set_in s.transfer_enabled v t.schema }) s

unfoldable pub setup_pristine_schema : Service → Service
unfolding setup_pristine_in
setup_pristine_schema s =
    on_state (λ t. record t { schema = setup_pristine_in s.transfer_enabled t.schema }) s

unfoldable pub setup_pristine_schema_with_val : String → Service → Service
unfolding setup_pristine_with_val_in
setup_pristine_schema_with_val v s =
    on_state (λ t. record t { schema = setup_pristine_with_val_in s.transfer_enabled v t.schema }) s

unfoldable pub get_transaction_isolation : Service → Option TransactionIsolationLevel
get_transaction_isolation s = s.session_state.transaction_isolation.value

unfoldable pub set_transaction_isolation : TransactionIsolationLevel → Service → Service
unfolding set_in
set_transaction_isolation v s =
    on_state
      (λ t. record t {
        transaction_isolation = set_in s.transfer_enabled v t.transaction_isolation;
      })
      s

unfoldable pub setup_pristine_transaction_isolation : Service → Service
unfolding setup_pristine_in
setup_pristine_transaction_isolation s =
    on_state
      (λ t. record t {
        transaction_isolation = setup_pristine_in s.transfer_enabled t.transaction_isolation;
      })
      s

unfoldable pub setup_pristine_transaction_isolation_with_val :
    TransactionIsolationLevel → Service → Service
unfolding setup_pristine_with_val_in
setup_pristine_transaction_isolation_with_val v s =
    on_state
      (λ t. record t {
        transaction_isolation =
            setup_pristine_with_val_in s.transfer_enabled v t.transaction_isolation;
      })
      s

abbrev pub transfer_incomplete : Error
transfer_incomplete = "SessionStateService.transferIncomplete"

-- `none` is a nil error.
unfoldable pub begin : Service → Option Error × Service
unfolding copy
begin s =
    if not s.transfer_enabled && not s.reset_enabled
    then (none, s)
    else if is_some s.copy_session_state
    then (some transfer_incomplete, s)
    else (none, record s { copy_session_state = some (copy s.session_state) })

unfoldable pub complete : Service → Service
complete s = record s { copy_session_state = none }

unfoldable pub reset_all : Service → Service
unfolding reset
reset_all s =
    on_state
      (λ t. record {
        auto_commit = reset t.auto_commit;
        read_only = reset t.read_only;
        catalog = reset t.catalog;
        schema = reset t.schema;
        transaction_isolation = reset t.transaction_isolation;
      })
      s
