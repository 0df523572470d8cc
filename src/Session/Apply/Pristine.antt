-- ===== src/Session/Apply/Pristine.antt =====
-- What `ApplyPristineSessionState` of session_state_service.go does to the connection given up.
use aws_advanced_go_wrapper.Base.{
  String, ◌≡◌, refl, ◌∙◌, Bool, not, ◌&&◌, is_some, if-cases, List, [], ◌∷◌, Option, none, some,
  Error, Result, arith, Option-cases, inl, inr, Comparable, nat_comparable, string_comparable,
  bool_comparable,
}
use aws_advanced_go_wrapper.Session.State.{
  Field, SessionState, TransactionIsolationLevel, copy_pristine,
}
use aws_advanced_go_wrapper.Session.Service.{
  Service, new, begin, complete, reset_all, set_auto_commit, setup_pristine_auto_commit,
  setup_pristine_auto_commit_with_val, set_read_only, setup_pristine_read_only,
  setup_pristine_read_only_with_val, set_catalog, setup_pristine_catalog,
  setup_pristine_catalog_with_val, set_schema, setup_pristine_schema,
  setup_pristine_schema_with_val, set_transaction_isolation, setup_pristine_transaction_isolation,
  setup_pristine_transaction_isolation_with_val,
}
use aws_advanced_go_wrapper.Session.Apply.{
  Dialect, Driver, Action, ◌>>◌, transfer, custom, transfer_fields, apply_current_session_state,
  apply_pristine_session_state, restore_copy, restore_field, transfer_auto_commit,
  settle_auto_commit, transfer_read_only, settle_read_only, transfer_catalog, settle_catalog,
  transfer_schema, settle_schema, transfer_transaction_isolation, settle_transaction_isolation,
}

-- A call of one of the service's methods. The connection that the settings are applied to comes
-- with the dialect and the driver in use then.
pub data Call : Type 1 where
  sets_auto_commit setups_auto_commit_with_val : Bool → Call
  setups_auto_commit : Call
  sets_read_only setups_read_only_with_val : Bool → Call
  setups_read_only : Call
  sets_catalog setups_catalog_with_val : String → Call
  setups_catalog : Call
  sets_schema setups_schema_with_val : String → Call
  setups_schema : Call
  sets_transaction_isolation setups_transaction_isolation_with_val :
      TransactionIsolationLevel → Call
  setups_transaction_isolation : Call
  begins completes resets : Call
  applies : Dialect → (driver : Driver) → driver.Conn → Call

pub step : Call → Service → Service
step (sets_auto_commit v) s = set_auto_commit v s
step (setups_auto_commit_with_val v) s = setup_pristine_auto_commit_with_val v s
step setups_auto_commit s = setup_pristine_auto_commit s
step (sets_read_only v) s = set_read_only v s
step (setups_read_only_with_val v) s = setup_pristine_read_only_with_val v s
step setups_read_only s = setup_pristine_read_only s
step (sets_catalog v) s = set_catalog v s
step (setups_catalog_with_val v) s = setup_pristine_catalog_with_val v s
step setups_catalog s = setup_pristine_catalog s
step (sets_schema v) s = set_schema v s
step (setups_schema_with_val v) s = setup_pristine_schema_with_val v s
step setups_schema s = setup_pristine_schema s
step (sets_transaction_isolation v) s = set_transaction_isolation v s
step (setups_transaction_isolation_with_val v) s = setup_pristine_transaction_isolation_with_val v s
step setups_transaction_isolation s = setup_pristine_transaction_isolation s
step begins s = (begin s).1
step completes s = complete s
step resets s = reset_all s
step (applies dialect driver conn) s = (apply_current_session_state dialect driver s conn).1

-- The service after a history of calls.
pub run : List Call → Service → Service
run [] s = s
run (o ∷ os) s = run os (step o s)

-- No field of the copy has a pristine value.
abbrev IsClean : Option SessionState → Type 0
IsClean none = Unit
IsClean (some t) =
    (t.auto_commit.pristine_value ≡ none)
    × (t.read_only.pristine_value ≡ none)
    × (t.catalog.pristine_value ≡ none)
    × (t.schema.pristine_value ≡ none)
    × (t.transaction_isolation.pristine_value ≡ none)

-- An action leaves the copy as it is.
Keeps : (dialect : Dialect) (driver : Driver) → Action dialect driver → Type 0
Keeps dialect driver m =
    (s : Service) (conn : driver.Conn) → (m s conn).1.copy_session_state ≡ s.copy_session_state

module _ (dialect : Dialect) (driver : Driver) where
  seq-Keeps :
      (m k : Action dialect driver)
      → Keeps dialect driver m
      → Keeps dialect driver k
      → Keeps dialect driver (◌>>◌ dialect driver m k)
  unfolding Keeps
  seq-Keeps m k f g s conn = elim (Option-cases (m s conn).0) [
    | inl e ↦ ground (arith, f s conn, g (m s conn).1 (m s conn).2)
    | inr (x, e) ↦ ground (arith, f s conn)
  ]

  transfer-Keeps :
      {T : Type 0} (o : Option T) (q : T → Result String) (settle : Service → Service)
      → ((s : Service) → (settle s).copy_session_state ≡ s.copy_session_state)
      → Keeps dialect driver (transfer dialect driver o q settle)
  unfolding Keeps transfer
  transfer-Keeps none q settle h s conn = refl
  transfer-Keeps (some v) q settle h s conn = h s

  transfer_auto_commit-Keeps : Keeps dialect driver (transfer_auto_commit dialect driver)
  unfolding Keeps transfer_auto_commit transfer
  transfer_auto_commit-Keeps s conn =
      transfer-Keeps s.session_state.auto_commit.value dialect.get_set_auto_commit_query
        (settle_auto_commit dialect driver) (λ s'. unfold settle_auto_commit in refl) s conn

  transfer_read_only-Keeps : Keeps dialect driver (transfer_read_only dialect driver)
  unfolding Keeps transfer_read_only transfer
  transfer_read_only-Keeps s conn =
      transfer-Keeps s.session_state.read_only.value dialect.get_set_read_only_query
        (settle_read_only dialect driver) (λ s'. unfold settle_read_only in refl) s conn

  transfer_catalog-Keeps : Keeps dialect driver (transfer_catalog dialect driver)
  unfolding Keeps transfer_catalog transfer
  transfer_catalog-Keeps s conn =
      transfer-Keeps s.session_state.catalog.value dialect.get_set_catalog_query
        (settle_catalog dialect driver) (λ s'. unfold settle_catalog in refl) s conn

  transfer_schema-Keeps : Keeps dialect driver (transfer_schema dialect driver)
  unfolding Keeps transfer_schema transfer
  transfer_schema-Keeps s conn =
      transfer-Keeps s.session_state.schema.value dialect.get_set_schema_query
        (settle_schema dialect driver) (λ s'. unfold settle_schema in refl) s conn

  transfer_transaction_isolation-Keeps :
      Keeps dialect driver (transfer_transaction_isolation dialect driver)
  unfolding Keeps transfer_transaction_isolation transfer
  transfer_transaction_isolation-Keeps s conn =
      transfer-Keeps s.session_state.transaction_isolation.value
        dialect.get_set_transaction_isolation_query (settle_transaction_isolation dialect driver)
        (λ s'. unfold settle_transaction_isolation in refl) s conn

  transfer_fields-Keeps : Keeps dialect driver (transfer_fields dialect driver)
  unfolding transfer_fields
  transfer_fields-Keeps =
      let k5 = transfer_transaction_isolation-Keeps in
      let k4 = seq-Keeps (transfer_schema dialect driver) _ transfer_schema-Keeps k5 in
      let k3 = seq-Keeps (transfer_catalog dialect driver) _ transfer_catalog-Keeps k4 in
      let k2 = seq-Keeps (transfer_read_only dialect driver) _ transfer_read_only-Keeps k3 in
      seq-Keeps (transfer_auto_commit dialect driver) _ transfer_auto_commit-Keeps k2

  custom-Keeps :
      (o : Option (SessionState → driver.Conn → Bool × driver.Conn)) (next : Action dialect driver)
      → Keeps dialect driver next
      → Keeps dialect driver (custom dialect driver o next)
  unfolding Keeps custom
  custom-Keeps none next h s conn = h s conn
  custom-Keeps (some f) next h s conn = ground (arith, h s (f s.session_state conn).1)

  apply_current-Keeps : Keeps dialect driver (apply_current_session_state dialect driver)
  unfolding Keeps apply_current_session_state
  apply_current-Keeps s conn = ground (
    arith,
    custom-Keeps driver.transfer_func (transfer_fields dialect driver) transfer_fields-Keeps s conn,
  )

  restore_clean :
      {T : Type 0} ⦃e : Comparable T⦄ (q : T → Result String) (f : Field T) (s : Service)
      (conn : driver.Conn)
      → f.pristine_value ≡ none
      → restore_field dialect driver q f s conn ≡ (none, s, conn)
  unfolding restore_field
  restore_clean q f s conn h = rw h

  restore_copy_clean :
      (o : Option SessionState) (s : Service) (conn : driver.Conn)
      → IsClean o
      → restore_copy dialect driver o s conn ≡ (none, s, conn)
  unfolding restore_copy
  restore_copy_clean none s conn h = refl
  restore_copy_clean (some t) s conn h = simp (
    restore_clean dialect.get_set_auto_commit_query t.auto_commit s conn h.0,
    restore_clean dialect.get_set_read_only_query t.read_only s conn h.1,
    restore_clean dialect.get_set_catalog_query t.catalog s conn h.2,
    restore_clean dialect.get_set_schema_query t.schema s conn h.3,
    restore_clean dialect.get_set_transaction_isolation_query t.transaction_isolation s conn h.4,
  )

step-IsClean :
    (o : Call) (s : Service) → IsClean s.copy_session_state → IsClean (step o s).copy_session_state
unfolding step begin complete reset_all Keeps
step-IsClean (sets_auto_commit v) s h = unfold set_auto_commit in h
step-IsClean (setups_auto_commit_with_val v) s h = unfold setup_pristine_auto_commit_with_val in h
step-IsClean setups_auto_commit s h = unfold setup_pristine_auto_commit in h
step-IsClean (sets_read_only v) s h = unfold set_read_only in h
step-IsClean (setups_read_only_with_val v) s h = unfold setup_pristine_read_only_with_val in h
step-IsClean setups_read_only s h = unfold setup_pristine_read_only in h
step-IsClean (sets_catalog v) s h = unfold set_catalog in h
step-IsClean (setups_catalog_with_val v) s h = unfold setup_pristine_catalog_with_val in h
step-IsClean setups_catalog s h = unfold setup_pristine_catalog in h
step-IsClean (sets_schema v) s h = unfold set_schema in h
step-IsClean (setups_schema_with_val v) s h = unfold setup_pristine_schema_with_val in h
step-IsClean setups_schema s h = unfold setup_pristine_schema in h
step-IsClean (sets_transaction_isolation v) s h = unfold set_transaction_isolation in h
step-IsClean (setups_transaction_isolation_with_val v) s h =
    unfold setup_pristine_transaction_isolation_with_val in h
step-IsClean setups_transaction_isolation s h = unfold setup_pristine_transaction_isolation in h
step-IsClean begins s h =
    if-cases (λ (r : Option Error × Service). IsClean r.1.copy_session_state)
      (not s.transfer_enabled && not s.reset_enabled) h
      (if-cases (λ (r : Option Error × Service). IsClean r.1.copy_session_state)
        (is_some s.copy_session_state) h (copy_pristine s.session_state))
step-IsClean completes s h = tt
step-IsClean resets s h = h
step-IsClean (applies dialect driver conn) s h = rw (apply_current-Keeps dialect driver s conn) h

run-IsClean :
    (os : List Call) (s : Service)
    → IsClean s.copy_session_state
    → IsClean (run os s).copy_session_state
unfolding run
run-IsClean [] s h = h
run-IsClean (o ∷ os) s h = run-IsClean os (step o s) (step-IsClean o s h)

module _ (dialect : Dialect) (driver : Driver) where
  custom-none :
      (o : Option (SessionState → driver.Conn → Bool × driver.Conn)) (s : Service)
      (conn : driver.Conn)
      → o ≡ none
      → custom dialect driver o
          (λ s' conn'. restore_copy dialect driver s'.copy_session_state s' conn')
          s
          conn
        ≡ restore_copy dialect driver s.copy_session_state s conn
  unfolding custom
  custom-none none s conn e = refl
  custom-none (some f) s conn e = cc

  -- After any history of the service's methods from a new service, where no function for the reset
  -- is installed, the method runs no query on the connection that is given up, changes nothing and
  -- returns no error: whatever pristine values were recorded, none is ever restored.
  pub apply_pristine_restores_nothing :
      (t r : Bool) (os : List Call) (conn : driver.Conn)
      → driver.reset_func ≡ none
      → let s = run os (new t r) in
        apply_pristine_session_state dialect driver s conn ≡ (none, s, conn)
  unfolding apply_pristine_session_state
  apply_pristine_restores_nothing t r os conn h =
      let s = run os (new t r) in
      let clean = run-IsClean os (new t r) (unfold new in tt) in
      if-cases (λ (r : Option Error × Service × driver.Conn). r ≡ (none, s, conn))
        (not s.reset_enabled) refl
        (custom-none driver.reset_func s conn h
          ∙ restore_copy_clean dialect driver s.copy_session_state s conn clean)
