-- ===== src/Session/Apply/Transfer.antt =====
-- What `ApplyCurrentSessionState` of session_state_service.go does to the new connection.
use aws_advanced_go_wrapper.Base.{
  String, ◌≡◌, refl, sym, ap, ◌∙◌, Bool, true, not, Option, none, some, arith, if◌then◌else◌,
}
use aws_advanced_go_wrapper.Session.State.{SessionState, TransactionIsolationLevel}
use aws_advanced_go_wrapper.Session.Service.{Service, on_state}
use aws_advanced_go_wrapper.Session.Apply.{
  Dialect, Driver, Action, custom, transfer_fields, apply_current_session_state,
  transfer_auto_commit, settle_auto_commit, transfer_read_only, settle_read_only, transfer_catalog,
  settle_catalog, transfer_schema, settle_schema, transfer_transaction_isolation,
  settle_transaction_isolation,
}
use aws_advanced_go_wrapper.Session.Apply.Queries.{
  query_of, queries, settled, all_settled, after, run_queries, Runs, seq-Runs, transfer-Runs,
}

if_enabled {ℓ} : {A : Type ℓ} (b : Bool) (x y : A) → b ≡ true → (if not b then x else y) ≡ y
if_enabled b x y h = ground arith

module _ (dialect : Dialect) (driver : Driver) where
  open driver use {Conn, exec}

  settle_auto_commit_lem :
      (o : Option Bool) (s : Service)
      → s.transfer_enabled ≡ true
      → s.session_state.auto_commit.value ≡ o
      → after o (settle_auto_commit dialect driver) s
        ≡ on_state (λ t. record t { auto_commit = settled t.auto_commit }) s
  unfolding settle_auto_commit
  settle_auto_commit_lem none s h e = ground arith
  settle_auto_commit_lem (some v) s h e = ground arith

  settle_read_only_lem :
      (o : Option Bool) (s : Service)
      → s.transfer_enabled ≡ true
      → s.session_state.read_only.value ≡ o
      → after o (settle_read_only dialect driver) s
        ≡ on_state (λ t. record t { read_only = settled t.read_only }) s
  unfolding settle_read_only
  settle_read_only_lem none s h e = ground arith
  settle_read_only_lem (some v) s h e = ground arith

  settle_catalog_lem :
      (o : Option String) (s : Service)
      → s.transfer_enabled ≡ true
      → s.session_state.catalog.value ≡ o
      → after o (settle_catalog dialect driver) s
        ≡ on_state (λ t. record t { catalog = settled t.catalog }) s
  unfolding settle_catalog
  settle_catalog_lem none s h e = ground arith
  settle_catalog_lem (some v) s h e = ground arith

  settle_schema_lem :
      (o : Option String) (s : Service)
      → s.transfer_enabled ≡ true
      → s.session_state.schema.value ≡ o
      → after o (settle_schema dialect driver) s
        ≡ on_state (λ t. record t { schema = settled t.schema }) s
  unfolding settle_schema
  settle_schema_lem none s h e = ground arith
  settle_schema_lem (some v) s h e = ground arith

  settle_transaction_isolation_lem :
      (o : Option TransactionIsolationLevel) (s : Service)
      → s.transfer_enabled ≡ true
      → s.session_state.transaction_isolation.value ≡ o
      → after o (settle_transaction_isolation dialect driver) s
        ≡ on_state (λ t. record t { transaction_isolation = settled t.transaction_isolation }) s
  unfolding settle_transaction_isolation
  settle_transaction_isolation_lem none s h e = ground arith
  settle_transaction_isolation_lem (some v) s h e = ground arith

  abbrev settles_auto_commit : SessionState → SessionState
  settles_auto_commit t = record t { auto_commit = settled t.auto_commit }

  transfer_auto_commit-Runs :
      (s : Service)
      → s.transfer_enabled ≡ true
      → Runs dialect driver
          (transfer_auto_commit dialect driver)
          (query_of dialect.get_set_auto_commit_query s.session_state.auto_commit.value)
          s
          (on_state settles_auto_commit s)
  unfolding transfer_auto_commit
  transfer_auto_commit-Runs s h =
      let o = s.session_state.auto_commit.value in
      let r =
        transfer-Runs dialect driver o dialect.get_set_auto_commit_query
          (settle_auto_commit dialect driver) s in
      record {
        answers = r.answers;
        leaves = λ conn e. r.leaves conn e ∙ settle_auto_commit_lem o s h refl;
      }

  abbrev settles_read_only : SessionState → SessionState
  settles_read_only t = record t { read_only = settled t.read_only }

  transfer_read_only-Runs :
      (s : Service)
      → s.transfer_enabled ≡ true
      → Runs dialect driver
          (transfer_read_only dialect driver)
          (query_of dialect.get_set_read_only_query s.session_state.read_only.value)
          s
          (on_state settles_read_only s)
  unfolding transfer_read_only
  transfer_read_only-Runs s h =
      let o = s.session_state.read_only.value in
      let r =
        transfer-Runs dialect driver o dialect.get_set_read_only_query
          (settle_read_only dialect driver) s in
      record {
        answers = r.answers;
        leaves = λ conn e. r.leaves conn e ∙ settle_read_only_lem o s h refl;
      }

  abbrev settles_catalog : SessionState → SessionState
  settles_catalog t = record t { catalog = settled t.catalog }

  transfer_catalog-Runs :
      (s : Service)
      → s.transfer_enabled ≡ true
      → Runs dialect driver
          (transfer_catalog dialect driver)
          (query_of dialect.get_set_catalog_query s.session_state.catalog.value)
          s
          (on_state settles_catalog s)
  unfolding transfer_catalog
  transfer_catalog-Runs s h =
      let o = s.session_state.catalog.value in
      let r =
        transfer-Runs dialect driver o dialect.get_set_catalog_query (settle_catalog dialect driver)
          s in
      record {
        answers = r.answers;
        leaves = λ conn e. r.leaves conn e ∙ settle_catalog_lem o s h refl;
      }

  abbrev settles_schema : SessionState → SessionState
  settles_schema t = record t { schema = settled t.schema }

  transfer_schema-Runs :
      (s : Service)
      → s.transfer_enabled ≡ true
      → Runs dialect driver
          (transfer_schema dialect driver)
          (query_of dialect.get_set_schema_query s.session_state.schema.value)
          s
          (on_state settles_schema s)
  unfolding transfer_schema
  transfer_schema-Runs s h =
      let o = s.session_state.schema.value in
      let r =
        transfer-Runs dialect driver o dialect.get_set_schema_query (settle_schema dialect driver)
          s in
      record {
        answers = r.answers;
        leaves = λ conn e. r.leaves conn e ∙ settle_schema_lem o s h refl;
      }

  abbrev settles_transaction_isolation : SessionState → SessionState
  settles_transaction_isolation t = record t {
    transaction_isolation = settled t.transaction_isolation;
  }

  transfer_transaction_isolation-Runs :
      (s : Service)
      → s.transfer_enabled ≡ true
      → Runs dialect driver
          (transfer_transaction_isolation dialect driver)
          (query_of dialect.get_set_transaction_isolation_query
            s.session_state.transaction_isolation.value)
          s
          (on_state settles_transaction_isolation s)
  unfolding transfer_transaction_isolation
  transfer_transaction_isolation-Runs s h =
      let o = s.session_state.transaction_isolation.value in
      let r =
        transfer-Runs dialect driver o dialect.get_set_transaction_isolation_query
          (settle_transaction_isolation dialect driver) s in
      record {
        answers = r.answers;
        leaves = λ conn e. r.leaves conn e ∙ settle_transaction_isolation_lem o s h refl;
      }

  transfer_fields-Runs :
      (s : Service)
      → s.transfer_enabled ≡ true
      → Runs dialect driver
          (transfer_fields dialect driver)
          (queries dialect s.session_state)
          s
          (on_state all_settled s)
  unfolding transfer_fields
  transfer_fields-Runs s h =
      let s1 = on_state settles_auto_commit s in
      let s2 = on_state settles_read_only s1 in
      let s3 = on_state settles_catalog s2 in
      let s4 = on_state settles_schema s3 in
      let r5 = transfer_transaction_isolation-Runs s4 h in
      let r4 = seq-Runs dialect driver _ _ _ _ s3 s4 _ (transfer_schema-Runs s3 h) r5 in
      let r3 = seq-Runs dialect driver _ _ _ _ s2 s3 _ (transfer_catalog-Runs s2 h) r4 in
      let r2 = seq-Runs dialect driver _ _ _ _ s1 s2 _ (transfer_read_only-Runs s1 h) r3 in
      seq-Runs dialect driver _ _ _ _ s s1 _ (transfer_auto_commit-Runs s h) r2

  custom-none :
      (o : Option (SessionState → Conn → Bool × Conn)) (next : Action dialect driver) (s : Service)
      (conn : Conn)
      → o ≡ none
      → custom dialect driver o next s conn ≡ next s conn
  unfolding custom
  custom-none none next s conn e = refl
  custom-none (some f) next s conn e = cc

  apply_current_lem :
      (s : Service) (conn : Conn)
      → s.transfer_enabled ≡ true
      → driver.transfer_func ≡ none
      → apply_current_session_state dialect driver s conn ≡ transfer_fields dialect driver s conn
  unfolding apply_current_session_state
  apply_current_lem s conn h f =
      if_enabled s.transfer_enabled _ _ h
      ∙ custom-none driver.transfer_func (transfer_fields dialect driver) s conn f

  -- Where the transfer is enabled and no function for it is installed, the method runs on the new
  -- connection, in a fixed order, the queries of the settings that have a value and no others, until
  -- the dialect refuses one or one fails; it returns that error, or none.
  pub apply_current-queries :
      (s : Service) (conn : Conn)
      → s.transfer_enabled ≡ true
      → driver.transfer_func ≡ none
      → let r = apply_current_session_state dialect driver s conn in
        (r.0, r.2) ≡ run_queries dialect driver (queries dialect s.session_state) conn
  apply_current-queries s conn h f =
      ap (λ r. (r.0, r.2)) (apply_current_lem s conn h f) ∙ (transfer_fields-Runs s h).answers conn

  -- Where the transfer is enabled, no function for it is installed, and `ApplyCurrentSessionState`
  -- returns no error, each setting that has a value has it as its pristine value too, and nothing
  -- else of the service changes.
  pub apply_current_settles :
      (s : Service) (conn : Conn)
      → s.transfer_enabled ≡ true
      → driver.transfer_func ≡ none
      → (apply_current_session_state dialect driver s conn).0 ≡ none
      → (apply_current_session_state dialect driver s conn).1
        ≡ record s { session_state = all_settled s.session_state }
  apply_current_settles s conn h f e =
      ap (λ r. r.1) (apply_current_lem s conn h f)
      ∙ (transfer_fields-Runs s h).leaves conn
          (sym (ap (λ r. r.0) (apply_current_lem s conn h f)) ∙ e)
