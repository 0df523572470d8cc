-- ===== src/Session/Apply/Queries.antt =====
-- The queries that `ApplyCurrentSessionState` of session_state_service.go runs, and what a part of it
-- that runs some of them leaves.
use aws_advanced_go_wrapper.Base.{
  String, ◌≡◌, refl, List, [], ◌∷◌, ◌++◌, Option, none, some, Error, Result, arith, Option-cases,
  inl, inr,
}
use aws_advanced_go_wrapper.Session.State.{Field, SessionState}
use aws_advanced_go_wrapper.Session.Service.{Service}
use aws_advanced_go_wrapper.Session.Apply.{Dialect, Driver, exec_query, Action, ◌>>◌, transfer}

-- The query of a field that has a value.
abbrev pub query_of {ℓ} : {T : Type ℓ} → (T → Result String) → Option T → List (Result String)
query_of q none = []
query_of q (some v) = q v ∷ []

-- The queries that stand for a session state, in the order in which they are to be run.
abbrev pub queries : Dialect → SessionState → List (Result String)
queries d t =
    query_of d.get_set_auto_commit_query t.auto_commit.value
    ++ (query_of d.get_set_read_only_query t.read_only.value
        ++ (query_of d.get_set_catalog_query t.catalog.value
            ++ (query_of d.get_set_schema_query t.schema.value
                ++ query_of d.get_set_transaction_isolation_query t.transaction_isolation.value)))

-- A field with a value has it as its pristine value too; one without stays as it is.
abbrev pub settled_to {ℓ} : {T : Type ℓ} → Option T → Field T → Field T
settled_to none f = f
settled_to (some v) f = record { value = some v; pristine_value = some v }

abbrev pub settled {ℓ} : {T : Type ℓ} → Field T → Field T
settled f = settled_to f.value f

abbrev pub all_settled : SessionState → SessionState
all_settled t = record {
  auto_commit = settled t.auto_commit;
  read_only = settled t.read_only;
  catalog = settled t.catalog;
  schema = settled t.schema;
  transaction_isolation = settled t.transaction_isolation;
}

abbrev pub after {ℓ} : {T : Type ℓ} → Option T → (Service → Service) → Service → Service
after none settle s = s
after (some v) settle s = settle s

module _ (dialect : Dialect) (driver : Driver) where
  open driver use {Conn, exec}

  unless_none : Option Error × Conn → (Conn → Option Error × Conn) → Option Error × Conn
  unless_none (none, conn) next = next conn
  unless_none (some e, conn) next = (some e, conn)

  -- Queries run one after the other, until one fails.
  pub run_queries : List (Result String) → Conn → Option Error × Conn
  unfolding unless_none
  run_queries [] conn = (none, conn)
  run_queries (q ∷ qs) conn = unless_none (exec_query dialect driver q conn) (run_queries qs)

  -- A part of the method runs these queries, until one fails, and leaves the service like this.
  pub record Runs (m : Action dialect driver) (qs : List (Result String)) (s s' : Service)
      : Type 0 where
    pub answers : (conn : Conn) → ((m s conn).0, (m s conn).2) ≡ run_queries qs conn
    pub leaves : (conn : Conn) → (m s conn).0 ≡ none → (m s conn).1 ≡ s'

  run_queries-append :
      (ps qs : List (Result String)) (conn : Conn)
      → run_queries (ps ++ qs) conn ≡ unless_none (run_queries ps conn) (run_queries qs)
  unfolding run_queries
  run_queries-append [] qs conn = refl
  run_queries-append (p ∷ ps) qs conn = elim (Option-cases (exec_query dialect driver p conn).0) [
    | inl e ↦ ground (arith, run_queries-append ps qs (exec_query dialect driver p conn).1)
    | inr (x, e) ↦ ground arith
  ]

  pub seq-Runs :
      (m k : Action dialect driver) (ps qs : List (Result String)) (s s' s'' : Service)
      → Runs m ps s s'
      → Runs k qs s' s''
      → Runs (◌>>◌ dialect driver m k) (ps ++ qs) s s''
  unfolding unless_none
  seq-Runs m k ps qs s s' s'' f g = record {
    answers = λ conn. elim (Option-cases (m s conn).0) [
      | inl e ↦ ground (
        arith,
        run_queries-append ps qs conn,
        f.answers conn,
        f.leaves conn e,
        g.answers (m s conn).2,
      )
      | inr (x, e) ↦ ground (arith, run_queries-append ps qs conn, f.answers conn)
    ];
    leaves = λ conn h. elim (Option-cases (m s conn).0) [
      | inl e ↦ ground (arith, f.leaves conn e, g.leaves (m s conn).2)
      | inr (x, e) ↦ ground arith
    ];
  }

  pub transfer-Runs :
      {T : Type 0} (o : Option T) (q : T → Result String) (settle : Service → Service) (s : Service)
      → Runs (transfer dialect driver o q settle) (query_of q o) s (after o settle s)
  unfolding transfer run_queries
  transfer-Runs none q settle s = record { answers = λ conn. refl; leaves = λ conn h. refl }
  transfer-Runs (some v) q settle s = record {
    answers = λ conn. ground arith;
    leaves = λ conn h. refl;
  }
