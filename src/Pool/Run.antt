-- ===== src/Pool/Run.antt =====
-- The pool of internal_conn_pool.go with the threads that use it, over any interleaving.
use aws_advanced_go_wrapper.Base.{
  ℕ, zero, suc, List, [], ◌∷◌, ◌++◌, Option, none, some, Error, get_elem?,
}
use aws_advanced_go_wrapper.Pool.{
  Config, Pool, Task, Input, new_conn_pool, advance, getting, got, marking, shutting_down,
}

pub record System : Type 0 where
  pub pool : Pool
  pub tasks : List Task

unfoldable pub initial : System
initial = record { pool = new_conn_pool; tasks = [] }

-- A new call of Get or of the pool's Close, a call of Close by the thread that got a connection, or
-- a step of a thread.
pub data Event : Type 0 where
  call_get call_shutdown : Event
  call_close : ℕ → Event
  advances : ℕ → Input → Event

unfoldable pub replace : ℕ → Task → List Task → List Task
replace i t [] = []
replace zero t (u ∷ us) = t ∷ us
replace (suc i) t (u ∷ us) = u ∷ replace i t us

abbrev pub begin_close : Task → Task
begin_close (got pc) = marking pc
begin_close t = t

module _ (c : Config) (close_error : ℕ → Option Error) where
  unfoldable pub close_task : ℕ → Option Task → System → System
  unfolding replace
  close_task i none s = s
  close_task i (some t) s = record s { tasks = replace i (begin_close t) s.tasks }

  unfoldable pub advance_task : ℕ → Input → Option Task → System → System
  unfolding replace advance
  advance_task i input none s = s
  advance_task i input (some t) s =
      let (t', p') = advance c close_error input t s.pool in
      record { pool = p'; tasks = replace i t' s.tasks }

  unfoldable pub step : Event → System → System
  unfolding close_task advance_task
  step call_get s = record s { tasks = s.tasks ++ getting ∷ [] }
  step call_shutdown s = record s { tasks = s.tasks ++ shutting_down ∷ [] }
  step (call_close i) s = close_task i (get_elem? s.tasks i) s
  step (advances i input) s = advance_task i input (get_elem? s.tasks i) s

  unfoldable pub run : List Event → System → System
  run [] s = s
  run (e ∷ es) s = run es (step e s)
