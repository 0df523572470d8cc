-- ===== src/Pool/Tests.antt =====
-- Runs of the pool: a connection opened, closed, found expired, and the pool closed meanwhile.
use aws_advanced_go_wrapper.Base.{
  ℕ, ◌+◌, ◌≡◌, refl, true, List, [], ◌∷◌, Option, none, some, Error, one_if, ltb, arith, get_elem?,
}
use aws_advanced_go_wrapper.Pool.{
  Config, Input, new_conn_pool, getting, advance, is_conn_expired, take_idle, end_reset,
  end_connect, mark_returned, return_conn, close_pool, first_error,
}
use aws_advanced_go_wrapper.Pool.Run.{
  System, Event, call_get, call_shutdown, call_close, advances, initial, run, step, replace,
  close_task, advance_task,
}
use aws_advanced_go_wrapper.Pool.Counts.{count, sum_of, holds}
use aws_advanced_go_wrapper.Pool.Conserve.{one_place_each}
use aws_advanced_go_wrapper.Pool.Lock.{steps_left, drive, drive-settles}
use aws_advanced_go_wrapper.Pool.Leak.{closed_get_deadlocks}

-- Two idle connections, each for at most 5 nanoseconds.
abbrev config : Config
config = record { max_idle_conns = 2; max_lifetime = 0; max_idle_time = 5 }

abbrev no_error : ℕ → Option Error
no_error pc = none

abbrev at : ℕ → Input
at now = record { now = now; error = none }

abbrev turn : ℕ → ℕ → Event
turn i now = advances i (at now)

-- Thread 0 gets a connection and closes it; thread 1 finds it expired and closes its driver
-- connection; thread 2 closes the pool.
abbrev history : List Event
history =
    call_get
    ∷ turn 0 1
    ∷ turn 0 2
    ∷ call_close 0
    ∷ turn 0 3
    ∷ turn 0 3
    ∷ call_get
    ∷ turn 1 20
    ∷ call_shutdown
    ∷ turn 2 21
    ∷ turn 1 22
    ∷ []

one_place_each_example :
    let s = run config no_error history initial in
    count 0 s.pool.idle_conns + count 0 s.pool.closed_conns + sum_of (holds 0) s.tasks
    ≡ one_if (ltb 0 s.pool.next)
one_place_each_example = one_place_each config no_error history 0

drive-settles_example :
    let r = drive config no_error (at 1 ∷ at 2 ∷ []) getting new_conn_pool in steps_left r.0 r.1 ≡ 0
unfolding new_conn_pool
drive-settles_example =
    drive-settles config no_error (at 1 ∷ at 2 ∷ []) getting new_conn_pool refl (omega arith)

-- The pool is closed at the end of that history, and a third Get waits.
abbrev meanwhile : System
meanwhile = run config no_error (call_get ∷ []) (run config no_error history initial)

closed_get_deadlocks_example :
    let s = run config no_error (turn 1 23 ∷ turn 3 24 ∷ []) meanwhile in
    (s.pool.locked ≡ true) × (get_elem? s.tasks 3 ≡ some getting)
unfolding run step close_task advance_task replace initial new_conn_pool advance take_idle end_reset
    end_connect first_error is_conn_expired mark_returned return_conn close_pool
closed_get_deadlocks_example =
    closed_get_deadlocks config no_error (at 23) (turn 3 24 ∷ []) meanwhile 1 3 20 getting refl refl
      (λ e. ground arith) refl refl
