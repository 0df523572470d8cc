-- ===== src/Pool.antt =====
-- awssql/internal_pool/internal_conn_pool.go: the pool, and the methods cut at the points where they
-- give up the pool's lock. A pooled connection is a number, and the heap holds its fields. Times and
-- durations are nanoseconds.
pub mod Run
pub mod Counts
pub mod Conserve
pub mod Lock
pub mod Leak
mod Tests
use aws_advanced_go_wrapper.Base.{
  ℕ, suc, ◌+◌, Bool, true, false, ◌||◌, ◌&&◌, List, [], ◌∷◌, ◌++◌, Option, none, some, Error,
  nat_beq, ltb, if◌then◌else◌, length,
}

-- The settings of `InternalPoolConfig`; 0 means no bound.
pub record Config : Type 0 where
  pub max_idle_conns : ℕ
  pub max_lifetime : ℕ
  pub max_idle_time : ℕ

pub record PooledConn : Type 0 where
  pub created_at : ℕ
  pub last_used_at : ℕ
  pub returned : Bool

pub record Pool : Type 0 where
  -- Whether some thread has the lock between two of the steps below.
  pub locked : Bool
  pub idle_conns : List ℕ
  pub closed : Bool
  pub heap : ℕ → PooledConn
  -- The number of the next pooled connection.
  pub next : ℕ
  -- The pooled connections whose driver connection was closed, in order.
  pub closed_conns : List ℕ

unfoldable pub new_conn_pool : Pool
new_conn_pool = record {
  locked = false;
  idle_conns = [];
  closed = false;
  heap = λ pc. record { created_at = 0; last_used_at = 0; returned = false };
  next = 0;
  closed_conns = [];
}

-- What a method answers; `ended` is the end of a Close with the error it gives.
pub data Outcome : Type 0 where
  bad_conn : Outcome
  failed : Error → Outcome
  ended : Option Error → Outcome

-- Where a thread stands. `got` has the connection that Get answered, `marking` and `returning` are
-- inside that connection's Close, `shutting_down` is before the lock of the pool's Close. The time
-- is the one that Get reads once.
pub data Task : Type 0 where
  getting : Task
  closing_expired resetting : ℕ → ℕ → Task
  relocking connecting : ℕ → Task
  got marking returning : ℕ → Task
  shutting_down : Task
  finished : Outcome → Task

-- What a step meets outside: the clock, and the error of the driver's reset or connect.
pub record Input : Type 0 where
  pub now : ℕ
  pub error : Option Error

unfoldable pub is_conn_expired : Config → PooledConn → ℕ → Bool
is_conn_expired c pc now =
    (ltb 0 c.max_lifetime && ltb (pc.created_at + c.max_lifetime) now)
    || (ltb 0 c.max_idle_time && ltb (pc.last_used_at + c.max_idle_time) now)

abbrev pub update : ℕ → PooledConn → (ℕ → PooledConn) → ℕ → PooledConn
update pc v heap k = if nat_beq k pc then v else heap k

abbrev pub close_real : ℕ → Pool → Pool
close_real pc p = record p { closed_conns = p.closed_conns ++ pc ∷ [] }

-- One turn of the loop of Get, from the lock to where it is given up.
unfoldable pub take_idle : Config → ℕ → List ℕ → Pool → Task × Pool
take_idle c now [] p = (connecting now, p)
take_idle c now (pc ∷ rest) p = (
  if is_conn_expired c (p.heap pc) now then closing_expired now pc else resetting now pc,
  record p { idle_conns = rest },
)

-- The end of a reset: a connection that was reset is handed out.
unfoldable pub end_reset : ℕ → ℕ → Option Error → Pool → Task × Pool
end_reset now pc none p =
    (got pc, record p { heap = update pc (record (p.heap pc) { returned = false }) p.heap })
end_reset now pc (some e) p = (relocking now, close_real pc p)

unfoldable pub end_connect : ℕ → Option Error → Pool → Task × Pool
end_connect now none p = (
  got p.next,
  record p {
    heap = update p.next (record { created_at = now; last_used_at = now; returned = false }) p.heap;
    next = suc p.next;
  },
)
end_connect now (some e) p = (finished (failed e), p)

-- The first part of a connection's Close; a second Close of it does nothing.
unfoldable pub mark_returned : ℕ → ℕ → Pool → Task × Pool
mark_returned now pc p = if (p.heap pc).returned then (finished (ended none), p) else (
  returning pc,
  record p { heap = update pc (record (p.heap pc) { returned = true; last_used_at = now }) p.heap },
)

module _ (c : Config) (close_error : ℕ → Option Error) where
  unfoldable pub first_error : List ℕ → Option Error
  first_error [] = none
  first_error (pc ∷ rest) = elim (close_error pc) [ some e ↦ some e | none ↦ first_error rest ]

  -- The second part of a connection's Close, under the pool's lock.
  unfoldable pub return_conn : ℕ → Pool → Task × Pool
  return_conn pc p =
      if p.closed
      then (finished (ended (close_error pc)), close_real pc p)
      else if nat_beq c.max_idle_conns 0 || ltb (length p.idle_conns) c.max_idle_conns
      then (finished (ended none), record p { idle_conns = p.idle_conns ++ pc ∷ [] })
      else (finished (ended (close_error pc)), close_real pc p)

  -- The pool's Close, under the lock.
  unfoldable pub close_pool : Pool → Task × Pool
  unfolding first_error
  close_pool p = if p.closed then (finished (ended none), p) else (
    finished (ended (first_error p.idle_conns)),
    record p { closed = true; closed_conns = p.closed_conns ++ p.idle_conns; idle_conns = [] },
  )

  -- A step of a thread. A thread that needs the lock while another has it stays where it is.
  unfoldable pub advance : Input → Task → Pool → Task × Pool
  unfolding take_idle end_reset end_connect mark_returned return_conn close_pool
  advance i getting p =
      if p.locked
      then (getting, p)
      else if p.closed
      then (finished bad_conn, p)
      else take_idle c i.now p.idle_conns p
  -- The driver connection is closed without the lock.
  advance i (closing_expired now pc) p = (relocking now, close_real pc p)
  advance i (resetting now pc) p = end_reset now pc i.error p
  -- The source returns from here without giving the lock up if the pool is closed.
  advance i (relocking now) p =
      if p.locked
      then (relocking now, p)
      else if p.closed
      then (finished bad_conn, record p { locked = true })
      else take_idle c now p.idle_conns p
  advance i (connecting now) p = end_connect now i.error p
  advance i (got pc) p = (got pc, p)
  advance i (marking pc) p = mark_returned i.now pc p
  advance i (returning pc) p = if p.locked then (returning pc, p) else return_conn pc p
  advance i shutting_down p = if p.locked then (shutting_down, p) else close_pool p
  advance i (finished o) p = (finished o, p)
