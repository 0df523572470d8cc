-- ===== src/Pool/Leak.antt =====
-- What follows when Get in internal_conn_pool.go finds the pool closed as it takes the lock again.
use aws_advanced_go_wrapper.Base.{
  ℕ, zero, suc, ◌≡◌, ◌≢◌, refl, sym, ap, ◌∙◌, true, List, [], ◌∷◌, ◌++◌, Option, none, some, Error,
  get_elem?, arith,
}
use mathlib.Core.Option.{some-injective}
use aws_advanced_go_wrapper.Pool.{
  Config, Task, Input, advance, getting, got, marking, shutting_down, closing_expired, resetting,
  relocking, connecting, returning, finished,
}
use aws_advanced_go_wrapper.Pool.Run.{
  System, Event, call_get, call_shutdown, call_close, advances, replace, begin_close, step, run,
  close_task, advance_task,
}
use aws_advanced_go_wrapper.Pool.Lock.{needs_lock, advance-waits}

get_elem?-append :
    (ts us : List Task) (k : ℕ) (t : Task)
    → get_elem? ts k ≡ some t
    → get_elem? (ts ++ us) k ≡ some t
get_elem?-append [] us k t h = ground arith
get_elem?-append (u ∷ ts) us zero t h = h
get_elem?-append (u ∷ ts) us (suc k) t h = get_elem?-append ts us k t h

get_elem?-replace :
    (i k : ℕ) (u t : Task) (ts : List Task)
    → get_elem? ts k ≡ some t
    → (i ≡ k → u ≡ t)
    → get_elem? (replace i u ts) k ≡ some t
unfolding replace
get_elem?-replace i k u t [] h same = h
get_elem?-replace zero zero u t (x ∷ ts) h same = ap some (same refl)
get_elem?-replace zero (suc k) u t (x ∷ ts) h same = h
get_elem?-replace (suc i) zero u t (x ∷ ts) h same = h
get_elem?-replace (suc i) (suc k) u t (x ∷ ts) h same =
    get_elem?-replace i k u t ts h (λ e. same (ap suc e))

-- The thread at a place is the thread at that place.
same_task :
    (ts : List Task) (i k : ℕ) (u t : Task)
    → get_elem? ts i ≡ some u
    → get_elem? ts k ≡ some t
    → i ≡ k
    → u ≡ t
same_task ts i k u t h l e = some-injective u t (sym h ∙ ap (get_elem? ts) e ∙ l)

begin_close-waits : (t : Task) → needs_lock t ≡ true → begin_close t ≡ t
begin_close-waits getting h = refl
begin_close-waits (closing_expired now q) h = refl
begin_close-waits (resetting now q) h = refl
begin_close-waits (relocking now) h = refl
begin_close-waits (connecting now) h = refl
begin_close-waits (got q) h = ground arith
begin_close-waits (marking q) h = refl
begin_close-waits (returning q) h = refl
begin_close-waits shutting_down h = refl
begin_close-waits (finished o) h = refl

module _ (c : Config) (close_error : ℕ → Option Error) where
  record IsStuck (k : ℕ) (t : Task) (s : System) : Type 0 where
    is_locked : s.pool.locked ≡ true
    waits : get_elem? s.tasks k ≡ some t

  close-IsStuck :
      (i : ℕ) (o : Option Task) (s : System) (k : ℕ) (t : Task)
      → get_elem? s.tasks i ≡ o
      → needs_lock t ≡ true
      → IsStuck k t s
      → IsStuck k t (close_task c close_error i o s)
  unfolding close_task
  close-IsStuck i none s k t h n w = w
  close-IsStuck i (some u) s k t h n w = record {
    is_locked = w.is_locked;
    waits =
        get_elem?-replace i k (begin_close u) t s.tasks w.waits
          (λ e. ap begin_close (same_task s.tasks i k u t h w.waits e) ∙ begin_close-waits t n);
  }

  advance-IsStuck :
      (i : ℕ) (input : Input) (o : Option Task) (s : System) (k : ℕ) (t : Task)
      → get_elem? s.tasks i ≡ o
      → needs_lock t ≡ true
      → IsStuck k t s
      → IsStuck k t (advance_task c close_error i input o s)
  unfolding advance_task
  advance-IsStuck i input none s k t h n w = w
  advance-IsStuck i input (some u) s k t h n w =
      let r = advance-waits c close_error input u s.pool w.is_locked in
      record {
        is_locked = r.0;
        waits = get_elem?-replace i k _ t s.tasks w.waits (λ e.
            let same = same_task s.tasks i k u t h w.waits e in
            r.1 (ap needs_lock same ∙ n) ∙ same);
      }

  step-IsStuck :
      (e : Event) (s : System) (k : ℕ) (t : Task)
      → needs_lock t ≡ true
      → IsStuck k t s
      → IsStuck k t (step c close_error e s)
  unfolding step
  step-IsStuck call_get s k t n w = record {
    is_locked = w.is_locked;
    waits = get_elem?-append s.tasks (getting ∷ []) k t w.waits;
  }
  step-IsStuck call_shutdown s k t n w = record {
    is_locked = w.is_locked;
    waits = get_elem?-append s.tasks (shutting_down ∷ []) k t w.waits;
  }
  step-IsStuck (call_close i) s k t n w = close-IsStuck i (get_elem? s.tasks i) s k t refl n w
  step-IsStuck (advances i input) s k t n w =
      advance-IsStuck i input (get_elem? s.tasks i) s k t refl n w

  run-IsStuck :
      (es : List Event) (s : System) (k : ℕ) (t : Task)
      → needs_lock t ≡ true
      → IsStuck k t s
      → IsStuck k t (run c close_error es s)
  unfolding run
  run-IsStuck [] s k t n w = w
  run-IsStuck (e ∷ es) s k t n w =
      run-IsStuck es (step c close_error e s) k t n (step-IsStuck e s k t n w)

relock-IsStuck :
    (c : Config) (close_error : ℕ → Option Error) (s : System) (i k now : ℕ) (t : Task)
    (input : Input)
    → s.pool.closed ≡ true
    → i ≢ k
    → get_elem? s.tasks k ≡ some t
    → IsStuck c close_error k t (advance_task c close_error i input (some (relocking now)) s)
unfolding advance_task advance
relock-IsStuck c close_error s i k now t input closed other l = record {
  is_locked = ground arith;
  waits = get_elem?-replace i k _ t s.tasks l (λ e. elim (other e) [ ]);
}

-- If the pool was closed while a Get was closing an expired connection, or one whose reset failed,
-- that Get takes the lock and answers with it: whatever happens afterwards, the lock stays taken and
-- every other thread that needs it, in Get, in a connection's Close or in the pool's Close, stays
-- where it is for ever.
pub closed_get_deadlocks :
    (c : Config) (close_error : ℕ → Option Error) (input : Input) (es : List Event) (s : System)
    (i k now : ℕ) (t : Task)
    → get_elem? s.tasks i ≡ some (relocking now)
    → s.pool.closed ≡ true
    → i ≢ k
    → get_elem? s.tasks k ≡ some t
    → needs_lock t ≡ true
    → let s' = run c close_error (advances i input ∷ es) s in
      (s'.pool.locked ≡ true) × (get_elem? s'.tasks k ≡ some t)
unfolding run step
closed_get_deadlocks c close_error input es s i k now t h closed other l n =
    let w =
      run-IsStuck c close_error es (step c close_error (advances i input) s) k t n
        (rw h (relock-IsStuck c close_error s i k now t input closed other l)) in
    (w.is_locked, w.waits)
