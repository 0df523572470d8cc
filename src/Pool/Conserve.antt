-- ===== src/Pool/Conserve.antt =====
-- What becomes of the connections of the pool of internal_conn_pool.go, over any interleaving.
use aws_advanced_go_wrapper.Base.{
  ℕ, ◌+◌, ◌-◌, ◌≤◌, ◌≡◌, refl, ap, false, List, [], ◌∷◌, ◌++◌, Option, none, some, Error, get_elem?,
  nat_beq, nat_beq_iff, ltb, one_if, tally, tally-append, arith, Option-cases, inl, inr,
}
use aws_advanced_go_wrapper.Pool.{
  new_conn_pool, Config, Pool, Task, Input, advance, getting, got, marking, shutting_down,
  closing_expired, resetting, relocking, connecting, returning, finished, take_idle, end_reset,
  end_connect, mark_returned, return_conn, close_pool,
}
use aws_advanced_go_wrapper.Pool.Counts.{
  count, holds, uses, sum_of, sum-replace, sum-append, begin_close-counts, le-sum, others-le,
}
use aws_advanced_go_wrapper.Pool.Run.{
  System, Event, call_get, call_shutdown, call_close, advances, initial, begin_close, step, run,
  close_task, advance_task,
}

abbrev total : ℕ → Pool → ℕ
total pc p = count pc p.idle_conns + count pc p.closed_conns

module _ (c : Config) (close_error : ℕ → Option Error) where
  take_idle-total :
      (now : ℕ) (pcs : List ℕ) (p : Pool) (pc : ℕ)
      → p.idle_conns ≡ pcs
      → let r = take_idle c now pcs p in
        (total pc r.1 + holds pc r.0 ≡ total pc p) × (r.1.next ≡ p.next)
  unfolding take_idle
  take_idle-total now [] p pc h = ground arith
  take_idle-total now (q ∷ rest) p pc h = ground (arith, ap (λ xs. tally (nat_beq pc) xs) h)

  advance-total :
      (i : Input) (t : Task) (p : Pool) (pc : ℕ)
      → ((q : ℕ) → 1 ≤ uses q t → (p.heap q).returned ≡ false)
      → let r = advance c close_error i t p in
        total pc r.1 + holds pc r.0 + one_if (ltb pc p.next)
        ≡ total pc p + holds pc t + one_if (ltb pc r.1.next)
  unfolding advance end_reset end_connect mark_returned return_conn close_pool
  advance-total i getting p pc h = ground (arith, take_idle-total i.now p.idle_conns p pc refl)
  advance-total i (closing_expired now q) p pc h =
      omega (arith, tally-append (nat_beq pc) p.closed_conns (q ∷ []))
  advance-total i (resetting now q) p pc h = elim (Option-cases i.error) [
    | inl e ↦ ground arith
    | inr (x, e) ↦ ground (arith, tally-append (nat_beq pc) p.closed_conns (q ∷ []))
  ]
  advance-total i (relocking now) p pc h =
      ground (arith, take_idle-total now p.idle_conns p pc refl)
  advance-total i (connecting now) p pc h = elim (Option-cases i.error) [
    | inl e ↦ ground arith
    | inr (x, e) ↦ ground arith
  ]
  advance-total i (got q) p pc h = refl
  advance-total i (marking q) p pc h = ground (arith, h q)
  advance-total i (returning q) p pc h = ground (
    arith,
    tally-append (nat_beq pc) p.closed_conns (q ∷ []),
    tally-append (nat_beq pc) p.idle_conns (q ∷ []),
  )
  advance-total i shutting_down p pc h =
      ground (arith, tally-append (nat_beq pc) p.closed_conns p.idle_conns)
  advance-total i (finished o) p pc h = refl

take_idle-heap :
    (c : Config) (now : ℕ) (pcs : List ℕ) (p : Pool) (pc : ℕ)
    → ((take_idle c now pcs p).1.heap ≡ p.heap) × (uses pc (take_idle c now pcs p).0 ≡ 0)
unfolding take_idle
take_idle-heap c now [] p pc = (refl, refl)
take_idle-heap c now (q ∷ rest) p pc = (refl, ground arith)

-- The invariant: every connection the pool ever opened is in exactly one place, once: idle, with
-- one thread, or closed; and one that a thread uses is not marked as returned.
pub record IsSound (s : System) : Type 0 where
  pub one_place :
      (pc : ℕ) → total pc s.pool + sum_of (holds pc) s.tasks ≡ one_if (ltb pc s.pool.next)
  pub in_use : (pc : ℕ) → 1 ≤ sum_of (uses pc) s.tasks → (s.pool.heap pc).returned ≡ false

initial-IsSound : IsSound initial
unfolding initial new_conn_pool sum_of
initial-IsSound = record { one_place = λ pc. ground arith; in_use = λ pc h. ground arith }

module _ (c : Config) (close_error : ℕ → Option Error) where
  advance-in_use :
      (i : Input) (t : Task) (p : Pool) (pc others : ℕ)
      → total pc p + holds pc t + others ≤ one_if (ltb pc p.next)
      → ((q : ℕ) → 1 ≤ uses q t → (p.heap q).returned ≡ false)
      → (1 ≤ others → (p.heap pc).returned ≡ false)
      → let r = advance c close_error i t p in
        1 ≤ uses pc r.0 + others → (r.1.heap pc).returned ≡ false
  unfolding advance end_reset end_connect mark_returned return_conn close_pool
  advance-in_use i getting p pc others h k l m =
      ground (arith, take_idle-heap c i.now p.idle_conns p pc)
  advance-in_use i (closing_expired now q) p pc others h k l m = l (omega arith)
  advance-in_use i (resetting now q) p pc others h k l m = elim (Option-cases i.error) [
    | inl e ↦ ground (arith, nat_beq_iff pc q)
    | inr (x, e) ↦ ground arith
  ]
  advance-in_use i (relocking now) p pc others h k l m =
      ground (arith, take_idle-heap c now p.idle_conns p pc)
  advance-in_use i (connecting now) p pc others h k l m = elim (Option-cases i.error) [
    | inl e ↦ ground arith
    | inr (x, e) ↦ ground arith
  ]
  advance-in_use i (got q) p pc others h k l m = ground (arith, k pc)
  advance-in_use i (marking q) p pc others h k l m = ground (arith, k q)
  advance-in_use i (returning q) p pc others h k l m = ground arith
  advance-in_use i shutting_down p pc others h k l m = ground arith
  advance-in_use i (finished o) p pc others h k l m = l (omega arith)

spawn-IsSound :
    (t : Task) (s : System)
    → ((pc : ℕ) → (holds pc t ≡ 0) × (uses pc t ≡ 0))
    → IsSound s
    → IsSound (record s { tasks = s.tasks ++ t ∷ [] })
unfolding sum_of
spawn-IsSound t s h k = record {
  one_place = λ pc. omega (arith, sum-append (holds pc) s.tasks (t ∷ []), (h pc).0, k.one_place pc);
  in_use = λ pc m. k.in_use pc (omega (arith, sum-append (uses pc) s.tasks (t ∷ []), (h pc).1));
}

module _ (c : Config) (close_error : ℕ → Option Error) where
  close-IsSound :
      (i : ℕ) (o : Option Task) (s : System)
      → get_elem? s.tasks i ≡ o
      → IsSound s
      → IsSound (close_task c close_error i o s)
  unfolding close_task
  close-IsSound i none s h k = k
  close-IsSound i (some t) s h k = record {
    one_place = λ pc. omega (
      arith,
      sum-replace (holds pc) i t (begin_close t) s.tasks h,
      (begin_close-counts pc t).0,
      k.one_place pc,
    );
    in_use = λ pc m. k.in_use pc (
        omega (
          arith,
          sum-replace (uses pc) i t (begin_close t) s.tasks h,
          (begin_close-counts pc t).1,
        ));
  }

  advance-IsSound :
      (i : ℕ) (input : Input) (o : Option Task) (s : System)
      → get_elem? s.tasks i ≡ o
      → IsSound s
      → IsSound (advance_task c close_error i input o s)
  unfolding advance_task
  advance-IsSound i input none s h k = k
  advance-IsSound i input (some t) s h k =
      let used : (q : ℕ) → 1 ≤ uses q t → (s.pool.heap q).returned ≡ false =
        λ q m. k.in_use q (omega (arith, le-sum (uses q) i t s.tasks h)) in
      let t' = (advance c close_error input t s.pool).0 in
      record {
        one_place = λ pc. omega (
          arith,
          sum-replace (holds pc) i t t' s.tasks h,
          advance-total c close_error input t s.pool pc used,
          k.one_place pc,
        );
        in_use = λ pc m.
            advance-in_use c close_error input t s.pool pc (sum_of (uses pc) s.tasks - uses pc t)
              (omega
                (arith, others-le pc i t s.tasks h, k.one_place pc, le-sum (uses pc) i t s.tasks h))
              used (λ o. k.in_use pc (omega arith))
              (omega
                (arith, sum-replace (uses pc) i t t' s.tasks h, le-sum (uses pc) i t s.tasks h));
      }

  step-IsSound : (e : Event) (s : System) → IsSound s → IsSound (step c close_error e s)
  unfolding step
  step-IsSound call_get s k = spawn-IsSound getting s (λ pc. (refl, refl)) k
  step-IsSound call_shutdown s k = spawn-IsSound shutting_down s (λ pc. (refl, refl)) k
  step-IsSound (call_close i) s k = close-IsSound i (get_elem? s.tasks i) s refl k
  step-IsSound (advances i input) s k = advance-IsSound i input (get_elem? s.tasks i) s refl k

  pub run-IsSound : (es : List Event) (s : System) → IsSound s → IsSound (run c close_error es s)
  unfolding run
  run-IsSound [] s k = k
  run-IsSound (e ∷ es) s k = run-IsSound es (step c close_error e s) (step-IsSound e s k)

-- However the threads interleave, every pooled connection that Get has made is in exactly one place
-- and there once: idle in the pool, with one thread, or closed. So no connection is handed to two
-- callers, none is lost and none is closed twice, as long as only the thread that Get gave a
-- connection to closes it, and closes it once. The last is part of the calls that the threads make.
pub one_place_each :
    (c : Config) (close_error : ℕ → Option Error) (es : List Event) (pc : ℕ)
    → let s = run c close_error es initial in
      count pc s.pool.idle_conns + count pc s.pool.closed_conns + sum_of (holds pc) s.tasks
      ≡ one_if (ltb pc s.pool.next)
one_place_each c close_error es pc =
    (run-IsSound c close_error es initial initial-IsSound).one_place pc
