-- ===== src/Pool/Lock.antt =====
-- When the threads on the pool of internal_conn_pool.go wait, and when they come to an end.
use aws_advanced_go_wrapper.Base.{
  ℕ, suc, ◌+◌, ◌*◌, ◌≤◌, ◌≡◌, refl, ap, Bool, true, false, List, [], ◌∷◌, Option, Error, ltb, arith,
  Option-cases, inl, inr, Bool-cases, length,
}
use aws_advanced_go_wrapper.Pool.{
  Config, Pool, Task, Input, advance, getting, got, marking, shutting_down, closing_expired,
  resetting, relocking, connecting, returning, finished, take_idle, end_reset, end_connect,
  mark_returned, return_conn, close_pool,
}

-- The steps a thread still needs, when no other thread comes between.
abbrev pub steps_left : Task → Pool → ℕ
steps_left getting p = 2 * length p.idle_conns + 2
steps_left (closing_expired now q) p = 2 * length p.idle_conns + 3
steps_left (resetting now q) p = 2 * length p.idle_conns + 3
steps_left (relocking now) p = 2 * length p.idle_conns + 2
steps_left (connecting now) p = 1
steps_left (got q) p = 0
steps_left (marking q) p = 2
steps_left (returning q) p = 1
steps_left shutting_down p = 1
steps_left (finished o) p = 0

abbrev pub needs_lock : Task → Bool
needs_lock getting = true
needs_lock (relocking now) = true
needs_lock (returning q) = true
needs_lock shutting_down = true
needs_lock t = false

module _ (c : Config) (close_error : ℕ → Option Error) where
  abbrev pub drive : List Input → Task → Pool → Task × Pool
  drive [] t p = (t, p)
  drive (i ∷ is) t p = let (t', p') = advance c close_error i t p in drive is t' p'

  take_idle-left :
      (now : ℕ) (pcs : List ℕ) (p : Pool)
      → p.idle_conns ≡ pcs
      → let r = take_idle c now pcs p in
        (steps_left r.0 r.1 + 1 ≤ 2 * length p.idle_conns + 2) × (r.1.locked ≡ p.locked)
  unfolding take_idle
  take_idle-left now [] p h = ground arith
  take_idle-left now (q ∷ rest) p h = ground (arith, ap length h)

  advance-left :
      (i : Input) (t : Task) (p : Pool) (n : ℕ)
      → p.locked ≡ false
      → steps_left t p ≤ suc n
      → let r = advance c close_error i t p in
        (steps_left r.0 r.1 ≤ n) × (1 ≤ steps_left r.0 r.1 → r.1.locked ≡ false)
  unfolding advance end_reset end_connect mark_returned return_conn close_pool
  advance-left i getting p n h l = ground (arith, take_idle-left i.now p.idle_conns p refl)
  advance-left i (closing_expired now q) p n h l = ground arith
  advance-left i (resetting now q) p n h l = elim (Option-cases i.error) [
    | inl e ↦ ground arith
    | inr (x, e) ↦ ground arith
  ]
  advance-left i (relocking now) p n h l = ground (arith, take_idle-left now p.idle_conns p refl)
  advance-left i (connecting now) p n h l = elim (Option-cases i.error) [
    | inl e ↦ ground arith
    | inr (x, e) ↦ ground arith
  ]
  advance-left i (got q) p n h l = ground arith
  advance-left i (marking q) p n h l = ground arith
  advance-left i (returning q) p n h l = ground arith
  advance-left i shutting_down p n h l = ground arith
  advance-left i (finished o) p n h l = ground arith

  advance-settled :
      (i : Input) (t : Task) (p : Pool) → steps_left t p ≡ 0 → advance c close_error i t p ≡ (t, p)
  unfolding advance mark_returned return_conn close_pool
  advance-settled i getting p h = ground arith
  advance-settled i (closing_expired now q) p h = ground arith
  advance-settled i (resetting now q) p h = ground arith
  advance-settled i (relocking now) p h = ground arith
  advance-settled i (connecting now) p h = ground arith
  advance-settled i (got q) p h = refl
  advance-settled i (marking q) p h = ground arith
  advance-settled i (returning q) p h = ground arith
  advance-settled i shutting_down p h = ground arith
  advance-settled i (finished o) p h = refl

  drive-settled :
      (is : List Input) (t : Task) (p : Pool) → steps_left t p ≡ 0 → drive is t p ≡ (t, p)
  drive-settled [] t p h = refl
  drive-settled (i ∷ is) t p h = rw (advance-settled i t p h, drive-settled is t p h)

  -- A thread that no other comes between has its answer after the steps counted for it, whatever
  -- the driver answers: Get after two for each idle connection and two more.
  pub drive-settles :
      (is : List Input) (t : Task) (p : Pool)
      → p.locked ≡ false
      → steps_left t p ≤ length is
      → let r = drive is t p in steps_left r.0 r.1 ≡ 0
  drive-settles [] t p h l = omega arith
  drive-settles (i ∷ is) t p h l =
      let r = advance c close_error i t p in
      elim (Bool-cases (ltb 0 (steps_left r.0 r.1))) [
        | inl b ↦
            drive-settles is r.0 r.1 ((advance-left i t p (length is) h l).1 (ground arith))
              (advance-left i t p (length is) h l).0
        | inr b ↦ rw (drive-settled is r.0 r.1 (ground arith)) (ground arith)
      ]

  pub advance-waits :
      (i : Input) (t : Task) (p : Pool)
      → p.locked ≡ true
      → let r = advance c close_error i t p in (r.1.locked ≡ true) × (needs_lock t ≡ true → r.0 ≡ t)
  unfolding advance end_reset end_connect mark_returned return_conn close_pool
  advance-waits i getting p h = ground arith
  advance-waits i (closing_expired now q) p h = ground arith
  advance-waits i (resetting now q) p h = elim (Option-cases i.error) [
    | inl e ↦ ground arith
    | inr (x, e) ↦ ground arith
  ]
  advance-waits i (relocking now) p h = ground arith
  advance-waits i (connecting now) p h = elim (Option-cases i.error) [
    | inl e ↦ ground arith
    | inr (x, e) ↦ ground arith
  ]
  advance-waits i (got q) p h = ground arith
  advance-waits i (marking q) p h = ground arith
  advance-waits i (returning q) p h = ground arith
  advance-waits i shutting_down p h = ground arith
  advance-waits i (finished o) p h = ground arith
