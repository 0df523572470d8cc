-- ===== src/Pool/Counts.antt =====
-- How many threads hold a pooled connection of internal_conn_pool.go.
use aws_advanced_go_wrapper.Base.{
  ℕ, zero, suc, ◌+◌, ◌≤◌, ◌≡◌, refl, ap, List, [], ◌∷◌, ◌++◌, Option, none, some, get_elem?,
  nat_beq, one_if, tally, arith,
}
use aws_advanced_go_wrapper.Pool.{
  Task, getting, got, marking, shutting_down, closing_expired, resetting, relocking, connecting,
  returning, finished,
}
use aws_advanced_go_wrapper.Pool.Run.{replace, begin_close}

abbrev pub count : ℕ → List ℕ → ℕ
count pc pcs = tally (nat_beq pc) pcs

-- Whether a thread has a connection, on the way out of the pool or back to it.
abbrev pub holds : ℕ → Task → ℕ
holds pc (closing_expired now q) = one_if (nat_beq pc q)
holds pc (resetting now q) = one_if (nat_beq pc q)
holds pc (got q) = one_if (nat_beq pc q)
holds pc (marking q) = one_if (nat_beq pc q)
holds pc (returning q) = one_if (nat_beq pc q)
holds pc t = 0

-- Whether a thread uses a connection that is not yet marked as returned.
abbrev pub uses : ℕ → Task → ℕ
uses pc (got q) = one_if (nat_beq pc q)
uses pc (marking q) = one_if (nat_beq pc q)
uses pc t = 0

pub or_of : (Task → ℕ) → Task → Option Task → ℕ
or_of f u none = f u
or_of f u (some t) = f t

unfoldable pub sum_of : (Task → ℕ) → List Task → ℕ
sum_of f [] = 0
sum_of f (t ∷ ts) = f t + sum_of f ts

-- One thread changes its place and the others stay.
pub sum-replace :
    (f : Task → ℕ) (i : ℕ) (t t' : Task) (ts : List Task)
    → get_elem? ts i ≡ some t
    → sum_of f (replace i t' ts) + f t ≡ sum_of f ts + f t'
unfolding sum_of replace or_of
sum-replace f i t t' [] h = ground arith
sum-replace f zero t t' (u ∷ us) h = omega (arith, ap (or_of f u) h)
sum-replace f (suc i) t t' (u ∷ us) h = omega (arith, sum-replace f i t t' us h)

pub use-holds : (pc : ℕ) (t : Task) → uses pc t ≤ holds pc t
use-holds pc getting = omega arith
use-holds pc (closing_expired now q) = omega arith
use-holds pc (resetting now q) = omega arith
use-holds pc (relocking now) = omega arith
use-holds pc (connecting now) = omega arith
use-holds pc (got q) = omega arith
use-holds pc (marking q) = omega arith
use-holds pc (returning q) = omega arith
use-holds pc shutting_down = omega arith
use-holds pc (finished o) = omega arith

pub uses-le-holds : (pc : ℕ) (ts : List Task) → sum_of (uses pc) ts ≤ sum_of (holds pc) ts
unfolding sum_of
uses-le-holds pc [] = omega arith
uses-le-holds pc (t ∷ ts) = omega (arith, uses-le-holds pc ts, use-holds pc t)

pub sum-append :
    (f : Task → ℕ) (ts us : List Task) → sum_of f (ts ++ us) ≡ sum_of f ts + sum_of f us
unfolding sum_of
sum-append f [] us = omega arith
sum-append f (t ∷ ts) us = omega (arith, sum-append f ts us)

pub begin_close-counts :
    (pc : ℕ) (t : Task)
    → (holds pc (begin_close t) ≡ holds pc t) × (uses pc (begin_close t) ≡ uses pc t)
begin_close-counts pc getting = (refl, refl)
begin_close-counts pc (closing_expired now q) = (refl, refl)
begin_close-counts pc (resetting now q) = (refl, refl)
begin_close-counts pc (relocking now) = (refl, refl)
begin_close-counts pc (connecting now) = (refl, refl)
begin_close-counts pc (got q) = (refl, refl)
begin_close-counts pc (marking q) = (refl, refl)
begin_close-counts pc (returning q) = (refl, refl)
begin_close-counts pc shutting_down = (refl, refl)
begin_close-counts pc (finished o) = (refl, refl)

pub le-sum :
    (f : Task → ℕ) (i : ℕ) (t : Task) (ts : List Task) → get_elem? ts i ≡ some t → f t ≤ sum_of f ts
unfolding sum_of or_of
le-sum f i t [] h = ground arith
le-sum f zero t (u ∷ us) h = omega (arith, ap (or_of f u) h)
le-sum f (suc i) t (u ∷ us) h = omega (arith, le-sum f i t us h)

-- The other threads use no more than they hold.
pub others-le :
    (pc i : ℕ) (t : Task) (ts : List Task)
    → get_elem? ts i ≡ some t
    → sum_of (uses pc) ts + holds pc t ≤ sum_of (holds pc) ts + uses pc t
unfolding sum_of or_of
others-le pc i t [] h = ground arith
others-le pc zero t (u ∷ us) h =
    omega (arith, ap (or_of (holds pc) u) h, ap (or_of (uses pc) u) h, uses-le-holds pc us)
others-le pc (suc i) t (u ∷ us) h = omega (arith, others-le pc i t us h, use-holds pc u)
