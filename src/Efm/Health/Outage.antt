-- ===== src/Efm/Health/Outage.antt =====
-- When host_monitor.go holds a host for dead, over whole histories of checks.
use aws_advanced_go_wrapper.Base.{
  ℕ, ◌+◌, ◌≤◌, ◌≡◌, refl, Bool, false, List, [], ◌∷◌, Option, none, some, arith, leb, if◌then◌else◌,
}
use aws_advanced_go_wrapper.Efm.Health.{
  Config, Health, healthy, max_invalid_duration, update_host_health_status,
}

pub record Check : Type 0 where
  pub valid : Bool
  pub start : ℕ
  pub end : ℕ

-- The health after a history of checks, newest first.
pub run : Config → List Check → Health
run c [] = healthy
run c (k ∷ older) = update_host_health_status c k.valid k.start k.end (run c older)

-- The checks of the outage that lasts: the failed ones since the last that succeeded.
abbrev pub outage : List Check → List Check
outage [] = []
outage (k ∷ older) = if k.valid then [] else k ∷ outage older

-- When the oldest check of a list started.
abbrev pub first_start : List Check → Option ℕ
first_start [] = none
first_start (k ∷ older) = elim (first_start older) [ none ↦ some k.start | some s ↦ some s ]

-- The outage is as old as the setting says, measured to the end of its last check.
abbrev is_over : Config → Option ℕ → ℕ → Bool
is_over c none end = false
is_over c (some s) end = leb (s + max_invalid_duration c) end

abbrev pub is_dead : Config → List Check → Bool
is_dead c [] = false
is_dead c (k ∷ older) = is_over c (first_start (outage (k ∷ older))) k.end

-- The checks follow one another.
abbrev pub InOrder : List Check → Type 0
InOrder [] = Unit
InOrder (k ∷ []) = Unit
InOrder (k ∷ j ∷ older) = (j.end ≤ k.end) × InOrder (j ∷ older)

start-run :
    (c : Config) (ks : List Check) → (run c ks).invalid_host_start_time ≡ first_start (outage ks)
unfolding run update_host_health_status
start-run c [] = refl
start-run c (k ∷ older) = ground (arith, start-run c older)

-- After any history of checks that follow one another, the host is held for unhealthy exactly if
-- the newest check failed and the failed checks since the last success span, from the start of the
-- first to the end of the newest, at least the detection interval times the detection count less
-- one. A check that succeeds clears it.
pub unhealthy-run :
    (c : Config) (ks : List Check) → InOrder ks → (run c ks).host_unhealthy ≡ is_dead c ks
unfolding run update_host_health_status
unhealthy-run c [] o = refl
unhealthy-run c (k ∷ []) o = ground arith
unhealthy-run c (k ∷ j ∷ older) o =
    ground (arith, start-run c (j ∷ older), unhealthy-run c (j ∷ older) o.1)
