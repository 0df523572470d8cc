-- ===== src/Efm/Tests.antt =====
-- A host that fails two checks, and the connections that were in use.
use aws_advanced_go_wrapper.Base.{
  ℕ, ◌≡◌, refl, true, false, List, [], ◌∷◌, In, inl, inr, none, some, arith,
}
use aws_advanced_go_wrapper.Util.RwQueue.{RwQueue, new}
use aws_advanced_go_wrapper.Efm.Health.{Config}
use aws_advanced_go_wrapper.Efm.Health.Outage.{Check, run, is_dead, unhealthy-run}
use aws_advanced_go_wrapper.Efm.Round.{Store, round, write}
use aws_advanced_go_wrapper.Efm.Round.Laws.{never, round_healthy, round_aborts, round_unhealthy}

abbrev config : Config
config = record { failure_detection_interval = 5; failure_detection_count = 3 }

-- Newest first: a success, and failures from 10 to 22.
abbrev history : List Check
history =
    record { valid = false; start = 20; end = 22 }
    ∷ record { valid = false; start = 10; end = 15 }
    ∷ record { valid = true; start = 3; end = 4 }
    ∷ []

unhealthy-run_example : (run config history).host_unhealthy ≡ is_dead config history
unhealthy-run_example = unhealthy-run config history (omega arith, (omega arith, _))

is_dead_test : is_dead config history ≡ true
is_dead_test = refl

abbrev two_states : Store
two_states =
    write 1 (record { host_unhealthy = false; conn = some 11 })
      (write 2 (record { host_unhealthy = false; conn = some 12 }) (λ r. none))

abbrev queue : RwQueue ℕ
queue = record { items = 1 ∷ 5 ∷ [] }

round_healthy_example : round never false (2 ∷ []) (3 ∷ []) queue two_states ≡ record {
  active = record { items = 1 ∷ 2 ∷ [] };
  aborted = [];
  store = two_states;
  dropped = 3 ∷ [];
}
round_healthy_example = round_healthy (2 ∷ []) (3 ∷ []) queue two_states

round_aborts_example : In 12 (round never true (2 ∷ []) [] queue two_states).aborted
round_aborts_example = round_aborts (2 ∷ []) [] queue two_states 2 12 (inr (inr (inl refl))) refl

round_unhealthy_example :
    ((round never true (2 ∷ []) [] queue two_states).store 1
      ≡ some (record { host_unhealthy = true; conn = none }))
    × ((round never true (2 ∷ []) [] queue two_states).active ≡ new)
round_unhealthy_example = round_unhealthy (2 ∷ []) [] queue two_states 1
