-- ===== src/Bg/Phase.antt =====
-- awssql/driver_infrastructure/bg_helpers.go: the phases and the roles of a blue/green deployment.
use aws_advanced_go_wrapper.Base.{ℕ, Bool, true, false, String}

-- The values that `ParsePhase` can give; `zero_phase` is the empty `BlueGreenPhase`.
pub data Phase : Type 0 where
  zero_phase not_created created preparation in_progress post completed : Phase

abbrev pub get_name : Phase → String
get_name zero_phase = ""
get_name not_created = "NOT_CREATED"
get_name created = "CREATED"
get_name preparation = "PREPARATION"
get_name in_progress = "IN_PROGRESS"
get_name post = "POST"
get_name completed = "COMPLETED"

abbrev pub get_phase : Phase → ℕ
get_phase zero_phase = 0
get_phase not_created = 0
get_phase created = 1
get_phase preparation = 2
get_phase in_progress = 3
get_phase post = 4
get_phase completed = 5

abbrev pub is_active_switchover_or_completed : Phase → Bool
is_active_switchover_or_completed zero_phase = false
is_active_switchover_or_completed not_created = false
is_active_switchover_or_completed created = false
is_active_switchover_or_completed _ = true

abbrev pub is_zero : Phase → Bool
is_zero zero_phase = true
is_zero _ = false

abbrev pub is_created : Phase → Bool
is_created created = true
is_created _ = false

abbrev pub is_completed : Phase → Bool
is_completed completed = true
is_completed _ = false

pub data Role : Type 0 where
  source target : Role
