-- ===== src/Bg/Status/Summary.antt =====
-- awssql/plugins/bg/bg_status_provider.go: the phase of the summary status. The status of COMPLETED
-- and the status of POST call each other, each with a reading of the clock: `clock i` is the i-th.
-- `none` is out of fuel.
pub mod Laws
use aws_advanced_go_wrapper.Base.{
  ℕ, zero, suc, Bool, true, false, not, ◌||◌, Option, none, some, String, Result, ok, err,
  if◌then◌else◌,
}
use aws_advanced_go_wrapper.Bg.Phase.{
  Phase, zero_phase, not_created, created, preparation, in_progress, post, completed, Role,
}
use aws_advanced_go_wrapper.Bg.Status.{
  Provider, InterimStatus, update_dns_flags, start_switchover_timer, is_switchover_timer_expired,
}

abbrev mutual
  pub get_status_of_completed : ℕ → (ℕ → ℕ) → ℕ → Provider → Option Phase
  get_status_of_completed zero clock i b = none
  get_status_of_completed (suc fuel) clock i b =
      let again = get_status_of_post fuel clock (suc i) b in
      if is_switchover_timer_expired (clock i) b
      then (if b.rollback then some created else some completed)
      else if not b.blue_dns_update_completed || not b.green_dns_removed
      then again
      else some completed

  pub get_status_of_post : ℕ → (ℕ → ℕ) → ℕ → Provider → Option Phase
  get_status_of_post zero clock i b = none
  get_status_of_post (suc fuel) clock i b =
      let again = get_status_of_completed fuel clock (suc i) b in
      if is_switchover_timer_expired (clock i) b
      then (if b.rollback then some created else again)
      else some post

-- The statuses of PREPARATION and of IN_PROGRESS, which differ in their routings only.
abbrev get_status_before_post : Phase → ℕ → (ℕ → ℕ) → ℕ → Provider → Option Phase
get_status_before_post phase fuel clock i b =
    if is_switchover_timer_expired (clock i) b
    then (if b.rollback then some created else get_status_of_completed fuel clock (suc i) b)
    else some phase

unfoldable pub get_status_of_preparation : ℕ → (ℕ → ℕ) → ℕ → Provider → Option Phase
get_status_of_preparation fuel clock i b = get_status_before_post preparation fuel clock i b

unfoldable pub get_status_of_in_progress : ℕ → (ℕ → ℕ) → ℕ → Provider → Option Phase
get_status_of_in_progress fuel clock i b = get_status_before_post in_progress fuel clock i b

abbrev with_summary : Provider → Option Phase → Option (Result Provider)
with_summary b none = none
with_summary b (some phase) = some (ok (record b { summary_phase = phase }))

-- The flags come first: the status is made in the state that they leave.
unfoldable pub summarize :
    Phase → ℕ → (ℕ → ℕ) → Role → InterimStatus → Provider → Option (Result Provider)
unfolding get_status_of_preparation get_status_of_in_progress
summarize zero_phase fuel clock role interim b = some (err "BlueGreenDeployment.unknownPhase")
summarize not_created fuel clock role interim b = with_summary b (some not_created)
summarize created fuel clock role interim b =
    with_summary (update_dns_flags role interim b) (some created)
summarize preparation fuel clock role interim b =
    let b' = update_dns_flags role interim (start_switchover_timer (clock 0) b) in
    with_summary b' (get_status_of_preparation fuel clock 1 b')
summarize in_progress fuel clock role interim b =
    let b' = update_dns_flags role interim b in
    with_summary b' (get_status_of_in_progress fuel clock 1 b')
summarize post fuel clock role interim b =
    let b' = update_dns_flags role interim b in with_summary b' (get_status_of_post fuel clock 1 b')
summarize completed fuel clock role interim b =
    let b' = update_dns_flags role interim b in
    with_summary b' (get_status_of_completed fuel clock 1 b')

unfoldable pub update_summary_status :
    ℕ → (ℕ → ℕ) → Role → InterimStatus → Provider → Option (Result Provider)
unfolding summarize
update_summary_status fuel clock role interim b =
    summarize b.latest_status_phase fuel clock role interim b
