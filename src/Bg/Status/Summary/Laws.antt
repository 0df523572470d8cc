-- ===== src/Bg/Status/Summary/Laws.antt =====
-- When bg_status_provider.go calls a deployment completed, and that it always comes to a status.
use aws_advanced_go_wrapper.Base.{
  ℕ, suc, ◌≤◌, ◌≡◌, inl, inr, refl, Bool, true, false, ◌&&◌, some, ok, arith, if◌then◌else◌,
  Option-cases, Bool-cases,
}
use aws_advanced_go_wrapper.Bg.Phase.{
  Phase, zero_phase, not_created, created, preparation, in_progress, post, completed, is_zero, Role,
}
use aws_advanced_go_wrapper.Bg.Status.{
  Provider, InterimStatus, update_dns_flags, start_switchover_timer, is_switchover_timer_expired,
}
use aws_advanced_go_wrapper.Bg.Status.Summary.{
  get_status_of_completed, get_status_of_post, get_status_of_preparation, get_status_of_in_progress,
  summarize, update_summary_status,
}

-- A clock does not go back.
abbrev pub IsClock : (ℕ → ℕ) → Type 0
IsClock clock = (i : ℕ) → clock i ≤ clock (suc i)

expired-later :
    (clock : ℕ → ℕ) (i : ℕ) (b : Provider)
    → IsClock clock
    → is_switchover_timer_expired (clock i) b ≡ true
    → is_switchover_timer_expired (clock (suc i)) b ≡ true
expired-later clock i b m h = elim (Option-cases b.post_status_end_time) [
  | inl e ↦ ground arith
  | inr (end, e) ↦ ground (arith, m i)
]

-- What a switchover whose time is over ends as.
abbrev pub ended : Provider → Phase
ended b = if b.rollback then created else completed

expired_status :
    (fuel : ℕ) (clock : ℕ → ℕ) (i : ℕ) (b : Provider)
    → is_switchover_timer_expired (clock i) b ≡ true
    → get_status_of_completed (suc fuel) clock i b
      ≡ some (if b.rollback then created else completed)
expired_status fuel clock i b h = ground arith

post_status :
    (fuel : ℕ) (clock : ℕ → ℕ) (i : ℕ) (b : Provider)
    → IsClock clock
    → get_status_of_post (suc (suc fuel)) clock i b
      ≡ some (if is_switchover_timer_expired (clock i) b then ended b else post)
post_status fuel clock i b m = elim (Bool-cases (is_switchover_timer_expired (clock i) b)) [
  | inl h ↦ ground (arith, expired_status fuel clock (suc i) b (expired-later clock i b m h))
  | inr h ↦ ground arith
]

abbrev pub has_dns_updated : Provider → Bool
has_dns_updated b = b.blue_dns_update_completed && b.green_dns_removed

-- The phase of the summary for the latest phase: a phase of a switchover stands until the time is
-- over, and COMPLETED counts as POST until the DNS is updated.
abbrev pub decided : (ℕ → ℕ) → Phase → Provider → Phase
decided clock zero_phase b = zero_phase
decided clock not_created b = not_created
decided clock created b = created
decided clock preparation b =
    if is_switchover_timer_expired (clock 1) b then ended b else preparation
decided clock in_progress b =
    if is_switchover_timer_expired (clock 1) b then ended b else in_progress
decided clock post b = if is_switchover_timer_expired (clock 1) b then ended b else post
decided clock completed b =
    if is_switchover_timer_expired (clock 1) b
    then ended b
    else if has_dns_updated b
    then completed
    else if is_switchover_timer_expired (clock 2) b
    then ended b
    else post

-- The state that the status is made in.
abbrev pub flagged : Phase → (ℕ → ℕ) → Role → InterimStatus → Provider → Provider
flagged zero_phase clock role interim b = b
flagged not_created clock role interim b = b
flagged preparation clock role interim b =
    update_dns_flags role interim (start_switchover_timer (clock 0) b)
flagged _ clock role interim b = update_dns_flags role interim b

completed_status :
    (fuel : ℕ) (clock : ℕ → ℕ) (b : Provider)
    → IsClock clock
    → get_status_of_completed (suc (suc (suc fuel))) clock 1 b ≡ some (decided clock completed b)
completed_status fuel clock b m = ground (arith, post_status fuel clock 2 b m)

preparation_status :
    (fuel : ℕ) (clock : ℕ → ℕ) (b : Provider)
    → IsClock clock
    → get_status_of_preparation (suc fuel) clock 1 b ≡ some (decided clock preparation b)
unfolding get_status_of_preparation
preparation_status fuel clock b m = elim (Bool-cases (is_switchover_timer_expired (clock 1) b)) [
  | inl h ↦ ground (arith, expired_status fuel clock 2 b (expired-later clock 1 b m h))
  | inr h ↦ ground arith
]

in_progress_status :
    (fuel : ℕ) (clock : ℕ → ℕ) (b : Provider)
    → IsClock clock
    → get_status_of_in_progress (suc fuel) clock 1 b ≡ some (decided clock in_progress b)
unfolding get_status_of_in_progress
in_progress_status fuel clock b m = elim (Bool-cases (is_switchover_timer_expired (clock 1) b)) [
  | inl h ↦ ground (arith, expired_status fuel clock 2 b (expired-later clock 1 b m h))
  | inr h ↦ ground arith
]

summarize_lem :
    (phase : Phase) (fuel : ℕ) (clock : ℕ → ℕ) (role : Role) (interim : InterimStatus)
    (b : Provider)
    → IsClock clock
    → is_zero phase ≡ false
    → summarize phase (suc (suc (suc fuel))) clock role interim b
      ≡ some (
          ok (record (flagged phase clock role interim b) {
            summary_phase = decided clock phase (flagged phase clock role interim b);
          }))
unfolding summarize
summarize_lem zero_phase fuel clock role interim b m h = ground arith
summarize_lem not_created fuel clock role interim b m h = refl
summarize_lem created fuel clock role interim b m h = refl
summarize_lem preparation fuel clock role interim b m h =
    rw (preparation_status (suc (suc fuel)) clock (flagged preparation clock role interim b) m)
summarize_lem in_progress fuel clock role interim b m h =
    rw (in_progress_status (suc (suc fuel)) clock (flagged in_progress clock role interim b) m)
summarize_lem post fuel clock role interim b m h =
    rw (post_status (suc fuel) clock 1 (flagged post clock role interim b) m)
summarize_lem completed fuel clock role interim b m h =
    rw (completed_status fuel clock (flagged completed clock role interim b) m)

-- Where the clock does not go back and a phase is known, three nested calls are enough for the
-- status: UpdateSummaryStatus succeeds, sets the DNS flags (and in PREPARATION the timer), and the
-- new phase is the latest phase, with two exceptions: a switchover whose timer has expired counts as
-- COMPLETED, or as CREATED after a rollback, and COMPLETED counts as POST until both DNS flags are
-- set.
pub update_summary_status-decided :
    (fuel : ℕ) (clock : ℕ → ℕ) (role : Role) (interim : InterimStatus) (b : Provider)
    → IsClock clock
    → is_zero b.latest_status_phase ≡ false
    → update_summary_status (suc (suc (suc fuel))) clock role interim b
      ≡ some (
          ok (record (flagged b.latest_status_phase clock role interim b) {
            summary_phase =
                decided clock b.latest_status_phase
                  (flagged b.latest_status_phase clock role interim b);
          }))
unfolding update_summary_status
update_summary_status-decided fuel clock role interim b m known =
    summarize_lem b.latest_status_phase fuel clock role interim b m known
