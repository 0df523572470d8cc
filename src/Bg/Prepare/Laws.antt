-- ===== src/Bg/Prepare/Laws.antt =====
-- PrepareStatus of bg_status_provider.go over whole histories of reports.
use aws_advanced_go_wrapper.Base.{
  ℕ, suc, ◌≡◌, refl, ap, ◌∙◌, Bool, true, false, ◌&&◌, ◌||◌, List, [], ◌∷◌, Option, none, some,
  Error, Result, ok, string_comparable, is_some, arith, Bool-cases, Option-cases, inl, inr,
  if-cases, if_true, All,
}
use aws_advanced_go_wrapper.Bg.Phase.{
  Phase, zero_phase, not_created, created, preparation, in_progress, post, completed, is_zero, Role,
  source, target,
}
use aws_advanced_go_wrapper.Bg.Status.{
  InterimStatus, interim_is_zero, Provider, Monitor, update_phase, move_phase, note_rollback,
  update_dns_flags, start_switchover_timer, store_phase_time,
}
use aws_advanced_go_wrapper.Bg.Status.Summary.Laws.{
  IsClock, decided, flagged, update_summary_status-decided,
}
use aws_advanced_go_wrapper.Bg.Prepare.{
  update_monitors, monitors_for, store_interim, prepare_status, reset_context_when_completed,
  reset_context, stop_target, on_monitor, stopped, is_switchover_completed,
  has_active_switchover_phase, after_monitors, after_summary,
}

-- A report of a monitor, with the hashes and the readings of the clock while it is processed.
pub record Report : Type 0 where
  pub role : Role
  pub interim : InterimStatus
  pub status_hash : ℕ
  pub context_hash : ℕ
  pub clock : ℕ → ℕ

-- Stops at the first error.
abbrev continue : (Provider → Option Provider) → Option (Option Error × Provider) → Option Provider
continue next none = none
continue next (some (some e, b)) = none
continue next (some (none, b)) = next b

pub prepare_all : ℕ → List Report → Provider → Option Provider
prepare_all fuel [] b = some b
prepare_all fuel (r ∷ rs) b =
    continue (λ b'. prepare_all fuel rs b')
      (prepare_status fuel r.clock r.status_hash r.context_hash r.role r.interim b)

decided-known :
    (clock : ℕ → ℕ) (p : Phase) (b : Provider)
    → is_zero p ≡ false
    → is_zero (decided clock p b) ≡ false
decided-known clock zero_phase b h = h
decided-known clock not_created b h = refl
decided-known clock created b h = refl
decided-known clock preparation b h = ground arith
decided-known clock in_progress b h = ground arith
decided-known clock post b h = ground arith
decided-known clock completed b h = ground arith

abbrev pub IsKnown : Provider → Type 0
IsKnown b = is_zero b.latest_status_phase ≡ false

move_phase-IsKnown :
    (p : Phase) (b : Provider) → is_zero p ≡ false → IsKnown b → IsKnown (move_phase p b)
unfolding move_phase
move_phase-IsKnown p b h k = ground arith

note_rollback-IsKnown : (l p : Phase) (b : Provider) → IsKnown b → IsKnown (note_rollback l p b)
unfolding note_rollback
note_rollback-IsKnown l p b k = ground arith

or_true : (a b : Bool) → b ≡ true → (a || b) ≡ true
or_true a b h = ground arith

update_phase-IsKnown :
    (role : Role) (i : InterimStatus) (b : Provider) → IsKnown b → IsKnown (update_phase role i b)
unfolding update_phase
update_phase-IsKnown role i b k = elim (Bool-cases (is_zero i.phase)) [
  | inl e ↦
      ap (λ (x : Provider). is_zero x.latest_status_phase)
        (if_true (interim_is_zero i || is_zero i.phase) b _
          (or_true (interim_is_zero i) (is_zero i.phase) e))
      ∙ k
  | inr e ↦
      if-cases (λ (x : Provider). is_zero x.latest_status_phase ≡ false)
        (interim_is_zero i || is_zero i.phase) k
        (move_phase-IsKnown i.phase _ e (note_rollback-IsKnown _ i.phase b k))
]

store_interim-IsKnown :
    (role : Role) (i : InterimStatus) (h c : ℕ) (b : Provider)
    → IsKnown b
    → IsKnown (store_interim role i h c b)
unfolding store_interim
store_interim-IsKnown source i h c b k = k
store_interim-IsKnown target i h c b k = k

update_dns_flags-IsKnown :
    (role : Role) (i : InterimStatus) (b : Provider)
    → IsKnown b
    → IsKnown (update_dns_flags role i b)
unfolding update_dns_flags
update_dns_flags-IsKnown source i b k = ground arith
update_dns_flags-IsKnown target i b k = ground arith

timer-IsKnown : (now : ℕ) (b : Provider) → IsKnown b → IsKnown (start_switchover_timer now b)
unfolding start_switchover_timer
timer-IsKnown now b k = elim (Option-cases b.post_status_end_time) [
  | inl e ↦ ground arith
  | inr (end, e) ↦ ground arith
]

flagged-IsKnown :
    (p : Phase) (clock : ℕ → ℕ) (role : Role) (i : InterimStatus) (b : Provider)
    → IsKnown b
    → IsKnown (flagged p clock role i b)
flagged-IsKnown zero_phase clock role i b k = k
flagged-IsKnown not_created clock role i b k = k
flagged-IsKnown created clock role i b k = update_dns_flags-IsKnown role i b k
flagged-IsKnown preparation clock role i b k =
    update_dns_flags-IsKnown role i (start_switchover_timer (clock 0) b)
      (timer-IsKnown (clock 0) b k)
flagged-IsKnown in_progress clock role i b k = update_dns_flags-IsKnown role i b k
flagged-IsKnown post clock role i b k = update_dns_flags-IsKnown role i b k
flagged-IsKnown completed clock role i b k = update_dns_flags-IsKnown role i b k

reset-IsKnown : (b : Provider) → IsKnown b → IsKnown (reset_context_when_completed b)
unfolding reset_context_when_completed
reset-IsKnown b k = ground arith

store_phase_time-IsKnown : (p : Phase) (b : Provider) → IsKnown b → IsKnown (store_phase_time p b)
unfolding store_phase_time
store_phase_time-IsKnown p b k = ground arith

monitors_for-known :
    (p : Phase) (b : Provider)
    → is_zero p ≡ false
    → (b' : Provider) × (monitors_for p b ≡ ok b')
      × (b'.latest_status_phase ≡ b.latest_status_phase)
unfolding monitors_for
monitors_for-known zero_phase b h = ground arith
monitors_for-known not_created b h = (_, refl, refl)
monitors_for-known created b h = (_, refl, refl)
monitors_for-known preparation b h = (_, refl, refl)
monitors_for-known in_progress b h = (_, refl, refl)
monitors_for-known post b h = (_, refl, refl)
monitors_for-known completed b h = (_, refl, ground arith)

-- That a step went through without an error.
Succeeds : Option (Option Error × Provider) → Type 0
Succeeds r = (b' : Provider) × (r ≡ some (none, b')) × IsKnown b'

after_monitors-Succeeds :
    (p : Phase) (before b : Provider)
    → is_zero p ≡ false
    → IsKnown b
    → Succeeds (some (after_monitors before (monitors_for p b)))
unfolding after_monitors Succeeds
after_monitors-Succeeds p before b h k =
    let m = monitors_for-known p b h in
    (
      _,
      ap (λ r. some (after_monitors before r)) m.1,
      reset-IsKnown (store_phase_time m.0.summary_phase m.0)
          (store_phase_time-IsKnown m.0.summary_phase m.0 (ap is_zero m.2 ∙ k)),
    )

after_summary-Succeeds :
    (before : Provider) (r : Option (Result Provider)) (b : Provider)
    → r ≡ some (ok b)
    → is_zero b.summary_phase ≡ false
    → IsKnown b
    → Succeeds (after_summary before r)
unfolding after_summary update_monitors
after_summary-Succeeds before r b e h k = rw e (after_monitors-Succeeds b.summary_phase b b h k)

prepare_status-Succeeds :
    (fuel : ℕ) (r : Report) (b : Provider)
    → IsClock r.clock
    → IsKnown b
    → Succeeds (
        prepare_status
          (suc (suc (suc fuel)))
          r.clock
          r.status_hash
          r.context_hash
          r.role
          r.interim
          b)
unfolding prepare_status Succeeds
prepare_status-Succeeds fuel r b m k =
    let b' =
      store_interim r.role r.interim r.status_hash r.context_hash
        (update_phase r.role r.interim b) in
    let k' =
      store_interim-IsKnown r.role r.interim r.status_hash r.context_hash _
        (update_phase-IsKnown r.role r.interim b k) in
    if-cases Succeeds _ (b, refl, k)
      (after_summary-Succeeds b' _ _
        (update_summary_status-decided fuel r.clock r.role r.interim b' m k')
        (decided-known r.clock b'.latest_status_phase _ k')
        (flagged-IsKnown b'.latest_status_phase r.clock r.role r.interim b' k'))

-- From a state whose latest phase is known, whatever the monitors report and in whatever order,
-- every call of PrepareStatus comes to its end without an error: the default cases of
-- UpdateSummaryStatus and UpdateMonitors are never reached, and three nested calls of
-- GetStatusOfCompleted and GetStatusOfPost are enough. The clock does not go back during a call.
pub prepare_all_succeeds :
    (fuel : ℕ) (rs : List Report) (b : Provider)
    → All (λ r. IsClock r.clock) rs
    → IsKnown b
    → is_some (prepare_all (suc (suc (suc fuel))) rs b) ≡ true
unfolding prepare_all Succeeds
prepare_all_succeeds fuel [] b m k = refl
prepare_all_succeeds fuel (r ∷ rs) b m k =
    let s = prepare_status-Succeeds fuel r b m.0 k in
    ap (λ o. is_some (continue (λ b'. prepare_all (suc (suc (suc fuel))) rs b') o)) s.1
    ∙ prepare_all_succeeds fuel rs s.0 m.1 s.2

both_true : (a b : Bool) → a ≡ true → b ≡ true → (a && b) ≡ true
both_true a b h k = ground arith

-- Once a switchover is over, by completion or by a rollback, and an active phase was recorded, the
-- reset stops the target's monitor in both cases, because it clears the rollback flag before it
-- reads it; and of the DNS flags it leaves the one of the blue hosts as it was.
pub reset_stops_target :
    (b : Provider) (m : Monitor)
    → is_switchover_completed b ≡ true
    → has_active_switchover_phase b ≡ true
    → b.target_monitor ≡ some m
    → let b' = reset_context_when_completed b in
      (b'.target_monitor ≡ some (record m { stop = true }))
      × (b'.rollback ≡ false)
      × (b'.blue_dns_update_completed ≡ b.blue_dns_update_completed)
      × (b'.green_dns_removed ≡ false)
unfolding reset_context_when_completed reset_context stop_target
reset_stops_target b m h a t =
    let e : reset_context_when_completed b ≡ stop_target (reset_context b) =
      if_true (is_switchover_completed b && has_active_switchover_phase b) _ b
        (both_true _ _ h a) in
    (
      ap (λ (x : Provider). x.target_monitor) e ∙ ap (on_monitor stopped) t,
      ap (λ (x : Provider). x.rollback) e,
      ap (λ (x : Provider). x.blue_dns_update_completed) e,
      ap (λ (x : Provider). x.green_dns_removed) e,
    )
