-- ===== src/Bg/Tests.antt =====
-- A switchover that is prepared and then rolled back.
use aws_advanced_go_wrapper.Base.{
  ℕ, ◌+◌, ◌≡◌, refl, true, false, [], ◌∷◌, none, some, ok, is_some, arith, string_comparable,
}
use aws_advanced_go_wrapper.Base.Dict.{values}
use aws_advanced_go_wrapper.Bg.Phase.{
  Phase, zero_phase, not_created, created, preparation, completed, source,
}
use aws_advanced_go_wrapper.Bg.Status.{
  baseline, Monitor, InterimStatus, Provider, update_dns_flags, start_switchover_timer,
}
use aws_advanced_go_wrapper.Bg.Status.Summary.{update_summary_status}
use aws_advanced_go_wrapper.Bg.Status.Summary.Laws.{IsClock, flagged, update_summary_status-decided}
use aws_advanced_go_wrapper.Bg.Prepare.{empty_interim, reset_context_when_completed}
use aws_advanced_go_wrapper.Bg.Prepare.Laws.{prepare_all, prepare_all_succeeds, reset_stops_target}

abbrev monitor : Monitor
monitor = record {
  interval_rate = baseline;
  collected_ip_addresses = false;
  collected_topology = false;
  use_ip_address = false;
  stop = false;
  resets = 0;
}

abbrev fresh : Provider
fresh = record {
  switchover_duration = 100;
  post_status_end_time = none;
  latest_status_phase = not_created;
  summary_phase = zero_phase;
  rollback = false;
  blue_dns_update_completed = false;
  green_dns_removed = false;
  green_topology_changed = false;
  source_monitor = some monitor;
  target_monitor = some monitor;
  phase_times = record { cache = []; has_disposal = false };
  source_interim = empty_interim;
  target_interim = empty_interim;
  source_hash = 0;
  target_hash = 0;
  last_context_hash = 0;
  all_green_hosts_changed_name = false;
}

abbrev at_phase : Phase → InterimStatus
at_phase p = record empty_interim { version = "1.0"; port = 5432; phase = p }

-- A second between two readings of the clock.
abbrev clock_from : ℕ → ℕ → ℕ
clock_from start i = start + i

clock_from-IsClock : (start : ℕ) → IsClock (clock_from start)
clock_from-IsClock start i = omega arith

update_summary_status-decided_example :
    let b = record fresh { latest_status_phase = preparation; post_status_end_time = some 5 } in
    update_summary_status 3 (clock_from 10) source (at_phase preparation) b
    ≡ some (
        ok (record (flagged preparation (clock_from 10) source (at_phase preparation) b) {
          summary_phase = completed;
        }))
unfolding update_dns_flags start_switchover_timer
update_summary_status-decided_example =
    update_summary_status-decided 0 (clock_from 10) source (at_phase preparation)
      (record fresh { latest_status_phase = preparation; post_status_end_time = some 5 })
      (clock_from-IsClock 10) refl

prepare_all_succeeds_example :
    is_some (
      prepare_all 3
        (record {
          role = source;
          interim = at_phase preparation;
          status_hash = 7;
          context_hash = 1;
          clock = clock_from 10;
        }
          ∷ [])
        fresh)
    ≡ true
prepare_all_succeeds_example =
    prepare_all_succeeds 0
      (record {
        role = source;
        interim = at_phase preparation;
        status_hash = 7;
        context_hash = 1;
        clock = clock_from 10;
      }
        ∷ [])
      fresh (clock_from-IsClock 10, _) refl

-- PREPARATION was recorded, a rollback noted, and the summary is back at CREATED.
abbrev rolled_back : Provider
rolled_back = record fresh {
  summary_phase = created;
  rollback = true;
  blue_dns_update_completed = true;
  phase_times = record { cache = ("PREPARATION", preparation) ∷ []; has_disposal = false };
}

reset_stops_target_example :
    let b' = reset_context_when_completed rolled_back in
    (b'.target_monitor ≡ some (record monitor { stop = true }))
    × (b'.rollback ≡ false)
    × (b'.blue_dns_update_completed ≡ true)
    × (b'.green_dns_removed ≡ false)
unfolding values
reset_stops_target_example = reset_stops_target rolled_back monitor refl refl refl
