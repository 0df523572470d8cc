-- ===== src/Bg/Prepare.antt =====
-- awssql/plugins/bg/bg_status_provider.go: what PrepareStatus does with the status that a monitor
-- reports. It holds its lock throughout, so it is one step.
pub mod Laws
use aws_advanced_go_wrapper.Base.{
  ℕ, suc, ◌+◌, Bool, true, false, not, ◌&&◌, ◌||◌, List, [], ◌∷◌, Option, none, some, String, Error,
  Result, ok, err, nat_beq, string_comparable, if◌then◌else◌,
}
use aws_advanced_go_wrapper.Base.Dict.{values}
use aws_advanced_go_wrapper.Util.RwMap.{clear}
use aws_advanced_go_wrapper.Bg.Phase.{
  Phase, zero_phase, not_created, created, preparation, in_progress, post, completed, is_zero,
  is_created, is_completed, is_active_switchover_or_completed, Role, source, target,
}
use aws_advanced_go_wrapper.Bg.Status.{
  IntervalRate, baseline, increased, high, Monitor, InterimStatus, Provider, update_phase,
  store_phase_time,
}
use aws_advanced_go_wrapper.Bg.Status.Summary.{update_summary_status}

abbrev configure : IntervalRate → Bool → Bool → Monitor → Monitor
configure rate collected use_ip m = record m {
  interval_rate = rate;
  collected_ip_addresses = collected;
  collected_topology = collected;
  use_ip_address = use_ip;
}

abbrev reset_collected_data : Monitor → Monitor
reset_collected_data m = record m { resets = m.resets + 1 }

abbrev pub stopped : Monitor → Monitor
stopped m = record m { stop = true }

abbrev pub on_monitor : (Monitor → Monitor) → Option Monitor → Option Monitor
on_monitor f none = none
on_monitor f (some m) = some (f m)

abbrev each_monitor : (Monitor → Monitor) → Provider → Provider
each_monitor f b = record b {
  source_monitor = on_monitor f b.source_monitor;
  target_monitor = on_monitor f b.target_monitor;
}

abbrev stop_source : Provider → Provider
stop_source b = record b { source_monitor = on_monitor stopped b.source_monitor }

-- A Go case does not fall through, so PREPARATION and IN_PROGRESS do nothing.
unfoldable pub monitors_for : Phase → Provider → Result Provider
monitors_for zero_phase b = err "BlueGreenDeployment.unknownPhase"
monitors_for not_created b = ok (each_monitor (configure baseline false false) b)
monitors_for created b = ok (
    each_monitor
      (λ m.
        let m' = configure increased true false m in
        if b.rollback then reset_collected_data m' else m')
      b)
monitors_for preparation b = ok b
monitors_for in_progress b = ok b
monitors_for post b = ok (each_monitor (configure high false true) b)
monitors_for completed b =
    let b' = each_monitor (λ m. reset_collected_data (configure baseline false false m)) b in
    ok (if not b.rollback then stop_source b' else b')

unfoldable pub update_monitors : Provider → Result Provider
unfolding monitors_for
update_monitors b = monitors_for b.summary_phase b

abbrev pub is_switchover_completed : Provider → Bool
is_switchover_completed b =
    (not b.rollback && is_completed b.summary_phase) || (b.rollback && is_created b.summary_phase)

abbrev any_active : List Phase → Bool
any_active [] = false
any_active (p ∷ ps) = (not (is_zero p) && is_active_switchover_or_completed p) || any_active ps

abbrev pub has_active_switchover_phase : Provider → Bool
has_active_switchover_phase b = any_active (values b.phase_times.cache)

abbrev pub empty_interim : InterimStatus
empty_interim = record {
  version = "";
  port = 0;
  phase = zero_phase;
  all_start_topology_ip_changed = false;
  all_start_topology_endpoints_removed = false;
  all_topology_changed = false;
}

unfoldable pub reset_context : Provider → Provider
unfolding clear
reset_context b = record b {
  rollback = false;
  green_dns_removed = false;
  green_topology_changed = false;
  all_green_hosts_changed_name = false;
  post_status_end_time = none;
  last_context_hash = 0;
  source_hash = 0;
  target_hash = 0;
  source_interim = empty_interim;
  target_interim = empty_interim;
  latest_status_phase = not_created;
  summary_phase = zero_phase;
  phase_times = (clear b.phase_times).0;
}

-- `rollback` is read after it was cleared.
unfoldable pub stop_target : Provider → Provider
stop_target b =
    if not b.rollback then record b { target_monitor = on_monitor stopped b.target_monitor } else b

unfoldable pub reset_context_when_completed : Provider → Provider
unfolding reset_context stop_target
reset_context_when_completed b =
    if is_switchover_completed b && has_active_switchover_phase b
    then stop_target (reset_context b)
    else b

pub hash_of : Role → Provider → ℕ
hash_of source b = b.source_hash
hash_of target b = b.target_hash

-- Stores the interim status and the hashes.
unfoldable pub store_interim : Role → InterimStatus → ℕ → ℕ → Provider → Provider
store_interim source i status_hash context_hash b = record b {
  source_interim = i;
  source_hash = status_hash;
  last_context_hash = context_hash;
}
store_interim target i status_hash context_hash b = record b {
  target_interim = i;
  target_hash = status_hash;
  last_context_hash = context_hash;
}

-- What follows once the monitors are set, and what an error, which is only logged, leaves.
unfoldable pub after_monitors : Provider → Result Provider → Option Error × Provider
unfolding store_phase_time reset_context_when_completed
after_monitors before (err e) = (some e, before)
after_monitors before (ok b) =
    (none, reset_context_when_completed (store_phase_time b.summary_phase b))

unfoldable pub after_summary :
    Provider → Option (Result Provider) → Option (Option Error × Provider)
unfolding update_monitors after_monitors
after_summary before none = none
after_summary before (some (err e)) = some (some e, before)
after_summary before (some (ok b)) = some (after_monitors b (update_monitors b))

-- The hashes are those of the interim status and of the context. The error is the one logged, and
-- `none` is out of fuel.
unfoldable pub prepare_status :
    ℕ → (ℕ → ℕ) → ℕ → ℕ → Role → InterimStatus → Provider → Option (Option Error × Provider)
unfolding update_phase store_interim update_summary_status after_summary hash_of
prepare_status fuel clock status_hash context_hash role interim b =
    let b' = store_interim role interim status_hash context_hash (update_phase role interim b) in
    if nat_beq (hash_of role b) status_hash && nat_beq b.last_context_hash context_hash
    then some (none, b)
    else after_summary b' (update_summary_status fuel clock role interim b')
