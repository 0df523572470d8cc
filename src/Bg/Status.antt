-- ===== src/Bg/Status.antt =====
-- awssql/plugins/bg/bg_status_provider.go: the state that decides the phase of the summary status,
-- and the functions that read and change it. The routings and the maps of hosts, addresses and roles
-- are left out; a status is its phase.
pub mod Summary
use Prim.Native.String.{◌++◌}
use aws_advanced_go_wrapper.Base.{
  ℕ, suc, ◌+◌, Bool, true, false, not, ◌&&◌, ◌||◌, Option, none, some, String, nat_beq, ltb, ◌==◌,
  string_comparable, if◌then◌else◌,
}
use aws_advanced_go_wrapper.Util.RwMap.{RwMap, put_if_absent}
use aws_advanced_go_wrapper.Bg.Phase.{
  Phase, zero_phase, not_created, created, preparation, in_progress, post, completed, get_name,
  get_phase, is_zero, Role, source, target,
}

pub data IntervalRate : Type 0 where
  baseline increased high : IntervalRate

-- What the provider sets on a monitor; `resets` counts the calls of `ResetCollectedData`.
pub record Monitor : Type 0 where
  pub interval_rate : IntervalRate
  pub collected_ip_addresses : Bool
  pub collected_topology : Bool
  pub use_ip_address : Bool
  pub stop : Bool
  pub resets : ℕ

pub record InterimStatus : Type 0 where
  pub version : String
  pub port : ℕ
  pub phase : Phase
  pub all_start_topology_ip_changed : Bool
  pub all_start_topology_endpoints_removed : Bool
  pub all_topology_changed : Bool

pub record Provider : Type 0 where
  pub switchover_duration : ℕ
  -- `none` is the zero time.
  pub post_status_end_time : Option ℕ
  pub latest_status_phase : Phase
  -- The phase of `summaryStatus`.
  pub summary_phase : Phase
  pub rollback : Bool
  pub blue_dns_update_completed : Bool
  pub green_dns_removed : Bool
  pub green_topology_changed : Bool
  pub source_monitor : Option Monitor
  pub target_monitor : Option Monitor
  -- The phases of `phaseTimeNano`, without the times, which are only printed.
  pub phase_times : RwMap String Phase
  pub source_interim : InterimStatus
  pub target_interim : InterimStatus
  pub source_hash : ℕ
  pub target_hash : ℕ
  pub last_context_hash : ℕ
  pub all_green_hosts_changed_name : Bool

abbrev pub interim_is_zero : InterimStatus → Bool
interim_is_zero i = i.version == "" && nat_beq i.port 0 && is_zero i.phase

abbrev pub interim_of : Role → Provider → InterimStatus
interim_of source b = b.source_interim
interim_of target b = b.target_interim

-- The phase last reported for the role.
unfoldable pub latest_interim_phase : InterimStatus → Phase
latest_interim_phase i = if interim_is_zero i then not_created else i.phase

unfoldable pub move_phase : Phase → Provider → Provider
move_phase phase b =
    if (if b.rollback
      then ltb (get_phase phase) (get_phase b.latest_status_phase)
      else not (ltb (get_phase phase) (get_phase b.latest_status_phase)))
    then record b { latest_status_phase = phase }
    else b

unfoldable pub note_rollback : Phase → Phase → Provider → Provider
note_rollback latest phase b =
    if not (is_zero latest) && ltb (get_phase phase) (get_phase latest)
    then record b { rollback = true }
    else b

unfoldable pub update_phase : Role → InterimStatus → Provider → Provider
unfolding latest_interim_phase move_phase note_rollback
update_phase role interim b =
    if interim_is_zero interim || is_zero interim.phase
    then b
    else move_phase interim.phase
        (note_rollback (latest_interim_phase (interim_of role b)) interim.phase b)

rollback_key : Bool → String → String
rollback_key rollback key = if rollback then key ++ " (rollback)" else key

unfoldable pub put_if_absent_phase_time : String → Phase → Provider → Provider
unfolding put_if_absent rollback_key
put_if_absent_phase_time key phase b = record b {
  phase_times = put_if_absent (rollback_key b.rollback key) phase b.phase_times;
}

unfoldable pub store_phase_time : Phase → Provider → Provider
unfolding put_if_absent_phase_time
store_phase_time phase b =
    if is_zero phase then b else put_if_absent_phase_time (get_name phase) phase b

unfoldable pub note_blue_dns : InterimStatus → Provider → Provider
unfolding put_if_absent_phase_time
note_blue_dns i b =
    if not b.blue_dns_update_completed && i.all_start_topology_ip_changed
    then put_if_absent_phase_time "Blue DNS updated" zero_phase
        (record b { blue_dns_update_completed = true })
    else b

unfoldable pub note_green_dns : InterimStatus → Provider → Provider
unfolding put_if_absent_phase_time
note_green_dns i b =
    if not b.green_dns_removed && i.all_start_topology_endpoints_removed
    then put_if_absent_phase_time "Green DNS removed" zero_phase
        (record b { green_dns_removed = true })
    else b

unfoldable pub note_green_topology : InterimStatus → Provider → Provider
unfolding put_if_absent_phase_time
note_green_topology i b =
    if not b.green_topology_changed && i.all_topology_changed
    then put_if_absent_phase_time "Green topology changed" zero_phase
        (record b { green_topology_changed = true })
    else b

unfoldable pub update_dns_flags : Role → InterimStatus → Provider → Provider
unfolding note_blue_dns note_green_dns note_green_topology
update_dns_flags source i b = note_blue_dns i b
update_dns_flags target i b = note_green_topology i (note_green_dns i b)

unfoldable pub start_switchover_timer : ℕ → Provider → Provider
start_switchover_timer now b = elim b.post_status_end_time [
  | none ↦ record b { post_status_end_time = some (now + b.switchover_duration) }
  | some end ↦ b
]

abbrev pub is_switchover_timer_expired : ℕ → Provider → Bool
is_switchover_timer_expired now b = elim b.post_status_end_time [
  | none ↦ false
  | some end ↦ ltb end now
]
