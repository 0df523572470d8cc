-- ===== src/Failover/Reader/Search.antt =====
-- `getReaderFailoverConnection`: its loops as steps between three places, with the clock read where
-- the source reads it. `readerCandidates` and `remainingReaders` are two slices of one array.
pub mod Ends
pub mod Results
pub mod Loss
use aws_advanced_go_wrapper.Base.{
  ℕ, zero, suc, ◌+◌, ◌*◌, ◌-◌, Bool, true, false, not, ◌&&◌, ◌||◌, List, [], length, Option, none,
  some, String, ◌==◌, string_comparable, ltb, nat_beq, if◌then◌else◌,
}
use aws_advanced_go_wrapper.Host.{HostInfo, reader, writer, equals, make_copy_with_role}
use aws_advanced_go_wrapper.Host.Lists.{get_writer}
use aws_advanced_go_wrapper.Failover.Service.{
  AwsError, failover_success, failover_failed, transaction_resolution_unknown, unsupported_strategy,
  other_error, Outcome, done, failed, PluginService,
}
use aws_advanced_go_wrapper.Failover.Slice.{filter_slice, shown, remove_from_slice}
use aws_advanced_go_wrapper.Failover.Plugin.{FailoverMode, strict_reader, FailoverPlugin}

pub data Finding (C : Type 0) : Type 0 where
  found : C → HostInfo → Finding C
  gave_up : AwsError → Finding C

-- The variables of the function, the two slices by their lengths.
pub record Search : Type 0 where
  pub array : List HostInfo
  pub candidates : ℕ
  pub remaining : ℕ
  pub original_writer : Option HostInfo
  pub is_still_writer : Bool

-- The head of the inner loop, the writer's turn after it, and the condition of the outer loop.
pub data Place : Type 0 where
  readers_turn : Place
  writers_turn : Place
  time_check : Place

pub data Next (W C : Type 0) : Type 0 where
  go_on : Place → Search → W → Next W C
  stop : Finding C → W → Next W C

abbrev pub is_strict_reader : FailoverMode → Bool
is_strict_reader strict_reader = true
is_strict_reader m = false

abbrev pub is_unsupported : AwsError → Bool
is_unsupported (unsupported_strategy m) = true
is_unsupported e = false

-- `FallbackTopologyRefreshTimeoutMs`.
abbrev pub refresh_timeout_ms : ℕ
refresh_timeout_ms = 1100

-- Whether a connection of this role will do.
abbrev pub is_acceptable : FailoverMode → String → Bool
is_acceptable mode role = role == reader || not (is_strict_reader mode)

unfoldable pub get_reader_failover_candidates : List HostInfo → List HostInfo × Option HostInfo
unfolding filter_slice
get_reader_failover_candidates hosts =
    (filter_slice (λ (h : HostInfo). h.role == reader) hosts, get_writer hosts)

-- Both lists are set to the readers of the hosts.
unfoldable pub with_hosts : List HostInfo → Search → Search
unfolding get_reader_failover_candidates
with_hosts hosts q =
    let (readers, w) = get_reader_failover_candidates hosts in
    record q {
      array = readers;
      candidates = length readers;
      remaining = length readers;
      original_writer = w;
    }

-- The variables when the outer loop is entered.
unfoldable pub first_search : List HostInfo → Search
unfolding with_hosts
first_search hosts = with_hosts hosts (record {
  array = [];
  candidates = 0;
  remaining = 0;
  original_writer = none;
  is_still_writer = false;
})

unfoldable pub drop_remaining : HostInfo → Search → Search
unfolding equals remove_from_slice
drop_remaining h q =
    let (array, n) = remove_from_slice equals h q.remaining q.array in
    record q { array = array; remaining = n }

unfoldable pub drop_candidate : HostInfo → Search → Search
unfolding equals remove_from_slice
drop_candidate h q =
    let (array, n) = remove_from_slice equals h q.candidates q.array in
    record q { array = array; candidates = n; is_still_writer = false }

abbrev pub follow :
    {W C : Type 0}
    → (Place → Search → W → Option (Finding C × W))
    → Next W C
    → Option (Finding C × W)
follow rest (stop f w) = some (f, w)
follow rest (go_on at q w) = rest at q w

module _ {W C : Type 0} (s : PluginService W C) where
  unfoldable pub judge_reader : FailoverMode → HostInfo → Search → C → String × W → Next W C
  unfolding drop_remaining drop_candidate make_copy_with_role
  judge_reader mode h q c (role, w) =
      if is_acceptable mode role
      then stop (found c (make_copy_with_role role h)) w
      else go_on readers_turn
          (if role == writer then drop_candidate h (drop_remaining h q) else drop_remaining h q)
          (s.close c w)

  unfoldable pub use_reader : FailoverMode → HostInfo → Search → Outcome C × W → Next W C
  unfolding drop_remaining judge_reader
  use_reader mode h q (failed e, w) = go_on readers_turn (drop_remaining h q) w
  use_reader mode h q (done c, w) = judge_reader mode h q c (s.get_host_role c w)

  unfoldable pub with_update : Search → Outcome (List HostInfo) × W → Next W C
  unfolding with_hosts
  with_update q (failed e, w) = go_on writers_turn q w
  with_update q (done hosts, w) = go_on writers_turn (with_hosts hosts q) w

  unfoldable pub picked : FailoverMode → Search → Outcome (Option HostInfo) × W → Next W C
  unfolding use_reader with_update
  picked mode q (done none, w) = go_on writers_turn q w
  picked mode q (done (some h), w) = use_reader mode h q (s.connect h w)
  picked mode q (failed e, w) =
      if is_unsupported e
      then stop (gave_up e) w
      else with_update q (s.get_updated_host_list_with_timeout false refresh_timeout_ms w)

  unfoldable pub judge_writer : FailoverMode → HostInfo → Search → C → String × W → Next W C
  unfolding make_copy_with_role
  judge_writer mode h q c (role, w) =
      if is_acceptable mode role
      then stop (found c (make_copy_with_role role h)) w
      else go_on time_check (if role == writer then record q { is_still_writer = true } else q)
          (s.close c w)

  unfoldable pub use_writer : FailoverMode → HostInfo → Search → Outcome C × W → Next W C
  unfolding judge_writer
  use_writer mode h q (failed e, w) = go_on time_check q w
  use_writer mode h q (done c, w) = judge_writer mode h q c (s.get_host_role c w)

  unfoldable pub turn_of_writer : FailoverMode → ℕ → Option HostInfo → Search → W → Next W C
  unfolding use_writer
  turn_of_writer mode end none q w = go_on time_check q w
  turn_of_writer mode end (some h) q w =
      let w' = s.after_now w in
      if ltb end (s.now w) || (is_strict_reader mode && q.is_still_writer)
      then go_on time_check q w'
      else use_writer mode h q (s.connect h w')

  unfoldable pub step : FailoverPlugin → ℕ → Place → Search → W → Next W C
  unfolding picked turn_of_writer shown
  step p end readers_turn q w =
      let w' = s.after_now w in
      if nat_beq q.remaining 0
      then go_on writers_turn q w
      else if ltb (s.now w) end
      then picked p.failover_mode q
          (s.get_host_info_by_strategy reader p.strategy (shown q.remaining q.array) w')
      else go_on writers_turn q w'
  step p end writers_turn q w = turn_of_writer p.failover_mode end q.original_writer q w
  step p end time_check q w =
      let w' = s.after_now w in
      if ltb (s.now w) end
      then go_on readers_turn (record q { remaining = q.candidates }) w'
      else stop (gave_up (failover_failed "Failover.failoverReaderTimeout")) w'

  unfoldable pub run : ℕ → FailoverPlugin → ℕ → Place → Search → W → Option (Finding C × W)
  unfolding step
  run zero p end at q w = none
  run (suc fuel) p end at q w = follow (run fuel p end) (step p end at q w)

  -- Three steps for each unit of time that may pass before the deadline, and one round more.
  unfoldable pub rounds : ℕ → W → ℕ
  rounds end w = 3 * (s.due end - s.elapsed w) + 3

  unfoldable pub get_reader_failover_connection : FailoverPlugin → ℕ → W → Option (Finding C × W)
  unfolding run rounds
  get_reader_failover_connection p end w =
      run (rounds end w) p end readers_turn (first_search (s.get_hosts w)) w
