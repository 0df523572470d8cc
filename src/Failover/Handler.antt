-- ===== src/Failover/Handler.antt =====
-- `rdsFailoverHandler`, and `Execute` and `Connect` of the plugin, which call it. The properties that
-- the plugin reads are arguments, and so is what the URL of the initial host was identified as.
pub mod Laws
pub mod Sticky
pub mod Takeover
use aws_advanced_go_wrapper.Base.{
  ℕ, Bool, true, false, not, ◌&&◌, ◌||◌, List, [], ◌∷◌, length, Option, none, some, String, ◌==◌,
  string_comparable, nat_beq, if◌then◌else◌,
}
use aws_advanced_go_wrapper.Host.{HostInfo, unavailable, get_host_and_port}
use aws_advanced_go_wrapper.Failover.Service.{
  AwsError, other_error, is_failover_success, Outcome, done, failed, PluginService,
}
use aws_advanced_go_wrapper.Failover.Slice.{filter_slice}
use aws_advanced_go_wrapper.Failover.Plugin.{
  FailoverMode, strict_writer, reader_or_writer, mode_unknown, failover_mode_from_value, RdsUrlType,
  other, rds_reader_cluster, rds_proxy, FailoverPlugin,
}
use aws_advanced_go_wrapper.Failover.Writer.{failover_writer}
use aws_advanced_go_wrapper.Failover.Reader.{failover_reader}

abbrev default_mode : RdsUrlType → FailoverMode
default_mode rds_reader_cluster = reader_or_writer
default_mode url = strict_writer

abbrev or_default : RdsUrlType → FailoverMode → FailoverMode
or_default url mode_unknown = default_mode url
or_default url mode = mode

abbrev is_other : RdsUrlType → Bool
is_other other = true
is_other url = false

abbrev is_proxy : RdsUrlType → Bool
is_proxy rds_proxy = true
is_proxy url = false

-- The setting in lower case, and the type of the initial host's URL.
unfoldable pub init_failover_mode : String → RdsUrlType → FailoverPlugin → FailoverPlugin
unfolding failover_mode_from_value
init_failover_mode setting identified p =
    if is_other p.rds_url_type
    then record p {
      failover_mode = or_default identified (failover_mode_from_value setting);
      rds_url_type = identified;
    }
    else p

abbrev pub is_strict_writer : FailoverMode → Bool
is_strict_writer strict_writer = true
is_strict_writer m = false

abbrev head_of : List HostInfo → Option HostInfo
head_of [] = none
head_of (h ∷ hs) = some h

abbrev is_unavailable : Option HostInfo → Bool
is_unavailable none = false
is_unavailable (some h) = h.availability == unavailable

-- The error of a failover, nil or not.
abbrev pub returned :
    {W : Type 0}
    → Option (AwsError × FailoverPlugin × W)
    → Option (Option AwsError × FailoverPlugin × W)
returned none = none
returned (some (e, p, w)) = some (some e, p, w)

abbrev pub deal_with_failover :
    {W : Type 0}
    → AwsError
    → Option (Option AwsError × FailoverPlugin × W)
    → Option (AwsError × FailoverPlugin × W)
deal_with_failover e none = none
deal_with_failover e (some (some e', p, w)) = some (e', p, w)
deal_with_failover e (some (none, p, w)) = some (e, record p { last_error_dealt_with = some e }, w)

abbrev pub dealt :
    {W R : Type 0}
    → Option (AwsError × FailoverPlugin × W)
    → Option (Outcome R × FailoverPlugin × W)
dealt none = none
dealt (some (e, p, w)) = some (failed e, p, w)

-- `same_error` is Go's `errors.Is`.
module _ {W C : Type 0} (s : PluginService W C) (same_error : AwsError → AwsError → Bool) where
  unfoldable pub is_failover_enabled : FailoverPlugin → W → Bool
  is_failover_enabled p w =
      not (is_proxy p.rds_url_type) && not (nat_beq (length (s.get_all_hosts w)) 0)

  unfoldable pub should_error_trigger_connection_switch : AwsError → FailoverPlugin → W → Bool
  unfolding is_failover_enabled
  should_error_trigger_connection_switch e p w =
      if is_failover_enabled p w then s.is_network_error e else false

  abbrev pub invalidate : Option C → FailoverPlugin → W → FailoverPlugin × W
  invalidate none p w = (p, w)
  invalidate (some c) p w =
      let cut = s.is_in_transaction w in
      let w' = if cut then s.rollback c w else w in
      (
        (if cut then record p { is_in_transaction = true } else p),
        (if s.is_closed c w' then w' else s.close c w'),
      )

  unfoldable pub invalidate_current_connection : FailoverPlugin → W → FailoverPlugin × W
  invalidate_current_connection p w = invalidate (s.get_current_connection w) p w

  unfoldable pub failover : FailoverPlugin → W → Option (Option AwsError × FailoverPlugin × W)
  unfolding failover_writer failover_reader
  failover p w =
      if is_strict_writer p.failover_mode
      then returned (some (failover_writer s p w))
      else returned (failover_reader s p w)

  unfoldable pub deal_with_host :
      AwsError → FailoverPlugin → Outcome HostInfo × W → Option (AwsError × FailoverPlugin × W)
  unfolding failover
  deal_with_host e p (failed e', w) = some (e', p, w)
  deal_with_host e p (done h, w) =
      deal_with_failover e (failover p (s.set_availability h.aliases unavailable w))

  abbrev pub is_last : AwsError → Option AwsError → Bool
  is_last e none = false
  is_last e (some last) = same_error e last

  unfoldable pub deal_with_error :
      AwsError → FailoverPlugin → W → Option (AwsError × FailoverPlugin × W)
  unfolding should_error_trigger_connection_switch deal_with_host invalidate_current_connection
  deal_with_error e p w =
      let (p', w') = invalidate_current_connection p w in
      if not (is_last e p.last_error_dealt_with) && should_error_trigger_connection_switch e p w
      then deal_with_host e p' (s.get_current_host_info w')
      else some (e, p, w)

  module _ {R : Type 0} where
    unfoldable pub after_execute :
        FailoverPlugin → Outcome R × W → Option (Outcome R × FailoverPlugin × W)
    unfolding deal_with_error
    after_execute p (done r, w) = some (done r, p, w)
    after_execute p (failed e, w) = dealt (deal_with_error e p w)

    unfoldable pub execute :
        String → (W → Outcome R × W) → FailoverPlugin → W → Option (Outcome R × FailoverPlugin × W)
    unfolding after_execute
    execute method_name execute_func p w =
        let (r, w') = execute_func w in
        if method_name == "Conn.Close" then some (r, p, w') else after_execute p (r, w')

  abbrev pub with_list :
      C → FailoverPlugin → Option AwsError × W → Option (Outcome (Option C) × FailoverPlugin × W)
  with_list c p (some e, w) = some (failed e, p, w)
  with_list c p (none, w) = some (done (some c), p, w)

  abbrev pub finish_connect :
      Bool → FailoverPlugin → Option C → W → Option (Outcome (Option C) × FailoverPlugin × W)
  finish_connect is_initial p none w = some (failed (other_error "Failover.unableToConnect"), p, w)
  finish_connect is_initial p (some c) w =
      if is_initial then with_list c p (s.refresh_host_list w) else some (done (some c), p, w)

  -- A nil error, which no failover returns, would be passed on with a nil connection.
  abbrev pub connect_after :
      Bool
      → Option (Option AwsError × FailoverPlugin × W)
      → Option (Outcome (Option C) × FailoverPlugin × W)
  connect_after is_initial none = none
  connect_after is_initial (some (none, p, w)) = some (done none, p, w)
  connect_after is_initial (some (some e, p, w)) =
      if is_failover_success e
      then finish_connect is_initial p (s.get_current_connection w) w
      else some (failed e, p, w)

  unfoldable pub connect_with :
      HostInfo
      → Bool
      → FailoverPlugin
      → Outcome C × W
      → Option (Outcome (Option C) × FailoverPlugin × W)
  unfolding should_error_trigger_connection_switch failover
  connect_with h is_initial p (done c, w) = finish_connect is_initial p (some c) w
  connect_with h is_initial p (failed e, w) =
      if should_error_trigger_connection_switch e p w
      then connect_after is_initial (failover p (s.set_availability h.all_aliases unavailable w))
      else some (failed e, p, w)

  unfoldable pub connect_later :
      Bool → FailoverPlugin → Option AwsError × W → Option (Outcome (Option C) × FailoverPlugin × W)
  unfolding failover
  connect_later is_initial p (some e, w) = some (failed e, p, w)
  connect_later is_initial p (none, w) = connect_after is_initial (failover p w)

  abbrev pub passed_on :
      FailoverPlugin → Outcome C × W → Option (Outcome (Option C) × FailoverPlugin × W)
  passed_on p (done c, w) = some (done (some c), p, w)
  passed_on p (failed e, w) = some (failed e, p, w)

  -- `is_direct`: failover on connect is disabled, or the connection is internal. `verified` is
  -- `GetVerifiedConnection` of the helper for stale DNS.
  unfoldable pub connect :
      String
      → RdsUrlType
      → HostInfo
      → Bool
      → Bool
      → (W → Outcome C × W)
      → FailoverPlugin
      → W
      → Option (Outcome (Option C) × FailoverPlugin × W)
  unfolding connect_with connect_later get_host_and_port filter_slice init_failover_mode
  connect setting identified h is_initial is_direct verified p w =
      let p' = init_failover_mode setting identified p in
      let known = head_of (
        filter_slice (λ (g : HostInfo). get_host_and_port g == get_host_and_port h)
          (s.get_hosts w)) in
      if is_direct
      then passed_on p' (verified w)
      else if is_unavailable known
      then connect_later is_initial p' (s.refresh_host_list w)
      else connect_with h is_initial p' (verified w)
