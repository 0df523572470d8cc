-- ===== src/Failover/Reader.antt =====
-- `FailoverReader` and its search for a reader, `getReaderFailoverConnection`, as a run of steps.
pub mod Search
use aws_advanced_go_wrapper.Base.{
  ℕ, ◌+◌, ◌*◌, Bool, true, false, Option, none, some, String, if◌then◌else◌,
}
use aws_advanced_go_wrapper.Host.{HostInfo}
use aws_advanced_go_wrapper.Failover.Service.{AwsError, failover_failed, PluginService}
use aws_advanced_go_wrapper.Failover.Plugin.{
  FailoverPlugin, trigger, succeed, fail, return_failover_success_error,
}
use aws_advanced_go_wrapper.Failover.Reader.Search.{
  Finding, found, gave_up, get_reader_failover_connection,
}

abbrev pub reader_failed {ℓ} :
    {W : Type ℓ} → AwsError → FailoverPlugin → W → AwsError × FailoverPlugin × W
reader_failed e p w = (e, record p { reader_counters = fail p.reader_counters }, w)

abbrev pub unable_to_connect : AwsError
unable_to_connect = failover_failed "Failover.unableToConnectToReader"

module _ {W C : Type 0} (s : PluginService W C) where
  unfoldable pub announce_reader :
      FailoverPlugin → Option AwsError × W → AwsError × FailoverPlugin × W
  unfolding return_failover_success_error
  announce_reader p (some e, w) = reader_failed unable_to_connect p w
  announce_reader p (none, w) =
      let (e, w') = return_failover_success_error s p w in
      (e, record p { reader_counters = succeed p.reader_counters }, w')

  unfoldable pub take_reader : FailoverPlugin → Finding C × W → AwsError × FailoverPlugin × W
  unfolding announce_reader
  take_reader p (gave_up e, w) = reader_failed unable_to_connect p w
  take_reader p (found c h, w) = announce_reader p (s.set_current_connection c h w)

  unfoldable pub after_search :
      FailoverPlugin → Option (Finding C × W) → Option (AwsError × FailoverPlugin × W)
  unfolding take_reader
  after_search p none = none
  after_search p (some f) = some (take_reader p f)

  unfoldable pub with_refresh :
      ℕ → FailoverPlugin → (Bool × Option AwsError) × W → Option (AwsError × FailoverPlugin × W)
  unfolding after_search
  with_refresh end p ((refreshed, some e), w) = some (reader_failed e p w)
  with_refresh end p ((false, none), w) =
      some (reader_failed (failover_failed "Failover.failoverReaderUnableToRefreshHostList") p w)
  with_refresh end p ((true, none), w) = after_search p (get_reader_failover_connection s p end w)

  -- `none` if the search ran out of fuel. The timeout is in milliseconds, the clock in nanoseconds.
  unfoldable pub failover_reader : FailoverPlugin → W → Option (AwsError × FailoverPlugin × W)
  unfolding with_refresh
  failover_reader p w =
      with_refresh (s.now w + p.failover_timeout_ms * 1000000)
        (record p { reader_counters = trigger p.reader_counters })
        (s.force_refresh_host_list_with_timeout false 0 (s.after_now w))
