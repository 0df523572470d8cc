-- ===== src/Failover/Writer.antt =====
-- `FailoverWriter`: connect to the writer of the refreshed topology.
pub mod Success
use aws_advanced_go_wrapper.Base.{
  ℕ, Bool, true, false, not, ◌&&◌, ◌||◌, List, Option, none, some, String, ◌==◌, string_comparable,
  if◌then◌else◌,
}
use aws_advanced_go_wrapper.Host.{HostInfo, writer}
use aws_advanced_go_wrapper.Host.Lists.{get_writer}
use aws_advanced_go_wrapper.Failover.Service.{
  AwsError, failover_failed, message, Outcome, done, failed, PluginService,
}
use aws_advanced_go_wrapper.Failover.Plugin.{
  FailoverPlugin, trigger, succeed, fail, return_failover_success_error,
}

abbrev pub writer_failed {ℓ} :
    {W : Type ℓ} → AwsError → FailoverPlugin → W → AwsError × FailoverPlugin × W
writer_failed e p w = (e, record p { writer_counters = fail p.writer_counters }, w)

module _ {W C : Type 0} (s : PluginService W C) where
  unfoldable pub announce_writer :
      FailoverPlugin → Outcome HostInfo × W → AwsError × FailoverPlugin × W
  unfolding return_failover_success_error
  announce_writer p (failed e, w) = writer_failed e p w
  announce_writer p (done h, w) =
      let (e, w') = return_failover_success_error s p w in
      (e, record p { writer_counters = succeed p.writer_counters }, w')

  unfoldable pub take_writer :
      C → FailoverPlugin → Option AwsError × W → AwsError × FailoverPlugin × W
  unfolding announce_writer
  take_writer c p (some e, w) = writer_failed e p (s.close c w)
  take_writer c p (none, w) = announce_writer p (s.get_current_host_info w)

  unfoldable pub verify_writer :
      HostInfo → FailoverPlugin → Outcome C × W → AwsError × FailoverPlugin × W
  unfolding take_writer
  verify_writer h p (failed e, w) = writer_failed (failover_failed (message e)) p w
  verify_writer h p (done c, w) =
      let (role, w') = s.get_host_role c w in
      if role == writer
      then take_writer c p (s.set_current_connection c h w')
      else writer_failed (failover_failed "Failover.unexpectedReaderRole") p (s.close c w')

  unfoldable pub connect_writer :
      Option HostInfo → FailoverPlugin → W → AwsError × FailoverPlugin × W
  unfolding verify_writer
  connect_writer none p w = writer_failed (failover_failed "Failover.noWriterHost") p w
  connect_writer (some h) p w = verify_writer h p (s.connect h w)

  unfoldable pub failover_writer : FailoverPlugin → W → AwsError × FailoverPlugin × W
  unfolding connect_writer
  failover_writer p w =
      let ((refreshed, e), w') =
        s.force_refresh_host_list_with_timeout true p.failover_timeout_ms w in
      let p' = record p { writer_counters = trigger p.writer_counters } in
      if refreshed
      then connect_writer (get_writer (s.get_all_hosts w')) p' w'
      else writer_failed (failover_failed "Failover.unableToRefreshHostList") p' w'
