-- ===== src/Failover/Handler/Laws.antt =====
-- A failover, and what the plugin does about an error, ends.
use aws_advanced_go_wrapper.Base.{
  ℕ, ◌≡◌, refl, Bool, true, false, not, ◌&&◌, Option, none, some, is_some, string_comparable,
  if-cases,
}
use aws_advanced_go_wrapper.Host.{HostInfo, unavailable}
use aws_advanced_go_wrapper.Failover.Service.{
  AwsError, Outcome, done, failed, PluginService, IsClocked,
}
use aws_advanced_go_wrapper.Failover.Plugin.{FailoverPlugin}
use aws_advanced_go_wrapper.Failover.Reader.{with_refresh, after_search, failover_reader}
use aws_advanced_go_wrapper.Failover.Reader.Search.{Finding, get_reader_failover_connection}
use aws_advanced_go_wrapper.Failover.Reader.Search.Ends.{get_reader_failover_connection-ends}
use aws_advanced_go_wrapper.Failover.Handler.{
  is_strict_writer, invalidate_current_connection, failover, returned, deal_with_failover,
  deal_with_host, deal_with_error, should_error_trigger_connection_switch, is_last,
}

abbrev IsEnd {ℓ} : {A : Type ℓ} → Option A → Type 0
IsEnd o = is_some o ≡ true

returned-ends :
    {W : Type 0} (o : Option (AwsError × FailoverPlugin × W)) → IsEnd o → IsEnd (returned o)
returned-ends none e = e
returned-ends (some r) e = refl

deal_with_failover-ends :
    {W : Type 0} (e : AwsError) (o : Option (Option AwsError × FailoverPlugin × W))
    → IsEnd o
    → IsEnd (deal_with_failover e o)
deal_with_failover-ends e none h = h
deal_with_failover-ends e (some (none, p, w)) h = refl
deal_with_failover-ends e (some (some e', p, w)) h = refl

module _ {W C : Type 0} (s : PluginService W C) (clocked : IsClocked s)
    (same_error : AwsError → AwsError → Bool) where
  after_search-ends :
      (p : FailoverPlugin) (o : Option (Finding C × W)) → IsEnd o → IsEnd (after_search s p o)
  unfolding after_search
  after_search-ends p none e = e
  after_search-ends p (some f) e = refl

  with_refresh-ends :
      (end : ℕ) (p : FailoverPlugin) (b : Bool) (o : Option AwsError) (w : W)
      → IsEnd (with_refresh s end p ((b, o), w))
  unfolding with_refresh
  with_refresh-ends end p b (some e) w = refl
  with_refresh-ends end p false none w = refl
  with_refresh-ends end p true none w =
      after_search-ends p (get_reader_failover_connection s p end w)
        (get_reader_failover_connection-ends s clocked end p w)

  failover_reader-ends : (p : FailoverPlugin) (w : W) → IsEnd (failover_reader s p w)
  unfolding failover_reader
  failover_reader-ends p w = with_refresh-ends _ _ _ _ _

  pub failover-ends : (p : FailoverPlugin) (w : W) → IsEnd (failover s same_error p w)
  unfolding failover
  failover-ends p w =
      if-cases IsEnd (is_strict_writer p.failover_mode) refl
        (returned-ends (failover_reader s p w) (failover_reader-ends p w))

  deal_with_host-ends :
      (e : AwsError) (p : FailoverPlugin) (o : Outcome HostInfo) (w : W)
      → IsEnd (deal_with_host s same_error e p (o, w))
  unfolding deal_with_host
  deal_with_host-ends e p (failed x) w = refl
  deal_with_host-ends e p (done h) w =
      deal_with_failover-ends e _ (failover-ends p (s.set_availability h.aliases unavailable w))

  pub deal_with_error-ends :
      (e : AwsError) (p : FailoverPlugin) (w : W) → IsEnd (deal_with_error s same_error e p w)
  unfolding deal_with_error
  deal_with_error-ends e p w =
      let inv = invalidate_current_connection s same_error p w in
      let host = s.get_current_host_info inv.1 in
      if-cases (IsEnd {A = AwsError × FailoverPlugin × W})
        (not (is_last s same_error e p.last_error_dealt_with)
          && should_error_trigger_connection_switch s same_error e p w)
        (deal_with_host-ends e inv.0 host.0 host.1) refl
