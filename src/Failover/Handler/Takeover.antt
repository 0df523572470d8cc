-- ===== src/Failover/Handler/Takeover.antt =====
-- What a network error of a call through the plugin leads to in the strict writer's mode.
use aws_advanced_go_wrapper.Base.{
  ℕ, suc, ◌≡◌, refl, ap, ◌∙◌, Bool, true, false, not, ◌&&◌, Option, none, some, In, String, ◌==◌,
  string_comparable, arith, if_true, if_false, if-cases,
}
use aws_advanced_go_wrapper.Host.{HostInfo, writer, unavailable}
use aws_advanced_go_wrapper.Host.Lists.{get_writer}
use aws_advanced_go_wrapper.Failover.Service.{
  AwsError, is_done, Outcome, done, failed, PluginService, IsHonest, KeepsCurrent,
}
use aws_advanced_go_wrapper.Failover.Plugin.{FailoverPlugin, Counters, trigger}
use aws_advanced_go_wrapper.Failover.Writer.{
  announce_writer, take_writer, verify_writer, connect_writer, failover_writer,
}
use aws_advanced_go_wrapper.Failover.Writer.Success.{IsTaken, refreshed, failover_writer-IsTaken}
use aws_advanced_go_wrapper.Failover.Handler.{
  is_strict_writer, invalidate, invalidate_current_connection, failover, deal_with_failover, dealt,
  deal_with_host, deal_with_error, after_execute, execute, should_error_trigger_connection_switch,
  is_last,
}

module _ {W C : Type 0} (s : PluginService W C) (n : ℕ) (readers : Counters) where
  -- So many writer failovers were triggered, and the counters of reader failovers are these.
  abbrev IsTriggered : FailoverPlugin → Type 0
  IsTriggered p = (p.writer_counters.triggered ≡ n) × (p.reader_counters ≡ readers)

  abbrev Triggers : AwsError × FailoverPlugin × W → Type 0
  Triggers (e, p, w) = IsTriggered p

  announce_writer-Triggers :
      (p : FailoverPlugin) (o : Outcome HostInfo) (w : W)
      → IsTriggered p
      → Triggers (announce_writer s p (o, w))
  unfolding announce_writer
  announce_writer-Triggers p (failed e) w t = t
  announce_writer-Triggers p (done h) w t = t

  take_writer-Triggers :
      (c : C) (p : FailoverPlugin) (o : Option AwsError) (w : W)
      → IsTriggered p
      → Triggers (take_writer s c p (o, w))
  unfolding take_writer
  take_writer-Triggers c p (some e) w t = t
  take_writer-Triggers c p none w t =
      announce_writer-Triggers p (s.get_current_host_info w).0 (s.get_current_host_info w).1 t

  verify_writer-Triggers :
      (h : HostInfo) (p : FailoverPlugin) (o : Outcome C) (w : W)
      → IsTriggered p
      → Triggers (verify_writer s h p (o, w))
  unfolding verify_writer
  verify_writer-Triggers h p (failed e) w t = t
  verify_writer-Triggers h p (done c) w t =
      let asked = s.get_host_role c w in
      let set = s.set_current_connection c h asked.1 in
      if-cases Triggers (asked.0 == writer) (take_writer-Triggers c p set.0 set.1 t) t

  connect_writer-Triggers :
      (o : Option HostInfo) (p : FailoverPlugin) (w : W)
      → IsTriggered p
      → Triggers (connect_writer s o p w)
  unfolding connect_writer
  connect_writer-Triggers none p w t = t
  connect_writer-Triggers (some h) p w t =
      verify_writer-Triggers h p (s.connect h w).0 (s.connect h w).1 t

module _ {W C : Type 0} (s : PluginService W C) where
  failover_writer-Triggers :
      (p : FailoverPlugin) (w : W)
      → Triggers s (suc p.writer_counters.triggered) p.reader_counters (failover_writer s p w)
  unfolding failover_writer
  failover_writer-Triggers p w =
      let asked = s.force_refresh_host_list_with_timeout true p.failover_timeout_ms w in
      if-cases (Triggers s (suc p.writer_counters.triggered) p.reader_counters) asked.0.0
        (connect_writer-Triggers s (suc p.writer_counters.triggered) p.reader_counters
          (get_writer (s.get_all_hosts asked.1))
          (record p { writer_counters = trigger p.writer_counters }) asked.1 (refl, refl))
        (refl, refl)

  -- What the two states of the plugin have in common.
  abbrev Keeps : FailoverPlugin → FailoverPlugin → Type 0
  Keeps p p' =
      (p'.writer_counters ≡ p.writer_counters)
      × (p'.reader_counters ≡ p.reader_counters)
      × (p'.failover_mode ≡ p.failover_mode)
      × (p'.failover_timeout_ms ≡ p.failover_timeout_ms)

  invalidate-Keeps :
      (same_error : AwsError → AwsError → Bool) (o : Option C) (p : FailoverPlugin) (w : W)
      → Keeps p (invalidate s same_error o p w).0
  invalidate-Keeps same_error none p w = (refl, refl, refl, refl)
  invalidate-Keeps same_error (some c) p w =
      if-cases (Keeps p) (s.is_in_transaction w) (refl, refl, refl, refl) (refl, refl, refl, refl)

  -- The failover that an error calls for.
  dealt_by_writer :
      (same_error : AwsError → AwsError → Bool) (e : AwsError) (p : FailoverPlugin) (w w' : W)
      (h : HostInfo)
      → should_error_trigger_connection_switch s same_error e p w ≡ true
      → is_last s same_error e p.last_error_dealt_with ≡ false
      → is_strict_writer p.failover_mode ≡ true
      → s.get_current_host_info (invalidate_current_connection s same_error p w).1 ≡ (done h, w')
      → deal_with_error s same_error e p w
        ≡ some (
            failover_writer s
              (invalidate_current_connection s same_error p w).0
              (s.set_availability h.aliases unavailable w'))
  unfolding deal_with_error deal_with_host failover invalidate_current_connection
  dealt_by_writer same_error e p w w' h called not_last strict host =
      let kept = invalidate-Keeps same_error (s.get_current_connection w) p w in
      let inv = invalidate_current_connection s same_error p w in
      let test : (not (is_last s same_error e p.last_error_dealt_with)
            && should_error_trigger_connection_switch s same_error e p w)
          ≡ true =
        ground arith in
      if_true _ (deal_with_host s same_error e inv.0 (s.get_current_host_info inv.1))
        (some (e, p, w)) test
      ∙ ap (deal_with_host s same_error e inv.0) host
      ∙ ap (deal_with_failover e)
          (if_true (is_strict_writer inv.0.failover_mode) _ _ (ap is_strict_writer kept.2 ∙ strict))

-- When a method other than Conn.Close fails through the plugin, in the strict writer's mode, with an
-- error that calls for a failover and was not the last one dealt with, and the current host is known
-- once the current connection is invalidated: the call ends with the error of a writer failover, one
-- more of which is counted and no reader failover. If that error reports the failover done, the
-- current connection was made to a host with the role of a writer, of the topology refreshed after
-- the old host was marked unavailable, and answered that it is a writer's. The errors of the service
-- do not report a failover as done, and it keeps the connection that was set.
pub execute-takes_writer :
    {W C R : Type 0} (s : PluginService W C)
    → IsHonest s
    → KeepsCurrent s
    → (same_error : AwsError → AwsError → Bool) (method_name : String)
      (execute_func : W → Outcome R × W) (e : AwsError) (p : FailoverPlugin) (w w1 w2 : W)
      (h : HostInfo)
    → (method_name == "Conn.Close") ≡ false
    → execute_func w ≡ (failed e, w1)
    → should_error_trigger_connection_switch s same_error e p w1 ≡ true
    → is_last s same_error e p.last_error_dealt_with ≡ false
    → is_strict_writer p.failover_mode ≡ true
    → s.get_current_host_info (invalidate_current_connection s same_error p w1).1 ≡ (done h, w2)
    → (r : AwsError) × (p' : FailoverPlugin) × (w' : W) × (execute s same_error method_name
          execute_func p w
        ≡ some (failed r, p', w'))
      × (p'.writer_counters.triggered ≡ suc p.writer_counters.triggered)
      × (p'.reader_counters ≡ p.reader_counters)
      × (is_done r ≡ true
          → (k : HostInfo) × (c : C) × In k
              (s.get_all_hosts (refreshed s p (s.set_availability h.aliases unavailable w2)))
            × (k.role ≡ writer)
            × IsTaken s k c w')
unfolding execute after_execute invalidate_current_connection
execute-takes_writer s honest keeps same_error method_name f e p w w1 w2 h open_call fails called
      not_last strict host =
    let kept = invalidate-Keeps s same_error (s.get_current_connection w1) p w1 in
    let p1 = (invalidate_current_connection s same_error p w1).0 in
    let w3 = s.set_availability h.aliases unavailable w2 in
    let result = failover_writer s p1 w3 in
    let counted = failover_writer-Triggers s p1 w3 in
    let same : refreshed s p1 w3 ≡ refreshed s p w3 =
      ap (λ t. (s.force_refresh_host_list_with_timeout true t w3).1) kept.3 in
    (
      result.0,
      result.1,
      result.2,
      if_false (method_name == "Conn.Close") _ _ open_call
          ∙ ap (after_execute s same_error p) fails
          ∙ ap dealt (dealt_by_writer s same_error e p w1 w2 h called not_last strict host),
      counted.0 ∙ ap (λ (c : Counters). suc c.triggered) kept.0,
      counted.1 ∙ kept.1,
      λ is_done_now.
          let (k, c, member, role, taken) =
            failover_writer-IsTaken s honest keeps p1 w3 is_done_now in
          (k, c, rw (← same) member, role, taken),
    )
