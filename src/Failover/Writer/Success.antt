-- ===== src/Failover/Writer/Success.antt =====
-- What the success of a writer failover says of the connection.
use aws_advanced_go_wrapper.Base.{
  ◌≡◌, refl, ◌∙◌, true, false, Option, none, some, List, [], ◌∷◌, In, ◌==◌, string_comparable,
  arith, if-given,
}
use aws_advanced_go_wrapper.Host.{HostInfo, writer}
use aws_advanced_go_wrapper.Host.Lists.{get_writer}
use aws_advanced_go_wrapper.Failover.Service.{
  AwsError, is_done, Outcome, done, failed, PluginService, IsHonest, KeepsCurrent,
}
use aws_advanced_go_wrapper.Failover.Plugin.{FailoverPlugin, trigger, return_failover_success_error}
use aws_advanced_go_wrapper.Failover.Writer.{
  announce_writer, take_writer, verify_writer, connect_writer, failover_writer,
}

pub get_writer-In :
    (hs : List HostInfo) (h : HostInfo) → get_writer hs ≡ some h → In h hs × (h.role ≡ writer)
unfolding get_writer
get_writer-In [] h e = ground arith
get_writer-In (g ∷ gs) h e =
    ground (arith, get_writer-In gs h, string_comparable.eqb_iff g.role writer)

module _ {W C : Type 0} (s : PluginService W C) where
  -- The connection that a connect to the host gave, from a state of its own, said in a later one
  -- that it is a writer's, and is now the current one.
  abbrev pub IsTaken : HostInfo → C → W → Type 0
  IsTaken h c w =
      (u : W) × (v : W) × ((s.connect h u).0 ≡ done c)
      × ((s.get_host_role c v).0 ≡ writer)
      × (s.get_current_connection w ≡ some c)

  -- The state after the refresh of the topology that a writer failover starts with.
  abbrev pub refreshed : FailoverPlugin → W → W
  refreshed p w = (s.force_refresh_host_list_with_timeout true p.failover_timeout_ms w).1

module _ {W C : Type 0} (s : PluginService W C) (honest : IsHonest s) (keeps : KeepsCurrent s) where
  return_success-current :
      (p : FailoverPlugin) (w : W)
      → s.get_current_connection (return_failover_success_error s p w).1
        ≡ s.get_current_connection w
  unfolding return_failover_success_error
  return_success-current p w = ground (arith, keeps.tell_transaction false w)

  announce_writer-current :
      (p : FailoverPlugin) (o : Outcome HostInfo) (w : W)
      → ((e : AwsError) → o ≡ failed e → is_done e ≡ false)
      → is_done (announce_writer s p (o, w)).0 ≡ true
      → s.get_current_connection (announce_writer s p (o, w)).2 ≡ s.get_current_connection w
  unfolding announce_writer
  announce_writer-current p (done h) w d e = return_success-current p w
  announce_writer-current p (failed x) w d e = ground (arith, d x refl)

  take_writer-current :
      (c : C) (p : FailoverPlugin) (o : Option AwsError) (w : W)
      → ((e : AwsError) → o ≡ some e → is_done e ≡ false)
      → is_done (take_writer s c p (o, w)).0 ≡ true
      → (o ≡ none)
        × (s.get_current_connection (take_writer s c p (o, w)).2 ≡ s.get_current_connection w)
  unfolding take_writer
  take_writer-current c p (some x) w d e = ground (arith, d x refl)
  take_writer-current c p none w d e = (
    refl,
    announce_writer-current p (s.get_current_host_info w).0 (s.get_current_host_info w).1
          (honest.host_fails w) e
        ∙ keeps.ask_host w,
  )

  abbrev IfDone : HostInfo → AwsError × FailoverPlugin × W → Type 0
  IfDone h r = is_done r.0 ≡ true → (c : C) × IsTaken s h c r.2

  verify_writer-IsTaken :
      (h : HostInfo) (p : FailoverPlugin) (u : W) (o : Outcome C) (w : W)
      → (s.connect h u).0 ≡ o
      → is_done (verify_writer s h p (o, w)).0 ≡ true
      → (c : C) × IsTaken s h c (verify_writer s h p (o, w)).2
  unfolding verify_writer
  verify_writer-IsTaken h p u (failed x) w at e = ground arith
  verify_writer-IsTaken h p u (done c) w at e =
      let role = (s.get_host_role c w).0 in
      let w' = (s.get_host_role c w).1 in
      let set = s.set_current_connection c h w' in
      if-given (IfDone h) (role == writer)
        (λ is_writer e.
          let taken = take_writer-current c p set.0 set.1 (honest.set_fails c h w') e in
          (
            c,
            (
              u,
              w,
              at,
              (string_comparable.eqb_iff role writer).0 is_writer,
              taken.1 ∙ keeps.set_connection c h w' taken.0,
            ),
          ))
        (λ is_not e. ground arith) e

  connect_writer-IsTaken :
      (o : Option HostInfo) (p : FailoverPlugin) (w : W)
      → is_done (connect_writer s o p w).0 ≡ true
      → (h : HostInfo) × (c : C) × (o ≡ some h) × IsTaken s h c (connect_writer s o p w).2
  unfolding connect_writer
  connect_writer-IsTaken none p w e = ground arith
  connect_writer-IsTaken (some h) p w e =
      let (c, taken) = verify_writer-IsTaken h p w (s.connect h w).0 (s.connect h w).1 refl e in
      (h, c, refl, taken)

  -- When a writer failover reports that it is done, the service being one whose errors never report
  -- that and which keeps the connection that was set: the host is one of the refreshed topology with
  -- the role of a writer, the connection was made to it and answered that it is a writer's, and it
  -- is the current connection.
  pub failover_writer-IsTaken :
      (p : FailoverPlugin) (w : W)
      → is_done (failover_writer s p w).0 ≡ true
      → (h : HostInfo) × (c : C) × In h (s.get_all_hosts (refreshed s p w))
        × (h.role ≡ writer)
        × IsTaken s h c (failover_writer s p w).2
  unfolding failover_writer
  failover_writer-IsTaken p w e =
      let hosts = s.get_all_hosts (refreshed s p w) in
      let p' = record p { writer_counters = trigger p.writer_counters } in
      if-given
        (λ (r : AwsError × FailoverPlugin × W).
          is_done r.0 ≡ true
          → (h : HostInfo) × (c : C) × In h hosts × (h.role ≡ writer) × IsTaken s h c r.2)
        (s.force_refresh_host_list_with_timeout true p.failover_timeout_ms w).0.0
        (λ ok e.
          let (h, c, at, taken) =
            connect_writer-IsTaken (get_writer hosts) p' (refreshed s p w) e in
          let (member, role) = get_writer-In hosts h at in (h, c, member, role, taken))
        (λ not_ok e. ground arith) e
