-- ===== src/Splitting/Switch.antt =====
-- `switchConnectionIfRequired` and what it calls, and `Execute`.
use aws_advanced_go_wrapper.Base.{
  Bool, true, false, not, ◌&&◌, List, [], ◌∷◌, length, nat_beq, Option, none, some,
  string_comparable, Comparable, is_some, if◌then◌else◌,
}
use aws_advanced_go_wrapper.Host.{HostInfo}
use aws_advanced_go_wrapper.Host.Lists.{get_writer, is_host_in_list}
use aws_advanced_go_wrapper.Failover.Service.{
  AwsError, other_error, is_done, failover_failed, Outcome, done, failed, PluginService,
}
use aws_advanced_go_wrapper.Splitting.{
  SplittingPlugin, is_writer, is_reader, set_writer_connection, set_reader_connection,
  is_connection_usable, close_connection_if_idle, close_idle_connections,
  switch_current_connection_to,
}
use aws_advanced_go_wrapper.Splitting.Strategy.{get_writer_connection, get_reader_connection}

module _ {W C : Type 0} ⦃e : Comparable C⦄ (s : PluginService W C) where
  abbrev pub Switched : Type 0
  Switched = Option AwsError × SplittingPlugin C × W

  unfoldable pub with_new_writer : SplittingPlugin C → Outcome (C × HostInfo) × W → Switched
  unfolding set_writer_connection switch_current_connection_to
  with_new_writer p (failed x, w) = (some x, p, w)
  with_new_writer p (done (c, h), w) =
      switch_current_connection_to s c (some h) (set_writer_connection c h p) w

  unfoldable pub get_new_writer_connection : List HostInfo → SplittingPlugin C → W → Switched
  unfolding with_new_writer get_writer_connection
  get_new_writer_connection hosts p w = with_new_writer p (get_writer_connection s hosts w)

  unfoldable pub with_new_reader : SplittingPlugin C → Outcome (C × HostInfo) × W → Switched
  unfolding set_reader_connection switch_current_connection_to
  with_new_reader p (failed x, w) = (some x, p, w)
  with_new_reader p (done (c, h), w) =
      switch_current_connection_to s c (some h) (set_reader_connection c h p) w

  unfoldable pub get_new_reader_connection : List HostInfo → SplittingPlugin C → W → Switched
  unfolding with_new_reader get_reader_connection
  get_new_reader_connection hosts p w =
      with_new_reader p (get_reader_connection s p.reader_selector_strategy hosts w)

  -- With a single host the writer is used.
  unfoldable pub initialize_reader_connection : List HostInfo → SplittingPlugin C → W → Switched
  unfolding get_new_writer_connection get_new_reader_connection
  initialize_reader_connection hosts p w =
      if nat_beq (length hosts) 1
      then (if not (is_some (get_writer hosts))
          then (some (other_error "ReadWriteSplittingPlugin.noWriterFound"), p, w)
          else if is_connection_usable s p.writer_connection w
          then (none, p, w)
          else get_new_writer_connection hosts p w)
      else get_new_reader_connection hosts p w

  -- A cached reader that cannot be made current is closed, and a new one is looked for.
  abbrev pub or_new_reader : List HostInfo → C → Switched → Switched
  or_new_reader hosts c (none, p, w) = (none, p, w)
  or_new_reader hosts c (some x, p, w) =
      initialize_reader_connection hosts
        (record p { reader_connection = none; reader_host_info = none }) (s.close c w)

  abbrev pub use_cached_reader : List HostInfo → Option C → SplittingPlugin C → W → Switched
  use_cached_reader hosts none p w = initialize_reader_connection hosts p w
  use_cached_reader hosts (some c) p w =
      if not (s.is_closed c w)
      then or_new_reader hosts c (switch_current_connection_to s c p.reader_host_info p w)
      else initialize_reader_connection hosts p w

  abbrev pub drop_unlisted_reader : List HostInfo → SplittingPlugin C → W → SplittingPlugin C × W
  drop_unlisted_reader hosts p w =
      if is_some p.reader_host_info && not (is_host_in_list p.reader_host_info hosts)
      then close_connection_if_idle s p.reader_connection p w
      else (p, w)

  unfoldable pub switch_to_reader_from :
      List HostInfo → SplittingPlugin C → Outcome HostInfo × W → Switched
  unfolding initialize_reader_connection switch_current_connection_to close_connection_if_idle
  switch_to_reader_from hosts p (failed x, w) = (some x, p, w)
  switch_to_reader_from hosts p (done h, w) =
      let (p', w') = drop_unlisted_reader hosts p w in
      if is_reader h && is_connection_usable s (s.get_current_connection w) w
      then (none, p, w)
      else use_cached_reader hosts p'.reader_connection (record p' { in_read_write_split = true })
          w'

  unfoldable pub switch_to_reader_connection : List HostInfo → SplittingPlugin C → W → Switched
  unfolding switch_to_reader_from
  switch_to_reader_connection hosts p w = switch_to_reader_from hosts p (s.get_current_host_info w)

  unfoldable pub use_cached_writer : List HostInfo → Option C → SplittingPlugin C → W → Switched
  unfolding get_new_writer_connection switch_current_connection_to
  use_cached_writer hosts none p w = get_new_writer_connection hosts p w
  use_cached_writer hosts (some c) p w =
      if not (s.is_closed c w)
      then switch_current_connection_to s c p.writer_host_info p w
      else get_new_writer_connection hosts p w

  unfoldable pub switch_to_writer_from :
      List HostInfo → SplittingPlugin C → Outcome HostInfo × W → Switched
  unfolding use_cached_writer
  switch_to_writer_from hosts p (failed x, w) = (some x, p, w)
  switch_to_writer_from hosts p (done h, w) =
      if is_writer h && is_connection_usable s (s.get_current_connection w) w
      then (none, p, w)
      else use_cached_writer hosts p.writer_connection (record p { in_read_write_split = true }) w

  unfoldable pub switch_to_writer_connection : List HostInfo → SplittingPlugin C → W → Switched
  unfolding switch_to_writer_from
  switch_to_writer_connection hosts p w = switch_to_writer_from hosts p (s.get_current_host_info w)

  -- A failed switch to a reader falls back on the connection, if it can be used.
  abbrev pub or_fallback : Option C → Switched → Switched
  or_fallback current (none, p, w) = (none, p, w)
  or_fallback current (some x, p, w) =
      if is_connection_usable s current w
      then (none, p, w)
      else (some (other_error "ReadWriteSplittingPlugin.errorSwitchingToReader"), p, w)

  abbrev pub or_writer_error : Switched → Switched
  or_writer_error (none, p, w) = (none, p, w)
  or_writer_error (some x, p, w) =
      (some (other_error "ReadWriteSplittingPlugin.errorSwitchingToWriter"), p, w)

  unfoldable pub switch_for_host :
      Bool → List HostInfo → Option C → SplittingPlugin C → Outcome HostInfo × W → Switched
  unfolding switch_to_reader_connection switch_to_writer_connection
  switch_for_host read_only hosts current p (failed x, w) = (some x, p, w)
  switch_for_host true hosts current p (done h, w) =
      if not (s.is_in_transaction w) && not (is_reader h)
      then or_fallback current (switch_to_reader_connection hosts p w)
      else (none, p, w)
  switch_for_host false hosts current p (done h, w) =
      if is_writer h
      then (none, p, w)
      else if s.is_in_transaction w
      then (some (other_error "ReadWriteSplittingPlugin.setReadOnlyFalseInTransaction"), p, w)
      else or_writer_error (switch_to_writer_connection hosts p w)

  abbrev pub with_hosts : Bool → List HostInfo → Option C → SplittingPlugin C → W → Switched
  with_hosts read_only [] current p w =
      (some (other_error "ReadWriteSplittingPlugin.emptyHostList"), p, w)
  with_hosts read_only (h ∷ hs) current p w =
      switch_for_host read_only (h ∷ hs) current p (s.get_current_host_info w)

  abbrev pub is_closed_conn : Option C → W → Bool
  is_closed_conn none w = false
  is_closed_conn (some c) w = s.is_closed c w

  unfoldable pub switch_connection_if_required : Bool → SplittingPlugin C → W → Switched
  unfolding switch_for_host
  switch_connection_if_required read_only p w =
      let current = s.get_current_connection w in
      let w' = if is_connection_usable s current w then (s.refresh_host_list w).1 else w in
      if is_closed_conn current w
      then (some (other_error "ReadWriteSplittingPlugin.setReadOnlyOnClosedConnection"), p, w)
      else with_hosts read_only (s.get_hosts w') current p w'

  abbrev is_failover_error : AwsError → Bool
  is_failover_error (failover_failed m) = true
  is_failover_error x = is_done x

  module _ {R : Type 0} where
    abbrev pub after_call : SplittingPlugin C → Outcome R × W → Outcome R × SplittingPlugin C × W
    after_call p (done r, w) = (done r, p, w)
    after_call p (failed x, w) =
        let (p', w') = close_idle_connections s p w in
        if is_failover_error x then (failed x, p', w') else (failed x, p, w)

    abbrev pub after_switch : (W → Outcome R × W) → Switched → Outcome R × SplittingPlugin C × W
    after_switch execute_func (some x, p, w) =
        let (p', w') = close_idle_connections s p w in (failed x, p', w')
    after_switch execute_func (none, p, w) = let (r, w') = execute_func w in (r, p, w')

    -- The argument is that of a call of `setReadOnly`, for other calls `none`.
    unfoldable pub execute :
        Option Bool
        → (W → Outcome R × W)
        → SplittingPlugin C
        → W
        → Outcome R × SplittingPlugin C × W
    unfolding switch_connection_if_required close_idle_connections
    execute (some read_only) execute_func p w =
        after_switch execute_func (switch_connection_if_required read_only p w)
    execute none execute_func p w = after_call p (execute_func w)
