-- ===== src/Splitting/Strategy.antt =====
-- `RdsReadWriteSplittingStrategy`: how the plugin gets a new connection.
use aws_advanced_go_wrapper.Base.{ℕ, zero, suc, ◌*◌, List, length, Option, none, some, String}
use aws_advanced_go_wrapper.Host.{HostInfo, reader}
use aws_advanced_go_wrapper.Host.Lists.{get_writer}
use aws_advanced_go_wrapper.Failover.Service.{other_error, Outcome, done, failed, PluginService}

module _ {W C : Type 0} (s : PluginService W C) where
  unfoldable pub with_host : HostInfo → Outcome C × W → Outcome (C × HostInfo) × W
  with_host h (failed e, w) = (failed e, w)
  with_host h (done c, w) = (done (c, h), w)

  unfoldable pub connect_to : Option HostInfo → W → Outcome (C × HostInfo) × W
  unfolding with_host
  connect_to none w = (failed (other_error "ReadWriteSplittingPlugin.noWriterFound"), w)
  connect_to (some h) w = with_host h (s.connect h w)

  unfoldable pub get_writer_connection : List HostInfo → W → Outcome (C × HostInfo) × W
  unfolding connect_to
  get_writer_connection hosts w = connect_to (get_writer hosts) w

  -- A selector that answers without an error gives a host: no host counts as a failed attempt.
  unfoldable pub attempt : Outcome (Option HostInfo) × W → Outcome (C × HostInfo) × W
  unfolding with_host
  attempt (failed e, w) = (failed e, w)
  attempt (done none, w) = (failed (other_error "unknown host"), w)
  attempt (done (some h), w) = with_host h (s.connect h w)

  abbrev pub or_again :
      (W → Outcome (C × HostInfo) × W) → Outcome (C × HostInfo) × W → Outcome (C × HostInfo) × W
  or_again next (done r, w) = (done r, w)
  or_again next (failed e, w) = next w

  unfoldable pub attempts : ℕ → String → List HostInfo → W → Outcome (C × HostInfo) × W
  unfolding attempt
  attempts zero strategy hosts w =
      (failed (other_error "ReadWriteSplittingPlugin.noReadersAvailable"), w)
  attempts (suc n) strategy hosts w =
      or_again (attempts n strategy hosts)
        (attempt (s.get_host_info_by_strategy reader strategy hosts w))

  unfoldable pub get_reader_connection : String → List HostInfo → W → Outcome (C × HostInfo) × W
  unfolding attempts
  get_reader_connection strategy hosts w = attempts (length hosts * 2) strategy hosts w
