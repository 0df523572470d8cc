-- ===== src/Splitting/Roles.antt =====
-- The connection that a call of `setReadOnly` with false leaves.
use aws_advanced_go_wrapper.Base.{
  ◌≡◌, ◌⊎◌, true, none, Comparable, string_comparable, if◌then◌else◌,
}
use aws_advanced_go_wrapper.Host.{HostInfo}
use aws_advanced_go_wrapper.Failover.Service.{Outcome, done, PluginService, KeepsCurrent, KeepsHost}
use aws_advanced_go_wrapper.Splitting.{SplittingPlugin, is_writer, is_connection_usable}
use aws_advanced_go_wrapper.Splitting.Switch.{Switched}
use aws_advanced_go_wrapper.Splitting.Writer.{IsOnWriter}

module _ {W C : Type 0} ⦃e : Comparable C⦄ (s : PluginService W C) (keeps : KeepsCurrent s)
    (host : KeepsHost s) where
  -- The service answered that the current host is a writer, with a connection that can be used, and
  -- the result is that answer's state with the plugin as it was.
  abbrev pub UsesCurrent : SplittingPlugin C → Outcome HostInfo × W → Switched s → Type 0
  UsesCurrent p (o, w) r =
      (h : HostInfo) × (o ≡ done h)
      × (is_writer h ≡ true)
      × (is_connection_usable s (s.get_current_connection w) w ≡ true)
      × (r ≡ (none, p, w))

  -- The first answer was a writer already, or the one after it was.
  abbrev pub StaysOnWriter : SplittingPlugin C → Outcome HostInfo × W → Switched s → Type 0
  StaysOnWriter p (o, w) r =
      ((h : HostInfo) × (o ≡ done h) × (is_writer h ≡ true) × (r ≡ (none, p, w)))
      ⊎ UsesCurrent p (s.get_current_host_info w) r

  -- The state after the refresh of the hosts, which is left out where the connection is no good.
  abbrev pub refreshed : W → W
  refreshed w =
      if is_connection_usable s (s.get_current_connection w) w then (s.refresh_host_list w).1 else w

  abbrev IfOr : (Switched s → Type 0) → Switched s → Type 0
  IfOr Stays r = r.0 ≡ none → IsOnWriter s keeps host r.1 r.2 ⊎ Stays r
