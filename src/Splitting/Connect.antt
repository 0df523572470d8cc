-- ===== src/Splitting/Connect.antt =====
-- `Connect` of the plugin, which corrects the role of the initial host.
use aws_advanced_go_wrapper.Base.{
  Bool, not, ◌||◌, Option, none, some, String, ◌==◌, string_comparable, if◌then◌else◌,
}
use aws_advanced_go_wrapper.Host.{HostInfo, unknown, make_copy_with_role}
use aws_advanced_go_wrapper.Failover.Service.{other_error, Outcome, done, failed, PluginService}

-- The initial host, where it is there, with the role that the connection answered.
abbrev pub corrected : String → Option HostInfo → Option HostInfo
corrected role none = none
corrected role (some h) = if role == h.role then some h else some (make_copy_with_role role h)

module _ {W C : Type 0} (s : PluginService W C) where
  abbrev pub with_role : C → Option HostInfo → String × W → Outcome C × Option HostInfo × W
  with_role c initial (role, w) =
      if role == unknown
      then (
        failed (other_error "ReadWriteSplittingPlugin.errorVerifyingInitialHostRole"),
        initial,
        w,
      )
      else (done c, corrected role initial, w)

  abbrev pub connected : Bool → Option HostInfo → Outcome C × W → Outcome C × Option HostInfo × W
  connected is_checked initial (failed x, w) = (failed x, initial, w)
  connected is_checked initial (done c, w) =
      if is_checked then with_role c initial (s.get_host_role c w) else (done c, initial, w)

  -- Whether the strategy is accepted, whether this is the initial connection and whether the host
  -- list provider is static are arguments; the result has the initial host.
  unfoldable pub connect :
      Bool
      → Bool
      → Bool
      → (W → Outcome C × W)
      → Option HostInfo
      → W
      → Outcome C × Option HostInfo × W
  unfolding make_copy_with_role
  connect accepts_strategy is_initial is_static connect_func initial w =
      if accepts_strategy
      then connected (not (not is_initial || is_static)) initial (connect_func w)
      else (
        failed (other_error "ReadWriteSplittingPlugin.unsupportedHostSelectorStrategy"),
        initial,
        w,
      )
