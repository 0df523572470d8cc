-- ===== src/Plugins/Manager.antt =====
-- awssql/plugin_helpers/plugin_manager.go: `PluginManagerImpl`, without its telemetry.
use aws_advanced_go_wrapper.Base.{
  Bool, true, false, not, ◌&&◌, ◌||◌, List, [], ◌∷◌, Option, none, some, String, Result, ok, err,
  ◌==◌, string_comparable, if◌then◌else◌,
}
use aws_advanced_go_wrapper.Base.Dict.{Dict, insert, lookup}
use aws_advanced_go_wrapper.Plugins.Chain.{
  Plugin, Exec, PluginChain, no_chain, exec_add_to_head, connect_add_to_head, run_exec, run_connect,
}

abbrev pub all_methods : String
all_methods = "*"

-- `slices.Contains`.
abbrev pub slice_contains : List String → String → Bool
slice_contains [] s = false
slice_contains (t ∷ ts) s = t == s || slice_contains ts s

abbrev pub is_subscribed : {B : Type 0} → Plugin B → String → Bool
is_subscribed plugin name =
    slice_contains plugin.subscribed_methods all_methods
    || slice_contains plugin.subscribed_methods name

-- Whether this is the plugin to skip; nil is none of them. The source compares the pointers, for
-- which the codes stand here: no two plugins of a manager share one.
abbrev pub is_skipped : {B : Type 0} → Option String → Plugin B → Bool
is_skipped none plugin = false
is_skipped (some code) plugin = plugin.plugin_code == code

abbrev pub is_in_chain : {B : Type 0} → String → Option String → Plugin B → Bool
is_in_chain name skip plugin = not (is_skipped skip plugin) && is_subscribed plugin name

abbrev is_this : String → Option String → Bool
is_this connection none = false
is_this connection (some current) = connection == current

-- `CLOSING_METHODS`.
abbrev pub closing_methods : List String
closing_methods = "Conn.Close" ∷ "Conn.IsValid" ∷ "Stmt.Close" ∷ "Rows.Close" ∷ []

pub record PluginManager (B W R C P : Type 0) : Type 0 where
  pub plugins : List (Plugin B)
  pub plugin_func_map : Dict String (PluginChain B W R C P)

module _ {B W R C P : Type 0} where
  -- From the last plugin to the first.
  unfoldable pub make_plugin_chain :
      String → Bool → Option String → List (Plugin B) → PluginChain B W R C P
  unfolding exec_add_to_head connect_add_to_head
  make_plugin_chain name creating_exec_chain skip [] = no_chain
  make_plugin_chain name creating_exec_chain skip (plugin ∷ plugins) =
      let chain = make_plugin_chain name creating_exec_chain skip plugins in
      if is_in_chain name skip plugin
      then (if creating_exec_chain
          then exec_add_to_head plugin chain
          else connect_add_to_head plugin chain)
      else chain

  -- `ComputeIfAbsent` of the map.
  abbrev pub or_computed :
      String
      → PluginChain B W R C P
      → Option (PluginChain B W R C P)
      → Dict String (PluginChain B W R C P)
      → PluginChain B W R C P × Dict String (PluginChain B W R C P)
  or_computed name made none m = (made, insert name made m)
  or_computed name made (some chain) m = (chain, m)

  unfoldable pub get_chain :
      String → Bool → PluginManager B W R C P → PluginChain B W R C P × PluginManager B W R C P
  unfolding make_plugin_chain
  get_chain name creating_exec_chain m =
      let (chain, map) =
        or_computed name (make_plugin_chain name creating_exec_chain none m.plugins)
          (lookup name m.plugin_func_map) m.plugin_func_map in
      (chain, record m { plugin_func_map = map })

  unfoldable pub execute_with_subscribed_plugins :
      String
      → (Plugin B → Exec W R → Exec W R)
      → Exec W R
      → PluginManager B W R C P
      → W
      → (Result R × W) × PluginManager B W R C P
  unfolding get_chain
  execute_with_subscribed_plugins name plugin_func target_func m w =
      let (chain, m') = get_chain name true m in
      (run_exec chain.exec_chain plugin_func target_func w, m')

  -- `connection` is what the call is made on, if it is a connection, and `current` the current one,
  -- both by a name that tells connections apart.
  unfoldable pub execute :
      Option String
      → Option String
      → String
      → (Plugin B → Exec W R → Exec W R)
      → Exec W R
      → PluginManager B W R C P
      → W
      → (Result R × W) × PluginManager B W R C P
  unfolding execute_with_subscribed_plugins
  execute none current name plugin_func target_func m w =
      execute_with_subscribed_plugins name plugin_func target_func m w
  execute (some connection) current name plugin_func target_func m w =
      if not (is_this connection current) && not (slice_contains closing_methods name)
      then ((err "PluginManagerImpl.invokedAgainstOldConnection", w), m)
      else execute_with_subscribed_plugins name plugin_func target_func m w

  unfoldable pub connect_chain_of :
      String
      → Option String
      → PluginManager B W R C P
      → PluginChain B W R C P × PluginManager B W R C P
  unfolding get_chain
  connect_chain_of name none m = get_chain name false m
  connect_chain_of name (some skip) m = (make_plugin_chain name false (some skip) m.plugins, m)

  unfoldable pub connect_with_subscribed_plugins :
      String
      → (Plugin B → P → (P → Exec W C) → Exec W C)
      → (P → Exec W C)
      → P
      → Option String
      → PluginManager B W R C P
      → W
      → (Result C × W) × PluginManager B W R C P
  unfolding connect_chain_of
  connect_with_subscribed_plugins name plugin_func target_func props skip m w =
      let (chain, m') = connect_chain_of name skip m in
      (run_connect chain.connect_chain plugin_func props target_func w, m')

-- What the manager asks of a plugin outside the chains. An error is `err`; a nil host is `none`.
unfoldable pub accepts_strategy :
    {B : Type 0} → (Plugin B → String → Bool) → String → List (Plugin B) → Bool
accepts_strategy accepts strategy [] = false
accepts_strategy accepts strategy (plugin ∷ plugins) =
    is_subscribed plugin strategy && accepts plugin strategy
    || accepts_strategy accepts strategy plugins

abbrev unless_error : {W : Type 0} → Option String × W → (W → Option String × W) → Option String × W
unless_error (some e, w) rest = (some e, w)
unless_error (none, w) rest = rest w

-- The first error ends the loop.
unfoldable pub notify_subscribed_plugins :
    {B W : Type 0}
    → String
    → (Plugin B → W → Option String × W)
    → Option String
    → List (Plugin B)
    → W
    → Option String × W
notify_subscribed_plugins name plugin_func skip [] w = (none, w)
notify_subscribed_plugins name plugin_func skip (plugin ∷ plugins) w =
    let rest = notify_subscribed_plugins name plugin_func skip plugins in
    if is_in_chain name skip plugin then unless_error (plugin_func plugin w) rest else rest w

abbrev or_unsupported : {H : Type 0} → Option String → Result H
or_unsupported none = err "PluginManagerImpl.unsupportedHostSelectionStrategy"
or_unsupported (some e) = err e

abbrev after_answer : {H : Type 0} → Result H → (Option String → Result H) → Result H
after_answer (ok h) rest = ok h
after_answer (err e) rest = rest (some e)

-- `GetHostInfoByStrategy` and `GetHostSelectorStrategy`, which differ in the method they look for
-- and in the question they ask: the first answer without an error, else the last error.
module _ {B H : Type 0} where
  unfoldable pub first_answer :
      String → (Plugin B → Result H) → List (Plugin B) → Option String → Result H
  first_answer name ask [] last = or_unsupported last
  first_answer name ask (plugin ∷ plugins) last =
      let rest = first_answer name ask plugins in
      if is_subscribed plugin name then after_answer (ask plugin) rest else rest last

  unfoldable pub get_host_info_by_strategy : (Plugin B → Result H) → List (Plugin B) → Result H
  unfolding first_answer
  get_host_info_by_strategy ask plugins = first_answer "getHostInfoByStrategy" ask plugins none

  unfoldable pub get_host_selector_strategy : (Plugin B → Result H) → List (Plugin B) → Result H
  unfolding first_answer
  get_host_selector_strategy ask plugins = first_answer "getHostSelectorStrategy" ask plugins none

unfoldable pub is_plugin_in_use : {B : Type 0} → String → List (Plugin B) → Bool
is_plugin_in_use code [] = false
is_plugin_in_use code (plugin ∷ plugins) =
    plugin.plugin_code == code || is_plugin_in_use code plugins

unfoldable pub unwrap_plugin : {B : Type 0} → String → List (Plugin B) → Option (Plugin B)
unwrap_plugin code [] = none
unwrap_plugin code (plugin ∷ plugins) =
    if plugin.plugin_code == code then some plugin else unwrap_plugin code plugins
