-- ===== src/Plugins/Chain.antt =====
-- awssql/plugin_helpers/plugin_manager.go: `PluginChain`. The functions of a chain work on a state `W`;
-- `R` is what a call returns, `C` a connection and `P` the properties of a connect.
use aws_advanced_go_wrapper.Base.{Option, none, some, List, String, Result, err}

-- What the chains need of a plugin, beside what it does: its code, by which the model tells plugins
-- apart, and the methods that it subscribes to.
pub record Plugin (B : Type 0) : Type 0 where
  pub plugin_code : String
  pub subscribed_methods : List String
  pub behaviour : B

abbrev pub Exec : Type 0 → Type 0 → Type 0
Exec W R = W → Result R × W

-- Given how a call goes through one plugin, and the call itself.
abbrev pub ExecPipe : Type 0 → Type 0 → Type 0 → Type 0
ExecPipe B W R = (Plugin B → Exec W R → Exec W R) → Exec W R → Exec W R

abbrev pub ConnectPipe : Type 0 → Type 0 → Type 0 → Type 0 → Type 0
ConnectPipe B W C P = (Plugin B → P → (P → Exec W C) → Exec W C) → P → (P → Exec W C) → Exec W C

-- `none` where the source has nil.
pub record PluginChain (B W R C P : Type 0) : Type 0 where
  pub exec_chain : Option (ExecPipe B W R)
  pub connect_chain : Option (ConnectPipe B W C P)

abbrev pub head_exec : {B W R : Type 0} → Plugin B → Option (ExecPipe B W R) → ExecPipe B W R
head_exec plugin none plugin_func exec_func = plugin_func plugin exec_func
head_exec plugin (some so_far) plugin_func exec_func =
    plugin_func plugin (so_far plugin_func exec_func)

abbrev pub head_connect :
    {B W C P : Type 0} → Plugin B → Option (ConnectPipe B W C P) → ConnectPipe B W C P
head_connect plugin none plugin_func props connect_func = plugin_func plugin props connect_func
head_connect plugin (some so_far) plugin_func props connect_func =
    plugin_func plugin props (λ props. so_far plugin_func props connect_func)

module _ {B W R C P : Type 0} where
  abbrev pub no_chain : PluginChain B W R C P
  no_chain = record { exec_chain = none; connect_chain = none }

  unfoldable pub exec_add_to_head : Plugin B → PluginChain B W R C P → PluginChain B W R C P
  exec_add_to_head plugin chain = record chain {
    exec_chain = some (head_exec plugin chain.exec_chain);
  }

  unfoldable pub connect_add_to_head : Plugin B → PluginChain B W R C P → PluginChain B W R C P
  connect_add_to_head plugin chain = record chain {
    connect_chain = some (head_connect plugin chain.connect_chain);
  }

abbrev pub run_exec : {B W R : Type 0} → Option (ExecPipe B W R) → ExecPipe B W R
run_exec none plugin_func exec_func w = (err "PluginManager.pipelineNone", w)
run_exec (some chain) plugin_func exec_func w = chain plugin_func exec_func w

abbrev pub run_connect : {B W C P : Type 0} → Option (ConnectPipe B W C P) → ConnectPipe B W C P
run_connect none plugin_func props connect_func w = (err "PluginManager.pipelineNone", w)
run_connect (some chain) plugin_func props connect_func w = chain plugin_func props connect_func w
