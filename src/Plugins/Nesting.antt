-- ===== src/Plugins/Nesting.antt =====
-- A chain is the nesting of the subscribed plugins, the first outermost.
use aws_advanced_go_wrapper.Base.{
  ◌≡◌, refl, ap, ◌∙◌, sym, Bool, true, false, List, [], ◌∷◌, Option, none, some, String, err, keep,
  ◌==◌, string_comparable, if-given, if◌then◌else◌, not, ◌||◌,
}
use mathlib.Core.Option.{some-injective}
use aws_advanced_go_wrapper.Base.Dict.{lookup, lookup-insert}
use aws_advanced_go_wrapper.Plugins.Chain.{
  Plugin, Exec, ConnectPipe, PluginChain, head_connect, connect_add_to_head, run_connect,
}
use aws_advanced_go_wrapper.Plugins.Manager.{
  is_in_chain, PluginManager, make_plugin_chain, or_computed, get_chain, connect_chain_of,
  connect_with_subscribed_plugins, execute_with_subscribed_plugins,
}

module _ {B W C P : Type 0} where
  -- The first plugin is called with a function that calls the next one, and so on; the last one is
  -- called with the target.
  abbrev pub around :
      (Plugin B → P → (P → Exec W C) → Exec W C)
      → (P → Exec W C)
      → Plugin B
      → List (Plugin B)
      → P
      → Exec W C
  around plugin_func target plugin [] props = plugin_func plugin props target
  around plugin_func target plugin (next ∷ rest) props =
      plugin_func plugin props (λ props. around plugin_func target next rest props)

  abbrev pub nested :
      (Plugin B → P → (P → Exec W C) → Exec W C) → (P → Exec W C) → List (Plugin B) → P → Exec W C
  nested plugin_func target [] props w = (err "PluginManager.pipelineNone", w)
  nested plugin_func target (plugin ∷ plugins) props w =
      around plugin_func target plugin plugins props w

  abbrev pipe_of : List (Plugin B) → Option (ConnectPipe B W C P)
  pipe_of [] = none
  pipe_of (plugin ∷ plugins) = some (head_connect plugin (pipe_of plugins))

  pipe_of-around :
      (f : Plugin B → P → (P → Exec W C) → Exec W C) (t : P → Exec W C) (p : Plugin B)
      (ps : List (Plugin B)) (props : P)
      → head_connect p (pipe_of ps) f props t ≡ around f t p ps props
  pipe_of-around f t p [] props = refl
  pipe_of-around f t p (q ∷ qs) props = λ i. f p props (λ props'. pipe_of-around f t q qs props' i)

  run_connect-nested :
      (f : Plugin B → P → (P → Exec W C) → Exec W C) (t : P → Exec W C) (ps : List (Plugin B))
      (props : P) (w : W)
      → run_connect (pipe_of ps) f props t w ≡ nested f t ps props w
  run_connect-nested f t [] props w = refl
  run_connect-nested f t (p ∷ ps) props w = λ i. pipe_of-around f t p ps props i w

module _ {B W C P : Type 0} (R : Type 0) where
  abbrev chain_of : List (Plugin B) → PluginChain B W R C P
  chain_of ps = record { exec_chain = none; connect_chain = pipe_of ps }

  added :
      (b : Bool) (p : Plugin B) (chain : PluginChain B W R C P) (ps : List (Plugin B))
      → chain ≡ chain_of ps
      → (if b then connect_add_to_head p chain else chain) ≡ chain_of (if b then p ∷ ps else ps)
  unfolding connect_add_to_head
  added true p chain ps e = ap (λ (c : PluginChain B W R C P). connect_add_to_head p c) e
  added false p chain ps e = e

  make_plugin_chain-chain_of :
      (name : String) (skip : Option String) (ps : List (Plugin B))
      → make_plugin_chain name false skip ps ≡ chain_of (keep (is_in_chain name skip) ps)
  unfolding make_plugin_chain
  make_plugin_chain-chain_of name skip [] = refl
  make_plugin_chain-chain_of name skip (p ∷ ps) =
      added (is_in_chain name skip p) p (make_plugin_chain name false skip ps)
        (keep (is_in_chain name skip) ps) (make_plugin_chain-chain_of name skip ps)

-- The methods of the chains that connect; all others are executed.
abbrev pub is_connect : String → Bool
is_connect name = name == "Conn.Connect" || name == "Conn.ForceConnect"

module _ {B W R C P : Type 0} where
  -- Every chain in the map is the one that would be made now.
  abbrev pub IsCurrent : PluginManager B W R C P → Type 0
  IsCurrent m =
      (name : String) (chain : PluginChain B W R C P)
      → lookup name m.plugin_func_map ≡ some chain
      → chain ≡ make_plugin_chain name (not (is_connect name)) none m.plugins

  looked_up :
      (m : PluginManager B W R C P) (name : String) (made : PluginChain B W R C P)
      (o : Option (PluginChain B W R C P))
      → ((chain : PluginChain B W R C P) → o ≡ some chain → chain ≡ made)
      → (or_computed name made o m.plugin_func_map).0 ≡ made
  looked_up m name made none h = refl
  looked_up m name made (some chain) h = h chain refl

  get_chain-made :
      (name : String) (m : PluginManager B W R C P)
      → IsCurrent m
      → is_connect name ≡ true
      → (get_chain name false m).0 ≡ make_plugin_chain name false none m.plugins
  unfolding get_chain
  get_chain-made name m current e =
      looked_up m name (make_plugin_chain name false none m.plugins) (lookup name m.plugin_func_map)
        (λ chain at.
          current name chain at
          ∙ ap (λ (b : Bool). make_plugin_chain name (not b) none m.plugins) e)

  connect_chain_of-made :
      (name : String) (skip : Option String) (m : PluginManager B W R C P)
      → IsCurrent m
      → is_connect name ≡ true
      → (connect_chain_of name skip m).0 ≡ make_plugin_chain name false skip m.plugins
  unfolding connect_chain_of
  connect_chain_of-made name none m current e = get_chain-made name m current e
  connect_chain_of-made name (some skip) m current e = refl

  inserted :
      (m : PluginManager B W R C P) (name : String) (made : PluginChain B W R C P)
      (o : Option (PluginChain B W R C P))
      → IsCurrent m
      → made ≡ make_plugin_chain name (not (is_connect name)) none m.plugins
      → IsCurrent (record m { plugin_func_map = (or_computed name made o m.plugin_func_map).1 })
  inserted m name made (some c) current h = current
  inserted m name made none current h = λ n c at.
      if-given
        (λ (o : Option (PluginChain B W R C P)).
          o ≡ some c → c ≡ make_plugin_chain n (not (is_connect n)) none m.plugins)
        (name == n)
        (λ same e.
          sym (some-injective _ _ e)
          ∙ h
          ∙ ap (λ (x : String). make_plugin_chain x (not (is_connect x)) none m.plugins)
              ((string_comparable.eqb_iff name n).0 same))
        (λ other e. current n c e) (sym (lookup-insert name n made m.plugin_func_map) ∙ at)

  connect_chain_of-IsCurrent :
      (name : String) (skip : Option String) (m : PluginManager B W R C P)
      → IsCurrent m
      → is_connect name ≡ true
      → IsCurrent (connect_chain_of name skip m).1
  unfolding connect_chain_of get_chain
  connect_chain_of-IsCurrent name none m current e =
      inserted m name (make_plugin_chain name false none m.plugins) (lookup name m.plugin_func_map)
        current (ap (λ (b : Bool). make_plugin_chain name (not b) none m.plugins) (sym e))
  connect_chain_of-IsCurrent name (some skip) m current e = current

  pub execute_with_subscribed_plugins-IsCurrent :
      (name : String) (f : Plugin B → Exec W R → Exec W R) (t : Exec W R)
      (m : PluginManager B W R C P) (w : W)
      → IsCurrent m
      → is_connect name ≡ false
      → IsCurrent (execute_with_subscribed_plugins name f t m w).1
  unfolding execute_with_subscribed_plugins get_chain
  execute_with_subscribed_plugins-IsCurrent name f t m w current e =
      inserted m name (make_plugin_chain name true none m.plugins) (lookup name m.plugin_func_map)
        current (ap (λ (b : Bool). make_plugin_chain name (not b) none m.plugins) (sym e))

  -- When every chain in the map is as it would be made, a connect goes through the plugins that
  -- subscribe to the method or to all methods, in their order and without the one to skip, each
  -- called with a function that calls the next; with no such plugin it is an error. The chains in
  -- the map are then still as they would be made.
  pub connect_with_subscribed_plugins-nested :
      (name : String) (f : Plugin B → P → (P → Exec W C) → Exec W C) (t : P → Exec W C) (props : P)
      (skip : Option String) (m : PluginManager B W R C P) (w : W)
      → IsCurrent m
      → is_connect name ≡ true
      → ((connect_with_subscribed_plugins name f t props skip m w).0
          ≡ nested f t (keep (is_in_chain name skip) m.plugins) props w)
        × IsCurrent (connect_with_subscribed_plugins name f t props skip m w).1
  unfolding connect_with_subscribed_plugins
  connect_with_subscribed_plugins-nested name f t props skip m w current e = (
    ap (λ (chain : PluginChain B W R C P). run_connect chain.connect_chain f props t w)
          (connect_chain_of-made name skip m current e
            ∙ make_plugin_chain-chain_of R name skip m.plugins)
        ∙ run_connect-nested f t (keep (is_in_chain name skip) m.plugins) props w,
    connect_chain_of-IsCurrent name skip m current e,
  )
