-- ===== src/Plugins/Tests.antt =====
-- A manager of three plugins, and a host list of two hosts.
use aws_advanced_go_wrapper.Base.{
  ℕ, ◌≡◌, ◌≢◌, refl, true, false, List, [], ◌∷◌, none, some, String, ok, string_comparable, arith,
  keep,
}
use aws_advanced_go_wrapper.Base.Dict.{lookup, insert}
use aws_advanced_go_wrapper.Host.{HostInfo, get_host_and_port, itoa, available}
use aws_advanced_go_wrapper.Host.Tests.{reader_host, writer_host}
use aws_advanced_go_wrapper.Session.Tests.{logging, changed}
use aws_advanced_go_wrapper.Session.Mysql.{mysql_dialect}
use aws_advanced_go_wrapper.Plugins.Current.{
  CurrentConn, CurrentService, Surroundings, set_current_connection,
}
use aws_advanced_go_wrapper.Plugins.Current.Transfer.{
  transferred, set_current_connection-transferred,
}
use aws_advanced_go_wrapper.Plugins.Chain.{Plugin, Exec}
use aws_advanced_go_wrapper.Plugins.Manager.{
  PluginManager, connect_with_subscribed_plugins, is_in_chain,
}
use aws_advanced_go_wrapper.Plugins.Nesting.{
  nested, IsCurrent, connect_with_subscribed_plugins-nested,
}
use aws_advanced_go_wrapper.Plugins.Hosts.{
  HostService, by_url, host_list_changes, refresh_host_list,
}
use aws_advanced_go_wrapper.Plugins.Hosts.Changes.{told, lookup-host_list_changes}
use aws_advanced_go_wrapper.Plugins.Hosts.Refresh.{refresh_host_list-forgets}

abbrev plugin : String → List String → Plugin String
plugin code methods = record { plugin_code = code; subscribed_methods = methods; behaviour = code }

abbrev plugins : List (Plugin String)
plugins =
    plugin "efm" ("*" ∷ [])
    ∷ plugin "failover" ("Conn.Connect" ∷ [])
    ∷ plugin "time" ("Conn.Ping" ∷ [])
    ∷ plugin "default" ("*" ∷ [])
    ∷ []

abbrev manager : PluginManager String (List String) ℕ String String
manager = record { plugins = plugins; plugin_func_map = [] }

manager-IsCurrent : IsCurrent manager
unfolding lookup
manager-IsCurrent = λ name c e. ground arith

-- Each plugin writes its code into the state before it calls the next.
abbrev through :
    Plugin String → String → (String → Exec (List String) String) → Exec (List String) String
through p props next log = next props (p.plugin_code ∷ log)

abbrev target : String → Exec (List String) String
target props log = (ok props, log)

goes_through :
    (connect_with_subscribed_plugins "Conn.Connect" through target "url"
      (some "failover")
      manager
      []).0
    ≡ (ok "url", "default" ∷ "efm" ∷ [])
unfolding connect_with_subscribed_plugins lookup
goes_through = refl

connect_with_subscribed_plugins-nested_example :
    ((connect_with_subscribed_plugins "Conn.Connect" through target "url"
        (some "failover")
        manager
        []).0
      ≡ nested through target
          (keep (is_in_chain "Conn.Connect" (some "failover")) plugins)
          "url"
          [])
    × IsCurrent
        (connect_with_subscribed_plugins "Conn.Connect" through target "url"
          (some "failover")
          manager
          []).1
connect_with_subscribed_plugins-nested_example =
    connect_with_subscribed_plugins-nested "Conn.Connect" through target "url" (some "failover")
      manager [] manager-IsCurrent refl

abbrev down_host : HostInfo
down_host = reader_host "b" "unavailable" 1

abbrev listed : List HostInfo
listed = writer_host "a" "available" 1 ∷ down_host ∷ []

abbrev provided : List HostInfo
provided = writer_host "a" "available" 1 ∷ reader_host "b" "available" 1 ∷ []

abbrev service : HostService
service = record {
  all_hosts = listed;
  availability_cache = record { cache = []; cleanup_time = 0; default_expiration = 0 };
  notified = [];
}

-- The provider lists the second host as available.
lookup-host_list_changes_example :
    lookup "b:5432" (host_list_changes listed provided)
    ≡ told (lookup "b:5432" (by_url listed [])) (lookup "b:5432" (by_url provided []))
lookup-host_list_changes_example = lookup-host_list_changes "b:5432" listed provided

listed_down : lookup "b:5432" (by_url listed []) ≡ some down_host
unfolding by_url lookup insert get_host_and_port itoa
listed_down = refl

provided_up : lookup "b:5432" (by_url provided []) ≡ some (reader_host "b" "available" 1)
unfolding by_url lookup insert get_host_and_port itoa
provided_up = refl

abbrev down : String
down = "unavailable"

differs : down ≢ available
differs = λ e. ground (arith, string_comparable.eqb_iff down available)

refresh_host_list-forgets_example :
    (refresh_host_list 0 (ok provided) service).1.all_hosts ≡ provided
refresh_host_list-forgets_example =
    refresh_host_list-forgets 0 "b:5432" provided service down_host (reader_host "b" "available" 1)
      listed_down provided_up differs refl

abbrev surroundings : Surroundings (List String)
surroundings = record {
  rollback = λ log. "rollback" ∷ log;
  close = λ log. "close" ∷ log;
  is_closed = λ log. false;
  rollback_on_switch = true;
  preserve = λ changes object_changed. false;
}

abbrev old_conn : CurrentConn (List String)
old_conn = record { id = 1; conn = []; host = down_host }

abbrev new_conn : CurrentConn (List String)
new_conn = record { id = 2; conn = []; host = writer_host "a" "available" 1 }

abbrev connected : CurrentService (List String)
connected = record {
  current = some old_conn;
  initial_host_info = some down_host;
  is_in_transaction = true;
  session_state_service = changed;
  replaced = [];
}

set_current_connection-transferred_example :
    ((set_current_connection mysql_dialect logging surroundings new_conn connected).0
      ≡ (transferred mysql_dialect logging surroundings changed []).0)
    × ((set_current_connection mysql_dialect logging surroundings new_conn connected).1.current
        ≡ some (record new_conn {
          conn = (transferred mysql_dialect logging surroundings changed []).1;
        }))
    × ((set_current_connection mysql_dialect logging surroundings new_conn
          connected).1.session_state_service.copy_session_state
        ≡ none)
set_current_connection-transferred_example =
    set_current_connection-transferred mysql_dialect logging surroundings old_conn new_conn
      connected refl refl refl refl refl
