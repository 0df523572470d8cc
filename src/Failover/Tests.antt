-- ===== src/Failover/Tests.antt =====
-- A small cluster whose host "down" takes no connection and whose clock reads every time twice, and runs of failover on it.
use aws_advanced_go_wrapper.Base.{
  ℕ, suc, ◌+◌, ◌*◌, ◌/◌, tally, ◌≡◌, refl, Bool, true, false, List, [], ◌∷◌, Option, none, some,
  String, In, ◌==◌, string_comparable, if◌then◌else◌, arith,
}
use aws_advanced_go_wrapper.Host.{HostInfo, reader, writer, equals}
use aws_advanced_go_wrapper.Host.Lists.{get_writer}
use aws_advanced_go_wrapper.Host.Tests.{reader_host, writer_host}
use aws_advanced_go_wrapper.Failover.Service.{
  AwsError, other_error, is_done, Outcome, done, failed, PluginService, IsHonest, KeepsCurrent,
  KeepsHost, IsClocked, IsLogged,
}
use aws_advanced_go_wrapper.Failover.Plugin.{
  FailoverMode, strict_writer, strict_reader, rds_writer_cluster, FailoverPlugin, Counters,
}
use aws_advanced_go_wrapper.Failover.Writer.{failover_writer}
use aws_advanced_go_wrapper.Failover.Writer.Success.{IsTaken, failover_writer-IsTaken}
use aws_advanced_go_wrapper.Failover.Slice.{shown}
use aws_advanced_go_wrapper.Failover.Reader.Search.{
  Finding, found, first_search, get_reader_failover_connection, drop_remaining,
}
use aws_advanced_go_wrapper.Failover.Reader.Search.Results.{
  handed_over, IsFit, get_reader_failover_connection-IsSettled,
}
use aws_advanced_go_wrapper.Failover.Reader.Search.Loss.{round_start, drop_remaining-shown}
use aws_advanced_go_wrapper.Failover.Handler.{
  deal_with_error, execute, should_error_trigger_connection_switch, invalidate_current_connection,
}
use aws_advanced_go_wrapper.Failover.Handler.Takeover.{execute-takes_writer}
use aws_advanced_go_wrapper.Failover.Handler.Sticky.{IsAnswer, deal_with_error-sticky}

pub record World : Type 0 where
  pub time : ℕ
  pub hosts : List HostInfo
  pub current : Option String
  pub current_host : HostInfo
  pub in_transaction : Bool
  pub given : List String
  pub closed : List String

abbrev try_connect : HostInfo → World → Outcome String × World
try_connect h w =
    if h.host == "down"
    then (failed (other_error "refused"), w)
    else (done h.host, record w { given = h.host ∷ w.given })

abbrev first : List HostInfo → Option HostInfo
first [] = none
first (h ∷ hs) = some h

abbrev pub cluster : PluginService World String
cluster = record {
  now = λ w. w.time / 2;
  after_now = λ w. record w { time = suc w.time };
  force_refresh_host_list_with_timeout = λ verify t w. ((true, none), w);
  get_updated_host_list_with_timeout = λ verify t w. (done w.hosts, w);
  refresh_host_list = λ w. (none, w);
  get_all_hosts = λ w. w.hosts;
  get_hosts = λ w. w.hosts;
  get_host_info_by_strategy = λ role strategy hosts w. (done (first hosts), w);
  connect = try_connect;
  get_host_role = λ c w. ((if c == "w" then writer else reader), w);
  set_current_connection = λ c h w. (none, record w { current = some c; current_host = h });
  get_current_connection = λ w. w.current;
  get_current_host_info = λ w. (done w.current_host, w);
  is_in_transaction = λ w. w.in_transaction;
  set_in_transaction = λ b w. record w { in_transaction = b };
  set_availability = λ aliases availability w. w;
  is_network_error = λ e. true;
  rollback = λ c w. w;
  is_closed = λ c w. false;
  close = λ c w. record w { closed = c ∷ w.closed };
  elapsed = λ w. w.time;
  due = λ end. end * 2;
}

cluster-IsHonest : IsHonest cluster
cluster-IsHonest = record {
  set_fails = λ c h w e at. ground arith;
  host_fails = λ w e at. ground arith;
  refresh_fails = λ verify t w e at. ground arith;
}

pub cluster-KeepsCurrent : KeepsCurrent cluster
cluster-KeepsCurrent = record {
  set_connection = λ c h w at. refl;
  ask_host = λ w. refl;
  tell_transaction = λ b w. refl;
}

pub cluster-KeepsHost : KeepsHost cluster
cluster-KeepsHost = record { set_host = λ c h w at. refl }

try_connect-time : (h : HostInfo) (w : World) → w.time ≡ (try_connect h w).1.time
try_connect-time h w = ground arith

cluster-IsClocked : IsClocked cluster
cluster-IsClocked = record {
  ticks = λ w. omega arith;
  reaches = λ end w early. omega arith;
  strategy_time = λ role strategy hosts w. omega arith;
  update_time = λ verify t w. omega arith;
  connect_time = λ h w. omega (arith, try_connect-time h w);
  role_time = λ c w. omega arith;
  close_time = λ c w. omega arith;
}

cluster-IsLogged : IsLogged cluster (λ w. w.given) (λ w. w.closed)
cluster-IsLogged = record {
  clock_given = λ w. refl;
  clock_closed = λ w. refl;
  strategy_given = λ role strategy hosts w. refl;
  strategy_closed = λ role strategy hosts w. refl;
  update_given = λ verify t w. refl;
  update_closed = λ verify t w. refl;
  connect_given = λ h c w at. ground arith;
  connect_not_given = λ h e w at. ground arith;
  connect_closed = λ h w. ground arith;
  role_given = λ c w. refl;
  role_closed = λ c w. refl;
  close_given = λ c w. refl;
  close_closed = λ c w. refl;
}

abbrev no_count : Counters
no_count = record { triggered = 0; success = 0; failure = 0 }

abbrev plugin : FailoverMode → Bool → FailoverPlugin
plugin mode cut = record {
  failover_timeout_ms = 1;
  strategy = "first";
  failover_mode = mode;
  is_in_transaction = cut;
  rds_url_type = rds_writer_cluster;
  last_error_dealt_with = none;
  writer_counters = no_count;
  reader_counters = no_count;
}

abbrev pub start : World
start = record {
  time = 0;
  hosts =
      reader_host "down" "available" 1
      ∷ reader_host "r" "available" 1
      ∷ writer_host "w" "available" 1
      ∷ [];
  current = some "down";
  current_host = reader_host "down" "available" 1;
  in_transaction = false;
  given = [];
  closed = [];
}

writer_done : is_done (failover_writer cluster (plugin strict_writer false) start).0 ≡ true
unfolding failover_writer get_writer
writer_done = refl

failover_writer-IsTaken_example :
    (h : HostInfo) × (c : String) × In h (start.hosts)
    × (h.role ≡ writer)
    × IsTaken cluster h c (failover_writer cluster (plugin strict_writer false) start).2
failover_writer-IsTaken_example =
    failover_writer-IsTaken cluster cluster-IsHonest cluster-KeepsCurrent
      (plugin strict_writer false) start writer_done

-- The first reader takes no connection, the second one does.
reader_found :
    get_reader_failover_connection cluster (plugin strict_reader false) 5 start
    ≡ some (found "r" (reader_host "r" "available" 1), record start { time = 2; given = "r" ∷ [] })
unfolding get_reader_failover_connection first_search
reader_found = refl

get_reader_failover_connection-IsSettled_example :
    (f : Finding String) × (w : World) × (get_reader_failover_connection cluster
        (plugin strict_reader false)
        5
        start
      ≡ some (f, w))
    × ((which : String → Bool)
        → tally which w.given + tally which start.closed
          ≡ tally which (handed_over f) + (tally which start.given + tally which w.closed))
    × IsFit cluster strict_reader f
get_reader_failover_connection-IsSettled_example =
    get_reader_failover_connection-IsSettled cluster (λ w. w.given) (λ w. w.closed)
      cluster-IsClocked cluster-IsLogged (plugin strict_reader false) 5 start

abbrev down : HostInfo
down = reader_host "down" "available" 1

abbrev up : HostInfo
up = reader_host "r" "available" 1

down_is_down : equals down down ≡ true
unfolding equals
down_is_down = refl

-- Of two readers the first fails: the next round starts from the second one, twice.
drop_remaining-shown_example :
    (shown
        (drop_remaining down (round_start (down ∷ up ∷ []) none false)).remaining
        (drop_remaining down (round_start (down ∷ up ∷ []) none false)).array
      ≡ up ∷ [])
    × (shown
          (drop_remaining down (round_start (down ∷ up ∷ []) none false)).candidates
          (drop_remaining down (round_start (down ∷ up ∷ []) none false)).array
        ≡ up ∷ up ∷ [])
drop_remaining-shown_example =
    drop_remaining-shown down down [] (up ∷ []) none false tt down_is_down

abbrev broken : World → Outcome String × World
broken w = (failed (other_error "reset by peer"), w)

abbrev same_error : AwsError → AwsError → Bool
same_error e last = false

-- The old host takes no connection, the writer does.
execute-takes_writer_example :
    (r : AwsError) × (p : FailoverPlugin) × (w : World) × (execute cluster same_error
        "Conn.ExecContext" broken
        (plugin strict_writer false)
        start
      ≡ some (failed r, p, w))
    × (p.writer_counters.triggered ≡ 1)
    × (p.reader_counters ≡ no_count)
    × (is_done r ≡ true
        → (k : HostInfo) × (c : String) × In k start.hosts
          × (k.role ≡ writer)
          × IsTaken cluster k c w)
unfolding should_error_trigger_connection_switch invalidate_current_connection
execute-takes_writer_example =
    execute-takes_writer cluster cluster-IsHonest cluster-KeepsCurrent same_error "Conn.ExecContext"
      broken (other_error "reset by peer") (plugin strict_writer false) start start
      (record start { closed = "down" ∷ [] }) (reader_host "down" "available" 1) refl refl refl refl
      refl refl

deal_with_error-sticky_example :
    (r : AwsError) × (p : FailoverPlugin) × (w : World) × (deal_with_error cluster same_error
        (other_error "reset")
        (plugin strict_writer true)
        start
      ≡ some (r, p, w))
    × IsAnswer 0 r p
    × (p.is_in_transaction ≡ true)
    × (p.last_error_dealt_with ≡ none)
deal_with_error-sticky_example =
    deal_with_error-sticky cluster cluster-IsHonest cluster-IsClocked same_error
      (other_error "reset") (plugin strict_writer true) start refl refl
