-- ===== src/Failover/Service.antt =====
-- awssql/error_util/errors.go, as far as failover tells errors apart, and the interface
-- `PluginService` of awssql/driver_infrastructure, as far as failover calls it.
use aws_advanced_go_wrapper.Base.{
  ℕ, ◌∷◌, ◌≤◌, ◌<◌, ◌≡◌, Bool, true, false, List, Option, none, some, String,
}
use aws_advanced_go_wrapper.Host.{HostInfo}

pub data AwsError : Type 0 where
  failover_success : AwsError
  failover_failed : String → AwsError
  transaction_resolution_unknown : AwsError
  unsupported_strategy : String → AwsError
  other_error : String → AwsError

abbrev pub message : AwsError → String
message failover_success = "Failover.connectionChangedError"
message (failover_failed m) = m
message transaction_resolution_unknown = "Failover.transactionResolutionUnknownError"
message (unsupported_strategy m) = m
message (other_error m) = m

abbrev pub is_failover_success : AwsError → Bool
is_failover_success failover_success = true
is_failover_success e = false

-- The two errors that tell of a failover that has been done.
abbrev pub is_done : AwsError → Bool
is_done failover_success = true
is_done transaction_resolution_unknown = true
is_done e = false

pub data Outcome {ℓ} (A : Type ℓ) : Type ℓ where
  done : A → Outcome A
  failed : AwsError → Outcome A

-- `W` is the state of everything outside the plugin, `C` the connections of the driver. A call that
-- can change the state gives it back. A connect without an error gives a connection.
pub record PluginService (W C : Type 0) : Type 0 where
  -- What `time.Now()` reads, and the state after the reading.
  pub now : W → ℕ
  pub after_now : W → W
  pub force_refresh_host_list_with_timeout : Bool → ℕ → W → (Bool × Option AwsError) × W
  pub get_updated_host_list_with_timeout : Bool → ℕ → W → Outcome (List HostInfo) × W
  pub refresh_host_list : W → Option AwsError × W
  pub get_all_hosts : W → List HostInfo
  pub get_hosts : W → List HostInfo
  pub get_host_info_by_strategy :
      String → String → List HostInfo → W → Outcome (Option HostInfo) × W
  pub connect : HostInfo → W → Outcome C × W
  pub get_host_role : C → W → String × W
  pub set_current_connection : C → HostInfo → W → Option AwsError × W
  pub get_current_connection : W → Option C
  pub get_current_host_info : W → Outcome HostInfo × W
  pub is_in_transaction : W → Bool
  pub set_in_transaction : Bool → W → W
  pub set_availability : List String → String → W → W
  pub is_network_error : AwsError → Bool
  -- Calls of the driver connection and of its dialect.
  pub rollback : C → W → W
  pub is_closed : C → W → Bool
  pub close : C → W → W
  -- For the fuel of the loops only: the time that has really passed, and how much of it has passed
  -- at most before the clock, which may be coarse, reads the given time.
  pub elapsed : W → ℕ
  pub due : ℕ → ℕ

module _ {W C : Type 0} (s : PluginService W C) where
  -- No error of the service tells of a failover that has been done.
  pub record IsHonest : Type 0 where
    pub set_fails :
        (c : C) (h : HostInfo) (w : W) (e : AwsError)
        → (s.set_current_connection c h w).0 ≡ some e
        → is_done e ≡ false
    pub host_fails :
        (w : W) (e : AwsError) → (s.get_current_host_info w).0 ≡ failed e → is_done e ≡ false
    pub refresh_fails :
        (verify : Bool) (t : ℕ) (w : W) (e : AwsError)
        → (s.force_refresh_host_list_with_timeout verify t w).0.1 ≡ some e
        → is_done e ≡ false

  -- What is set as the current connection is the current connection, and stays it when the host or
  -- the transaction is asked or told.
  pub record KeepsCurrent : Type 0 where
    pub set_connection :
        (c : C) (h : HostInfo) (w : W)
        → (s.set_current_connection c h w).0 ≡ none
        → s.get_current_connection (s.set_current_connection c h w).1 ≡ some c
    pub ask_host :
        (w : W)
        → s.get_current_connection (s.get_current_host_info w).1 ≡ s.get_current_connection w
    pub tell_transaction :
        (b : Bool) (w : W)
        → s.get_current_connection (s.set_in_transaction b w) ≡ s.get_current_connection w

  -- The host that was set with a connection is the current host.
  pub record KeepsHost : Type 0 where
    pub set_host :
        (c : C) (h : HostInfo) (w : W)
        → (s.set_current_connection c h w).0 ≡ none
        → (s.get_current_host_info (s.set_current_connection c h w).1).0 ≡ done h

  -- Some time passes between two readings of the clock and none is taken back by a call; the clock
  -- may read the same twice, but reads a deadline once the share of time before it has passed.
  pub record IsClocked : Type 0 where
    pub ticks : (w : W) → s.elapsed w < s.elapsed (s.after_now w)
    pub reaches : (end : ℕ) (w : W) → s.now w < end → s.elapsed w < s.due end
    pub strategy_time :
        (role strategy : String) (hosts : List HostInfo) (w : W)
        → s.elapsed w ≤ s.elapsed (s.get_host_info_by_strategy role strategy hosts w).1
    pub update_time :
        (verify : Bool) (t : ℕ) (w : W)
        → s.elapsed w ≤ s.elapsed (s.get_updated_host_list_with_timeout verify t w).1
    pub connect_time : (h : HostInfo) (w : W) → s.elapsed w ≤ s.elapsed (s.connect h w).1
    pub role_time : (c : C) (w : W) → s.elapsed w ≤ s.elapsed (s.get_host_role c w).1
    pub close_time : (c : C) (w : W) → s.elapsed w ≤ s.elapsed (s.close c w)

  -- The connections that the plugin was given and those that it has closed, the last one first: a
  -- connect that succeeds gives one, a close closes one, and no other call of the search does either.
  pub record IsLogged (given closed : W → List C) : Type 0 where
    pub clock_given : (w : W) → given (s.after_now w) ≡ given w
    pub clock_closed : (w : W) → closed (s.after_now w) ≡ closed w
    pub strategy_given :
        (role strategy : String) (hosts : List HostInfo) (w : W)
        → given (s.get_host_info_by_strategy role strategy hosts w).1 ≡ given w
    pub strategy_closed :
        (role strategy : String) (hosts : List HostInfo) (w : W)
        → closed (s.get_host_info_by_strategy role strategy hosts w).1 ≡ closed w
    pub update_given :
        (verify : Bool) (t : ℕ) (w : W)
        → given (s.get_updated_host_list_with_timeout verify t w).1 ≡ given w
    pub update_closed :
        (verify : Bool) (t : ℕ) (w : W)
        → closed (s.get_updated_host_list_with_timeout verify t w).1 ≡ closed w
    pub connect_given :
        (h : HostInfo) (c : C) (w : W)
        → (s.connect h w).0 ≡ done c
        → given (s.connect h w).1 ≡ c ∷ given w
    pub connect_not_given :
        (h : HostInfo) (e : AwsError) (w : W)
        → (s.connect h w).0 ≡ failed e
        → given (s.connect h w).1 ≡ given w
    pub connect_closed : (h : HostInfo) (w : W) → closed (s.connect h w).1 ≡ closed w
    pub role_given : (c : C) (w : W) → given (s.get_host_role c w).1 ≡ given w
    pub role_closed : (c : C) (w : W) → closed (s.get_host_role c w).1 ≡ closed w
    pub close_given : (c : C) (w : W) → given (s.close c w) ≡ given w
    pub close_closed : (c : C) (w : W) → closed (s.close c w) ≡ c ∷ closed w
