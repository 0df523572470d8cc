-- ===== src/Failover/Plugin.antt =====
-- The state of the failover plugin, and what its two ways of failover share.
use aws_advanced_go_wrapper.Base.{
  ℕ, suc, Bool, false, ◌||◌, Option, String, ◌==◌, string_comparable, if◌then◌else◌,
}
use aws_advanced_go_wrapper.Failover.Service.{
  AwsError, failover_success, transaction_resolution_unknown, PluginService,
}

pub data FailoverMode : Type 0 where
  strict_writer : FailoverMode
  strict_reader : FailoverMode
  reader_or_writer : FailoverMode
  mode_unknown : FailoverMode

unfoldable pub failover_mode_from_value : String → FailoverMode
failover_mode_from_value mode =
    if mode == "strict-writer"
    then strict_writer
    else if mode == "strict-reader"
    then strict_reader
    else if mode == "reader-or-writer"
    then reader_or_writer
    else mode_unknown

-- The types of URL, by their names in the source.
pub data RdsUrlType : Type 0 where
  other : RdsUrlType
  rds_writer_cluster : RdsUrlType
  rds_reader_cluster : RdsUrlType
  rds_custom_cluster : RdsUrlType
  rds_proxy : RdsUrlType
  rds_instance : RdsUrlType
  rds_aurora_limitless_db_shard_group : RdsUrlType
  rds_global_writer_cluster : RdsUrlType
  ip_address : RdsUrlType

-- The counters of a kind of failover.
pub record Counters : Type 0 where
  pub triggered : ℕ
  pub success : ℕ
  pub failure : ℕ

-- Without the telemetry but for its counters; `strategy` is the setting of the reader selector.
pub record FailoverPlugin : Type 0 where
  pub failover_timeout_ms : ℕ
  pub strategy : String
  pub failover_mode : FailoverMode
  pub is_in_transaction : Bool
  pub rds_url_type : RdsUrlType
  pub last_error_dealt_with : Option AwsError
  pub writer_counters : Counters
  pub reader_counters : Counters

abbrev pub trigger : Counters → Counters
trigger c = record c { triggered = suc c.triggered }

abbrev pub succeed : Counters → Counters
succeed c = record c { success = suc c.success }

abbrev pub fail : Counters → Counters
fail c = record c { failure = suc c.failure }

module _ {W C : Type 0} (s : PluginService W C) where
  unfoldable pub return_failover_success_error : FailoverPlugin → W → AwsError × W
  return_failover_success_error p w =
      if p.is_in_transaction || s.is_in_transaction w
      then (transaction_resolution_unknown, s.set_in_transaction false w)
      else (failover_success, w)
