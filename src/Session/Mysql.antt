-- ===== src/Session/Mysql.antt =====
-- awssql/driver_infrastructure/mysql_database_dialects.go: the queries for the session settings.
use Prim.Native.String.{◌++◌}
use aws_advanced_go_wrapper.Base.{String, Bool, not, Result, ok, err, nat_beq, if◌then◌else◌}
use aws_advanced_go_wrapper.Session.State.{TransactionIsolationLevel}
use aws_advanced_go_wrapper.Session.Apply.{Dialect}

unfoldable pub get_set_auto_commit_query : Bool → Result String
get_set_auto_commit_query auto_commit =
    ok ("set autocommit=" ++ (if auto_commit then "true" else "false"))

unfoldable pub get_set_read_only_query : Bool → Result String
get_set_read_only_query read_only =
    ok ("set session transaction read " ++ (if not read_only then "write" else "only"))

unfoldable pub get_set_catalog_query : String → Result String
get_set_catalog_query catalog = ok ("use " ++ catalog)

-- The error's text, with the type of the dialect left out.
unfoldable pub get_set_schema_query : String → Result String
get_set_schema_query schema = err "AwsWrapper.unsupportedMethodError"

isolation_level : String → Result String
isolation_level level = ok ("set session transaction isolation level " ++ level)

unfoldable pub get_set_transaction_isolation_query : TransactionIsolationLevel → Result String
unfolding isolation_level
get_set_transaction_isolation_query level =
    if nat_beq level 0
    then isolation_level "READ UNCOMMITTED"
    else if nat_beq level 1
    then isolation_level "READ COMMITTED"
    else if nat_beq level 2
    then isolation_level "REPEATABLE READ"
    else if nat_beq level 3
    then isolation_level "SERIALIZABLE"
    else err "DatabaseDialect.invalidTransactionIsolationLevel"

abbrev pub mysql_dialect : Dialect
mysql_dialect = record {
  get_set_auto_commit_query = get_set_auto_commit_query;
  get_set_read_only_query = get_set_read_only_query;
  get_set_catalog_query = get_set_catalog_query;
  get_set_schema_query = get_set_schema_query;
  get_set_transaction_isolation_query = get_set_transaction_isolation_query;
}
