-- ===== src/Session/Tests.antt =====
-- Runs of the session state service, over the MySQL dialect and a driver that logs its queries.
use aws_advanced_go_wrapper.Base.{String, ◌≡◌, refl, true, false, List, [], ◌∷◌, ◌++◌, none, some}
use aws_advanced_go_wrapper.Session.State.{empty_state}
use aws_advanced_go_wrapper.Session.Service.{Service, new}
use aws_advanced_go_wrapper.Session.Apply.{
  Driver, apply_current_session_state, apply_pristine_session_state,
}
use aws_advanced_go_wrapper.Session.Mysql.{
  mysql_dialect, get_set_auto_commit_query, get_set_catalog_query,
}
use aws_advanced_go_wrapper.Session.Apply.Queries.{queries, all_settled, run_queries}
use aws_advanced_go_wrapper.Session.Apply.Transfer.{apply_current-queries, apply_current_settles}
use aws_advanced_go_wrapper.Session.Apply.Pristine.{Call, run, apply_pristine_restores_nothing}

abbrev pub logging : Driver
logging = record {
  Conn = List String;
  exec = λ query log. (none, log ++ query ∷ []);
  transfer_func = none;
  reset_func = none;
}

-- A service on which autocommit was turned off and a database chosen.
abbrev pub changed : Service
changed = record {
  session_state = record empty_state {
    auto_commit = record { value = some false; pristine_value = some true };
    catalog = record { value = some "shop"; pristine_value = none };
  };
  copy_session_state = none;
  transfer_enabled = true;
  reset_enabled = true;
}

apply_current-queries_example :
    let r = apply_current_session_state mysql_dialect logging changed [] in
    (r.0, r.2) ≡ run_queries mysql_dialect logging (queries mysql_dialect changed.session_state) []
apply_current-queries_example = apply_current-queries mysql_dialect logging changed [] refl refl

apply_current_log :
    (apply_current_session_state mysql_dialect logging changed []).2
    ≡ "set autocommit=false" ∷ "use shop" ∷ []
unfolding apply_current_session_state get_set_auto_commit_query get_set_catalog_query
apply_current_log = refl

apply_current_settles_example :
    (apply_current_session_state mysql_dialect logging changed []).1
    ≡ record changed { session_state = all_settled changed.session_state }
unfolding apply_current_session_state get_set_auto_commit_query get_set_catalog_query
apply_current_settles_example =
    apply_current_settles mysql_dialect logging changed [] refl refl refl

abbrev history : List Call
history =
    Call.setups_read_only_with_val false
    ∷ Call.sets_read_only true
    ∷ Call.begins
    ∷ Call.applies mysql_dialect logging []
    ∷ []

apply_pristine_restores_nothing_example :
    apply_pristine_session_state mysql_dialect logging (run history (new true true)) []
    ≡ (none, run history (new true true), [])
apply_pristine_restores_nothing_example =
    apply_pristine_restores_nothing mysql_dialect logging true true history [] refl
