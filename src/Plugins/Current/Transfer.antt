-- ===== src/Plugins/Current/Transfer.antt =====
-- What a change of the current connection does to the new one.
use aws_advanced_go_wrapper.Base.{
  ◌≡◌, refl, ap, ◌∙◌, sym, Bool, true, false, not, ◌&&◌, Option, none, some, Error, nat_beq,
  if-cases, if_false, arith, is_some,
}
use mathlib.Core.Path.{subst}
use aws_advanced_go_wrapper.Session.State.{SessionState, copy}
use aws_advanced_go_wrapper.Session.Service.{Service, begin, complete}
use aws_advanced_go_wrapper.Session.Apply.{Dialect, Driver, apply_current_session_state}
use aws_advanced_go_wrapper.Session.Apply.Queries.{queries, run_queries}
use aws_advanced_go_wrapper.Session.Apply.Transfer.{apply_current-queries}
use aws_advanced_go_wrapper.Plugins.Hosts.{Changes, compare_host_infos}
use aws_advanced_go_wrapper.Plugins.Current.{
  CurrentConn, CurrentService, Surroundings, is_empty, close_replaced, leave_replaced,
  release_replaced, after_transfer, after_begin, replace_connection, set_over,
  set_current_connection,
}

and_false : (b c : Bool) → c ≡ true → (b && not c) ≡ false
and_false b c h = ground arith

module _ (dialect : Dialect) (driver : Driver) (around : Surroundings driver.Conn) where
  open driver use {Conn}

  -- The error, the current connection and the copy of the session, when the method returns.
  abbrev IsLeft : Option Error → CurrentConn Conn → Option Error × CurrentService Conn → Type 0
  IsLeft e new r =
      (r.0 ≡ e) × (r.1.current ≡ some new) × (r.1.session_state_service.copy_session_state ≡ none)

  after_transfer-IsLeft :
      (changes : Changes) (b : Bool) (old new : CurrentConn Conn) (s : CurrentService Conn)
      (e : Option Error) (session : Service) (conn : Conn)
      → IsLeft e
          (record new { conn = conn })
          (after_transfer dialect driver around changes b old new s (e, session, conn))
  unfolding after_transfer release_replaced close_replaced leave_replaced complete
  after_transfer-IsLeft changes b old new s (some e) session conn = (refl, refl, refl)
  after_transfer-IsLeft changes b old new s none session conn =
      if-cases (λ (t : CurrentService Conn). IsLeft none (record new { conn = conn }) (none, t)) _
        (refl, refl, refl) (refl, refl, refl)

  abbrev begun : Service → Service
  begun session = record session { copy_session_state = some (copy session.session_state) }

  begin_lem :
      (session : Service)
      → session.transfer_enabled ≡ true
      → session.copy_session_state ≡ none
      → begin session ≡ (none, begun session)
  unfolding begin
  begin_lem session h c =
      if_false (not session.transfer_enabled && not session.reset_enabled) _ _ (ground arith)
      ∙ if_false (is_some session.copy_session_state) _ _
          (ap (λ (o : Option SessionState). is_some o) c)

  -- The queries of the session, run on a connection.
  abbrev pub transferred : Service → Conn → Option Error × Conn
  transferred session conn = run_queries dialect driver (queries dialect session.session_state) conn

  after_begin-IsLeft :
      (changes : Changes) (b : Bool) (old new : CurrentConn Conn) (s : CurrentService Conn)
      (session : Service)
      → session.transfer_enabled ≡ true
      → driver.transfer_func ≡ none
      → IsLeft
          (transferred session new.conn).0
          (record new { conn = (transferred session new.conn).1 })
          (after_begin dialect driver around changes b old new s (none, begun session))
  unfolding after_begin
  after_begin-IsLeft changes b old new s session h f =
      let a = apply_current_session_state dialect driver (begun session) new.conn in
      subst
        (λ (x : Option Error × Conn).
          IsLeft x.0 (record new { conn = x.1 })
            (after_transfer dialect driver around changes b old new s a))
        (apply_current-queries dialect driver (begun session) new.conn h f)
        (after_transfer-IsLeft changes b old new s a.0 a.1 a.2)

  replace_lem :
      (old new : CurrentConn Conn) (s : CurrentService Conn)
      → nat_beq old.id new.id ≡ false
      → s.session_state_service.transfer_enabled ≡ true
      → s.session_state_service.copy_session_state ≡ none
      → replace_connection dialect driver around old new s
        ≡ after_begin dialect driver around
            (compare_host_infos old.host new.host)
            (not (nat_beq old.id new.id))
            old
            new
            s
            (none, begun s.session_state_service)
  unfolding replace_connection
  replace_lem old new s differ h c =
      if_false
        (is_empty (compare_host_infos old.host new.host) && not (not (nat_beq old.id new.id))) _ _
        (and_false (is_empty (compare_host_infos old.host new.host)) (not (nat_beq old.id new.id))
          (ground arith))
      ∙ ap
          (λ (r : Option Error × Service).
            after_begin dialect driver around (compare_host_infos old.host new.host)
              (not (nat_beq old.id new.id)) old new s r)
          (begin_lem s.session_state_service h c)

  -- When another connection is current, the transfer of the session state is enabled with no
  -- function installed for it, and no transfer is under way: the new connection is current
  -- afterwards, with its host, whether or not there is an error. The queries of the session have run
  -- on it up to the first that failed, whose error is the one returned, and the session state has no
  -- copy.
  pub set_current_connection-transferred :
      (old new : CurrentConn Conn) (s : CurrentService Conn)
      → s.current ≡ some old
      → nat_beq old.id new.id ≡ false
      → s.session_state_service.transfer_enabled ≡ true
      → s.session_state_service.copy_session_state ≡ none
      → driver.transfer_func ≡ none
      → ((set_current_connection dialect driver around new s).0
          ≡ (transferred s.session_state_service new.conn).0)
        × ((set_current_connection dialect driver around new s).1.current
            ≡ some (record new { conn = (transferred s.session_state_service new.conn).1 }))
        × ((set_current_connection dialect driver around new
              s).1.session_state_service.copy_session_state
            ≡ none)
  unfolding set_current_connection
  set_current_connection-transferred old new s at differ h c f =
      subst
        (λ (r : Option Error × CurrentService Conn).
          IsLeft (transferred s.session_state_service new.conn).0
            (record new { conn = (transferred s.session_state_service new.conn).1 }) r)
        (sym (
          ap (λ (o : Option (CurrentConn Conn)). set_over dialect driver around o new s) at
          ∙ replace_lem old new s differ h c))
        (after_begin-IsLeft (compare_host_infos old.host new.host) (not (nat_beq old.id new.id)) old
          new s s.session_state_service h f)
