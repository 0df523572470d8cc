-- ===== src/Failover/Reader/Search/Ends.antt =====
-- The search for a reader ends by its deadline.
use aws_advanced_go_wrapper.Base.{
  ℕ, zero, suc, ◌+◌, ◌*◌, ◌-◌, ◌≤◌, ◌<◌, ◌≡◌, refl, true, false, Option, none, some, is_some,
  String, List, string_comparable, arith, if-given, if-cases, ltb, ltb→lt, nat_beq, ◌||◌, ◌&&◌,
}
use aws_advanced_go_wrapper.Host.{HostInfo, reader}
use aws_advanced_go_wrapper.Failover.Service.{Outcome, done, failed, PluginService, IsClocked}
use aws_advanced_go_wrapper.Failover.Slice.{shown}
use aws_advanced_go_wrapper.Failover.Plugin.{FailoverMode, FailoverPlugin}
use aws_advanced_go_wrapper.Failover.Reader.Search.{
  Search, first_search, Place, readers_turn, writers_turn, time_check, Next, go_on, stop, Finding,
  is_acceptable, is_unsupported, is_strict_reader, refresh_timeout_ms, judge_reader, use_reader,
  with_update, picked, judge_writer, use_writer, turn_of_writer, step, run, follow, rounds,
  get_reader_failover_connection,
}

-- How many steps are left, at most, when the deadline is that far away.
abbrev need : Place → ℕ → ℕ
need time_check left = 3 * left + 1
need writers_turn left = 3 * left + 2
need readers_turn left = 3 * left + 3

module _ {W C : Type 0} (s : PluginService W C) (clocked : IsClocked s) (end : ℕ) where
  -- A step leaves fewer than that number to do.
  abbrev Within : ℕ → Next W C → Type 0
  Within n (stop f w) = Unit
  Within n (go_on at q w) = need at (s.due end - s.elapsed w) < n

  judge_reader-Within :
      (mode : FailoverMode) (h : HostInfo) (q : Search) (c : C) (role : String) (w : W) (n : ℕ)
      → 3 * (s.due end - s.elapsed w) + 3 < n
      → Within n (judge_reader s mode h q c (role, w))
  unfolding judge_reader
  judge_reader-Within mode h q c role w n le =
      if-cases (Within n) (is_acceptable mode role) tt (omega (arith, clocked.close_time c w))

  use_reader-Within :
      (mode : FailoverMode) (h : HostInfo) (q : Search) (o : Outcome C) (w : W) (n : ℕ)
      → 3 * (s.due end - s.elapsed w) + 3 < n
      → Within n (use_reader s mode h q (o, w))
  unfolding use_reader
  use_reader-Within mode h q (failed e) w n le = le
  use_reader-Within mode h q (done c) w n le =
      judge_reader-Within mode h q c (s.get_host_role c w).0 (s.get_host_role c w).1 n
        (omega (arith, clocked.role_time c w))

  with_update-Within :
      (q : Search) (o : Outcome (List HostInfo)) (w : W) (n : ℕ)
      → 3 * (s.due end - s.elapsed w) + 3 < n
      → Within n (with_update s q (o, w))
  unfolding with_update
  with_update-Within q (failed e) w n le = omega arith
  with_update-Within q (done hosts) w n le = omega arith

  picked-Within :
      (mode : FailoverMode) (q : Search) (o : Outcome (Option HostInfo)) (w : W) (n : ℕ)
      → 3 * (s.due end - s.elapsed w) + 3 < n
      → Within n (picked s mode q (o, w))
  unfolding picked
  picked-Within mode q (done none) w n le = omega arith
  picked-Within mode q (done (some h)) w n le =
      use_reader-Within mode h q (s.connect h w).0 (s.connect h w).1 n
        (omega (arith, clocked.connect_time h w))
  picked-Within mode q (failed e) w n le =
      let updated = s.get_updated_host_list_with_timeout false refresh_timeout_ms w in
      if-cases (Within n) (is_unsupported e) tt (
        with_update-Within q updated.0 updated.1 n
          (omega (arith, clocked.update_time false refresh_timeout_ms w)))

  judge_writer-Within :
      (mode : FailoverMode) (h : HostInfo) (q : Search) (c : C) (role : String) (w : W) (n : ℕ)
      → 3 * (s.due end - s.elapsed w) + 1 < n
      → Within n (judge_writer s mode h q c (role, w))
  unfolding judge_writer
  judge_writer-Within mode h q c role w n le =
      if-cases (Within n) (is_acceptable mode role) tt (omega (arith, clocked.close_time c w))

  use_writer-Within :
      (mode : FailoverMode) (h : HostInfo) (q : Search) (o : Outcome C) (w : W) (n : ℕ)
      → 3 * (s.due end - s.elapsed w) + 1 < n
      → Within n (use_writer s mode h q (o, w))
  unfolding use_writer
  use_writer-Within mode h q (failed e) w n le = le
  use_writer-Within mode h q (done c) w n le =
      judge_writer-Within mode h q c (s.get_host_role c w).0 (s.get_host_role c w).1 n
        (omega (arith, clocked.role_time c w))

  turn_of_writer-Within :
      (mode : FailoverMode) (o : Option HostInfo) (q : Search) (w : W) (n : ℕ)
      → 3 * (s.due end - s.elapsed w) + 1 < n
      → Within n (turn_of_writer s mode end o q w)
  unfolding turn_of_writer
  turn_of_writer-Within mode none q w n le = le
  turn_of_writer-Within mode (some h) q w n le =
      let w' = s.after_now w in
      let later = clocked.ticks w in
      if-cases (Within n) (ltb end (s.now w) || (is_strict_reader mode && q.is_still_writer))
        (omega arith)
        (use_writer-Within mode h q (s.connect h w').0 (s.connect h w').1 n
          (omega (arith, clocked.connect_time h w')))

  step-Within :
      (p : FailoverPlugin) (at : Place) (q : Search) (w : W)
      → Within (need at (s.due end - s.elapsed w)) (step s p end at q w)
  unfolding step
  step-Within p writers_turn q w =
      turn_of_writer-Within p.failover_mode q.original_writer q w _ (omega arith)
  step-Within p time_check q w =
      let later = clocked.ticks w in
      if-given (Within (3 * (s.due end - s.elapsed w) + 1)) (ltb (s.now w) end)
        (λ early. let lt = clocked.reaches end w (ltb→lt (s.now w) end early) in omega arith)
        (λ late. tt)
  step-Within p readers_turn q w =
      let w' = s.after_now w in
      let later = clocked.ticks w in
      let n = 3 * (s.due end - s.elapsed w) + 3 in
      let asked = s.get_host_info_by_strategy reader p.strategy (shown q.remaining q.array) w' in
      if-cases (Within n) (nat_beq q.remaining 0) (omega arith) (
        if-given (Within n) (ltb (s.now w) end)
          (λ early.
            let lt = clocked.reaches end w (ltb→lt (s.now w) end early) in
            picked-Within p.failover_mode q asked.0 asked.1 n (
              omega
                (arith, clocked.strategy_time reader p.strategy (shown q.remaining q.array) w')))
          (λ late. omega arith))

  follow-ends :
      (fuel : ℕ) (rest : Place → Search → W → Option (Finding C × W))
      → ((at : Place) (q : Search) (w : W)
          → need at (s.due end - s.elapsed w) ≤ fuel
          → is_some (rest at q w) ≡ true)
      → (n : ℕ) (x : Next W C) → n ≤ suc fuel
      → Within n x
      → is_some (follow rest x) ≡ true
  follow-ends fuel rest ends n (stop f w) le within = refl
  follow-ends fuel rest ends n (go_on at q w) le within = ends at q w (omega arith)

  run-ends :
      (fuel : ℕ) (p : FailoverPlugin) (at : Place) (q : Search) (w : W)
      → need at (s.due end - s.elapsed w) ≤ fuel
      → is_some (run s fuel p end at q w) ≡ true
  unfolding run
  run-ends zero p time_check q w le = ground arith
  run-ends zero p writers_turn q w le = ground arith
  run-ends zero p readers_turn q w le = ground arith
  run-ends (suc fuel) p at q w le =
      follow-ends fuel (run s fuel p end) (run-ends fuel p) (need at (s.due end - s.elapsed w))
        (step s p end at q w) le (step-Within p at q w)

  -- When time passes between two readings of the clock, the search for a reader ends, with a connection or an error, within the rounds that the deadline leaves.
  pub get_reader_failover_connection-ends :
      (p : FailoverPlugin) (w : W) → is_some (get_reader_failover_connection s p end w) ≡ true
  unfolding get_reader_failover_connection rounds
  get_reader_failover_connection-ends p w =
      run-ends (rounds s end w) p readers_turn (first_search (s.get_hosts w)) w (omega arith)
