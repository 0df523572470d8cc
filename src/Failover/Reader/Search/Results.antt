-- ===== src/Failover/Reader/Search/Results.antt =====
-- What the search for a reader finds, and the connections that it opens on the way.
use aws_advanced_go_wrapper.Base.{
  ℕ, zero, suc, ◌+◌, ◌≡◌, refl, ap, true, false, Bool, [], ◌∷◌, tally, Option, none, some, is_some,
  String, List, string_comparable, arith, if-given, if-cases, ltb, nat_beq, ◌||◌, ◌&&◌,
}
use aws_advanced_go_wrapper.Host.{HostInfo, reader, make_copy_with_role}
use aws_advanced_go_wrapper.Failover.Service.{
  Outcome, done, failed, PluginService, IsClocked, IsLogged,
}
use aws_advanced_go_wrapper.Failover.Slice.{shown}
use aws_advanced_go_wrapper.Failover.Plugin.{FailoverMode, FailoverPlugin}
use aws_advanced_go_wrapper.Failover.Reader.Search.Ends.{get_reader_failover_connection-ends}
use aws_advanced_go_wrapper.Failover.Reader.Search.{
  Search, first_search, Place, readers_turn, writers_turn, time_check, Next, go_on, stop, Finding,
  found, gave_up, rounds, is_acceptable, is_unsupported, is_strict_reader, refresh_timeout_ms,
  judge_reader, use_reader, with_update, picked, judge_writer, use_writer, turn_of_writer, step,
  run, follow, get_reader_failover_connection,
}

-- The connection that a finding hands over.
abbrev pub handed_over : {C : Type 0} → Finding C → List C
handed_over (found c h) = c ∷ []
handed_over (gave_up e) = []

module _ {W C : Type 0} (s : PluginService W C) where
  -- The role of the host is what the connection answered when it was asked, and it will do.
  abbrev pub IsFit : FailoverMode → Finding C → Type 0
  IsFit mode (found c h) =
      (is_acceptable mode h.role ≡ true) × ((v : W) × ((s.get_host_role c v).0 ≡ h.role))
  IsFit mode (gave_up e) = Unit

module _ {W C : Type 0} (s : PluginService W C) {given closed : W → List C}
    (logged : IsLogged s given closed) (which : C → Bool) (mode : FailoverMode) (u : W) where
  -- Among the connections that `which` tells, those given since the start are those closed and these.
  abbrev Balance : List C → W → Type 0
  Balance held w =
      tally which (given w) + tally which (closed u)
      ≡ tally which held + (tally which (given u) + tally which (closed w))

  abbrev Settles : Next W C → Type 0
  Settles (stop f w) = Balance (handed_over f) w × IsFit s mode f
  Settles (go_on at q w) = Balance [] w

  judge_reader-Settles :
      (h : HostInfo) (q : Search) (c : C) (v : W) (role : String) (w : W)
      → (s.get_host_role c v).0 ≡ role
      → Balance (c ∷ []) w
      → Settles (judge_reader s mode h q c (role, w))
  unfolding judge_reader make_copy_with_role
  judge_reader-Settles h q c v role w e b =
      if-given Settles (is_acceptable mode role) (λ fit. (b, (fit, (v, e))))
        (λ unfit. omega (
          arith,
          ap (tally which) (logged.close_given c w),
          ap (tally which) (logged.close_closed c w),
        ))

  -- After a connect: one more connection if there was no error.
  abbrev Connected : Outcome C → W → Type 0
  Connected (failed e) w = Balance [] w
  Connected (done c) w = Balance (c ∷ []) w

  connect-Connected_of :
      (h : HostInfo) (w : W) (o : Outcome C)
      → (s.connect h w).0 ≡ o
      → Balance [] w
      → Connected o (s.connect h w).1
  connect-Connected_of h w (failed e) at b = omega (
    arith,
    ap (tally which) (logged.connect_not_given h e w at),
    ap (tally which) (logged.connect_closed h w),
  )
  connect-Connected_of h w (done c) at b = omega (
    arith,
    ap (tally which) (logged.connect_given h c w at),
    ap (tally which) (logged.connect_closed h w),
  )

  connect-Connected :
      (h : HostInfo) (w : W) → Balance [] w → Connected (s.connect h w).0 (s.connect h w).1
  connect-Connected h w b = connect-Connected_of h w (s.connect h w).0 refl b

  role-Balance : (c : C) (w : W) → Balance (c ∷ []) w → Balance (c ∷ []) (s.get_host_role c w).1
  role-Balance c w b =
      omega
        (arith, ap (tally which) (logged.role_given c w), ap (tally which) (logged.role_closed c w))

  clock-Balance : (w : W) → Balance [] w → Balance [] (s.after_now w)
  clock-Balance w b =
      omega
        (arith, ap (tally which) (logged.clock_given w), ap (tally which) (logged.clock_closed w))

  use_reader-Settles :
      (h : HostInfo) (q : Search) (o : Outcome C) (w : W)
      → Connected o w
      → Settles (use_reader s mode h q (o, w))
  unfolding use_reader
  use_reader-Settles h q (failed e) w b = b
  use_reader-Settles h q (done c) w b =
      judge_reader-Settles h q c w (s.get_host_role c w).0 (s.get_host_role c w).1 refl
        (role-Balance c w b)

  with_update-Settles :
      (q : Search) (o : Outcome (List HostInfo)) (w : W)
      → Balance [] w
      → Settles (with_update s q (o, w))
  unfolding with_update
  with_update-Settles q (failed e) w b = b
  with_update-Settles q (done hosts) w b = b

  picked-Settles :
      (q : Search) (o : Outcome (Option HostInfo)) (w : W)
      → Balance [] w
      → Settles (picked s mode q (o, w))
  unfolding picked
  picked-Settles q (done none) w b = b
  picked-Settles q (done (some h)) w b =
      use_reader-Settles h q (s.connect h w).0 (s.connect h w).1 (connect-Connected h w b)
  picked-Settles q (failed e) w b =
      let updated = s.get_updated_host_list_with_timeout false refresh_timeout_ms w in
      if-cases Settles (is_unsupported e) (b, tt)
        (with_update-Settles q updated.0 updated.1 (
          omega (
            arith,
            ap (tally which) (logged.update_given false refresh_timeout_ms w),
            ap (tally which) (logged.update_closed false refresh_timeout_ms w),
          )))

  judge_writer-Settles :
      (h : HostInfo) (q : Search) (c : C) (v : W) (role : String) (w : W)
      → (s.get_host_role c v).0 ≡ role
      → Balance (c ∷ []) w
      → Settles (judge_writer s mode h q c (role, w))
  unfolding judge_writer make_copy_with_role
  judge_writer-Settles h q c v role w e b =
      if-given Settles (is_acceptable mode role) (λ fit. (b, (fit, (v, e))))
        (λ unfit. omega (
          arith,
          ap (tally which) (logged.close_given c w),
          ap (tally which) (logged.close_closed c w),
        ))

  use_writer-Settles :
      (h : HostInfo) (q : Search) (o : Outcome C) (w : W)
      → Connected o w
      → Settles (use_writer s mode h q (o, w))
  unfolding use_writer
  use_writer-Settles h q (failed e) w b = b
  use_writer-Settles h q (done c) w b =
      judge_writer-Settles h q c w (s.get_host_role c w).0 (s.get_host_role c w).1 refl
        (role-Balance c w b)

  turn_of_writer-Settles :
      (end : ℕ) (o : Option HostInfo) (q : Search) (w : W)
      → Balance [] w
      → Settles (turn_of_writer s mode end o q w)
  unfolding turn_of_writer
  turn_of_writer-Settles end none q w b = b
  turn_of_writer-Settles end (some h) q w b =
      let w' = s.after_now w in
      let b' = clock-Balance w b in
      if-cases Settles (ltb end (s.now w) || (is_strict_reader mode && q.is_still_writer)) b'
        (use_writer-Settles h q (s.connect h w').0 (s.connect h w').1 (connect-Connected h w' b'))

module _ {W C : Type 0} (s : PluginService W C) {given closed : W → List C}
    (logged : IsLogged s given closed) (which : C → Bool) (p : FailoverPlugin) (end : ℕ)
    (u : W) where
  step-Settles :
      (at : Place) (q : Search) (w : W)
      → Balance s logged which p.failover_mode u [] w
      → Settles s logged which p.failover_mode u (step s p end at q w)
  unfolding step
  step-Settles writers_turn q w b =
      turn_of_writer-Settles s logged which p.failover_mode u end q.original_writer q w b
  step-Settles time_check q w b =
      let b' = clock-Balance s logged which p.failover_mode u w b in
      if-cases (Settles s logged which p.failover_mode u) (ltb (s.now w) end) b' (b', tt)
  step-Settles readers_turn q w b =
      let w' = s.after_now w in
      let b' = clock-Balance s logged which p.failover_mode u w b in
      let asked = s.get_host_info_by_strategy reader p.strategy (shown q.remaining q.array) w' in
      if-cases (Settles s logged which p.failover_mode u) (nat_beq q.remaining 0) b (
        if-cases (Settles s logged which p.failover_mode u) (ltb (s.now w) end)
          (picked-Settles s logged which p.failover_mode u q asked.0 asked.1 (
            omega (
              arith,
              ap (tally which)
                  (logged.strategy_given reader p.strategy (shown q.remaining q.array) w'),
              ap (tally which)
                  (logged.strategy_closed reader p.strategy (shown q.remaining q.array) w'),
            )))
          b')

  abbrev IsSettled : Option (Finding C × W) → Type 0
  IsSettled none = Unit
  IsSettled (some (f, w)) =
      Balance s logged which p.failover_mode u (handed_over f) w × IsFit s p.failover_mode f

  follow-IsSettled :
      (rest : Place → Search → W → Option (Finding C × W))
      → ((at : Place) (q : Search) (w : W)
          → Balance s logged which p.failover_mode u [] w
          → IsSettled (rest at q w))
      → (x : Next W C) → Settles s logged which p.failover_mode u x
      → IsSettled (follow rest x)
  follow-IsSettled rest settled (stop f w) b = b
  follow-IsSettled rest settled (go_on at q w) b = settled at q w b

  run-IsSettled :
      (fuel : ℕ) (at : Place) (q : Search) (w : W)
      → Balance s logged which p.failover_mode u [] w
      → IsSettled (run s fuel p end at q w)
  unfolding run
  run-IsSettled zero at q w b = tt
  run-IsSettled (suc fuel) at q w b =
      follow-IsSettled (run s fuel p end) (run-IsSettled fuel) (step s p end at q w)
        (step-Settles at q w b)

settled_some :
    {W C : Type 0} (s : PluginService W C) {given closed : W → List C}
    (logged : IsLogged s given closed) (p : FailoverPlugin) (end : ℕ) (u : W)
    (o : Option (Finding C × W))
    → is_some o ≡ true
    → ((which : C → Bool) → IsSettled s logged which p end u o)
    → (f : Finding C) × (w : W) × (o ≡ some (f, w))
      × ((which : C → Bool)
          → tally which (given w) + tally which (closed u)
            ≡ tally which (handed_over f) + (tally which (given u) + tally which (closed w)))
      × IsFit s p.failover_mode f
settled_some s logged p end u none ended b = ground arith
settled_some s logged p end u (some (f, w)) ended b =
    (f, w, refl, λ which. (b which).0, (b (λ c. true)).1)

-- The search for a reader ends, where some time passes between two readings of the clock, which may
-- be coarse but reads a deadline once enough time has passed. If it gives a connection, the role of
-- the host beside it is what the connection answered when asked, and that is a reader's unless the
-- mode is not the strict reader's. Where every connect that succeeds and every close is logged, and
-- no other call of the search opens or closes a connection: the connections that it was given are
-- those that it has closed and the one that it gives back, each as often, since for whatever test
-- as many of the ones given pass it as of the others.
pub get_reader_failover_connection-IsSettled :
    {W C : Type 0} (s : PluginService W C) (given closed : W → List C)
    → IsClocked s
    → IsLogged s given closed
    → (p : FailoverPlugin) (end : ℕ) (w : W)
    → (f : Finding C) × (w' : W) × (get_reader_failover_connection s p end w ≡ some (f, w'))
      × ((which : C → Bool)
          → tally which (given w') + tally which (closed w)
            ≡ tally which (handed_over f) + (tally which (given w) + tally which (closed w')))
      × IsFit s p.failover_mode f
unfolding get_reader_failover_connection
get_reader_failover_connection-IsSettled s given closed clocked logged p end w =
    settled_some s logged p end w (get_reader_failover_connection s p end w)
      (get_reader_failover_connection-ends s clocked end p w)
      (λ which.
        run-IsSettled s logged which p end w (rounds s end w) readers_turn
          (first_search (s.get_hosts w)) w (omega arith))
