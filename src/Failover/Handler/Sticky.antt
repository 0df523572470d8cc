-- ===== src/Failover/Handler/Sticky.antt =====
-- The flag that a failover has cut a transaction off, which no code sets back.
use aws_advanced_go_wrapper.Base.{
  ℕ, suc, ◌+◌, ◌≡◌, ◌⊎◌, inl, inr, refl, Bool, true, false, not, ◌&&◌, Option, none, some, is_some,
  ◌==◌, string_comparable, arith, if-cases,
}
use aws_advanced_go_wrapper.Host.{HostInfo, writer, unavailable}
use aws_advanced_go_wrapper.Host.Lists.{get_writer}
use aws_advanced_go_wrapper.Failover.Service.{
  AwsError, transaction_resolution_unknown, is_done, Outcome, done, failed, PluginService,
  IsClocked, IsHonest,
}
use aws_advanced_go_wrapper.Failover.Plugin.{FailoverPlugin, trigger, return_failover_success_error}
use aws_advanced_go_wrapper.Failover.Writer.{
  announce_writer, take_writer, verify_writer, connect_writer, failover_writer,
}
use aws_advanced_go_wrapper.Failover.Reader.{
  announce_reader, take_reader, with_refresh, after_search, failover_reader,
}
use aws_advanced_go_wrapper.Failover.Reader.Search.{
  Finding, found, gave_up, get_reader_failover_connection,
}
use aws_advanced_go_wrapper.Failover.Handler.{
  is_strict_writer, invalidate, invalidate_current_connection, failover, returned,
  deal_with_failover, deal_with_host, deal_with_error, should_error_trigger_connection_switch,
  is_last,
}
use aws_advanced_go_wrapper.Failover.Handler.Laws.{deal_with_error-ends}

-- How many failovers have succeeded, as the plugin's counters tell.
abbrev pub successes : FailoverPlugin → ℕ
successes p = p.writer_counters.success + p.reader_counters.success

-- The answer reports that the outcome of a transaction is unknown and one more failover has
-- succeeded, or it reports no failover that is done and none has.
abbrev pub IsAnswer : ℕ → AwsError → FailoverPlugin → Type 0
IsAnswer n e p =
    ((e ≡ transaction_resolution_unknown) × (successes p ≡ suc n))
    ⊎ ((is_done e ≡ false) × (successes p ≡ n))

-- The plugin has the flag, and the last error and the successes as given.
abbrev IsCut : Option AwsError → ℕ → FailoverPlugin → Type 0
IsCut last n p = (p.is_in_transaction ≡ true) × (p.last_error_dealt_with ≡ last) × (successes p ≡ n)

abbrev Sticks : {W : Type 0} → Option AwsError → ℕ → AwsError × FailoverPlugin × W → Type 0
Sticks last n (e, p, w) =
    IsAnswer n e p × (p.is_in_transaction ≡ true) × (p.last_error_dealt_with ≡ last)

module _ {W C : Type 0} (s : PluginService W C) (honest : IsHonest s) (last : Option AwsError)
    (n : ℕ) where
  announced :
      (p : FailoverPlugin) (w : W)
      → IsCut last n p
      → (return_failover_success_error s p w).0 ≡ transaction_resolution_unknown
  unfolding return_failover_success_error
  announced p w cut = ground arith

  announce_writer-Sticks :
      (p : FailoverPlugin) (o : Outcome HostInfo) (w : W)
      → ((e : AwsError) → o ≡ failed e → is_done e ≡ false)
      → IsCut last n p
      → Sticks last n (announce_writer s p (o, w))
  unfolding announce_writer
  announce_writer-Sticks p (failed e) w h cut = (inr (h e refl, cut.2), cut.0, cut.1)
  announce_writer-Sticks p (done host) w h cut =
      (inl (announced p w cut, omega (arith, cut.2)), cut.0, cut.1)

  take_writer-Sticks :
      (c : C) (p : FailoverPlugin) (o : Option AwsError) (w : W)
      → ((e : AwsError) → o ≡ some e → is_done e ≡ false)
      → IsCut last n p
      → Sticks last n (take_writer s c p (o, w))
  unfolding take_writer
  take_writer-Sticks c p (some e) w h cut = (inr (h e refl, cut.2), cut.0, cut.1)
  take_writer-Sticks c p none w h cut =
      announce_writer-Sticks p (s.get_current_host_info w).0 (s.get_current_host_info w).1
        (honest.host_fails w) cut

  verify_writer-Sticks :
      (h : HostInfo) (p : FailoverPlugin) (o : Outcome C) (w : W)
      → IsCut last n p
      → Sticks last n (verify_writer s h p (o, w))
  unfolding verify_writer
  verify_writer-Sticks h p (failed e) w cut = (inr (refl, cut.2), cut.0, cut.1)
  verify_writer-Sticks h p (done c) w cut =
      let w' = (s.get_host_role c w).1 in
      let set = s.set_current_connection c h w' in
      if-cases (Sticks last n) ((s.get_host_role c w).0 == writer)
        (take_writer-Sticks c p set.0 set.1 (honest.set_fails c h w') cut)
        (inr (refl, cut.2), cut.0, cut.1)

  connect_writer-Sticks :
      (o : Option HostInfo) (p : FailoverPlugin) (w : W)
      → IsCut last n p
      → Sticks last n (connect_writer s o p w)
  unfolding connect_writer
  connect_writer-Sticks none p w cut = (inr (refl, cut.2), cut.0, cut.1)
  connect_writer-Sticks (some h) p w cut =
      verify_writer-Sticks h p (s.connect h w).0 (s.connect h w).1 cut

  failover_writer-Sticks :
      (p : FailoverPlugin) (w : W) → IsCut last n p → Sticks last n (failover_writer s p w)
  unfolding failover_writer
  failover_writer-Sticks p w cut =
      let refreshed = s.force_refresh_host_list_with_timeout true p.failover_timeout_ms w in
      if-cases (Sticks last n) refreshed.0.0
        (connect_writer-Sticks (get_writer (s.get_all_hosts refreshed.1))
          (record p { writer_counters = trigger p.writer_counters }) refreshed.1 cut)
        (inr (refl, cut.2), cut.0, cut.1)

  announce_reader-Sticks :
      (p : FailoverPlugin) (o : Option AwsError) (w : W)
      → IsCut last n p
      → Sticks last n (announce_reader s p (o, w))
  unfolding announce_reader
  announce_reader-Sticks p (some e) w cut = (inr (refl, cut.2), cut.0, cut.1)
  announce_reader-Sticks p none w cut =
      (inl (announced p w cut, omega (arith, cut.2)), cut.0, cut.1)

  take_reader-Sticks :
      (p : FailoverPlugin) (f : Finding C) (w : W)
      → IsCut last n p
      → Sticks last n (take_reader s p (f, w))
  unfolding take_reader
  take_reader-Sticks p (gave_up e) w cut = (inr (refl, cut.2), cut.0, cut.1)
  take_reader-Sticks p (found c h) w cut =
      let set = s.set_current_connection c h w in announce_reader-Sticks p set.0 set.1 cut

  abbrev SticksIf : Option (AwsError × FailoverPlugin × W) → Type 0
  SticksIf none = Unit
  SticksIf (some r) = Sticks last n r

  after_search-Sticks :
      (p : FailoverPlugin) (o : Option (Finding C × W))
      → IsCut last n p
      → SticksIf (after_search s p o)
  unfolding after_search
  after_search-Sticks p none cut = tt
  after_search-Sticks p (some (f, w)) cut = take_reader-Sticks p f w cut

  with_refresh-Sticks :
      (end : ℕ) (p : FailoverPlugin) (b : Bool) (o : Option AwsError) (w : W)
      → ((e : AwsError) → o ≡ some e → is_done e ≡ false)
      → IsCut last n p
      → SticksIf (with_refresh s end p ((b, o), w))
  unfolding with_refresh
  with_refresh-Sticks end p b (some e) w h cut = (inr (h e refl, cut.2), cut.0, cut.1)
  with_refresh-Sticks end p false none w h cut = (inr (refl, cut.2), cut.0, cut.1)
  with_refresh-Sticks end p true none w h cut =
      after_search-Sticks p (get_reader_failover_connection s p end w) cut

  failover_reader-Sticks :
      (p : FailoverPlugin) (w : W) → IsCut last n p → SticksIf (failover_reader s p w)
  unfolding failover_reader
  failover_reader-Sticks p w cut =
      let refreshed = s.force_refresh_host_list_with_timeout false 0 (s.after_now w) in
      with_refresh-Sticks _ _ refreshed.0.0 refreshed.0.1 refreshed.1
        (honest.refresh_fails false 0 (s.after_now w)) cut

  -- A failover that is over never gave a nil error, so nothing is remembered after it.
  dealt-Sticks :
      (e : AwsError) (o : Option (AwsError × FailoverPlugin × W))
      → SticksIf o
      → SticksIf (deal_with_failover e (returned o))
  dealt-Sticks e none h = tt
  dealt-Sticks e (some (x, p, w)) h = h

  deal_with_host-Sticks :
      (same_error : AwsError → AwsError → Bool) (e : AwsError) (p : FailoverPlugin)
      (o : Outcome HostInfo) (w : W)
      → ((x : AwsError) → o ≡ failed x → is_done x ≡ false)
      → IsCut last n p
      → SticksIf (deal_with_host s same_error e p (o, w))
  unfolding deal_with_host failover
  deal_with_host-Sticks same_error e p (failed x) w h cut = (inr (h x refl, cut.2), cut.0, cut.1)
  deal_with_host-Sticks same_error e p (done host) w h cut =
      let w' = s.set_availability host.aliases unavailable w in
      if-cases
        (λ (o : Option (Option AwsError × FailoverPlugin × W)). SticksIf (deal_with_failover e o))
        (is_strict_writer p.failover_mode)
        (dealt-Sticks e (some (failover_writer s p w')) (failover_writer-Sticks p w' cut))
        (dealt-Sticks e (failover_reader s p w') (failover_reader-Sticks p w' cut))

  invalidate-IsCut :
      (same_error : AwsError → AwsError → Bool) (o : Option C) (p : FailoverPlugin) (w : W)
      → IsCut last n p
      → IsCut last n (invalidate s same_error o p w).0
  invalidate-IsCut same_error none p w cut = cut
  invalidate-IsCut same_error (some c) p w cut =
      if-cases (IsCut last n) (s.is_in_transaction w) (refl, cut.1, cut.2) cut

  deal_with_error-SticksIf :
      (same_error : AwsError → AwsError → Bool) (e : AwsError) (p : FailoverPlugin) (w : W)
      → is_done e ≡ false
      → IsCut last n p
      → SticksIf (deal_with_error s same_error e p w)
  unfolding deal_with_error invalidate_current_connection
  deal_with_error-SticksIf same_error e p w h cut =
      let inv = invalidate_current_connection s same_error p w in
      let host = s.get_current_host_info inv.1 in
      if-cases SticksIf
        (not (is_last s same_error e p.last_error_dealt_with)
          && should_error_trigger_connection_switch s same_error e p w)
        (deal_with_host-Sticks same_error e inv.0 host.0 host.1 (honest.host_fails inv.1)
          (invalidate-IsCut same_error (s.get_current_connection w) p w cut))
        (inr (h, cut.2), cut.0, cut.1)

  some_Sticks :
      (o : Option (AwsError × FailoverPlugin × W))
      → is_some o ≡ true
      → SticksIf o
      → (r : AwsError) × (p : FailoverPlugin) × (w : W) × (o ≡ some (r, p, w))
        × IsAnswer n r p
        × (p.is_in_transaction ≡ true)
        × (p.last_error_dealt_with ≡ last)
  some_Sticks none ended h = ground arith
  some_Sticks (some (r, p, w)) ended h = (r, p, w, refl, h.0, h.1, h.2)

-- Once the flag is set that a failover has cut a transaction off, the plugin answers an error that
-- does not itself report a failover in one of two ways: a failover has succeeded, as the counters
-- tell, and the answer is that the outcome of a transaction is unknown, again and again; or none has,
-- and the answer reports none. The flag stays set, and the last error dealt with is never noted. The
-- clock reads a deadline once enough time has passed, and the errors of the service do not report a
-- failover as done.
pub deal_with_error-sticky :
    {W C : Type 0} (s : PluginService W C)
    → IsHonest s
    → IsClocked s
    → (same_error : AwsError → AwsError → Bool) (e : AwsError) (p : FailoverPlugin) (w : W)
    → is_done e ≡ false
    → p.is_in_transaction ≡ true
    → (r : AwsError) × (p' : FailoverPlugin) × (w' : W) × (deal_with_error s same_error e p w
        ≡ some (r, p', w'))
      × IsAnswer (successes p) r p'
      × (p'.is_in_transaction ≡ true)
      × (p'.last_error_dealt_with ≡ p.last_error_dealt_with)
deal_with_error-sticky s honest clocked same_error e p w h cut =
    some_Sticks s honest p.last_error_dealt_with (successes p) (deal_with_error s same_error e p w)
      (deal_with_error-ends s clocked same_error e p w)
      (deal_with_error-SticksIf s honest p.last_error_dealt_with (successes p) same_error e p w h
        (cut, refl, refl))
