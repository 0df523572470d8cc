-- ===== src/Splitting/Writer.antt =====
-- What making the writer connection current leaves.
use aws_advanced_go_wrapper.Base.{
  ◌≡◌, refl, ap, ◌∙◌, sym, true, false, List, Option, none, some, Comparable, ==_refl,
  string_comparable, arith, if-given, if_true, if-cases, not,
}
use aws_advanced_go_wrapper.Host.{HostInfo, writer}
use mathlib.Core.Option.{some-injective}
use aws_advanced_go_wrapper.Host.Lists.{get_writer}
use aws_advanced_go_wrapper.Failover.Writer.Success.{get_writer-In}
use aws_advanced_go_wrapper.Splitting.Strategy.{with_host, connect_to, get_writer_connection}
use aws_advanced_go_wrapper.Failover.Service.{
  AwsError, Outcome, done, failed, PluginService, KeepsCurrent, KeepsHost,
}
use aws_advanced_go_wrapper.Splitting.{
  SplittingPlugin, is_writer, is_conn, is_cached, set_writer_connection, note_current,
  update_internal_connection_info, notify_connection_changed, after_set,
  switch_current_connection_to,
}
use aws_advanced_go_wrapper.Splitting.Switch.{
  Switched, with_new_writer, get_new_writer_connection, use_cached_writer,
}

module _ {W C : Type 0} ⦃e : Comparable C⦄ (s : PluginService W C) (keeps : KeepsCurrent s)
    (host : KeepsHost s) where
  -- A connection is the current one, and the plugin has it as its writer connection.
  abbrev pub IsOnWriter : SplittingPlugin C → W → Type 0
  IsOnWriter p w = (c : C) × (s.get_current_connection w ≡ some c) × (p.writer_connection ≡ some c)

  abbrev IfSwitched : Switched s → Type 0
  IfSwitched r = r.0 ≡ none → IsOnWriter r.1 r.2

  is_conn-some : (c : C) (o : Option C) → is_conn c o ≡ true → o ≡ some c
  is_conn-some c none h = ground arith
  is_conn-some c (some d) h = ap (λ (x : C). some x) (sym ((e.eqb_iff c d).0 h))

  note_lem :
      (c : C) (h : HostInfo) (p : SplittingPlugin C) (o : Option C) (r : Outcome HostInfo)
      → is_writer h ≡ true
      → o ≡ some c
      → r ≡ done h
      → note_current o r p ≡ set_writer_connection c h p
  unfolding note_current
  note_lem c h p o r role at by = rw at (rw by (if_true (is_writer h) _ _ role))

  set_is_cached :
      (c : C) (h : HostInfo) (p : SplittingPlugin C)
      → is_cached (some c) (set_writer_connection c h p) ≡ true
  unfolding set_writer_connection
  set_is_cached c h p = ground (arith, ==_refl c)

  true_not_false : true ≡ false → ⊥
  true_not_false h = ground arith

  notify-IsOnWriter :
      (c : C) (h : HostInfo) (p : SplittingPlugin C) (w : W)
      → is_writer h ≡ true
      → s.get_current_connection w ≡ some c
      → (s.get_current_host_info w).0 ≡ done h
      → IsOnWriter (notify_connection_changed s p w).0 (notify_connection_changed s p w).1
  unfolding notify_connection_changed update_internal_connection_info
  notify-IsOnWriter c h p w role at by =
      let w' = (s.get_current_host_info w).1 in
      let noted =
        note_lem c h p (s.get_current_connection w) (s.get_current_host_info w).0 role at by in
      let at' = keeps.ask_host w ∙ at in
      if-given (λ (r : SplittingPlugin C × W). IsOnWriter r.0 r.1)
        (is_cached (s.get_current_connection w')
          (note_current (s.get_current_connection w) (s.get_current_host_info w).0 p))
        (λ cached. (c, at', ap (λ (q : SplittingPlugin C). q.writer_connection) noted))
        (λ uncached.
          elim (true_not_false (
            sym (
              ap
                (λ (o : Option C).
                  is_cached o
                    (note_current (s.get_current_connection w) (s.get_current_host_info w).0 p))
                at'
              ∙ ap (λ (q : SplittingPlugin C). is_cached (some c) q) noted
              ∙ set_is_cached c h p)
            ∙ uncached)) [ ])

  after_set-IsOnWriter :
      (c : C) (h : HostInfo) (p : SplittingPlugin C) (o : Option AwsError) (w : W)
      → is_writer h ≡ true
      → (o ≡ none → s.get_current_connection w ≡ some c)
      → (o ≡ none → (s.get_current_host_info w).0 ≡ done h)
      → IfSwitched (after_set s p (o, w))
  unfolding after_set
  after_set-IsOnWriter c h p (some x) w role at by = λ ended. ground arith
  after_set-IsOnWriter c h p none w role at by =
      λ ended. notify-IsOnWriter c h p w role (at refl) (by refl)

  -- The host that stands beside the writer connection, if any, has the role of a writer.
  abbrev pub HasWriterHost : SplittingPlugin C → Type 0
  HasWriterHost p = (h : HostInfo) → p.writer_host_info ≡ some h → is_writer h ≡ true

  switch_to-IsOnWriter :
      (c : C) (o : Option HostInfo) (p : SplittingPlugin C) (w : W)
      → p.writer_connection ≡ some c
      → ((h : HostInfo) → o ≡ some h → is_writer h ≡ true)
      → IfSwitched (switch_current_connection_to s c o p w)
  unfolding switch_current_connection_to
  switch_to-IsOnWriter c none p w cached role =
      if-given IfSwitched (is_conn c (s.get_current_connection w))
        (λ same ended. (c, is_conn-some c (s.get_current_connection w) same, cached))
        (λ other ended. ground arith)
  switch_to-IsOnWriter c (some h) p w cached role =
      let set = s.set_current_connection c h w in
      if-given IfSwitched (is_conn c (s.get_current_connection w))
        (λ same ended. (c, is_conn-some c (s.get_current_connection w) same, cached))
        (λ other.
          after_set-IsOnWriter c h p set.0 set.1 (role h refl) (keeps.set_connection c h w)
            (host.set_host c h w))

  with_new_writer-IsOnWriter :
      (p : SplittingPlugin C) (o : Outcome (C × HostInfo)) (w : W)
      → ((c : C) (h : HostInfo) → o ≡ done (c, h) → is_writer h ≡ true)
      → IfSwitched (with_new_writer s p (o, w))
  unfolding with_new_writer set_writer_connection
  with_new_writer-IsOnWriter p (failed x) w role = λ ended. ground arith
  with_new_writer-IsOnWriter p (done (c, h)) w role =
      switch_to-IsOnWriter c (some h) (set_writer_connection c h p) w refl
        (λ k at. ap (λ (x : HostInfo). is_writer x) (sym (some-injective h k at)) ∙ role c h refl)

  abbrev host_of : Outcome (C × HostInfo) → Option HostInfo
  host_of (failed x) = none
  host_of (done (c, h)) = some h

  with_host-host_of :
      (h : HostInfo) (o : Outcome C) (w : W) (k : HostInfo)
      → host_of (with_host s h (o, w)).0 ≡ some k
      → h ≡ k
  unfolding with_host
  with_host-host_of h (failed x) w k at = ground arith
  with_host-host_of h (done c) w k at = some-injective h k at

  connect_to-host_of :
      (o : Option HostInfo) (w : W) (k : HostInfo)
      → host_of (connect_to s o w).0 ≡ some k
      → o ≡ some k
  unfolding connect_to
  connect_to-host_of none w k at = ground arith
  connect_to-host_of (some h) w k at =
      ap (λ (x : HostInfo). some x) (with_host-host_of h (s.connect h w).0 (s.connect h w).1 k at)

  get_writer-is_writer :
      (hosts : List HostInfo) (k : HostInfo) → get_writer hosts ≡ some k → is_writer k ≡ true
  get_writer-is_writer hosts k at =
      (string_comparable.eqb_iff k.role writer).1 (get_writer-In hosts k at).1

  new_writer-IsOnWriter :
      (hosts : List HostInfo) (p : SplittingPlugin C) (w : W)
      → IfSwitched (get_new_writer_connection s hosts p w)
  unfolding get_new_writer_connection get_writer_connection
  new_writer-IsOnWriter hosts p w =
      let r = get_writer_connection s hosts w in
      with_new_writer-IsOnWriter p r.0 r.1 (λ c h at. get_writer-is_writer hosts h (
        connect_to-host_of (get_writer hosts) w h
          (ap (λ (o : Outcome (C × HostInfo)). host_of o) at)))

  pub use_cached_writer-IsOnWriter :
      (hosts : List HostInfo) (o : Option C) (p : SplittingPlugin C) (w : W)
      → p.writer_connection ≡ o
      → HasWriterHost p
      → IfSwitched (use_cached_writer s hosts o p w)
  unfolding use_cached_writer
  use_cached_writer-IsOnWriter hosts none p w cached role = new_writer-IsOnWriter hosts p w
  use_cached_writer-IsOnWriter hosts (some c) p w cached role =
      if-cases IfSwitched (not (s.is_closed c w))
        (switch_to-IsOnWriter c p.writer_host_info p w cached role)
        (new_writer-IsOnWriter hosts p w)
