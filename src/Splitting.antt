-- ===== src/Splitting.antt =====
-- awssql/plugins/read_write_splitting/read_write_splitting_plugin.go: the plugin that switches between
-- a reader and a writer connection, over the interface of the plugin service that failover uses too.
pub mod Strategy
pub mod Switch
pub mod Writer
pub mod Roles
pub mod Connect
mod Tests
use aws_advanced_go_wrapper.Base.{
  Bool, true, false, not, ◌&&◌, ◌||◌, Option, none, some, String, ◌==◌, string_comparable,
  Comparable, if◌then◌else◌,
}
use aws_advanced_go_wrapper.Host.{HostInfo, reader, writer}
use aws_advanced_go_wrapper.Failover.Service.{
  AwsError, other_error, Outcome, done, failed, PluginService,
}

pub record SplittingPlugin (C : Type 0) : Type 0 where
  pub reader_selector_strategy : String
  pub in_read_write_split : Bool
  pub writer_connection : Option C
  pub reader_connection : Option C
  pub writer_host_info : Option HostInfo
  pub reader_host_info : Option HostInfo

abbrev pub is_writer : HostInfo → Bool
is_writer h = h.role == writer

abbrev pub is_reader : HostInfo → Bool
is_reader h = h.role == reader

module _ {C : Type 0} where
  unfoldable pub set_writer_connection : C → HostInfo → SplittingPlugin C → SplittingPlugin C
  set_writer_connection c h p = record p { writer_connection = some c; writer_host_info = some h }

  unfoldable pub set_reader_connection : C → HostInfo → SplittingPlugin C → SplittingPlugin C
  set_reader_connection c h p = record p { reader_connection = some c; reader_host_info = some h }

  unfoldable pub note_current : Option C → Outcome HostInfo → SplittingPlugin C → SplittingPlugin C
  unfolding set_writer_connection set_reader_connection
  note_current o (failed x) p = p
  note_current none (done h) p = p
  note_current (some c) (done h) p =
      if is_writer h then set_writer_connection c h p else set_reader_connection c h p

module _ {C : Type 0} ⦃e : Comparable C⦄ where
  abbrev pub is_conn : C → Option C → Bool
  is_conn c none = false
  is_conn c (some d) = c == d

  abbrev pub same_conn : Option C → Option C → Bool
  same_conn none none = true
  same_conn none (some d) = false
  same_conn (some c) o = is_conn c o

  -- The `switch` on the connection.
  unfoldable pub forget : C → SplittingPlugin C → SplittingPlugin C
  forget c p =
      if is_conn c p.reader_connection
      then record p { reader_connection = none; reader_host_info = none }
      else if is_conn c p.writer_connection
      then record p { writer_connection = none; writer_host_info = none }
      else p

  abbrev pub is_cached : Option C → SplittingPlugin C → Bool
  is_cached o p = same_conn o p.writer_connection || same_conn o p.reader_connection

module _ {W C : Type 0} ⦃e : Comparable C⦄ (s : PluginService W C) where
  abbrev pub is_connection_usable : Option C → W → Bool
  is_connection_usable none w = false
  is_connection_usable (some c) w = not (s.is_closed c w)

  unfoldable pub close_connection_if_idle : Option C → SplittingPlugin C → W → SplittingPlugin C × W
  unfolding forget
  close_connection_if_idle none p w = (p, w)
  close_connection_if_idle (some c) p w =
      if is_conn c (s.get_current_connection w)
      then (p, w)
      else (forget c p, (if s.is_closed c w then w else s.close c w))

  unfoldable pub close_idle_connections : SplittingPlugin C → W → SplittingPlugin C × W
  unfolding close_connection_if_idle
  close_idle_connections p w =
      let (p', w') = close_connection_if_idle p.reader_connection p w in
      close_connection_if_idle p'.writer_connection p' w'

  unfoldable pub update_internal_connection_info : SplittingPlugin C → W → SplittingPlugin C × W
  unfolding note_current
  update_internal_connection_info p w =
      let (host, w') = s.get_current_host_info w in
      (note_current (s.get_current_connection w) host p, w')

  -- When the connection object has changed.
  unfoldable pub notify_connection_changed : SplittingPlugin C → W → SplittingPlugin C × W
  unfolding update_internal_connection_info close_idle_connections
  notify_connection_changed p w =
      let (p', w') = update_internal_connection_info p w in
      if is_cached (s.get_current_connection w') p' then (p', w') else close_idle_connections p' w'

  -- A connection that becomes the current one in place of another: the service notifies this plugin.
  unfoldable pub after_set :
      SplittingPlugin C → Option AwsError × W → Option AwsError × SplittingPlugin C × W
  unfolding notify_connection_changed
  after_set p (some x, w) = (some x, p, w)
  after_set p (none, w) = let (p', w') = notify_connection_changed p w in (none, p', w')

  unfoldable pub switch_current_connection_to :
      C → Option HostInfo → SplittingPlugin C → W → Option AwsError × SplittingPlugin C × W
  unfolding after_set
  switch_current_connection_to c none p w =
      if is_conn c (s.get_current_connection w)
      then (none, p, w)
      else (some (other_error "PluginServiceImpl.nilHost"), p, w)
  switch_current_connection_to c (some h) p w =
      if is_conn c (s.get_current_connection w)
      then (none, p, w)
      else after_set p (s.set_current_connection c h w)
