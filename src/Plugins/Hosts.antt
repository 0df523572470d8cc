-- ===== src/Plugins/Hosts.antt =====
-- awssql/plugin_helpers/plugin_service.go: the host list of `PluginServiceImpl`. A host that
-- `SetAvailability` writes to is changed in the list; copies of the pointer elsewhere are not followed.
pub mod Changes
pub mod Refresh
use aws_advanced_go_wrapper.Base.{
  ℕ, ◌*◌, Bool, true, false, not, ◌&&◌, ◌||◌, List, [], ◌∷◌, ◌++◌, Option, none, some, String,
  Result, ok, err, nat_beq, length, ltb, ◌==◌, string_comparable, if◌then◌else◌, keep,
}
use aws_advanced_go_wrapper.Base.Dict.{Dict, insert, lookup}
use aws_advanced_go_wrapper.Util.CacheMap.{CacheMap, put, get}
use aws_advanced_go_wrapper.Host.{
  HostInfo, available, unavailable, reader, writer, port_eq, get_host_and_port,
}
use aws_advanced_go_wrapper.Host.Lists.{are_host_lists_equal}
use aws_advanced_go_wrapper.Plugins.Manager.{slice_contains}

pub data HostChange : Type 0 where
  hostname : HostChange
  promoted_to_writer : HostChange
  promoted_to_reader : HostChange
  went_up : HostChange
  went_down : HostChange
  host_added : HostChange
  host_changed : HostChange
  host_deleted : HostChange

-- The changes of one host, a set without repeats.
abbrev pub Changes : Type 0
Changes = List HostChange

abbrev pub hostname_change : HostInfo → HostInfo → Changes
hostname_change a b = if a.host == b.host && port_eq a.port b.port then [] else hostname ∷ []

abbrev pub role_change : HostInfo → HostInfo → Changes
role_change a b =
    if a.role == b.role
    then []
    else if b.role == writer
    then promoted_to_writer ∷ []
    else if b.role == reader
    then promoted_to_reader ∷ []
    else []

abbrev pub availability_change : HostInfo → HostInfo → Changes
availability_change a b =
    if a.availability == b.availability
    then []
    else if b.availability == available
    then went_up ∷ []
    else if b.availability == unavailable
    then went_down ∷ []
    else []

abbrev pub with_changed : Changes → Changes
with_changed [] = []
with_changed (c ∷ cs) = host_changed ∷ c ∷ cs

unfoldable pub compare_host_infos : HostInfo → HostInfo → Changes
compare_host_infos a b =
    with_changed (hostname_change a b ++ role_change a b ++ availability_change a b)

-- `availability_cache` is the cache that the services of the process share, `notified` what the
-- plugin manager was told, the last first.
pub record HostService : Type 0 where
  pub all_hosts : List HostInfo
  pub availability_cache : CacheMap String String
  pub notified : List (Dict String Changes)

-- A map from URL to host, of two hosts with one URL the later.
unfoldable pub by_url : List HostInfo → Dict String HostInfo → Dict String HostInfo
by_url [] m = m
by_url (h ∷ hs) m = by_url hs (insert (get_host_and_port h) h m)

abbrev pub change_of : HostInfo → Option HostInfo → Changes
change_of old none = host_deleted ∷ []
change_of old (some new) = compare_host_infos old new

abbrev pub insert_change : String → Changes → Dict String Changes → Dict String Changes
insert_change url [] m = m
insert_change url (c ∷ cs) m = insert url (c ∷ cs) m

unfoldable pub changes_of_old : Dict String HostInfo → Dict String HostInfo → Dict String Changes
changes_of_old new [] = []
changes_of_old new ((url, old) ∷ rest) =
    insert_change url (change_of old (lookup url new)) (changes_of_old new rest)

abbrev pub added_of : Option HostInfo → Changes
added_of none = host_added ∷ []
added_of (some old) = []

unfoldable pub changes_of_new :
    Dict String HostInfo → Dict String HostInfo → Dict String Changes → Dict String Changes
changes_of_new old [] m = m
changes_of_new old ((url, new) ∷ rest) m =
    insert_change url (added_of (lookup url old)) (changes_of_new old rest m)

unfoldable pub host_list_changes : List HostInfo → List HostInfo → Dict String Changes
unfolding by_url changes_of_old changes_of_new
host_list_changes old_hosts new_hosts =
    let old = by_url old_hosts [] in
    let new = by_url new_hosts [] in changes_of_new old new (changes_of_old new old)

abbrev pub notify : Dict String Changes → List HostInfo → HostService → HostService
notify [] hosts s = s
notify (c ∷ cs) hosts s = record s { all_hosts = hosts; notified = (c ∷ cs) ∷ s.notified }

unfoldable pub set_host_list : List HostInfo → HostService → HostService
unfolding host_list_changes
set_host_list new_hosts s = notify (host_list_changes s.all_hosts new_hosts) new_hosts s

abbrev pub with_cached : Option String → HostInfo → HostInfo
with_cached none h = h
with_cached (some availability) h = record h { availability = availability }

-- The result is a list of its own.
unfoldable pub update_host_availability : ℕ → List HostInfo → HostService → List HostInfo
update_host_availability now [] s = []
update_host_availability now (h ∷ hs) s =
    with_cached (get now (get_host_and_port h) s.availability_cache) h
    ∷ update_host_availability now hs s

-- What `updateHostAvailability` returns is dropped.
unfoldable pub update_host_list_if_needed :
    ℕ → List HostInfo → HostService → Option String × HostService
unfolding set_host_list
update_host_list_if_needed now [] s = (some "PluginServiceImpl.hostListEmpty", s)
update_host_list_if_needed now (h ∷ hs) s =
    let unused = update_host_availability now (h ∷ hs) s in
    if are_host_lists_equal s.all_hosts (h ∷ hs)
    then (none, s)
    else (none, set_host_list (h ∷ hs) s)

-- `provided` is what the host list provider answers.
unfoldable pub refresh_host_list :
    ℕ → Result (List HostInfo) → HostService → Option String × HostService
unfolding update_host_list_if_needed
refresh_host_list now (err e) s = (some e, s)
refresh_host_list now (ok hosts) s = update_host_list_if_needed now hosts s

unfoldable pub force_refresh_host_list_with_timeout :
    ℕ → Result (List HostInfo) → HostService → (Bool × Option String) × HostService
unfolding set_host_list update_host_availability
force_refresh_host_list_with_timeout now (err e) s = ((false, some e), s)
force_refresh_host_list_with_timeout now (ok []) s = ((false, none), s)
force_refresh_host_list_with_timeout now (ok (h ∷ hs)) s =
    ((true, none), set_host_list (update_host_availability now (h ∷ hs) s) s)

abbrev pub have_common : List String → List String → Bool
have_common [] aliases = false
have_common (s ∷ ss) aliases = slice_contains aliases s || have_common ss aliases

abbrev pub is_named : List String → HostInfo → Bool
is_named aliases h =
    slice_contains aliases (get_host_and_port h) || have_common aliases h.all_aliases

-- Five minutes in nanoseconds.
abbrev pub cache_expire_nano : ℕ
cache_expire_nano = 300000000000

abbrev pub set_one : String → HostInfo → HostInfo
set_one availability h =
    if h.availability == availability then h else record h { availability = availability }

unfoldable pub set_all : List String → String → List HostInfo → List HostInfo
set_all aliases availability [] = []
set_all aliases availability (h ∷ hs) =
    (if is_named aliases h then set_one availability h else h) ∷ set_all aliases availability hs

unfoldable pub cache_all :
    ℕ → List String → String → List HostInfo → CacheMap String String → CacheMap String String
cache_all now aliases availability [] c = c
cache_all now aliases availability (h ∷ hs) c = cache_all now aliases availability hs (
    if is_named aliases h
    then put now (get_host_and_port h) availability cache_expire_nano c
    else c)

abbrev pub went : String → Changes
went availability =
    if availability == available then host_changed ∷ went_up ∷ [] else host_changed ∷ went_down ∷ []

unfoldable pub availability_changes :
    List String → String → List HostInfo → Dict String Changes → Dict String Changes
availability_changes aliases availability [] m = m
availability_changes aliases availability (h ∷ hs) m =
    availability_changes aliases availability hs (
      if is_named aliases h && not (h.availability == availability)
      then insert (get_host_and_port h) (went availability) m
      else m)

abbrev pub tell : Dict String Changes → HostService → HostService
tell [] s = s
tell (c ∷ cs) s = record s { notified = (c ∷ cs) ∷ s.notified }

unfoldable pub set_availability : ℕ → List String → String → HostService → HostService
unfolding set_all cache_all availability_changes
set_availability now [] availability s = s
set_availability now (a ∷ aliases) availability s =
    tell (availability_changes (a ∷ aliases) availability s.all_hosts []) (record s {
      all_hosts = set_all (a ∷ aliases) availability s.all_hosts;
      availability_cache =
          cache_all now (a ∷ aliases) availability s.all_hosts s.availability_cache;
    })

-- The hosts that a custom endpoint allows and blocks, by their ids.
pub record HostPermissions : Type 0 where
  pub allowed_host_ids : Dict String Bool
  pub blocked_host_ids : Dict String Bool

abbrev pub is_true : Option Bool → Bool
is_true none = false
is_true (some b) = b

abbrev pub allowed_by : Dict String Bool → List HostInfo → List HostInfo
allowed_by [] hosts = hosts
allowed_by (e ∷ m) hosts = keep (λ (h : HostInfo). is_true (lookup h.host_id (e ∷ m))) hosts

abbrev pub unblocked_by : Dict String Bool → List HostInfo → List HostInfo
unblocked_by [] hosts = hosts
unblocked_by (e ∷ m) hosts = keep (λ (h : HostInfo). not (is_true (lookup h.host_id (e ∷ m)))) hosts

unfoldable pub get_hosts : Option HostPermissions → HostService → List HostInfo
get_hosts none s = s.all_hosts
get_hosts (some p) s = unblocked_by p.blocked_host_ids (allowed_by p.allowed_host_ids s.all_hosts)
