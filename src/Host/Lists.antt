-- ===== src/Host/Lists.antt =====
-- awssql/host_info_util/host_info_util.go: lists of hosts. No list of the model holds a nil host.
use Prim.Native.String.{◌++◌, compare}
use Prim.Native.Nat.{Ordering}
use aws_advanced_go_wrapper.Base.{
  ℕ, Bool, true, false, not, ◌&&◌, ◌||◌, List, [], ◌∷◌, Option, none, some, String, ltb, leb,
  length, ◌==◌, string_comparable, keep, if◌then◌else◌,
}
use aws_advanced_go_wrapper.Host.{HostInfo, equals, itoa, reader, writer}

unfoldable pub are_host_lists_equal : List HostInfo → List HostInfo → Bool
unfolding equals
are_host_lists_equal [] [] = true
are_host_lists_equal [] (h ∷ hs) = false
are_host_lists_equal (g ∷ gs) [] = false
are_host_lists_equal (g ∷ gs) (h ∷ hs) = equals g h && are_host_lists_equal gs hs

unfoldable pub get_writer : List HostInfo → Option HostInfo
get_writer [] = none
get_writer (h ∷ hs) = if h.role == writer then some h else get_writer hs

abbrev comes_first : String → String → Bool
comes_first s t = elim (compare s t) [ Ordering.gt ↦ false | _ ↦ true ]

-- Sorting by the name of the host.
pub insert_by_host : HostInfo → List HostInfo → List HostInfo
insert_by_host h [] = h ∷ []
insert_by_host h (g ∷ gs) =
    if comes_first h.host g.host then h ∷ g ∷ gs else g ∷ insert_by_host h gs

unfoldable pub sort_by_host : List HostInfo → List HostInfo
unfolding insert_by_host
sort_by_host [] = []
sort_by_host (h ∷ hs) = insert_by_host h (sort_by_host hs)

unfoldable pub get_readers : List HostInfo → List HostInfo
unfolding sort_by_host
get_readers hosts = sort_by_host (keep (λ (h : HostInfo). h.role == reader) hosts)

-- A port of 0, or a negative one, counts as none.
unfoldable pub host_and_port : String → ℕ → String
unfolding itoa
host_and_port host port =
    if ltb 0 port && not (host == "") then host ++ (":" ++ itoa port) else host

abbrev pub has_name : String → List HostInfo → Bool
has_name name [] = false
has_name name (h ∷ hs) = h.host == name || has_name name hs

-- Whether no host of the second list has a name of the first.
unfoldable pub none_named : List HostInfo → List HostInfo → Bool
none_named names [] = true
none_named names (h ∷ hs) = if has_name h.host names then false else none_named names hs

unfoldable pub have_no_hosts_in_common : List HostInfo → List HostInfo → Bool
unfolding none_named
have_no_hosts_in_common gs hs =
    if leb (length gs) (length hs) then none_named gs hs else none_named hs gs

-- `none` is a nil host.
unfoldable pub is_host_in_list : Option HostInfo → List HostInfo → Bool
unfolding equals
is_host_in_list none hs = false
is_host_in_list (some g) [] = false
is_host_in_list (some g) (h ∷ hs) = equals h g || is_host_in_list (some g) hs
