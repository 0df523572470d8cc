-- ===== src/Host.antt =====
-- awssql/host_info_util/host_info.go and host_info_util.go: a host of a cluster and its builder. The
-- port is `none` where the source has HOST_NO_PORT; a set of aliases is a list without repeats.
pub mod Lists
pub mod Laws
pub mod Tests
use Prim.Native.String.{◌++◌}
use aws_advanced_go_wrapper.Base.{
  ℕ, zero, suc, ◌/◌, ◌%◌, Bool, true, false, not, ◌&&◌, ◌||◌, List, [], ◌∷◌, Option, none, some,
  String, Result, ok, err, nat_beq, ltb, ◌==◌, string_comparable, if◌then◌else◌,
}

-- One decimal digit.
abbrev digit : ℕ → String
digit n =
    if nat_beq n 0
    then "0"
    else if nat_beq n 1
    then "1"
    else if nat_beq n 2
    then "2"
    else if nat_beq n 3
    then "3"
    else if nat_beq n 4
    then "4"
    else if nat_beq n 5
    then "5"
    else if nat_beq n 6
    then "6"
    else if nat_beq n 7
    then "7"
    else if nat_beq n 8
    then "8"
    else "9"

-- A round for each digit; the number itself is more rounds than it has digits.
itoa_rounds : ℕ → ℕ → String → String
itoa_rounds zero n tail = tail
itoa_rounds (suc fuel) n tail =
    let rest = itoa_rounds fuel (n / 10) (digit (n % 10) ++ tail) in
    if ltb n 10 then digit n ++ tail else rest

-- Go's `strconv.Itoa`.
unfoldable pub itoa : ℕ → String
unfolding itoa_rounds
itoa n = itoa_rounds (suc n) n ""

abbrev pub available : String
available = "available"

abbrev pub unavailable : String
unavailable = "unavailable"

abbrev pub reader : String
reader = "reader"

abbrev pub writer : String
writer = "writer"

abbrev pub unknown : String
unknown = "unknown"

pub record HostInfo : Type 0 where
  pub host : String
  pub host_id : String
  pub port : Option ℕ
  pub availability : String
  pub role : String
  pub aliases : List String
  pub all_aliases : List String
  pub weight : ℕ
  pub last_update_time : Option ℕ

abbrev contains : String → List String → Bool
contains s [] = false
contains s (t ∷ ts) = t == s || contains s ts

abbrev add_to : String → List String → List String
add_to s set = if contains s set then set else s ∷ set

unfoldable pub add_alias : String → HostInfo → HostInfo
add_alias alias h =
    if alias == ""
    then h
    else record h { aliases = add_to alias h.aliases; all_aliases = add_to alias h.all_aliases }

abbrev pub with_port : String → Option ℕ → String
with_port host none = host
with_port host (some port) = host ++ (":" ++ itoa port)

unfoldable pub get_host_and_port : HostInfo → String
unfolding itoa
get_host_and_port h = with_port h.host h.port

unfoldable pub get_url : HostInfo → String
unfolding get_host_and_port
get_url h = get_host_and_port h ++ "/"

unfoldable pub reset_aliases : HostInfo → HostInfo
unfolding get_host_and_port
reset_aliases h = record h { aliases = []; all_aliases = get_host_and_port h ∷ [] }

abbrev pub port_eq : Option ℕ → Option ℕ → Bool
port_eq none none = true
port_eq none (some q) = false
port_eq (some p) none = false
port_eq (some p) (some q) = nat_beq p q

-- `Equals`, which compares neither the ids nor the aliases nor the times.
unfoldable pub equals : HostInfo → HostInfo → Bool
equals g h =
    g.host == h.host
    && port_eq g.port h.port
    && g.availability == h.availability
    && g.role == h.role
    && nat_beq g.weight h.weight

unfoldable pub make_copy_with_role : String → HostInfo → HostInfo
make_copy_with_role role h = record h { role = role }

pub record HostInfoBuilder : Type 0 where
  pub host : String
  pub host_id : String
  pub port : Option ℕ
  pub availability : String
  pub role : String
  pub weight : ℕ
  pub last_update_time : Option ℕ

unfoldable pub new_host_info_builder : HostInfoBuilder
new_host_info_builder = record {
  host = "";
  host_id = "";
  port = none;
  availability = available;
  role = writer;
  weight = 100;
  last_update_time = none;
}

unfoldable pub set_host : String → HostInfoBuilder → HostInfoBuilder
set_host host b = record b { host = host }

unfoldable pub set_port : Option ℕ → HostInfoBuilder → HostInfoBuilder
set_port port b = record b { port = port }

unfoldable pub set_role : String → HostInfoBuilder → HostInfoBuilder
set_role role b = record b { role = role }

unfoldable pub set_availability : String → HostInfoBuilder → HostInfoBuilder
set_availability availability b = record b { availability = availability }

unfoldable pub set_weight : ℕ → HostInfoBuilder → HostInfoBuilder
set_weight weight b = record b { weight = weight }

unfoldable pub set_host_id : String → HostInfoBuilder → HostInfoBuilder
set_host_id host_id b = record b { host_id = host_id }

unfoldable pub set_last_update_time : Option ℕ → HostInfoBuilder → HostInfoBuilder
set_last_update_time time b = record b { last_update_time = time }

-- A nil host leaves the builder as it is.
unfoldable pub copy_from : Option HostInfo → HostInfoBuilder → HostInfoBuilder
copy_from none b = b
copy_from (some h) b = record {
  host = h.host;
  host_id = h.host_id;
  port = h.port;
  availability = h.availability;
  role = h.role;
  weight = h.weight;
  last_update_time = h.last_update_time;
}

pub built : HostInfoBuilder → HostInfo
unfolding itoa
built b = record {
  host = b.host;
  host_id = b.host_id;
  port = b.port;
  availability = b.availability;
  role = b.role;
  aliases = [];
  all_aliases = with_port b.host b.port ∷ [];
  weight = b.weight;
  last_update_time = b.last_update_time;
}

unfoldable pub build : HostInfoBuilder → Result HostInfo
unfolding built
build b = if b.host == "" then err "HostInfoBuilder.InvalidEmptyHost" else ok (built b)
