-- ===== src/Host/Tests.antt =====
-- Hosts to run the definitions on.
use aws_advanced_go_wrapper.Base.{
  ◌≢◌, string_comparable, ℕ, ◌≡◌, refl, [], ◌∷◌, none, some, String, ok, arith,
}
use aws_advanced_go_wrapper.Host.{
  HostInfo, new_host_info_builder, copy_from, build, reset_aliases, get_host_and_port, itoa,
}
use aws_advanced_go_wrapper.Host.Laws.{build-copy_from}

abbrev pub a_host : String → String → String → ℕ → HostInfo
a_host host role availability weight = record {
  host = host;
  host_id = host;
  port = some 5432;
  availability = availability;
  role = role;
  aliases = "alias" ∷ [];
  all_aliases = "alias" ∷ [];
  weight = weight;
  last_update_time = none;
}

abbrev pub reader_host : String → String → ℕ → HostInfo
reader_host host availability weight = a_host host "reader" availability weight

abbrev pub writer_host : String → String → ℕ → HostInfo
writer_host host availability weight = a_host host "writer" availability weight

port_prints : itoa 5432 ≡ "5432"
unfolding itoa
port_prints = refl

url : get_host_and_port (writer_host "a" "available" 1) ≡ "a:5432"
unfolding get_host_and_port itoa
url = refl

abbrev name : String
name = "a"

name_is_not_empty : name ≢ ""
name_is_not_empty = λ e. ground (arith, string_comparable.eqb_iff name "")

build-copy_from_example :
    build (copy_from (some (writer_host "a" "available" 1)) new_host_info_builder)
    ≡ ok (reset_aliases (writer_host "a" "available" 1))
build-copy_from_example =
    build-copy_from (writer_host "a" "available" 1) new_host_info_builder name_is_not_empty
