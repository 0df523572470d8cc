-- ===== src/Selector/RoundRobin.antt =====
-- awssql/driver_infrastructure/round_robin_host_selector.go: the choice of the next host, from what
-- the selector keeps of a cluster. Weights are at least 1, so the counter does not go below 0.
pub mod Turns
use aws_advanced_go_wrapper.Base.{
  ℕ, zero, suc, ◌+◌, ◌-◌, Bool, true, false, not, ◌&&◌, List, [], ◌∷◌, Option, none, some, String,
  Result, ok, err, nat_beq, ltb, ◌==◌, string_comparable, length, get_elem?, if◌then◌else◌,
}
use aws_advanced_go_wrapper.Base.Dict.{Dict, insert, lookup}
use aws_advanced_go_wrapper.Host.{HostInfo}
use aws_advanced_go_wrapper.Host.Lists.{sort_by_host}
use aws_advanced_go_wrapper.Selector.{eligible_hosts}

pub record ClusterInfo : Type 0 where
  pub last_host : Option HostInfo
  pub cluster_weights_map : Dict String ℕ
  pub default_weight : ℕ
  pub weight_counter : ℕ
  pub last_weight_pairs : String
  pub last_default_weight : ℕ

abbrev pub index_after : Option ℕ → Option ℕ
index_after none = none
index_after (some i) = some (suc i)

-- `slices.IndexFunc` by name.
abbrev pub index_of : String → List HostInfo → Option ℕ
index_of name [] = none
index_of name (h ∷ hs) = if h.host == name then some 0 else index_after (index_of name hs)

abbrev pub last_index : Option HostInfo → List HostInfo → Option ℕ
last_index none hosts = none
last_index (some h) hosts = index_of h.host hosts

abbrev pub or_default : ℕ → Option ℕ → ℕ
or_default d none = d
or_default d (some w) = if nat_beq w 0 then d else w

-- The weight that the user gave the host, or the default.
unfoldable pub weight_of : ClusterInfo → HostInfo → ℕ
weight_of info h = or_default info.default_weight (lookup h.host_id info.cluster_weights_map)

abbrev pub next_index : Option ℕ → ℕ → ℕ
next_index none n = 0
next_index (some i) n = if nat_beq (suc i) n then 0 else suc i

abbrev pub taken : Option HostInfo → (HostInfo → ℕ) → ClusterInfo → Result HostInfo × ClusterInfo
taken none counter info = (err "index out of range", info)
taken (some h) counter info =
    (ok h, record info { last_host = some h; weight_counter = counter h - 1 })

abbrev pub take_turn : Option ℕ → List HostInfo → ClusterInfo → Result HostInfo × ClusterInfo
take_turn none hosts info = taken (get_elem? hosts 0) (λ h. weight_of info h) info
take_turn (some i) hosts info =
    if ltb 0 info.weight_counter
    then taken (get_elem? hosts i) (λ h. info.weight_counter) info
    else taken (get_elem? hosts (next_index (some i) (length hosts))) (λ h. weight_of info h) info

-- The turn of the next host among the eligible ones.
unfoldable pub get_next_host : List HostInfo → ClusterInfo → Result HostInfo × ClusterInfo
unfolding weight_of
get_next_host hosts info = take_turn (last_index info.last_host hosts) hosts info

abbrev pub next_of :
    List HostInfo → Result ClusterInfo → Option ClusterInfo → Result HostInfo × Option ClusterInfo
next_of hosts (err e) old = (err e, old)
next_of hosts (ok info) old = let (r, info') = get_next_host hosts info in (r, some info')

abbrev pub or_none :
    List HostInfo → Result ClusterInfo → Option ClusterInfo → Result HostInfo × Option ClusterInfo
or_none [] created old = (err "HostSelector.noHostsMatchingRole", old)
or_none (h ∷ hs) created old = next_of (h ∷ hs) created old

-- `created` is what `createCacheEntryForHosts` makes of the properties and of what the cache has.
unfoldable pub get_round_robin_host :
    List HostInfo
    → String
    → (Option ClusterInfo → Result ClusterInfo)
    → Option ClusterInfo
    → Result HostInfo × Option ClusterInfo
unfolding sort_by_host get_next_host
get_round_robin_host hosts role created old =
    or_none (sort_by_host (eligible_hosts role hosts)) (created old) old
