-- ===== src/Selector.antt =====
-- The host selectors of awssql/driver_infrastructure: highest_weight_host_selector.go,
-- weighted_random_host_selector.go and random_host_selector.go. Weights are natural
-- numbers: the weighted random selector treats a weight below 0 like 0; the highest weight selector,
-- which would order such weights, is modelled for weights from 0 only.
pub mod Highest
pub mod Weighted
pub mod RoundRobin
mod Tests
use aws_advanced_go_wrapper.Base.{
  ℕ, ◌+◌, ◌-◌, ◌≡◌, ◌↔◌, arith, nat_beq, nat_beq_iff, Comparable, Bool, true, false, not, ◌&&◌,
  ◌||◌, List, [], ◌∷◌, Option, none, some, String, Result, ok, err, ltb, leb, ◌==◌,
  string_comparable, length, get_elem?, keep, if◌then◌else◌,
}
use aws_advanced_go_wrapper.Base.Dict.{Dict, insert, lookup}
use aws_advanced_go_wrapper.Host.{HostInfo, available}

-- The empty role stands for any.
abbrev pub is_eligible : String → HostInfo → Bool
is_eligible role h = (role == "" || role == h.role) && h.availability == available

abbrev pub eligible_hosts : String → List HostInfo → List HostInfo
eligible_hosts role hosts = keep (is_eligible role) hosts

-- The loop of the highest weight: the first of equals stays.
abbrev pub highest_from : HostInfo → List HostInfo → HostInfo
highest_from current [] = current
highest_from current (h ∷ hs) = highest_from (if ltb current.weight h.weight then h else current) hs

abbrev pub highest_of : List HostInfo → Result HostInfo
highest_of [] = err "HighestWeightHostSelector.noHostsMatchingRole"
highest_of (h ∷ hs) = ok (highest_from h (h ∷ hs))

unfoldable pub get_highest_weight_host : List HostInfo → String → Result HostInfo
get_highest_weight_host hosts role = highest_of (eligible_hosts role hosts)

-- A range of numbers, both ends in it.
pub record NumberRange : Type 0 where
  pub start : ℕ
  pub end : ℕ

abbrev pub is_in_number_range : ℕ → NumberRange → Bool
is_in_number_range n r = leb r.start n && leb n r.end

abbrev or_zero : Option ℕ → ℕ
or_zero none = 0
or_zero (some w) = w

-- 0 where the map has no weight for the host.
abbrev pub host_weight : Dict String ℕ → HostInfo → ℕ
host_weight weights h = or_zero (lookup h.host weights)

abbrev pub same_range : NumberRange → NumberRange → Bool
same_range r t = nat_beq r.start t.start && nat_beq r.end t.end

pub same_range_iff : (r t : NumberRange) → (same_range r t ≡ true) ↔ (r ≡ t)
same_range_iff r t = ground (arith, nat_beq_iff r.start t.start, nat_beq_iff r.end t.end)

instance abbrev pub range_comparable : Comparable NumberRange
range_comparable = record { eqb = same_range; eqb_iff = same_range_iff }

-- The map of ranges after the loop over the hosts, and the count.
unfoldable pub host_ranges :
    Dict String ℕ → ℕ → Dict NumberRange HostInfo → List HostInfo → Dict NumberRange HostInfo × ℕ
host_ranges weights count ranges [] = (ranges, count)
host_ranges weights count ranges (h ∷ hs) =
    let w = host_weight weights h in
    let last = if ltb 0 w then count + w - 1 else count in
    let next = if ltb 0 w then count + w else count + 1 in
    host_ranges weights next (insert (record { start = count; end = last }) h ranges) hs

-- The loop over the entries of the map, in the order in which it visits them.
unfoldable pub find_range : ℕ → List (NumberRange × HostInfo) → Result HostInfo
find_range n [] = err "WeightedRandomHostSelector.unableToGetHost"
find_range n ((r, h) ∷ rest) = if is_in_number_range n r then ok h else find_range n rest

-- The map of the selector, empty when it is not set.
pub record WeightedRandomHostSelector : Type 0 where
  pub host_weight_map : Dict String ℕ

abbrev pub is_unset : Dict String ℕ → Bool
is_unset [] = true
is_unset (e ∷ m) = false

-- The entries of a map in the order in which a loop over it happens to visit them.
abbrev pub Visit : Type 0
Visit = Dict NumberRange HostInfo → List (NumberRange × HostInfo)

-- `random n` is what the source of random numbers gives for the bound `n`.
unfoldable pub pick_host : Visit → (ℕ → ℕ) → Dict String ℕ → List HostInfo → Result HostInfo
unfolding host_ranges find_range
pick_host visit random weights [] = err "WeightedRandomHostSelector.noHostsMatchingRole"
pick_host visit random weights (h ∷ hs) =
    let (ranges, count) = host_ranges weights 1 [] (h ∷ hs) in
    find_range (random (count - 1) + 1) (visit ranges)

unfoldable pub with_weights :
    Visit
    → (ℕ → ℕ)
    → List HostInfo
    → String
    → Result (Dict String ℕ)
    → WeightedRandomHostSelector
    → Result HostInfo × WeightedRandomHostSelector
unfolding pick_host
with_weights visit random hosts role (err e) s = (err e, s)
with_weights visit random hosts role (ok weights) s = (
  pick_host visit random weights (eligible_hosts role hosts),
  record { host_weight_map = weights },
)

-- `parsed` is what `GetHostWeightMapFromString` makes of the property.
unfoldable pub get_weighted_random_host :
    Visit
    → (ℕ → ℕ)
    → List HostInfo
    → String
    → Result (Dict String ℕ)
    → WeightedRandomHostSelector
    → Result HostInfo × WeightedRandomHostSelector
unfolding with_weights
get_weighted_random_host visit random hosts role parsed s =
    with_weights visit random hosts role
      (if is_unset s.host_weight_map then parsed else ok s.host_weight_map) s

unfoldable pub set_host_weights :
    Dict String ℕ → WeightedRandomHostSelector → WeightedRandomHostSelector
set_host_weights weights s = record { host_weight_map = weights }

unfoldable pub clear_host_weights : WeightedRandomHostSelector → WeightedRandomHostSelector
clear_host_weights s = record { host_weight_map = [] }

-- `random n` is what `rand.Intn` gives for the bound `n`.
abbrev at_index : Option HostInfo → Result HostInfo
at_index none = err "index out of range"
at_index (some h) = ok h

abbrev random_of : (ℕ → ℕ) → List HostInfo → Result HostInfo
random_of random [] = err "HostSelector.noHostsMatchingRole"
random_of random (h ∷ hs) = at_index (get_elem? (h ∷ hs) (random (length (h ∷ hs))))

unfoldable pub get_random_host : (ℕ → ℕ) → List HostInfo → String → Result HostInfo
get_random_host random hosts role = random_of random (eligible_hosts role hosts)
