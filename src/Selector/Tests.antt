-- ===== src/Selector/Tests.antt =====
-- Three hosts, of which one is down.
use aws_advanced_go_wrapper.Base.{
  Option, none, some, inl, ℕ, ◌++◌, In, ◌↔◌, ◌-◌, ◌≤◌, ◌<◌, ◌≡◌, refl, List, [], ◌∷◌, String, ok,
  string_comparable, arith,
}
use aws_advanced_go_wrapper.Base.Dict.{Dict, lookup}
use aws_advanced_go_wrapper.Host.{HostInfo}
use aws_advanced_go_wrapper.Host.Tests.{reader_host}
use aws_advanced_go_wrapper.Selector.RoundRobin.{ClusterInfo, get_next_host, weight_of, or_default}
use aws_advanced_go_wrapper.Selector.RoundRobin.Turns.{
  at_turn, turns, by_weight, total, IsWeighted, turns-by_weight,
}
use aws_advanced_go_wrapper.Selector.{
  eligible_hosts, get_highest_weight_host, get_weighted_random_host, WeightedRandomHostSelector,
  NumberRange, Visit,
}
use aws_advanced_go_wrapper.Selector.Highest.{IsHeaviest, get_highest_weight_host-IsHeaviest}
use aws_advanced_go_wrapper.Selector.Weighted.{
  IsPick, VisitsAll, get_weighted_random_host-chosen, get_weighted_random_host-IsPick,
}

abbrev hosts : List HostInfo
hosts =
    reader_host "a" "available" 5
    ∷ reader_host "b" "unavailable" 9
    ∷ reader_host "c" "available" 7
    ∷ []

abbrev weights : Dict String ℕ
weights = ("a", 3) ∷ ("c", 2) ∷ []

abbrev set : WeightedRandomHostSelector
set = record { host_weight_map = weights }

-- The greatest number below the bound.
abbrev last : ℕ → ℕ
last n = n - 1

last-lt : (n : ℕ) → 1 ≤ n → last n < n
last-lt n h = omega arith

-- The entries in the opposite order.
abbrev last_first : Visit
last_first [] = []
last_first (e ∷ m) = last_first m ++ e ∷ []

In-append_one :
    (e g : NumberRange × HostInfo) (m : List (NumberRange × HostInfo))
    → In e (m ++ g ∷ []) ↔ In e (g ∷ m)
In-append_one e g [] = ground arith
In-append_one e g (x ∷ m) = ground (arith, In-append_one e g m)

last_first-VisitsAll : VisitsAll last_first
last_first-VisitsAll [] e = ground arith
last_first-VisitsAll (g ∷ m) e =
    ground (arith, last_first-VisitsAll m e, In-append_one e g (last_first m))

get_highest_weight_host-IsHeaviest_example :
    IsHeaviest (eligible_hosts "reader" hosts) (get_highest_weight_host hosts "reader")
get_highest_weight_host-IsHeaviest_example = get_highest_weight_host-IsHeaviest hosts "reader"

get_weighted_random_host-chosen_example :
    (get_weighted_random_host last_first last hosts "reader" (ok []) set).0
    ≡ ok (reader_host "c" "available" 7)
unfolding lookup
get_weighted_random_host-chosen_example =
    get_weighted_random_host-chosen last_first last hosts "reader" (ok []) weights set
      last_first-VisitsAll refl

get_weighted_random_host-IsPick_example :
    IsPick
      (eligible_hosts "reader" hosts)
      (get_weighted_random_host last_first last hosts "reader" (ok []) set).0
get_weighted_random_host-IsPick_example =
    get_weighted_random_host-IsPick last_first last hosts "reader" (ok []) weights set
      last_first-VisitsAll last-lt refl

abbrev info : ClusterInfo
info = record {
  last_host = none;
  cluster_weights_map = ("a", 3) ∷ [];
  default_weight = 1;
  weight_counter = 0;
  last_weight_pairs = "a:3";
  last_default_weight = 1;
}

or_default-le : (o : Option ℕ) → 1 ≤ or_default 1 o
or_default-le none = omega arith
or_default-le (some w) = ground arith

info-IsWeighted : IsWeighted info
unfolding weight_of
info-IsWeighted = λ g. or_default-le (lookup g.host_id info.cluster_weights_map)

abbrev a_reader : HostInfo
a_reader = reader_host "a" "available" 5

abbrev c_reader : HostInfo
c_reader = reader_host "c" "available" 7

-- Three turns of the first host and one of the second.
four_turns :
    (turns 4 (a_reader ∷ c_reader ∷ []) info).0
    ≡ ok a_reader ∷ ok a_reader ∷ ok a_reader ∷ ok c_reader ∷ []
unfolding turns get_next_host lookup
four_turns = refl

turns-by_weight_example :
    turns (total info (a_reader ∷ c_reader ∷ [])) (a_reader ∷ c_reader ∷ []) (at_turn info none 0)
    ≡ (by_weight info (a_reader ∷ c_reader ∷ []), at_turn info (some c_reader) 0)
turns-by_weight_example =
    turns-by_weight info a_reader (c_reader ∷ []) none info-IsWeighted (tt, ((refl, tt), tt))
      (inl refl)
