-- ===== src/Util/RwMap/Tests.antt =====
-- Runs of rw_map.go.
use aws_advanced_go_wrapper.Base.{nat_comparable, ℕ, ◌+◌, ◌≡◌, List, [], ◌∷◌, tally, ltb}
use aws_advanced_go_wrapper.Base.Dict.{values}
use aws_advanced_go_wrapper.Util.RwMap.{new_with_disposal_func}
use aws_advanced_go_wrapper.Util.RwMap.Disposal.{
  Call, run, all_stored, all_disposed, disposal_conserves,
}

abbrev history : List (Call ℕ ℕ)
history =
    Call.puts 1 10 ∷ Call.puts 1 11 ∷ Call.puts_if_absent 1 12 ∷ Call.removes 1 ∷ Call.clears ∷ []

disposal_conserves_example :
    tally (λ v. ltb v 11) (values (run history new_with_disposal_func).cache)
      + tally (λ v. ltb v 11) (all_disposed history new_with_disposal_func)
    ≡ tally (λ v. ltb v 11) (all_stored history new_with_disposal_func)
disposal_conserves_example = disposal_conserves (λ v. ltb v 11) history
