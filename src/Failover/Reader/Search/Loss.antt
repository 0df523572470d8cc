-- ===== src/Failover/Reader/Search/Loss.antt =====
-- What a failed candidate leaves of the two lists of readers.
use aws_advanced_go_wrapper.Base.{◌≡◌, Bool, true, false, List, [], ◌∷◌, ◌++◌, length, All, Option}
use aws_advanced_go_wrapper.Host.{HostInfo, equals}
use aws_advanced_go_wrapper.Failover.Slice.{shown}
use aws_advanced_go_wrapper.Failover.Slice.Loss.{last_of, shown-remove, shown-remove_elsewhere}
use aws_advanced_go_wrapper.Failover.Reader.Search.{Search, drop_remaining}

-- The variables when a round of the outer loop begins: both slices are the whole array.
abbrev pub round_start : List HostInfo → Option HostInfo → Bool → Search
round_start hosts original_writer is_still_writer = record {
  array = hosts;
  candidates = length hosts;
  remaining = length hosts;
  original_writer = original_writer;
  is_still_writer = is_still_writer;
}

-- The first removal of a round, of a host `x` that stands between `xs` and `ys` and is the first
-- that equals the candidate. The remaining readers lose that host and no other. The reader
-- candidates, which the next round starts from, lose it too, and have their last host once more at
-- their end: unless `x` is the last host itself, it is not tried again.
pub drop_remaining-shown :
    (h x : HostInfo) (xs ys : List HostInfo) (o : Option HostInfo) (b : Bool)
    → All (λ (g : HostInfo). equals g h ≡ false) xs
    → equals x h ≡ true
    → (shown
          (drop_remaining h (round_start (xs ++ x ∷ ys) o b)).remaining
          (drop_remaining h (round_start (xs ++ x ∷ ys) o b)).array
        ≡ xs ++ ys)
      × (shown
            (drop_remaining h (round_start (xs ++ x ∷ ys) o b)).candidates
            (drop_remaining h (round_start (xs ++ x ∷ ys) o b)).array
          ≡ xs ++ ys ++ last_of x ys ∷ [])
unfolding drop_remaining
drop_remaining-shown h x xs ys o b d e =
    (shown-remove equals h xs ys x d e, shown-remove_elsewhere equals h xs ys x d e)
