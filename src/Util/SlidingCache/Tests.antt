-- ===== src/Util/SlidingCache/Tests.antt =====
-- Runs of sliding_expiration_cache.go.
use aws_advanced_go_wrapper.Base.{
  nat_comparable, ℕ, ◌+◌, ◌≡◌, refl, true, false, List, [], ◌∷◌, ◌++◌, none, some, arith, tally,
  ltb,
}
use aws_advanced_go_wrapper.Base.Dict.{lookup, values, filter}
use aws_advanced_go_wrapper.Util.SlidingCache.{
  should_cleanup, SlidingCache, new, get, get_all_entries, replace_cache, cleanup_expired_items,
}
use aws_advanced_go_wrapper.Util.SlidingCache.Reads.{get_slides, get-usable, usable}
use aws_advanced_go_wrapper.Util.SlidingCache.Sections.{
  Section, run, all_stored, all_copied, all_disposed, all_dropped, on_item,
}
use aws_advanced_go_wrapper.Util.SlidingCache.Disposal.{
  sliding_sections_conserve, clear_disposes_twice,
}

abbrev holding : SlidingCache ℕ ℕ
holding = record {
  cache = (1, record { item = 7; expiration_time = 5 }) ∷ [];
  cleanup_interval_nanos = 100;
  cleanup_time = 100;
  has_disposal = true;
  should_dispose = none;
  cancelled = false;
}

get-usable_example : (get 6 1 10 holding).0 ≡ usable 6 none (lookup 1 holding.cache)
get-usable_example = get-usable 6 1 10 holding

get_slides_example : (get 14 1 10 (cleanup_expired_items 14 (get 4 1 10 holding).1).0).0 ≡ some 7
unfolding lookup get
get_slides_example = get_slides 4 14 1 10 10 7 holding (refl, tt) (omega arith) refl

-- Two calls of `ComputeIfAbsent` that both find nothing, then a `Clear` with a round in between.
abbrev history : List (ℕ × Section ℕ ℕ)
history =
    (1, Section.reads 1 10)
    ∷ (2, Section.reads 1 10)
    ∷ (3, Section.stores 1 2 10)
    ∷ (4, Section.stores 1 4 10)
    ∷ (50, Section.rounds)
    ∷ (51, Section.replaces ((1, 4) ∷ []))
    ∷ []

sliding_sections_conserve_example :
    let c = new {K = ℕ} 0 true none in
    tally (on_item (λ v. ltb v 3)) (values (run history c).cache)
      + tally (λ v. ltb v 3) (all_disposed history c)
      + tally (on_item (λ v. ltb v 3)) (all_dropped history c)
    ≡ tally (λ v. ltb v 3) (all_stored history) + tally (λ v. ltb v 3) (all_copied history)
sliding_sections_conserve_example = sliding_sections_conserve (λ v. ltb v 3) 0 none history

-- The one value of the cache is due: it is disposed of by the round and by `Clear`.
clear_disposes_twice_example :
    let (c, gone) = cleanup_expired_items 6 holding in
    let (c', more) = replace_cache 7 (get_all_entries holding) c in
    (c'.cache ≡ []) × (tally (λ v. ltb 3 v) (gone ++ more) ≡ 2)
unfolding values filter lookup should_cleanup
clear_disposes_twice_example = clear_disposes_twice (λ v. ltb 3 v) 6 7 holding (refl, tt) refl
