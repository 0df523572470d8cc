-- ===== src/Util/ExpirationCache/Tests.antt =====
-- Runs of expiration_cache.go.
use aws_advanced_go_wrapper.Base.{
  nat_comparable, ℕ, ◌+◌, ◌≡◌, refl, Bool, true, false, List, [], ◌∷◌, none, some, arith, tally,
  ltb,
}
use aws_advanced_go_wrapper.Base.Dict.{lookup, values}
use aws_advanced_go_wrapper.Util.ExpirationCache.{
  ExpirationCache, ExpirationItem, new, get, remove_expired_entries,
}
use aws_advanced_go_wrapper.Util.ExpirationCache.Reads.{get-remove_expired_entries, get_renews}
use aws_advanced_go_wrapper.Util.ExpirationCache.Disposal.{
  Call, run, all_stored, all_disposed, on_item, item_disposal_conserves,
}

abbrev kept_item : ExpirationItem ℕ
kept_item = record { item = 7; expiration_time = 5; should_dispose = some (λ v. ltb v 3) }

abbrev holding : Bool → ExpirationCache ℕ ℕ
holding renew = record {
  cache = (1, kept_item) ∷ [];
  ttl = 10;
  renew_on_access = renew;
  should_dispose = some (λ v. ltb v 3);
  has_disposal = true;
}

get-remove_expired_entries_example :
    (get 9 1 (remove_expired_entries 8 (holding false)).0).0 ≡ (get 9 1 (holding false)).0
unfolding lookup
get-remove_expired_entries_example =
    get-remove_expired_entries 8 9 1 (holding false) (refl, tt) refl (omega arith)

get_renews_example : (get 18 1 (remove_expired_entries 18 (get 8 1 (holding true)).1).0).0 ≡ some 7
unfolding lookup get
get_renews_example = get_renews 8 18 1 7 (holding true) (refl, tt) refl refl (omega arith)

abbrev history : List (ℕ × Call ℕ ℕ)
history =
    (1, Call.puts 1 2) ∷ (5, Call.computes 2 3) ∷ (20, Call.computes 1 4) ∷ (30, Call.purges) ∷ []

item_disposal_conserves_example :
    let c = new {K = ℕ} 10 false none true in
    tally (on_item (λ v. ltb v 3)) (values (run history c).cache)
      + tally (λ v. ltb v 3) (all_disposed history c)
    ≡ tally (λ v. ltb v 3) (all_stored history c)
item_disposal_conserves_example = item_disposal_conserves (λ v. ltb v 3) 10 false none history
