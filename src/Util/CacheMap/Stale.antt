-- ===== src/Util/CacheMap/Stale.antt =====
-- The methods of cache_map.go that look for an entry without its expiration time.
use aws_advanced_go_wrapper.Base.{ℕ, ◌≤◌, ◌<◌, ◌≡◌, none, some, Comparable, arith, not, ltb}
use aws_advanced_go_wrapper.Base.Dict.{IsUnique, lookup, lookup-filter}
use aws_advanced_go_wrapper.Util.CacheMap.{
  CacheMap, CacheValue, get, compute_if_absent, put_if_absent,
}

module _ {ℓ κ} {K : Type ℓ} {V : Type κ} ⦃e : Comparable K⦄ where
  -- Where a key's entry has expired, so that a read misses it, `ComputeIfAbsent` still answers the
  -- expired value and stores nothing, and `PutIfAbsent` drops the new value: a read at that time or
  -- later misses still.
  pub expired_blocks :
      (now later : ℕ) (k : K) (old : CacheValue V) (v : V) (ttl : ℕ) (c : CacheMap K V)
      → IsUnique c.cache
      → lookup k c.cache ≡ some old
      → old.expiration_time < now
      → now ≤ later
      → (get now k c ≡ none)
        × (compute_if_absent now k v ttl c ≡ (old.item, c))
        × (get later k (put_if_absent now k v ttl c) ≡ none)
  unfolding get compute_if_absent put_if_absent
  expired_blocks now later k old v ttl c u found gone h = (
    ground arith,
    ground arith,
    ground (arith, lookup-filter (λ _ w. not (ltb w.expiration_time now)) k c.cache u),
  )
