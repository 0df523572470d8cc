-- ===== src/Util/CacheMap.antt =====
-- awssql/utils/cache_map.go. Times and durations are nanoseconds, as numbers from 0; a method takes
-- the time at which it runs, once. A call of `time.Now()` later in the same method reads the same.
mod Laws
mod Stale
mod Tests
use aws_advanced_go_wrapper.Base.{
  ℕ, ◌+◌, Bool, not, List, [], ◌∷◌, Option, none, some, Comparable, length, ltb, if◌then◌else◌,
  is_some,
}
use aws_advanced_go_wrapper.Base.Dict.{Dict, lookup, insert, delete, filter}

pub record CacheValue {ℓ} (V : Type ℓ) : Type ℓ where
  pub item : V
  pub expiration_time : ℕ

-- `time.Now().After(c.expirationTime)`
unfoldable pub is_expired {ℓ} : {V : Type ℓ} → ℕ → CacheValue V → Bool
is_expired now v = ltb v.expiration_time now

abbrev live_item {ℓ} : {V : Type ℓ} → ℕ → Option (CacheValue V) → Option V
live_item now none = none
live_item now (some v) = if ltb v.expiration_time now then none else some v.item

pub record CacheMap {ℓ κ} (K : Type ℓ) (V : Type κ) : Type (ℓ ⊔ κ) where
  pub cache : Dict K (CacheValue V)
  pub cleanup_time : ℕ
  pub default_expiration : ℕ

-- Ten minutes, the value of the variable `CleanupIntervalNanos`.
abbrev pub cleanup_interval : ℕ
cleanup_interval = 600_000_000_000

module _ {ℓ κ} {K : Type ℓ} {V : Type κ} ⦃e : Comparable K⦄ where
  pub new : ℕ → CacheMap K V
  new now = record { cache = []; cleanup_time = now + cleanup_interval; default_expiration = 0 }

  pub new_with_default_expiration : ℕ → ℕ → CacheMap K V
  new_with_default_expiration expiration now = record {
    cache = [];
    cleanup_time = now + cleanup_interval;
    default_expiration = expiration;
  }

  unfoldable pub clean_up : ℕ → CacheMap K V → CacheMap K V
  unfolding is_expired
  clean_up now c =
      if ltb c.cleanup_time now
      then record c {
        cache = filter (λ _ v. not (is_expired now v)) c.cache;
        cleanup_time = now + cleanup_interval;
      }
      else c

  -- The write, before the deferred clean-up.
  store : ℕ → K → V → ℕ → CacheMap K V → CacheMap K V
  store now key value expiration c = record c {
    cache = insert key (record { item = value; expiration_time = now + expiration }) c.cache;
  }

  unfoldable pub put : ℕ → K → V → ℕ → CacheMap K V → CacheMap K V
  unfolding store clean_up
  put now key value expiration c = clean_up now (store now key value expiration c)

  unfoldable pub put_with_default_expiration : ℕ → K → V → CacheMap K V → CacheMap K V
  unfolding put
  put_with_default_expiration now key value c = put now key value c.default_expiration c

  -- `none` is the source's `zeroValue, false`.
  unfoldable pub get : ℕ → K → CacheMap K V → Option V
  get now key c = live_item now (lookup key c.cache)

  -- The answer, and the cache. `computed` is what `computeFunc` would return. The source gives the
  -- lock up between the test and the write, here and in `PutIfAbsent`: as functions these are calls
  -- that no other comes between.
  unfoldable pub compute_if_absent : ℕ → K → V → ℕ → CacheMap K V → V × CacheMap K V
  unfolding store
  compute_if_absent now key computed expiration c = elim (lookup key c.cache) [
    | some v ↦ (v.item, c)
    | none ↦ (computed, store now key computed expiration c)
  ]

  unfoldable pub put_if_absent : ℕ → K → V → ℕ → CacheMap K V → CacheMap K V
  unfolding put clean_up
  put_if_absent now key value expiration c =
      clean_up now (if is_some (lookup key c.cache) then c else put now key value expiration c)

  unfoldable pub remove : ℕ → K → CacheMap K V → CacheMap K V
  unfolding clean_up
  remove now key c = clean_up now (record c { cache = delete key c.cache })

  unfoldable pub clear : ℕ → CacheMap K V → CacheMap K V
  clear now c = record c { cache = []; cleanup_time = now + cleanup_interval }

  items : Dict K (CacheValue V) → Dict K V
  items [] = []
  items ((k, v) ∷ m) = (k, v.item) ∷ items m

  unfoldable pub get_all_entries : CacheMap K V → Dict K V
  unfolding items
  get_all_entries c = items c.cache

  unfoldable pub size : CacheMap K V → ℕ
  size c = length c.cache
