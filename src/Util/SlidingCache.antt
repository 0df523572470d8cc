-- ===== src/Util/SlidingCache.antt =====
-- awssql/utils/sliding_expiration_cache.go: a cache whose entries live on while they are read.
-- Times and durations are nanoseconds from 0, and a method takes the time at which it runs. The
-- last part of a result lists the values handed to `itemDisposalFunc`, which a cache may lack.
-- `remove`, `store`, `cleanup_if_expired`, `read`, `replace_cache`, `get_all_entries` and the round of
-- the clean-up each hold the lock throughout. `put`, `get`, `compute_if_absent`, its variant with an
-- error, `put_if_absent` and `clear` are made of these and give the lock up between them: as
-- functions here they are calls that no other comes between.
mod Reads
mod Sections
mod Disposal
mod Tests
use aws_advanced_go_wrapper.Base.{
  ℕ, ◌+◌, Bool, true, false, not, ◌&&◌, List, [], ◌∷◌, ◌++◌, map, Option, none, some, Comparable,
  length, ltb, to_list, if◌then◌else◌, is_some,
}
use aws_advanced_go_wrapper.Base.Dict.{Dict, lookup, insert, delete, filter, values}
use aws_advanced_go_wrapper.Util.CacheMap.{CacheValue, is_expired, cleanup_interval}

module _ {ℓ} {V : Type ℓ} where
  with_extend_expiration : ℕ → ℕ → CacheValue V → CacheValue V
  with_extend_expiration now expiration it = record it { expiration_time = now + expiration }

  -- `none` is a nil function.
  unfoldable pub should_cleanup : ℕ → Option (V → Bool) → CacheValue V → Bool
  unfolding is_expired
  should_cleanup now none it = is_expired now it
  should_cleanup now (some f) it = is_expired now it && f it.item

pub record SlidingCache {ℓ κ} (K : Type ℓ) (V : Type κ) : Type (ℓ ⊔ κ) where
  pub cache : Dict K (CacheValue V)
  pub cleanup_interval_nanos : ℕ
  pub cleanup_time : ℕ
  -- `itemDisposalFunc != nil`
  pub has_disposal : Bool
  pub should_dispose : Option (V → Bool)
  -- Set by `CleanUp`: the clean-up goroutine is told to end.
  pub cancelled : Bool

module _ {ℓ κ} {K : Type ℓ} {V : Type κ} ⦃e : Comparable K⦄ where
  pub new : ℕ → Bool → Option (V → Bool) → SlidingCache K V
  new now has_disposal f = record {
    cache = [];
    cleanup_interval_nanos = cleanup_interval;
    cleanup_time = now + cleanup_interval;
    has_disposal = has_disposal;
    should_dispose = f;
    cancelled = false;
  }

  abbrev disposed : SlidingCache K V → List (CacheValue V) → List V
  disposed c its = if c.has_disposal then map (λ it. it.item) its else []

  unfoldable pub remove : K → SlidingCache K V → SlidingCache K V × List V
  remove key c =
      (record c { cache = delete key c.cache }, disposed c (to_list (lookup key c.cache)))

  pub store : ℕ → K → V → ℕ → SlidingCache K V → SlidingCache K V
  store now key value expiration c = record c {
    cache = insert key (record { item = value; expiration_time = now + expiration }) c.cache;
  }

  unfoldable pub put : ℕ → K → V → ℕ → SlidingCache K V → SlidingCache K V × List V
  unfolding remove store
  put now key value expiration c =
      let (c', gone) = remove key c in (store now key value expiration c', gone)

  pub cleanup_if_expired : ℕ → K → SlidingCache K V → SlidingCache K V × List V
  unfolding should_cleanup
  cleanup_if_expired now key c = elim (lookup key c.cache) [
    | none ↦ (c, [])
    | some it ↦
        if should_cleanup now c.should_dispose it
        then (record c { cache = delete key c.cache }, disposed c (it ∷ []))
        else (c, [])
  ]

  -- The part of `Get` after the clean-up.
  pub read : ℕ → K → ℕ → SlidingCache K V → Option V × SlidingCache K V
  unfolding with_extend_expiration
  read now key expiration c = elim (lookup key c.cache) [
    | none ↦ (none, c)
    | some it ↦ (
      some it.item,
      record c { cache = insert key (with_extend_expiration now expiration it) c.cache },
    )
  ]

  unfoldable pub get : ℕ → K → ℕ → SlidingCache K V → Option V × SlidingCache K V × List V
  unfolding cleanup_if_expired read
  get now key expiration c =
      let (c', gone) = cleanup_if_expired now key c in
      let (answer, c'') = read now key expiration c' in (answer, c'', gone)

  -- `computed` is what `computeFunc` would return.
  unfoldable pub compute_if_absent :
      ℕ → K → V → ℕ → SlidingCache K V → V × SlidingCache K V × List V
  unfolding get store
  compute_if_absent now key computed expiration c =
      let (answer, c', gone) = get now key expiration c in
      elim answer [
        | some item ↦ (item, c', gone)
        | none ↦ (computed, store now key computed expiration c', gone)
      ]

  -- `none` for `computed` is an error of `computeFunc`, and `none` in the result an error returned.
  unfoldable pub compute_if_absent_with_error :
      ℕ → K → Option V → ℕ → SlidingCache K V → Option V × SlidingCache K V × List V
  unfolding get store
  compute_if_absent_with_error now key computed expiration c =
      let (answer, c', gone) = get now key expiration c in
      elim answer [
        | some item ↦ (some item, c', gone)
        | none ↦ elim computed [
          | none ↦ (none, c', gone)
          | some v ↦ (some v, store now key v expiration c', gone)
        ]
      ]

  unfoldable pub put_if_absent : ℕ → K → V → ℕ → SlidingCache K V → SlidingCache K V × List V
  unfolding cleanup_if_expired put
  put_if_absent now key value expiration c =
      let (c', gone) = cleanup_if_expired now key c in
      let (c'', more) = put now key value expiration c' in
      if is_some (lookup key c'.cache) then (c', gone) else (c'', gone ++ more)

  items : Dict K (CacheValue V) → Dict K V
  items [] = []
  items ((k, v) ∷ m) = (k, v.item) ∷ items m

  unfoldable pub get_all_entries : SlidingCache K V → Dict K V
  unfolding items
  get_all_entries c = items c.cache

  -- The part of `Clear` after the copy of the entries; they are what is disposed of.
  unfoldable pub replace_cache : ℕ → Dict K V → SlidingCache K V → SlidingCache K V × List V
  replace_cache now entries c = (
    record c { cache = []; cleanup_time = now + cleanup_interval },
    if c.has_disposal then values entries else [],
  )

  unfoldable pub clear : ℕ → SlidingCache K V → SlidingCache K V × List V
  unfolding get_all_entries replace_cache
  clear now c = replace_cache now (get_all_entries c) c

  unfoldable pub clean_up : ℕ → SlidingCache K V → SlidingCache K V × List V
  unfolding clear
  clean_up now c = let (c', gone) = clear now c in (record c' { cancelled = true }, gone)

  unfoldable pub set_cleanup_interval_nanos : ℕ → ℕ → SlidingCache K V → SlidingCache K V
  set_cleanup_interval_nanos now interval c = record c {
    cleanup_interval_nanos = interval;
    cleanup_time = now + interval;
  }

  -- One round of the clean-up goroutine, after its sleep.
  unfoldable pub cleanup_expired_items : ℕ → SlidingCache K V → SlidingCache K V × List V
  unfolding should_cleanup
  cleanup_expired_items now c = (
    record c { cache = filter (λ _ it. not (should_cleanup now c.should_dispose it)) c.cache },
    disposed c (values (filter (λ _ it. should_cleanup now c.should_dispose it) c.cache)),
  )

  unfoldable pub size : SlidingCache K V → ℕ
  size c = length c.cache
