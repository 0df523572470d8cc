-- ===== src/Util/SlidingCache/Sections.antt =====
-- The calls of sliding_expiration_cache.go as runs of the sections in which they hold the lock.
use aws_advanced_go_wrapper.Base.{
  ℕ, ◌≡◌, refl, Bool, List, [], ◌∷◌, ◌++◌, none, Comparable, arith, to_list,
}
use aws_advanced_go_wrapper.Base.Dict.{Dict, lookup, values}
use aws_advanced_go_wrapper.Util.CacheMap.{CacheValue}
use aws_advanced_go_wrapper.Util.SlidingCache.{
  SlidingCache, store, remove, cleanup_if_expired, read, get_all_entries, replace_cache,
  cleanup_expired_items, put, get, compute_if_absent, clear,
}

-- What one goroutine does with the lock held: `Remove`; the write of `Put` and of the two
-- `ComputeIfAbsent`; the two parts of `Get`; a round of the clean-up goroutine; and the end of
-- `Clear`, with the entries that its start has copied. The sections that change nothing are left
-- out.
pub data Section {ℓ κ} (K : Type ℓ) (V : Type κ) : Type (ℓ ⊔ κ) where
  removes : K → Section K V
  stores : K → V → ℕ → Section K V
  expires : K → Section K V
  reads : K → ℕ → Section K V
  rounds : Section K V
  replaces : Dict K V → Section K V

-- The test of a value, as a test of the entry that holds it.
abbrev pub on_item {ℓ} : {V : Type ℓ} → (V → Bool) → CacheValue V → Bool
on_item q it = q it.item

module _ {ℓ κ} {K : Type ℓ} {V : Type κ} ⦃e : Comparable K⦄ where
  unfoldable pub step : ℕ → Section K V → SlidingCache K V → SlidingCache K V × List V
  step now (removes k) c = remove k c
  step now (stores k v ttl) c = (store now k v ttl c, [])
  step now (expires k) c = cleanup_if_expired now k c
  step now (reads k ttl) c = ((read now k ttl c).1, [])
  step now rounds c = cleanup_expired_items now c
  step now (replaces entries) c = replace_cache now entries c

  -- The values that a section puts into the cache.
  abbrev pub stored : Section K V → List V
  stored (stores k v ttl) = v ∷ []
  stored o = []

  -- The values that `Clear` has copied.
  abbrev pub copied : Section K V → List V
  copied (replaces entries) = values entries
  copied o = []

  -- The entries that a section drops as it finds them in the cache, with no disposal: the one that a
  -- write overwrites, and all that are there at the end of `Clear`.
  abbrev pub dropped : Section K V → SlidingCache K V → List (CacheValue V)
  dropped (stores k v ttl) c = to_list (lookup k c.cache)
  dropped (replaces entries) c = values c.cache
  dropped o c = []

  unfoldable pub run : List (ℕ × Section K V) → SlidingCache K V → SlidingCache K V
  run [] c = c
  run ((now, o) ∷ os) c = run os (step now o c).0

  unfoldable pub all_disposed : List (ℕ × Section K V) → SlidingCache K V → List V
  all_disposed [] c = []
  all_disposed ((now, o) ∷ os) c = (step now o c).1 ++ all_disposed os (step now o c).0

  unfoldable pub all_dropped : List (ℕ × Section K V) → SlidingCache K V → List (CacheValue V)
  all_dropped [] c = []
  all_dropped ((now, o) ∷ os) c = dropped o c ++ all_dropped os (step now o c).0

  unfoldable pub all_stored : List (ℕ × Section K V) → List V
  all_stored [] = []
  all_stored ((now, o) ∷ os) = stored o ++ all_stored os

  unfoldable pub all_copied : List (ℕ × Section K V) → List V
  all_copied [] = []
  all_copied ((now, o) ∷ os) = copied o ++ all_copied os

  -- A call that no other comes between is its sections in a row.
  put-run :
      (now : ℕ) (k : K) (v : V) (ttl : ℕ) (c : SlidingCache K V)
      → (put now k v ttl c).0 ≡ run ((now, removes k) ∷ (now, stores k v ttl) ∷ []) c
  unfolding put run step
  put-run now k v ttl c = refl

  get-run :
      (now : ℕ) (k : K) (ttl : ℕ) (c : SlidingCache K V)
      → (get now k ttl c).1 ≡ run ((now, expires k) ∷ (now, reads k ttl) ∷ []) c
  unfolding get run step
  get-run now k ttl c = refl

  compute_if_absent-run :
      (now : ℕ) (k : K) (v : V) (ttl : ℕ) (c : SlidingCache K V)
      → (get now k ttl c).0 ≡ none
      → (compute_if_absent now k v ttl c).1
        ≡ run ((now, expires k) ∷ (now, reads k ttl) ∷ (now, stores k v ttl) ∷ []) c
  unfolding compute_if_absent get run step
  compute_if_absent-run now k v ttl c absent = ground arith

  clear-run :
      (now : ℕ) (c : SlidingCache K V)
      → (clear now c).0 ≡ run ((now, replaces (get_all_entries c)) ∷ []) c
  unfolding clear run step
  clear-run now c = refl
