-- ===== src/Util/SlidingCache/Disposal.antt =====
-- What becomes of the values of sliding_expiration_cache.go under any interleaving of its calls, cut
-- where they hold the lock.
use aws_advanced_go_wrapper.Base.{
  ℕ, ◌+◌, ◌≡◌, refl, Bool, true, List, [], ◌∷◌, ◌++◌, map, Option, Comparable, arith, to_list,
  tally, tally-append, tally-map, Option-cases, inl, inr,
}
use aws_advanced_go_wrapper.Base.Dict.{
  Dict, IsUnique, lookup, filter, values, insert-IsUnique, delete-IsUnique, filter-IsUnique,
  tally-insert, tally-delete, tally-filter,
}
use aws_advanced_go_wrapper.Util.CacheMap.{CacheValue}
use aws_advanced_go_wrapper.Util.SlidingCache.{
  SlidingCache, should_cleanup, with_extend_expiration, store, new, remove, cleanup_if_expired,
  read, items, get_all_entries, replace_cache, cleanup_expired_items,
}
use aws_advanced_go_wrapper.Util.SlidingCache.Sections.{
  Section, removes, stores, expires, reads, rounds, replaces, on_item, step, stored, copied,
  dropped, run, all_stored, all_copied, all_disposed, all_dropped,
}

module _ {ℓ κ} {K : Type ℓ} {V : Type κ} ⦃e : Comparable K⦄ where
  pub record IsValid (c : SlidingCache K V) : Type κ where
    pub unique : IsUnique c.cache
    pub disposes : c.has_disposal ≡ true

  -- The entries, the disposed values and the dropped entries of a section balance the entries before
  -- and the values that it brings.
  abbrev Balances :
      (V → Bool)
      → SlidingCache K V
      → List V
      → List (CacheValue V)
      → SlidingCache K V × List V
      → Type 0
  Balances q c new lost r =
      tally (on_item q) (values r.0.cache) + tally q r.1 + tally (on_item q) lost
      ≡ tally q new + tally (on_item q) (values c.cache)

  cleanup_if_expired_lem :
      (q : V → Bool) (now : ℕ) (k : K) (c : SlidingCache K V)
      → IsValid c
      → IsValid (cleanup_if_expired now k c).0 × Balances q c [] [] (cleanup_if_expired now k c)
  unfolding cleanup_if_expired
  cleanup_if_expired_lem q now k c h =
      ground
        (arith, delete-IsUnique k c.cache h.unique, tally-delete (on_item q) k c.cache h.unique)

  read_lem :
      (q : V → Bool) (now : ℕ) (k : K) (ttl : ℕ) (c : SlidingCache K V)
      → IsValid c
      → IsValid (read now k ttl c).1 × Balances q c [] [] ((read now k ttl c).1, [])
  unfolding read
  read_lem q now k ttl c h = elim (Option-cases (lookup k c.cache)) [
    | inl e ↦ ground arith
    | inr (it, e) ↦ ground (
      arith,
      insert-IsUnique k (with_extend_expiration now ttl it) c.cache h.unique,
      tally-insert (on_item q) k (with_extend_expiration now ttl it) c.cache,
    )
  ]

  remove_lem :
      (q : V → Bool) (k : K) (c : SlidingCache K V)
      → IsValid c
      → IsValid (remove k c).0 × Balances q c [] [] (remove k c)
  unfolding remove
  remove_lem q k c h = (
    record { unique = delete-IsUnique k c.cache h.unique; disposes = h.disposes },
    ground (arith, tally-delete (on_item q) k c.cache h.unique),
  )

  store_lem :
      (q : V → Bool) (now : ℕ) (k : K) (v : V) (ttl : ℕ) (c : SlidingCache K V)
      → IsValid c
      → IsValid (store now k v ttl c)
        × Balances q c (v ∷ []) (to_list (lookup k c.cache)) (store now k v ttl c, [])
  unfolding store
  store_lem q now k v ttl c h =
      let it : CacheValue V = record { item = v; expiration_time = now + ttl } in
      (
        record { unique = insert-IsUnique k it c.cache h.unique; disposes = h.disposes },
        omega (arith, tally-insert (on_item q) k it c.cache),
      )

  rounds_lem :
      (q : V → Bool) (now : ℕ) (c : SlidingCache K V)
      → IsValid c
      → IsValid (cleanup_expired_items now c).0 × Balances q c [] [] (cleanup_expired_items now c)
  unfolding cleanup_expired_items
  rounds_lem q now c h = (
    record { unique = filter-IsUnique _ c.cache h.unique; disposes = h.disposes },
    ground (
      arith,
      tally-filter (on_item q) (λ _ it. should_cleanup now c.should_dispose it) c.cache,
      tally-map q (λ it. it.item)
          (values (filter (λ _ it. should_cleanup now c.should_dispose it) c.cache)),
    ),
  )

  replace_cache_lem :
      (q : V → Bool) (now : ℕ) (entries : Dict K V) (c : SlidingCache K V)
      → IsValid c
      → IsValid (replace_cache now entries c).0
        × Balances q c (values entries) (values c.cache) (replace_cache now entries c)
  unfolding replace_cache values
  replace_cache_lem q now entries c h =
      (record { unique = tt; disposes = h.disposes }, ground (arith, h.disposes))

  step_lem :
      (q : V → Bool) (now : ℕ) (o : Section K V) (c : SlidingCache K V)
      → IsValid c
      → IsValid (step now o c).0 × Balances q c (stored o ++ copied o) (dropped o c) (step now o c)
  unfolding step
  step_lem q now (removes k) c h = remove_lem q k c h
  step_lem q now (stores k v ttl) c h = store_lem q now k v ttl c h
  step_lem q now (expires k) c h = cleanup_if_expired_lem q now k c h
  step_lem q now (reads k ttl) c h = read_lem q now k ttl c h
  step_lem q now rounds c h = rounds_lem q now c h
  step_lem q now (replaces entries) c h = replace_cache_lem q now entries c h

  run-tally :
      (q : V → Bool) (os : List (ℕ × Section K V)) (c : SlidingCache K V)
      → IsValid c
      → tally (on_item q) (values (run os c).cache)
          + tally q (all_disposed os c)
          + tally (on_item q) (all_dropped os c)
        ≡ tally q (all_stored os) + tally q (all_copied os) + tally (on_item q) (values c.cache)
  unfolding run all_stored all_copied all_disposed all_dropped
  run-tally q [] c h = omega arith
  run-tally q ((now, o) ∷ os) c h = omega (
    arith,
    (step_lem q now o c h).1,
    run-tally q os (step now o c).0 (step_lem q now o c h).0,
    tally-append q (stored o) (copied o),
    tally-append q (stored o) (all_stored os),
    tally-append q (copied o) (all_copied os),
    tally-append q (step now o c).1 (all_disposed os (step now o c).0),
    tally-append (on_item q) (dropped o c) (all_dropped os (step now o c).0),
  )

  -- Over any interleaving of the sections of calls and of clean-up rounds, from an empty cache that
  -- has a disposal function, whatever its `shouldDispose` function and whatever entries the calls of
  -- `Clear` have copied: the values still in the cache, those handed to the disposal function and
  -- those dropped without it are the values written and those copied, each as often. Only a write
  -- over an entry and the end of `Clear` drop any.
  pub sliding_sections_conserve :
      (q : V → Bool) (start : ℕ) (f : Option (V → Bool)) (os : List (ℕ × Section K V))
      → let c = new {K = K} start true f in
        tally (on_item q) (values (run os c).cache)
          + tally q (all_disposed os c)
          + tally (on_item q) (all_dropped os c)
        ≡ tally q (all_stored os) + tally q (all_copied os)
  unfolding new values
  sliding_sections_conserve q start f os =
      omega
        (arith, run-tally q os (new {K = K} start true f) (record { unique = tt; disposes = refl }))

  tally-items :
      (q : V → Bool) (m : Dict K (CacheValue V))
      → tally q (values (items m)) ≡ tally (on_item q) (values m)
  unfolding items values
  tally-items q [] = refl
  tally-items q ((k, it) ∷ m) = omega (arith, tally-items q m)

  -- When a round of the clean-up goroutine comes between the copy of the entries that `Clear` makes
  -- and the rest of it, every value of the cache is handed to the disposal function, and those that
  -- are due are so twice.
  pub clear_disposes_twice :
      (q : V → Bool) (now later : ℕ) (c : SlidingCache K V)
      → IsUnique c.cache
      → c.has_disposal ≡ true
      → let entries = get_all_entries c in
        let (c', gone) = cleanup_expired_items now c in
        let (c'', more) = replace_cache later entries c' in
        (c''.cache ≡ [])
        × (tally q (gone ++ more)
            ≡ tally (on_item q) (values c.cache)
              + tally
                  (on_item q)
                  (values (filter (λ _ it. should_cleanup now c.should_dispose it) c.cache)))
  unfolding cleanup_expired_items replace_cache get_all_entries
  clear_disposes_twice q now later c u d =
      let due = values (filter (λ _ it. should_cleanup now c.should_dispose it) c.cache) in
      (
        refl,
        rw d (
            omega (
              arith,
              tally-append q (map (λ (it : CacheValue V). it.item) due) (values (items c.cache)),
              tally-map q (λ (it : CacheValue V). it.item) due,
              tally-items q c.cache,
            )),
      )
