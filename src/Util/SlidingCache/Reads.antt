-- ===== src/Util/SlidingCache/Reads.antt =====
-- What a reader of sliding_expiration_cache.go sees.
use aws_advanced_go_wrapper.Base.{
  ℕ, ◌+◌, ◌≤◌, ◌≡◌, Bool, not, ◌&&◌, Option, none, some, Comparable, arith, ltb, Option-cases, inl,
  inr, ◌∙◌, if◌then◌else◌,
}
use aws_advanced_go_wrapper.Base.Dict.{
  IsUnique, lookup, lookup-filter, lookup-insert_self, lookup-delete_self, insert-IsUnique,
  delete-IsUnique,
}
use aws_advanced_go_wrapper.Util.CacheMap.{CacheValue}
use aws_advanced_go_wrapper.Util.SlidingCache.{
  SlidingCache, should_cleanup, with_extend_expiration, get, cleanup_expired_items,
}

-- What an entry is worth to a reader: nothing once it is due for the clean-up.
abbrev pub usable {ℓ} : {V : Type ℓ} → ℕ → Option (V → Bool) → Option (CacheValue V) → Option V
usable now f none = none
usable now none (some it) = if ltb it.expiration_time now then none else some it.item
usable now (some f) (some it) =
    if ltb it.expiration_time now && f it.item then none else some it.item

usable_in_time {ℓ} :
    {V : Type ℓ} (later : ℕ) (f : Option (V → Bool)) (it : CacheValue V)
    → later ≤ it.expiration_time
    → usable later f (some it) ≡ some it.item
usable_in_time later none it h = ground arith
usable_in_time later (some f) it h = ground arith

module _ {ℓ κ} {K : Type ℓ} {V : Type κ} ⦃e : Comparable K⦄ where
  -- A read answers the value at the key, unless its time is over and the `shouldDispose` function,
  -- where there is one, agrees to let it go.
  pub get-usable :
      (now : ℕ) (k : K) (ttl : ℕ) (c : SlidingCache K V)
      → (get now k ttl c).0 ≡ usable now c.should_dispose (lookup k c.cache)
  unfolding get
  get-usable now k ttl c = elim (Option-cases (lookup k c.cache)) [
    | inl e ↦ ground arith
    | inr (it, e) ↦ elim (Option-cases c.should_dispose) [
      | inl s ↦ ground (arith, lookup-delete_self k c.cache)
      | inr (f, s) ↦ ground (arith, lookup-delete_self k c.cache)
    ]
  ]

  get_stamps :
      (now : ℕ) (k : K) (ttl : ℕ) (v : V) (c : SlidingCache K V)
      → (get now k ttl c).0 ≡ some v
      → lookup k (get now k ttl c).1.cache ≡ some (record { item = v; expiration_time = now + ttl })
  unfolding get
  get_stamps now k ttl v c found = elim (Option-cases (lookup k c.cache)) [
    | inl e ↦ ground arith
    | inr (it, e) ↦ ground (
      arith,
      lookup-delete_self k c.cache,
      lookup-insert_self k (with_extend_expiration now ttl it) c.cache,
    )
  ]

  get-IsUnique :
      (now : ℕ) (k : K) (ttl : ℕ) (c : SlidingCache K V)
      → IsUnique c.cache
      → IsUnique (get now k ttl c).1.cache
  unfolding get
  get-IsUnique now k ttl c u = elim (Option-cases (lookup k c.cache)) [
    | inl e ↦ ground arith
    | inr (it, e) ↦ ground (
      arith,
      lookup-delete_self k c.cache,
      delete-IsUnique k c.cache u,
      insert-IsUnique k (with_extend_expiration now ttl it) c.cache u,
    )
  ]

  cleanup_expired_items-keeps :
      (later : ℕ) (k : K) (it : CacheValue V) (c : SlidingCache K V)
      → IsUnique c.cache
      → lookup k c.cache ≡ some it
      → later ≤ it.expiration_time
      → lookup k (cleanup_expired_items later c).0.cache ≡ some it
  unfolding cleanup_expired_items
  cleanup_expired_items-keeps later k it c u e h = elim (Option-cases c.should_dispose) [
    | inl s ↦
        ground
          (arith, lookup-filter (λ _ x. not (should_cleanup later c.should_dispose x)) k c.cache u)
    | inr (f, s) ↦
        ground
          (arith, lookup-filter (λ _ x. not (should_cleanup later c.should_dispose x)) k c.cache u)
  ]

  -- A value that a read answers lives on: at any time up to `now + ttl`, and after a round of the
  -- clean-up goroutine at that time, the next read of the key answers it again, whatever the
  -- `shouldDispose` function says.
  pub get_slides :
      (now later : ℕ) (k : K) (ttl ttl' : ℕ) (v : V) (c : SlidingCache K V)
      → IsUnique c.cache
      → later ≤ now + ttl
      → (get now k ttl c).0 ≡ some v
      → (get later k ttl' (cleanup_expired_items later (get now k ttl c).1).0).0 ≡ some v
  get_slides now later k ttl ttl' v c u h found =
      let c' = (get now k ttl c).1 in
      let kept =
        cleanup_expired_items-keeps later k (record { item = v; expiration_time = now + ttl }) c'
          (get-IsUnique now k ttl c u) (get_stamps now k ttl v c found) h in
      get-usable later k ttl' (cleanup_expired_items later c').0
      ∙ rw kept (usable_in_time later _ (record { item = v; expiration_time = now + ttl }) h)
