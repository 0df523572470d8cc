-- ===== src/Util/ExpirationCache/Disposal.antt =====
-- What becomes of the values of expiration_cache.go over whole histories.
use aws_advanced_go_wrapper.Base.{
  ℕ, ◌+◌, ◌≡◌, refl, Bool, true, not, List, [], ◌∷◌, ◌++◌, Option, none, some, Comparable, arith,
  tally, tally-append, tally-map, if◌then◌else◌, Option-cases, inl, inr,
}
use aws_advanced_go_wrapper.Base.Dict.{
  IsUnique, lookup, filter, values, insert-IsUnique, delete-IsUnique, filter-IsUnique, tally-insert,
  tally-delete, tally-filter,
}
use aws_advanced_go_wrapper.Util.ExpirationCache.{
  ExpirationCache, ExpirationItem, should_cleanup, is_expired, extend_expiration, fresh, new, put,
  get, compute_if_absent, remove, remove_expired_entries, clear,
}

-- A call of one of the methods that change the cache.
pub data Call {ℓ κ} (K : Type ℓ) (V : Type κ) : Type (ℓ ⊔ κ) where
  puts computes : K → V → Call K V
  gets removes : K → Call K V
  purges clears : Call K V

module _ {ℓ} {V : Type ℓ} where
  -- The value that a call stores: the computed one only where no usable value is there.
  stored_if : ℕ → V → Bool → Option (ExpirationItem V) → List V
  unfolding is_expired
  stored_if now v renew none = v ∷ []
  stored_if now v renew (some it) =
      if renew then [] else if not (is_expired now it) then [] else v ∷ []

  -- The test of a value, as a test of the entry that holds it.
  abbrev pub on_item : (V → Bool) → ExpirationItem V → Bool
  on_item q it = q it.item

module _ {ℓ κ} {K : Type ℓ} {V : Type κ} ⦃e : Comparable K⦄ where
  pub step : ℕ → Call K V → ExpirationCache K V → ExpirationCache K V × List V
  step now (puts k v) c = ((put now k v c).1, (put now k v c).2)
  step now (computes k v) c = ((compute_if_absent now k v c).1, (compute_if_absent now k v c).2)
  step now (gets k) c = ((get now k c).1, [])
  step now (removes k) c = ((remove k c).1, (remove k c).2)
  step now purges c = remove_expired_entries now c
  step now clears c = clear c

  pub stored : ℕ → Call K V → ExpirationCache K V → List V
  unfolding stored_if
  stored now (puts k v) c = v ∷ []
  stored now (computes k v) c = stored_if now v c.renew_on_access (lookup k c.cache)
  stored now _ c = []

  pub run : List (ℕ × Call K V) → ExpirationCache K V → ExpirationCache K V
  run [] c = c
  run ((now, o) ∷ os) c = run os (step now o c).0

  pub all_stored : List (ℕ × Call K V) → ExpirationCache K V → List V
  all_stored [] c = []
  all_stored ((now, o) ∷ os) c = stored now o c ++ all_stored os (step now o c).0

  pub all_disposed : List (ℕ × Call K V) → ExpirationCache K V → List V
  all_disposed [] c = []
  all_disposed ((now, o) ∷ os) c = (step now o c).1 ++ all_disposed os (step now o c).0

  pub record IsValid (c : ExpirationCache K V) : Type κ where
    pub unique : IsUnique c.cache
    pub disposes : c.has_disposal ≡ true

  step-IsValid :
      (now : ℕ) (o : Call K V) (c : ExpirationCache K V) → IsValid c → IsValid (step now o c).0
  unfolding step put get compute_if_absent remove remove_expired_entries clear
  step-IsValid now (puts k v) c h = record {
    unique = insert-IsUnique k _ c.cache h.unique;
    disposes = h.disposes;
  }
  step-IsValid now (computes k v) c h = elim (Option-cases (lookup k c.cache)) [
    | inl e ↦ ground (arith, insert-IsUnique k (fresh now v c) c.cache h.unique)
    | inr (it, e) ↦ ground (
      arith,
      insert-IsUnique k (fresh now v c) c.cache h.unique,
      insert-IsUnique k (extend_expiration now c.ttl it) c.cache h.unique,
    )
  ]
  step-IsValid now (gets k) c h = elim (Option-cases (lookup k c.cache)) [
    | inl e ↦ ground arith
    | inr (it, e) ↦
        ground (arith, insert-IsUnique k (extend_expiration now c.ttl it) c.cache h.unique)
  ]
  step-IsValid now (removes k) c h = record {
    unique = delete-IsUnique k c.cache h.unique;
    disposes = h.disposes;
  }
  step-IsValid now purges c h = record {
    unique = filter-IsUnique _ c.cache h.unique;
    disposes = h.disposes;
  }
  step-IsValid now clears c h = record { unique = tt; disposes = h.disposes }

  step-tally :
      (q : V → Bool) (now : ℕ) (o : Call K V) (c : ExpirationCache K V)
      → IsValid c
      → tally (on_item q) (values (step now o c).0.cache) + tally q (step now o c).1
        ≡ tally q (stored now o c) + tally (on_item q) (values c.cache)
  unfolding step stored put get compute_if_absent remove remove_expired_entries clear
  step-tally q now (puts k v) c h =
      ground (arith, tally-insert (on_item q) k (fresh now v c) c.cache)
  step-tally q now (computes k v) c h = elim (Option-cases (lookup k c.cache)) [
    | inl e ↦ ground (arith, tally-insert (on_item q) k (fresh now v c) c.cache)
    | inr (it, e) ↦ ground (
      arith,
      tally-insert (on_item q) k (fresh now v c) c.cache,
      tally-insert (on_item q) k (extend_expiration now c.ttl it) c.cache,
    )
  ]
  step-tally q now (gets k) c h = elim (Option-cases (lookup k c.cache)) [
    | inl e ↦ ground arith
    | inr (it, e) ↦
        ground (arith, tally-insert (on_item q) k (extend_expiration now c.ttl it) c.cache)
  ]
  step-tally q now (removes k) c h = ground (arith, tally-delete (on_item q) k c.cache h.unique)
  step-tally q now purges c h = ground (
    arith,
    tally-filter (on_item q) (λ _ it. should_cleanup now it) c.cache,
    tally-map q (λ it. it.item) (values (filter (λ _ it. should_cleanup now it) c.cache)),
  )
  step-tally q now clears c h =
      unfold values in ground (arith, tally-map q (λ it. it.item) (values c.cache))

  run-tally :
      (q : V → Bool) (os : List (ℕ × Call K V)) (c : ExpirationCache K V)
      → IsValid c
      → tally (on_item q) (values (run os c).cache) + tally q (all_disposed os c)
        ≡ tally q (all_stored os c) + tally (on_item q) (values c.cache)
  unfolding run all_stored all_disposed
  run-tally q [] c h = omega arith
  run-tally q ((now, o) ∷ os) c h = omega (
    arith,
    step-tally q now o c h,
    run-tally q os (step now o c).0 (step-IsValid now o c h),
    tally-append q (stored now o c) (all_stored os (step now o c).0),
    tally-append q (step now o c).1 (all_disposed os (step now o c).0),
  )

  -- Over any history of timed calls from an empty cache that has a disposal function, whatever its
  -- time to live, its renewal setting and its `shouldDispose` function, the values stored are those
  -- still in the cache and those handed to the disposal function, each as often.
  pub item_disposal_conserves :
      (q : V → Bool) (ttl : ℕ) (renew : Bool) (f : Option (V → Bool)) (os : List (ℕ × Call K V))
      → let c = new {K = K} ttl renew f true in
        tally (on_item q) (values (run os c).cache) + tally q (all_disposed os c)
        ≡ tally q (all_stored os c)
  unfolding new values
  item_disposal_conserves q ttl renew f os = omega (
    arith,
    run-tally q os (new {K = K} ttl renew f true) (record { unique = tt; disposes = refl }),
  )
