-- ===== src/Util/ExpirationCache/Reads.antt =====
-- What a reader of expiration_cache.go sees while entries expire and are purged.
use aws_advanced_go_wrapper.Base.{
  ℕ, ◌+◌, ◌≤◌, ◌≡◌, true, false, not, some, Comparable, arith, Option-cases, inl, inr,
}
use aws_advanced_go_wrapper.Base.Dict.{
  IsUnique, lookup, insert, lookup-filter, lookup-insert_self, insert-IsUnique, only_if,
}
use aws_advanced_go_wrapper.Util.ExpirationCache.{
  ExpirationCache, should_cleanup, extend_expiration, get, remove_expired_entries,
}

module _ {ℓ κ} {K : Type ℓ} {V : Type κ} ⦃e : Comparable K⦄ where
  -- What the purge leaves at a key.
  lookup-remove_expired :
      (now : ℕ) (j : K) (c : ExpirationCache K V)
      → IsUnique c.cache
      → lookup j (remove_expired_entries now c).0.cache
        ≡ only_if (λ _ it. not (should_cleanup now it)) j (lookup j c.cache)
  unfolding remove_expired_entries
  lookup-remove_expired now j c u = lookup-filter (λ _ it. not (should_cleanup now it)) j c.cache u

  -- In a cache that does not renew on access, a purge changes no read at its time or later.
  pub get-remove_expired_entries :
      (now later : ℕ) (j : K) (c : ExpirationCache K V)
      → IsUnique c.cache
      → c.renew_on_access ≡ false
      → now ≤ later
      → (get later j (remove_expired_entries now c).0).0 ≡ (get later j c).0
  get-remove_expired_entries now later j c u r h = elim (Option-cases (lookup j c.cache)) [
    | inl e ↦
        unfold get remove_expired_entries should_cleanup in
        ground (arith, lookup-remove_expired now j c u)
    | inr (it, e) ↦
        unfold get remove_expired_entries should_cleanup in
        ground (arith, lookup-remove_expired now j c u)
  ]

  -- In a cache that renews on access, a read that finds a value at `now` keeps it alive: a purge at
  -- any time up to `now + ttl` leaves it, and a read after the purge finds it again.
  pub get_renews :
      (now later : ℕ) (k : K) (v : V) (c : ExpirationCache K V)
      → IsUnique c.cache
      → c.renew_on_access ≡ true
      → (get now k c).0 ≡ some v
      → later ≤ now + c.ttl
      → (get later k (remove_expired_entries later (get now k c).1).0).0 ≡ some v
  unfolding get remove_expired_entries should_cleanup
  get_renews now later k v c u r found h = elim (Option-cases (lookup k c.cache)) [
    | inl e ↦ ground arith
    | inr (it, e) ↦ ground (
      arith,
      lookup-insert_self k (extend_expiration now c.ttl it) c.cache,
      lookup-filter (λ _ it. not (should_cleanup later it)) k
          (insert k (extend_expiration now c.ttl it) c.cache)
          (insert-IsUnique k (extend_expiration now c.ttl it) c.cache u),
    )
  ]
