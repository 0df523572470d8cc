-- ===== src/Util/CacheMap/Laws.antt =====
-- What a reader of the cache sees: cache_map.go against a table with no clean-up.
use aws_advanced_go_wrapper.Base.{
  ℕ, ◌+◌, ◌≤◌, ◌≡◌, refl, not, List, [], ◌∷◌, Option, none, some, Comparable, ◌==◌, arith, ltb,
  if◌then◌else◌,
}
use aws_advanced_go_wrapper.Base.Dict.{
  IsUnique, lookup, delete, lookup-insert, lookup-delete, lookup-filter, insert-IsUnique,
  delete-IsUnique, filter-IsUnique,
}
use aws_advanced_go_wrapper.Util.CacheMap.{CacheMap, new, clean_up, store, put, get, remove, clear}

module _ {ℓ κ} {K : Type ℓ} {V : Type κ} ⦃e : Comparable K⦄ where
  clean_up-IsUnique :
      (now : ℕ) (c : CacheMap K V) → IsUnique c.cache → IsUnique (clean_up now c).cache
  unfolding clean_up
  clean_up-IsUnique now c u =
      ground (arith, filter-IsUnique (λ _ v. not (ltb v.expiration_time now)) c.cache u)

  -- A clean-up takes no entry that a reader can still see.
  get-clean_up :
      (now later : ℕ) (j : K) (c : CacheMap K V)
      → IsUnique c.cache
      → now ≤ later
      → get later j (clean_up now c) ≡ get later j c
  unfolding get clean_up
  get-clean_up now later j c u h =
      ground (arith, lookup-filter (λ _ v. not (ltb v.expiration_time now)) j c.cache u)

  get-store :
      (now later : ℕ) (k j : K) (v : V) (ttl : ℕ) (c : CacheMap K V)
      → get later j (store now k v ttl c)
        ≡ (if k == j then (if ltb (now + ttl) later then none else some v) else get later j c)
  unfolding get store
  get-store now later k j v ttl c =
      ground (arith, lookup-insert k j (record { item = v; expiration_time = now + ttl }) c.cache)

  store-IsUnique :
      (now : ℕ) (k : K) (v : V) (ttl : ℕ) (c : CacheMap K V)
      → IsUnique c.cache
      → IsUnique (store now k v ttl c).cache
  unfolding store
  store-IsUnique now k v ttl c u = insert-IsUnique k _ c.cache u

  get-put :
      (now later : ℕ) (k j : K) (v : V) (ttl : ℕ) (c : CacheMap K V)
      → IsUnique c.cache
      → now ≤ later
      → get later j (put now k v ttl c)
        ≡ (if k == j then (if ltb (now + ttl) later then none else some v) else get later j c)
  unfolding put
  get-put now later k j v ttl c u h = ground (
    arith,
    get-clean_up now later j (store now k v ttl c) (store-IsUnique now k v ttl c u) h,
    get-store now later k j v ttl c,
  )

  get-remove :
      (now later : ℕ) (k j : K) (c : CacheMap K V)
      → IsUnique c.cache
      → now ≤ later
      → get later j (remove now k c) ≡ (if k == j then none else get later j c)
  unfolding remove
  get-remove now later k j c u h = ground (
    arith,
    get-clean_up now later j (record c { cache = delete k c.cache }) (delete-IsUnique k c.cache u)
        h,
    unremoved,
  )
    where
      unremoved :
          get later j (record c { cache = delete k c.cache })
          ≡ (if k == j then none else get later j c)
      unremoved = unfold get in ground (arith, lookup-delete k j c.cache)

-- A call of one of the methods that write whatever the cache holds.
pub data Call {ℓ κ} (K : Type ℓ) (V : Type κ) : Type (ℓ ⊔ κ) where
  puts : K → V → ℕ → Call K V
  removes : K → Call K V
  clears cleans : Call K V

module _ {ℓ κ} {K : Type ℓ} {V : Type κ} ⦃e : Comparable K⦄ where
  pub step : ℕ → Call K V → CacheMap K V → CacheMap K V
  step now (puts k v ttl) c = put now k v ttl c
  step now (removes k) c = remove now k c
  step now clears c = clear now c
  step now cleans c = clean_up now c

  -- The specification: what a table that never forgets answers for a key at a time. It is read off
  -- the history alone, newest call first.
  unfoldable pub answer : ℕ → K → List (ℕ × Call K V) → Option V
  answer later j [] = none
  answer later j ((now, puts k v ttl) ∷ older) =
      if k == j then (if ltb (now + ttl) later then none else some v) else answer later j older
  answer later j ((now, removes k) ∷ older) = if k == j then none else answer later j older
  answer later j ((now, clears) ∷ older) = none
  answer later j ((now, cleans) ∷ older) = answer later j older

  -- The cache after a history, newest call first, and the clock that never runs backwards.
  pub run : ℕ → List (ℕ × Call K V) → CacheMap K V
  run start [] = new start
  run start ((now, o) ∷ older) = step now o (run start older)

  abbrev pub IsTimed : ℕ → List (ℕ × Call K V) → Type 0
  IsTimed later [] = Unit
  IsTimed later ((now, o) ∷ older) = (now ≤ later) × IsTimed now older

  run-IsUnique : (start : ℕ) (os : List (ℕ × Call K V)) → IsUnique (run start os).cache
  unfolding run step new put remove clear
  run-IsUnique start [] = tt
  run-IsUnique start ((now, puts k v ttl) ∷ os) =
      clean_up-IsUnique now (store now k v ttl (run start os))
        (store-IsUnique now k v ttl (run start os) (run-IsUnique start os))
  run-IsUnique start ((now, removes k) ∷ os) =
      clean_up-IsUnique now (record (run start os) { cache = delete k (run start os).cache })
        (delete-IsUnique k (run start os).cache (run-IsUnique start os))
  run-IsUnique start ((now, clears) ∷ os) = tt
  run-IsUnique start ((now, cleans) ∷ os) =
      clean_up-IsUnique now (run start os) (run-IsUnique start os)

  IsTimed-mono :
      (now later : ℕ) (os : List (ℕ × Call K V)) → now ≤ later → IsTimed now os → IsTimed later os
  IsTimed-mono now later [] h t = tt
  IsTimed-mono now later ((m, o) ∷ os) h t = (omega arith, t.1)

  -- After any history of puts, removals, clears and clean-ups at times that never fall, and at any
  -- time from the last of them, a read answers what the history says: the value of the last put of
  -- the key that no removal or clear has followed, if its time is not over, and nothing otherwise.
  -- When the clean-ups ran makes no difference.
  pub get-run :
      (start later : ℕ) (j : K) (os : List (ℕ × Call K V))
      → IsTimed later os
      → get later j (run start os) ≡ answer later j os
  unfolding run step answer
  get-run start later j [] t = unfold get new lookup in refl
  get-run start later j ((now, puts k v ttl) ∷ os) t = ground (
    arith,
    get-put now later k j v ttl (run start os) (run-IsUnique start os) t.0,
    get-run start later j os (IsTimed-mono now later os t.0 t.1),
  )
  get-run start later j ((now, removes k) ∷ os) t = ground (
    arith,
    get-remove now later k j (run start os) (run-IsUnique start os) t.0,
    get-run start later j os (IsTimed-mono now later os t.0 t.1),
  )
  get-run start later j ((now, clears) ∷ os) t = unfold get clear lookup in refl
  get-run start later j ((now, cleans) ∷ os) t = ground (
    arith,
    get-clean_up now later j (run start os) (run-IsUnique start os) t.0,
    get-run start later j os (IsTimed-mono now later os t.0 t.1),
  )
