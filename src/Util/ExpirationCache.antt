-- ===== src/Util/ExpirationCache.antt =====
-- awssql/utils/expiration_cache.go. Times and durations are nanoseconds from 0, and a method takes
-- the time at which it runs. The last part of a result lists the values handed to
-- `itemDisposalFunc`, which a cache may lack.
mod Reads
mod Disposal
mod Tests
use aws_advanced_go_wrapper.Base.{
  ℕ, ◌+◌, Bool, true, false, not, ◌&&◌, List, [], ◌∷◌, map, Option, none, some, Comparable, length,
  ltb, nat_beq, to_list, if◌then◌else◌,
}
use aws_advanced_go_wrapper.Base.Dict.{Dict, lookup, insert, delete, filter, values}

pub record ExpirationItem {ℓ} (V : Type ℓ) : Type ℓ where
  pub item : V
  pub expiration_time : ℕ
  -- `none` is a nil function.
  pub should_dispose : Option (V → Bool)

module _ {ℓ} {V : Type ℓ} where
  unfoldable pub is_expired : ℕ → ExpirationItem V → Bool
  is_expired now it = ltb it.expiration_time now

  abbrev agrees : V → Option (V → Bool) → Bool
  agrees v none = true
  agrees v (some f) = f v

  unfoldable pub should_cleanup : ℕ → ExpirationItem V → Bool
  unfolding is_expired
  should_cleanup now it = is_expired now it && agrees it.item it.should_dispose

  extend_expiration : ℕ → ℕ → ExpirationItem V → ExpirationItem V
  extend_expiration now ttl it = record it { expiration_time = now + ttl }

  item_of : Option (ExpirationItem V) → Option V
  item_of none = none
  item_of (some it) = some it.item

pub record ExpirationCache {ℓ κ} (K : Type ℓ) (V : Type κ) : Type (ℓ ⊔ κ) where
  pub cache : Dict K (ExpirationItem V)
  pub ttl : ℕ
  pub renew_on_access : Bool
  pub should_dispose : Option (V → Bool)
  -- `itemDisposalFunc != nil`
  pub has_disposal : Bool

-- Five minutes.
abbrev pub default_ttl : ℕ
default_ttl = 300_000_000_000

module _ {ℓ κ} {K : Type ℓ} {V : Type κ} ⦃e : Comparable K⦄ where
  pub new : ℕ → Bool → Option (V → Bool) → Bool → ExpirationCache K V
  new ttl renew should_dispose has_disposal = record {
    cache = [];
    ttl = if nat_beq ttl 0 then default_ttl else ttl;
    renew_on_access = renew;
    should_dispose = should_dispose;
    has_disposal = has_disposal;
  }

  abbrev pub disposed : ExpirationCache K V → List (ExpirationItem V) → List V
  disposed c its = if c.has_disposal then map (λ it. it.item) its else []

  fresh : ℕ → V → ExpirationCache K V → ExpirationItem V
  fresh now v c = record {
    item = v;
    expiration_time = now + c.ttl;
    should_dispose = c.should_dispose;
  }

  -- The value that stood at the key, the cache, and what was disposed of.
  unfoldable pub put : ℕ → K → V → ExpirationCache K V → Option V × ExpirationCache K V × List V
  unfolding fresh item_of
  put now key value c = (
    item_of (lookup key c.cache),
    record c { cache = insert key (fresh now value c) c.cache },
    disposed c (to_list (lookup key c.cache)),
  )

  unfoldable pub get : ℕ → K → ExpirationCache K V → Option V × ExpirationCache K V
  unfolding is_expired extend_expiration
  get now key c = elim (lookup key c.cache) [
    | none ↦ (none, c)
    | some it ↦
        if c.renew_on_access
        then (
          some it.item,
          record c { cache = insert key (extend_expiration now c.ttl it) c.cache },
        )
        else if is_expired now it
        then (none, c)
        else (some it.item, c)
  ]

  -- `computed` is what `computeFunc` would return.
  unfoldable pub compute_if_absent :
      ℕ → K → V → ExpirationCache K V → V × ExpirationCache K V × List V
  unfolding is_expired extend_expiration fresh
  compute_if_absent now key computed c = elim (lookup key c.cache) [
    | none ↦ (computed, record c { cache = insert key (fresh now computed c) c.cache }, [])
    | some it ↦
        if c.renew_on_access
        then (it.item, record c { cache = insert key (extend_expiration now c.ttl it) c.cache }, [])
        else if not (is_expired now it)
        then (it.item, c, [])
        else (
          computed,
          record c { cache = insert key (fresh now computed c) c.cache },
          disposed c (it ∷ []),
        )
  ]

  unfoldable pub exists : ℕ → K → ExpirationCache K V → Bool
  unfolding should_cleanup
  exists now key c = elim (lookup key c.cache) [
    | none ↦ false
    | some it ↦ not (should_cleanup now it)
  ]

  unfoldable pub remove : K → ExpirationCache K V → Option V × ExpirationCache K V × List V
  unfolding item_of
  remove key c = (
    item_of (lookup key c.cache),
    record c { cache = delete key c.cache },
    disposed c (to_list (lookup key c.cache)),
  )

  unfoldable pub remove_expired_entries : ℕ → ExpirationCache K V → ExpirationCache K V × List V
  unfolding should_cleanup
  remove_expired_entries now c = (
    record c { cache = filter (λ _ it. not (should_cleanup now it)) c.cache },
    disposed c (values (filter (λ _ it. should_cleanup now it) c.cache)),
  )

  unfoldable pub clear : ExpirationCache K V → ExpirationCache K V × List V
  clear c = (record c { cache = [] }, disposed c (values c.cache))

  items : Dict K (ExpirationItem V) → Dict K V
  items [] = []
  items ((k, it) ∷ m) = (k, it.item) ∷ items m

  unfoldable pub get_entries : ExpirationCache K V → Dict K V
  unfolding items
  get_entries c = items c.cache

  unfoldable pub size : ExpirationCache K V → ℕ
  size c = length c.cache
