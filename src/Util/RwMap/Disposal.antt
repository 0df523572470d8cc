-- ===== src/Util/RwMap/Disposal.antt =====
-- What becomes of the values of a map with a disposal function: rw_map.go over whole histories.
use aws_advanced_go_wrapper.Base.{
  ◌+◌, ◌≡◌, refl, Bool, true, List, [], ◌∷◌, ◌++◌, Comparable, arith, tally, tally-append,
  if◌then◌else◌, is_some,
}
use aws_advanced_go_wrapper.Base.Dict.{
  Dict, IsUnique, lookup, values, insert-IsUnique, delete-IsUnique, filter-IsUnique, tally-insert,
  tally-delete, tally-filter,
}
use aws_advanced_go_wrapper.Util.RwMap.{
  RwMap, new_with_disposal_func, put, compute_if_absent, put_if_absent, remove, clear,
  replace_cache_with_map, remove_if, filter_entries,
}

-- A call of one of the methods that change the map. The map that replaces the content is a Go map,
-- so its keys are distinct.
pub data Call {ℓ κ} (K : Type ℓ) (V : Type κ) ⦃e : Comparable K⦄ : Type (ℓ ⊔ κ) where
  puts computes puts_if_absent : K → V → Call K V
  removes : K → Call K V
  clears : Call K V
  removes_if filters : (K → V → Bool) → Call K V
  replaces : (m : Dict K V) → IsUnique m → Call K V

module _ {ℓ κ} {K : Type ℓ} {V : Type κ} ⦃e : Comparable K⦄ where
  pub step : Call K V → RwMap K V → RwMap K V × List V
  step (puts k v) c = put k v c
  step (computes k v) c = ((compute_if_absent k v c).1, [])
  step (puts_if_absent k v) c = (put_if_absent k v c, [])
  step (removes k) c = remove k c
  step clears c = clear c
  step (removes_if p) c = ((remove_if p c).1, (remove_if p c).2)
  step (filters p) c = filter_entries p c
  step (replaces m _) c = replace_cache_with_map m c

  -- What a call stores: a value is left out where the key is there already.
  pub stored : Call K V → RwMap K V → List V
  stored (puts k v) c = v ∷ []
  stored (computes k v) c = if is_some (lookup k c.cache) then [] else v ∷ []
  stored (puts_if_absent k v) c = if is_some (lookup k c.cache) then [] else v ∷ []
  stored (replaces m _) c = values m
  stored _ c = []

  pub run : List (Call K V) → RwMap K V → RwMap K V
  run [] c = c
  run (o ∷ os) c = run os (step o c).0

  pub all_stored : List (Call K V) → RwMap K V → List V
  all_stored [] c = []
  all_stored (o ∷ os) c = stored o c ++ all_stored os (step o c).0

  pub all_disposed : List (Call K V) → RwMap K V → List V
  all_disposed [] c = []
  all_disposed (o ∷ os) c = (step o c).1 ++ all_disposed os (step o c).0

  pub record IsValid (c : RwMap K V) : Type κ where
    pub unique : IsUnique c.cache
    pub disposes : c.has_disposal ≡ true

  step-IsValid : (o : Call K V) (c : RwMap K V) → IsValid c → IsValid (step o c).0
  unfolding step put compute_if_absent put_if_absent remove clear remove_if filter_entries
      replace_cache_with_map
  step-IsValid (puts k v) c h = ground (arith, insert-IsUnique k v c.cache h.unique)
  step-IsValid (computes k v) c h = ground (arith, insert-IsUnique k v c.cache h.unique)
  step-IsValid (puts_if_absent k v) c h = ground (arith, insert-IsUnique k v c.cache h.unique)
  step-IsValid (removes k) c h = ground (arith, delete-IsUnique k c.cache h.unique)
  step-IsValid clears c h = ground arith
  step-IsValid (removes_if p) c h = record {
    unique = filter-IsUnique _ c.cache h.unique;
    disposes = h.disposes;
  }
  step-IsValid (filters p) c h = record {
    unique = filter-IsUnique p c.cache h.unique;
    disposes = h.disposes;
  }
  step-IsValid (replaces m u) c h = record { unique = u; disposes = h.disposes }

  step-tally :
      (q : V → Bool) (o : Call K V) (c : RwMap K V)
      → IsValid c
      → tally q (values (step o c).0.cache) + tally q (step o c).1
        ≡ tally q (stored o c) + tally q (values c.cache)
  unfolding step stored put compute_if_absent put_if_absent remove clear remove_if filter_entries
      replace_cache_with_map
  step-tally q (puts k v) c h = ground (arith, tally-insert q k v c.cache)
  step-tally q (computes k v) c h = ground (arith, tally-insert q k v c.cache)
  step-tally q (puts_if_absent k v) c h = ground (arith, tally-insert q k v c.cache)
  step-tally q (removes k) c h = ground (arith, tally-delete q k c.cache h.unique)
  step-tally q clears c h = unfold values in ground arith
  step-tally q (removes_if p) c h = ground (arith, tally-filter q p c.cache)
  step-tally q (filters p) c h = ground (arith, tally-filter q p c.cache)
  step-tally q (replaces m u) c h = ground arith

  run-tally :
      (q : V → Bool) (os : List (Call K V)) (c : RwMap K V)
      → IsValid c
      → tally q (values (run os c).cache) + tally q (all_disposed os c)
        ≡ tally q (all_stored os c) + tally q (values c.cache)
  unfolding run all_stored all_disposed
  run-tally q [] c h = omega arith
  run-tally q (o ∷ os) c h = omega (
    arith,
    step-tally q o c h,
    run-tally q os (step o c).0 (step-IsValid o c h),
    tally-append q (stored o c) (all_stored os (step o c).0),
    tally-append q (step o c).1 (all_disposed os (step o c).0),
  )

  -- Over any history of calls from an empty map that has a disposal function, the values stored
  -- are those still in the map and those handed to the disposal function, each as often: no value
  -- is dropped undisposed, and none is disposed of twice or while the map still holds it.
  pub disposal_conserves :
      (q : V → Bool) (os : List (Call K V))
      → let c = run os new_with_disposal_func in
        tally q (values c.cache) + tally q (all_disposed os new_with_disposal_func)
        ≡ tally q (all_stored os new_with_disposal_func)
  unfolding new_with_disposal_func values
  disposal_conserves q os =
      omega (arith, run-tally q os new_with_disposal_func (record { unique = tt; disposes = refl }))
