-- ===== src/Util/RwMap.antt =====
-- awssql/utils/rw_map.go. Each method holds the lock throughout, so it is one step. A call of the
-- disposal function is an effect: the second part of a result lists the values handed to it.
mod Disposal
mod Tests
use aws_advanced_go_wrapper.Base.{
  ℕ, Bool, true, false, not, List, [], ◌++◌, Option, none, some, Comparable, length, to_list,
  if◌then◌else◌, is_some,
}
use aws_advanced_go_wrapper.Base.Dict.{Dict, lookup, insert, delete, filter, values}

pub record RwMap {ℓ κ} (K : Type ℓ) (V : Type κ) : Type (ℓ ⊔ κ) where
  pub cache : Dict K V
  -- `disposalFunc != nil`
  pub has_disposal : Bool

module _ {ℓ κ} {K : Type ℓ} {V : Type κ} ⦃e : Comparable K⦄ where
  -- What the disposal function is called on, when these values leave the map.
  abbrev pub disposed : RwMap K V → List V → List V
  disposed c vs = if c.has_disposal then vs else []

  unfoldable pub new : RwMap K V
  new = record { cache = []; has_disposal = false }

  pub new_with_disposal_func : RwMap K V
  new_with_disposal_func = record { cache = []; has_disposal = true }

  pub new_from_map : Dict K V → RwMap K V
  new_from_map m = record { cache = m; has_disposal = false }

  unfoldable pub get_all_entries : RwMap K V → Dict K V
  get_all_entries c = c.cache

  -- `none` is a nil map.
  pub new_from_copy : Option (RwMap K V) → RwMap K V
  unfolding new new_from_map get_all_entries
  new_from_copy none = new
  new_from_copy (some c) = new_from_map (get_all_entries c)

  unfoldable pub put : K → V → RwMap K V → RwMap K V × List V
  put k v c = (record c { cache = insert k v c.cache }, disposed c (to_list (lookup k c.cache)))

  unfoldable pub get : K → RwMap K V → Option V
  get k c = lookup k c.cache

  -- The value that the map holds afterwards, and the map.
  unfoldable pub compute_if_absent : K → V → RwMap K V → V × RwMap K V
  compute_if_absent k computed c = elim (lookup k c.cache) [
    | some item ↦ (item, c)
    | none ↦ (computed, record c { cache = insert k computed c.cache })
  ]

  unfoldable pub put_if_absent : K → V → RwMap K V → RwMap K V
  put_if_absent k v c =
      if is_some (lookup k c.cache) then c else record c { cache = insert k v c.cache }

  unfoldable pub remove : K → RwMap K V → RwMap K V × List V
  remove k c = elim (lookup k c.cache) [
    | none ↦ (c, [])
    | some v ↦ (record c { cache = delete k c.cache }, disposed c (to_list (some v)))
  ]

  clear_with_disposal_func : RwMap K V → RwMap K V × List V
  clear_with_disposal_func c = (record c { cache = [] }, values c.cache)

  unfoldable pub clear : RwMap K V → RwMap K V × List V
  unfolding clear_with_disposal_func
  clear c = if c.has_disposal then clear_with_disposal_func c else (record c { cache = [] }, [])

  unfoldable pub replace_cache_with_map : Dict K V → RwMap K V → RwMap K V × List V
  replace_cache_with_map m c = (record c { cache = m }, disposed c (values c.cache))

  unfoldable pub replace_cache_with_copy : RwMap K V → RwMap K V → RwMap K V × List V
  unfolding replace_cache_with_map get_all_entries
  replace_cache_with_copy m c = replace_cache_with_map (get_all_entries m) c

  unfoldable pub size : RwMap K V → ℕ
  size c = length c.cache

  -- The entries that match, and the map without them, with what was disposed of.
  unfoldable pub remove_if : (K → V → Bool) → RwMap K V → Dict K V × RwMap K V × List V
  remove_if predicate c = (removed, record c { cache = rest }, disposed c (values removed))
    where
      removed : Dict K V
      removed = filter predicate c.cache

      rest : Dict K V
      rest = filter (λ k v. not (predicate k v)) c.cache

  -- The entries that the processor is called on after the removal, in order.
  unfoldable pub process_and_remove_if : (K → Bool) → RwMap K V → Dict K V × RwMap K V × List V
  unfolding remove_if
  process_and_remove_if condition c = remove_if (λ k _. condition k) c

  unfoldable pub filter_entries : (K → V → Bool) → RwMap K V → RwMap K V × List V
  filter_entries condition c = (
    record c { cache = filter condition c.cache },
    disposed c (values (filter (λ k v. not (condition k v)) c.cache)),
  )
