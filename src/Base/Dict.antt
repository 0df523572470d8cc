-- ===== src/Base/Dict.antt =====
-- Go's built-in map, as an association list. The order of the list stands for the order in which
-- `range` happens to visit the entries, which Go leaves open.
use Prim.Native.Nat.{◌+◌}
use mathlib.Core.Path.{◌≡◌, refl}
use mathlib.Core.Bool.{Bool, not}
use mathlib.Core.List.{List, [], ◌∷◌}
use mathlib.Core.Option.{Option, none, some}
use native.Mathlib.Omega.{arith}
use aws_advanced_go_wrapper.Base.Tests.{if◌then◌else◌}
use aws_advanced_go_wrapper.Base.Lists.{to_list, tally, one_if}
use aws_advanced_go_wrapper.Base.Keys.{Comparable, ◌==◌}

abbrev pub Dict {ℓ κ} : Type ℓ → Type κ → Type (ℓ ⊔ κ)
Dict K V = List (K × V)

module _ {ℓ κ} {K : Type ℓ} {V : Type κ} ⦃e : Comparable K⦄ where
  -- `m[key] = v`.
  unfoldable pub insert : K → V → Dict K V → Dict K V
  insert key v [] = (key, v) ∷ []
  insert key v ((k, held) ∷ rest) =
      if k == key then (key, v) ∷ rest else (k, held) ∷ insert key v rest

  -- `delete(m, key)`.
  unfoldable pub delete : K → Dict K V → Dict K V
  delete key [] = []
  delete key ((k, held) ∷ rest) = if k == key then delete key rest else (k, held) ∷ delete key rest

  -- `v, ok := m[key]`.
  unfoldable pub lookup : K → Dict K V → Option V
  lookup key [] = none
  lookup key ((k, held) ∷ rest) = if k == key then some held else lookup key rest

  -- A read after a write, and after a removal.
  pub lookup-insert :
      (put got : K) (v : V) (m : Dict K V)
      → lookup got (insert put v m) ≡ (if put == got then some v else lookup got m)
  unfolding insert lookup
  lookup-insert put got v [] = refl
  lookup-insert put got v ((k, held) ∷ rest) =
      ground
        (arith, lookup-insert put got v rest, e.eqb_iff k put, e.eqb_iff k got, e.eqb_iff put got)

  pub lookup-delete :
      (gone got : K) (m : Dict K V)
      → lookup got (delete gone m) ≡ (if gone == got then none else lookup got m)
  unfolding delete lookup
  lookup-delete gone got [] = ground arith
  lookup-delete gone got ((k, held) ∷ rest) =
      ground
        (arith, lookup-delete gone got rest, e.eqb_iff k gone, e.eqb_iff k got, e.eqb_iff gone got)

  pub lookup-insert_self : (k : K) (v : V) (m : Dict K V) → lookup k (insert k v m) ≡ some v
  lookup-insert_self k v m = ground (arith, lookup-insert k k v m, e.eqb_iff k k)

  pub lookup-delete_self : (k : K) (m : Dict K V) → lookup k (delete k m) ≡ none
  lookup-delete_self k m = ground (arith, lookup-delete k k m, e.eqb_iff k k)

  -- Each key stands once, as in every Go map.
  abbrev pub IsUnique : Dict K V → Type κ
  IsUnique [] = Unit
  IsUnique ((k, v) ∷ m) = (lookup k m ≡ none) × IsUnique m

  pub insert-IsUnique : (k : K) (v : V) (m : Dict K V) → IsUnique m → IsUnique (insert k v m)
  unfolding insert lookup
  insert-IsUnique k v [] u = (refl, tt)
  insert-IsUnique k v ((j, w) ∷ m) u =
      ground (arith, lookup-insert k j v m, insert-IsUnique k v m u.1, e.eqb_iff j k, e.eqb_iff k j)

  pub delete_absent : (k : K) (m : Dict K V) → lookup k m ≡ none → delete k m ≡ m
  unfolding delete lookup
  delete_absent k [] h = refl
  delete_absent k ((j, w) ∷ m) h = ground (arith, delete_absent k m)

  pub delete-IsUnique : (k : K) (m : Dict K V) → IsUnique m → IsUnique (delete k m)
  unfolding delete
  delete-IsUnique k [] u = tt
  delete-IsUnique k ((j, w) ∷ m) u = ground (arith, lookup-delete k j m, delete-IsUnique k m u.1)

  -- The entries that a loop over the map leaves in it.
  unfoldable pub filter : (K → V → Bool) → Dict K V → Dict K V
  filter p [] = []
  filter p ((k, v) ∷ m) = if p k v then (k, v) ∷ filter p m else filter p m

  pub lookup-filter_absent :
      (p : K → V → Bool) (k : K) (m : Dict K V) → lookup k m ≡ none → lookup k (filter p m) ≡ none
  unfolding filter lookup
  lookup-filter_absent p k [] h = refl
  lookup-filter_absent p k ((j, w) ∷ m) h = ground (arith, lookup-filter_absent p k m)

  pub filter-IsUnique : (p : K → V → Bool) (m : Dict K V) → IsUnique m → IsUnique (filter p m)
  unfolding filter
  filter-IsUnique p [] u = tt
  filter-IsUnique p ((k, v) ∷ m) u =
      ground (arith, lookup-filter_absent p k m, filter-IsUnique p m u.1)

  abbrev pub only_if : (K → V → Bool) → K → Option V → Option V
  only_if p k none = none
  only_if p k (some v) = if p k v then some v else none

  pub lookup-filter :
      (p : K → V → Bool) (k : K) (m : Dict K V)
      → IsUnique m
      → lookup k (filter p m) ≡ only_if p k (lookup k m)
  unfolding filter lookup
  lookup-filter p k [] u = refl
  lookup-filter p k ((j, w) ∷ m) u =
      ground (arith, lookup-filter p k m u.1, e.eqb_iff j k, lookup-filter_absent p k m)

  unfoldable pub values : Dict K V → List V
  values [] = []
  values ((k, v) ∷ m) = v ∷ values m

  -- Nothing is lost when an entry is written over, deleted or filtered out.
  pub tally-insert :
      (p : V → Bool) (k : K) (v : V) (m : Dict K V)
      → tally p (values (insert k v m)) + tally p (to_list (lookup k m))
        ≡ one_if (p v) + tally p (values m)
  unfolding insert lookup values
  tally-insert p k v [] = omega arith
  tally-insert p k v ((j, w) ∷ m) = ground (arith, tally-insert p k v m)

  pub tally-delete :
      (p : V → Bool) (k : K) (m : Dict K V)
      → IsUnique m
      → tally p (values (delete k m)) + tally p (to_list (lookup k m)) ≡ tally p (values m)
  unfolding delete lookup values
  tally-delete p k [] u = omega arith
  tally-delete p k ((j, w) ∷ m) u =
      ground (arith, tally-delete p k m u.1, e.eqb_iff j k, delete_absent k m)

  pub tally-filter :
      (p : V → Bool) (q : K → V → Bool) (m : Dict K V)
      → tally p (values (filter q m)) + tally p (values (filter (λ k v. not (q k v)) m))
        ≡ tally p (values m)
  unfolding filter values
  tally-filter p q [] = omega arith
  tally-filter p q ((k, v) ∷ m) = ground (arith, tally-filter p q m)
