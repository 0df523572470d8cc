-- ===== src/Failover/Slice.antt =====
-- awssql/utils/utils.go: FilterSlice and RemoveFromSlice. A slice is a length over an array, which
-- other slices may share; both start at the array's first place.
pub mod Loss
use aws_advanced_go_wrapper.Base.{ℕ, zero, suc, Bool, List, [], ◌∷◌, keep, if◌then◌else◌}

module _ {ℓ} {A : Type ℓ} where
  unfoldable pub filter_slice : (A → Bool) → List A → List A
  filter_slice p xs = keep p xs

  -- What a slice shows of its array.
  unfoldable pub shown : ℕ → List A → List A
  shown zero xs = []
  shown (suc n) [] = []
  shown (suc n) (x ∷ xs) = x ∷ shown n xs

  -- `append(slice[:0], slice[1:]...)` for a slice of the given length and one: the array keeps its
  -- size and its last place in the slice keeps its content.
  unfoldable pub shift : ℕ → List A → List A
  shift n [] = []
  shift zero (x ∷ xs) = x ∷ xs
  shift (suc n) (x ∷ []) = x ∷ []
  shift (suc n) (x ∷ y ∷ ys) = y ∷ shift n (y ∷ ys)

  -- The array and the new length, after the first entry that compares equal has been removed.
  unfoldable pub remove_from_slice : (A → A → Bool) → A → ℕ → List A → List A × ℕ
  unfolding shift
  remove_from_slice same item zero xs = (xs, 0)
  remove_from_slice same item (suc n) [] = ([], suc n)
  remove_from_slice same item (suc n) (x ∷ xs) =
      let (ys, m) = remove_from_slice same item n xs in
      if same x item then (shift n (x ∷ xs), n) else (x ∷ ys, suc m)
