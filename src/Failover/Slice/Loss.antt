-- ===== src/Failover/Slice/Loss.antt =====
-- What a removal through one slice does to another slice of the same array.
use aws_advanced_go_wrapper.Base.{
  ℕ, suc, ◌≡◌, refl, ap, ◌∙◌, Bool, true, false, List, [], ◌∷◌, ◌++◌, length, All, if_true,
  if_false, length-append, arith,
}
use aws_advanced_go_wrapper.Failover.Slice.{shown, shift, remove_from_slice}

module _ {ℓ} {A : Type ℓ} where
  -- The last entry of a list, with one for the empty list.
  abbrev pub last_of : A → List A → A
  last_of x [] = x
  last_of x (y ∷ ys) = last_of y ys

  shift-lem : (x : A) (ys : List A) → shift (length ys) (x ∷ ys) ≡ ys ++ last_of x ys ∷ []
  unfolding shift
  shift-lem x [] = refl
  shift-lem x (y ∷ ys) = ap (λ (l : List A). y ∷ l) (shift-lem y ys)

  remove-lem :
      (same : A → A → Bool) (item : A) (xs ys : List A) (x : A)
      → All (λ y. same y item ≡ false) xs
      → same x item ≡ true
      → remove_from_slice same item (length (xs ++ x ∷ ys)) (xs ++ x ∷ ys)
        ≡ (xs ++ ys ++ last_of x ys ∷ [], length (xs ++ ys))
  unfolding remove_from_slice
  remove-lem same item [] ys x d e =
      if_true (same x item) _ _ e ∙ ap (λ (l : List A). (l, length ys)) (shift-lem x ys)
  remove-lem same item (z ∷ xs) ys x d e =
      if_false (same z item) _ _ d.0
      ∙ ap (λ (r : List A × ℕ). (z ∷ r.0, suc r.1)) (remove-lem same item xs ys x d.1 e)

  pub shown-append : (xs ys : List A) → shown (length xs) (xs ++ ys) ≡ xs
  unfolding shown
  shown-append [] [] = refl
  shown-append [] (y ∷ ys) = refl
  shown-append (x ∷ xs) ys = ap (λ (l : List A). x ∷ l) (shown-append xs ys)

  shown_all : (xs : List A) → shown (length xs) xs ≡ xs
  unfolding shown
  shown_all [] = refl
  shown_all (x ∷ xs) = ap (λ (l : List A). x ∷ l) (shown_all xs)

  -- Through the slice that the item is removed from, it is gone and nothing else is.
  pub shown-remove :
      (same : A → A → Bool) (item : A) (xs ys : List A) (x : A)
      → All (λ y. same y item ≡ false) xs
      → same x item ≡ true
      → shown
          (remove_from_slice same item (length (xs ++ x ∷ ys)) (xs ++ x ∷ ys)).1
          (remove_from_slice same item (length (xs ++ x ∷ ys)) (xs ++ x ∷ ys)).0
        ≡ xs ++ ys
  shown-remove same item xs ys x d e =
      ap (λ (r : List A × ℕ). shown r.1 r.0) (remove-lem same item xs ys x d e)
      ∙ shown-append (xs ++ ys) (last_of x ys ∷ [])

  length-around :
      (xs ys : List A) (x : A) → length (xs ++ x ∷ ys) ≡ length (xs ++ ys ++ last_of x ys ∷ [])
  length-around xs ys x = omega (
    arith,
    length-append xs (x ∷ ys),
    length-append (xs ++ ys) (last_of x ys ∷ []),
    length-append xs ys,
  )

  -- Through another slice of the same length it is gone too, and the last entry stands there twice.
  pub shown-remove_elsewhere :
      (same : A → A → Bool) (item : A) (xs ys : List A) (x : A)
      → All (λ y. same y item ≡ false) xs
      → same x item ≡ true
      → shown
          (length (xs ++ x ∷ ys))
          (remove_from_slice same item (length (xs ++ x ∷ ys)) (xs ++ x ∷ ys)).0
        ≡ xs ++ ys ++ last_of x ys ∷ []
  shown-remove_elsewhere same item xs ys x d e =
      ap (λ (r : List A × ℕ). shown (length (xs ++ x ∷ ys)) r.0) (remove-lem same item xs ys x d e)
      ∙ ap (λ (n : ℕ). shown n (xs ++ ys ++ last_of x ys ∷ [])) (length-around xs ys x)
      ∙ shown_all (xs ++ ys ++ last_of x ys ∷ [])
