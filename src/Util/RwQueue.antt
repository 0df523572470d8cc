-- ===== src/Util/RwQueue.antt =====
-- awssql/utils/rw_queue.go. Each method holds the lock from its start to its end, so it is one
-- step on the list of items. The front of the queue is the head of the list.
use aws_advanced_go_wrapper.Base.{
  ℕ, Bool, true, false, not, List, [], ◌∷◌, ◌++◌, Option, none, some, length, keep,
}

pub record RwQueue {ℓ} (A : Type ℓ) : Type ℓ where
  pub items : List A

module _ {ℓ} {A : Type ℓ} where
  unfoldable pub new : RwQueue A
  new = record { items = [] }

  unfoldable pub enqueue : A → RwQueue A → RwQueue A
  enqueue item q = record { items = q.items ++ item ∷ [] }

  -- `none` is the source's `zero, false`.
  unfoldable pub dequeue : RwQueue A → Option A × RwQueue A
  dequeue q = elim q.items [ [] ↦ (none, q) | item ∷ rest ↦ (some item, record { items = rest }) ]

  unfoldable pub size : RwQueue A → ℕ
  size q = length q.items

  abbrev is_nil : List A → Bool
  is_nil [] = true
  is_nil (x ∷ xs) = false

  unfoldable pub is_empty : RwQueue A → Bool
  is_empty q = is_nil q.items

  -- The items that `fn` is called on, in order.
  unfoldable pub for_each : RwQueue A → List A
  for_each q = q.items

  unfoldable pub remove_if : (A → Bool) → RwQueue A → RwQueue A
  remove_if condition q = record { items = keep (λ item. not (condition item)) q.items }
