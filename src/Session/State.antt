-- ===== src/Session/State.antt =====
-- awssql/driver_infrastructure/session_state.go. A nil pointer is `none`.
use aws_advanced_go_wrapper.Base.{
  ℕ, String, ◌≡◌, refl, Bool, true, false, not, Option, none, some, Comparable, ◌==◌,
}

pub record Field {ℓ} (T : Type ℓ) : Type ℓ where
  pub value : Option T
  pub pristine_value : Option T

module _ {ℓ} {T : Type ℓ} where
  abbrev pub empty : Field T
  empty = record { value = none; pristine_value = none }

  unfoldable pub set_value : T → Field T → Field T
  set_value v f = record f { value = some v }

  unfoldable pub reset_value : Field T → Field T
  reset_value f = record f { value = none }

  unfoldable pub set_pristine_value : T → Field T → Field T
  set_pristine_value v f = record f { pristine_value = some v }

  unfoldable pub reset_pristine_value : Field T → Field T
  reset_pristine_value f = record f { pristine_value = none }

  unfoldable pub reset : Field T → Field T
  unfolding reset_value reset_pristine_value
  reset f = reset_pristine_value (reset_value f)

  differs : ⦃e : Comparable T⦄ → T → Option T → Bool
  differs p none = true
  differs p (some v) = not (v == p)

  can_restore : ⦃e : Comparable T⦄ → Option T → Option T → Bool
  unfolding differs
  can_restore v none = false
  can_restore v (some p) = differs p v

  unfoldable pub can_restore_pristine : ⦃e : Comparable T⦄ → Field T → Bool
  unfolding can_restore
  can_restore_pristine f = can_restore f.value f.pristine_value

-- The `int` of fixed_value_types.go.
abbrev pub TransactionIsolationLevel : Type 0
TransactionIsolationLevel = ℕ

pub record SessionState : Type 0 where
  pub auto_commit : Field Bool
  pub read_only : Field Bool
  pub catalog : Field String
  pub schema : Field String
  pub transaction_isolation : Field TransactionIsolationLevel

abbrev pub empty_state : SessionState
empty_state = record {
  auto_commit = empty;
  read_only = empty;
  catalog = empty;
  schema = empty;
  transaction_isolation = empty;
}

-- `if v != nil { f.SetValue(*v) }`
copy_value {ℓ} : {T : Type ℓ} → Option T → Field T → Field T
unfolding set_value
copy_value none f = f
copy_value (some v) f = set_value v f

unfoldable pub copy : SessionState → SessionState
unfolding copy_value
copy s = record {
  auto_commit = copy_value s.auto_commit.value empty;
  read_only = copy_value s.read_only.value empty;
  catalog = copy_value s.catalog.value empty;
  schema = copy_value s.schema.value empty;
  transaction_isolation = copy_value s.transaction_isolation.value empty;
}

copy_value_lem {ℓ} : {T : Type ℓ} (o : Option T) → (copy_value o empty).pristine_value ≡ none
unfolding copy_value set_value
copy_value_lem none = refl
copy_value_lem (some v) = refl

-- The copy has the values and none of the pristine values.
pub copy_pristine :
    (s : SessionState)
    → let t = copy s in
      (t.auto_commit.pristine_value ≡ none)
      × (t.read_only.pristine_value ≡ none)
      × (t.catalog.pristine_value ≡ none)
      × (t.schema.pristine_value ≡ none)
      × (t.transaction_isolation.pristine_value ≡ none)
unfolding copy
copy_pristine s = (
  copy_value_lem s.auto_commit.value,
  copy_value_lem s.read_only.value,
  copy_value_lem s.catalog.value,
  copy_value_lem s.schema.value,
  copy_value_lem s.transaction_isolation.value,
)
