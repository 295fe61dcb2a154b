-- ===== src/Promoter.antt =====
-- include/evm_runtime/value_promoter.hpp: a value with a pending successor that becomes active in
-- the first EVM block after the one in which it was set. The block number of a time, which
-- eosevm::block_mapping computes from the genesis time, is a parameter.
use eos_evm_contract.Prelude.{
  ℕ, ◌≡◌, Bool, true, false, Option, none, some, ltb, Result, ok, err, ◌>>=◌, or_fail,
  if◌then◌else◌,
}
pub mod Laws

-- struct T##_pending
pub record Pending {ℓ} (T : Type ℓ) : Type ℓ where
  pub value : T
  pub time : ℕ

-- struct value_promoter_##T
pub record Promoter {ℓ} (T : Type ℓ) : Type ℓ where
  pub pending_value : Option (Pending T)
  pub cached_value : T

module _ {ℓ} {T : Type ℓ} (block_num : ℕ → ℕ) where
  unfoldable pub is_active : Pending T → ℕ → Bool
  is_active p current_time = ltb (block_num p.time) (block_num current_time)

  -- pending_value.has_value() && pending_value->is_active(...)
  unfoldable pub has_active : Option (Pending T) → ℕ → Bool
  unfolding is_active
  has_active none current_time = false
  has_active (some p) current_time = is_active p current_time

  abbrev pending_or : Option (Pending T) → T → T
  pending_or none c = c
  pending_or (some p) c = p.value

  unfoldable pub get_value : Promoter T → ℕ → T
  unfolding has_active
  get_value v current_time =
      if has_active v.pending_value current_time
      then pending_or v.pending_value v.cached_value
      else v.cached_value

  -- `pending_value.reset()` after the value has moved to the cache.
  unfoldable pub promote_pending : Promoter T → Result (Promoter T)
  promote_pending v = do
    p ← or_fail v.pending_value "no pending value"
    ok (record { pending_value = none; cached_value = p.value })

  unfoldable pub get_value_and_maybe_promote : Promoter T → ℕ → Result (Promoter T × T × Bool)
  unfolding has_active promote_pending
  get_value_and_maybe_promote v current_time =
      if has_active v.pending_value current_time
      then (promote_pending v >>= λ w. ok (w, w.cached_value, true))
      else ok (v, v.cached_value, false)

  -- `visitor_fn` may abort.
  unfoldable pub update : Promoter T → (T → Result T) → ℕ → Result (Promoter T)
  unfolding get_value_and_maybe_promote
  update v visitor_fn current_time = do
    tmp ← get_value_and_maybe_promote v current_time
    value ← visitor_fn tmp.1
    ok (record {
      pending_value = some (record { value = value; time = current_time });
      cached_value = tmp.0.cached_value;
    })
