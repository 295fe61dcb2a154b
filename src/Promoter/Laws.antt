-- ===== src/Promoter/Laws.antt =====
-- What a reader of a promoted value sees.
use eos_evm_contract.Prelude.{
  ℕ, ◌≤◌, ◌≡◌, refl, Bool, none, some, arith, ltb, Result, ok, if◌then◌else◌,
}
use eos_evm_contract.Promoter.{Promoter, has_active, get_value, get_value_and_maybe_promote, update}

module _ {ℓ} {T : Type ℓ} (block_num : ℕ → ℕ) where
  -- A change never aborts unless its visitor does. It starts from the value in force, and it is
  -- seen by exactly the readers in later blocks: whoever reads in the block of the change or
  -- before still gets the value that was in force when the change was made.
  pub get_value-update :
      (v : Promoter T) (f : T → Result T) (x : T) (t t' : ℕ)
      → f (get_value block_num v t) ≡ ok x
      → (w : Promoter T) × (update block_num v f t ≡ ok w)
        × (get_value block_num w t'
            ≡ (if ltb (block_num t) (block_num t') then x else get_value block_num v t))
  unfolding get_value update
  get_value-update v f x t t' h = (
    record {
      pending_value = some (record { value = x; time = t });
      cached_value = get_value block_num v t;
    },
    ground arith,
    ground arith,
  )

  -- Promotion does not abort, returns the value in force, and changes no reading from that block on.
  pub get_value-promote :
      (v : Promoter T) (t t' : ℕ)
      → block_num t ≤ block_num t'
      → (w : Promoter T) × (promoted : Bool) × (get_value_and_maybe_promote block_num v t
          ≡ ok (w, get_value block_num v t, promoted))
        × (get_value block_num w t' ≡ get_value block_num v t')
        × (promoted ≡ has_active block_num v.pending_value t)
  unfolding get_value get_value_and_maybe_promote has_active
  get_value-promote v t t' h = (
    (if has_active block_num v.pending_value t
        then record { pending_value = none; cached_value = get_value block_num v t }
        else v),
    has_active block_num v.pending_value t,
    ground arith,
    ground arith,
    refl,
  )
