-- ===== src/Table.antt =====
-- A table of the chain's database (`eosio::multi_index`): rows under a 64-bit primary key, kept in
-- the order of the keys, which is the order in which iterators pass over them.
use eos_evm_contract.Prelude.{
  ℕ, ◌+◌, ◌≡◌, refl, Bool, Option, none, some, List, [], ◌∷◌, arith, ltb, ◌==◌, if◌then◌else◌,
}
pub mod Order
pub mod Bounds
pub mod Index

abbrev pub Table {ℓ} : Type ℓ → Type ℓ
Table V = List (ℕ × V)

module _ {ℓ} {V : Type ℓ} where
  -- multi_index::find
  unfoldable pub find : ℕ → Table V → Option V
  find k [] = none
  find k ((j, v) ∷ t) = if k == j then some v else find k t

  -- `emplace` at a new key, and `modify` at one that is there.
  unfoldable pub put : ℕ → V → Table V → Table V
  put k v [] = (k, v) ∷ []
  put k v ((j, w) ∷ t) =
      if ltb k j then (k, v) ∷ (j, w) ∷ t else (if k == j then (k, v) ∷ t else (j, w) ∷ put k v t)

  -- multi_index::erase
  unfoldable pub erase : ℕ → Table V → Table V
  erase k [] = []
  erase k ((j, w) ∷ t) = let rest = erase k t in if k == j then rest else (j, w) ∷ rest

  -- multi_index::available_primary_key: one more than the last key.
  unfoldable pub available_primary_key : Table V → ℕ
  available_primary_key [] = 0
  available_primary_key ((j, v) ∷ []) = j + 1
  available_primary_key ((j, v) ∷ r ∷ t) = available_primary_key (r ∷ t)

  -- The first row that passes a test: a lookup through a secondary index.
  unfoldable pub find_by : (V → Bool) → Table V → Option (ℕ × V)
  find_by p [] = none
  find_by p ((j, v) ∷ t) = if p v then some (j, v) else find_by p t

  pub find-put :
      (j k : ℕ) (v : V) (t : Table V) → find j (put k v t) ≡ (if j == k then some v else find j t)
  unfolding find put
  find-put j k v [] = refl
  find-put j k v ((i, w) ∷ t) = ground (arith, find-put j k v t)

  pub find-erase :
      (j k : ℕ) (t : Table V) → find j (erase k t) ≡ (if j == k then none else find j t)
  unfolding find erase
  find-erase j k [] = ground arith
  find-erase j k ((i, w) ∷ t) = ground (arith, find-erase j k t)
