-- ===== src/Table/Order.antt =====
-- include/evm_runtime/tables.hpp: tables whose rows are in the order of their primary keys, as
-- eosio::multi_index keeps them, and what a lookup by a test sees after a change.
use eos_evm_contract.Prelude.{
  ℕ, ◌+◌, ◌≤◌, ◌<◌, ◌≡◌, refl, Bool, true, false, none, some, [], ◌∷◌, arith, Bool-cases, inl, inr,
  ltb, ◌==◌, if◌then◌else◌,
}
use eos_evm_contract.Table.{Table, find_by, put, available_primary_key}

module _ {ℓ} {V : Type ℓ} where
  -- Rows in ascending order of their ids, from `low` on, as multi_index keeps them.
  unfoldable pub IsAscending : ℕ → Table V → Type 0
  IsAscending low [] = Unit {0}
  IsAscending low ((id, r) ∷ t) = (low ≤ id) × IsAscending (id + 1) t

  pub found_above :
      (low : ℕ) (t : Table V) (p : V → Bool) (id : ℕ) (r : V)
      → IsAscending low t
      → find_by p t ≡ some (id, r)
      → (low ≤ id) × (p r ≡ true)
  unfolding find_by IsAscending
  found_above low [] p id r h f = cc
  found_above low ((i, w) ∷ t) p id r h f = elim (Bool-cases (p w)) [
    | inl here ↦ ground (arith, here, h.0)
    | inr later ↦
        let next = found_above (i + 1) t p id r h.1 (ground (arith, later)) in
        (omega (arith, next.0, h.0), next.1)
  ]

  -- The first row that passes a test, overwritten by one that passes it.
  pub find_by-put :
      (low : ℕ) (t : Table V) (p : V → Bool) (id : ℕ) (r r' : V)
      → IsAscending low t
      → find_by p t ≡ some (id, r)
      → p r' ≡ true
      → find_by p (put id r' t) ≡ some (id, r')
  unfolding find_by put IsAscending
  find_by-put low [] p id r r' h f e = cc
  find_by-put low ((i, w) ∷ t) p id r r' h f e = elim (Bool-cases (p w)) [
    | inl here ↦ ground (arith, here, e)
    | inr later ↦
        let rest : find_by p t ≡ some (id, r) = ground (arith, later) in
        let above = found_above (i + 1) t p id r h.1 rest in
        let next = find_by-put (i + 1) t p id r r' h.1 rest e in
        ground (arith, later, above.0, next)
  ]

  -- A row that fails another test, overwritten by one that fails it.
  pub find_by-put_other :
      (low : ℕ) (t : Table V) (p q : V → Bool) (id : ℕ) (r r' : V)
      → IsAscending low t
      → find_by q t ≡ some (id, r)
      → p r ≡ false
      → p r' ≡ false
      → find_by p (put id r' t) ≡ find_by p t
  unfolding find_by put IsAscending
  find_by-put_other low [] p q id r r' h f e e' = cc
  find_by-put_other low ((i, w) ∷ t) p q id r r' h f e e' = elim (Bool-cases (q w)) [
    | inl here ↦ ground (arith, here, e, e')
    | inr later ↦
        let rest : find_by q t ≡ some (id, r) = ground (arith, later) in
        let above = found_above (i + 1) t q id r h.1 rest in
        let next = find_by-put_other (i + 1) t p q id r r' h.1 rest e e' in
        ground (arith, later, above.0, next)
  ]

  pub last_above :
      (low i : ℕ) (w : V) (t : Table V)
      → IsAscending low ((i, w) ∷ t)
      → i < available_primary_key ((i, w) ∷ t)
  unfolding IsAscending available_primary_key
  last_above low i w [] h = omega arith
  last_above low i w ((j, x) ∷ t) h =
      let next = last_above (i + 1) j x t h.1 in omega (arith, next, h.1.0)

  -- A row behind all others.
  pub find_by-put_last :
      (low k : ℕ) (t : Table V) (p : V → Bool) (r : V)
      → IsAscending low t
      → available_primary_key t ≤ k
      → find_by p (put k r t)
        ≡ elim (find_by p t) [ some found ↦ some found | none ↦ if p r then some (k, r) else none ]
  unfolding find_by put IsAscending available_primary_key
  find_by-put_last low k [] p r h e = refl
  find_by-put_last low k ((i, w) ∷ []) p r h e = ground (arith, h)
  find_by-put_last low k ((i, w) ∷ (j, x) ∷ t) p r h e =
      let next = find_by-put_last (i + 1) k ((j, x) ∷ t) p r h.1 e in
      let below = last_above low i w ((j, x) ∷ t) h in
      let behind : ltb k i ≡ false = ground (arith, below, e) in
      let apart : (k == i) ≡ false = ground (arith, below, e) in
      rw (behind, apart)
        (elim (Bool-cases (p w)) [ inl here ↦ rw here refl | inr later ↦ rw later next ])
