-- ===== src/Table/Bounds.antt =====
-- include/evm_runtime/tables.hpp: the ids of a table in order and below a bound, after each change.
use eos_evm_contract.Prelude.{
  ℕ, ◌+◌, ◌≤◌, ◌<◌, ◌≡◌, refl, Bool, false, none, some, [], ◌∷◌, arith, Bool-cases, inl, inr, ltb,
  ◌==◌, ap,
}
use eos_evm_contract.Table.{Table, find, find_by, put, erase, available_primary_key}
use eos_evm_contract.Table.Order.{IsAscending, found_above, last_above}

module _ {ℓ} {V : Type ℓ} where
  -- Erasing a row leaves nothing where there was nothing.
  pub find_by-erase-none :
      (k : ℕ) (p : V → Bool) (t : Table V) → find_by p t ≡ none → find_by p (erase k t) ≡ none
  unfolding find_by erase
  find_by-erase-none k p [] h = refl
  find_by-erase-none k p ((i, w) ∷ t) h = ground (arith, find_by-erase-none k p t)

  pub erase-absent : (low k : ℕ) (t : Table V) → IsAscending low t → k < low → erase k t ≡ t
  unfolding erase IsAscending
  erase-absent low k [] h b = refl
  erase-absent low k ((i, w) ∷ t) h b =
      let apart : (k == i) ≡ false = ground (arith, h.0, b) in
      rw apart
        (ap (λ (t : Table V). (i, w) ∷ t) (erase-absent (i + 1) k t h.1 (omega (arith, h.0, b))))

  -- Every id is below a bound.
  unfoldable pub IsBelow : ℕ → Table V → Type 0
  IsBelow n [] = Unit {0}
  IsBelow n ((id, r) ∷ t) = (id < n) × IsBelow n t

  pub available_primary_key-IsBelow :
      (low : ℕ) (t : Table V) → IsAscending low t → IsBelow (available_primary_key t) t
  unfolding IsBelow IsAscending available_primary_key
  available_primary_key-IsBelow low [] h = tt
  available_primary_key-IsBelow low ((i, w) ∷ []) h = (omega arith, tt)
  available_primary_key-IsBelow low ((i, w) ∷ (j, x) ∷ t) h =
      (last_above low i w ((j, x) ∷ t) h, available_primary_key-IsBelow (i + 1) ((j, x) ∷ t) h.1)

  pub available_primary_key-le : (n : ℕ) (t : Table V) → IsBelow n t → available_primary_key t ≤ n
  unfolding IsBelow available_primary_key
  available_primary_key-le n [] h = omega arith
  available_primary_key-le n ((i, w) ∷ []) h = omega (arith, h.0)
  available_primary_key-le n ((i, w) ∷ (j, x) ∷ t) h = available_primary_key-le n ((j, x) ∷ t) h.1

  pub below_tail :
      (n i : ℕ) (w : V) (t : Table V)
      → available_primary_key ((i, w) ∷ t) ≤ n
      → available_primary_key t ≤ n
  unfolding available_primary_key
  below_tail n i w [] h = omega arith
  below_tail n i w ((j, x) ∷ t) h = h

  pub IsBelow-weaken : (n m : ℕ) (t : Table V) → n ≤ m → IsBelow n t → IsBelow m t
  unfolding IsBelow
  IsBelow-weaken n m [] e h = tt
  IsBelow-weaken n m ((i, w) ∷ t) e h = (omega (arith, h.0, e), IsBelow-weaken n m t e h.1)

  pub IsBelow-put : (n k : ℕ) (v : V) (t : Table V) → k < n → IsBelow n t → IsBelow n (put k v t)
  unfolding IsBelow put
  IsBelow-put n k v [] b h = (b, tt)
  IsBelow-put n k v ((i, w) ∷ t) b h = ground (arith, IsBelow-put n k v t b h.1)

  pub IsBelow-erase : (n k : ℕ) (t : Table V) → IsBelow n t → IsBelow n (erase k t)
  unfolding IsBelow erase
  IsBelow-erase n k [] h = tt
  IsBelow-erase n k ((i, w) ∷ t) h = ground (arith, IsBelow-erase n k t h.1)

  pub IsBelow-find : (n k : ℕ) (v : V) (t : Table V) → IsBelow n t → find k t ≡ some v → k < n
  unfolding IsBelow find
  IsBelow-find n k v [] h f = cc
  IsBelow-find n k v ((i, w) ∷ t) h f = ground (arith, IsBelow-find n k v t h.1)

  pub IsAscending-lower :
      (low low' : ℕ) (t : Table V) → low' ≤ low → IsAscending low t → IsAscending low' t
  unfolding IsAscending
  IsAscending-lower low low' [] b h = tt
  IsAscending-lower low low' ((i, w) ∷ t) b h = (omega (arith, h.0, b), h.1)

  pub IsAscending-put :
      (low k : ℕ) (v : V) (t : Table V) → low ≤ k → IsAscending low t → IsAscending low (put k v t)
  unfolding IsAscending put
  IsAscending-put low k v [] b h = (b, tt)
  IsAscending-put low k v ((i, w) ∷ t) b h = elim (Bool-cases (ltb k i)) [
    | inl before ↦ rw before (b, (ground (arith, before), h.1))
    | inr behind ↦ elim (Bool-cases (k == i)) [
      | inl here ↦
          let same : k ≡ i = ground (arith, here) in
          rw (behind, here) (b, IsAscending-lower (i + 1) (k + 1) t (omega (arith, same)) h.1)
      | inr later ↦
          rw (behind, later)
            (h.0, IsAscending-put (i + 1) k v t (ground (arith, behind, later)) h.1)
    ]
  ]

  pub IsAscending-erase :
      (low k : ℕ) (t : Table V) → IsAscending low t → IsAscending low (erase k t)
  unfolding IsAscending erase
  IsAscending-erase low k [] h = tt
  IsAscending-erase low k ((i, w) ∷ t) h = elim (Bool-cases (k == i)) [
    | inl here ↦ rw here (
        IsAscending-lower (i + 1) low (erase k t) (omega (arith, h.0))
          (IsAscending-erase (i + 1) k t h.1))
    | inr later ↦ rw later (h.0, IsAscending-erase (i + 1) k t h.1)
  ]

  -- A row that the index leads to is the row under its id.
  pub find-found :
      (low : ℕ) (t : Table V) (p : V → Bool) (id : ℕ) (r : V)
      → IsAscending low t
      → find_by p t ≡ some (id, r)
      → find id t ≡ some r
  unfolding find_by find IsAscending
  find-found low [] p id r h f = cc
  find-found low ((i, w) ∷ t) p id r h f = elim (Bool-cases (p w)) [
    | inl here ↦ ground (arith, here)
    | inr later ↦
        let rest : find_by p t ≡ some (id, r) = ground (arith, later) in
        let above = found_above (i + 1) t p id r h.1 rest in
        let next = find-found (i + 1) t p id r h.1 rest in ground (arith, above.0, next)
  ]
