-- ===== src/State/World/References.antt =====
-- src/state.cpp: how many accounts refer to a code row, and what the row counts, after each change.
use eos_evm_contract.Prelude.{
  ℕ, ◌+◌, ◌≤◌, ◌<◌, ◌≡◌, false, some, [], ◌∷◌, arith, Bool-cases, inl, inr, ltb, ◌==◌, ap, ◌∙◌,
}
use eos_evm_contract.Table.{Table, find, put, erase, available_primary_key}
use eos_evm_contract.Table.Order.{IsAscending, last_above}
use eos_evm_contract.Table.Bounds.{below_tail, erase-absent, find-found}
use eos_evm_contract.Bytes.{Bytes, bytes_eq, pad32}
use eos_evm_contract.State.{AccountRow, CodeRow, find_account}
use eos_evm_contract.State.World.Invariant.{
  refers, references, count_of, IsCounted, IsAccounts, address_key,
}

find_from :
    (low id : ℕ) (r : AccountRow) (t : Table AccountRow)
    → IsAscending low t
    → find id t ≡ some r
    → low ≤ id
unfolding find IsAscending
find_from low id r [] h f = cc
find_from low id r ((i, w) ∷ t) h f = elim (Bool-cases (id == i)) [
  | inl here ↦ ground (arith, here, h.0)
  | inr later ↦
      let next = find_from (i + 1) id r t h.1 (ground (arith, later)) in omega (arith, next, h.0)
]

pub references-find :
    (k id : ℕ) (r : AccountRow) (t : Table AccountRow)
    → find id t ≡ some r
    → refers k r.code_id ≤ references k t
unfolding find references
references-find k id r [] f = cc
references-find k id r ((i, w) ∷ t) f = elim (Bool-cases (id == i)) [
  | inl here ↦
      let is_w : w ≡ r = ground (arith, here) in
      omega (arith, ap (λ (r : AccountRow). refers k r.code_id) is_w)
  | inr later ↦ let next = references-find k id r t (ground (arith, later)) in omega (arith, next)
]

pub references-put :
    (low k id : ℕ) (r r' : AccountRow) (t : Table AccountRow)
    → IsAscending low t
    → find id t ≡ some r
    → references k (put id r' t) + refers k r.code_id ≡ references k t + refers k r'.code_id
unfolding find put references IsAscending
references-put low k id r r' [] h f = cc
references-put low k id r r' ((i, w) ∷ t) h f = elim (Bool-cases (id == i)) [
  | inl here ↦
      let is_w : w ≡ r = ground (arith, here) in
      let behind : ltb id i ≡ false = ground (arith, here) in
      rw (behind, here) (omega (arith, ap (λ (r : AccountRow). refers k r.code_id) is_w))
  | inr later ↦
      let rest : find id t ≡ some r = ground (arith, later) in
      let above = find_from (i + 1) id r t h.1 rest in
      let behind : ltb id i ≡ false = ground (arith, above) in
      let next = references-put (i + 1) k id r r' t h.1 rest in
      rw (behind, later) (omega (arith, next))
]

pub references-put_new :
    (low k id : ℕ) (r : AccountRow) (t : Table AccountRow)
    → IsAscending low t
    → available_primary_key t ≤ id
    → references k (put id r t) ≡ references k t + refers k r.code_id
unfolding put references IsAscending
references-put_new low k id r [] h b = omega arith
references-put_new low k id r ((i, w) ∷ t) h b =
    let above = last_above low i w t h in
    let behind : ltb id i ≡ false = ground (arith, above, b) in
    let apart : (id == i) ≡ false = ground (arith, above, b) in
    let next = references-put_new (i + 1) k id r t h.1 (below_tail id i w t b) in
    rw (behind, apart) (omega (arith, next))

pub references-erase :
    (low k id : ℕ) (r : AccountRow) (t : Table AccountRow)
    → IsAscending low t
    → find id t ≡ some r
    → references k (erase id t) + refers k r.code_id ≡ references k t
unfolding find erase references IsAscending
references-erase low k id r [] h f = cc
references-erase low k id r ((i, w) ∷ t) h f = elim (Bool-cases (id == i)) [
  | inl here ↦
      let is_w : w ≡ r = ground (arith, here) in
      let same : i ≡ id = ground (arith, here) in
      let gone = erase-absent (i + 1) id t h.1 (omega (arith, same)) in
      rw (here, gone) (omega (arith, ap (λ (r : AccountRow). refers k r.code_id) is_w))
  | inr later ↦
      let next = references-erase (i + 1) k id r t h.1 (ground (arith, later)) in
      rw later (omega (arith, next))
]

-- An account that is found refers to a code row that counts it.
pub found-counted :
    (next id k : ℕ) (address : Bytes) (r : AccountRow) (t : Table AccountRow)
    (codes : Table CodeRow)
    → IsAccounts next t
    → IsCounted t codes
    → find_account address t ≡ some (id, r)
    → r.code_id ≡ some k
    → 0 < count_of k codes
unfolding find_account
found-counted next id k address r t codes valid counts f e =
    let there =
      find-found 0 t (λ (r : AccountRow). bytes_eq (pad32 address) (address_key r)) id r
        valid.ordered f in
    let one : refers k r.code_id ≡ 1 = ap (refers k) e ∙ ground arith in
    omega (arith, references-find k id r t there, counts.counted k, one)
