-- ===== src/Config/RamPrice/Exact.antt =====
-- src/config_wrapper.cpp: update_consensus_parameters and the range of the products it makes.
use eos_evm_contract.Prelude.{
  ℕ, ◌+◌, ◌-◌, ◌*◌, ◌%◌, ◌≤◌, ◌<◌, ◌≡◌, ◌≢◌, Bool, true, leb, ltb, some, ok, if◌then◌else◌, arith,
  Bool-cases, Result-cases, inl, inr, ap, sym, subst, ◌∙◌, ◌==◌,
}
use native.Mathlib.Nat.{mul-le-mul_right}
use eos_evm_contract.Prelude.Int.{two_64}
use eos_evm_contract.Balance.{Asset}
use eos_evm_contract.Config.{
  Platform, ConfigWrapper, get_evm_version, hundred_percent, gas_sset_min,
}
use eos_evm_contract.Config.Consensus.{
  overflow_limit, GasUpdate, check_gas_overflow, update_consensus_parameters2,
  get_minimum_natively_representable,
}
use eos_evm_contract.Config.Gas.{check_gas_overflow-exact}
use eos_evm_contract.Config.RamPrice.{
  Double, contract_fixed_bytes, costs_of, set_storage_price, ram_price, gas_per_byte_of,
  update_consensus_parameters,
}

module _ (e : Platform) {D : Type 0} (d : Double D) where
  open d use {of_int, of_nat, mul, div, add, gt, ge, to_uint64}

  -- At zero the check traps.
  zero_traps :
      (g : ℕ) → check_gas_overflow e.max_code_size (g * contract_fixed_bytes) g ≡ ok true → g ≢ 0
  unfolding check_gas_overflow
  zero_traps g run zero = ground arith

  -- What the test on the product leaves: it did not wrap.
  tested_fits :
      (g : ℕ)
      → gt (div (of_nat overflow_limit) (of_nat g)) (of_nat contract_fixed_bytes) ≡ true
      → check_gas_overflow e.max_code_size (g * contract_fixed_bytes % two_64) g ≡ ok true
      → (0 < g) × (e.max_code_size * (g * contract_fixed_bytes) + g ≤ overflow_limit)
  tested_fits g small tested =
      let whole : g * contract_fixed_bytes % two_64 ≡ g * contract_fixed_bytes =
        omega (arith, d.gt-div overflow_limit g contract_fixed_bytes small) in
      let run = ap (λ (n : ℕ). check_gas_overflow e.max_code_size n g) (sym whole) ∙ tested in
      elim (Bool-cases (g == 0)) [
        | inl nothing ↦ absurd (zero_traps g run (ground (arith, nothing)))
        | inr some_gas ↦
            let above : 0 < g = ground (arith, some_gas) in
            let exact =
              check_gas_overflow-exact e.max_code_size (g * contract_fixed_bytes) g
                (omega (arith, above)) in
            (above, ground (arith, sym exact ∙ run))
      ]

  gas_per_byte_of-fits :
      (ram_price_mb : Asset) (storage_price miner_cut unit g : ℕ)
      → gas_per_byte_of e d ram_price_mb storage_price miner_cut unit ≡ ok g
      → (0 < g) × (e.max_code_size * (g * contract_fixed_bytes) + g ≤ overflow_limit)
  unfolding gas_per_byte_of
  gas_per_byte_of-fits ram_price_mb storage_price miner_cut unit g run =
      let f = div (mul (ram_price e d ram_price_mb) (of_nat unit)) (
        div (mul (of_nat storage_price) (of_nat (hundred_percent - miner_cut)))
          (of_nat hundred_percent)) in
      elim (Result-cases (to_uint64 (add f (of_nat 1)))) [
        | inr (text, failed) ↦ absurd (ground (arith, failed))
        | inl (g', made) ↦
            elim (Result-cases
              (check_gas_overflow e.max_code_size (g' * contract_fixed_bytes % two_64) g')) [
                | inr (text, failed) ↦ absurd (ground (arith, made, failed))
                | inl (fits, tested) ↦
                    let same : g' ≡ g = ground (arith, made, tested) in
                    let passed : fits ≡ true = ground (arith, made, tested) in
                    let small : gt (div (of_nat overflow_limit) (of_nat g'))
                          (of_nat contract_fixed_bytes)
                        ≡ true =
                      ground (arith, made, tested) in
                    subst
                      (λ (g : ℕ).
                        (0 < g)
                        × (e.max_code_size * (g * contract_fixed_bytes) + g ≤ overflow_limit))
                      same (tested_fits g' small (tested ∙ ap (λ (b : Bool). ok b) passed))
              ]
      ]

  -- The costs with a given one for a slot.
  abbrev slot : ℕ → ℕ → GasUpdate
  slot g n = record {
    txnewaccount = some (347 * g);
    newaccount = some (347 * g);
    txcreate = some (606 * g);
    codedeposit = some g;
    sset = some n;
  }

  costs_exact :
      (version g : ℕ)
      → 0 < e.max_code_size
      → e.max_code_size * (g * contract_fixed_bytes) + g ≤ overflow_limit
      → slot g ((if ltb version 3 then gas_sset_min else 0) + 346 * g) ≡ costs_of version g
  costs_exact version g code fits =
      let one : g * 606 ≤ overflow_limit =
        omega (arith, mul-le-mul_right {m = 1} {n = e.max_code_size} (g * 606) code) in
      let wrapped : (k : ℕ) → k ≤ 606 → k * g % two_64 ≡ k * g =
        λ k h. omega (arith, one, mul-le-mul_right g h) in
      rw (wrapped 347 (omega arith), wrapped 606 (omega arith), wrapped 346 (omega arith))
        (elim (Bool-cases (ltb version 3)) [
          | inl old ↦ rw old (ap (slot g) (omega (arith, one)))
          | inr new ↦ rw new (ap (slot g) (omega (arith, one)))
        ])

  -- An update from the price of memory that goes through sets gas costs that are whole multiples of
  -- one price per byte, above zero, none of which has wrapped around: 347 for an account, 606 for a
  -- contract and 346 for a storage slot, with the least charge for a slot before version 3; it is
  -- then that of the costs followed by that of the storage price. The largest code size is above
  -- zero.
  pub update_consensus_parameters-exact :
      (ram_price_mb : Asset) (storage_price : ℕ) (c c' : ConfigWrapper)
      → 0 < e.max_code_size
      → update_consensus_parameters e d ram_price_mb storage_price c ≡ ok c'
      → (g : ℕ) × (w : ConfigWrapper) × (0 < g)
        × (update_consensus_parameters2 e
              (record {
                txnewaccount = some (347 * g);
                newaccount = some (347 * g);
                txcreate = some (606 * g);
                codedeposit = some g;
                sset = some ((if ltb (get_evm_version e c) 3 then gas_sset_min else 0) + 346 * g);
              })
              c
            ≡ ok w)
        × (set_storage_price e (get_evm_version e c) storage_price w ≡ ok c')
  unfolding update_consensus_parameters
  update_consensus_parameters-exact ram_price_mb storage_price c c' code run =
      let miner_cut = if leb 1 (get_evm_version e c) then 0 else c.miner_cut in
      elim (Result-cases (get_minimum_natively_representable c)) [
        | inr (text, failed) ↦ absurd (ground (arith, failed))
        | inl (unit, known) ↦
            elim (Result-cases (gas_per_byte_of e d ram_price_mb storage_price miner_cut unit)) [
              | inr (text, failed) ↦ absurd (ground (arith, known, failed))
              | inl (g, priced) ↦
                  elim (Result-cases
                    (update_consensus_parameters2 e (costs_of (get_evm_version e c) g) c)) [
                      | inr (text, failed) ↦ absurd (ground (arith, known, priced, failed))
                      | inl (w, updated) ↦
                          let (above, fits) =
                            gas_per_byte_of-fits ram_price_mb storage_price miner_cut unit g
                              priced in
                          (
                            g,
                            w,
                            above,
                            ap (λ (u : GasUpdate). update_consensus_parameters2 e u c)
                                  (costs_exact (get_evm_version e c) g code fits)
                                ∙ updated,
                            ground (arith, known, priced, updated),
                          )
                    ]
            ]
      ]
