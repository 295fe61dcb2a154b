-- ===== src/Config/RamPrice.antt =====
-- src/config_wrapper.cpp: update_consensus_parameters, which derives the gas parameters from the price
-- of memory, in arithmetic on doubles. That arithmetic is a parameter.
use eos_evm_contract.Prelude.{
  ℕ, ◌+◌, ◌-◌, ◌*◌, ◌%◌, ◌≤◌, ◌<◌, ◌≡◌, ◌≢◌, Bool, true, false, not, leb, ltb, Option, none, some,
  Result, ok, ◌>>=◌, ◌>>◌, check, if◌then◌else◌, arith, Bool-cases, Result-cases, inl, inr, ap,
  refl, sym, subst, ◌∙◌, ◌==◌,
}
use native.Mathlib.Nat.{mul-le-mul_right}
use eos_evm_contract.Prelude.Int.{ℤ, two_64}
use eos_evm_contract.Balance.{Asset, symbol_eq}
use eos_evm_contract.Config.{
  Platform, ConfigWrapper, get_evm_version, hundred_percent, gas_sset_min, set_gas_price,
}
use eos_evm_contract.Config.Consensus.{
  overflow_limit, GasUpdate, check_gas_overflow, update_consensus_parameters2,
  get_minimum_natively_representable,
}
use eos_evm_contract.Config.Prices.{enqueue_gas_price, enqueue_gas_prices}
use eos_evm_contract.Config.Gas.{check_gas_overflow-exact}
pub mod Exact

-- A double, with what is done with one: conversions of 64-bit numbers, of which the one back traps out
-- of range, and operations that round. A quotient of numbers that is above a third one, after
-- rounding, is far above half of it before.
pub record Double (D : Type 0) : Type 0 where
  pub of_int : ℤ → D
  pub of_nat : ℕ → D
  pub mul : D → D → D
  pub div : D → D → D
  pub add : D → D → D
  pub gt : D → D → Bool
  pub ge : D → D → Bool
  pub to_uint64 : D → Result ℕ
  pub gt-div : (a b k : ℕ) → gt (div (of_nat a) (of_nat b)) (of_nat k) ≡ true → b * k ≤ 2 * a

abbrev pub account_bytes : ℕ
account_bytes = 347

abbrev pub contract_fixed_bytes : ℕ
contract_fixed_bytes = 606

abbrev pub storage_slot_bytes : ℕ
storage_slot_bytes = 346

-- The gas costs for a price of gas per byte; the products are uint64_t.
abbrev pub costs_of : ℕ → ℕ → GasUpdate
costs_of evm_version gas_per_byte = record {
  txnewaccount = some (account_bytes * gas_per_byte % two_64);
  newaccount = some (account_bytes * gas_per_byte % two_64);
  txcreate = some (contract_fixed_bytes * gas_per_byte % two_64);
  codedeposit = some gas_per_byte;
  sset = some (
      ((if ltb evm_version 3 then gas_sset_min else 0) + storage_slot_bytes * gas_per_byte % two_64)
      % two_64);
}

module _ (e : Platform) where
  -- The storage price, by the version.
  unfoldable pub set_storage_price : ℕ → ℕ → ConfigWrapper → Result ConfigWrapper
  set_storage_price evm_version storage_price c =
      if leb 3 evm_version
      then enqueue_gas_prices e
          (record { overhead_price = none; storage_price = some storage_price }) c
      else (if leb 1 evm_version
          then enqueue_gas_price e storage_price c
          else ok (set_gas_price storage_price c))

  module _ {D : Type 0} (d : Double D) where
    open d use {of_int, of_nat, mul, div, add, gt, ge, to_uint64}

    -- The price of memory for a byte, from the one for a megabyte.
    abbrev pub ram_price : Asset → D
    ram_price ram_price_mb = div (of_int ram_price_mb.amount) (of_nat 1048576)

    unfoldable pub gas_per_byte_of : Asset → ℕ → ℕ → ℕ → Result ℕ
    gas_per_byte_of ram_price_mb storage_price miner_cut unit = do
      check (gt (div (of_nat overflow_limit) (of_nat unit)) (ram_price ram_price_mb))
          "gas_per_byte too big"
      let f = div (mul (ram_price ram_price_mb) (of_nat unit)) (
          div (mul (of_nat storage_price) (of_nat (hundred_percent - miner_cut)))
            (of_nat hundred_percent))
      check (ge f (of_nat 0)) "gas_per_byte must >= 0"
      g ← to_uint64 (add f (of_nat 1))
      check (gt (div (of_nat overflow_limit) (of_nat g)) (of_nat contract_fixed_bytes))
          "gas_per_byte too big"
      fits ← check_gas_overflow e.max_code_size (g * contract_fixed_bytes % two_64) g
      check fits "gas_per_byte too big"
      ok g

    unfoldable pub update_consensus_parameters : Asset → ℕ → ConfigWrapper → Result ConfigWrapper
    unfolding gas_per_byte_of set_storage_price
    update_consensus_parameters ram_price_mb storage_price c = do
      check (symbol_eq ram_price_mb.symbol c.ingress_bridge_fee.symbol) "invalid price symbol"
      check (ltb 0 storage_price) "zero storage price is not allowed"
      let miner_cut = if leb 1 (get_evm_version e c) then 0 else c.miner_cut
      check (ltb miner_cut hundred_percent) "100% miner cut is not allowed"
      unit ← get_minimum_natively_representable c
      g ← gas_per_byte_of ram_price_mb storage_price miner_cut unit
      c' ← update_consensus_parameters2 e (costs_of (get_evm_version e c) g) c
      set_storage_price (get_evm_version e c) storage_price c'
