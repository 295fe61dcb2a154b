-- ===== src/Contract/Execute/Width.antt =====
-- src/actions.cpp, execute_tx: the width of the products of gas and fees.
use eos_evm_contract.Prelude.{ℕ, ◌*◌, ◌%◌, Option}
use mathlib.Core.Option
use eos_evm_contract.Transaction.{two_256, Transaction}
use eos_evm_contract.Contract.{Contract}

-- The transaction with one unit of gas, for what is left of the product of its gas limit and fee.
abbrev pub one_unit : Transaction → Transaction
one_unit tx = record tx {
  gas_limit = 1;
  max_fee_per_gas = tx.gas_limit * tx.max_fee_per_gas % two_256;
}

-- The transaction at the fee that `used` units of gas cost, for what is left of the product.
abbrev pub unit_fee : ℕ → Transaction → Transaction
unit_fee used tx = record tx { max_fee_per_gas = used * tx.max_fee_per_gas % two_256 }

abbrev pub unit_price : ℕ → (ℕ → ℕ) → ℕ → ℕ
unit_price used price fee = used * price fee % two_256
