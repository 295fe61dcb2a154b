-- ===== src/Contract/Rows.antt =====
-- src/actions.cpp: the changes of one balance that transactions make: of an account's row, which
-- `modify` with += or -= writes back, and of the inevm singleton, what the EVM holds in all.
use eos_evm_contract.Prelude.{ℕ, some, Result, ok, ◌>>=◌, or_fail, String}
use eos_evm_contract.Table.{find, put}
use eos_evm_contract.Balance.{add_amount, sub_amount}
use eos_evm_contract.Contract.{Contract}

unfoldable pub credit_row : ℕ → ℕ → String → Contract → Result Contract
credit_row owner v message c = do
  b ← or_fail (find owner c.balances) message
  b' ← add_amount b v
  ok (record c { balances = put owner b' c.balances })

unfoldable pub debit_row : ℕ → ℕ → String → Contract → Result Contract
debit_row owner v message c = do
  b ← or_fail (find owner c.balances) message
  b' ← sub_amount b v
  ok (record c { balances = put owner b' c.balances })

unfoldable pub enter_evm : ℕ → Contract → Result Contract
enter_evm v c = do
  b ← or_fail c.inevm "singleton does not exist"
  b' ← add_amount b v
  ok (record c { inevm = some b' })

unfoldable pub leave_evm : ℕ → Contract → Result Contract
leave_evm v c = do
  b ← or_fail c.inevm "singleton does not exist"
  b' ← sub_amount b v
  ok (record c { inevm = some b' })
