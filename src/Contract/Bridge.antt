-- ===== src/Contract/Bridge.antt =====
-- src/actions.cpp: bridgereg and bridgeunreg.
use eos_evm_contract.Prelude.{ℕ, Result, ok, ◌>>◌, check, has_value}
use eos_evm_contract.Prelude.Int.{pos, leb_ℤ}
use eos_evm_contract.Table.{find, put, erase}
use eos_evm_contract.Balance.{Asset, symbol_eq}
use eos_evm_contract.Contract.{Host, Contract, require_auth, assert_unfrozen, token_symbol}
use eos_evm_contract.Contract.Accounts.{open_account}

-- The row is made or overwritten, with FORCE_ATOMIC set, and the account opened.
unfoldable pub bridgereg : Host → ℕ → ℕ → Asset → Contract → Result Contract
unfolding assert_unfrozen
bridgereg h receiver handler min_fee c = do
  assert_unfrozen c
  require_auth h receiver
  require_auth h h.self
  check (symbol_eq min_fee.symbol (token_symbol c)) "unexpected symbol"
  check (leb_ℤ (pos 0) min_fee.amount) "min_fee cannot be negative"
  open_account h receiver (record c {
    receivers =
        put receiver (record { handler = handler; min_fee = min_fee; flags = 1 }) c.receivers;
  })

unfoldable pub bridgeunreg : Host → ℕ → Contract → Result Contract
unfolding assert_unfrozen
bridgeunreg h receiver c = do
  assert_unfrozen c
  require_auth h receiver
  check (has_value (find receiver c.receivers)) "receiver not found"
  ok (record c { receivers = erase receiver c.receivers })
