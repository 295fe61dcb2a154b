-- ===== src/Tests/Solvency.antt =====
-- A contract from init on, at concrete inputs: an account opens, gets a deposit, pushes a transaction
-- and withdraws.
use eos_evm_contract.Prelude.{ℕ, ◌≡◌, ◌==◌, refl, Option, none, some, [], ◌∷◌, ok}
use eos_evm_contract.Prelude.Int.{◌-ℤ◌, ◌+ℤ◌}
use eos_evm_contract.Table.{find, put}
use eos_evm_contract.Bytes.{Bytes, bytes_eq}
use eos_evm_contract.Balance.{add_amount, sub_amount, add_units, sub_units, pow10_const, pow10_loop}
use eos_evm_contract.Config.{get_evm_version, get_evm_version_and_maybe_promote}
use eos_evm_contract.Config.Consensus.{
  get_minimum_natively_representable, get_consensus_param_and_maybe_promote,
}
use eos_evm_contract.Config.Prices.{process_price_queue}
use eos_evm_contract.Config.Row.{load, flush}
use eos_evm_contract.PriceQueue.{process_queue}
use eos_evm_contract.Transaction.{get_tx, get_rlptx}
use eos_evm_contract.Contract.{
  Contract, raw, text, assert_inited, assert_unfrozen, get_gas_price, get_statistics,
  set_statistics, zero_balance,
}
use eos_evm_contract.Contract.Startup.{next_action}
use eos_evm_contract.Contract.Rows.{credit_row, debit_row, enter_evm, leave_evm}
use eos_evm_contract.Contract.Accounts.{open_account, open_internal_balance, withdraw}
use eos_evm_contract.Contract.Ingress.{
  process_prices, transfer, receive, handle_account_transfer, credit,
}
use eos_evm_contract.Contract.Egress.{
  process_egress, egress_loop, egress_object, egress_open, egress_closed, mark_messages,
  send_marked,
}
use eos_evm_contract.Contract.Execute.{
  execute_tx, run_tx, admit, charge, check_result, account_tx, portion_of, miner_portion, refund_of,
  refund_gas, income_of, gas_income, record_income, pay_miner,
}
use eos_evm_contract.Contract.Execute.Flow.{Backed}
use eos_evm_contract.Contract.Messages.{process_filtered_messages, message_loop, settle}
use eos_evm_contract.Contract.Process.{
  pushtx, process_tx, process_in, check_price, run_block, tx_event,
}
use eos_evm_contract.Contract.Calls.{on_transfer}
use eos_evm_contract.Contract.Solvency.{
  Steps, here, next, reloads, opens, receives, pushes, withdraws,
}
use eos_evm_contract.Contract.Solvency.Genesis.{solvency}
use eos_evm_contract.Tests.Samples.{
  token, asset, balance_of, host, asset_ops, add_assets, sub_assets, store_bytes, load_bytes,
}
use eos_evm_contract.Tests.Funds.{blank, started, fees, starting, parsing}
use eos_evm_contract.Tests.Transactions.{token-IsToken, outside, outside-IsProcessor}

abbrev ready : Contract
ready = next_action 77 started

abbrev opened : Contract
opened = record ready {
  balances = (9, balance_of 0 0) ∷ (42, balance_of 0 0) ∷ [];
  nextnonces = (9, 0) ∷ (42, 0) ∷ [];
}

opening : open_account outside.host 9 ready ≡ ok opened
unfolding open_account open_internal_balance assert_unfrozen assert_inited load flush find put
opening = refl

-- Nine characters name the account 9.
abbrev memo_of_nine : Bytes
memo_of_nine = 0 ∷ 0 ∷ 0 ∷ 0 ∷ 0 ∷ 0 ∷ 0 ∷ 0 ∷ 0 ∷ []

abbrev funded : Contract
funded = record opened { balances = (9, balance_of 500 0) ∷ (42, balance_of 0 0) ∷ [] }

funding : on_transfer outside parsing 5 42 (asset 500) memo_of_nine opened ≡ ok (funded, [])
unfolding on_transfer transfer receive handle_account_transfer credit process_prices get_evm_version
    assert_unfrozen assert_inited load flush find put add_assets ◌+ℤ◌
funding = refl

abbrev ran : Contract
ran = record funded {
  balances = (9, balance_of 497 50000000000000) ∷ (42, balance_of 0 50000000000000) ∷ [];
  sent = record { token = 77; to = 5; quantity = asset 2; memo = raw (7 ∷ []) } ∷ [];
  statistics = some (record {
    gas_fee_income = record { balance = asset 0; dust = 50000000000000 };
    ingress_bridge_fee_income = zero_balance token;
  });
}

running : pushtx outside 42 (9 ∷ []) none funded ≡ ok (ran, [])
unfolding pushtx process_tx process_in check_price run_block tx_event get_tx get_rlptx
    assert_unfrozen assert_inited load flush process_prices process_price_queue process_queue
    get_evm_version_and_maybe_promote get_consensus_param_and_maybe_promote get_gas_price
    process_filtered_messages message_loop settle execute_tx run_tx admit charge check_result
    account_tx portion_of miner_portion refund_of refund_gas income_of gas_income record_income
    pay_miner process_egress egress_loop egress_object egress_open egress_closed mark_messages
    send_marked credit_row debit_row enter_evm leave_evm get_minimum_natively_representable
    get_evm_version get_statistics set_statistics find put add_amount sub_amount add_units sub_units
    pow10_const pow10_loop ◌-ℤ◌ bytes_eq store_bytes load_bytes
running = refl

abbrev withdrawn : Contract
withdrawn = record ran {
  balances = (9, balance_of 397 50000000000000) ∷ (42, balance_of 0 50000000000000) ∷ [];
  sent =
      record { token = 77; to = 5; quantity = asset 2; memo = raw (7 ∷ []) }
      ∷ record { token = 77; to = 9; quantity = asset 100; memo = text "Withdraw from EVM balance" }
      ∷ [];
}

withdrawing : withdraw asset_ops outside.host 9 (asset 100) none ran ≡ ok withdrawn
unfolding withdraw assert_unfrozen assert_inited load flush find put sub_assets ◌-ℤ◌
withdrawing = refl

-- The only deposit, 500 units of the token.
history : Steps (Unit {0}) (Option ℕ) (Unit {0}) token started 50000000000000000 withdrawn
unfolding load flush
history =
    next {deposits = 50000000000000000} {more = 0}
      (next {deposits = 50000000000000000} {more = 0}
        (next {deposits = 0} {more = 50000000000000000}
          (next {deposits = 0} {more = 0}
            (next {deposits = 0} {more = 0} here (reloads ready.config refl))
            (opens outside 9 opening))
          (receives outside parsing 5 42 (asset 500) 500 memo_of_nine [] refl outside-IsProcessor
            funding))
        (pushes outside 42 (9 ∷ []) none [] outside-IsProcessor running))
      (withdraws outside 9 (asset 100) 100 none refl withdrawing)

solvency_example : Backed token 50000000000000000 withdrawn
solvency_example =
    solvency (Unit {0}) (Option ℕ) (Unit {0}) token (λ chain. chain == 15555) host 15555 fees none
      blank started withdrawn 50000000000000000 token-IsToken refl refl refl starting refl history
