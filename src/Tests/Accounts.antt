-- ===== src/Tests/Accounts.antt =====
-- The contract's actions and the garbage collector at concrete inputs.
use eos_evm_contract.Prelude.{
  ℕ, ◌+◌, ◌^◌, ◌<◌, ◌≤◌, ◌≡◌, ◌⊎◌, refl, true, false, none, some, [], ◌∷◌, ok, arith, ◌==◌,
  if◌then◌else◌,
}
use eos_evm_contract.Prelude.Int.{pos, ◌≤ℤ◌, ◌-ℤ◌}
use eos_evm_contract.Table.{find, put}
use eos_evm_contract.Bytes.{to_uint256, to_uint256-be_store}
use eos_evm_contract.Balance.{BalanceWithDust, add_amount, add_units, pow10_loop, pow10_const}
use eos_evm_contract.Balance.Laws.{IsToken, holding, unit_of}
use eos_evm_contract.State.{EvmState, StorageRow, open_state, AccountRow}
use eos_evm_contract.State.Gc.{gc}
use eos_evm_contract.State.GcLaws.{garbage, Collects, gc-garbage}
use eos_evm_contract.Contract.{text, Contract}
use eos_evm_contract.Contract.Accounts.{withdraw}
use eos_evm_contract.Contract.Funds.{withdraw-moves, addevmbal-together, units}
use eos_evm_contract.Contract.Repair.{addevmbal, add_evm_balance}
use eos_evm_contract.Tests.Samples.{
  token, asset, balance_of, contract, host, asset_ops, sub_assets, db, intx, store_bytes,
  load_bytes,
}

token-IsToken : IsToken token
token-IsToken = record { named = refl; coarse = omega arith }

abbrev withdrawn : Contract
withdrawn = record contract {
  balances = (1, balance_of 0 0) ∷ (9, balance_of 480 3) ∷ [];
  sent =
      record { token = 77; to = 9; quantity = asset 20; memo = text "Withdraw from EVM balance" }
      ∷ [];
}

withdrawing : withdraw asset_ops host 9 (asset 20) none contract ≡ ok withdrawn
unfolding withdraw find put sub_assets ◌-ℤ◌
withdrawing = refl

withdraw-moves_example :
    (b : BalanceWithDust) × (b' : BalanceWithDust) × (find 9 contract.balances ≡ some b)
    × (find 9 withdrawn.balances ≡ some b')
    × (pos 20 ≤ℤ b.balance.amount)
    × (b'.balance.amount ≡ b.balance.amount -ℤ pos 20)
    × (b'.dust ≡ b.dust)
    × (find 1 withdrawn.balances ≡ find 1 contract.balances)
    × (withdrawn.sent ≡ withdrawn.sent)
withdraw-moves_example =
    withdraw-moves asset_ops host 9 (asset 20) none contract withdrawn 1 withdrawing

abbrev slot : StorageRow
slot = record { key = 1 ∷ []; value = 2 ∷ [] }

-- Two removed accounts, with two rows and one row of storage left; a third that is alive.
abbrev littered : EvmState
littered =
    open_state
      (record db {
        gcstore = (0, 3) ∷ (1, 5) ∷ [];
        storage = λ i.
            if i == 3
            then (0, slot) ∷ (1, slot) ∷ []
            else (if i == 5 then (0, slot) ∷ [] else (if i == 6 then (0, slot) ∷ [] else []));
      })
      false true

gc-garbage_example :
    (garbage (gc 4 littered).0.gcstore (gc 4 littered).0.storage ≡ 1)
    × ((gc 4 littered).1 ≡ false)
    × (Collects 6 littered.gcstore ⊎ ((gc 4 littered).0.storage 6 ≡ littered.storage 6))
gc-garbage_example = gc-garbage 4 littered 6

-- An account with an EVM balance of 900 gains 100 units of the EVM.
abbrev account_row : AccountRow
account_row = record {
  eth_address = 1 ∷ [];
  nonce = 0;
  balance = store_bytes 32 900;
  code_id = none;
  flags = 0;
}

abbrev funded : Contract
funded = record contract { evm = record db { accounts = (2, account_row) ∷ [] } }

abbrev repaired : Contract
repaired = record contract {
  inevm = some (balance_of 800 107);
  evm = record db { accounts = (2, record account_row { balance = store_bytes 32 1000 }) ∷ [] };
}

repairing : addevmbal intx host 2 (store_bytes 32 100) false funded ≡ ok repaired
unfolding addevmbal add_evm_balance add_amount pow10_const pow10_loop ◌-ℤ◌ to_uint256 store_bytes
    load_bytes find put add_units
repairing = refl

addevmbal-together_example :
    (new : ℕ) × (a : ℕ) × (dust : ℕ) × (new ≡ 1000)
    × (new < 2 ^ 256)
    × (find 2 repaired.evm.accounts ≡ some (record account_row { balance = store_bytes 32 new }))
    × (repaired.inevm ≡ some (holding token a dust))
    × (dust < unit_of token)
    × (a ≤ 4611686018427387903)
    × (new + units token 800 7 ≡ 900 + units token a dust)
addevmbal-together_example =
    addevmbal-together intx host 2 900 100 (store_bytes 32 100) account_row token 800 7 false funded
      repaired (unfold find in refl) (to_uint256-be_store intx 900 (omega arith)) (omega arith)
      (to_uint256-be_store intx 100 (omega arith)) refl token-IsToken (omega arith) (omega arith)
      repairing
