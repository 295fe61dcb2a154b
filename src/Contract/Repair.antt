-- ===== src/Contract/Repair.antt =====
-- src/admin_actions.cpp: actions that repair single rows, compiled in on demand.
use eos_evm_contract.Prelude.{
  ℕ, ◌+◌, ◌-◌, ◌^◌, ◌&&◌, leb, ltb, ◌==◌, Bool, Option, none, some, length, Result, ok, ◌>>=◌, ◌>>◌,
  check, or_fail, has_value, if◌then◌else◌,
}
use eos_evm_contract.Table.{find, put, erase, available_primary_key}
use eos_evm_contract.Bytes.{Bytes, Intx, to_uint256}
use eos_evm_contract.Balance.{BalanceWithDust, add_amount, sub_amount}
use eos_evm_contract.State.{AccountRow, find_slot, set_scope, set_frozen}
use eos_evm_contract.State.Update.{remove_account}
use eos_evm_contract.Contract.{Host, Contract, require_auth}

unfoldable pub rmgcstore : Host → ℕ → Contract → Result Contract
rmgcstore h id c = do
  require_auth h h.self
  check (has_value (find id c.evm.gcstore)) "gc row not found"
  ok (record c { evm = record (c.evm) { gcstore = erase id c.evm.gcstore } })

abbrev pub size_of_value : Option Bytes → ℕ
size_of_value none = 32
size_of_value (some value) = length value

-- The row is made or changed, or erased where no value is given.
unfoldable pub setkvstore : Host → ℕ → Bytes → Option Bytes → Contract → Result Contract
setkvstore h account_id key value c = do
  require_auth h h.self
  check (length key == 32 && size_of_value value == 32) "invalid key/value size"
  let table = c.evm.storage account_id
  let row = find_slot key table
  table' ← elim value [
    | some v ↦ ok (elim row [
      | none ↦ put (available_primary_key table) (record { key = key; value = v }) table
      | some (id, r) ↦ put id (record r { value = v }) table
    ])
    | none ↦ (or_fail row "key not found" >>= λ r. ok (erase r.0 table))
  ]
  ok (record c { evm = record (c.evm) { storage = set_scope account_id table' c.evm.storage } })

-- The same steps as the removal of an account by the EVM.
unfoldable pub rmaccount : Host → ℕ → Contract → Result Contract
rmaccount h id c = do
  require_auth h h.self
  r ← or_fail (find id c.evm.accounts) "account not found"
  d ← remove_account id r c.evm
  ok (record c { evm = d })

-- The two branches of addevmbal, on the account's row and the amount: the total in the EVM first when
-- it falls, the account first when it grows. `subc` and `addc` of intx report the borrow and the carry
-- of 256-bit arithmetic.
unfoldable pub subtract_evm_balance :
    Intx → AccountRow → ℕ → Option BalanceWithDust → Result (BalanceWithDust × ℕ)
subtract_evm_balance x r d total = do
  inevm ← or_fail total "singleton does not exist"
  inevm' ← sub_amount inevm d
  old ← to_uint256 x r.balance
  check (leb d old) "underflow detected"
  ok (inevm', old - d)

unfoldable pub add_evm_balance :
    Intx → AccountRow → ℕ → Option BalanceWithDust → Result (BalanceWithDust × ℕ)
add_evm_balance x r d total = do
  old ← to_uint256 x r.balance
  check (ltb (old + d) (2 ^ 256)) "overflow detected"
  inevm ← or_fail total "singleton does not exist"
  inevm' ← add_amount inevm d
  ok (inevm', old + d)

-- The EVM balance of an account and the total in the EVM move together.
unfoldable pub addevmbal : Intx → Host → ℕ → Bytes → Bool → Contract → Result Contract
addevmbal x h id delta subtract c = do
  require_auth h h.self
  r ← or_fail (find id c.evm.accounts) "account not found"
  d ← to_uint256 x delta
  moved ← if subtract then subtract_evm_balance x r d c.inevm else add_evm_balance x r d c.inevm
  ok (record c {
    inevm = some moved.0;
    evm = record (c.evm) {
      accounts = put id (record r { balance = x.be_store moved.1 }) c.evm.accounts;
    };
  })

unfoldable pub addopenbal : Intx → Host → ℕ → Bytes → Bool → Contract → Result Contract
addopenbal x h account delta subtract c = do
  require_auth h h.self
  b ← or_fail (find account c.balances) "account not found"
  d ← to_uint256 x delta
  b' ← if subtract then sub_amount b d else add_amount b d
  ok (record c { balances = put account b' c.balances })

unfoldable pub freezeaccnt : Host → ℕ → Bool → Contract → Result Contract
unfolding set_frozen
freezeaccnt h id value c = do
  require_auth h h.self
  r ← or_fail (find id c.evm.accounts) "account not found"
  ok (record c { evm = record (c.evm) { accounts = put id (set_frozen value r) c.evm.accounts } })
