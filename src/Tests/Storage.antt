-- ===== src/Tests/Storage.antt =====
-- A write to the storage of an account, and a read of it, at concrete inputs.
use eos_evm_contract.Prelude.{
  ◌≡◌, refl, false, none, some, [], ◌∷◌, ok, arith, inl, length, ◌==◌, if◌then◌else◌,
}
use eos_evm_contract.Table.{find_by, put}
use eos_evm_contract.Bytes.{bytes_eq, pad32}
use eos_evm_contract.State.{Evm, EvmState, AccountRow, find_account, find_slot, open_state}
use eos_evm_contract.State.Read.{read_storage}
use eos_evm_contract.State.Update.{update_storage, write_storage, write_slot, with_scope}
use eos_evm_contract.State.Slots.{update_storage-read_storage}
use eos_evm_contract.Table.Order.{IsAscending}
use eos_evm_contract.Tests.Samples.{db, intx}

abbrev pub evm : Evm
evm = record {
  intx = intx;
  empty_hash = [];
  account_eq = λ a b. false;
  is_zero = λ b. length b == 0;
}

abbrev pub account : AccountRow
account = record { eth_address = 1 ∷ []; nonce = 0; balance = []; code_id = none; flags = 0 }

abbrev stored : EvmState
stored =
    open_state
      (record db {
        accounts = (3, account) ∷ [];
        storage = λ _.
            (0, record { key = 5 ∷ []; value = 1 ∷ [] })
            ∷ (2, record { key = 7 ∷ []; value = 2 ∷ [] })
            ∷ [];
      })
      false false

abbrev rewritten : EvmState
rewritten = with_scope stored 3 (
    (0, record { key = 5 ∷ []; value = 1 ∷ [] })
    ∷ (2, record { key = 7 ∷ []; value = 9 ∷ [] })
    ∷ [])

writing : update_storage evm (1 ∷ []) (7 ∷ []) (9 ∷ []) stored ≡ ok rewritten
unfolding update_storage write_storage write_slot find_account find_slot find_by put bytes_eq pad32
writing = refl

account_found : find_account (1 ∷ []) stored.accounts ≡ some (3, account)
unfolding find_account find_by bytes_eq pad32
account_found = refl

rows-IsAscending : IsAscending 0 (stored.storage 3)
unfolding IsAscending
rows-IsAscending = (omega arith, (omega arith, tt))

update_storage-read_storage_example : (read_storage (1 ∷ []) (7 ∷ []) rewritten).1 ≡ (
    if bytes_eq (pad32 (7 ∷ [])) (pad32 (7 ∷ []))
    then pad32 (9 ∷ [])
    else (read_storage (1 ∷ []) (7 ∷ []) stored).1)
update_storage-read_storage_example =
    update_storage-read_storage evm 0 (1 ∷ []) (7 ∷ []) (7 ∷ []) (9 ∷ []) 3 account stored rewritten
      account_found (inl refl) rows-IsAscending refl writing
