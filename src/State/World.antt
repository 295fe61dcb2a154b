-- ===== src/State/World.antt =====
-- src/state.cpp: what the tables stand for, accounts by their addresses and storage by address and
-- location, and what each write of the EVM means for that, with no ids, scopes or reference counts.
use eos_evm_contract.Prelude.{ℕ, ◌&&◌, Bool, Option, none, some, [], if◌then◌else◌}
use eos_evm_contract.Table.{Table, find}
use eos_evm_contract.Bytes.{Bytes, bytes_eq, pad32}
use eos_evm_contract.State.{
  Evm, Db, Account, AccountRow, CodeRow, StorageRow, find_account, find_slot,
}
use eos_evm_contract.State.Read.{zero32}
use eos_evm_contract.State.Update.{is_recreated}
pub mod Invariant
pub mod References
pub mod Code
pub mod Scope
pub mod Rows
pub mod Moves
pub mod Removal
pub mod Writes
pub mod Accounts
pub mod Storage
pub mod Coding
pub mod Collection
pub mod Refinement
pub mod Reads

-- An account as the EVM knows it, with its balance as 32 bytes.
pub record Holder : Type 0 where
  pub nonce : ℕ
  pub balance : Bytes
  pub code_hash : Bytes

pub record World : Type 0 where
  pub account : Bytes → Option Holder
  pub slot : Bytes → Bytes → Bytes

-- Addresses, locations and hashes are compared as keys.
abbrev pub same : Bytes → Bytes → Bool
same a b = bytes_eq (pad32 a) (pad32 b)

abbrev pub hash_of : Evm → Table CodeRow → Option ℕ → Bytes
hash_of v codes none = v.empty_hash
hash_of v codes (some id) = elim (find id codes) [
  | none ↦ v.empty_hash
  | some c ↦ pad32 c.code_hash
]

abbrev pub holder_of : Evm → Table CodeRow → AccountRow → Holder
holder_of v codes r = record {
  nonce = r.nonce;
  balance = pad32 r.balance;
  code_hash = hash_of v codes r.code_id;
}

abbrev pub slot_of : Bytes → Table StorageRow → Bytes
slot_of location t = elim (find_slot location t) [ none ↦ zero32 | some (id, x) ↦ pad32 x.value ]

-- What a row of the accounts stands for, and the slots of its scope.
abbrev pub account_in : Evm → Table CodeRow → Option (ℕ × AccountRow) → Option Holder
account_in v codes none = none
account_in v codes (some (id, r)) = some (holder_of v codes r)

abbrev pub slot_in : (ℕ → Table StorageRow) → Bytes → Option (ℕ × AccountRow) → Bytes
slot_in storage location none = zero32
slot_in storage location (some (id, r)) = slot_of location (storage id)

-- What the tables stand for.
abbrev pub world : Evm → Db → World
world v d = record {
  account = λ address. account_in v d.codes (find_account address d.accounts);
  slot = λ address location. slot_in d.storage location (find_account address d.accounts);
}

-- A world with one account, one location, or all storage of an account changed.
abbrev pub set_account : Bytes → Option Holder → World → World
set_account address h w = record w { account = λ a. if same a address then h else w.account a }

abbrev pub set_slot : Bytes → Bytes → Bytes → World → World
set_slot address location value w = record w {
  slot = λ a l. if same a address && same l location then value else w.slot a l;
}

abbrev pub clear_slots : Bytes → World → World
clear_slots address w = record w { slot = λ a l. if same a address then zero32 else w.slot a l }

-- An account that has only code, or only storage.
abbrev pub bare_holder : Evm → Holder
bare_holder v = record { nonce = 0; balance = pad32 []; code_hash = v.empty_hash }

abbrev pub touch : Evm → Bytes → Option Holder → World → World
touch v address none w = set_account address (some (bare_holder v)) w
touch v address (some h) w = w

module _ (v : Evm) where
  -- What update_storage means: a value other than zero makes the account that is not there.
  abbrev pub put_slot : Bytes → Bytes → Bytes → World → World
  put_slot address location value w =
      if v.is_zero value
      then set_slot address location zero32 w
      else set_slot address location (pad32 value) (touch v address (w.account address) w)

  -- What update_account_code means, by the account that is there.
  abbrev pub put_code : Bytes → Bytes → Option Holder → World → World
  put_code address code_hash none w =
      set_account address (some (record (bare_holder v) { code_hash = pad32 code_hash })) w
  put_code address code_hash (some h) w =
      set_account address (some (record h { code_hash = pad32 code_hash })) w

  abbrev pub holder : Account → Bytes → Holder
  holder a code_hash = record {
    nonce = a.nonce;
    balance = pad32 (v.intx.be_store a.balance);
    code_hash = code_hash;
  }

  -- What update_account means, by the account that is there, for two values that differ: an account
  -- that is removed, made, or made anew has no storage, and no code if it is there.
  abbrev pub put_account : Bytes → Option Account → Option Account → Option Holder → World → World
  put_account address initial none old w = clear_slots address (set_account address none w)
  put_account address initial (some a) none w =
      clear_slots address (set_account address (some (holder a v.empty_hash)) w)
  put_account address initial (some a) (some h) w =
      if is_recreated initial a
      then clear_slots address (set_account address (some (holder a v.empty_hash)) w)
      else set_account address (some (holder a h.code_hash)) w
