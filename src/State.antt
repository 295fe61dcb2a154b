-- ===== src/State.antt =====
-- The EVM state in the chain's tables (include/evm_runtime/tables.hpp: account, account_code,
-- storage, gcstore, config2) and the object through which silkworm reads and writes it
-- (include/evm_runtime/state.hpp, src/state.cpp). The counters in `stats`, which nothing reads, are
-- left out.
use eos_evm_contract.Prelude.{
  ℕ, ◌+◌, ◌%◌, ◌-◌, Bool, true, false, ◌&&◌, Option, none, some, List, [], ◌∷◌, ◌==◌, value_or,
  if◌then◌else◌,
}
use eos_evm_contract.Table.{Table, find, find_by, available_primary_key}
use eos_evm_contract.Bytes.{Bytes, bytes_eq, pad32, Intx}
pub mod Chain
pub mod Read
pub mod Update
pub mod Gc
pub mod GcLaws
pub mod Slots
pub mod World

-- A row of the table of accounts; the primary key is its `id`.
pub record AccountRow : Type 0 where
  pub eth_address : Bytes
  pub nonce : ℕ
  pub balance : Bytes
  pub code_id : Option ℕ
  pub flags : ℕ

pub record CodeRow : Type 0 where
  pub ref_count : ℕ
  pub code : Bytes
  pub code_hash : Bytes

pub record StorageRow : Type 0 where
  pub key : Bytes
  pub value : Bytes

-- The tables. Each account id is a scope with a storage table of its own; a gcstore row names the
-- scope of a removed account.
pub record Db : Type 0 where
  pub accounts : Table AccountRow
  pub codes : Table CodeRow
  pub storage : ℕ → Table StorageRow
  pub gcstore : Table ℕ
  pub next_account_id : Option ℕ

-- silkworm::Account
pub record Account : Type 0 where
  pub nonce : ℕ
  pub balance : ℕ
  pub code_hash : Bytes
  pub incarnation : ℕ

-- What the code takes from intx and silkworm: `kEmptyHash`, `operator==` on accounts and `is_zero` on
-- 32 bytes.
pub record Evm : Type 0 where
  pub intx : Intx
  pub empty_hash : Bytes
  pub account_eq : Account → Account → Bool
  pub is_zero : Bytes → Bool

-- struct state, with the caches that its const methods fill.
pub record EvmState : Type 0 where
  pub db : Db
  pub open db use *
  pub read_only : Bool
  pub allow_frozen : Bool
  pub addr2id : List (Bytes × ℕ)
  pub addr2code : List (Bytes × Bytes)
  pub config2 : Option ℕ

-- The constructor, over the tables.
abbrev pub open_state : Db → Bool → Bool → EvmState
open_state db read_only allow_frozen = record {
  db = db;
  read_only = read_only;
  allow_frozen = allow_frozen;
  addr2id = [];
  addr2code = [];
  config2 = none;
}

-- The destructor writes the next account id back, if it was read.
abbrev pub close_state : EvmState → Db
close_state s = record (s.db) {
  next_account_id = elim s.config2 [ none ↦ s.next_account_id | some next ↦ some next ];
}

-- std::map::find
abbrev pub cached {ℓ} : {A : Type ℓ} → Bytes → List (Bytes × A) → Option A
cached k [] = none
cached k ((j, v) ∷ m) = if bytes_eq k j then some v else cached k m

-- account::has_flag(flag::frozen): `flags & (1 != 0)`, for `!=` binds tighter than `&`.
unfoldable pub is_frozen : AccountRow → Bool
is_frozen r = r.flags % 2 == 1

-- set_flag and clear_flag at flag::frozen.
unfoldable pub set_frozen : Bool → AccountRow → AccountRow
set_frozen true r = record r { flags = if r.flags % 2 == 1 then r.flags else r.flags + 1 }
set_frozen false r = record r { flags = if r.flags % 2 == 1 then r.flags - 1 else r.flags }

-- The account with an address, through the index by.address, and the row of a storage key, through
-- by.key.
unfoldable pub find_account : Bytes → Table AccountRow → Option (ℕ × AccountRow)
find_account address = find_by λ r. bytes_eq (pad32 address) (pad32 r.eth_address)

unfoldable pub find_slot : Bytes → Table StorageRow → Option (ℕ × StorageRow)
find_slot location = find_by λ r. bytes_eq (pad32 location) (pad32 r.key)

unfoldable pub find_code : Bytes → Table CodeRow → Option (ℕ × CodeRow)
find_code hash = find_by λ r. bytes_eq (pad32 hash) (pad32 r.code_hash)

-- A write to one scope of the storage tables.
abbrev pub set_scope : ℕ → Table StorageRow → (ℕ → Table StorageRow) → ℕ → Table StorageRow
set_scope id t storage i = if i == id then t else storage i

-- get_next_account_id
unfoldable pub get_next_account_id : EvmState → ℕ × EvmState
get_next_account_id s =
    let first = value_or s.next_account_id (available_primary_key s.accounts) in
    let id = value_or s.config2 first in (id, record s { config2 = some (id + 1) })
