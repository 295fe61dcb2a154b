-- ===== src/State/World/Invariant.antt =====
-- src/state.cpp: what the tables of the EVM's state keep: distinct addresses and locations, ids below
-- the next one, scopes that are empty from there on, code rows that are counted for each account that
-- refers to them, and garbage that no account uses.
use eos_evm_contract.Prelude.{
  ℕ, ◌+◌, ◌≤◌, ◌<◌, ◌≡◌, ◌==◌, Option, none, some, [], ◌∷◌, if◌then◌else◌,
}
use eos_evm_contract.Table.{Table, find}
use eos_evm_contract.Table.Order.{IsAscending}
use eos_evm_contract.Table.Bounds.{IsBelow}
use eos_evm_contract.Table.Index.{IsUnique}
use eos_evm_contract.Bytes.{Bytes, pad32}
use eos_evm_contract.PriceQueue.{two_32}
use eos_evm_contract.State.{AccountRow, CodeRow, StorageRow, EvmState}
use eos_evm_contract.State.GcLaws.{Collects}

abbrev pub address_key : AccountRow → Bytes
address_key r = pad32 r.eth_address

abbrev pub slot_key : StorageRow → Bytes
slot_key r = pad32 r.key

pub record IsAccounts (next : ℕ) (t : Table AccountRow) : Type 0 where
  pub ordered : IsAscending 0 t
  pub unique : IsUnique address_key t
  pub below : IsBelow next t

pub record IsScope (t : Table StorageRow) : Type 0 where
  pub ordered : IsAscending 0 t
  pub unique : IsUnique slot_key t

pub record IsScopes (next : ℕ) (storage : ℕ → Table StorageRow) : Type 0 where
  pub scopes : (id : ℕ) → IsScope (storage id)
  pub fresh : (id : ℕ) → next ≤ id → storage id ≡ []

-- The accounts that refer to a code row, and what the row counts.
abbrev pub refers : ℕ → Option ℕ → ℕ
refers code_id none = 0
refers code_id (some id) = if code_id == id then 1 else 0

unfoldable pub references : ℕ → Table AccountRow → ℕ
references code_id [] = 0
references code_id ((id, r) ∷ t) = refers code_id r.code_id + references code_id t

unfoldable pub count_of : ℕ → Table CodeRow → ℕ
count_of code_id t = elim (find code_id t) [ none ↦ 0 | some c ↦ c.ref_count ]

pub record IsCounted (accounts : Table AccountRow) (codes : Table CodeRow) : Type 0 where
  pub ordered : IsAscending 0 codes
  pub counted : (code_id : ℕ) → references code_id accounts ≤ count_of code_id codes
  pub small : (code_id : ℕ) → count_of code_id codes < two_32

pub record IsGarbage (next : ℕ) (gc : Table ℕ) (accounts : Table AccountRow) : Type 0 where
  pub unused : (id : ℕ) → Collects id gc → (find id accounts ≡ none) × (id < next)

-- The next account id, with config2 in memory or in its table.
unfoldable pub next_of : EvmState → ℕ
next_of s = elim s.config2 [ some n ↦ n | none ↦ elim s.next_account_id [ some n ↦ n | none ↦ 0 ] ]

-- Where no account was ever made config2 is not there, and there are no accounts.
pub record IsState (s : EvmState) : Type 0 where
  pub accounts_valid : IsAccounts (next_of s) s.accounts
  pub scopes_valid : IsScopes (next_of s) s.storage
  pub codes_valid : IsCounted s.accounts s.codes
  pub garbage_valid : IsGarbage (next_of s) s.gcstore s.accounts
  pub started : s.config2 ≡ none → s.next_account_id ≡ none → s.accounts ≡ []
