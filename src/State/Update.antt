-- ===== src/State/Update.antt =====
-- src/state.cpp: update_account, update_account_code and update_storage.
use eos_evm_contract.Prelude.{
  ℕ, ◌+◌, ◌-◌, ◌%◌, Bool, true, false, not, ◌==◌, Option, none, some, [], Result, ok, ◌>>=◌, ◌>>◌,
  check, or_fail, if◌then◌else◌,
}
use eos_evm_contract.Table.{Table, find, put, erase, available_primary_key}
use eos_evm_contract.Bytes.{Bytes}
use eos_evm_contract.PriceQueue.{two_32}
use eos_evm_contract.State.{
  Evm, Db, EvmState, Account, AccountRow, CodeRow, StorageRow, find_account, find_slot, find_code,
  set_scope, get_next_account_id,
}

abbrev pub with_accounts : EvmState → Table AccountRow → EvmState
with_accounts s t = record s { db = record (s.db) { accounts = t } }

-- A row under the next account id.
unfoldable pub emplace_account : AccountRow → EvmState → ℕ × EvmState
emplace_account r s =
    let (id, s') = get_next_account_id s in (id, with_accounts s' (put id r s'.accounts))

-- The reference to the code of a removed account is given up: the count is a uint32_t, and the row
-- goes with the last reference.
unfoldable pub release_code : Option ℕ → Table CodeRow → Result (Table CodeRow)
release_code none codes = ok codes
release_code (some code_id) codes = do
  c ← or_fail (find code_id codes) "code not found"
  let left = (c.ref_count + (two_32 - 1)) % two_32
  ok (if left == 0 then erase code_id codes else put code_id (record c { ref_count = left }) codes)

-- The lambda remove_account: the storage of the account is left to the garbage collector.
unfoldable pub remove_account : ℕ → AccountRow → Db → Result Db
unfolding release_code
remove_account id r d = do
  codes ← release_code r.code_id d.codes
  ok (record d {
    gcstore = put (available_primary_key d.gcstore) id d.gcstore;
    codes = codes;
    accounts = erase id d.accounts;
  })

-- `initial && initial->incarnation != current->incarnation`
abbrev pub is_recreated : Option Account → Account → Bool
is_recreated none current = false
is_recreated (some i) current = not (i.incarnation == current.incarnation)

module _ (v : Evm) where
  abbrev pub new_account : Bytes → Account → AccountRow
  new_account address a = record {
    eth_address = address;
    nonce = a.nonce;
    balance = v.intx.be_store a.balance;
    code_id = none;
    flags = 0;
  }

  -- The branches of update_account: on the account that is wanted, and on the row that is there.
  unfoldable pub write_account :
      Bytes → Option Account → Option Account → Option (ℕ × AccountRow) → EvmState → Result EvmState
  unfolding remove_account
  write_account address initial none none s = ok s
  write_account address initial none (some (id, r)) s = do
    d ← remove_account id r s.db
    ok (record s { db = d })
  write_account address initial (some a) none s = ok (emplace_account (new_account address a) s).1
  write_account address initial (some a) (some (id, r)) s =
      if is_recreated initial a
      then (remove_account id r s.db >>= λ d.
          ok (emplace_account (new_account address a) (record s { db = d })).1)
      else ok (
          with_accounts s
            (put id (record r { nonce = a.nonce; balance = v.intx.be_store a.balance }) s.accounts))

  -- std::optional<Account>::operator==
  abbrev pub option_account_eq : Option Account → Option Account → Bool
  option_account_eq none none = true
  option_account_eq none (some b) = false
  option_account_eq (some a) none = false
  option_account_eq (some a) (some b) = v.account_eq a b

  unfoldable pub update_account :
      Bytes → Option Account → Option Account → EvmState → Result EvmState
  unfolding write_account
  update_account address initial current s = do
    check (not s.read_only) "ro state"
    if option_account_eq current initial
        then ok s
        else write_account address initial current (find_account address s.accounts) s

-- The code row for a hash, made or counted once more, and its id.
unfoldable pub refer_code : Bytes → Bytes → Table CodeRow → ℕ × Table CodeRow
refer_code code_hash code codes = elim (find_code code_hash codes) [
  | none ↦ (
    available_primary_key codes,
    put (available_primary_key codes) (record { ref_count = 1; code = code; code_hash = code_hash })
        codes,
  )
  | some (id, c) ↦ (id, put id (record c { ref_count = (c.ref_count + 1) % two_32 }) codes)
]

-- A row for an account that has only code, or only storage: no balance bytes, nonce 0.
abbrev pub bare_account : Bytes → Option ℕ → AccountRow
bare_account address code_id = record {
  eth_address = address;
  nonce = 0;
  balance = [];
  code_id = code_id;
  flags = 0;
}

unfoldable pub update_account_code : Bytes → Bytes → Bytes → EvmState → Result EvmState
unfolding refer_code
update_account_code address code_hash code s = do
  check (not s.read_only) "ro state"
  let (code_id, codes) = refer_code code_hash code s.codes
  let s' = record s { db = record (s.db) { codes = codes } }
  ok (elim (find_account address s'.accounts) [
    | some (id, r) ↦ with_accounts s' (put id (record r { code_id = some code_id }) s'.accounts)
    | none ↦ (emplace_account (bare_account address (some code_id)) s').1
  ])

abbrev pub with_scope : EvmState → ℕ → Table StorageRow → EvmState
with_scope s id t = record s { db = record (s.db) { storage = set_scope id t s.storage } }

-- A zero value is the absence of a row.
unfoldable pub clear_slot : Bytes → Table StorageRow → Table StorageRow
clear_slot location t = elim (find_slot location t) [ none ↦ t | some (id, r) ↦ erase id t ]

unfoldable pub write_slot : Bytes → Bytes → Table StorageRow → Table StorageRow
write_slot location value t = elim (find_slot location t) [
  | none ↦ put (available_primary_key t) (record { key = location; value = value }) t
  | some (id, r) ↦ put id (record r { value = value }) t
]

-- A write of a zero and of another value, to the account that was found.
unfoldable pub clear_storage : Bytes → Option (ℕ × AccountRow) → EvmState → EvmState
unfolding clear_slot
clear_storage location none s = s
clear_storage location (some (id, r)) s = with_scope s id (clear_slot location (s.storage id))

unfoldable pub write_storage : Bytes → Bytes → Bytes → Option (ℕ × AccountRow) → EvmState → EvmState
unfolding write_slot emplace_account
write_storage address location value none s =
    let (id, s') = emplace_account (bare_account address none) s in
    with_scope s' id (write_slot location value (s'.storage id))
write_storage address location value (some (id, r)) s =
    with_scope s id (write_slot location value (s.storage id))

unfoldable pub update_storage : Evm → Bytes → Bytes → Bytes → EvmState → Result EvmState
unfolding clear_storage write_storage
update_storage v address location current s = do
  check (not s.read_only) "ro state"
  let account = find_account address s.accounts
  if v.is_zero current
      then ok (clear_storage location account s)
      else ok (write_storage address location current account s)
