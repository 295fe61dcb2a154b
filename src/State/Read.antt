-- ===== src/State/Read.antt =====
-- src/state.cpp: read_account, read_code and read_storage.
use eos_evm_contract.Prelude.{
  ℕ, not, ◌||◌, ◌==◌, Option, none, some, [], ◌∷◌, Result, ok, ◌>>=◌, ◌>>◌, check, length,
  replicate, if◌then◌else◌,
}
use eos_evm_contract.Table.{find}
use eos_evm_contract.Bytes.{Bytes, pad32, to_bytes32}
use eos_evm_contract.State.{
  Evm, EvmState, Account, AccountRow, cached, is_frozen, find_account, find_slot, find_code,
}

-- 32 zero bytes, a default bytes32.
abbrev pub zero32 : Bytes
zero32 = replicate 32 0

module _ (v : Evm) where
  -- The code hash of a row, with the cache of codes after it was read.
  unfoldable pub read_code_hash : AccountRow → EvmState → Result (EvmState × Bytes)
  read_code_hash r s = elim r.code_id [
    | none ↦ ok (s, v.empty_hash)
    | some code_id ↦ elim (find code_id s.codes) [
      | none ↦ ok (s, v.empty_hash)
      | some c ↦ do
        hash ← to_bytes32 c.code_hash
        ok (record s { addr2code = (hash, c.code) ∷ s.addr2code }, hash)
    ]
  ]

  unfoldable pub read_account : Bytes → EvmState → Result (EvmState × Option Account)
  unfolding read_code_hash
  read_account address s = elim (find_account address s.accounts) [
    | none ↦ ok (s, none)
    | some (id, r) ↦ do
      check (s.allow_frozen || not (is_frozen r)) "account is frozen"
      h ← read_code_hash r (record s { addr2id = (address, id) ∷ s.addr2id })
      ok (
        h.0,
        some (record {
          nonce = r.nonce;
          balance = v.intx.be_load (pad32 r.balance);
          code_hash = h.1;
          incarnation = 0;
        }),
      )
  ]

unfoldable pub read_code : Bytes → EvmState → EvmState × Bytes
read_code code_hash s = elim (cached code_hash s.addr2code) [
  | some code ↦ (s, code)
  | none ↦ elim (find_code code_hash s.codes) [
    | none ↦ (s, [])
    | some (id, c) ↦
        if length c.code == 0
        then (s, [])
        else (record s { addr2code = (code_hash, c.code) ∷ s.addr2code }, c.code)
  ]
]

-- The value in one storage table, copied into 32 zero bytes.
unfoldable pub slot_value : Bytes → EvmState → ℕ → Bytes
slot_value location s id = elim (find_slot location (s.storage id)) [
  | none ↦ zero32
  | some (row, slot) ↦ pad32 slot.value
]

unfoldable pub read_storage : Bytes → Bytes → EvmState → EvmState × Bytes
unfolding slot_value
read_storage address location s = elim (cached address s.addr2id) [
  | some id ↦ (s, slot_value location s id)
  | none ↦ elim (find_account address s.accounts) [
    | none ↦ (s, zero32)
    | some (id, r) ↦ (record s { addr2id = (address, id) ∷ s.addr2id }, slot_value location s id)
  ]
]
