-- ===== src/State/World/Reads.antt =====
-- src/state.cpp: read_account and read_storage show what the tables stand for.
use mathlib.Core.List.{append-nil}
use eos_evm_contract.Prelude.{
  ℕ, ◌≡◌, refl, true, Option, none, some, List, ◌∷◌, ◌++◌, length, Result, ok, arith, Bool-cases,
  Option-cases, inl, inr, ap, sym, ◌∙◌, ◌-◌, replicate, ◌>>=◌,
}
use eos_evm_contract.Table.{find, Table}
use eos_evm_contract.Bytes.{Bytes, bytes_eq, bytes_eq_sound, pad32, to_bytes32}
use eos_evm_contract.State.{Evm, Db, Account, AccountRow, CodeRow, EvmState, find_account, cached}
use eos_evm_contract.State.Read.{read_account, read_code_hash, read_storage, slot_value}
use eos_evm_contract.State.World.{Holder, world, hash_of}

-- The cache of ids holds the ids of the table.
abbrev pub IsCoherent : EvmState → Type 0
IsCoherent s =
    (address : Bytes) (id : ℕ)
    → cached address s.addr2id ≡ some id
    → (r : AccountRow) × (find_account address s.accounts ≡ some (id, r))

-- The hashes of the code rows have 32 bytes.
abbrev pub HashesFit : Table CodeRow → Type 0
HashesFit codes = (id : ℕ) (c : CodeRow) → find id codes ≡ some c → length c.code_hash ≡ 32

IsCoherent-more :
    (address : Bytes) (id : ℕ) (r : AccountRow) (s : EvmState)
    → IsCoherent s
    → find_account address s.accounts ≡ some (id, r)
    → IsCoherent (record s { addr2id = (address, id) ∷ s.addr2id })
IsCoherent-more address id r s h found a i known = elim (Bool-cases (bytes_eq a address)) [
  | inl here ↦
      let is_address = bytes_eq_sound a address here in
      let is_id : id ≡ i = ground (arith, known, here) in
      (
        r,
        ap (λ (a : Bytes). find_account a s.accounts) is_address
            ∙ found
            ∙ ap (λ (i : ℕ). some (i, r)) is_id,
      )
  | inr apart ↦ h a i (ground (arith, known, apart))
]

-- A read returns what the tables stand for, also where the cache knows the account, fills the cache
-- with ids of the table only, and changes nothing else.
pub read_storage-world :
    (v : Evm) (address location : Bytes) (s : EvmState)
    → IsCoherent s
    → let (s', value) = read_storage address location s in
      (value ≡ (world v s.db).slot address location) × IsCoherent s' × (s'.db ≡ s.db)
unfolding read_storage slot_value
read_storage-world v address location s h = elim (Option-cases (cached address s.addr2id)) [
  | inr (id, known) ↦
      let (r, found) = h address id known in rw (known, found, read_storage) (refl, h, refl)
  | inl unknown ↦ elim (Option-cases (find_account address s.accounts)) [
    | inl missing ↦ rw (unknown, missing, read_storage) (refl, h, refl)
    | inr ((id, r), found) ↦
        rw (unknown, found, read_storage) (refl, IsCoherent-more address id r s h found, refl)
  ]
]

pad32-fits : (b : Bytes) → length b ≡ 32 → pad32 b ≡ b
unfolding pad32
pad32-fits b e = ap (λ (n : ℕ). b ++ replicate (32 - n) 0) e ∙ append-nil b

to_bytes32-fits : (b : Bytes) → length b ≡ 32 → to_bytes32 b ≡ ok b
unfolding to_bytes32
to_bytes32-fits b e = ground (arith, e)

-- silkworm's account for what the tables stand for.
abbrev pub account_of : Evm → Option Holder → Option Account
account_of v none = none
account_of v (some h) = some (record {
  nonce = h.nonce;
  balance = v.intx.be_load h.balance;
  code_hash = h.code_hash;
  incarnation = 0;
})

-- The code hash, which is the stored one, with nothing but the cache of codes changed.
record Hashed (v : Evm) (r : AccountRow) (s : EvmState) : Type 0 where
  after : EvmState
  ran : read_code_hash v r s ≡ ok (after, hash_of v s.codes r.code_id)
  ids : after.addr2id ≡ s.addr2id
  tables : after.db ≡ s.db

read_code_hash-Hashed : (v : Evm) (r : AccountRow) (s : EvmState) → HashesFit s.codes → Hashed v r s
unfolding read_code_hash
read_code_hash-Hashed v r s fits = elim (Option-cases r.code_id) [
  | inl no_code ↦ record {
    after = s;
    ran = rw (no_code, read_code_hash) refl;
    ids = refl;
    tables = refl;
  }
  | inr (k, code) ↦ elim (Option-cases (find k s.codes)) [
    | inl missing ↦ record {
      after = s;
      ran = rw (code, missing, read_code_hash, hash_of) refl;
      ids = refl;
      tables = refl;
    }
    | inr (c, there) ↦
        let long = fits k c there in
        record {
          after = record s { addr2code = (c.code_hash, c.code) ∷ s.addr2code };
          ran =
              rw
                (
                  code,
                  there,
                  read_code_hash,
                  to_bytes32-fits c.code_hash long,
                  hash_of,
                  pad32-fits c.code_hash long,
                )
                refl;
          ids = refl;
          tables = refl;
        }
  ]
]

-- What is left of read_account once an account is found.
abbrev found_account : Evm → AccountRow → EvmState × Bytes → EvmState × Option Account
found_account v r h = (
  h.0,
  some (record {
    nonce = r.nonce;
    balance = v.intx.be_load (pad32 r.balance);
    code_hash = h.1;
    incarnation = 0;
  }),
)

read_account-found :
    (v : Evm) (address : Bytes) (id : ℕ) (r : AccountRow) (s : EvmState)
    → s.allow_frozen ≡ true
    → find_account address s.accounts ≡ some (id, r)
    → read_account v address s ≡ (
        read_code_hash v r (record s { addr2id = (address, id) ∷ s.addr2id }) >>= λ h.
        ok (found_account v r h))
unfolding read_account
read_account-found v address id r s allowed found = ground (arith, allowed, found)

-- Where frozen accounts are allowed, read_account goes through and returns the account that the tables
-- stand for: its nonce, the number of its balance bytes, its code hash, and none where there is none.
-- It changes no table, and the cache gets ids of the table only.
pub read_account-world :
    (v : Evm) (address : Bytes) (s : EvmState)
    → s.allow_frozen ≡ true
    → HashesFit s.codes
    → IsCoherent s
    → (s' : EvmState) × (read_account v address s
        ≡ ok (s', account_of v ((world v s.db).account address)))
      × IsCoherent s'
      × (s'.db ≡ s.db)
unfolding read_account
read_account-world v address s allowed fits h =
    elim (Option-cases (find_account address s.accounts)) [
      | inl missing ↦ (s, rw (missing, read_account) refl, h, refl)
      | inr ((id, r), found) ↦
          let s' = record s { addr2id = (address, id) ∷ s.addr2id } in
          let hashed = read_code_hash-Hashed v r s' fits in
          (
            hashed.after,
            read_account-found v address id r s allowed found
                ∙ ap (λ (q : Result (EvmState × Bytes)). q >>= λ h. ok (found_account v r h))
                    hashed.ran
                ∙ rw found refl,
            λ a i known.
                let (r', there) =
                  IsCoherent-more address id r s h found a i
                    (ap (λ (m : List (Bytes × ℕ)). cached a m) (sym hashed.ids) ∙ known) in
                (r', ap (λ (d : Db). find_account a d.accounts) hashed.tables ∙ there),
            hashed.tables,
          )
    ]
