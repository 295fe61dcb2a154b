-- ===== src/State/Slots.antt =====
-- src/state.cpp: what a reader of one storage scope sees after update_storage has written a slot.
use eos_evm_contract.Prelude.{
  ℕ, ◌≡◌, false, none, some, Option, arith, Bool-cases, Option-cases, inl, inr, if◌then◌else◌, ap,
  sym, ◌∙◌, ok, ◌⊎◌,
}
use eos_evm_contract.Table.{Table, find_by, available_primary_key}
use eos_evm_contract.Table.Order.{
  IsAscending, found_above, find_by-put, find_by-put_other, find_by-put_last,
}
use eos_evm_contract.Bytes.{Bytes, bytes_eq, bytes_eq_sound, pad32}
use eos_evm_contract.State.{Evm, EvmState, AccountRow, StorageRow, find_account, find_slot, cached}
use eos_evm_contract.State.Read.{slot_value, read_storage, zero32}
use eos_evm_contract.State.Update.{write_slot, write_storage, update_storage}

-- The value under a key, where there is one.
abbrev value_at : Bytes → Table StorageRow → Option Bytes
value_at location t = elim (find_slot location t) [ none ↦ none | some (id, r) ↦ some r.value ]

-- After a write a reader of a scope, whose rows are in the order of their ids, sees the value at every
-- location that stands for the same key, and what was there at all others.
write_slot-value_at :
    (low : ℕ) (t : Table StorageRow) (location other value : Bytes)
    → IsAscending low t
    → value_at other (write_slot location value t)
      ≡ (if bytes_eq (pad32 other) (pad32 location) then some value else value_at other t)
unfolding write_slot find_slot
write_slot-value_at low t location other value h = elim (Option-cases (find_slot location t)) [
  | inl missing ↦
      let added =
        find_by-put_last low (available_primary_key t) t (λ r. bytes_eq (pad32 other) (pad32 r.key))
          (record { key = location; value = value }) h (omega arith) in
      elim (Bool-cases (bytes_eq (pad32 other) (pad32 location))) [
        | inl same ↦
            let keys = bytes_eq_sound (pad32 other) (pad32 location) same in
            let none_there : find_slot other t ≡ none =
              ap (λ (k : Bytes). find_by (λ r. bytes_eq k (pad32 r.key)) t) keys ∙ missing in
            ground (arith, missing, added, same, none_there)
        | inr apart ↦ elim (Option-cases (find_slot other t)) [
          | inl absent ↦ ground (arith, missing, added, apart, absent)
          | inr (x, present) ↦ ground (arith, missing, added, apart, present)
        ]
      ]
  | inr ((id, r), found) ↦ elim (Bool-cases (bytes_eq (pad32 other) (pad32 location))) [
    | inl same ↦
        let keys = bytes_eq_sound (pad32 other) (pad32 location) same in
        let there : find_slot other t ≡ some (id, r) =
          ap (λ (k : Bytes). find_by (λ r. bytes_eq k (pad32 r.key)) t) keys ∙ found in
        let matches =
          (found_above low t (λ r. bytes_eq (pad32 other) (pad32 r.key)) id r h there).1 in
        let written =
          find_by-put low t (λ r. bytes_eq (pad32 other) (pad32 r.key)) id r
            (record r { value = value }) h there matches in
        ground (arith, found, same, written)
    | inr apart ↦
        let keys =
          bytes_eq_sound (pad32 location) (pad32 r.key)
            (found_above low t (λ r. bytes_eq (pad32 location) (pad32 r.key)) id r h found).1 in
        let differs : bytes_eq (pad32 other) (pad32 r.key) ≡ false =
          ap (bytes_eq (pad32 other)) (sym keys) ∙ apart in
        let kept =
          find_by-put_other low t (λ r. bytes_eq (pad32 other) (pad32 r.key))
            (λ r. bytes_eq (pad32 location) (pad32 r.key)) id r (record r { value = value }) h found
            differs differs in
        ground (arith, found, apart, kept)
  ]
]

slot_value-value_at :
    (location : Bytes) (s : EvmState) (id : ℕ)
    → slot_value location s id
      ≡ elim (value_at location (s.storage id)) [ none ↦ zero32 | some value ↦ pad32 value ]
unfolding slot_value
slot_value-value_at location s id = elim (Option-cases (find_slot location (s.storage id))) [
  | inl missing ↦ ground (arith, missing)
  | inr (x, found) ↦ ground (arith, found)
]

write_storage-slot_value :
    (low : ℕ) (address location other value : Bytes) (id : ℕ) (r : AccountRow) (s : EvmState)
    → IsAscending low (s.storage id)
    → slot_value other (write_storage address location value (some (id, r)) s) id
      ≡ (if bytes_eq (pad32 other) (pad32 location) then pad32 value else slot_value other s id)
unfolding write_storage
write_storage-slot_value low address location other value id r s h =
    let after =
      slot_value-value_at other (write_storage address location value (some (id, r)) s) id in
    let before = slot_value-value_at other s id in
    let seen = write_slot-value_at low (s.storage id) location other value h in
    elim (Bool-cases (bytes_eq (pad32 other) (pad32 location))) [
      | inl same ↦ ground (arith, after, before, seen, same)
      | inr apart ↦ ground (arith, after, before, seen, apart)
    ]

read_storage-slot_value :
    (address other : Bytes) (id : ℕ) (r : AccountRow) (s : EvmState)
    → find_account address s.accounts ≡ some (id, r)
    → (cached address s.addr2id ≡ none) ⊎ (cached address s.addr2id ≡ some id)
    → (read_storage address other s).1 ≡ slot_value other s id
unfolding read_storage
read_storage-slot_value address other id r s found cache = elim cache [
  | inl fresh ↦ ground (arith, fresh, found)
  | inr known ↦ ground (arith, known)
]

-- A value other than zero that is written to the storage of an account is what a reader of that account
-- gets from then on, as 32 bytes, at every location that stands for the same key; at all others it gets
-- what it got before. The account is there, the cache knows it by no other id, and the rows of its
-- scope are in the order of their ids.
pub update_storage-read_storage :
    (v : Evm) (low : ℕ) (address location other value : Bytes) (id : ℕ) (r : AccountRow)
    (s s' : EvmState)
    → find_account address s.accounts ≡ some (id, r)
    → (cached address s.addr2id ≡ none) ⊎ (cached address s.addr2id ≡ some id)
    → IsAscending low (s.storage id)
    → v.is_zero value ≡ false
    → update_storage v address location value s ≡ ok s'
    → (read_storage address other s').1 ≡ (
        if bytes_eq (pad32 other) (pad32 location)
        then pad32 value
        else (read_storage address other s).1)
unfolding update_storage write_storage
update_storage-read_storage v low address location other value id r s s' found cache h some_value
      e =
    let written = write_storage-slot_value low address location other value id r s h in
    let ends : write_storage address location value (some (id, r)) s ≡ s' =
      ground (arith, found, some_value) in
    let now =
      read_storage-slot_value address other id r
        (write_storage address location value (some (id, r)) s) found cache in
    let before = read_storage-slot_value address other id r s found cache in
    ap (λ (t : EvmState). (read_storage address other t).1) (sym ends)
    ∙ now
    ∙ written
    ∙ ap (λ (b : Bytes). if bytes_eq (pad32 other) (pad32 location) then pad32 value else b)
        (sym before)
