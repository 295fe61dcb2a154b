-- ===== src/State/World/Scope.antt =====
-- src/state.cpp: one scope of the storage tables when a slot is written or cleared.
use eos_evm_contract.Prelude.{
  ℕ, ◌≡◌, refl, some, arith, Bool-cases, Option-cases, inl, inr, if◌then◌else◌, ap, ◌∙◌,
}
use eos_evm_contract.Table.{Table, available_primary_key}
use eos_evm_contract.Table.Order.{found_above}
use eos_evm_contract.Table.Bounds.{IsAscending-put, IsAscending-erase}
use eos_evm_contract.Table.Index.{
  find_key, find_key-put, find_key-put_new, find_key-erase, IsUnique-put, IsUnique-put_new,
  IsUnique-erase,
}
use eos_evm_contract.Bytes.{Bytes, bytes_eq, bytes_eq_sound, pad32}
use eos_evm_contract.State.{StorageRow, find_slot}
use eos_evm_contract.State.Read.{zero32}
use eos_evm_contract.State.Update.{write_slot, clear_slot}
use eos_evm_contract.State.World.{same, slot_of}
use eos_evm_contract.State.World.Invariant.{slot_key, IsScope}

-- The key of the row that is found is the one that was looked for.
found_key :
    (location : Bytes) (id : ℕ) (r : StorageRow) (t : Table StorageRow)
    → IsScope t
    → find_slot location t ≡ some (id, r)
    → pad32 location ≡ slot_key r
unfolding find_slot
found_key location id r t h f =
    bytes_eq_sound (pad32 location) (slot_key r)
      (found_above 0 t (λ (r : StorageRow). bytes_eq (pad32 location) (slot_key r)) id r h.ordered
        f).1

pub write_slot-IsScope :
    (location value : Bytes) (t : Table StorageRow)
    → IsScope t
    → IsScope (write_slot location value t)
unfolding write_slot find_slot
write_slot-IsScope location value t h = elim (Option-cases (find_slot location t)) [
  | inl missing ↦
      let id = available_primary_key t in
      let row : StorageRow = record { key = location; value = value } in
      rw (missing, write_slot)
        (record {
          ordered = IsAscending-put 0 id row t (omega arith) h.ordered;
          unique = IsUnique-put_new slot_key 0 id row t h.ordered h.unique (omega arith) missing;
        })
  | inr ((id, r), found) ↦
      let row = record r { value = value } in
      rw (found, write_slot)
        (record {
          ordered = IsAscending-put 0 id row t (omega arith) h.ordered;
          unique =
              IsUnique-put slot_key 0 id (pad32 location) r row t h.ordered h.unique found refl;
        })
]

pub clear_slot-IsScope :
    (location : Bytes) (t : Table StorageRow) → IsScope t → IsScope (clear_slot location t)
unfolding clear_slot
clear_slot-IsScope location t h = elim (Option-cases (find_slot location t)) [
  | inl missing ↦ rw (missing, clear_slot) h
  | inr ((id, r), found) ↦
      rw (found, clear_slot)
        (record {
          ordered = IsAscending-erase 0 id t h.ordered;
          unique = IsUnique-erase slot_key id t h.unique;
        })
]

-- After a write every location reads as the value or as before.
pub slot_of-write :
    (location value other : Bytes) (t : Table StorageRow)
    → IsScope t
    → slot_of other (write_slot location value t)
      ≡ (if same other location then pad32 value else slot_of other t)
unfolding write_slot find_slot
slot_of-write location value other t h = elim (Option-cases (find_slot location t)) [
  | inl missing ↦
      let row : StorageRow = record { key = location; value = value } in
      let seen =
        find_key-put_new slot_key 0 (available_primary_key t) row t (pad32 other) h.ordered
          (omega arith) missing in
      elim (Bool-cases (same other location)) [
        | inl here ↦ ground (arith, missing, seen, here)
        | inr apart ↦ ground (arith, missing, seen, apart)
      ]
  | inr ((id, r), found) ↦
      let seen =
        find_key-put slot_key 0 id (pad32 location) r (record r { value = value }) t (pad32 other)
          h.ordered found refl in
      elim (Bool-cases (same other location)) [
        | inl here ↦ ground (arith, found, seen, here)
        | inr apart ↦ ground (arith, found, seen, apart)
      ]
]

pub slot_of-clear :
    (location other : Bytes) (t : Table StorageRow)
    → IsScope t
    → slot_of other (clear_slot location t)
      ≡ (if same other location then zero32 else slot_of other t)
unfolding clear_slot find_slot
slot_of-clear location other t h = elim (Option-cases (find_slot location t)) [
  | inl missing ↦ elim (Bool-cases (same other location)) [
    | inl here ↦
        let there =
          ap (λ (k : Bytes). find_key slot_key k t)
            (bytes_eq_sound (pad32 other) (pad32 location) here)
          ∙ missing in
        ground (arith, missing, there, here)
    | inr apart ↦ ground (arith, missing, apart)
  ]
  | inr ((id, r), found) ↦
      let seen =
        find_key-erase slot_key 0 id (pad32 location) r t (pad32 other) h.ordered h.unique found in
      elim (Bool-cases (same other location)) [
        | inl here ↦ ground (arith, found, seen, here)
        | inr apart ↦ ground (arith, found, seen, apart)
      ]
]
