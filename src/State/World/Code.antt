-- ===== src/State/World/Code.antt =====
-- src/state.cpp: the table of codes when an account takes a reference to a row, or gives one up.
use eos_evm_contract.Prelude.{
  ℕ, ◌+◌, ◌-◌, ◌%◌, ◌<◌, ◌≡◌, none, some, ok, arith, Bool-cases, Option-cases, inl, inr, ◌==◌,
  if◌then◌else◌,
}
use eos_evm_contract.Table.{Table, find, put, erase, available_primary_key, find-put, find-erase}
use eos_evm_contract.Table.Order.{IsAscending, found_above}
use eos_evm_contract.Table.Bounds.{
  IsBelow-find, available_primary_key-IsBelow, find-found, IsAscending-put, IsAscending-erase,
}
use eos_evm_contract.Bytes.{Bytes, bytes_eq, bytes_eq_sound, pad32}
use eos_evm_contract.PriceQueue.{two_32}
use eos_evm_contract.State.{Evm, CodeRow, find_code}
use eos_evm_contract.State.Update.{refer_code, release_code}
use eos_evm_contract.State.World.{hash_of}
use eos_evm_contract.State.World.Invariant.{count_of}

-- A row counted up or down, with its hash.
abbrev pub one_if : ℕ → ℕ → ℕ
one_if k id = if k == id then 1 else 0

find_available : (t : Table CodeRow) → IsAscending 0 t → find (available_primary_key t) t ≡ none
find_available t h = elim (Option-cases (find (available_primary_key t) t)) [
  | inl missing ↦ missing
  | inr (c, found) ↦ absurd (
      omega (
        arith,
        IsBelow-find (available_primary_key t) (available_primary_key t) c t
            (available_primary_key-IsBelow 0 t h) found,
      ))
]

module _ (v : Evm) where
  -- The table after one more reference: the row's id, and the new table.
  pub record Referred (code_hash : Bytes) (codes : Table CodeRow) (id : ℕ) (codes' : Table CodeRow)
      : Type 0 where
    pub ordered : IsAscending 0 codes'
    pub counts : (k : ℕ) → count_of k codes' ≡ count_of k codes + one_if k id
    pub hash : hash_of v codes' (some id) ≡ pad32 code_hash
    pub hashes :
        (k : ℕ) → 0 < count_of k codes → hash_of v codes' (some k) ≡ hash_of v codes (some k)

  pub refer_code-Referred :
      (code_hash code : Bytes) (codes : Table CodeRow)
      → IsAscending 0 codes
      → ((k : ℕ) → count_of k codes + 1 < two_32)
      → Referred code_hash codes
          (refer_code code_hash code codes).0
          (refer_code code_hash code codes).1
  unfolding refer_code find_code count_of
  refer_code-Referred code_hash code codes h small =
      elim (Option-cases (find_code code_hash codes)) [
        | inl missing ↦
            let id = available_primary_key codes in
            let row : CodeRow = record { ref_count = 1; code = code; code_hash = code_hash } in
            let absent = find_available codes h in
            rw (missing, refer_code)
              (record {
                ordered = IsAscending-put 0 id row codes (omega arith) h;
                counts = λ k. ground (arith, find-put k id row codes, absent);
                hash = ground (arith, find-put id id row codes);
                hashes =
                    λ k some_count. ground (arith, some_count, find-put k id row codes, absent);
              })
        | inr ((id, c), found) ↦
            let row = record c { ref_count = (c.ref_count + 1) % two_32 } in
            let is_key =
              bytes_eq_sound (pad32 code_hash) (pad32 c.code_hash)
                (found_above 0 codes
                  (λ (c : CodeRow). bytes_eq (pad32 code_hash) (pad32 c.code_hash)) id c h
                  found).1 in
            let there =
              find-found 0 codes (λ (c : CodeRow). bytes_eq (pad32 code_hash) (pad32 c.code_hash))
                id c h found in
            let fits : c.ref_count + 1 < two_32 = ground (arith, small id, there) in
            rw (found, refer_code)
              (record {
                ordered = IsAscending-put 0 id row codes (omega arith) h;
                counts = λ k. ground (arith, find-put k id row codes, there, fits);
                hash = ground (arith, find-put id id row codes, is_key);
                hashes = λ k some_count. ground (arith, some_count, find-put k id row codes, there);
              })
      ]

  -- The table after one reference less.
  pub record Released (codes : Table CodeRow) (id : ℕ) (codes' : Table CodeRow) : Type 0 where
    pub ordered : IsAscending 0 codes'
    pub counts : (k : ℕ) → count_of k codes' ≡ count_of k codes - one_if k id
    pub hashes :
        (k : ℕ) → 0 < count_of k codes' → hash_of v codes' (some k) ≡ hash_of v codes (some k)

  pub release_code-Released :
      (id : ℕ) (codes : Table CodeRow)
      → IsAscending 0 codes
      → 0 < count_of id codes
      → count_of id codes < two_32
      → (codes' : Table CodeRow) × (release_code (some id) codes ≡ ok codes')
        × Released codes id codes'
  unfolding release_code count_of
  release_code-Released id codes h counted small = elim (Option-cases (find id codes)) [
    | inl missing ↦ absurd (ground (arith, counted, missing))
    | inr (c, found) ↦
        let left : (c.ref_count + (two_32 - 1)) % two_32 ≡ c.ref_count - 1 =
          ground (arith, counted, small, found) in
        elim (Bool-cases (c.ref_count - 1 == 0)) [
          | inl last ↦ (
            erase id codes,
            ground (arith, found, left, last),
            record {
              ordered = IsAscending-erase 0 id codes h;
              counts = λ k. ground (arith, find-erase k id codes, found, last);
              hashes = λ k some_count. ground (arith, some_count, find-erase k id codes);
            },
          )
          | inr more ↦
              let row = record c { ref_count = c.ref_count - 1 } in
              (
                put id row codes,
                ground (arith, found, left, more),
                record {
                  ordered = IsAscending-put 0 id row codes (omega arith) h;
                  counts = λ k. ground (arith, find-put k id row codes, found);
                  hashes =
                      λ k some_count. ground (arith, some_count, find-put k id row codes, found);
                },
              )
        ]
  ]
