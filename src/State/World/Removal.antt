-- ===== src/State/World/Removal.antt =====
-- src/state.cpp: remove_account never fails, and takes the account and all its storage away.
use eos_evm_contract.Prelude.{
  ℕ, ◌≤◌, ◌<◌, ◌≡◌, refl, Option, none, some, ok, arith, Bool-cases, Option-cases, inl, inr, ap,
  ◌∙◌,
}
use eos_evm_contract.Table.{Table, find, put, erase, available_primary_key}
use eos_evm_contract.Bytes.{Bytes, bytes_eq_refl, pad32}
use eos_evm_contract.State.{Evm, Db, AccountRow, CodeRow, EvmState, find_account}
use eos_evm_contract.State.Update.{remove_account, release_code}
use eos_evm_contract.State.World.{same, hash_of, account_in, world, set_account, clear_slots}
use eos_evm_contract.State.World.Invariant.{
  IsState, IsAccounts, IsCounted, refers, count_of, next_of,
}
use eos_evm_contract.State.World.References.{references-erase, references-find, found-counted}
use eos_evm_contract.State.World.Code.{one_if, release_code-Released}
use eos_evm_contract.State.World.Rows.{
  find_account-find, find_account-erase, erase-IsAccounts, erase-IsGarbage,
}
use eos_evm_contract.State.World.Moves.{World-eq, nothing_found}

module _ (v : Evm) where
  -- Code rows that accounts refer to keep their hashes.
  abbrev pub KeepsHashes : Table CodeRow → Table CodeRow → Type 0
  KeepsHashes codes codes' =
      (k : ℕ) → 0 < count_of k codes' → hash_of v codes' (some k) ≡ hash_of v codes (some k)

  -- So what an account stands for is kept.
  pub account_in-kept :
      (next : ℕ) (t : Table AccountRow) (codes codes' : Table CodeRow) (a : Bytes)
      → IsAccounts next t
      → IsCounted t codes'
      → KeepsHashes codes codes'
      → account_in v codes' (find_account a t) ≡ account_in v codes (find_account a t)
  account_in-kept next t codes codes' a h counted kept = elim (Option-cases (find_account a t)) [
    | inl missing ↦ rw missing refl
    | inr ((id, r), found) ↦ elim (Option-cases r.code_id) [
      | inl no_code ↦ rw (found, no_code) refl
      | inr (k, code) ↦
          rw (found, code, kept k (found-counted next id k a r t codes' h counted found code)) refl
    ]
  ]

  -- The code rows once a removed row has given up its reference.
  pub record Freed (r : AccountRow) (t : Table AccountRow) (codes codes' : Table CodeRow)
      : Type 0 where
    pub counted : IsCounted t codes'
    pub kept : KeepsHashes codes codes'
    pub counts : (k : ℕ) → count_of k codes' ≤ count_of k codes

  one_self : (k : ℕ) → one_if k k ≡ 1
  one_self k = ground arith

  release_code-Freed :
      (id : ℕ) (r : AccountRow) (t : Table AccountRow) (codes : Table CodeRow) (next : ℕ)
      → IsAccounts next t
      → IsCounted t codes
      → find id t ≡ some r
      → (codes' : Table CodeRow) × (release_code r.code_id codes ≡ ok codes')
        × Freed r (erase id t) codes codes'
  unfolding release_code
  release_code-Freed id r t codes next h counted there = elim (Option-cases r.code_id) [
    | inl no_code ↦ (
      codes,
      rw no_code refl,
      record {
        counted = record {
          ordered = counted.ordered;
          counted =
              λ k. omega (arith, references-erase 0 k id r t h.ordered there, counted.counted k);
          small = counted.small;
        };
        kept = λ k some_count. refl;
        counts = λ k. omega arith;
      },
    )
    | inr (code, has_code) ↦
        let one : (k : ℕ) → refers k r.code_id ≡ one_if k code = λ k. ap (refers k) has_code in
        let referred : 0 < count_of code codes = omega (
          arith,
          references-find code id r t there,
          counted.counted code,
          one code ∙ one_self code,
        ) in
        let (codes', ran, released) =
          release_code-Released v code codes counted.ordered referred (counted.small code) in
        (
          codes',
          ap (λ (k : Option ℕ). release_code k codes) has_code ∙ ran,
          record {
            counted = record {
              ordered = released.ordered;
              counted = λ k. omega (
                arith,
                references-erase 0 k id r t h.ordered there,
                counted.counted k,
                released.counts k,
                one k,
              );
              small = λ k. omega (arith, released.counts k, counted.small k);
            };
            kept = released.hashes;
            counts = λ k. omega (arith, released.counts k);
          },
        )
  ]

  pub remove_account-removed :
      (address : Bytes) (id : ℕ) (r : AccountRow) (s : EvmState)
      → IsState s
      → find_account address s.accounts ≡ some (id, r)
      → (d : Db) × (remove_account id r s.db ≡ ok d)
        × IsState (record s { db = d })
        × (world v d ≡ clear_slots address (set_account address none (world v s.db)))
        × (find_account address d.accounts ≡ none)
        × ((k : ℕ) → count_of k d.codes ≤ count_of k s.codes)
  unfolding remove_account next_of
  remove_account-removed address id r s h found =
      let there = find_account-find (next_of s) id address r s.accounts h.accounts_valid found in
      let (codes', freed_codes, freed) =
        release_code-Freed id r s.accounts s.codes (next_of s) h.accounts_valid h.codes_valid
          there.0 in
      let row = find_account-erase (next_of s) address s.accounts h.accounts_valid id r found in
      let left = erase-IsAccounts (next_of s) address s.accounts h.accounts_valid id r found in
      (
        record (s.db) {
          gcstore = put (available_primary_key s.gcstore) id s.gcstore;
          codes = codes';
          accounts = erase id s.accounts;
        },
        rw freed_codes refl,
        record {
          accounts_valid = left;
          scopes_valid = h.scopes_valid;
          codes_valid = freed.counted;
          garbage_valid =
              erase-IsGarbage (next_of s) address s.accounts h.accounts_valid id r found s.gcstore
                h.garbage_valid (available_primary_key s.gcstore);
          started = λ unread nowhere.
              absurd (nothing_found address id r s.accounts (h.started unread nowhere) found);
        },
        World-eq _ _
            (λ a.
              account_in-kept (next_of s) (erase id s.accounts) s.codes codes' a left freed.counted
                freed.kept
              ∙ elim (Bool-cases (same a address)) [
                | inl here ↦ rw (row a, here) refl
                | inr apart ↦ rw (row a, apart) refl
              ])
            (λ a l. elim (Bool-cases (same a address)) [
              | inl here ↦ rw (row a, here) refl
              | inr apart ↦ rw (row a, apart) refl
            ]),
        row address ∙ rw (bytes_eq_refl (pad32 address)) refl,
        freed.counts,
      )
