-- ===== src/State/World/Moves.antt =====
-- src/state.cpp: what the tables stand for when a row of the accounts is made or overwritten.
use mathlib.Core.Path.{fun_ext}
use eos_evm_contract.Prelude.{
  ℕ, ◌+◌, ◌≡◌, ◌≢◌, refl, true, Option, none, some, [], arith, Bool-cases, Option-cases, inl, inr,
  ap, sym, ◌∙◌,
}
use eos_evm_contract.Table.{Table, find_by, put, available_primary_key}
use eos_evm_contract.Bytes.{Bytes, bytes_eq, bytes_eq_sound, pad32}
use eos_evm_contract.State.{Evm, AccountRow, EvmState, find_account, find_slot, get_next_account_id}
use eos_evm_contract.State.Update.{emplace_account, with_accounts}
use eos_evm_contract.State.World.{World, Holder, world, same, holder_of, set_account}
use eos_evm_contract.State.World.Invariant.{IsState, IsCounted, next_of}
use eos_evm_contract.State.World.Rows.{
  find_account-put_new, put_new-IsAccounts, put_new-IsGarbage, find_account-put, put-IsAccounts,
  put-IsGarbage,
}

-- Two worlds are equal where they show the same accounts and the same storage.
pub World-eq :
    (w w' : World)
    → ((a : Bytes) → w.account a ≡ w'.account a)
    → ((a l : Bytes) → w.slot a l ≡ w'.slot a l)
    → w ≡ w'
World-eq w w' accounts slots =
    ap (λ (f : Bytes → Option Holder). record { account = f; slot = w.slot }) (fun_ext accounts)
    ∙ ap (λ (f : Bytes → Bytes → Bytes). record { account = w'.account; slot = f })
        (fun_ext λ a. fun_ext (slots a))

-- Addresses that are the same key lead to the same row.
pub find_account-same :
    (a address : Bytes) (t : Table AccountRow)
    → same a address ≡ true
    → find_account a t ≡ find_account address t
unfolding find_account
find_account-same a address t e =
    ap (λ (k : Bytes). find_by (λ (r : AccountRow). bytes_eq k (pad32 r.eth_address)) t)
      (bytes_eq_sound (pad32 a) (pad32 address) e)

-- The state after a row was made under the next id.
abbrev pub emplaced : AccountRow → EvmState → EvmState
emplaced r s = record s {
  db = record (s.db) { accounts = put (next_of s) r s.accounts };
  config2 = some (next_of s + 1);
}

pub emplace_account-emplaced :
    (r : AccountRow) (s : EvmState) → IsState s → emplace_account r s ≡ (next_of s, emplaced r s)
unfolding emplace_account get_next_account_id next_of
emplace_account-emplaced r s h = elim (Option-cases s.config2) [
  | inr (n, cached) ↦ rw cached refl
  | inl unread ↦ elim (Option-cases s.next_account_id) [
    | inr (n, stored) ↦ rw (unread, stored) refl
    | inl nowhere ↦
        let empty : available_primary_key s.accounts ≡ 0 =
          ap available_primary_key (h.started unread nowhere)
          ∙ unfold available_primary_key in refl in
        rw (unread, nowhere, empty) refl
  ]
]

pub nothing_found :
    (address : Bytes) (id : ℕ) (r : AccountRow) (t : Table AccountRow)
    → t ≡ []
    → find_account address t ≢ some (id, r)
unfolding find_account find_by
nothing_found address id r t e found =
    let none_there : find_account address t ≡ none = ap (find_account address) e in
    ground (arith, sym none_there ∙ found)

module _ (v : Evm) (address : Bytes) (s : EvmState) (h : IsState s) where
  module _ (r : AccountRow) (missing : find_account address s.accounts ≡ none)
      (named : r.eth_address ≡ address) where
    pub emplaced-IsState : IsCounted (put (next_of s) r s.accounts) s.codes → IsState (emplaced r s)
    unfolding next_of
    emplaced-IsState counted = record {
      accounts_valid =
          put_new-IsAccounts (next_of s) address s.accounts h.accounts_valid r missing named;
      scopes_valid = record {
        scopes = h.scopes_valid.scopes;
        fresh = λ id above. h.scopes_valid.fresh id (omega (arith, above));
      };
      codes_valid = counted;
      garbage_valid =
          put_new-IsGarbage (next_of s) address s.accounts h.accounts_valid s.gcstore
            h.garbage_valid r;
      started = λ unread nowhere. ground (arith, unread);
    }

    pub emplaced-world :
        world v (emplaced r s).db
        ≡ set_account address (some (holder_of v s.codes r)) (world v s.db)
    unfolding find_slot
    emplaced-world =
        let row = λ (a : Bytes).
          find_account-put_new (next_of s) address s.accounts h.accounts_valid r a missing named in
        let empty = h.scopes_valid.fresh (next_of s) (omega arith) in
        World-eq _ _
          (λ a. elim (Bool-cases (same a address)) [
            | inl here ↦ rw (row a, here) refl
            | inr apart ↦ rw (row a, apart) refl
          ])
          (λ a l. elim (Bool-cases (same a address)) [
            | inl here ↦
                rw (row a, here, find_account-same a address s.accounts here, missing, empty)
                  (unfold find_by in refl)
            | inr apart ↦ rw (row a, apart) refl
          ])

  module _ (id : ℕ) (r r' : AccountRow) (found : find_account address s.accounts ≡ some (id, r))
      (named : r'.eth_address ≡ r.eth_address) where
    pub modified-IsState :
        IsCounted (put id r' s.accounts) s.codes → IsState (with_accounts s (put id r' s.accounts))
    unfolding next_of
    modified-IsState counted = record {
      accounts_valid =
          put-IsAccounts (next_of s) address s.accounts h.accounts_valid id r found r' named;
      scopes_valid = h.scopes_valid;
      codes_valid = counted;
      garbage_valid =
          put-IsGarbage (next_of s) address s.accounts h.accounts_valid id r found s.gcstore
            h.garbage_valid r';
      started = λ unread nowhere.
          absurd (nothing_found address id r s.accounts (h.started unread nowhere) found);
    }

    pub modified-world :
        world v (with_accounts s (put id r' s.accounts)).db
        ≡ set_account address (some (holder_of v s.codes r')) (world v s.db)
    modified-world =
        let row = λ (a : Bytes).
          find_account-put (next_of s) address s.accounts h.accounts_valid id r found r' a named in
        World-eq _ _
          (λ a. elim (Bool-cases (same a address)) [
            | inl here ↦ rw (row a, here) refl
            | inr apart ↦ rw (row a, apart) refl
          ])
          (λ a l. elim (Bool-cases (same a address)) [
            | inl here ↦ rw (row a, here, find_account-same a address s.accounts here, found) refl
            | inr apart ↦ rw (row a, apart) refl
          ])
