-- ===== src/State/World/Accounts.antt =====
-- src/state.cpp: update_account does what it means.
use eos_evm_contract.Prelude.{
  ◌≡◌, refl, false, Option, none, some, arith, Bool-cases, Option-cases, inl, inr, if◌then◌else◌,
  ap, sym, ◌∙◌,
}
use eos_evm_contract.Bytes.{Bytes}
use eos_evm_contract.State.{Evm, Db, Account, EvmState, find_account}
use eos_evm_contract.State.Update.{
  write_account, update_account, option_account_eq, is_recreated, new_account,
}
use eos_evm_contract.State.World.{
  World, Holder, same, world, set_account, clear_slots, put_account, holder,
}
use eos_evm_contract.State.World.Invariant.{IsState}
use eos_evm_contract.State.World.Moves.{World-eq, find_account-same}
use eos_evm_contract.State.World.Removal.{remove_account-removed}
use eos_evm_contract.State.World.Writes.{Does, Does-as, makes, changes, old_of}

module _ (v : Evm) where
  -- The storage of an address that has no account is empty.
  clear_missing :
      (address : Bytes) (d : Db)
      → find_account address d.accounts ≡ none
      → clear_slots address (world v d) ≡ world v d
  clear_missing address d missing =
      World-eq _ _ (λ a. refl)
        (λ a l. elim (Bool-cases (same a address)) [
          | inl here ↦ rw (here, find_account-same a address d.accounts here, missing) refl
          | inr apart ↦ rw apart refl
        ])

  set_missing :
      (address : Bytes) (d : Db)
      → find_account address d.accounts ≡ none
      → set_account address none (world v d) ≡ world v d
  set_missing address d missing =
      World-eq _ _
        (λ a. elim (Bool-cases (same a address)) [
          | inl here ↦ rw (here, find_account-same a address d.accounts here, missing) refl
          | inr apart ↦ rw apart refl
        ])
        (λ a l. refl)

  set_twice :
      (address : Bytes) (w : World) (x : Option Holder)
      → set_account address x (clear_slots address (set_account address none w))
        ≡ clear_slots address (set_account address x w)
  set_twice address w x =
      World-eq _ _
        (λ a. elim (Bool-cases (same a address)) [
          | inl here ↦ rw here refl
          | inr apart ↦ rw apart refl
        ])
        (λ a l. refl)

  write_account-Does :
      (address : Bytes) (initial current : Option Account) (s : EvmState)
      → IsState s
      → Does v s
          (write_account v address initial current (find_account address s.accounts) s)
          (put_account v address initial current (old_of v address s) (world v s.db))
  unfolding write_account
  write_account-Does address initial none s h =
      elim (Option-cases (find_account address s.accounts)) [
        | inl missing ↦ rw missing (record {
          after = s;
          ran = refl;
          valid = h;
          means = sym (
              ap (clear_slots address) (set_missing address s.db missing)
              ∙ clear_missing address s.db missing);
          kept = refl;
          counts = λ k. omega arith;
        })
        | inr ((id, r), found) ↦
            let (d, ran, valid, means, gone, counts) =
              remove_account-removed v address id r s h found in
            rw found (record {
              after = record s { db = d };
              ran = rw ran refl;
              valid = valid;
              means = means;
              kept = refl;
              counts = λ k. omega (arith, counts k);
            })
      ]
  write_account-Does address initial (some a) s h =
      elim (Option-cases (find_account address s.accounts)) [
        | inl missing ↦
            let made = makes v address (new_account v address a) s h missing refl refl in
            rw missing (record {
              after = made.after;
              ran = made.ran;
              valid = made.valid;
              means =
                  made.means
                  ∙ ap (set_account address (some (holder v a v.empty_hash)))
                      (sym (clear_missing address s.db missing));
              kept = made.kept;
              counts = λ k. omega (arith, made.counts k);
            })
        | inr ((id, r), found) ↦ elim (Bool-cases (is_recreated initial a)) [
          | inl anew ↦
              let (d, ran, valid, means, gone, counts) =
                remove_account-removed v address id r s h found in
              let made =
                makes v address (new_account v address a) (record s { db = d }) valid gone refl
                  refl in
              let h' = some (holder v a v.empty_hash) in
              rw (found, anew)
                (record {
                  after = made.after;
                  ran = rw ran made.ran;
                  valid = made.valid;
                  means =
                      made.means
                      ∙ ap (set_account address h') means
                      ∙ set_twice address (world v s.db) h';
                  kept = made.kept;
                  counts = λ k. omega (arith, made.counts k, counts k);
                })
          | inr kept ↦
              rw (found, kept)
                (changes v address id r
                  (record r { nonce = a.nonce; balance = v.intx.be_store a.balance }) s h found refl
                  refl)
        ]
      ]

  update_account-changed :
      (address : Bytes) (initial current : Option Account) (s : EvmState)
      → s.read_only ≡ false
      → option_account_eq v current initial ≡ false
      → update_account v address initial current s
        ≡ write_account v address initial current (find_account address s.accounts) s
  unfolding update_account
  update_account-changed address initial current s rw_state changed =
      ground (arith, rw_state, changed)

  -- update_account as a whole: nothing is written where the two values are the same.
  pub update_account-Does :
      (address : Bytes) (initial current : Option Account) (s : EvmState)
      → IsState s
      → s.read_only ≡ false
      → Does v s (update_account v address initial current s) (
          if option_account_eq v current initial
          then world v s.db
          else put_account v address initial current (old_of v address s) (world v s.db))
  update_account-Does address initial current s h rw_state =
      elim (Bool-cases (option_account_eq v current initial)) [
        | inl same_value ↦ rw same_value (record {
          after = s;
          ran = unfold update_account in ground (arith, rw_state, same_value);
          valid = h;
          means = refl;
          kept = refl;
          counts = λ k. omega arith;
        })
        | inr changed ↦ rw changed (
            Does-as v (update_account-changed address initial current s rw_state changed)
              (write_account-Does address initial current s h))
      ]
