-- ===== src/State/World/Coding.antt =====
-- src/state.cpp: update_account_code does what it means.
use eos_evm_contract.Prelude.{
  ℕ, ◌+◌, ◌≤◌, ◌<◌, ◌≡◌, refl, false, Option, none, some, ok, arith, Option-cases, inl, inr, ap,
  sym, ◌∙◌,
}
use eos_evm_contract.Table.{Table, put}
use eos_evm_contract.Table.Bounds.{available_primary_key-le}
use eos_evm_contract.Bytes.{Bytes}
use eos_evm_contract.PriceQueue.{two_32}
use eos_evm_contract.State.{Evm, AccountRow, CodeRow, EvmState, find_account}
use eos_evm_contract.State.Update.{
  with_accounts, emplace_account, bare_account, refer_code, update_account_code,
}
use eos_evm_contract.State.World.{world, holder_of, set_account, put_code}
use eos_evm_contract.State.World.Invariant.{IsState, IsCounted, references, count_of, next_of}
use eos_evm_contract.State.World.References.{references-put, references-put_new}
use eos_evm_contract.State.World.Code.{one_if, Referred, refer_code-Referred}
use eos_evm_contract.State.World.Rows.{find_account-find}
use eos_evm_contract.State.World.Moves.{
  World-eq, emplaced, emplace_account-emplaced, emplaced-IsState, emplaced-world, modified-IsState,
  modified-world,
}
use eos_evm_contract.State.World.Removal.{account_in-kept}
use eos_evm_contract.State.World.Writes.{Does, Does-as, old_of}

-- A new reference to each code row fits its uint32_t.
abbrev pub CodesFit : EvmState → Type 0
CodesFit s = (code_id : ℕ) → count_of code_id s.codes + 1 < two_32

abbrev with_codes : EvmState → Table CodeRow → EvmState
with_codes s codes = record s { db = record (s.db) { codes = codes } }

module _ (v : Evm) (s : EvmState) (h : IsState s) (small : CodesFit s) (code_hash : Bytes) (id : ℕ)
    (codes : Table CodeRow) (taken : Referred v code_hash s.codes id codes) where
  -- The rows with one more reference count all accounts, one account more included.
  counted_more :
      (t : Table AccountRow)
      → ((k : ℕ) → references k t ≤ references k s.accounts + one_if k id)
      → IsCounted t codes
  counted_more t more = record {
    ordered = taken.ordered;
    counted = λ k. omega (arith, more k, taken.counts k, h.codes_valid.counted k);
    small = λ k.
        let most : one_if k id ≤ 1 = ground arith in omega (arith, taken.counts k, small k, most);
  }

  referred-IsState : IsState (with_codes s codes)
  unfolding next_of
  referred-IsState = record {
    accounts_valid = h.accounts_valid;
    scopes_valid = h.scopes_valid;
    codes_valid = counted_more s.accounts (λ k. omega arith);
    garbage_valid = h.garbage_valid;
    started = h.started;
  }

  referred-world : world v (with_codes s codes).db ≡ world v s.db
  referred-world =
      World-eq _ _
        (λ a. sym (
          account_in-kept v (next_of s) s.accounts codes s.codes a h.accounts_valid h.codes_valid
            (λ k some_count. sym (taken.hashes k some_count))))
        (λ a l. refl)

  -- What is left of update_account_code once the code row is counted.
  abbrev coded : Bytes → Option (ℕ × AccountRow) → EvmState
  coded address none = (emplace_account (bare_account address (some id)) (with_codes s codes)).1
  coded address (some (i, r)) =
      with_accounts (with_codes s codes) (put i (record r { code_id = some id }) s.accounts)

  coded-Does :
      (address : Bytes)
      → Does v s
          (ok (coded address (find_account address s.accounts)))
          (put_code v address code_hash (old_of v address s) (world v s.db))
  unfolding next_of
  coded-Does address = elim (Option-cases (find_account address s.accounts)) [
    | inr ((i, r), found) ↦
        let r' = record r { code_id = some id } in
        let there = find_account-find (next_of s) i address r s.accounts h.accounts_valid found in
        rw found (record {
          after = with_accounts (with_codes s codes) (put i r' s.accounts);
          ran = refl;
          valid =
              modified-IsState v address (with_codes s codes) referred-IsState i r r' found refl (
                counted_more (put i r' s.accounts) (λ k.
                  omega (
                    arith,
                    references-put 0 k i r r' s.accounts h.accounts_valid.ordered there.0,
                  )));
          means =
              modified-world v address (with_codes s codes) referred-IsState i r r' found refl
              ∙ ap (set_account address (some (holder_of v codes r'))) referred-world
              ∙ rw taken.hash refl;
          kept = refl;
          counts =
              λ k. let most : one_if k id ≤ 1 = ground arith in omega (arith, taken.counts k, most);
        })
    | inl missing ↦
        let row = bare_account address (some id) in
        rw missing (record {
          after = emplaced row (with_codes s codes);
          ran =
              ap (λ (t : ℕ × EvmState). ok t.1)
                (emplace_account-emplaced row (with_codes s codes) referred-IsState);
          valid =
              emplaced-IsState v address (with_codes s codes) referred-IsState row missing refl (
                counted_more (put (next_of s) row s.accounts) (λ k. omega (
                  arith,
                  references-put_new 0 k (next_of s) row s.accounts h.accounts_valid.ordered
                      (available_primary_key-le (next_of s) s.accounts h.accounts_valid.below),
                )));
          means =
              emplaced-world v address (with_codes s codes) referred-IsState row missing refl
              ∙ ap (set_account address (some (holder_of v codes row))) referred-world
              ∙ rw taken.hash refl;
          kept = refl;
          counts =
              λ k. let most : one_if k id ≤ 1 = ground arith in omega (arith, taken.counts k, most);
        })
  ]

update_account_code-coded :
    (v : Evm) (address code_hash code : Bytes) (s : EvmState) (h : IsState s) (small : CodesFit s)
    → s.read_only ≡ false
    → let (id, codes) = refer_code code_hash code s.codes in
      update_account_code address code_hash code s
      ≡ ok (
          coded v s h small code_hash id codes
            (refer_code-Referred v code_hash code s.codes h.codes_valid.ordered small)
            address
            (find_account address s.accounts))
unfolding update_account_code
update_account_code-coded v address code_hash code s h small rw_state =
    elim (Option-cases (find_account address s.accounts)) [
      | inl missing ↦ ground (arith, rw_state, missing)
      | inr ((i, r), found) ↦ ground (arith, rw_state, found)
    ]

pub update_account_code-Does :
    (v : Evm) (address code_hash code : Bytes) (s : EvmState)
    → IsState s
    → CodesFit s
    → s.read_only ≡ false
    → Does v s
        (update_account_code address code_hash code s)
        (put_code v address code_hash (old_of v address s) (world v s.db))
update_account_code-Does v address code_hash code s h small rw_state =
    let id = (refer_code code_hash code s.codes).0 in
    let codes = (refer_code code_hash code s.codes).1 in
    Does-as v (update_account_code-coded v address code_hash code s h small rw_state) (
      coded-Does v s h small code_hash id codes
        (refer_code-Referred v code_hash code s.codes h.codes_valid.ordered small) address)
