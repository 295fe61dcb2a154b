-- ===== src/State/World/Writes.antt =====
-- src/state.cpp: what it is for a write to do what it means, and the writes of one row of accounts.
use eos_evm_contract.Prelude.{
  ℕ, ◌+◌, ◌≤◌, ◌≡◌, refl, Option, none, some, Result, ok, arith, ap, ◌∙◌,
}
use eos_evm_contract.Table.{put}
use eos_evm_contract.Bytes.{Bytes}
use eos_evm_contract.State.{Evm, AccountRow, EvmState, find_account}
use eos_evm_contract.State.Update.{with_accounts, emplace_account}
use eos_evm_contract.State.World.{World, Holder, world, set_account, holder_of}
use eos_evm_contract.State.World.Invariant.{IsState, IsCounted, refers, count_of, next_of}
use eos_evm_contract.State.World.References.{references-put, references-put_new}
use eos_evm_contract.State.World.Rows.{find_account-find}
use eos_evm_contract.State.World.Moves.{
  emplaced, emplace_account-emplaced, emplaced-IsState, emplaced-world, modified-IsState,
  modified-world,
}
use eos_evm_contract.Table.Bounds.{available_primary_key-le}

-- A write that goes through, keeps the invariant and does what it means. It takes at most one more
-- reference to a code row.
pub record Does (v : Evm) (s : EvmState) (run : Result EvmState) (w : World) : Type 0 where
  pub after : EvmState
  pub ran : run ≡ ok after
  pub valid : IsState after
  pub means : world v after.db ≡ w
  pub kept : after.read_only ≡ s.read_only
  pub counts : (k : ℕ) → count_of k after.codes ≤ count_of k s.codes + 1

pub Does-as :
    (v : Evm) {s : EvmState} {run run' : Result EvmState} {w : World}
    → run ≡ run'
    → Does v s run' w
    → Does v s run w
Does-as v e d = record {
  after = d.after;
  ran = e ∙ d.ran;
  valid = d.valid;
  means = d.means;
  kept = d.kept;
  counts = d.counts;
}

module _ (v : Evm) where
  -- A new row without code refers to nothing.
  pub counted_new :
      (r : AccountRow) (s : EvmState)
      → IsState s
      → r.code_id ≡ none
      → IsCounted (put (next_of s) r s.accounts) s.codes
  counted_new r s h no_code = record {
    ordered = h.codes_valid.ordered;
    counted = λ k. omega (
      arith,
      references-put_new 0 k (next_of s) r s.accounts h.accounts_valid.ordered
          (available_primary_key-le (next_of s) s.accounts h.accounts_valid.below),
      h.codes_valid.counted k,
      ap (refers k) no_code,
    );
    small = h.codes_valid.small;
  }

  -- A row that is made for an address that has none.
  pub makes :
      (address : Bytes) (r : AccountRow) (s : EvmState)
      → IsState s
      → find_account address s.accounts ≡ none
      → r.eth_address ≡ address
      → r.code_id ≡ none
      → Does v s
          (ok (emplace_account r s).1)
          (set_account address (some (holder_of v s.codes r)) (world v s.db))
  makes address r s h missing named no_code = record {
    after = emplaced r s;
    ran = ap (λ (t : ℕ × EvmState). ok t.1) (emplace_account-emplaced r s h);
    valid = emplaced-IsState v address s h r missing named (counted_new r s h no_code);
    means = emplaced-world v address s h r missing named;
    kept = refl;
    counts = λ k. omega arith;
  }

  -- A row that is overwritten, with the same reference.
  pub changes :
      (address : Bytes) (id : ℕ) (r r' : AccountRow) (s : EvmState)
      → IsState s
      → find_account address s.accounts ≡ some (id, r)
      → r'.eth_address ≡ r.eth_address
      → r'.code_id ≡ r.code_id
      → Does v s
          (ok (with_accounts s (put id r' s.accounts)))
          (set_account address (some (holder_of v s.codes r')) (world v s.db))
  changes address id r r' s h found named code =
      let there = find_account-find (next_of s) id address r s.accounts h.accounts_valid found in
      record {
        after = with_accounts s (put id r' s.accounts);
        ran = refl;
        valid = modified-IsState v address s h id r r' found named (record {
          ordered = h.codes_valid.ordered;
          counted = λ k. omega (
            arith,
            references-put 0 k id r r' s.accounts h.accounts_valid.ordered there.0,
            h.codes_valid.counted k,
            ap (refers k) code,
          );
          small = h.codes_valid.small;
        });
        means = modified-world v address s h id r r' found named;
        kept = refl;
        counts = λ k. omega arith;
      }

  -- The account that is there, as put_account and the others see it.
  abbrev pub old_of : Bytes → EvmState → Option Holder
  old_of address s = (world v s.db).account address
