-- ===== src/Tests/World.antt =====
-- The operations of the EVM state, and what its tables stand for, at concrete inputs.
use eos_evm_contract.Prelude.{
  ℕ, ◌+◌, ◌*◌, ◌<◌, ◌≡◌, refl, true, false, none, some, List, [], ◌∷◌, ok, arith, length, leb,
}
use eos_evm_contract.Bytes.{Bytes}
use eos_evm_contract.PriceQueue.{two_32}
use eos_evm_contract.Table.{find}
use eos_evm_contract.Table.Order.{IsAscending}
use eos_evm_contract.Table.Bounds.{IsBelow}
use eos_evm_contract.Table.Index.{IsUnique}
use eos_evm_contract.State.{EvmState, Account, open_state}
use eos_evm_contract.State.Read.{read_storage, read_account}
use eos_evm_contract.State.Gc.{gc}
use eos_evm_contract.State.GcLaws.{gc_times, gc_times-done}
use eos_evm_contract.State.World.{world}
use eos_evm_contract.State.World.Invariant.{IsState, count_of, references, next_of}
use eos_evm_contract.State.World.Refinement.{
  Step, account_written, code_written, slot_written, collected, reopened, run_steps, steps_world,
  run_steps-steps_world,
}
use eos_evm_contract.State.World.Reads.{
  IsCoherent, HashesFit, account_of, read_storage-world, read_account-world,
}
use eos_evm_contract.Tests.Samples.{db}
use eos_evm_contract.Tests.Storage.{evm, account}

-- Tables without a row, as a new contract has them.
abbrev empty : EvmState
empty = open_state (record db { next_account_id = none }) false true

empty-IsState : IsState empty
unfolding IsAscending IsUnique IsBelow references count_of find next_of
empty-IsState = record {
  accounts_valid = record { ordered = tt; unique = tt; below = tt };
  scopes_valid = record {
    scopes = λ id. record { ordered = tt; unique = tt };
    fresh = λ id above. refl;
  };
  codes_valid = record { ordered = tt; counted = λ k. omega arith; small = λ k. omega arith };
  garbage_valid = record { unused = λ id c. absurd c };
  started = λ unread nowhere. refl;
}

abbrev address : Bytes
address = 1 ∷ []

abbrev holder : Account
holder = record { nonce = 4; balance = 20; code_hash = []; incarnation = 0 }

-- An account is made, gets code and storage, and is removed; then its address gets storage again.
abbrev steps : List Step
steps =
    account_written address none (some holder)
    ∷ code_written address (6 ∷ []) (96 ∷ [])
    ∷ slot_written address (7 ∷ []) (9 ∷ [])
    ∷ account_written address (some holder) none
    ∷ reopened true
    ∷ slot_written address (8 ∷ []) (3 ∷ [])
    ∷ collected 5
    ∷ []

uncounted : (k : ℕ) → count_of k empty.codes + length steps < two_32
unfolding count_of find
uncounted k = omega arith

run_steps-steps_world_example :
    (s' : EvmState) × (run_steps evm steps empty ≡ ok s')
    × IsState s'
    × (world evm s'.db ≡ steps_world evm steps (world evm empty.db))
run_steps-steps_world_example = run_steps-steps_world evm steps empty empty-IsState refl uncounted

-- A removed account has left two rows of storage.
abbrev littered : EvmState
littered =
    open_state
      (record db {
        accounts = (3, account) ∷ [];
        storage = λ id.
            (0, record { key = 5 ∷ []; value = 1 ∷ [] })
            ∷ (2, record { key = 7 ∷ []; value = 2 ∷ [] })
            ∷ [];
        gcstore = (0, 1) ∷ [];
      })
      false true

gc_times-done_example :
    ((n : ℕ) → (gc 2 (gc_times n 2 littered)).1 ≡ leb 3 (n * 2 + 2))
    × ((gc 2 (gc_times 3 2 littered)).1 ≡ true)
gc_times-done_example = gc_times-done 2 littered (omega arith)

unread-IsCoherent : IsCoherent littered
unread-IsCoherent a id known = cc

no_codes : HashesFit littered.codes
unfolding find
no_codes id c there = cc

read_storage-world_example :
    let (s', value) = read_storage address (7 ∷ []) littered in
    (value ≡ (world evm littered.db).slot address (7 ∷ [])) × IsCoherent s' × (s'.db ≡ littered.db)
read_storage-world_example = read_storage-world evm address (7 ∷ []) littered unread-IsCoherent

read_account-world_example :
    (s' : EvmState) × (read_account evm address littered
      ≡ ok (s', account_of evm ((world evm littered.db).account address)))
    × IsCoherent s'
    × (s'.db ≡ littered.db)
read_account-world_example = read_account-world evm address littered refl no_codes unread-IsCoherent
