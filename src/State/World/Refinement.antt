-- ===== src/State/World/Refinement.antt =====
-- src/state.cpp: the operations of `state` in any order, with the objects opened and closed in between,
-- against what the tables stand for.
use eos_evm_contract.Prelude.{
  ℕ, ◌+◌, ◌<◌, ◌≡◌, refl, Bool, false, Option, List, [], ◌∷◌, length, Result, ok, ◌>>=◌, arith,
  if◌then◌else◌, ap, sym, ◌∙◌, Option-cases, inl, inr, none,
}
use eos_evm_contract.Bytes.{Bytes}
use eos_evm_contract.PriceQueue.{two_32}
use eos_evm_contract.State.{Evm, Account, EvmState, open_state, close_state}
use eos_evm_contract.State.Update.{
  update_account, update_account_code, update_storage, option_account_eq,
}
use eos_evm_contract.State.Gc.{gc}
use eos_evm_contract.State.World.{World, world, put_account, put_code, put_slot}
use eos_evm_contract.State.World.Invariant.{IsState, count_of, next_of}
use eos_evm_contract.State.World.Writes.{Does}
use eos_evm_contract.State.World.Accounts.{update_account-Does}
use eos_evm_contract.State.World.Storage.{update_storage-Does}
use eos_evm_contract.State.World.Coding.{update_account_code-Does}
use eos_evm_contract.State.World.Collection.{gc-Does}

-- A call on the state, or its end and the next object over the same tables.
pub data Step : Type 0 where
  account_written : Bytes → Option Account → Option Account → Step
  code_written : Bytes → Bytes → Bytes → Step
  slot_written : Bytes → Bytes → Bytes → Step
  collected : ℕ → Step
  reopened : Bool → Step

module _ (v : Evm) where
  unfoldable pub run_step : Step → EvmState → Result EvmState
  run_step (account_written address initial current) s = update_account v address initial current s
  run_step (code_written address code_hash code) s = update_account_code address code_hash code s
  run_step (slot_written address location value) s = update_storage v address location value s
  run_step (collected max) s = ok (gc max s).0
  run_step (reopened allow_frozen) s = ok (open_state (close_state s) false allow_frozen)

  unfoldable pub run_steps : List Step → EvmState → Result EvmState
  run_steps [] s = ok s
  run_steps (step ∷ steps) s = run_step step s >>= run_steps steps

  -- The same on what the tables stand for.
  abbrev pub step_world : Step → World → World
  step_world (account_written address initial current) w =
      if option_account_eq v current initial
      then w
      else put_account v address initial current (w.account address) w
  step_world (code_written address code_hash code) w =
      put_code v address code_hash (w.account address) w
  step_world (slot_written address location value) w = put_slot v address location value w
  step_world (collected max) w = w
  step_world (reopened allow_frozen) w = w

  abbrev pub steps_world : List Step → World → World
  steps_world [] w = w
  steps_world (step ∷ steps) w = steps_world steps (step_world step w)

  -- The next account id survives in config2.
  unread_closed :
      (s : EvmState) → s.config2 ≡ none → (close_state s).next_account_id ≡ s.next_account_id
  unread_closed s unread = rw unread refl

  reopened_next :
      (allow_frozen : Bool) (s : EvmState)
      → next_of (open_state (close_state s) false allow_frozen) ≡ next_of s
  unfolding next_of
  reopened_next allow_frozen s = elim (Option-cases s.config2) [
    | inl unread ↦ rw unread refl
    | inr (n, cached) ↦ rw cached refl
  ]

  reopened-Does :
      (allow_frozen : Bool) (s : EvmState)
      → IsState s
      → s.read_only ≡ false
      → Does v s (ok (open_state (close_state s) false allow_frozen)) (world v s.db)
  reopened-Does allow_frozen s h rw_state =
      let after = open_state (close_state s) false allow_frozen in
      let next : next_of after ≡ next_of s = reopened_next allow_frozen s in
      record {
        after = after;
        ran = refl;
        valid = record {
          accounts_valid = rw next h.accounts_valid;
          scopes_valid = rw next h.scopes_valid;
          codes_valid = h.codes_valid;
          garbage_valid = rw next h.garbage_valid;
          started = λ unread nowhere. elim (Option-cases s.config2) [
            | inl not_read ↦ h.started not_read (sym (unread_closed s not_read) ∙ nowhere)
            | inr (n, cached) ↦ ground (arith, cached, nowhere)
          ];
        };
        means = refl;
        kept = sym rw_state;
        counts = λ k. omega arith;
      }

  run_step-Does :
      (step : Step) (s : EvmState)
      → IsState s
      → s.read_only ≡ false
      → ((code_id : ℕ) → count_of code_id s.codes + 1 < two_32)
      → Does v s (run_step step s) (step_world step (world v s.db))
  unfolding run_step
  run_step-Does (account_written address initial current) s h rw_state small =
      update_account-Does v address initial current s h rw_state
  run_step-Does (code_written address code_hash code) s h rw_state small =
      update_account_code-Does v address code_hash code s h small rw_state
  run_step-Does (slot_written address location value) s h rw_state small =
      update_storage-Does v address location value s h rw_state
  run_step-Does (collected max) s h rw_state small = gc-Does v s h max
  run_step-Does (reopened allow_frozen) s h rw_state small = reopened-Does allow_frozen s h rw_state

  -- From tables as they are to be, all calls on a state that may be written go through, and the tables
  -- are as they are to be afterwards, and stand for what the calls mean one after the other, where no
  -- count of references to a code can exceed its uint32_t.
  pub run_steps-steps_world :
      (steps : List Step) (s : EvmState)
      → IsState s
      → s.read_only ≡ false
      → ((code_id : ℕ) → count_of code_id s.codes + length steps < two_32)
      → (s' : EvmState) × (run_steps steps s ≡ ok s')
        × IsState s'
        × (world v s'.db ≡ steps_world steps (world v s.db))
  unfolding run_steps
  run_steps-steps_world [] s h rw_state small = (s, refl, h, refl)
  run_steps-steps_world (step ∷ steps) s h rw_state small =
      let one = run_step-Does step s h rw_state (λ k. omega (arith, small k)) in
      let (s', ran, valid, means) =
        run_steps-steps_world steps one.after one.valid (one.kept ∙ rw_state)
          (λ k. omega (arith, small k, one.counts k)) in
      (s', rw one.ran ran, valid, means ∙ ap (steps_world steps) one.means)
