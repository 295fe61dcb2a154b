-- ===== src/State/Chain.antt =====
-- src/state.cpp: the methods of silkworm's State that the contract has no data for.
use eos_evm_contract.Prelude.{ℕ, Result, err}
use eos_evm_contract.Bytes.{Bytes}
use eos_evm_contract.State.{EvmState}

-- A call on headers, bodies or the canonical chain. Blocks and receipts are not looked at.
pub data ChainCall : Type 0 where
  read_header : ℕ → Bytes → ChainCall
  read_body : ℕ → Bytes → ChainCall
  total_difficulty : ℕ → Bytes → ChainCall
  current_canonical_block : ChainCall
  canonical_hash : ℕ → ChainCall
  insert_block : Bytes → ChainCall
  canonize_block : ℕ → Bytes → ChainCall
  decanonize_block : ℕ → ChainCall
  insert_receipts : ℕ → ChainCall
  unwind_state_changes : ℕ → ChainCall
  state_root_hash : ChainCall

unfoldable pub chain_call {ℓ} : {A : Type ℓ} → ChainCall → Result A
chain_call (read_header number hash) = err "read_header not implemented"
chain_call (read_body number hash) = err "read_body not implemented"
chain_call (total_difficulty number hash) = err "total_difficulty not implemented"
chain_call current_canonical_block = err "current_canonical_block not implemented"
chain_call (canonical_hash number) = err "canonical_hash not implemented"
chain_call (insert_block hash) = err "insert_block not implemented"
chain_call (canonize_block number hash) = err "canonize_block not implemented"
chain_call (decanonize_block number) = err "decanonize_block not implemented"
chain_call (insert_receipts number) = err "insert_receipts not implemented"
chain_call (unwind_state_changes number) = err "unwind_state_changes not implemented"
chain_call state_root_hash = err "state_root_hash not implemented"

-- Accounts have no incarnations, and a block needs no preparation.
abbrev pub previous_incarnation : Bytes → EvmState → ℕ
previous_incarnation address s = 0

abbrev pub begin_block : ℕ → EvmState → EvmState
begin_block number s = s
