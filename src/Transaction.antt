-- ===== src/Transaction.antt =====
-- The transactions that the contract makes and takes in: include/evm_runtime/transaction.hpp,
-- runtime_config.hpp, and what src/actions.cpp takes from silkworm and evmone to run them, which is a
-- parameter (Silkworm).
use eos_evm_contract.Prelude.{
  ℕ, ◌^◌, Bool, true, false, Option, none, some, List, Result, ok, ◌>>=◌, or_fail,
}
use eos_evm_contract.Bytes.{Bytes}
use eos_evm_contract.Config.{GasParameter}
use eos_evm_contract.State.{Account, EvmState}

abbrev pub two_256 : ℕ
two_256 = 2 ^ 256

-- struct runtime_config, with its initializers.
pub record RuntimeConfig : Type 0 where
  pub allow_special_signature : Bool
  pub abort_on_failure : Bool
  pub enforce_chain_id : Bool
  pub allow_non_self_miner : Bool
  pub gas_payer : Option ℕ

abbrev pub default_runtime_config : RuntimeConfig
default_runtime_config = record {
  allow_special_signature = false;
  abort_on_failure = false;
  enforce_chain_id = true;
  allow_non_self_miner = true;
  gas_payer = none;
}

-- The configuration of the transactions that the contract makes.
abbrev pub bridge_runtime_config : RuntimeConfig
bridge_runtime_config = record {
  allow_special_signature = true;
  abort_on_failure = true;
  enforce_chain_id = false;
  allow_non_self_miner = false;
  gas_payer = none;
}

-- The fields of silkworm's Transaction that the contract sets or reads.
pub record Transaction : Type 0 where
  pub nonce : ℕ
  pub max_priority_fee_per_gas : ℕ
  pub max_fee_per_gas : ℕ
  pub gas_limit : ℕ
  pub to : Option Bytes
  pub value : ℕ
  pub tx_data : Bytes
  pub chain_id : Option ℕ
  pub r : ℕ
  pub s : ℕ

-- A message to a reserved address that the processor has kept; the value is 32 bytes.
pub record FilteredMessage : Type 0 where
  pub receiver : Bytes
  pub sender : Bytes
  pub value : Bytes
  pub payload : Bytes

pub record Receipt : Type 0 where
  pub success : Bool
  pub cumulative_gas_used : ℕ

-- The outcomes of validation that check_result names, and all others.
pub data ValidationResult : Type 0 where
  valid wrong_chain_id unsupported_transaction_type max_fee_less_than_base : ValidationResult
  max_priority_fee_greater_than_max invalid_signature intrinsic_gas nonce_too_high :
      ValidationResult
  missing_sender sender_no_eoa wrong_nonce insufficient_funds : ValidationResult
  block_gas_limit_exceeded other : ValidationResult

-- What exec runs: a transaction of which no other field is set.
pub record ExecInput : Type 0 where
  pub from : Bytes
  pub to : Bytes
  pub input : Bytes
  pub value : ℕ

-- Chains, block headers and the processor's state over the tables are silkworm's, and so is what is
-- done with them. A function that may abort, since it reads accounts through `state`, says so.
pub record Silkworm (Chain Header Overlay : Type 0) : Type 0 where
  pub empty_hash : Bytes
  pub lookup_known_chain : ℕ → Option Chain
  pub prepare_block_header : ℕ → ℕ → ℕ → ℕ → Option ℕ → Header
  pub base_fee_per_gas : Header → Option ℕ
  pub processor : Header → Chain → EvmState → ℕ × ℕ → Overlay
  pub is_special_signature : ℕ → ℕ → Bool
  pub pre_validate_transaction : Transaction → Header → Chain → GasParameter → ValidationResult
  pub recover_sender : Transaction → Option Bytes
  pub is_reserved_address : Bytes → Bool
  pub extract_reserved_address : Bytes → Option ℕ
  pub make_reserved_address : ℕ → Bytes
  pub set_balance : Bytes → ℕ → Overlay → Result Overlay
  pub set_nonce : Bytes → ℕ → Overlay → Result Overlay
  pub validate_transaction : Transaction → Bytes → Overlay → Result ValidationResult
  pub execute_transaction :
      Transaction → Bytes → GasParameter → Overlay → Result (Overlay × Receipt × ℕ)
  pub priority_fee_per_gas : Transaction → ℕ → ℕ
  pub reserved_objects : Overlay → List (Bytes × Account)
  pub filtered_messages : Overlay → List FilteredMessage
  pub finalize : Header → Overlay → Result Overlay
  pub write_to_db : Header → Overlay → Result EvmState
  pub evm_execute : Header → Chain → EvmState → ExecInput → GasParameter → Result (ℕ × Bytes)
  pub encode : Transaction → Bytes
  pub decode_transaction : Bytes → Option Transaction

-- struct transaction: the bytes, the decoded transaction, or both, once one was made from the other.
pub record Envelope : Type 0 where
  pub rlptx : Option Bytes
  pub tx : Option Transaction

abbrev pub of_bytes : Bytes → Envelope
of_bytes b = record { rlptx = some b; tx = none }

abbrev pub of_tx : Transaction → Envelope
of_tx t = record { rlptx = none; tx = some t }

module _ {Chain Header Overlay : Type 0} (w : Silkworm Chain Header Overlay) where
  unfoldable pub get_rlptx : Envelope → Result (Envelope × Bytes)
  get_rlptx e = elim e.rlptx [
    | some b ↦ ok (e, b)
    | none ↦ do t ← or_fail e.tx "no tx"; ok (record e { rlptx = some (w.encode t) }, w.encode t)
  ]

  unfoldable pub get_tx : Envelope → Result (Envelope × Transaction)
  get_tx e = elim e.tx [
    | some t ↦ ok (e, t)
    | none ↦ do
      b ← or_fail e.rlptx "no rlptx"
      t ← or_fail (w.decode_transaction b) "unable to decode transaction"
      ok (record e { tx = some t }, t)
  ]
