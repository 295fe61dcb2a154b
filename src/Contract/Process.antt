-- ===== src/Contract/Process.antt =====
-- src/actions.cpp: process_tx, which runs one transaction from its checks to what it writes, and
-- pushtx and dispatch_tx, which call it.
use eos_evm_contract.Prelude.{
  ℕ, ◌+◌, ◌-◌, ◌%◌, ◌==◌, leb, Bool, true, false, not, ◌&&◌, ◌||◌, Option, none, some, List, [],
  ◌∷◌, ◌++◌, map, Result, ok, ◌>>=◌, ◌>>◌, check, or_fail, has_value, value_or, length,
  if◌then◌else◌, ltb,
}
use eos_evm_contract.Bytes.{Bytes, bytes_eq, Intx}
use eos_evm_contract.Balance.{AssetOps}
use eos_evm_contract.Config.{
  GasParameter, get_evm_version, get_evm_version_and_maybe_promote, current_block,
}
use eos_evm_contract.Config.Consensus.{get_consensus_param_and_maybe_promote}
use eos_evm_contract.State.{EvmState, open_state, close_state}
use eos_evm_contract.Message.{Stream, Names}
use eos_evm_contract.Transaction.{
  two_256, RuntimeConfig, default_runtime_config, bridge_runtime_config, Transaction,
  FilteredMessage, Silkworm, Envelope, of_bytes, get_rlptx, get_tx,
}
use eos_evm_contract.Contract.{Host, Contract, with_config, assert_unfrozen, get_gas_price}
use eos_evm_contract.Contract.Ingress.{process_prices}
use eos_evm_contract.Contract.Messages.{Notice, process_filtered_messages}
use eos_evm_contract.Contract.Execute.{Call, execute_tx}
pub mod Frame
pub mod Conserved

-- The inline actions that a transaction sends, other than transfers, which come before them.
pub data Event : Type 0 where
  on_bridge_message : Notice → Event
  config_change : GasParameter → Event
  evmtx_v1 : ℕ → Bytes → ℕ → Event
  evmtx_v3 : ℕ → Bytes → ℕ → ℕ → Event
  push_tx : ℕ → Bytes → Event

-- What all actions on transactions take from elsewhere.
pub record Outside (Chain Header Overlay : Type 0) : Type 0 where
  pub assets : AssetOps
  pub silkworm : Silkworm Chain Header Overlay
  pub host : Host
  pub intx : Intx
  pub stream : Stream
  pub names : Names

-- The price of a transaction against the price of gas: what is left for inclusion from version 1 on,
-- a uint256, and the rules before it.
unfoldable pub check_price : ℕ → Option ℕ → ℕ → Transaction → Result (Unit {0})
check_price version min_inclusion_price price tx =
    if leb 1 version
    then check
        (leb (value_or min_inclusion_price 0) tx.max_priority_fee_per_gas
          && leb (value_or min_inclusion_price 0)
              ((tx.max_fee_per_gas + (two_256 - price % two_256)) % two_256))
        "inclusion price must >= min_inclusion_price"
    else (check (tx.max_priority_fee_per_gas == tx.max_fee_per_gas)
          "max_priority_fee_per_gas must be equal to max_fee_per_gas"
        >> check (leb price tx.max_fee_per_gas) "gas price is too low")

-- The event of a transaction: none before version 1.
unfoldable pub tx_event : ℕ → Bytes → Option ℕ → Option ℕ → ℕ → List Event
tx_event version rlptx overhead storage price =
    if leb 3 version
    then evmtx_v3 version rlptx (value_or overhead 0) (value_or storage 0) ∷ []
    else if leb 1 version
    then evmtx_v1 version rlptx price ∷ []
    else []

module _ {Chain Header Overlay : Type 0} (o : Outside Chain Header Overlay) where
  open o use {assets, silkworm, host, intx, stream, names}

  -- A message with data to the address of the contract's own account.
  abbrev pub to_bridge : FilteredMessage → Bool
  to_bridge m =
      bytes_eq m.receiver (silkworm.make_reserved_address host.self) && ltb 0 (length m.payload)

  -- From where the processor is made: the transaction, the messages, and the tables of the EVM.
  unfoldable pub run_block :
      Call Header Chain → Overlay → Contract → Result (Contract × List Notice)
  run_block call ep c = do
    r ← execute_tx assets silkworm host intx call ep c
    m ←
        process_filtered_messages stream names intx host to_bridge (silkworm.filtered_messages r.0)
          r.2
    done ← silkworm.finalize call.header r.0
    s ← silkworm.write_to_db call.header done
    ok (record (m.0) { evm = close_state s }, m.1)

  -- The header of the block that a transaction runs in.
  abbrev pub header_of : ℕ → Contract → Header
  header_of version c =
      silkworm.prepare_block_header c.config.genesis_time host.self
        (current_block host.platform c.config) version
        (if leb 1 version then some (get_gas_price version c) else none)

  -- What runs the transaction, and the processor that runs it, over the tables of the EVM.
  abbrev pub call_of :
      RuntimeConfig → ℕ → Transaction → ℕ → GasParameter → Chain → Contract → Call Header Chain
  call_of rc miner tx version gas_params chain c = record {
    rc = rc;
    miner = miner;
    header = header_of version c;
    chain = chain;
    gas_params = gas_params;
    tx = tx;
  }

  abbrev pub processor_of : ℕ → Chain → Contract → Overlay
  processor_of version chain c =
      silkworm.processor (header_of version c) chain (open_state c.evm false false) (
        value_or c.config.gas_prices.overhead_price 0,
        value_or c.config.gas_prices.storage_price 0,
      )

  -- From the settings that are in force on; `changed` says whether the gas parameters are new.
  unfoldable pub process_in :
      RuntimeConfig
      → ℕ
      → Envelope × Transaction
      → Option ℕ
      → ℕ
      → GasParameter × Bool
      → Chain
      → Contract
      → Result (Contract × List Event)
  unfolding run_block check_price
  process_in rc miner t min_inclusion_price version (gas_params, changed) chain c = do
    check_price version min_inclusion_price (get_gas_price version c) t.1
    r ← run_block (call_of rc miner t.1 version gas_params chain c) (processor_of version chain c) c
    b ← get_rlptx silkworm t.0
    ok (
      r.0,
      map on_bridge_message r.1
          ++ ((if changed then config_change gas_params ∷ [] else [])
              ++ tx_event version b.1 c.config.gas_prices.overhead_price
                  c.config.gas_prices.storage_price (get_gas_price version c)),
    )

  unfoldable pub process_tx :
      RuntimeConfig → ℕ → Envelope → Option ℕ → Contract → Result (Contract × List Event)
  unfolding process_in
  process_tx rc miner txn min_inclusion_price c = do
    t ← get_tx silkworm txn
    check (rc.allow_non_self_miner || miner == host.self)
        "unexpected error: EVM contract generated inline pushtx without setting itself as the miner"
    v ← get_evm_version_and_maybe_promote host.platform c.config
    g ← get_consensus_param_and_maybe_promote host.platform v.0
    check (not g.2 || leb 1 v.1) "gas param change requires evm_version >= 1"
    chain ← or_fail (silkworm.lookup_known_chain g.0.chainid) "unknown chainid"
    process_in rc miner t min_inclusion_price v.1 (g.1, g.2) chain (with_config c g.0)

  -- A transaction that the contract made itself, sent to itself by an inline action.
  abbrev pub from_self : Bool
  from_self = elim host.sender [ none ↦ false | some sender ↦ sender == host.self ]

  unfoldable pub pushtx : ℕ → Bytes → Option ℕ → Contract → Result (Contract × List Event)
  unfolding process_tx assert_unfrozen
  pushtx miner rlptx min_inclusion_price c = do
    assert_unfrozen c
    check (not (has_value min_inclusion_price) || leb 1 (get_evm_version host.platform c.config))
        "min_inclusion_price requires evm_version >= 1"
    process_tx (if from_self then bridge_runtime_config else default_runtime_config) miner
        (of_bytes rlptx) min_inclusion_price (process_prices host c)

  -- Before version 1 the contract pushes the transaction to itself; it runs at once from then on.
  unfoldable pub dispatch_tx : RuntimeConfig → Envelope → Contract → Result (Contract × List Event)
  unfolding process_tx
  dispatch_tx rc txn c = do
    v ← get_evm_version_and_maybe_promote host.platform c.config
    let c' = with_config c v.0
    if leb 1 v.1
        then process_tx rc host.self txn none c'
        else (check
              (not (has_value rc.gas_payer)
                && (rc.allow_special_signature
                    && (rc.abort_on_failure
                        && (not rc.enforce_chain_id && not rc.allow_non_self_miner))))
              "invalid runtime config"
            >> (get_rlptx silkworm txn >>= λ b. ok (c', push_tx host.self b.1 ∷ [])))
