-- ===== src/Contract/Calls.antt =====
-- src/actions.cpp: the actions that make a transaction and dispatch it: call, callotherpay, admincall,
-- and transfer with its transaction; exec, which runs a call without effect, and gc.
use eos_evm_contract.Prelude.{
  ℕ, ◌+◌, ◌-◌, ◌%◌, ◌^◌, ◌==◌, leb, Bool, true, false, Option, none, some, List, [], ◌++◌, Result,
  ok, ◌>>=◌, ◌>>◌, check, or_fail, length, replicate, if◌then◌else◌,
}
use eos_evm_contract.Bytes.{Bytes, Intx, to_address, to_uint256}
use eos_evm_contract.Balance.{Asset}
use eos_evm_contract.Config.{get_evm_version, get_evm_version_and_maybe_promote, current_block}
use eos_evm_contract.Config.Consensus.{get_consensus_param}
use eos_evm_contract.State.{Evm, open_state, close_state}
use eos_evm_contract.State.Read.{read_account}
use eos_evm_contract.State.Gc as collector
use eos_evm_contract.Transaction.{RuntimeConfig, bridge_runtime_config, of_tx}
use eos_evm_contract.Contract.{
  Host, Contract, with_config, require_auth, assert_unfrozen, get_gas_price,
}
use eos_evm_contract.Contract.Accounts.{get_and_increment_nonce}
use eos_evm_contract.Contract.Ingress.{Parsing, process_prices, transfer}
use eos_evm_contract.Contract.Process.{Outside, Event, dispatch_tx}
pub mod Conserved

-- A uint256 that is passed as 32 bytes.
unfoldable pub read_value : Intx → Bytes → Result ℕ
read_value x value = do check (length value == 32) "invalid value"; ok (x.be_load value)

-- The signature of a transaction from an address: its bytes, with ones before them.
unfoldable pub signature_of : Intx → Bytes → ℕ
signature_of x from = x.be_load (replicate 12 0 ++ from) % 2 ^ 160 + (2 ^ 256 - 2 ^ 160)

-- struct exec_input and exec_callback; exec_output.
pub record ExecRequest : Type 0 where
  pub context : Option Bytes
  pub from : Option Bytes
  pub to : Bytes
  pub input : Bytes
  pub value : Option Bytes

pub record ExecOutput : Type 0 where
  pub status : ℕ
  pub output : Bytes
  pub context : Option Bytes

module _ {Chain Header Overlay : Type 0} (o : Outside Chain Header Overlay) (p : Parsing) where
  open o use {assets, silkworm, host, intx}

  unfoldable pub call_ :
      RuntimeConfig → ℕ → Bytes → ℕ → Bytes → ℕ → ℕ → Contract → Result (Contract × List Event)
  call_ rc s to value input gas_limit nonce c =
      let c' = process_prices host c in
      let price = get_gas_price (get_evm_version host.platform c.config) c' in
      dispatch_tx o rc
        (of_tx (record {
          nonce = nonce;
          max_priority_fee_per_gas = price;
          max_fee_per_gas = price;
          gas_limit = gas_limit;
          to = if length to == 0 then none else some (p.to_evmc_address to);
          value = value;
          tx_data = input;
          chain_id = none;
          r = 0;
          s = s;
        }))
        c'

  unfoldable pub call : ℕ → Bytes → Bytes → Bytes → ℕ → Contract → Result (Contract × List Event)
  unfolding call_ read_value assert_unfrozen
  call from to value input gas_limit c = do
    assert_unfrozen c
    require_auth host from
    v ← read_value intx value
    n ← get_and_increment_nonce from c
    call_ bridge_runtime_config from to v input gas_limit n.1 n.0

  unfoldable pub callotherpay :
      ℕ → ℕ → Bytes → Bytes → Bytes → ℕ → Contract → Result (Contract × List Event)
  unfolding call_ read_value assert_unfrozen
  callotherpay payer from to value input gas_limit c = do
    assert_unfrozen c
    require_auth host from
    require_auth host payer
    version ← get_evm_version_and_maybe_promote host.platform c.config
    check (leb 1 version.1) "operation not supported for current evm version"
    v ← read_value intx value
    n ← get_and_increment_nonce from (with_config c version.0)
    call_ (record bridge_runtime_config { gas_payer = some payer }) from to v input gas_limit n.1
        n.0

  -- The nonce of an address that is reserved for an account is that of the account's row; another
  -- address has to be an account of the EVM.
  unfoldable pub admin_nonce : Evm → Bytes → Contract → Result (Contract × ℕ)
  admin_nonce v from c = elim (silkworm.extract_reserved_address from) [
    | some account ↦ get_and_increment_nonce account c
    | none ↦ do
      r ← read_account v from (open_state c.evm true true)
      account ← or_fail r.1 "invalid address"
      ok (c, account.nonce)
  ]

  unfoldable pub admincall :
      Evm → Bytes → Bytes → Bytes → Bytes → ℕ → Contract → Result (Contract × List Event)
  unfolding call_ read_value signature_of admin_nonce assert_unfrozen
  admincall ev from to value input gas_limit c = do
    assert_unfrozen c
    require_auth host host.self
    v ← read_value intx value
    check (length from == 20) "invalid address"
    address ← to_address from
    n ← admin_nonce ev address c
    call_ bridge_runtime_config (signature_of intx from) to v input gas_limit n.1 n.0

  -- The notification of a transfer, with the transaction that it makes.
  unfoldable pub on_transfer : ℕ → ℕ → Asset → Bytes → Contract → Result (Contract × List Event)
  on_transfer from to quantity memo c = do
    r ← transfer assets p host from to quantity memo c
    elim r.1 [ none ↦ ok (r.0, []) | some d ↦ dispatch_tx o d.rc (of_tx d.txn) r.0 ]

  -- A call that writes nothing: its output, which goes to the callback or is returned.
  unfoldable pub exec : ExecRequest → Contract → Result ExecOutput
  unfolding assert_unfrozen
  exec request c = do
    assert_unfrozen c
    chain ← or_fail (silkworm.lookup_known_chain c.config.chainid) "unknown chainid"
    let version = get_evm_version host.platform c.config
    let header =
        silkworm.prepare_block_header c.config.genesis_time host.self
          (current_block host.platform c.config) version
          (if leb 1 version then some (get_gas_price version c) else none)
    to ← to_address request.to
    from ← elim request.from [ none ↦ ok (replicate 20 0) | some b ↦ to_address b ]
    value ← elim request.value [ none ↦ ok 0 | some b ↦ to_uint256 intx b ]
    r ←
        silkworm.evm_execute header chain (open_state c.evm true true)
          (record { from = from; to = to; input = request.input; value = value })
          (get_consensus_param host.platform c.config)
    ok (record { status = r.0; output = r.1; context = request.context })

unfoldable pub gc : Host → ℕ → Contract → Result (Contract × Bool)
unfolding assert_unfrozen
gc h max c = do
  assert_unfrozen c
  require_auth h h.self
  let r = collector.gc max (open_state c.evm false true)
  ok (record c { evm = close_state r.0 }, r.1)
