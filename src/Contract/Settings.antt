-- ===== src/Contract/Settings.antt =====
-- src/actions.cpp: the actions that change the configuration: setfeeparams, freeze, setversion,
-- updtgasparam, setgasparam, setgasprices and setgaslimit.
use eos_evm_contract.Prelude.{
  ℕ, ◌+◌, ◌-◌, ◌%◌, not, ◌||◌, leb, ◌==◌, Bool, true, false, some, Result, ok, ◌>>=◌, ◌>>◌, check,
  has_value, value_or, if◌then◌else◌,
}
use eos_evm_contract.Config.{
  GasPrices, set_status, set_gas_prices, set_ingress_gas_limit, get_evm_version_and_maybe_promote,
}
use eos_evm_contract.Config.Prices.{enqueue_gas_prices}
use eos_evm_contract.Config.Version.{set_evm_version}
use eos_evm_contract.Config.Fees.{FeeParameters, set_fee_parameters}
use eos_evm_contract.Config.Consensus.{update_consensus_parameters2}
use eos_evm_contract.Config.RamPrice.{Double, update_consensus_parameters}
use eos_evm_contract.Balance.{Asset}
use eos_evm_contract.Contract.{Host, Contract, with_config, require_auth, assert_inited}

unfoldable pub setfeeparams : Host → FeeParameters → Contract → Result Contract
unfolding assert_inited
setfeeparams h params c = do
  assert_inited c
  require_auth h h.self
  w ← set_fee_parameters h.platform true params c.config
  ok (with_config c w)

-- `status |= 1` and `status &= ~1`
abbrev pub with_frozen_bit : Bool → ℕ → ℕ
with_frozen_bit true status = if status % 2 == 1 then status else status + 1
with_frozen_bit false status = if status % 2 == 1 then status - 1 else status

unfoldable pub freeze : Host → Bool → Contract → Result Contract
unfolding assert_inited set_status
freeze h value c = do
  require_auth h h.self
  assert_inited c
  ok (with_config c (set_status (with_frozen_bit value c.config.status) c.config))

unfoldable pub setversion : Host → ℕ → Contract → Result Contract
setversion h version c = do
  require_auth h h.self
  w ← set_evm_version h.platform version c.config
  ok (with_config c w)

-- The arithmetic on doubles is `d`.
unfoldable pub updtgasparam :
    {D : Type 0} → Double D → Host → Asset → ℕ → Contract → Result Contract
updtgasparam d h ram_price_mb storage_price c = do
  require_auth h h.self
  w ← update_consensus_parameters h.platform d ram_price_mb storage_price c.config
  ok (with_config c w)

unfoldable pub setgasparam : Host → ℕ → ℕ → ℕ → ℕ → ℕ → Contract → Result Contract
setgasparam h gas_txnewaccount gas_newaccount gas_txcreate gas_codedeposit gas_sset c = do
  require_auth h h.self
  w ←
      update_consensus_parameters2 h.platform
        (record {
          txnewaccount = some gas_txnewaccount;
          newaccount = some gas_newaccount;
          txcreate = some gas_txcreate;
          codedeposit = some gas_codedeposit;
          sset = some gas_sset;
        })
        c.config
  ok (with_config c w)

unfoldable pub setgasprices : Host → GasPrices → Contract → Result Contract
setgasprices h prices c = do
  require_auth h h.self
  check (has_value prices.overhead_price || has_value prices.storage_price)
      "at least one price must be specified"
  check (not (has_value prices.storage_price) || leb 1 (value_or prices.storage_price 0))
      "zero storage price is not allowed"
  r ← get_evm_version_and_maybe_promote h.platform c.config
  w ← if leb 3 r.1 then enqueue_gas_prices h.platform prices r.0 else ok (set_gas_prices prices r.0)
  ok (with_config c w)

-- Alone among these, it asks for no authority.
unfoldable pub setgaslimit : Host → ℕ → Contract → Result Contract
setgaslimit h ingress_gas_limit c =
    ok (with_config c (set_ingress_gas_limit ingress_gas_limit c.config))
