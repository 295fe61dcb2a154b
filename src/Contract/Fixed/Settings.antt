-- ===== src/Contract/Fixed/Settings.antt =====
-- src/actions.cpp: the settings and the change of the gas token, for the chain's part of the
-- configuration.
use eos_evm_contract.Prelude.{
  ℕ, ◌≡◌, Bool, true, Option, String, ok, arith, Result-cases, inl, inr, ap, ◌∙◌,
}
use eos_evm_contract.Balance.{Symbol, Asset}
use eos_evm_contract.Config.{
  ConfigWrapper, GasPrices, Platform, set_gas_price, set_gas_prices, set_ingress_bridge_fee,
  set_miner_cut, set_status, swap_gas_token, get_evm_version_and_maybe_promote,
}
use eos_evm_contract.Config.Fees.{
  FeeParameters, set_fee_parameters, set_fee_gas_price, set_fee_miner_cut, set_fee_ingress,
}
use eos_evm_contract.Config.Prices.{enqueue_gas_price, enqueue_gas_prices}
use eos_evm_contract.Config.Version.{set_evm_version}
use eos_evm_contract.Config.Consensus.{update_consensus_parameters2}
use eos_evm_contract.Config.RamPrice.{Double, update_consensus_parameters, set_storage_price}
use eos_evm_contract.Contract.{Host, Contract, get_statistics, set_statistics}
use eos_evm_contract.Contract.Settings.{
  setfeeparams, freeze, setversion, updtgasparam, setgasparam, setgasprices,
}
use eos_evm_contract.Contract.Swap.{swapgastoken, migratebal}
use eos_evm_contract.Contract.Fixed.{chain_of}
use eos_evm_contract.Contract.Fixed.Prices.{get_evm_version-chain}

set_fee_parameters-chain :
    (e : Platform) (params : FeeParameters) (w w' : ConfigWrapper)
    → set_fee_parameters e true params w ≡ ok w'
    → chain_of w' ≡ chain_of w
unfolding set_fee_parameters set_fee_gas_price set_fee_miner_cut set_fee_ingress enqueue_gas_price
    set_ingress_bridge_fee set_gas_price set_miner_cut
set_fee_parameters-chain e params w w' run = ground (arith, run)

pub setfeeparams-chain :
    (h : Host) (params : FeeParameters) (c c' : Contract)
    → setfeeparams h params c ≡ ok c'
    → chain_of c'.config ≡ chain_of c.config
unfolding setfeeparams
setfeeparams-chain h params c c' run =
    elim (Result-cases (set_fee_parameters h.platform true params c.config)) [
      | inr (text, failed) ↦ absurd (ground (arith, run, failed))
      | inl (w, set) ↦
          let same : c'.config ≡ w = ground (arith, run, set) in
          ap chain_of same ∙ set_fee_parameters-chain h.platform params c.config w set
    ]

pub freeze-chain :
    (h : Host) (value : Bool) (c c' : Contract)
    → freeze h value c ≡ ok c'
    → chain_of c'.config ≡ chain_of c.config
unfolding freeze set_status
freeze-chain h value c c' run = ground (arith, run)

set_evm_version-chain :
    (e : Platform) (version : ℕ) (w w' : ConfigWrapper)
    → set_evm_version e version w ≡ ok w'
    → chain_of w' ≡ chain_of w
unfolding set_evm_version
set_evm_version-chain e version w w' run =
    elim (Result-cases (get_evm_version_and_maybe_promote e w)) [
      | inr (text, failed) ↦ ground (arith, run, failed)
      | inl ((w1, current), promoted) ↦
          let kept = get_evm_version-chain e w w1 current promoted in
          ground (arith, run, promoted, kept)
    ]

pub setversion-chain :
    (h : Host) (version : ℕ) (c c' : Contract)
    → setversion h version c ≡ ok c'
    → chain_of c'.config ≡ chain_of c.config
unfolding setversion
setversion-chain h version c c' run =
    elim (Result-cases (set_evm_version h.platform version c.config)) [
      | inr (text, failed) ↦ absurd (ground (arith, run, failed))
      | inl (w, set) ↦
          let same : c'.config ≡ w = ground (arith, run, set) in
          ap chain_of same ∙ set_evm_version-chain h.platform version c.config w set
    ]

pub updtgasparam-chain :
    {D : Type 0} (d : Double D) (h : Host) (ram_price_mb : Asset) (price : ℕ) (c c' : Contract)
    → updtgasparam d h ram_price_mb price c ≡ ok c'
    → chain_of c'.config ≡ chain_of c.config
unfolding updtgasparam update_consensus_parameters set_storage_price enqueue_gas_price
    enqueue_gas_prices update_consensus_parameters2
updtgasparam-chain d h ram_price_mb price c c' run = ground (arith, run)

pub setgasparam-chain :
    (h : Host) (a b d e g : ℕ) (c c' : Contract)
    → setgasparam h a b d e g c ≡ ok c'
    → chain_of c'.config ≡ chain_of c.config
unfolding setgasparam update_consensus_parameters2
setgasparam-chain h a b d e g c c' run = ground (arith, run)

pub setgasprices-chain :
    (h : Host) (prices : GasPrices) (c c' : Contract)
    → setgasprices h prices c ≡ ok c'
    → chain_of c'.config ≡ chain_of c.config
unfolding setgasprices enqueue_gas_prices set_gas_prices
setgasprices-chain h prices c c' run =
    elim (Result-cases (get_evm_version_and_maybe_promote h.platform c.config)) [
      | inr (text, failed) ↦ ground (arith, run, failed)
      | inl ((w, version), promoted) ↦
          let kept = get_evm_version-chain h.platform c.config w version promoted in
          ground (arith, run, promoted, kept)
    ]

pub swapgastoken-chain :
    (h : Host) (token : ℕ) (symbol : Symbol) (dest : ℕ) (memo : String) (old : Option Asset)
    (c c' : Contract)
    → swapgastoken h token symbol dest memo old c ≡ ok c'
    → chain_of c'.config ≡ chain_of c.config
unfolding swapgastoken migratebal swap_gas_token get_statistics set_statistics
swapgastoken-chain h token symbol dest memo old c c' run = ground (arith, run)
