-- ===== src/Contract/Startup.antt =====
-- src/actions.cpp: what init leaves.
use eos_evm_contract.Prelude.{
  ℕ, ◌/◌, ◌%◌, ◌≡◌, Bool, true, false, Option, none, ok, err, arith, if◌then◌else◌, Result-cases,
  inl, inr,
}
use eos_evm_contract.Table.{Table}
use eos_evm_contract.Config.{
  ConfigWrapper, GasPrices, set_version, set_chainid, set_genesis_time, set_token_contract,
  set_ingress_bridge_fee, set_gas_price,
}
use eos_evm_contract.Config.Row.{load, flush}
use eos_evm_contract.Config.Fees.{
  FeeParameters, set_fee_parameters, set_fee_gas_price, set_fee_miner_cut, set_fee_ingress,
}
use eos_evm_contract.Config.Prices.{enqueue_gas_price}
use eos_evm_contract.Contract.{Host, Contract, with_config, assert_unfrozen, assert_inited}
use eos_evm_contract.Contract.Accounts.{open_internal_balance}
use eos_evm_contract.Contract.Init.{init, init_config}

fees_keep :
    (h : Host) (params : FeeParameters) (w w' : ConfigWrapper)
    → set_fee_parameters h.platform false params w ≡ ok w'
    → (w'.dirty ≡ true) × (w'.version ≡ w.version) × (w'.status ≡ w.status)
unfolding set_fee_parameters set_fee_gas_price set_fee_miner_cut set_fee_ingress enqueue_gas_price
    set_ingress_bridge_fee set_gas_price
fees_keep h params w w' e = ground arith

init_config_keeps :
    (h : Host) (chainid : ℕ) (params : FeeParameters) (token_contract : Option ℕ)
    (w w' : ConfigWrapper)
    → init_config h.platform chainid params token_contract w ≡ ok w'
    → (w'.dirty ≡ true) × (w'.version ≡ 0) × (w'.status ≡ w.status)
unfolding init_config set_token_contract set_version set_chainid set_genesis_time
init_config_keeps h chainid params token_contract w w' e =
    let dated =
      set_genesis_time (h.platform.now / 1000000 % 4294967296)
        (set_chainid chainid (set_version 0 w)) in
    elim (Result-cases (set_fee_parameters h.platform false params dated)) [
      | inr (m, failed) ↦ absurd (ground (arith, failed))
      | inl (paid, fees) ↦
          let kept = fees_keep h params dated paid fees in ground (arith, fees, kept)
    ]

-- The contract as the next action finds it: the configuration is flushed and loaded again.
abbrev pub next_action : ℕ → Contract → Contract
next_action default_token_account c =
    with_config c
      (load default_token_account (flush none c.config) c.config.price_queue c.config.prices_queue)

-- What init leaves behind where there was no configuration: the next action finds the contract
-- initialized and not frozen, and cannot initialize it again, whoever makes it and whatever its
-- arguments.
pub init-once :
    (known_chain : ℕ → Bool) (h host : Host) (account chainid again : ℕ)
    (params params' : FeeParameters) (token_contract token_contract' : Option ℕ)
    (price_queue : Table ℕ) (prices_queue : Table GasPrices) (c c' : Contract)
    → c.config ≡ load account none price_queue prices_queue
    → init known_chain h chainid params token_contract c ≡ ok c'
    → (assert_unfrozen (next_action account c') ≡ ok tt)
      × (init known_chain host again params' token_contract' (next_action account c') ≡ (
          if host.authorised host.self
          then err "contract already initialized"
          else err "missing required authority"))
unfolding init assert_unfrozen assert_inited open_internal_balance load flush
init-once known_chain h host account chainid again params params' token_contract token_contract'
      price_queue prices_queue c c' fresh e =
    elim (Result-cases (init_config h.platform chainid params token_contract c.config)) [
      | inr (m, failed) ↦ absurd (ground (arith, failed))
      | inl (w, made) ↦
          let kept = init_config_keeps h chainid params token_contract c.config w made in
          (ground (arith, made, kept, fresh), ground (arith, made, kept, fresh))
    ]
