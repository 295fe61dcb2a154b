-- ===== src/Contract/Solvency/Genesis.antt =====
-- src/actions.cpp: from init on, the money that came in is the money that the contract answers for.
use eos_evm_contract.Prelude.{
  ℕ, ◌/◌, ◌%◌, ◌≡◌, refl, Bool, false, none, some, Option, [], ok, arith, Result-cases,
  Option-cases, inl, inr, sym, subst, ap, ◌∙◌,
}
use eos_evm_contract.PriceQueue.{two_32}
use eos_evm_contract.Balance.{Symbol}
use eos_evm_contract.Balance.Laws.{IsToken}
use eos_evm_contract.Config.{
  Platform, ConfigWrapper, set_ingress_bridge_fee, set_gas_price, set_token_contract, set_version,
  set_chainid, set_genesis_time,
}
use eos_evm_contract.Config.Fees.{
  FeeParameters, set_fee_parameters, set_fee_gas_price, set_fee_miner_cut, set_fee_ingress,
}
use eos_evm_contract.Config.Prices.{enqueue_gas_price}
use eos_evm_contract.Contract.{Host, Contract, token_symbol, zero_balance}
use eos_evm_contract.Contract.Accounts.{open_internal_balance}
use eos_evm_contract.Contract.Init.{init, init_config, fee_symbol}
use eos_evm_contract.Table.{Table}
use eos_evm_contract.Balance.{BalanceWithDust}
use eos_evm_contract.Contract.Ledger.{Ledger, Holds, done}
use eos_evm_contract.Contract.Books.{sent_worth}
use eos_evm_contract.Contract.Execute.Flow.{Backed}
use eos_evm_contract.Contract.Vault.{zero-Holds, open_internal_balance-Backed}
use eos_evm_contract.Contract.Solvency.{Steps, Backed-Steps}

set_fee_parameters-fee :
    (e : Platform) (params : FeeParameters) (w w' : ConfigWrapper)
    → set_fee_parameters e false params w ≡ ok w'
    → fee_symbol params ≡ w'.ingress_bridge_fee.symbol
unfolding set_fee_parameters set_fee_gas_price set_fee_miner_cut set_fee_ingress enqueue_gas_price
    set_ingress_bridge_fee set_gas_price
set_fee_parameters-fee e params w w' run = elim (Option-cases params.ingress_bridge_fee) [
  | inl missing ↦ absurd (ground (arith, missing))
  | inr (fee, given) ↦ ground (arith, given)
]

init_config-fee :
    (e : Platform) (chainid : ℕ) (params : FeeParameters) (token_contract : Option ℕ)
    (w w' : ConfigWrapper)
    → init_config e chainid params token_contract w ≡ ok w'
    → fee_symbol params ≡ w'.ingress_bridge_fee.symbol
unfolding init_config set_token_contract
init_config-fee e chainid params token_contract w w' run =
    let dated =
      set_genesis_time (e.now / 1000000 % two_32) (set_chainid chainid (set_version 0 w)) in
    elim (Result-cases (set_fee_parameters e false params dated)) [
      | inr (text, failed) ↦ absurd (ground (arith, failed))
      | inl (paid, given) ↦ ground (arith, given, set_fee_parameters-fee e params dated paid given)
    ]

-- A contract without balances that is initialized answers for nothing.
pub init-Backed :
    (s : Symbol) (known_chain : ℕ → Bool) (h : Host) (chainid : ℕ) (params : FeeParameters)
    (token_contract : Option ℕ) (c c' : Contract)
    → c.balances ≡ []
    → c.inevm ≡ none
    → c.sent ≡ []
    → init known_chain h chainid params token_contract c ≡ ok c'
    → token_symbol c' ≡ s
    → Backed s 0 c'
unfolding init open_internal_balance
init-Backed s known_chain h chainid params token_contract c c' no_rows no_evm none_sent run symbol =
    elim (Result-cases (init_config h.platform chainid params token_contract c.config)) [
      | inr (text, failed) ↦ absurd (ground (arith, failed))
      | inl (w, configured) ↦
          let fee =
            init_config-fee h.platform chainid params token_contract c.config w configured in
          let start = record c { config = w; inevm = some (zero_balance (fee_symbol params)) } in
          let opened : open_internal_balance h.self start ≡ c' =
            ground (arith, configured, no_evm) in
          let is_s : w.ingress_bridge_fee.symbol ≡ s =
            ap (λ (k : Contract). token_symbol k) opened ∙ symbol in
          subst (Backed s 0) opened (
            open_internal_balance-Backed s 0 h.self start (record {
              held = 0;
              inside = 0;
              out = 0;
              books = record {
                ledger = subst (λ (t : Table BalanceWithDust). Ledger s 0 t 0) (sym no_rows) done;
                evm_row = zero_balance (fee_symbol params);
                evm_found = refl;
                evm_holds =
                    subst (λ (t : Symbol). Holds s (zero_balance t) 0) (sym fee)
                      (zero-Holds s 0 start is_s);
                transferred = ap (sent_worth s) none_sent;
                symbol = is_s;
              };
              sum = refl;
            }))
    ]

module _ (Chain Header Overlay : Type 0) where
  -- From a contract without balances that is initialized, whatever actions follow, in any order: all
  -- that deposits brought in, in EVM units, is what the balances hold, what the EVM holds, and what the
  -- transfers of withdrawals and payouts took out, and every balance is in range.
  pub solvency :
      (s : Symbol) (known_chain : ℕ → Bool) (h : Host) (chainid : ℕ) (params : FeeParameters)
      (token_contract : Option ℕ) (c started c' : Contract) (deposits : ℕ)
      → IsToken s
      → c.balances ≡ []
      → c.inevm ≡ none
      → c.sent ≡ []
      → init known_chain h chainid params token_contract c ≡ ok started
      → token_symbol started ≡ s
      → Steps Chain Header Overlay s started deposits c'
      → Backed s deposits c'
  solvency s known_chain h chainid params token_contract c started c' deposits token no_rows no_evm
        none_sent run symbol steps =
      let fresh =
        init-Backed s known_chain h chainid params token_contract c started no_rows no_evm none_sent
          run symbol in
      subst (λ (w : ℕ). Backed s w c') (omega arith)
        (Backed-Steps Chain Header Overlay s token 0 fresh steps)
