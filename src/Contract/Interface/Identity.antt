-- ===== src/Contract/Interface/Identity.antt =====
-- src/actions.cpp: the chain that the contract is for, over all actions.
use eos_evm_contract.Prelude.{
  ℕ, ◌≡◌, refl, true, Option, some, List, [], ◌∷◌, Result, ok, err, ◌>>=◌, arith, Result-cases,
  Bool-cases, inl, inr, ap, sym, ◌∙◌,
}
use eos_evm_contract.Config.{set_ingress_gas_limit}
use eos_evm_contract.Config.Row.{ConfigRow, row_of, load, flush}
use eos_evm_contract.Contract.{Contract, with_config}
use eos_evm_contract.Contract.Init.{init}
use eos_evm_contract.Contract.Accounts.{
  addegress, removeegress, open_account, open_internal_balance, close_account, withdraw,
  assertnonce,
}
use eos_evm_contract.Contract.Settings.{setgaslimit}
use eos_evm_contract.Contract.Bridge.{bridgereg, bridgeunreg}
use eos_evm_contract.Contract.Process.{Event}
use eos_evm_contract.Contract.Calls.{exec, gc}
use eos_evm_contract.Contract.Swap.{migratebal}
use eos_evm_contract.Contract.Repair.{
  rmgcstore, setkvstore, rmaccount, addevmbal, addopenbal, freezeaccnt,
}
use eos_evm_contract.Contract.Interface.{
  Action, Elsewhere, perform, run_action, setfeeparams_action, freeze_action, pushtx_action,
  transfer_notification, call_action, admincall_action, callotherpay_action, setversion_action,
  updtgasparam_action, setgasparam_action, setgasprices_action, swapgastoken_action,
}
use eos_evm_contract.Contract.Fixed.{chain_of}
use eos_evm_contract.Contract.Fixed.Process.{pushtx-frame_of}
use eos_evm_contract.Contract.Fixed.Calls.{
  Carried-frame, call-Carried, callotherpay-Carried, admincall-Carried, on_transfer-Carried,
}
use eos_evm_contract.Contract.Fixed.Settings.{
  setfeeparams-chain, freeze-chain, setversion-chain, updtgasparam-chain, setgasparam-chain,
  setgasprices-chain, swapgastoken-chain,
}

pub silent_ok :
    (run : Result Contract) (r : Contract × List Event)
    → (run >>= λ c. ok (c, [])) ≡ ok r
    → run ≡ ok r.0
silent_ok (ok c) r e = ground arith
silent_ok (err m) r e = cc

module _ {Chain Header Overlay D : Type 0} (e : Elsewhere Chain Header Overlay D) where
  open e use {outside, parsing, evm, double, old_balance}
  open outside use {host}

  perform-chain :
      (action : Action) (c : Contract) (r : Contract × List Event)
      → c.config.exists ≡ true
      → perform e action c ≡ ok r
      → chain_of r.0.config ≡ chain_of c.config
  unfolding perform init addegress removeegress open_account open_internal_balance close_account
      withdraw assertnonce setgaslimit set_ingress_gas_limit bridgereg bridgeunreg exec gc
      migratebal rmgcstore setkvstore rmaccount addevmbal addopenbal freezeaccnt
  perform-chain (setfeeparams_action params) c r there run =
      setfeeparams-chain host params c r.0 (silent_ok _ r run)
  perform-chain (freeze_action value) c r there run =
      freeze-chain host value c r.0 (silent_ok _ r run)
  perform-chain (pushtx_action miner rlptx price) c r there run =
      (Carried-frame c r.0 (pushtx-frame_of outside miner rlptx price c r.0 r.1 run)).chain
  perform-chain (transfer_notification from to quantity memo) c r there run =
      (on_transfer-Carried outside parsing from to quantity memo c r.0 r.1 run).chain
  perform-chain (call_action from to value input gas_limit) c r there run =
      (call-Carried outside parsing from to value input gas_limit c r.0 r.1 run).chain
  perform-chain (admincall_action from to value input gas_limit) c r there run =
      (admincall-Carried outside parsing evm from to value input gas_limit c r.0 r.1 run).chain
  perform-chain (callotherpay_action payer from to value input gas_limit) c r there run =
      (callotherpay-Carried outside parsing payer from to value input gas_limit c r.0 r.1 run).chain
  perform-chain (setversion_action version) c r there run =
      setversion-chain host version c r.0 (silent_ok _ r run)
  perform-chain (updtgasparam_action ram_price_mb price) c r there run =
      updtgasparam-chain double host ram_price_mb price c r.0 (silent_ok _ r run)
  perform-chain (setgasparam_action a b d x g) c r there run =
      setgasparam-chain host a b d x g c r.0 (silent_ok _ r run)
  perform-chain (setgasprices_action prices) c r there run =
      setgasprices-chain host prices c r.0 (silent_ok _ r run)
  perform-chain (swapgastoken_action token symbol dest memo) c r there run =
      swapgastoken-chain host token symbol dest memo old_balance c r.0 (silent_ok _ r run)
  perform-chain action c r there run = ground (arith, there, run)

-- What the stored row says of the chain.
abbrev pub identity_of : ConfigRow → ℕ × ℕ × ℕ
identity_of row = (row.chainid, row.genesis_time, row.version)

-- The row that is left says the same of the chain.
record Kept (row : ConfigRow) (left : Option ConfigRow) : Type 0 where
  row' : ConfigRow
  there : left ≡ some row'
  same : identity_of row' ≡ identity_of row

-- The stored row and the tables after an action was attempted: one that aborts leaves no trace.
abbrev pub settled :
    Option ConfigRow × Contract
    → Result (Option ConfigRow × Contract × List Event)
    → Option ConfigRow × Contract
settled state (ok (row', c', events)) = (row', c')
settled state (err m) = state

module _ {Chain Header Overlay D : Type 0} where
  run_action-Kept :
      (e : Elsewhere Chain Header Overlay D) (account : ℕ) (action : Action) (row : ConfigRow)
      (c c' : Contract) (left : Option ConfigRow) (events : List Event)
      → run_action e account action (some row) c ≡ ok (left, c', events)
      → Kept row left
  unfolding run_action load flush
  run_action-Kept e account action row c c' left events run =
      let start =
        with_config c (load account (some row) c.config.price_queue c.config.prices_queue) in
      elim (Result-cases (perform e action start)) [
        | inr (text, failed) ↦ absurd (ground (arith, run, failed))
        | inl (r, ran) ↦
            let kept = perform-chain e action start r refl ran in
            let stored : flush (some row) r.0.config ≡ left = ground (arith, run, ran) in
            elim (Bool-cases r.0.config.dirty) [
              | inl dirty ↦ record {
                row' = row_of r.0.config.cached;
                there = sym stored ∙ rw dirty refl;
                same = ground (arith, kept);
              }
              | inr clean ↦ record { row' = row; there = sym stored ∙ rw clean refl; same = refl }
            ]
      ]

  abbrev pub attempt :
      Elsewhere Chain Header Overlay D
      → ℕ
      → Action
      → Option ConfigRow × Contract
      → Option ConfigRow × Contract
  attempt e account action (row, c) = settled (row, c) (run_action e account action row c)

  abbrev pub history :
      ℕ
      → List (Elsewhere Chain Header Overlay D × Action)
      → Option ConfigRow × Contract
      → Option ConfigRow × Contract
  history account [] state = state
  history account ((e, action) ∷ actions) state =
      history account actions (attempt e account action state)

  -- Once there is a row of the configuration it stays, and no action that goes through, whoever makes
  -- it and whatever it brings, changes the id of the chain, the genesis time or the version of the row
  -- that it holds, in whatever order actions go through and abort.
  pub history-identity :
      (account : ℕ) (actions : List (Elsewhere Chain Header Overlay D × Action)) (row : ConfigRow)
      (c : Contract)
      → (row' : ConfigRow) × ((history account actions (some row, c)).0 ≡ some row')
        × (identity_of row' ≡ identity_of row)
  history-identity account [] row c = (row, refl, refl)
  history-identity account ((e, action) ∷ actions) row c =
      let after = λ (run : Result (Option ConfigRow × Contract × List Event)).
        (history account actions (settled (some row, c) run)).0 in
      elim (Result-cases (run_action e account action (some row) c)) [
        | inr (text, failed) ↦
            let (row', there, same) = history-identity account actions row c in
            (row', ap after failed ∙ there, same)
        | inl ((left, c', events), ran) ↦
            let kept = run_action-Kept e account action row c c' left events ran in
            let (row', there, same) = history-identity account actions kept.row' c' in
            let stored =
              ap (λ (r : Option ConfigRow). (history account actions (r, c')).0) kept.there in
            (row', ap after ran ∙ stored ∙ there, same ∙ kept.same)
      ]
