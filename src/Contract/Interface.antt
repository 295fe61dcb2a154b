-- ===== src/Contract/Interface.antt =====
-- include/evm_runtime/evm_contract.hpp: the actions of the contract, the notification and the two events,
-- each with its arguments, and the object that an action runs on.
use eos_evm_contract.Prelude.{
  ℕ, ◌==◌, Bool, true, false, Option, none, some, List, [], ◌∷◌, String, Result, ok, ◌>>=◌, ◌>>◌,
  check,
}
use eos_evm_contract.Balance.{Symbol, Asset}
use eos_evm_contract.Bytes.{Bytes}
use eos_evm_contract.Config.{GasPrices, GasParameter}
use eos_evm_contract.Config.Fees.{FeeParameters}
use eos_evm_contract.Config.RamPrice.{Double}
use eos_evm_contract.Config.Row.{ConfigRow, load, flush}
use eos_evm_contract.State.{Evm}
use eos_evm_contract.Contract.{Host, Contract, with_config}
use eos_evm_contract.Contract.Init.{init}
use eos_evm_contract.Contract.Accounts.{
  addegress, removeegress, open_account, close_account, withdraw, assertnonce,
}
use eos_evm_contract.Contract.Settings.{
  setfeeparams, freeze, setversion, updtgasparam, setgasparam, setgasprices, setgaslimit,
}
use eos_evm_contract.Contract.Bridge.{bridgereg, bridgeunreg}
use eos_evm_contract.Contract.Ingress.{Parsing}
use eos_evm_contract.Contract.Process.{Outside, Event, pushtx, from_self}
use eos_evm_contract.Contract.Calls.{
  ExecRequest, exec, gc, call, admincall, callotherpay, on_transfer,
}
use eos_evm_contract.Contract.Swap.{swapgastoken, migratebal}
use eos_evm_contract.Contract.Repair.{
  rmgcstore, setkvstore, rmaccount, addevmbal, addopenbal, freezeaccnt,
}
pub mod Guards
pub mod Frozen
pub mod Identity
pub mod Nonces

-- The callback of exec is no argument: the output goes to it, or is returned.
pub data Action : Type 0 where
  init_action : ℕ → FeeParameters → Option ℕ → Action
  setfeeparams_action : FeeParameters → Action
  addegress_action : List ℕ → Action
  removeegress_action : List ℕ → Action
  freeze_action : Bool → Action
  exec_action : ExecRequest → Action
  pushtx_action : ℕ → Bytes → Option ℕ → Action
  open_action : ℕ → Action
  close_action : ℕ → Action
  transfer_notification : ℕ → ℕ → Asset → Bytes → Action
  withdraw_action : ℕ → Asset → Option ℕ → Action
  gc_action : ℕ → Action
  call_action : ℕ → Bytes → Bytes → Bytes → ℕ → Action
  admincall_action : Bytes → Bytes → Bytes → Bytes → ℕ → Action
  callotherpay_action : ℕ → ℕ → Bytes → Bytes → Bytes → ℕ → Action
  bridgereg_action : ℕ → ℕ → Asset → Action
  bridgeunreg_action : ℕ → Action
  assertnonce_action : ℕ → ℕ → Action
  setversion_action : ℕ → Action
  updtgasparam_action : Asset → ℕ → Action
  setgasparam_action : ℕ → ℕ → ℕ → ℕ → ℕ → Action
  setgasprices_action : GasPrices → Action
  setgaslimit_action : ℕ → Action
  swapgastoken_action : ℕ → Symbol → ℕ → String → Action
  migratebal_action : ℕ → ℕ → Action
  evmtx_action : Event → Action
  configchange_action : GasParameter → Action
  rmgcstore_action : ℕ → Action
  setkvstore_action : ℕ → Bytes → Option Bytes → Action
  rmaccount_action : ℕ → Action
  addevmbal_action : ℕ → Bytes → Bool → Action
  addopenbal_action : ℕ → Bytes → Bool → Action
  freezeaccnt_action : ℕ → Bool → Action

-- What the actions take from elsewhere, besides what a transaction takes: silkworm's chains and its
-- tests on accounts, doubles, and the balance of the contract in the old token's table.
pub record Elsewhere (Chain Header Overlay D : Type 0) : Type 0 where
  pub outside : Outside Chain Header Overlay
  pub parsing : Parsing
  pub known_chain : ℕ → Bool
  pub evm : Evm
  pub double : Double D
  pub old_balance : Option Asset

-- An action that sends no events.
abbrev silent : Result Contract → Result (Contract × List Event)
silent run = do c ← run; ok (c, [])

module _ {Chain Header Overlay D : Type 0} (e : Elsewhere Chain Header Overlay D) where
  open e use {outside, parsing, known_chain, evm, double, old_balance}
  open outside use {assets, host, intx}

  unfoldable pub perform : Action → Contract → Result (Contract × List Event)
  perform (init_action chainid params token_contract) c =
      silent (init known_chain host chainid params token_contract c)
  perform (setfeeparams_action params) c = silent (setfeeparams host params c)
  perform (addegress_action accounts) c = silent (addegress host accounts c)
  perform (removeegress_action accounts) c = silent (removeegress host accounts c)
  perform (freeze_action value) c = silent (freeze host value c)
  perform (exec_action request) c = do out ← exec outside parsing request c; ok (c, [])
  perform (pushtx_action miner rlptx min_inclusion_price) c =
      pushtx outside miner rlptx min_inclusion_price c
  perform (open_action owner) c = silent (open_account host owner c)
  perform (close_action owner) c = silent (close_account host owner c)
  perform (transfer_notification from to quantity memo) c =
      on_transfer outside parsing from to quantity memo c
  perform (withdraw_action owner quantity to) c = silent (withdraw assets host owner quantity to c)
  perform (gc_action max) c = do r ← gc host max c; ok (r.0, [])
  perform (call_action from to value input gas_limit) c =
      call outside parsing from to value input gas_limit c
  perform (admincall_action from to value input gas_limit) c =
      admincall outside parsing evm from to value input gas_limit c
  perform (callotherpay_action payer from to value input gas_limit) c =
      callotherpay outside parsing payer from to value input gas_limit c
  perform (bridgereg_action receiver handler min_fee) c =
      silent (bridgereg host receiver handler min_fee c)
  perform (bridgeunreg_action receiver) c = silent (bridgeunreg host receiver c)
  perform (assertnonce_action account next_nonce) c = silent (assertnonce account next_nonce c)
  perform (setversion_action version) c = silent (setversion host version c)
  perform (updtgasparam_action ram_price_mb gas_price) c =
      silent (updtgasparam double host ram_price_mb gas_price c)
  perform (setgasparam_action txnewaccount newaccount txcreate codedeposit sset) c =
      silent (setgasparam host txnewaccount newaccount txcreate codedeposit sset c)
  perform (setgasprices_action prices) c = silent (setgasprices host prices c)
  perform (setgaslimit_action ingress_gas_limit) c = silent (setgaslimit host ingress_gas_limit c)
  perform (swapgastoken_action token symbol dest memo) c =
      silent (swapgastoken host token symbol dest memo old_balance c)
  perform (migratebal_action from_name limit) c = silent (migratebal from_name limit c)
  perform (evmtx_action event) c = do check (from_self outside) "forbidden to call"; ok (c, [])
  perform (configchange_action parameters) c = do
    check (from_self outside) "forbidden to call"
    ok (c, [])
  perform (rmgcstore_action id) c = silent (rmgcstore host id c)
  perform (setkvstore_action id key value) c = silent (setkvstore host id key value c)
  perform (rmaccount_action id) c = silent (rmaccount host id c)
  perform (addevmbal_action id delta subtract) c = silent (addevmbal intx host id delta subtract c)
  perform (addopenbal_action account delta subtract) c =
      silent (addopenbal intx host account delta subtract c)
  perform (freezeaccnt_action id value) c = silent (freezeaccnt host id value c)

  -- The object that an action runs on reads the configuration when it is made, and writes it back when
  -- it goes; `row` is the stored one.
  unfoldable pub run_action :
      ℕ → Action → Option ConfigRow → Contract → Result (Option ConfigRow × Contract × List Event)
  unfolding perform
  run_action default_token_account action row c = do
    r ←
        perform action (
          with_config c (load default_token_account row c.config.price_queue c.config.prices_queue))
    ok (flush row r.0.config, r.0, r.1)
