-- ===== src/Contract/Interface/Guards.antt =====
-- src/actions.cpp and src/admin_actions.cpp: what each action asks for before it does anything.
use eos_evm_contract.Prelude.{ℕ, ◌≡◌, Bool, true, List, [], ◌∷◌, String, ok, err, arith}
use eos_evm_contract.Contract.{Host, Contract, assert_unfrozen, assert_inited}
use eos_evm_contract.Contract.Init.{init}
use eos_evm_contract.Contract.Accounts.{
  addegress, removeegress, open_account, close_account, withdraw, assertnonce,
}
use eos_evm_contract.Contract.Settings.{
  setfeeparams, freeze, setversion, updtgasparam, setgasparam, setgasprices, setgaslimit,
}
use eos_evm_contract.Contract.Bridge.{bridgereg, bridgeunreg}
use eos_evm_contract.Contract.Ingress.{transfer}
use eos_evm_contract.Contract.Process.{Event, pushtx, from_self}
use eos_evm_contract.Contract.Calls.{exec, gc, call, admincall, callotherpay, on_transfer}
use eos_evm_contract.Contract.Swap.{swapgastoken, migratebal}
use eos_evm_contract.Contract.Repair.{
  rmgcstore, setkvstore, rmaccount, addevmbal, addopenbal, freezeaccnt,
}
use eos_evm_contract.Contract.Interface.{
  Action, Elsewhere, perform, setfeeparams_action, addegress_action, removeegress_action,
  freeze_action, exec_action, pushtx_action, open_action, close_action, transfer_notification,
  withdraw_action, gc_action, call_action, admincall_action, callotherpay_action, bridgereg_action,
  bridgeunreg_action, assertnonce_action, setgaslimit_action, migratebal_action, evmtx_action,
  configchange_action,
}

-- Which state of the contract an action asks for; the events ask for the contract as their sender.
pub data Guard : Type 0 where
  unfrozen : Guard
  initialised : Guard
  own_sender : Guard
  unguarded : Guard

abbrev pub guard_of : Action → Guard
guard_of (exec_action request) = unfrozen
guard_of (pushtx_action miner rlptx price) = unfrozen
guard_of (open_action owner) = unfrozen
guard_of (close_action owner) = unfrozen
guard_of (transfer_notification from to quantity memo) = unfrozen
guard_of (withdraw_action owner quantity to) = unfrozen
guard_of (gc_action max) = unfrozen
guard_of (call_action from to value input gas_limit) = unfrozen
guard_of (admincall_action from to value input gas_limit) = unfrozen
guard_of (callotherpay_action payer from to value input gas_limit) = unfrozen
guard_of (bridgereg_action receiver handler min_fee) = unfrozen
guard_of (bridgeunreg_action receiver) = unfrozen
guard_of (setfeeparams_action params) = initialised
guard_of (addegress_action accounts) = initialised
guard_of (removeegress_action accounts) = initialised
guard_of (freeze_action value) = initialised
guard_of (evmtx_action event) = own_sender
guard_of (configchange_action parameters) = own_sender
guard_of action = unguarded

unfoldable pub Passes : Bool → Guard → Contract → Type 0
Passes own unfrozen c = assert_unfrozen c ≡ ok tt
Passes own initialised c = assert_inited c ≡ ok tt
Passes own own_sender c = own ≡ true
Passes own unguarded c = Unit {0}

-- Whose authority an action asks for; `self` is the contract's account.
abbrev pub authorities : ℕ → Action → List ℕ
authorities self (open_action owner) = owner ∷ []
authorities self (close_action owner) = owner ∷ []
authorities self (withdraw_action owner quantity to) = owner ∷ []
authorities self (call_action from to value input gas_limit) = from ∷ []
authorities self (callotherpay_action payer from to value input gas_limit) = from ∷ payer ∷ []
authorities self (bridgereg_action receiver handler min_fee) = receiver ∷ self ∷ []
authorities self (bridgeunreg_action receiver) = receiver ∷ []
authorities self (exec_action request) = []
authorities self (pushtx_action miner rlptx price) = []
authorities self (transfer_notification from to quantity memo) = []
authorities self (assertnonce_action account next_nonce) = []
authorities self (setgaslimit_action limit) = []
authorities self (migratebal_action from_name limit) = []
authorities self (evmtx_action event) = []
authorities self (configchange_action parameters) = []
authorities self action = self ∷ []

unfoldable pub AllAuthorised : Host → List ℕ → Type 0
AllAuthorised h [] = Unit {0}
AllAuthorised h (a ∷ accounts) = (h.authorised a ≡ true) × AllAuthorised h accounts

module _ {Chain Header Overlay D : Type 0} (e : Elsewhere Chain Header Overlay D) where
  open e use {outside}
  open outside use {host}

  -- An action that goes through found the contract as it asks for, initialized, or initialized and not
  -- frozen, or as its sender for the two events, and had the authority of every account that it asks
  -- for. Those that ask for nothing are assertnonce, setgaslimit and migratebal.
  pub perform-allowed :
      (action : Action) (c : Contract) (r : Contract × List Event)
      → perform e action c ≡ ok r
      → Passes (from_self outside) (guard_of action) c
        × AllAuthorised host (authorities host.self action)
  unfolding perform Passes AllAuthorised init addegress removeegress open_account close_account
      withdraw assertnonce setfeeparams freeze setversion updtgasparam setgasparam setgasprices
      setgaslimit bridgereg bridgeunreg transfer pushtx exec gc call admincall callotherpay
      on_transfer swapgastoken migratebal rmgcstore setkvstore rmaccount addevmbal addopenbal
      freezeaccnt
  perform-allowed action c r run = ground (arith, run)

  -- What the test for the frozen contract aborts with is what the actions behind it abort with.
  pub perform-refused :
      (action : Action) (c : Contract) (m : String)
      → guard_of action ≡ unfrozen
      → assert_unfrozen c ≡ err m
      → perform e action c ≡ err m
  unfolding perform init addegress removeegress open_account close_account withdraw setfeeparams
      freeze bridgereg bridgeunreg transfer pushtx exec gc call admincall callotherpay on_transfer
  perform-refused action c m guard refuses = ground (arith, guard, refuses)
