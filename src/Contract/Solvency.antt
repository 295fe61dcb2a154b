-- ===== src/Contract/Solvency.antt =====
-- src/actions.cpp: the actions that move money, one after another, and the money that the contract
-- answers for. The repair actions and the change of the gas token, which make balances anew, are not
-- among them.
use eos_evm_contract.Prelude.{
  ℕ, ◌+◌, ◌*◌, ◌≡◌, refl, Bool, true, none, Option, some, [], List, ok, arith, Result-cases,
  Option-cases, inl, inr, sym, subst, ap, ◌∙◌,
}
use eos_evm_contract.Prelude.Int.{pos}
use eos_evm_contract.Table.{put}
use eos_evm_contract.Bytes.{Bytes}
use eos_evm_contract.Balance.{Asset, Symbol}
use eos_evm_contract.Balance.Laws.{IsToken, unit_of}
use eos_evm_contract.Config.{ConfigWrapper}
use eos_evm_contract.State.{Evm}
use eos_evm_contract.Transaction.{of_tx}
use eos_evm_contract.Contract.{Host, Contract, with_config, token_symbol}
use eos_evm_contract.Contract.Accounts.{
  open_account, close_account, withdraw, assertnonce, addegress, removeegress,
}
use eos_evm_contract.Contract.Bridge.{bridgereg, bridgeunreg}
use eos_evm_contract.Contract.Ingress.{Parsing, transfer}
use eos_evm_contract.Contract.Execute.Flow.{Backed}
use eos_evm_contract.Contract.Process.{Outside, Event, pushtx}
use eos_evm_contract.Contract.Process.Conserved.{IsProcessor, pushtx-Backed, dispatch_tx-Backed}
use eos_evm_contract.Contract.Calls.{call, callotherpay, admincall, on_transfer, gc}
use eos_evm_contract.Contract.Calls.Conserved.{
  Backed-kept, call-Backed, callotherpay-Backed, admincall-Backed,
}
use eos_evm_contract.Contract.Vault.{open_account-Backed, close_account-Backed, withdraw-Backed}
use eos_evm_contract.Contract.Vault.Deposit.{deposited, transfer-Backed}
pub mod Genesis

module _ (Chain Header Overlay : Type 0) (s : Symbol) where
  -- One action, on behalf of anyone, and the EVM units that it brings in. The amount of a transfer is
  -- not negative: the token contract makes no other. Between actions the configuration is written and
  -- read again, and settings may change, but not the symbol.
  pub data Step : Contract → ℕ → Contract → Type 0 where
    reloads :
        {c : Contract} (w : ConfigWrapper)
        → token_symbol c ≡ token_symbol (with_config c w)
        → Step c 0 (with_config c w)
    opens :
        {c c' : Contract} (o : Outside Chain Header Overlay) (owner : ℕ)
        → open_account o.host owner c ≡ ok c'
        → Step c 0 c'
    closes :
        {c c' : Contract} (o : Outside Chain Header Overlay) (owner : ℕ)
        → close_account o.host owner c ≡ ok c'
        → Step c 0 c'
    registers :
        {c c' : Contract} (o : Outside Chain Header Overlay) (receiver handler : ℕ) (fee : Asset)
        → bridgereg o.host receiver handler fee c ≡ ok c'
        → Step c 0 c'
    unregisters :
        {c c' : Contract} (o : Outside Chain Header Overlay) (receiver : ℕ)
        → bridgeunreg o.host receiver c ≡ ok c'
        → Step c 0 c'
    allows :
        {c c' : Contract} (o : Outside Chain Header Overlay) (accounts : List ℕ)
        → addegress o.host accounts c ≡ ok c'
        → Step c 0 c'
    disallows :
        {c c' : Contract} (o : Outside Chain Header Overlay) (accounts : List ℕ)
        → removeegress o.host accounts c ≡ ok c'
        → Step c 0 c'
    collects :
        {c c' : Contract} (o : Outside Chain Header Overlay) (max : ℕ) (all : Bool)
        → gc o.host max c ≡ ok (c', all)
        → Step c 0 c'
    withdraws :
        {c c' : Contract} (o : Outside Chain Header Overlay) (owner : ℕ) (quantity : Asset) (n : ℕ)
        (to : Option ℕ)
        → quantity.amount ≡ pos n
        → withdraw o.assets o.host owner quantity to c ≡ ok c'
        → Step c 0 c'
    receives :
        {c c' : Contract} (o : Outside Chain Header Overlay) (p : Parsing) (from to : ℕ)
        (quantity : Asset) (n : ℕ) (memo : Bytes) (events : List Event)
        → quantity.amount ≡ pos n
        → IsProcessor o
        → on_transfer o p from to quantity memo c ≡ ok (c', events)
        → Step c (deposited o.host n from to memo c * unit_of s) c'
    pushes :
        {c c' : Contract} (o : Outside Chain Header Overlay) (miner : ℕ) (rlptx : Bytes)
        (min_inclusion_price : Option ℕ) (events : List Event)
        → IsProcessor o
        → pushtx o miner rlptx min_inclusion_price c ≡ ok (c', events)
        → Step c 0 c'
    calls :
        {c c' : Contract} (o : Outside Chain Header Overlay) (p : Parsing) (from : ℕ)
        (to value input : Bytes) (gas_limit : ℕ) (events : List Event)
        → IsProcessor o
        → call o p from to value input gas_limit c ≡ ok (c', events)
        → Step c 0 c'
    calls_other_pay :
        {c c' : Contract} (o : Outside Chain Header Overlay) (p : Parsing) (payer from : ℕ)
        (to value input : Bytes) (gas_limit : ℕ) (events : List Event)
        → IsProcessor o
        → callotherpay o p payer from to value input gas_limit c ≡ ok (c', events)
        → Step c 0 c'
    calls_as_admin :
        {c c' : Contract} (o : Outside Chain Header Overlay) (p : Parsing) (ev : Evm)
        (from to value input : Bytes) (gas_limit : ℕ) (events : List Event)
        → IsProcessor o
        → admincall o p ev from to value input gas_limit c ≡ ok (c', events)
        → Step c 0 c'

  pub data Steps (c : Contract) : ℕ → Contract → Type 0 where
    here : Steps c 0 c
    next :
        {d e : Contract} {deposits more : ℕ}
        → Steps c deposits d
        → Step d more e
        → Steps c (deposits + more) e

  module _ (token : IsToken s) where
    on_transfer-Backed :
        (o : Outside Chain Header Overlay) (p : Parsing) (worth from to : ℕ) (quantity : Asset)
        (n : ℕ) (whole : quantity.amount ≡ pos n) (memo : Bytes) (c c' : Contract)
        (events : List Event)
        → IsProcessor o
        → Backed s worth c
        → on_transfer o p from to quantity memo c ≡ ok (c', events)
        → Backed s (worth + deposited o.host n from to memo c * unit_of s) c'
    unfolding on_transfer
    on_transfer-Backed o p worth from to quantity n whole memo c c' events processor k e =
        elim (Result-cases (transfer o.assets p o.host from to quantity memo c)) [
          | inr (text, failed) ↦ absurd (ground (arith, failed))
          | inl ((d, dispatch), ran) ↦
              let moved =
                transfer-Backed s worth o.assets p o.host quantity n whole from to memo c d dispatch
                  k ran in
              elim (Option-cases dispatch) [
                | inl plain ↦
                    let same : d ≡ c' = ground (arith, ran, plain) in subst (Backed s _) same moved
                | inr (t, to_run) ↦
                    dispatch_tx-Backed s token o processor t.rc (of_tx t.txn) _ d c' events moved
                      (ground (arith, ran, to_run))
              ]
        ]

    bridgereg-Backed :
        (h : Host) (worth receiver handler : ℕ) (fee : Asset) (c c' : Contract)
        → Backed s worth c
        → bridgereg h receiver handler fee c ≡ ok c'
        → Backed s worth c'
    unfolding bridgereg
    bridgereg-Backed h worth receiver handler fee c c' k e =
        let noted = record c {
          receivers =
              put receiver (record { handler = handler; min_fee = fee; flags = 1 }) c.receivers;
        } in
        open_account-Backed s worth h receiver noted c'
          (Backed-kept s worth c noted k refl refl refl refl) (ground arith)

    kept : (worth : ℕ) (c : Contract) → Backed s worth c → Backed s (worth + 0) c
    kept worth c k = subst (λ (w : ℕ). Backed s w c) (omega arith) k

    untouched :
        (worth : ℕ) (c c' : Contract)
        → Backed s worth c
        → (c.balances ≡ c'.balances)
          × (c.inevm ≡ c'.inevm)
          × (c.sent ≡ c'.sent)
          × (token_symbol c ≡ token_symbol c')
        → Backed s (worth + 0) c'
    untouched worth c c' k same =
        kept worth c' (Backed-kept s worth c c' k same.0 same.1 same.2 same.3)

    Backed-Step :
        {c c' : Contract} {more : ℕ} (worth : ℕ)
        → Backed s worth c
        → Step c more c'
        → Backed s (worth + more) c'
    unfolding bridgeunreg addegress removeegress gc
    Backed-Step {c} worth k (reloads w symbol) =
        kept worth (with_config c w)
          (Backed-kept s worth c (with_config c w) k refl refl refl symbol)
    Backed-Step {c} {c'} worth k (opens o owner e) =
        kept worth c' (open_account-Backed s worth o.host owner c c' k e)
    Backed-Step {c} {c'} worth k (closes o owner e) =
        kept worth c' (close_account-Backed s worth o.host owner c c' k e)
    Backed-Step {c} {c'} worth k (registers o receiver handler fee e) =
        kept worth c' (bridgereg-Backed o.host worth receiver handler fee c c' k e)
    Backed-Step {c} {c'} worth k (unregisters o receiver e) = untouched worth c c' k (ground arith)
    Backed-Step {c} {c'} worth k (allows o accounts e) = untouched worth c c' k (ground arith)
    Backed-Step {c} {c'} worth k (disallows o accounts e) = untouched worth c c' k (ground arith)
    Backed-Step {c} {c'} worth k (collects o max all e) = untouched worth c c' k (ground arith)
    Backed-Step {c} {c'} worth k (withdraws o owner quantity n to whole e) =
        kept worth c' (withdraw-Backed s worth o.assets o.host owner quantity n to c c' k whole e)
    Backed-Step {c} {c'} worth k (receives o p from to quantity n memo events whole processor e) =
        on_transfer-Backed o p worth from to quantity n whole memo c c' events processor k e
    Backed-Step {c} {c'} worth k (pushes o miner rlptx min_inclusion_price events processor e) =
        kept worth c'
          (pushtx-Backed s token o processor miner rlptx min_inclusion_price worth c c' events k e)
    Backed-Step {c} {c'} worth k (calls o p from to value input gas_limit events processor e) =
        kept worth c'
          (call-Backed s token o processor p worth from to value input gas_limit c c' events k e)
    Backed-Step {c} {c'} worth k
          (calls_other_pay o p payer from to value input gas_limit events processor e) =
        kept worth c' (
          callotherpay-Backed s token o processor p worth payer from to value input gas_limit c c'
            events k e)
    Backed-Step {c} {c'} worth k
          (calls_as_admin o p ev from to value input gas_limit events processor e) =
        kept worth c' (
          admincall-Backed s token o processor p worth ev from to value input gas_limit c c' events
            k e)

    pub Backed-Steps :
        {c c' : Contract} {deposits : ℕ} (worth : ℕ)
        → Backed s worth c
        → Steps c deposits c'
        → Backed s (worth + deposits) c'
    Backed-Steps {c} worth k here = kept worth c k
    Backed-Steps {c'} worth k (next {d} {deposits} {more} steps step) =
        subst (λ (w : ℕ). Backed s w c') (omega arith)
          (Backed-Step (worth + deposits) (Backed-Steps worth k steps) step)
