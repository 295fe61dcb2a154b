-- ===== src/Contract/Interface/Nonces.antt =====
-- src/actions.cpp: the nonces of accounts, over all actions.
use eos_evm_contract.Prelude.{
  ℕ, ◌+◌, ◌≤◌, ◌<◌, ◌≡◌, Bool, Option, some, List, ok, arith, Result-cases, inl, inr, ap, value_or,
}
use eos_evm_contract.Prelude.Int.{two_64}
use eos_evm_contract.Table.{Table, find}
use eos_evm_contract.Contract.{Host, Contract, zero_balance, get_statistics, set_statistics}
use eos_evm_contract.Contract.Init.{init, init_config, fee_symbol}
use eos_evm_contract.Contract.Accounts.{
  addegress, removeegress, open_internal_balance, withdraw, assertnonce,
}
use eos_evm_contract.Contract.Settings.{
  setfeeparams, freeze, setversion, updtgasparam, setgasparam, setgasprices, setgaslimit,
}
use eos_evm_contract.Contract.Bridge.{bridgeunreg}
use eos_evm_contract.Contract.Process.{Event}
use eos_evm_contract.Contract.Calls.{exec, gc}
use eos_evm_contract.Contract.Swap.{swapgastoken, migratebal}
use eos_evm_contract.Contract.Repair.{
  rmgcstore, setkvstore, rmaccount, addevmbal, addopenbal, freezeaccnt,
}
use eos_evm_contract.Config.Fees.{FeeParameters}
use eos_evm_contract.Contract.Interface.{
  Action, Elsewhere, perform, init_action, pushtx_action, open_action, close_action,
  transfer_notification, call_action, admincall_action, callotherpay_action, bridgereg_action,
}
use eos_evm_contract.Contract.Nonces.{
  nonce_of, Takes, NoncesFit, Advances, nonce_of-open, nonce_of-close, nonce_of-opened,
  nonce_of-register, nonce_of-taken, nonce_of-take, same-Advances,
}
use eos_evm_contract.Contract.Fixed.Process.{pushtx-frame_of}
use eos_evm_contract.Contract.Fixed.Calls.{
  Carried-frame, call-Carried, callotherpay-Carried, admincall-Carried, on_transfer-Carried,
}
use eos_evm_contract.Contract.Interface.Identity.{silent_ok}

init-Advances :
    (known_chain : ℕ → Bool) (h : Host) (chainid : ℕ) (params : FeeParameters)
    (token_contract : Option ℕ) (c c' : Contract)
    → init known_chain h chainid params token_contract c ≡ ok c'
    → Advances c c'
unfolding init
init-Advances known_chain h chainid params token_contract c c' run fits account =
    elim (Result-cases (init_config h.platform chainid params token_contract c.config)) [
      | inr (text, failed) ↦ absurd (ground (arith, run, failed))
      | inl (w, made) ↦
          let start = record c {
            config = w;
            inevm = some (value_or c.inevm (zero_balance (fee_symbol params)));
          } in
          let opened : open_internal_balance h.self start ≡ c' = ground (arith, run, made) in
          omega (
            arith,
            nonce_of-open account h.self start,
            ap (λ (k : Contract). nonce_of account k) opened,
          )
    ]

module _ {Chain Header Overlay D : Type 0} (e : Elsewhere Chain Header Overlay D) where
  open e use {outside, parsing, evm, known_chain}
  open outside use {host}

  perform-Advances :
      (action : Action) (c : Contract) (r : Contract × List Event)
      → perform e action c ≡ ok r
      → Advances c r.0
  unfolding perform addegress removeegress withdraw assertnonce setfeeparams freeze setversion
      updtgasparam setgasparam setgasprices setgaslimit bridgeunreg exec gc swapgastoken migratebal
      get_statistics set_statistics rmgcstore setkvstore rmaccount addevmbal addopenbal freezeaccnt
  perform-Advances (init_action chainid params token_contract) c r run =
      init-Advances known_chain host chainid params token_contract c r.0 (silent_ok _ r run)
  perform-Advances (open_action owner) c r run =
      λ fits account. omega (arith, nonce_of-opened account host owner c r.0 (silent_ok _ r run))
  perform-Advances (close_action owner) c r run =
      λ fits account. omega (arith, nonce_of-close account host owner c r.0 (silent_ok _ r run))
  perform-Advances (bridgereg_action receiver handler min_fee) c r run = λ fits account.
      omega
        (arith, nonce_of-register account host receiver handler min_fee c r.0 (silent_ok _ r run))
  perform-Advances (pushtx_action miner rlptx price) c r run =
      (Carried-frame c r.0 (pushtx-frame_of outside miner rlptx price c r.0 r.1 run)).nonces
  perform-Advances (transfer_notification from to quantity memo) c r run =
      (on_transfer-Carried outside parsing from to quantity memo c r.0 r.1 run).nonces
  perform-Advances (call_action from to value input gas_limit) c r run =
      (call-Carried outside parsing from to value input gas_limit c r.0 r.1 run).nonces
  perform-Advances (admincall_action from to value input gas_limit) c r run =
      (admincall-Carried outside parsing evm from to value input gas_limit c r.0 r.1 run).nonces
  perform-Advances (callotherpay_action payer from to value input gas_limit) c r run =
      (callotherpay-Carried outside parsing payer from to value input gas_limit c r.0 r.1
        run).nonces
  perform-Advances action c r run = same-Advances c r.0 (ground (arith, run))

module _ (Chain Header Overlay D : Type 0) where
  -- Actions that go through, one after the other, by anyone, each from a state in which no account has
  -- used the largest uint64_t.
  pub data Steps : Contract → Contract → Type 0 where
    here : {c : Contract} → Steps c c
    next :
        {b c : Contract} (e : Elsewhere Chain Header Overlay D) (action : Action)
        (r : Contract × List Event)
        → Steps b c
        → NoncesFit c
        → perform e action c ≡ ok r
        → Steps b r.0

  -- No action lowers the nonce of an account.
  nonce_of-Steps :
      {b c : Contract} (account : ℕ) → Steps b c → nonce_of account b ≤ nonce_of account c
  nonce_of-Steps account here = omega arith
  nonce_of-Steps account (next {b} {c} e action r steps fits run) =
      omega (arith, nonce_of-Steps account steps, perform-Advances e action c r run fits account)

  -- A nonce that an account has used is never handed out to it again, whatever actions go through in
  -- between: the next nonce that it takes is larger, as long as the nonces stay below the largest
  -- uint64_t.
  pub nonce-never-reused :
      (account n m : ℕ) (c c' d d' : Contract)
      → Takes account n c c'
      → n + 1 < two_64
      → Steps c' d
      → Takes account m d d'
      → n < m
  nonce-never-reused account n m c c' d d' first small steps second = omega (
    arith,
    (nonce_of-take account account n c first.after first.taken small).1,
    ap (λ (t : Table ℕ). value_or (find account t) 0) first.rest,
    nonce_of-Steps account steps,
    nonce_of-taken account m d second.after second.taken,
  )
