-- ===== src/Contract/Interface/Frozen.antt =====
-- src/actions.cpp: freeze, over the actions after it, each on a wrapper of its own.
use eos_evm_contract.Prelude.{ℕ, ◌%◌, ◌==◌, ◌≡◌, true, false, Option, List, ok, err, arith, String}
use eos_evm_contract.Config.Row.{ConfigRow, load, flush}
use eos_evm_contract.Config.{set_status}
use eos_evm_contract.Contract.{Contract, with_config, assert_unfrozen, assert_inited}
use eos_evm_contract.Contract.Settings.{freeze, with_frozen_bit}
use eos_evm_contract.Contract.Process.{Event}
use eos_evm_contract.Contract.Interface.{Action, Elsewhere, perform, run_action, freeze_action}
use eos_evm_contract.Contract.Interface.Guards.{guard_of, unfrozen, perform-refused}

-- The contract as an action finds it, with the wrapper made from the stored row.
abbrev loaded : ℕ → Option ConfigRow → Contract → Contract
loaded default_token_account row c =
    with_config c (load default_token_account row c.config.price_queue c.config.prices_queue)

module _ {Chain Header Overlay D : Type 0} (e : Elsewhere Chain Header Overlay D) where
  run_action-refused :
      (account : ℕ) (action : Action) (row : Option ConfigRow) (c : Contract) (m : String)
      → guard_of action ≡ unfrozen
      → assert_unfrozen (loaded account row c) ≡ err m
      → run_action e account action row c ≡ err m
  unfolding run_action
  run_action-refused account action row c m guard refuses =
      let run = perform-refused e action (loaded account row c) m guard refuses in rw run

frozen_odd : (status : ℕ) → (with_frozen_bit true status % 2 == 0) ≡ false
frozen_odd status = ground arith

module _ {Chain Header Overlay D : Type 0} where
  -- What the action after freeze finds.
  freeze-stored :
      (e : Elsewhere Chain Header Overlay D) (account : ℕ) (row row' : Option ConfigRow)
      (c c' : Contract) (events : List Event)
      → run_action e account (freeze_action true) row c ≡ ok (row', c', events)
      → assert_unfrozen (loaded account row' c') ≡ err "contract is frozen"
  unfolding run_action perform freeze assert_unfrozen assert_inited load flush set_status
  freeze-stored e account row row' c c' events run =
      ground (arith, run, frozen_odd (loaded account row c).config.status)

  -- Once freeze has gone through, exec, pushtx, open, close, withdraw, gc, call, admincall,
  -- callotherpay, bridgereg, bridgeunreg and the notification of a transfer, which are the actions with
  -- the guard unfrozen, abort for that reason, in whoever's name they come and whatever their
  -- arguments, on the configuration that freeze stored.
  pub freeze-refuses :
      (e e' : Elsewhere Chain Header Overlay D) (account : ℕ) (action : Action)
      (row row' : Option ConfigRow) (c c' : Contract) (events : List Event)
      → run_action e account (freeze_action true) row c ≡ ok (row', c', events)
      → guard_of action ≡ unfrozen
      → run_action e' account action row' c' ≡ err "contract is frozen"
  freeze-refuses e e' account action row row' c c' events run guard =
      run_action-refused e' account action row' c' "contract is frozen" guard
        (freeze-stored e account row row' c c' events run)
