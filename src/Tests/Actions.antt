-- ===== src/Tests/Actions.antt =====
-- Actions, and the row of the configuration between them, at concrete inputs.
use eos_evm_contract.Prelude.{
  ℕ, replicate, arith, ◌<◌, ◌==◌, ◌≡◌, refl, true, Option, none, some, List, [], ◌∷◌, ok, err,
}
use eos_evm_contract.Config.{set_status, get_evm_version, get_evm_version_and_maybe_promote}
use eos_evm_contract.Config.Row.{ConfigRow, row_of, load, flush}
use eos_evm_contract.Contract.{Contract, assert_inited, assert_unfrozen, get_gas_price}
use eos_evm_contract.Contract.Settings.{freeze}
use eos_evm_contract.Contract.Calls.{call, call_, read_value}
use eos_evm_contract.Contract.Accounts.{
  get_and_increment_nonce, open_account, open_internal_balance, close_account,
}
use eos_evm_contract.Contract.Ingress.{process_prices}
use eos_evm_contract.Contract.Nonces.{Takes, NoncesFit}
use eos_evm_contract.Contract.Fixed.Calls.{call-Takes}
use eos_evm_contract.Contract.Interface.Nonces.{here, next, nonce-never-reused}
use eos_evm_contract.Transaction.{get_rlptx}
use eos_evm_contract.Promoter.{get_value, get_value_and_maybe_promote, is_active, promote_pending}
use eos_evm_contract.Table.{find, put, erase}
use eos_evm_contract.Balance.{is_zero}
use eos_evm_contract.Contract.Process.{from_self, push_tx, dispatch_tx}
use eos_evm_contract.Contract.Interface.{
  Action, Elsewhere, perform, run_action, freeze_action, withdraw_action, init_action,
  setgaslimit_action, open_action, close_action,
}
use eos_evm_contract.Contract.Interface.Guards.{
  guard_of, Passes, authorities, AllAuthorised, perform-allowed,
}
use eos_evm_contract.Contract.Interface.Frozen.{freeze-refuses}
use eos_evm_contract.Contract.Interface.Identity.{history, identity_of, history-identity}
use eos_evm_contract.Tests.Samples.{
  contract, config, wrapper, asset, stranger, balance_of, load_bytes,
}
use eos_evm_contract.Tests.Funds.{parsing, fees}
use eos_evm_contract.Tests.Parameters.{Fraction, fractions}
use eos_evm_contract.Tests.Storage.{evm}
use eos_evm_contract.Tests.Transactions.{outside}

abbrev elsewhere : Elsewhere (Unit {0}) (Option ℕ) (Unit {0}) Fraction
elsewhere = record {
  outside = outside;
  parsing = parsing;
  known_chain = λ id. id == 15555;
  evm = evm;
  double = fractions;
  old_balance = none;
}

abbrev frozen : Contract
frozen = record contract {
  config = record wrapper { cached = record config { status = 5 }; dirty = true };
}

freezing :
    run_action elsewhere 77 (freeze_action true) (some (row_of config)) contract
    ≡ ok (some (row_of (record config { status = 5 })), frozen, [])
unfolding run_action perform freeze assert_inited set_status load flush
freezing = refl

freeze-refuses_example :
    run_action elsewhere 77
      (withdraw_action 9 (asset 20) none)
      (some (row_of (record config { status = 5 })))
      frozen
    ≡ err "contract is frozen"
freeze-refuses_example =
    freeze-refuses elsewhere elsewhere 77 (withdraw_action 9 (asset 20) none) (some (row_of config))
      (some (row_of (record config { status = 5 }))) contract frozen [] freezing refl

freezes : perform elsewhere (freeze_action true) contract ≡ ok (frozen, [])
unfolding perform freeze assert_inited set_status
freezes = refl

perform-allowed_example :
    Passes (from_self outside) (guard_of (freeze_action true)) contract
    × AllAuthorised outside.host (authorities outside.host.self (freeze_action true))
perform-allowed_example =
    perform-allowed elsewhere (freeze_action true) contract (frozen, []) freezes

-- The same contract where the action has no authority.
abbrev outsider : Elsewhere (Unit {0}) (Option ℕ) (Unit {0}) Fraction
outsider = record elsewhere { outside = record outside { host = stranger } }

abbrev attempts : List (Elsewhere (Unit {0}) (Option ℕ) (Unit {0}) Fraction × Action)
attempts =
    (outsider, init_action 15555 fees none)
    ∷ (elsewhere, init_action 1 fees none)
    ∷ (elsewhere, freeze_action true)
    ∷ (outsider, setgaslimit_action 5)
    ∷ (elsewhere, withdraw_action 9 (asset 20) none)
    ∷ []

history-identity_example :
    (row' : ConfigRow) × ((history 77 attempts (some (row_of config), contract)).0 ≡ some row')
    × (identity_of row' ≡ identity_of (row_of config))
history-identity_example = history-identity 77 attempts (row_of config) contract

-- Before version 1 a call pushes its transaction. Account 1 calls with nonce 4, closes, opens again, and
-- takes nonce 5.
abbrev early : Contract
early = record contract {
  config = record wrapper {
    cached = record config { evm_version = record { pending_value = none; cached_value = 0 } };
  };
}

abbrev called : Contract
called = record early { nextnonces = (1, 5) ∷ (9, 0) ∷ [] }

calls :
    call outside parsing 1 (3 ∷ []) (replicate 32 0) [] 21000 early
    ≡ ok (called, push_tx 42 (1 ∷ []) ∷ [])
unfolding call call_ read_value get_and_increment_nonce dispatch_tx assert_unfrozen assert_inited
    find put process_prices get_rlptx get_evm_version get_evm_version_and_maybe_promote get_value
    get_value_and_maybe_promote get_gas_price is_active promote_pending load_bytes
calls = refl

abbrev closed : Contract
closed = record called { balances = (9, balance_of 500 3) ∷ [] }

abbrev reopened : Contract
reopened = record called { balances = (1, balance_of 0 0) ∷ (9, balance_of 500 3) ∷ [] }

closing : perform elsewhere (close_action 1) called ≡ ok (closed, [])
unfolding perform close_account assert_unfrozen assert_inited find erase is_zero
closing = refl

opening : perform elsewhere (open_action 1) closed ≡ ok (reopened, [])
unfolding perform open_account open_internal_balance assert_unfrozen assert_inited find put
opening = refl

five_used : NoncesFit called
unfolding find
five_used owner = ground arith

calling : Takes 1 4 early called
unfolding find
calling =
    call-Takes outside parsing 1 (3 ∷ []) (replicate 32 0) [] 21000 early called
      (push_tx 42 (1 ∷ []) ∷ []) calls

taking : Takes 1 5 reopened (record reopened { nextnonces = (1, 6) ∷ (9, 0) ∷ [] })
unfolding get_and_increment_nonce find put
taking = record {
  after = record reopened { nextnonces = (1, 6) ∷ (9, 0) ∷ [] };
  taken = refl;
  rest = refl;
}

nonce-never-reused_example : ◌<◌ 4 5
nonce-never-reused_example =
    nonce-never-reused (Unit {0}) (Option ℕ) (Unit {0}) Fraction 1 4 5 early called reopened
      (record reopened { nextnonces = (1, 6) ∷ (9, 0) ∷ [] }) calling (omega arith)
      (next elsewhere (open_action 1) (reopened, [])
        (next elsewhere (close_action 1) (closed, []) here five_used closing) five_used opening)
      taking
