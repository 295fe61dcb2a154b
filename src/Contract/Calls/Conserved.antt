-- ===== src/Contract/Calls/Conserved.antt =====
-- src/actions.cpp: the actions that dispatch a transaction, on the contract's books.
use eos_evm_contract.Prelude.{
  ℕ, ◌≡◌, true, some, List, ok, arith, inl, inr, Option-cases, Result-cases, subst,
}
use eos_evm_contract.Bytes.{Bytes, to_address}
use eos_evm_contract.Balance.{Symbol}
use eos_evm_contract.Balance.Laws.{IsToken}
use eos_evm_contract.Config.{get_evm_version_and_maybe_promote}
use eos_evm_contract.State.{Evm, open_state}
use eos_evm_contract.State.Read.{read_account}
use eos_evm_contract.Transaction.{RuntimeConfig, bridge_runtime_config}
use eos_evm_contract.Contract.{Contract, with_config, token_symbol}
use eos_evm_contract.Contract.Accounts.{get_and_increment_nonce}
use eos_evm_contract.Contract.Ingress.{Parsing, process_prices}
use eos_evm_contract.Contract.Books.{Books-kept}
use eos_evm_contract.Contract.Execute.Flow.{Backed}
use eos_evm_contract.Contract.Process.{Outside, Event}
use eos_evm_contract.Contract.Process.Frame.{get_evm_version_keeps}
use eos_evm_contract.Contract.Process.Conserved.{
  IsProcessor, Backed-with_config, process_prices-Backed, dispatch_tx-Backed,
}
use eos_evm_contract.Contract.Calls.{
  call_, call, callotherpay, admincall, admin_nonce, read_value, signature_of,
}

module _ (s : Symbol) (worth : ℕ) where
  -- A contract is backed as before where the rows, the singleton, the transfers and the symbol are.
  pub Backed-kept :
      (c c' : Contract)
      → Backed s worth c
      → c.balances ≡ c'.balances
      → c.inevm ≡ c'.inevm
      → c.sent ≡ c'.sent
      → token_symbol c ≡ token_symbol c'
      → Backed s worth c'
  Backed-kept c c' k balances evm sent symbol = record {
    held = k.held;
    inside = k.inside;
    out = k.out;
    books = Books-kept s c c' k.held k.inside k.out k.books balances evm sent symbol;
    sum = k.sum;
  }

  pub get_and_increment_nonce-Backed :
      (owner n : ℕ) (c c' : Contract)
      → Backed s worth c
      → get_and_increment_nonce owner c ≡ ok (c', n)
      → Backed s worth c'
  unfolding get_and_increment_nonce
  get_and_increment_nonce-Backed owner n c c' k e =
      Backed-kept c c' k (ground arith) (ground arith) (ground arith) (ground arith)

module _ {Chain Header Overlay : Type 0} (s : Symbol) (token : IsToken s)
    (o : Outside Chain Header Overlay) (processor : IsProcessor o) (p : Parsing) (worth : ℕ) where
  open o use {assets, silkworm, host, intx}

  call_-Backed :
      (rc : RuntimeConfig) (from : ℕ) (to : Bytes) (value : ℕ) (input : Bytes) (gas_limit nonce : ℕ)
      (c c' : Contract) (events : List Event)
      → Backed s worth c
      → call_ o p rc from to value input gas_limit nonce c ≡ ok (c', events)
      → Backed s worth c'
  unfolding call_
  call_-Backed rc from to value input gas_limit nonce c c' events k e =
      dispatch_tx-Backed s token o processor rc _ worth (process_prices host c) c' events
        (process_prices-Backed s worth host c k) e

  pub call-Backed :
      (from : ℕ) (to value input : Bytes) (gas_limit : ℕ) (c c' : Contract) (events : List Event)
      → Backed s worth c
      → call o p from to value input gas_limit c ≡ ok (c', events)
      → Backed s worth c'
  unfolding call
  call-Backed from to value input gas_limit c c' events k e =
      elim (Result-cases (read_value intx value)) [
        | inr (text, failed) ↦ absurd (ground (arith, failed))
        | inl (v, read) ↦ elim (Result-cases (get_and_increment_nonce from c)) [
          | inr (text, failed) ↦ absurd (ground (arith, read, failed))
          | inl ((d, nonce), taken) ↦
              call_-Backed bridge_runtime_config from to v input gas_limit nonce d c' events
                (get_and_increment_nonce-Backed s worth from nonce c d k taken)
                (ground (arith, read, taken))
        ]
      ]

  pub callotherpay-Backed :
      (payer from : ℕ) (to value input : Bytes) (gas_limit : ℕ) (c c' : Contract)
      (events : List Event)
      → Backed s worth c
      → callotherpay o p payer from to value input gas_limit c ≡ ok (c', events)
      → Backed s worth c'
  unfolding callotherpay
  callotherpay-Backed payer from to value input gas_limit c c' events k e =
      elim (Result-cases (get_evm_version_and_maybe_promote host.platform c.config)) [
        | inr (text, failed) ↦ absurd (ground (arith, failed))
        | inl ((w, version), v) ↦ elim (Result-cases (read_value intx value)) [
          | inr (text, failed) ↦ absurd (ground (arith, v, failed))
          | inl (amount, read) ↦
              elim (Result-cases (get_and_increment_nonce from (with_config c w))) [
                | inr (text, failed) ↦ absurd (ground (arith, v, read, failed))
                | inl ((d, nonce), taken) ↦
                    let promoted =
                      Backed-with_config s worth c w k
                        (get_evm_version_keeps host.platform c.config w version v) in
                    call_-Backed (record bridge_runtime_config { gas_payer = some payer }) from to
                      amount input gas_limit nonce d c' events
                      (get_and_increment_nonce-Backed s worth from nonce (with_config c w) d
                        promoted taken)
                      (ground (arith, v, read, taken))
              ]
        ]
      ]

  admin_nonce-Backed :
      (ev : Evm) (from : Bytes) (nonce : ℕ) (c c' : Contract)
      → Backed s worth c
      → admin_nonce o p ev from c ≡ ok (c', nonce)
      → Backed s worth c'
  unfolding admin_nonce
  admin_nonce-Backed ev from nonce c c' k e =
      elim (Option-cases (silkworm.extract_reserved_address from)) [
        | inr (account, reserved) ↦
            get_and_increment_nonce-Backed s worth account nonce c c' k (ground (arith, reserved))
        | inl outside ↦ elim (Result-cases (read_account ev from (open_state c.evm true true))) [
          | inr (text, failed) ↦ absurd (ground (arith, outside, failed))
          | inl (r, read) ↦ elim (Option-cases r.1) [
            | inl unknown ↦ absurd (ground (arith, outside, read, unknown))
            | inr (account, known) ↦
                let same : c ≡ c' = ground (arith, outside, read, known) in
                subst (Backed s worth) same k
          ]
        ]
      ]

  pub admincall-Backed :
      (ev : Evm) (from to value input : Bytes) (gas_limit : ℕ) (c c' : Contract)
      (events : List Event)
      → Backed s worth c
      → admincall o p ev from to value input gas_limit c ≡ ok (c', events)
      → Backed s worth c'
  unfolding admincall
  admincall-Backed ev from to value input gas_limit c c' events k e =
      elim (Result-cases (read_value intx value)) [
        | inr (text, failed) ↦ absurd (ground (arith, failed))
        | inl (v, read) ↦ elim (Result-cases (to_address from)) [
          | inr (text, failed) ↦ absurd (ground (arith, read, failed))
          | inl (address, sized) ↦ elim (Result-cases (admin_nonce o p ev address c)) [
            | inr (text, failed) ↦ absurd (ground (arith, read, sized, failed))
            | inl ((d, nonce), taken) ↦
                call_-Backed bridge_runtime_config (signature_of intx from) to v input gas_limit
                  nonce d c' events (admin_nonce-Backed ev address nonce c d k taken)
                  (ground (arith, read, sized, taken))
          ]
        ]
      ]
