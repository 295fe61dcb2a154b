-- ===== src/Contract/Fixed/Calls.antt =====
-- src/actions.cpp: calls and transfers into the contract, the chain that the configuration is for, and
-- the nonces that they take.
use eos_evm_contract.Prelude.{
  ◌+◌, ◌%◌, ◌⊎◌, Option-cases, ℕ, ◌≡◌, Option, none, some, List, ok, arith, ◌∙◌, inl, inr,
  Result-cases, Bool-cases, ap, sym,
}
use eos_evm_contract.Bytes.{Bytes, to_address}
use eos_evm_contract.Balance.{Asset, AssetOps}
use eos_evm_contract.Config.{get_evm_version, get_evm_version_and_maybe_promote}
use eos_evm_contract.State.{Evm}
use eos_evm_contract.Transaction.{RuntimeConfig, bridge_runtime_config, of_tx}
use eos_evm_contract.Contract.{Host, Contract, with_config, get_statistics, set_statistics}
use eos_evm_contract.Contract.Accounts.{get_and_increment_nonce}
use eos_evm_contract.Contract.Ingress.{
  Parsing, Dispatch, process_prices, credit, handle_account_transfer, record_fee, bridge_in,
  handle_evm_transfer, is_evm_memo, receive, transfer,
}
use eos_evm_contract.Contract.Process.{Outside, Event}
use eos_evm_contract.Contract.Calls.{
  call_, call, callotherpay, admincall, admin_nonce, on_transfer, read_value, signature_of,
}
use eos_evm_contract.Contract.Nonces.{
  Takes, nonce_of, nonce_of-taken, Advances, same-Advances, before-Advances, after-Advances,
  take-Advances,
}
use eos_evm_contract.Contract.Fixed.{Frame, chain_of, frame_of}
use eos_evm_contract.Contract.Fixed.Process.{dispatch_tx-frame_of}
use eos_evm_contract.Contract.Fixed.Prices.{process_prices-frame_of, promoted_frame}
use eos_evm_contract.Table.{find, put}
use eos_evm_contract.Prelude.Int.{two_64}

-- The chain is kept, and no nonce falls.
pub record Carried (c c' : Contract) : Type 0 where
  pub chain : chain_of c'.config ≡ chain_of c.config
  pub nonces : Advances c c'

pub Carried-frame : (c c' : Contract) → frame_of c' ≡ frame_of c → Carried c c'
Carried-frame c c' e = record {
  chain = ap (λ (k : Frame). k.0) e;
  nonces = same-Advances c c' (ap (λ (k : Frame). k.1) e);
}

Carried-before : (c d c' : Contract) → frame_of d ≡ frame_of c → Carried d c' → Carried c c'
Carried-before c d c' e later = record {
  chain = later.chain ∙ ap (λ (k : Frame). k.0) e;
  nonces = before-Advances c d c' (ap (λ (k : Frame). k.1) e) later.nonces;
}

Carried-after : (c d c' : Contract) → Carried c d → frame_of c' ≡ frame_of d → Carried c c'
Carried-after c d c' first e = record {
  chain = ap (λ (k : Frame). k.0) e ∙ first.chain;
  nonces = after-Advances c d c' first.nonces (ap (λ (k : Frame). k.1) e);
}

Carried-take :
    (owner n : ℕ) (c c' : Contract) → get_and_increment_nonce owner c ≡ ok (c', n) → Carried c c'
unfolding get_and_increment_nonce
Carried-take owner n c c' run = record {
  chain = ground (arith, run);
  nonces = take-Advances owner n c c' run;
}

module _ (a : AssetOps) (p : Parsing) (h : Host) where
  -- A bridge transfer takes the nonce of the contract's own account.
  bridge_in-take :
      (version : ℕ) (quantity : Asset) (memo : Bytes) (c c' : Contract) (d : Dispatch)
      → bridge_in a p h version quantity memo c ≡ ok (c', d)
      → (n : ℕ) × (t : Contract) × (get_and_increment_nonce h.self c ≡ ok (t, n))
        × (frame_of c' ≡ frame_of t)
  unfolding bridge_in record_fee get_statistics set_statistics get_and_increment_nonce
  bridge_in-take version quantity memo c c' d run = elim (Option-cases (find h.self c.nextnonces)) [
    | inl missing ↦ absurd (ground (arith, run, missing))
    | inr (n, found) ↦ (
      n,
      record c { nextnonces = put h.self ((n + 1) % two_64) c.nextnonces },
      ground (arith, found),
      ground (arith, run, found),
    )
  ]

  receive-Carried :
      (quantity : Asset) (memo : Bytes) (c c' : Contract) (d : Option Dispatch)
      → receive a p h quantity memo c ≡ ok (c', d)
      → Carried c c'
  unfolding receive handle_account_transfer credit handle_evm_transfer
  receive-Carried quantity memo c c' d run = elim (Bool-cases (is_evm_memo a p h memo)) [
    | inl bridges ↦
        elim (Result-cases (
          bridge_in a p h (get_evm_version h.platform c.config) quantity memo
            (process_prices h c))) [
              | inr (text, failed) ↦ absurd (ground (arith, bridges, failed))
              | inl ((c1, d1), bridged) ↦
                  let (n, t, taken, rest) =
                    bridge_in-take (get_evm_version h.platform c.config) quantity memo
                      (process_prices h c) c1 d1 bridged in
                  let same : frame_of c' ≡ frame_of c1 = ground (arith, bridges, bridged) in
                  Carried-before c (process_prices h c) c' (process_prices-frame_of h c) (
                    Carried-after (process_prices h c) t c'
                      (Carried-take h.self n (process_prices h c) t taken) (same ∙ rest))
            ]
    | inr names ↦
        let same : frame_of c' ≡ frame_of (process_prices h c) = ground (arith, run, names) in
        Carried-frame c c' (same ∙ process_prices-frame_of h c)
  ]

  transfer-Carried :
      (from to : ℕ) (quantity : Asset) (memo : Bytes) (c c' : Contract) (d : Option Dispatch)
      → transfer a p h from to quantity memo c ≡ ok (c', d)
      → Carried c c'
  unfolding transfer
  transfer-Carried from to quantity memo c c' d run =
      elim (Result-cases (receive a p h quantity memo c)) [
        | inl ((c1, d1), received) ↦
            let outcome : (frame_of c' ≡ frame_of c) ⊎ (frame_of c' ≡ frame_of c1) =
              ground (arith, run, received) in
            elim outcome [
              | inl same ↦ Carried-frame c c' same
              | inr same ↦
                  Carried-after c c1 c' (receive-Carried quantity memo c c1 d1 received) same
            ]
        | inr (text, failed) ↦ Carried-frame c c' (ground (arith, run, failed))
      ]

module _ {Chain Header Overlay : Type 0} (o : Outside Chain Header Overlay) (p : Parsing) where
  open o use {assets, silkworm, host, intx}

  pub on_transfer-Carried :
      (from to : ℕ) (quantity : Asset) (memo : Bytes) (c c' : Contract) (events : List Event)
      → on_transfer o p from to quantity memo c ≡ ok (c', events)
      → Carried c c'
  unfolding on_transfer
  on_transfer-Carried from to quantity memo c c' events run =
      elim (Result-cases (transfer assets p host from to quantity memo c)) [
        | inr (text, failed) ↦ absurd (ground (arith, failed))
        | inl ((d, none), received) ↦
            Carried-after c d c'
              (transfer-Carried assets p host from to quantity memo c d none received)
              (ground (arith, run, received))
        | inl ((d, some sends), received) ↦
            Carried-after c d c'
              (transfer-Carried assets p host from to quantity memo c d (some sends) received)
              (dispatch_tx-frame_of o sends.rc (of_tx sends.txn) d c' events
                (ground (arith, run, received)))
      ]

  call_-frame_of :
      (rc : RuntimeConfig) (s : ℕ) (to : Bytes) (value : ℕ) (input : Bytes) (gas_limit nonce : ℕ)
      (c c' : Contract) (events : List Event)
      → call_ o p rc s to value input gas_limit nonce c ≡ ok (c', events)
      → frame_of c' ≡ frame_of c
  unfolding call_
  call_-frame_of rc s to value input gas_limit nonce c c' events run =
      dispatch_tx-frame_of o rc _ (process_prices host c) c' events run
      ∙ process_prices-frame_of host c

  -- A call takes the nonce of its sender, once its value is read.
  call-take :
      (from : ℕ) (to value input : Bytes) (gas_limit : ℕ) (c c' : Contract) (events : List Event)
      → call o p from to value input gas_limit c ≡ ok (c', events)
      → (n : ℕ) × (d : Contract) × (get_and_increment_nonce from c ≡ ok (d, n))
        × (frame_of c' ≡ frame_of d)
  unfolding call
  call-take from to value input gas_limit c c' events run =
      elim (Result-cases (read_value intx value)) [
        | inr (text, failed) ↦ absurd (ground (arith, run, failed))
        | inl (v, read) ↦ elim (Result-cases (get_and_increment_nonce from c)) [
          | inr (text, failed) ↦ absurd (ground (arith, run, read, failed))
          | inl ((d, n), taken) ↦ (
            n,
            d,
            taken,
            call_-frame_of bridge_runtime_config from to v input gas_limit n d c' events
                (ground (arith, run, read, taken)),
          )
        ]
      ]

  pub call-Takes :
      (from : ℕ) (to value input : Bytes) (gas_limit : ℕ) (c c' : Contract) (events : List Event)
      → call o p from to value input gas_limit c ≡ ok (c', events)
      → Takes from (nonce_of from c) c c'
  call-Takes from to value input gas_limit c c' events run =
      let (n, d, taken, rest) = call-take from to value input gas_limit c c' events run in
      record {
        after = d;
        taken = taken ∙ ap (λ (k : ℕ). ok (d, k)) (sym (nonce_of-taken from n c d taken));
        rest = ap (λ (k : Frame). k.1) rest;
      }

  pub call-Carried :
      (from : ℕ) (to value input : Bytes) (gas_limit : ℕ) (c c' : Contract) (events : List Event)
      → call o p from to value input gas_limit c ≡ ok (c', events)
      → Carried c c'
  call-Carried from to value input gas_limit c c' events run =
      let (n, d, taken, rest) = call-take from to value input gas_limit c c' events run in
      Carried-after c d c' (Carried-take from n c d taken) rest

  pub callotherpay-Carried :
      (payer from : ℕ) (to value input : Bytes) (gas_limit : ℕ) (c c' : Contract)
      (events : List Event)
      → callotherpay o p payer from to value input gas_limit c ≡ ok (c', events)
      → Carried c c'
  unfolding callotherpay
  callotherpay-Carried payer from to value input gas_limit c c' events run =
      elim (Result-cases (get_evm_version_and_maybe_promote host.platform c.config)) [
        | inr (text, failed) ↦ absurd (ground (arith, run, failed))
        | inl ((w, version), promoted) ↦ elim (Result-cases (read_value intx value)) [
          | inr (text, failed) ↦ absurd (ground (arith, run, promoted, failed))
          | inl (v, read) ↦ elim (Result-cases (get_and_increment_nonce from (with_config c w))) [
            | inr (text, failed) ↦ absurd (ground (arith, run, promoted, read, failed))
            | inl ((d, n), taken) ↦
                Carried-before c (with_config c w) c'
                  (promoted_frame host.platform c w version promoted)
                  (Carried-after (with_config c w) d c'
                    (Carried-take from n (with_config c w) d taken)
                    (call_-frame_of (record bridge_runtime_config { gas_payer = some payer }) from
                      to v input gas_limit n d c' events
                      (ground (arith, run, promoted, read, taken))))
          ]
        ]
      ]

  admin_nonce-Carried :
      (ev : Evm) (from : Bytes) (c c' : Contract) (n : ℕ)
      → admin_nonce o p ev from c ≡ ok (c', n)
      → Carried c c'
  unfolding admin_nonce
  admin_nonce-Carried ev from c c' n run =
      elim (Option-cases (silkworm.extract_reserved_address from)) [
        | inr (account, reserved) ↦ Carried-take account n c c' (ground (arith, run, reserved))
        | inl other ↦ Carried-frame c c' (ground (arith, run, other))
      ]

  pub admincall-Carried :
      (ev : Evm) (from to value input : Bytes) (gas_limit : ℕ) (c c' : Contract)
      (events : List Event)
      → admincall o p ev from to value input gas_limit c ≡ ok (c', events)
      → Carried c c'
  unfolding admincall
  admincall-Carried ev from to value input gas_limit c c' events run =
      elim (Result-cases (read_value intx value)) [
        | inr (text, failed) ↦ absurd (ground (arith, run, failed))
        | inl (v, read) ↦ elim (Result-cases (to_address from)) [
          | inr (text, failed) ↦ absurd (ground (arith, run, read, failed))
          | inl (address, sized) ↦ elim (Result-cases (admin_nonce o p ev address c)) [
            | inr (text, failed) ↦ absurd (ground (arith, run, read, sized, failed))
            | inl ((d, n), taken) ↦
                Carried-after c d c' (admin_nonce-Carried ev address c d n taken) (
                  call_-frame_of bridge_runtime_config (signature_of intx from) to v input gas_limit
                    n d c' events (ground (arith, run, read, sized, taken)))
          ]
        ]
      ]
