-- ===== src/Contract/Fixed/Process.antt =====
-- src/actions.cpp: process_tx and pushtx, for the chain's part of the configuration and the nonces.
use eos_evm_contract.Prelude.{
  ℕ, leb, ◌≡◌, Bool, Option, none, List, ok, arith, ◌∙◌, inl, inr, Result-cases, Bool-cases,
  Option-cases, if◌then◌else◌, ap,
}
use eos_evm_contract.Bytes.{Bytes}
use eos_evm_contract.Config.{GasParameter, get_evm_version_and_maybe_promote}
use eos_evm_contract.Config.Consensus.{get_consensus_param_and_maybe_promote}
use eos_evm_contract.Transaction.{
  Transaction, RuntimeConfig, Envelope, default_runtime_config, bridge_runtime_config, get_tx,
  of_bytes,
}
use eos_evm_contract.Contract.{Contract, with_config}
use eos_evm_contract.Contract.Ingress.{process_prices}
use eos_evm_contract.Contract.Messages.{Notice, process_filtered_messages}
use eos_evm_contract.Contract.Execute.{Call, execute_tx}
use eos_evm_contract.Contract.Process.{
  Outside, Event, run_block, process_in, process_tx, pushtx, dispatch_tx, to_bridge, call_of,
  from_self, processor_of,
}
use eos_evm_contract.Contract.Fixed.Execute.{execute_tx-kept_of}
use eos_evm_contract.Contract.Fixed.{kept_of, frame_of, frame}
use eos_evm_contract.Contract.Fixed.Messages.{process_filtered_messages-kept_of}
use eos_evm_contract.Contract.Fixed.Prices.{
  promoted_frame, get_consensus_param-chain, process_prices-frame_of,
}

module _ {Chain Header Overlay : Type 0} (o : Outside Chain Header Overlay) where
  open o use {assets, silkworm, host, intx, stream, names}

  run_block-kept_of :
      (call : Call Header Chain) (ep : Overlay) (c c' : Contract) (notices : List Notice)
      → run_block o call ep c ≡ ok (c', notices)
      → kept_of c' ≡ kept_of c
  unfolding run_block
  run_block-kept_of call ep c c' notices run =
      elim (Result-cases (execute_tx assets silkworm host intx call ep c)) [
        | inr (text, failed) ↦ absurd (ground (arith, failed))
        | inl ((ep', receipt, d), ran) ↦
            elim (Result-cases (
              process_filtered_messages stream names intx host (to_bridge o)
                (silkworm.filtered_messages ep') d)) [
                  | inr (text, failed) ↦ absurd (ground (arith, ran, failed))
                  | inl ((d', told), sent) ↦
                      let same : kept_of c' ≡ kept_of d' = ground (arith, ran, sent) in
                      same
                      ∙ process_filtered_messages-kept_of stream names intx host (to_bridge o)
                          (silkworm.filtered_messages ep') d d' told sent
                      ∙ execute_tx-kept_of assets silkworm host intx call ep ep' receipt c d ran
                ]
      ]

  process_in-kept_of :
      (rc : RuntimeConfig) (miner : ℕ) (t : Envelope × Transaction) (price : Option ℕ) (version : ℕ)
      (g : GasParameter × Bool) (chain : Chain) (c c' : Contract) (events : List Event)
      → process_in o rc miner t price version g chain c ≡ ok (c', events)
      → kept_of c' ≡ kept_of c
  unfolding process_in
  process_in-kept_of rc miner t price version (gas, changed) chain c c' events run =
      elim (Result-cases (
        run_block o (call_of o rc miner t.1 version gas chain c) (processor_of o version chain c)
          c)) [
            | inr (text, failed) ↦ absurd (ground (arith, failed))
            | inl ((d, notices), ran) ↦
                let same : kept_of c' ≡ kept_of d = ground (arith, ran) in
                same
                ∙ run_block-kept_of (call_of o rc miner t.1 version gas chain c)
                    (processor_of o version chain c) c d notices ran
          ]

  process_tx-frame_of :
      (rc : RuntimeConfig) (miner : ℕ) (txn : Envelope) (price : Option ℕ) (c c' : Contract)
      (events : List Event)
      → process_tx o rc miner txn price c ≡ ok (c', events)
      → frame_of c' ≡ frame_of c
  unfolding process_tx
  process_tx-frame_of rc miner txn price c c' events run =
      elim (Result-cases (get_tx silkworm txn)) [
        | inr (text, failed) ↦ absurd (ground (arith, failed))
        | inl (t, got) ↦
            elim (Result-cases (get_evm_version_and_maybe_promote host.platform c.config)) [
              | inr (text, failed) ↦ absurd (ground (arith, got, failed))
              | inl ((w, version), promoted) ↦
                  elim (Result-cases (get_consensus_param_and_maybe_promote host.platform w)) [
                    | inr (text, failed) ↦ absurd (ground (arith, got, promoted, failed))
                    | inl ((w', g, changed), params) ↦
                        elim (Option-cases (silkworm.lookup_known_chain w'.chainid)) [
                          | inl unknown ↦ absurd (ground (arith, got, promoted, params, unknown))
                          | inr (chain, known) ↦
                              ap frame (
                                process_in-kept_of rc miner t price version (g, changed) chain
                                  (with_config c w') c' events
                                  (ground (arith, got, promoted, params, known)))
                              ∙ ap (λ (k : ℕ × ℕ × ℕ × Bool). (k, c.nextnonces))
                                  (get_consensus_param-chain host.platform w w' g changed params)
                              ∙ promoted_frame host.platform c w version promoted
                        ]
                  ]
            ]
      ]

  pub dispatch_tx-frame_of :
      (rc : RuntimeConfig) (txn : Envelope) (c c' : Contract) (events : List Event)
      → dispatch_tx o rc txn c ≡ ok (c', events)
      → frame_of c' ≡ frame_of c
  unfolding dispatch_tx
  dispatch_tx-frame_of rc txn c c' events run =
      elim (Result-cases (get_evm_version_and_maybe_promote host.platform c.config)) [
        | inr (text, failed) ↦ absurd (ground (arith, failed))
        | inl ((w, version), promoted) ↦
            let kept = promoted_frame host.platform c w version promoted in
            elim (Bool-cases (leb 1 version)) [
              | inl at_once ↦
                  process_tx-frame_of rc host.self txn none (with_config c w) c' events
                    (ground (arith, promoted, at_once))
                  ∙ kept
              | inr later ↦
                  let same : kept_of c' ≡ (w, c.nextnonces) = ground (arith, promoted, later) in
                  ap frame same ∙ kept
            ]
      ]

  pub pushtx-frame_of :
      (miner : ℕ) (rlptx : Bytes) (price : Option ℕ) (c c' : Contract) (events : List Event)
      → pushtx o miner rlptx price c ≡ ok (c', events)
      → frame_of c' ≡ frame_of c
  unfolding pushtx
  pushtx-frame_of miner rlptx price c c' events run =
      process_tx-frame_of (if from_self o then bridge_runtime_config else default_runtime_config)
        miner (of_bytes rlptx) price (process_prices host c) c' events (ground (arith, run))
      ∙ process_prices-frame_of host c
