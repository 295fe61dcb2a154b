-- ===== src/Contract/Process/Conserved.antt =====
-- src/actions.cpp: process_tx, dispatch_tx and pushtx on the contract's books.
use eos_evm_contract.Prelude.{
  ℕ, ◌^◌, ◌<◌, ◌≡◌, refl, Bool, Option, none, List, ok, arith, leb, inl, inr, Bool-cases,
  Option-cases, Result-cases, if◌then◌else◌, sym, subst, ap, ◌∙◌,
}
use eos_evm_contract.Bytes.{Bytes}
use eos_evm_contract.Balance.{Symbol, Asset}
use eos_evm_contract.Balance.Laws.{IsToken}
use eos_evm_contract.Config.{ConfigWrapper, GasParameter, get_evm_version_and_maybe_promote}
use eos_evm_contract.Config.Consensus.{get_consensus_param_and_maybe_promote}
use eos_evm_contract.State.{close_state}
use eos_evm_contract.Transaction.{
  RuntimeConfig, bridge_runtime_config, default_runtime_config, Transaction, Envelope, of_bytes,
  get_tx, get_rlptx,
}
use eos_evm_contract.Contract.{Host, Contract, with_config, get_gas_price}
use eos_evm_contract.Contract.Ingress.{process_prices}
use eos_evm_contract.Contract.Deposits.{process_prices_keeps, process_prices_frame}
use eos_evm_contract.Contract.Messages.{Notice, process_filtered_messages}
use eos_evm_contract.Contract.Conservation.{credited}
use eos_evm_contract.Contract.Books.{Books-kept}
use eos_evm_contract.Contract.Execute.{Call, execute_tx}
use eos_evm_contract.Contract.Execute.Flow.{Backed}
use eos_evm_contract.Contract.Execute.Conserved.{IsReserved, execute_tx-Backed}
use eos_evm_contract.Contract.Process.{
  Outside, Event, to_bridge, run_block, check_price, process_in, call_of, processor_of, from_self,
  process_tx, pushtx, dispatch_tx,
}
use eos_evm_contract.Contract.Process.Frame.{
  process_filtered_messages-Backed, get_evm_version_keeps, get_consensus_param_keeps,
}

-- A contract with other settings, but the same fee, keeps its books.
pub Backed-with_config :
    (s : Symbol) (worth : ℕ) (c : Contract) (w : ConfigWrapper)
    → Backed s worth c
    → c.config.ingress_bridge_fee ≡ w.ingress_bridge_fee
    → Backed s worth (with_config c w)
Backed-with_config s worth c w k fee = record {
  held = k.held;
  inside = k.inside;
  out = k.out;
  books =
      Books-kept s c (with_config c w) k.held k.inside k.out k.books refl refl refl
        (ap (λ (f : Asset). f.symbol) fee);
  sum = k.sum;
}

pub process_prices-Backed :
    (s : Symbol) (worth : ℕ) (h : Host) (c : Contract)
    → Backed s worth c
    → Backed s worth (process_prices h c)
process_prices-Backed s worth h c k =
    let same = process_prices_frame h c in
    record {
      held = k.held;
      inside = k.inside;
      out = k.out;
      books =
          Books-kept s c (process_prices h c) k.held k.inside k.out k.books same.0 same.1 same.2
            (ap (λ (f : Asset). f.symbol) (sym (process_prices_keeps h c)));
      sum = k.sum;
    }

-- What is assumed of the processor: its reserved objects are a map with less than 2^256 in all, and
-- so are the values of the messages that it keeps.
pub record IsProcessor {Chain Header Overlay : Type 0} (o : Outside Chain Header Overlay)
    : Type 0 where
  pub reserved : IsReserved o.silkworm
  pub bounded :
      (ep : Overlay) → credited o.intx (to_bridge o) (o.silkworm.filtered_messages ep) < 2 ^ 256

module _ {Chain Header Overlay : Type 0} (s : Symbol) (token : IsToken s)
    (o : Outside Chain Header Overlay) (lawful : IsProcessor o) where
  open o use {assets, silkworm, host, intx, stream, names}

  run_block-Backed :
      (call : Call Header Chain) (ep : Overlay) (worth : ℕ) (c c' : Contract)
      (notices : List Notice)
      → Backed s worth c
      → run_block o call ep c ≡ ok (c', notices)
      → Backed s worth c'
  unfolding run_block
  run_block-Backed call ep worth c c' notices k e =
      elim (Result-cases (execute_tx assets silkworm host intx call ep c)) [
        | inr (text, failed) ↦ absurd (ground (arith, failed))
        | inl ((ep1, receipt, c1), executed) ↦
            elim (Result-cases (
              process_filtered_messages stream names intx host (to_bridge o)
                (silkworm.filtered_messages ep1) c1)) [
                  | inr (text, failed) ↦ absurd (ground (arith, executed, failed))
                  | inl ((c2, later), processed) ↦
                      elim (Result-cases (silkworm.finalize call.header ep1)) [
                        | inr (text, failed) ↦ absurd (ground (arith, executed, processed, failed))
                        | inl (ep2, finalized) ↦
                            elim (Result-cases (silkworm.write_to_db call.header ep2)) [
                              | inr (text, failed) ↦
                                  absurd (ground (arith, executed, processed, finalized, failed))
                              | inl (db, written) ↦
                                  let same : record c2 { evm = close_state db } ≡ c' =
                                    ground (arith, executed, processed, finalized, written) in
                                  let all =
                                    process_filtered_messages-Backed s token stream names intx host
                                      (to_bridge o) (silkworm.filtered_messages ep1) worth c1 c2
                                      later
                                      (execute_tx-Backed s token assets silkworm lawful.reserved
                                        host intx call ep ep1 receipt worth c c1 k executed)
                                      (lawful.bounded ep1) processed in
                                  subst (Backed s worth) same (record {
                                    held = all.held;
                                    inside = all.inside;
                                    out = all.out;
                                    books =
                                        Books-kept s c2 (record c2 { evm = close_state db })
                                          all.held all.inside all.out all.books refl refl refl refl;
                                    sum = all.sum;
                                  })
                            ]
                      ]
                ]
      ]

  -- Both promotions of process_tx.
  promoted :
      (worth version : ℕ) (c : Contract) (w w' : ConfigWrapper) (g : GasParameter) (changed : Bool)
      → Backed s worth c
      → get_evm_version_and_maybe_promote host.platform c.config ≡ ok (w, version)
      → get_consensus_param_and_maybe_promote host.platform w ≡ ok (w', g, changed)
      → Backed s worth (with_config c w')
  promoted worth version c w w' g changed k v p = Backed-with_config s worth c w' k (
      get_evm_version_keeps host.platform c.config w version v
      ∙ get_consensus_param_keeps host.platform w w' g changed p)

  process_in-Backed :
      (rc : RuntimeConfig) (miner : ℕ) (t : Envelope × Transaction) (min_inclusion_price : Option ℕ)
      (version : ℕ) (g : GasParameter × Bool) (chain : Chain) (worth : ℕ) (c c' : Contract)
      (events : List Event)
      → Backed s worth c
      → process_in o rc miner t min_inclusion_price version g chain c ≡ ok (c', events)
      → Backed s worth c'
  unfolding process_in
  process_in-Backed rc miner t min_inclusion_price version g chain worth c c' events k e =
      elim (Result-cases (check_price version min_inclusion_price (get_gas_price version c) t.1)) [
        | inr (text, failed) ↦ absurd (ground (arith, failed))
        | inl (u, priced) ↦
            elim (Result-cases (
              run_block o (call_of o rc miner t.1 version g.0 chain c)
                (processor_of o version chain c) c)) [
                  | inr (text, failed) ↦ absurd (ground (arith, priced, failed))
                  | inl ((d, notices), ran) ↦ elim (Result-cases (get_rlptx silkworm t.0)) [
                    | inr (text, failed) ↦ absurd (ground (arith, priced, ran, failed))
                    | inl (b, encoded) ↦
                        let same : d ≡ c' = ground (arith, priced, ran, encoded) in
                        subst (Backed s worth) same (run_block-Backed _ _ worth c d notices k ran)
                  ]
                ]
      ]

  -- A transaction that is processed, its bridge messages included, keeps the sum of the contract's
  -- books: what its balances hold, what the EVM holds, and what was sent out.
  pub process_tx-Backed :
      (rc : RuntimeConfig) (miner : ℕ) (txn : Envelope) (min_inclusion_price : Option ℕ) (worth : ℕ)
      (c c' : Contract) (events : List Event)
      → Backed s worth c
      → process_tx o rc miner txn min_inclusion_price c ≡ ok (c', events)
      → Backed s worth c'
  unfolding process_tx
  process_tx-Backed rc miner txn min_inclusion_price worth c c' events k e =
      elim (Result-cases (get_tx silkworm txn)) [
        | inr (text, failed) ↦ absurd (ground (arith, failed))
        | inl (t, got) ↦
            elim (Result-cases (get_evm_version_and_maybe_promote host.platform c.config)) [
              | inr (text, failed) ↦ absurd (ground (arith, got, failed))
              | inl ((w, version), v) ↦
                  elim (Result-cases (get_consensus_param_and_maybe_promote host.platform w)) [
                    | inr (text, failed) ↦ absurd (ground (arith, got, v, failed))
                    | inl ((w', g, changed), p) ↦
                        elim (Option-cases (silkworm.lookup_known_chain w'.chainid)) [
                          | inl unknown ↦ absurd (ground (arith, got, v, p, unknown))
                          | inr (chain, known) ↦
                              process_in-Backed rc miner t min_inclusion_price version (g, changed)
                                chain worth (with_config c w') c' events
                                (promoted worth version c w w' g changed k v p)
                                (ground (arith, got, v, p, known))
                        ]
                  ]
            ]
      ]

  pub dispatch_tx-Backed :
      (rc : RuntimeConfig) (txn : Envelope) (worth : ℕ) (c c' : Contract) (events : List Event)
      → Backed s worth c
      → dispatch_tx o rc txn c ≡ ok (c', events)
      → Backed s worth c'
  unfolding dispatch_tx
  dispatch_tx-Backed rc txn worth c c' events k e =
      elim (Result-cases (get_evm_version_and_maybe_promote host.platform c.config)) [
        | inr (text, failed) ↦ absurd (ground (arith, failed))
        | inl ((w, version), v) ↦
            let promoted =
              Backed-with_config s worth c w k
                (get_evm_version_keeps host.platform c.config w version v) in
            elim (Bool-cases (leb 1 version)) [
              | inl now ↦
                  process_tx-Backed rc host.self txn none worth (with_config c w) c' events promoted
                    (ground (arith, v, now))
              | inr later ↦ elim (Result-cases (get_rlptx silkworm txn)) [
                | inr (text, failed) ↦ absurd (ground (arith, v, later, failed))
                | inl (b, encoded) ↦
                    let same : with_config c w ≡ c' = ground (arith, v, later, encoded) in
                    subst (Backed s worth) same promoted
              ]
            ]
      ]

  pub pushtx-Backed :
      (miner : ℕ) (rlptx : Bytes) (min_inclusion_price : Option ℕ) (worth : ℕ) (c c' : Contract)
      (events : List Event)
      → Backed s worth c
      → pushtx o miner rlptx min_inclusion_price c ≡ ok (c', events)
      → Backed s worth c'
  unfolding pushtx
  pushtx-Backed miner rlptx min_inclusion_price worth c c' events k e =
      process_tx-Backed (if from_self o then bridge_runtime_config else default_runtime_config)
        miner (of_bytes rlptx) min_inclusion_price worth (process_prices host c) c' events
        (process_prices-Backed s worth host c k) (ground arith)
