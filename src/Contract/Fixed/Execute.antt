-- ===== src/Contract/Fixed/Execute.antt =====
-- src/actions.cpp: the execution of a transaction, for the configuration and the nonces.
use eos_evm_contract.Prelude.{
  ℕ, ◌%◌, ◌≡◌, Bool, true, false, Option, none, some, List, [], ◌∷◌, String, Result, ok, arith, map,
  ◌++◌, ◌/◌, ◌∙◌, inl, inr, Result-cases, Option-cases,
}
use eos_evm_contract.Prelude.Int.{to_int64, two_64}
use eos_evm_contract.Config.{get_evm_version}
use eos_evm_contract.Config.Consensus.{get_minimum_natively_representable}
use eos_evm_contract.Bytes.{Bytes, Intx}
use eos_evm_contract.Balance.{AssetOps}
use eos_evm_contract.State.{Account}
use eos_evm_contract.Transaction.{Silkworm, Transaction, FilteredMessage, Receipt}
use eos_evm_contract.Contract.{
  Host, Contract, Transfer, raw, token_symbol, get_statistics, set_statistics,
}
use eos_evm_contract.Contract.Rows.{credit_row, debit_row, enter_evm, leave_evm}
use eos_evm_contract.Contract.Egress.{
  Egress, Marked, egress_open, egress_closed, egress_object, egress_loop, send_marked,
  process_egress,
}
use eos_evm_contract.Contract.Execute.{
  charge, admit, run_tx, portion_of, pay_miner, refund_gas, refund_of, record_income, account_tx,
  execute_tx, Call, paid_miner, income_of,
}
use eos_evm_contract.Contract.Fixed.{kept_of}

module _ {Chain Header Overlay : Type 0} (a : AssetOps) (w : Silkworm Chain Header Overlay)
    (h : Host) (x : Intx) where
  debit_row-kept_of :
      (owner v : ℕ) (m : String) (c c' : Contract)
      → debit_row owner v m c ≡ ok c'
      → kept_of c' ≡ kept_of c
  unfolding debit_row
  debit_row-kept_of owner v m c c' e = ground (arith, e)

  credit_row-kept_of :
      (owner v : ℕ) (m : String) (c c' : Contract)
      → credit_row owner v m c ≡ ok c'
      → kept_of c' ≡ kept_of c
  unfolding credit_row
  credit_row-kept_of owner v m c c' e = ground (arith, e)

  charge-kept_of :
      (payer : Option ℕ) (tx : Transaction) (ingress : ℕ) (c c' : Contract)
      → charge payer tx ingress c ≡ ok c'
      → kept_of c' ≡ kept_of c
  unfolding charge debit_row enter_evm
  charge-kept_of none tx ingress c c' e = ground (arith, e)
  charge-kept_of (some payer) tx ingress c c' e = ground (arith, e)

  egress_object-kept_of :
      (unit : ℕ) (portion : Option ℕ) (object : Bytes × Account) (e e' : Egress)
      → egress_object a w h x unit portion object e ≡ ok e'
      → kept_of e'.contract ≡ kept_of e.contract
  unfolding egress_object egress_open egress_closed
  egress_object-kept_of unit none object e e' run = ground (arith, run)
  egress_object-kept_of unit (some p) object e e' run = ground (arith, run)

  egress_loop-kept_of :
      (unit : ℕ) (portion : Option ℕ) (objects : List (Bytes × Account)) (e e' : Egress)
      → egress_loop a w h x unit portion objects e ≡ ok e'
      → kept_of e'.contract ≡ kept_of e.contract
  unfolding egress_loop
  egress_loop-kept_of unit portion [] e e' run = ground (arith, run)
  egress_loop-kept_of unit portion (object ∷ objects) e e' run =
      elim (Result-cases (egress_object a w h x unit portion object e)) [
        | inr (m, failed) ↦ absurd (ground (arith, failed))
        | inl (d, first) ↦
            egress_loop-kept_of unit portion objects d e' (ground (arith, first))
            ∙ egress_object-kept_of unit portion object e d first
      ]

  send_marked-kept_of :
      (unit : ℕ) (messages : List Marked) (c c' : Contract)
      → send_marked a w h x unit messages c ≡ ok c'
      → kept_of c' ≡ kept_of c
  unfolding send_marked
  send_marked-kept_of unit [] c c' run = ground (arith, run)
  send_marked-kept_of unit ((false, m) ∷ messages) c c' run =
      send_marked-kept_of unit messages c c' run
  send_marked-kept_of unit ((true, m) ∷ messages) c c' run =
      elim (Option-cases (w.extract_reserved_address m.receiver)) [
        | inl missing ↦ absurd (ground (arith, missing))
        | inr (account, found) ↦
            elim (Result-cases
              (a.make (to_int64 (x.be_load m.value / unit % two_64)) (token_symbol c))) [
                | inr (text, failed) ↦ absurd (ground (arith, found, failed))
                | inl (quantity, made) ↦
                    let transfer : Transfer = record {
                      token = c.config.token_contract;
                      to = account;
                      quantity = quantity;
                      memo = raw m.payload;
                    } in
                    send_marked-kept_of unit messages
                      (record c { sent = c.sent ++ (transfer ∷ []) }) c'
                      (ground (arith, found, made))
              ]
      ]

  process_egress-kept_of :
      (portion : Option ℕ) (objects : List (Bytes × Account)) (messages : List FilteredMessage)
      (c c' : Contract) (deducted : Bool)
      → process_egress a w h x portion objects messages c ≡ ok (c', deducted)
      → kept_of c' ≡ kept_of c
  unfolding process_egress leave_evm
  process_egress-kept_of portion [] messages c c' deducted run = ground (arith, run)
  process_egress-kept_of portion (object ∷ objects) messages c c' deducted run =
      let start : Egress = record {
        contract = c;
        total = 0;
        deducted = false;
        messages = map (λ (m : FilteredMessage). (false, m)) messages;
      } in
      elim (Result-cases (get_minimum_natively_representable c.config)) [
        | inr (text, failed) ↦ absurd (ground (arith, failed))
        | inl (unit, natural) ↦
            elim (Result-cases (egress_loop a w h x unit portion (object ∷ objects) start)) [
              | inr (text, failed) ↦ absurd (ground (arith, natural, failed))
              | inl (e, looped) ↦
                  elim (Result-cases (send_marked a w h x unit e.messages e.contract)) [
                    | inr (text, failed) ↦ absurd (ground (arith, natural, looped, failed))
                    | inl (sent, marked) ↦
                        let left : kept_of c' ≡ kept_of sent =
                          ground (arith, natural, looped, marked) in
                        left
                        ∙ send_marked-kept_of unit e.messages e.contract sent marked
                        ∙ egress_loop-kept_of unit portion (object ∷ objects) start e looped
                  ]
            ]
      ]

  module _ (call : Call Header Chain) where
    run_tx-kept_of :
        (ep : Overlay) (c c' : Contract) (ran : Overlay × Receipt × ℕ) (from : Bytes) (own : Bool)
        → run_tx a w h x call ep c ≡ ok (ran, (from, own), c')
        → kept_of c' ≡ kept_of c
    unfolding run_tx admit charge debit_row enter_evm
    run_tx-kept_of ep c c' ran from own run = ground (arith, run)

    pay_miner-kept_of :
        (miner portion : Option ℕ) (deducted : Bool) (c c' : Contract)
        → pay_miner miner portion deducted c ≡ ok c'
        → kept_of c' ≡ kept_of c
    unfolding pay_miner credit_row
    pay_miner-kept_of miner none deducted c c' run = ground (arith, run)
    pay_miner-kept_of miner (some portion) deducted c c' run = ground (arith, run)

    refund_of-kept_of :
        (from : Bytes) (ran : Overlay × Receipt × ℕ) (c c' : Contract)
        → refund_of a w h x call from ran c ≡ ok c'
        → kept_of c' ≡ kept_of c
    unfolding refund_of refund_gas credit_row debit_row
    refund_of-kept_of from ran c c' run = ground (arith, run)

    record_income-kept_of :
        (own : Bool) (income : Result ℕ) (c c' : Contract)
        → record_income own income c ≡ ok c'
        → kept_of c' ≡ kept_of c
    unfolding record_income set_statistics get_statistics
    record_income-kept_of own income c c' run = ground (arith, run)

    account_tx-kept_of :
        (miner : Option ℕ) (ran : Overlay × Receipt × ℕ) (from : Bytes) (own : Bool)
        (c c' : Contract)
        → account_tx a w h x call miner ran from own c ≡ ok c'
        → kept_of c' ≡ kept_of c
    unfolding account_tx
    account_tx-kept_of miner ran from own c c' run =
        elim (Result-cases (portion_of a w h x call miner ran c)) [
          | inr (text, failed) ↦ absurd (ground (arith, failed))
          | inl (portion, given) ↦
              elim (Result-cases (
                process_egress a w h x portion (w.reserved_objects ran.0)
                  (w.filtered_messages ran.0) c)) [
                    | inr (text, failed) ↦ absurd (ground (arith, given, failed))
                    | inl ((d, deducted), egress) ↦
                        let kept =
                          process_egress-kept_of portion (w.reserved_objects ran.0)
                            (w.filtered_messages ran.0) c d deducted egress in
                        elim (Result-cases (pay_miner miner portion deducted d)) [
                          | inr (text, failed) ↦ absurd (ground (arith, given, egress, failed))
                          | inl (paid, pays) ↦
                              elim (Result-cases (refund_of a w h x call from ran paid)) [
                                | inr (text, failed) ↦
                                    absurd (ground (arith, given, egress, pays, failed))
                                | inl (back, refunds) ↦
                                    record_income-kept_of own
                                      (income_of a w h x call (get_evm_version h.platform c.config)
                                        portion ran)
                                      back c' (ground (arith, given, egress, pays, refunds))
                                    ∙ refund_of-kept_of from ran paid back refunds
                                    ∙ pay_miner-kept_of miner portion deducted d paid pays
                                    ∙ kept
                              ]
                        ]
                  ]
        ]

    pub execute_tx-kept_of :
        (ep ep' : Overlay) (receipt : Receipt) (c c' : Contract)
        → execute_tx a w h x call ep c ≡ ok (ep', receipt, c')
        → kept_of c' ≡ kept_of c
    unfolding execute_tx
    execute_tx-kept_of ep ep' receipt c c' run = elim (Result-cases (run_tx a w h x call ep c)) [
      | inr (text, failed) ↦ absurd (ground (arith, failed))
      | inl ((ran, (from, own), d), ends) ↦
          elim (Result-cases (account_tx a w h x call (paid_miner h call.miner) ran from own d)) [
            | inr (text, failed) ↦ absurd (ground (arith, ends, failed))
            | inl (d', counted) ↦
                let same : kept_of c' ≡ kept_of d' = ground (arith, ends, counted) in
                same
                ∙ account_tx-kept_of (paid_miner h call.miner) ran from own d d' counted
                ∙ run_tx-kept_of ep c d ran from own ends
          ]
    ]
