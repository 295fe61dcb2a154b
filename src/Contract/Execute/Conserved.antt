-- ===== src/Contract/Execute/Conserved.antt =====
-- src/actions.cpp, execute_tx: what a transaction does to the contract's books as a whole.
use eos_evm_contract.Prelude.{
  ℕ, ◌+◌, ◌^◌, ◌<◌, ◌≡◌, Bool, Option, Result, ok, err, arith, ◌⊎◌, String, inl, inr, Bool-cases,
  Option-cases, Result-cases, if◌then◌else◌, value_or, subst,
}
use eos_evm_contract.Bytes.{Bytes, Intx}
use eos_evm_contract.Balance.{Symbol, AssetOps}
use eos_evm_contract.Balance.Laws.{IsToken}
use eos_evm_contract.Config.{get_evm_version}
use eos_evm_contract.Transaction.{Receipt, Silkworm}
use eos_evm_contract.Contract.{Host, Contract}
use eos_evm_contract.Contract.Egress.{process_egress}
use eos_evm_contract.Contract.Egress.Marks.{Distinct, objects_worth}
use eos_evm_contract.Contract.Egress.Payout.{process_egress-Books}
use eos_evm_contract.Contract.Execute.{
  Call, max_gas_cost, charge, pay_miner, record_income, portion_of, income_of, refund_of,
  check_result, paid_miner, admit, run_tx, account_tx, execute_tx,
}
use eos_evm_contract.Contract.Execute.Flow.{
  Backed, charge-Backed, pay_miner-Books, refund_gas-Books, record_income-Books,
}

-- What the reserved objects of a processor are: a map, so their addresses differ, and money of the
-- EVM, of which there is less than 2^256.
pub record IsReserved {Chain Header Overlay : Type 0} (w : Silkworm Chain Header Overlay)
    : Type 0 where
  pub distinct : (ep : Overlay) → Distinct (w.reserved_objects ep)
  pub bounded : (ep : Overlay) → objects_worth (w.reserved_objects ep) < 2 ^ 256

module _ {Chain Header Overlay : Type 0} (s : Symbol) (token : IsToken s) (a : AssetOps)
    (w : Silkworm Chain Header Overlay) (reserved : IsReserved w) (h : Host) (x : Intx)
    (call : Call Header Chain) where
  admit-Backed :
      (from : Bytes) (ep ep' : Overlay) (own : Bool) (worth : ℕ) (c c' : Contract)
      → Backed s worth c
      → admit a w h x call from ep c ≡ ok (ep', own, c')
      → Backed s worth c'
  unfolding admit
  admit-Backed from ep ep' own worth c c' k e =
      elim (Bool-cases (w.is_special_signature call.tx.r call.tx.s)) [
        | inr usual ↦ let same : c ≡ c' = ground (arith, usual) in subst (Backed s worth) same k
        | inl special ↦ elim (Bool-cases (w.is_reserved_address from)) [
          | inr outside ↦
              let same : c ≡ c' = ground (arith, special, outside) in subst (Backed s worth) same k
          | inl of_account ↦ elim (Option-cases (w.extract_reserved_address from)) [
            | inl no_account ↦ absurd (ground (arith, special, of_account, no_account))
            | inr (ingress, is_account) ↦
                elim (Result-cases (charge call.rc.gas_payer call.tx ingress c)) [
                  | inr (text, failed) ↦
                      absurd (ground (arith, special, of_account, is_account, failed))
                  | inl (d, charged) ↦
                      elim (Result-cases
                        (w.set_balance from (call.tx.value + max_gas_cost call.tx) ep)) [
                          | inr (text, failed) ↦
                              absurd
                                (ground (arith, special, of_account, is_account, charged, failed))
                          | inl (ep1, set) ↦
                              let same : d ≡ c' =
                                ground (arith, special, of_account, is_account, charged, set) in
                              subst (Backed s worth) same (
                                charge-Backed s token call.rc.gas_payer call.tx ingress worth c d k
                                  charged)
                        ]
                ]
          ]
        ]
      ]

  -- The stages after the transaction has run, one behind the other.
  settled :
      (miner portion : Option ℕ) (ran : Overlay × Receipt × ℕ) (from : Bytes) (own : Bool)
      (worth : ℕ) (c c1 c2 c3 c' : Contract) (deducted : Bool)
      → Backed s worth c
      → process_egress a w h x portion (w.reserved_objects ran.0) (w.filtered_messages ran.0) c
        ≡ ok (c1, deducted)
      → pay_miner miner portion deducted c1 ≡ ok c2
      → refund_of a w h x call from ran c2 ≡ ok c3
      → (income : Result ℕ) → record_income own income c3 ≡ ok c'
      → Backed s worth c'
  unfolding refund_of
  settled miner portion ran from own worth c c1 c2 c3 c' deducted k egress paid refunded income
        recorded =
      let (held, inside, out, books, sum) =
        process_egress-Books a w h x s token portion (w.reserved_objects ran.0)
          (w.filtered_messages ran.0) c c1 deducted k.held k.inside k.out k.books
          (reserved.distinct ran.0) (reserved.bounded ran.0) egress in
      let due = if deducted then value_or portion 0 else 0 in
      let after_miner =
        pay_miner-Books s token miner portion deducted c1 c2 held inside out books paid in
      let after_refund =
        refund_gas-Books s token call.rc.gas_payer (w.base_fee_per_gas call.header)
          ran.1.cumulative_gas_used (w.priority_fee_per_gas call.tx)
          (w.extract_reserved_address from) call.tx c2 c3 (held + due) inside out after_miner
          refunded in
      record {
        held = held + due;
        inside = inside;
        out = out;
        books =
            record_income-Books s token own income c3 c' (held + due) inside out after_refund
              recorded;
        sum = omega (arith, sum, k.sum);
      }

  account_tx-Backed :
      (miner : Option ℕ) (ran : Overlay × Receipt × ℕ) (from : Bytes) (own : Bool) (worth : ℕ)
      (c c' : Contract)
      → Backed s worth c
      → account_tx a w h x call miner ran from own c ≡ ok c'
      → Backed s worth c'
  unfolding account_tx
  account_tx-Backed miner ran from own worth c c' k e =
      elim (Result-cases (portion_of a w h x call miner ran c)) [
        | inr (text, failed) ↦ absurd (ground (arith, failed))
        | inl (portion, share) ↦
            elim (Result-cases (
              process_egress a w h x portion (w.reserved_objects ran.0) (w.filtered_messages ran.0)
                c)) [
                  | inr (text, failed) ↦ absurd (ground (arith, share, failed))
                  | inl ((c1, deducted), egress) ↦
                      elim (Result-cases (pay_miner miner portion deducted c1)) [
                        | inr (text, failed) ↦ absurd (ground (arith, share, egress, failed))
                        | inl (c2, paid) ↦
                            elim (Result-cases (refund_of a w h x call from ran c2)) [
                              | inr (text, failed) ↦
                                  absurd (ground (arith, share, egress, paid, failed))
                              | inl (c3, refunded) ↦
                                  let rest : record_income own
                                        (income_of a w h x call
                                          (get_evm_version h.platform c.config) portion ran)
                                        c3
                                      ≡ ok c' =
                                    ground (arith, share, egress, paid, refunded) in
                                  settled miner portion ran from own worth c c1 c2 c3 c' deducted k
                                    egress paid refunded _ rest
                            ]
                      ]
                ]
      ]

  run_tx-Backed :
      (ep : Overlay) (ran : Overlay × Receipt × ℕ) (from : Bytes) (own : Bool) (worth : ℕ)
      (c c' : Contract)
      → Backed s worth c
      → run_tx a w h x call ep c ≡ ok (ran, (from, own), c')
      → Backed s worth c'
  unfolding run_tx
  run_tx-Backed ep ran from own worth c c' k e = elim (Option-cases (w.recover_sender call.tx)) [
    | inl nobody ↦ absurd (ground (arith, nobody, pre))
    | inr (sender, recovered) ↦ elim (Result-cases (admit a w h x call sender ep c)) [
      | inr (text, failed) ↦ absurd (ground (arith, pre, recovered, failed))
      | inl ((ep1, own1, d), admitted) ↦
          elim (Result-cases (w.validate_transaction call.tx sender ep1)) [
            | inr (text, failed) ↦ absurd (ground (arith, pre, recovered, admitted, failed))
            | inl (r, validated) ↦ elim (Result-cases (check_result r)) [
              | inr (text, failed) ↦
                  absurd (ground (arith, pre, recovered, admitted, validated, failed))
              | inl (u, passed) ↦
                  elim (Result-cases (w.execute_transaction call.tx sender call.gas_params ep1)) [
                    | inr (text, failed) ↦
                        absurd (ground (arith, pre, recovered, admitted, validated, passed, failed))
                    | inl (run, executed) ↦
                        let same : d ≡ c' =
                          ground (arith, pre, recovered, admitted, validated, passed, executed) in
                        subst (Backed s worth) same
                          (admit-Backed sender ep ep1 own1 worth c d k admitted)
                  ]
            ]
          ]
    ]
  ]
    where
      pre :
          ((u : Unit {0}) × (check_result
                (w.pre_validate_transaction call.tx call.header call.chain call.gas_params)
              ≡ ok u))
          ⊎ ((text : String) × (check_result
                  (w.pre_validate_transaction call.tx call.header call.chain call.gas_params)
                ≡ err text))
      pre = Result-cases _

  -- A transaction that is executed moves money between the balances, the EVM and the transfers that
  -- are sent, and makes or loses none: the contract's books sum up to the same after it.
  pub execute_tx-Backed :
      (ep ep' : Overlay) (receipt : Receipt) (worth : ℕ) (c c' : Contract)
      → Backed s worth c
      → execute_tx a w h x call ep c ≡ ok (ep', receipt, c')
      → Backed s worth c'
  unfolding execute_tx
  execute_tx-Backed ep ep' receipt worth c c' k e = elim (Result-cases (run_tx a w h x call ep c)) [
    | inr (text, failed) ↦ absurd (ground (arith, failed))
    | inl ((ran, (from, own), d), done) ↦
        elim (Result-cases (account_tx a w h x call (paid_miner h call.miner) ran from own d)) [
          | inr (text, failed) ↦ absurd (ground (arith, done, failed))
          | inl (c2, accounted) ↦
              let same : c2 ≡ c' = ground (arith, done, accounted) in
              subst (Backed s worth) same (
                account_tx-Backed (paid_miner h call.miner) ran from own worth d c2
                  (run_tx-Backed ep ran from own worth c d k done) accounted)
        ]
  ]
