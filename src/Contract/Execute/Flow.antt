-- ===== src/Contract/Execute/Flow.antt =====
-- src/actions.cpp, execute_tx: where the money goes at each stage.
use eos_evm_contract.Prelude.{
  ℕ, ◌+◌, ◌-◌, ◌%◌, ◌≤◌, ◌≡◌, Bool, true, Option, none, some, Result, ok, arith, ltb, ◌==◌, inl,
  inr, Bool-cases, Result-cases, if◌then◌else◌, value_or, subst, ap,
}
use eos_evm_contract.Balance.{Symbol}
use eos_evm_contract.Balance.Laws.{IsToken}
use eos_evm_contract.Config.{ConfigWrapper}
use eos_evm_contract.Transaction.{two_256, Transaction}
use eos_evm_contract.Contract.{Contract, get_statistics, set_statistics}
use eos_evm_contract.Contract.Rows.{credit_row, debit_row, enter_evm}
use eos_evm_contract.Contract.Books.{
  Books, Books-kept, credit_row-Books, debit_row-Books, enter_evm-Books,
}
use eos_evm_contract.Contract.Execute.{
  max_gas_cost, uint256_mul, charge, pay_miner, refund_gas, record_income,
}

-- The contract keeps books that sum up to `worth`.
pub record Backed (s : Symbol) (worth : ℕ) (c : Contract) : Type 0 where
  pub held : ℕ
  pub inside : ℕ
  pub out : ℕ
  pub books : Books s c held inside out
  pub sum : held + inside + out ≡ worth

module _ (s : Symbol) (token : IsToken s) where
  -- What comes before the entry into the EVM takes the same amount from the balances.
  charge-paid :
      (payer : Option ℕ) (tx : Transaction) (ingress : ℕ) (c c' : Contract)
      → charge payer tx ingress c ≡ ok c'
      → (d : Contract) × (enter_evm (tx.value + max_gas_cost tx) d ≡ ok c')
        × ((held inside out : ℕ)
            → Books s c held inside out
            → (tx.value + max_gas_cost tx ≤ held)
              × Books s d (held - (tx.value + max_gas_cost tx)) inside out)
  unfolding charge
  charge-paid none tx ingress c c' e =
      elim (Result-cases (debit_row ingress (tx.value + max_gas_cost tx) "unable to find key" c)) [
        | inr (text, failed) ↦ absurd (ground (arith, failed))
        | inl (d, paid) ↦ (
          d,
          ground (arith, paid),
          λ held inside out k. debit_row-Books s token ingress _ _ c d held inside out k paid,
        )
      ]
  charge-paid (some payer) tx ingress c c' e =
      elim (Result-cases
        (debit_row payer (max_gas_cost tx) "gas payer account has not been opened" c)) [
          | inr (text, failed) ↦ absurd (ground (arith, failed))
          | inl (b, gas) ↦ elim (Bool-cases (ltb 0 tx.value)) [
            | inr free ↦ (
              b,
              ground (arith, gas, free),
              λ held inside out k.
                  let none_paid : tx.value ≡ 0 = ground (arith, free) in
                  let (enough, books) =
                    debit_row-Books s token payer _ _ c b held inside out k gas in
                  (
                    omega (arith, enough, none_paid),
                    subst (λ (n : ℕ). Books s b n inside out) (omega (arith, none_paid)) books,
                  ),
            )
            | inl more ↦ elim (Result-cases (debit_row ingress tx.value "unable to find key" b)) [
              | inr (text, failed) ↦ absurd (ground (arith, gas, more, failed))
              | inl (d, paid) ↦ (
                d,
                ground (arith, gas, more, paid),
                λ held inside out k.
                    let (enough, books) =
                      debit_row-Books s token payer _ _ c b held inside out k gas in
                    let (rest, books') =
                      debit_row-Books s token ingress _ _ b d (held - max_gas_cost tx) inside out
                        books paid in
                    (
                      omega (arith, enough, rest),
                      subst (λ (n : ℕ). Books s d n inside out) (omega arith) books',
                    ),
              )
            ]
          ]
        ]

  pub charge-Backed :
      (payer : Option ℕ) (tx : Transaction) (ingress worth : ℕ) (c c' : Contract)
      → Backed s worth c
      → charge payer tx ingress c ≡ ok c'
      → Backed s worth c'
  charge-Backed payer tx ingress worth c c' k e =
      let (d, entered, paid) = charge-paid payer tx ingress c c' e in
      let (enough, books) = paid k.held k.inside k.out k.books in
      record {
        held = k.held - (tx.value + max_gas_cost tx);
        inside = k.inside + (tx.value + max_gas_cost tx);
        out = k.out;
        books = enter_evm-Books s token _ d c' _ k.inside k.out books entered;
        sum = omega (arith, enough, k.sum);
      }

  -- The portion was taken from the contract's balance before: `due` is what is still to be paid out.
  pub pay_miner-Books :
      (miner portion : Option ℕ) (deducted : Bool) (c c' : Contract) (held inside out : ℕ)
      → Books s c held inside out
      → pay_miner miner portion deducted c ≡ ok c'
      → Books s c' (held + (if deducted then value_or portion 0 else 0)) inside out
  unfolding pay_miner
  pay_miner-Books miner none deducted c c' held inside out k e =
      let same : c ≡ c' = ground arith in
      subst (λ (d : Contract). Books s d (held + (if deducted then 0 else 0)) inside out) same
        (subst (λ (n : ℕ). Books s c n inside out) (ground arith) k)
  pay_miner-Books miner (some p) deducted c c' held inside out k e = elim (Bool-cases (p == 0)) [
    | inl nothing ↦
        let same : c ≡ c' = ground (arith, nothing) in
        subst (λ (d : Contract). Books s d (held + (if deducted then p else 0)) inside out) same
          (subst (λ (n : ℕ). Books s c n inside out) (ground (arith, nothing)) k)
    | inr more ↦
        let paid : (deducted ≡ true)
            × (credit_row (value_or miner 0) p "unable to find key" c ≡ ok c') =
          ground (arith, more) in
        subst (λ (n : ℕ). Books s c' n inside out) (ground (arith, paid.0))
          (credit_row-Books s token _ p _ c c' held inside out k paid.1)
  ]

  pub refund_gas-Books :
      (payer base_fee : Option ℕ) (used : ℕ) (priority : ℕ → ℕ) (ingress : Option ℕ)
      (tx : Transaction) (c c' : Contract) (held inside out : ℕ)
      → Books s c held inside out
      → refund_gas payer base_fee used priority ingress tx c ≡ ok c'
      → Books s c' held inside out
  unfolding refund_gas
  refund_gas-Books none base_fee used priority ingress tx c c' held inside out k e =
      let same : c ≡ c' = ground arith in subst (λ (d : Contract). Books s d held inside out) same k
  refund_gas-Books (some payer) none used priority ingress tx c c' held inside out k e =
      absurd (ground arith)
  refund_gas-Books (some payer) (some fee) used priority none tx c c' held inside out k e =
      absurd (ground arith)
  refund_gas-Books (some payer) (some fee) used priority (some owner) tx c c' held inside out k e =
      let refund = max_gas_cost tx - uint256_mul used ((priority fee + fee) % two_256) in
      elim (Result-cases (debit_row owner refund "unable to find key" c)) [
        | inr (text, failed) ↦ absurd (ground (arith, failed))
        | inl (d, taken) ↦
            let (enough, books) =
              debit_row-Books s token owner refund _ c d held inside out k taken in
            let back : credit_row payer refund "unable to find key" d ≡ ok c' =
              ground (arith, taken) in
            subst (λ (n : ℕ). Books s c' n inside out) (omega (arith, enough))
              (credit_row-Books s token payer refund _ d c' (held - refund) inside out books back)
      ]

  pub record_income-Books :
      (from_self : Bool) (income : Result ℕ) (c c' : Contract) (held inside out : ℕ)
      → Books s c held inside out
      → record_income from_self income c ≡ ok c'
      → Books s c' held inside out
  unfolding record_income get_statistics set_statistics
  record_income-Books from_self income c c' held inside out k e =
      let kept : (c.balances ≡ c'.balances)
          × (c.inevm ≡ c'.inevm)
          × (c.sent ≡ c'.sent)
          × (c.config ≡ c'.config) =
        ground arith in
      Books-kept s c c' held inside out k kept.0 kept.1 kept.2
        (ap (λ (g : ConfigWrapper). g.ingress_bridge_fee.symbol) kept.3)
