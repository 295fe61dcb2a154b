-- ===== src/Contract/Egress/Total.antt =====
-- src/actions.cpp, execute_tx: what the loop over the reserved objects adds to the balances and to the
-- marked transfers is what the objects hold.
use eos_evm_contract.Prelude.{
  ℕ, ◌+◌, ◌-◌, ◌<◌, ◌≡◌, true, false, Option, some, ok, arith, ◌==◌, ◌⊎◌, inl, inr, Bool-cases,
  Option-cases, Result-cases, if◌then◌else◌, value_or, sym, subst, ap,
}
use eos_evm_contract.Table.{find, put}
use eos_evm_contract.Balance.{Symbol, BalanceWithDust, add_amount, sub_amount}
use eos_evm_contract.Balance.Laws.{IsToken}
use eos_evm_contract.Contract.{Host, Contract}
use eos_evm_contract.Contract.Ledger.{Holds, replace_lem, add_amount-Holds, sub_amount-Holds}
use eos_evm_contract.Contract.Books.{Books, Books-with_balances}
use eos_evm_contract.Contract.Egress.{Egress, egress_open}

-- What the contract's balance has given up for the miner so far.
abbrev pub owed : Option ℕ → Egress → ℕ
owed portion e = if e.deducted then value_or portion 0 else 0

-- An open account is credited, or it is the contract's own and also pays the portion.
egress_open_parts :
    (h : Host) (portion : Option ℕ) (account v : ℕ) (e e' : Egress)
    → egress_open h portion account v e ≡ ok e'
    → ((b : BalanceWithDust) × (b' : BalanceWithDust) × (find account e.contract.balances ≡ some b)
        × (add_amount b v ≡ ok b')
        × (e' ≡ record e {
          contract = record (e.contract) { balances = put account b' e.contract.balances };
        }))
      ⊎ ((p : ℕ) × (b : BalanceWithDust) × (b' : BalanceWithDust) × (b'' : BalanceWithDust)
          × (portion ≡ some p)
          × (e.deducted ≡ false)
          × (find account e.contract.balances ≡ some b)
          × (add_amount b v ≡ ok b')
          × (sub_amount b' p ≡ ok b'')
          × (e' ≡ record e {
            contract = record (e.contract) { balances = put account b'' e.contract.balances };
            deducted = true;
          }))
unfolding egress_open
egress_open_parts h portion account v e e' run =
    elim (Option-cases (find account e.contract.balances)) [
      | inl missing ↦ absurd (ground (arith, missing))
      | inr (b, found) ↦ elim (Result-cases (add_amount b v)) [
        | inr (text, failed) ↦ absurd (ground (arith, found, failed))
        | inl (b', added) ↦ elim (Option-cases portion) [
          | inl no_miner ↦ inl (b, b', found, added, ground (arith, found, added, no_miner))
          | inr (p, miner) ↦ elim (Bool-cases (account == h.self)) [
            | inr elsewhere ↦
                inl (b, b', found, added, ground (arith, found, added, miner, elsewhere))
            | inl own ↦ elim (Result-cases (sub_amount b' p)) [
              | inr (text, failed) ↦ absurd (ground (arith, found, added, miner, own, failed))
              | inl (b'', taken) ↦ inr (
                p,
                b,
                b',
                b'',
                miner,
                ground (arith, found, added, miner, own, taken),
                found,
                added,
                taken,
                ground (arith, found, added, miner, own, taken),
              )
            ]
          ]
        ]
      ]
    ]

module _ (s : Symbol) (token : IsToken s) (h : Host) (portion : Option ℕ) where
  -- A row that is written back with another balance of the token.
  rewritten :
      (account : ℕ) (b b' : BalanceWithDust) (v p : ℕ) (e e' : Egress) (held inside out : ℕ)
      (k : Books s e.contract held inside out)
      → find account e.contract.balances ≡ some b
      → ((worth : ℕ) → Holds s b worth → (p < worth + v + 1) × Holds s b' (worth + v - p))
      → e'.contract ≡ record (e.contract) { balances = put account b' e.contract.balances }
      → (held' : ℕ) × Books s e'.contract held' inside out × (held' + p ≡ held + v)
  rewritten account b b' v p e e' held inside out k found change_row ends =
      let (worth, others, holds, split, change) = replace_lem s account b k.ledger found in
      let (enough, holds') = change_row worth holds in
      (
        worth + v - p + others,
        subst (λ (d : Contract). Books s d (worth + v - p + others) inside out) (sym ends)
            (Books-with_balances s (put account b' e.contract.balances) e.contract held
              (worth + v - p + others) inside out k (change b' (worth + v - p) holds')),
        omega (arith, split, enough),
      )

  pub egress_open-Books :
      (account v : ℕ) (e e' : Egress) (held inside out : ℕ)
      → Books s e.contract held inside out
      → egress_open h portion account v e ≡ ok e'
      → (held' : ℕ) × Books s e'.contract held' inside out
        × (held' + owed portion e' ≡ held + owed portion e + v)
        × (e'.total ≡ e.total)
        × (e'.messages ≡ e.messages)
  egress_open-Books account v e e' held inside out k run =
      elim (egress_open_parts h portion account v e e' run) [
        | inl (b, b', found, added, ends) ↦
            let (held', books, sum) =
              rewritten account b b' v 0 e e' held inside out k found
                (λ worth holds. (
                  omega arith,
                  subst (Holds s b') (omega arith)
                      (add_amount-Holds s token b b' worth v holds added),
                ))
                (ap (λ (d : Egress). d.contract) ends) in
            (held', books, ground (arith, ends, sum), ground (arith, ends), ground (arith, ends))
        | inr (p, b, b', b'', is_some, fresh, found, added, taken, ends) ↦
            let (held', books, sum) =
              rewritten account b b'' v p e e' held inside out k found
                (λ worth holds.
                  let less =
                    sub_amount-Holds s token b' b'' (worth + v) p
                      (add_amount-Holds s token b b' worth v holds added) taken in
                  (omega (arith, less.0), less.1))
                (ap (λ (d : Egress). d.contract) ends) in
            (
              held',
              books,
              ground (arith, is_some, fresh, ends, sum),
              ground (arith, ends),
              ground (arith, ends),
            )
      ]
