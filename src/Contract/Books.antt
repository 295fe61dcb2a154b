-- ===== src/Contract/Books.antt =====
-- The money that the contract answers for, in EVM units: what its balances hold, what the EVM holds,
-- and what the transfers that it has sent take out; and what a change of one row does to the three.
use eos_evm_contract.Prelude.{
  ℕ, ◌+◌, ◌-◌, ◌*◌, ◌≤◌, ◌≡◌, refl, some, List, [], ◌∷◌, ◌++◌, String, ok, arith, Result-cases,
  Option-cases, inl, inr, sym, subst, ap, ◌∙◌,
}
use eos_evm_contract.Prelude.Int.{ℤ, pos, negsuc}
use eos_evm_contract.Table.{Table, find, put}
use eos_evm_contract.Balance.{Symbol, BalanceWithDust, add_amount, sub_amount}
use eos_evm_contract.Balance.Laws.{IsToken, unit_of}
use eos_evm_contract.Contract.{Contract, Transfer, token_symbol}
use eos_evm_contract.Contract.Rows.{credit_row, debit_row, enter_evm, leave_evm}
use eos_evm_contract.Contract.Ledger.{
  Ledger, Holds, replace_lem, add_amount-Holds, sub_amount-Holds,
}

-- An amount that is not negative.
abbrev pub magnitude : ℤ → ℕ
magnitude (pos n) = n
magnitude (negsuc n) = 0

abbrev pub sent_worth : Symbol → List Transfer → ℕ
sent_worth s [] = 0
sent_worth s (t ∷ sent) = magnitude t.quantity.amount * unit_of s + sent_worth s sent

pub sent_worth-append :
    (s : Symbol) (a b : List Transfer) → sent_worth s (a ++ b) ≡ sent_worth s a + sent_worth s b
sent_worth-append s [] b = omega arith
sent_worth-append s (t ∷ a) b = omega (arith, sent_worth-append s a b)

-- The contract's books: balances in range that are worth `held` in all, an EVM that holds `inside`,
-- and transfers of `out`, all of the contract's token.
pub record Books (s : Symbol) (c : Contract) (held inside out : ℕ) : Type 0 where
  pub ledger : Ledger s 0 c.balances held
  pub evm_row : BalanceWithDust
  pub evm_found : c.inevm ≡ some evm_row
  pub evm_holds : Holds s evm_row inside
  pub transferred : sent_worth s c.sent ≡ out
  pub symbol : token_symbol c ≡ s

module _ (s : Symbol) where
  pub Books-with_balances :
      (t : Table BalanceWithDust) (c : Contract) (held held' inside out : ℕ)
      → Books s c held inside out
      → Ledger s 0 t held'
      → Books s (record c { balances = t }) held' inside out
  Books-with_balances t c held held' inside out k ledger = record {
    ledger = ledger;
    evm_row = k.evm_row;
    evm_found = k.evm_found;
    evm_holds = k.evm_holds;
    transferred = k.transferred;
    symbol = k.symbol;
  }

  Books-with_evm :
      (b : BalanceWithDust) (c : Contract) (held inside inside' out : ℕ)
      → Books s c held inside out
      → Holds s b inside'
      → Books s (record c { inevm = some b }) held inside' out
  Books-with_evm b c held inside inside' out k holds = record {
    ledger = k.ledger;
    evm_row = b;
    evm_found = refl;
    evm_holds = holds;
    transferred = k.transferred;
    symbol = k.symbol;
  }

  -- Books are kept by whatever leaves the rows, the singleton, the transfers and the symbol.
  pub Books-kept :
      (c c' : Contract) (held inside out : ℕ)
      → Books s c held inside out
      → c.balances ≡ c'.balances
      → c.inevm ≡ c'.inevm
      → c.sent ≡ c'.sent
      → token_symbol c ≡ token_symbol c'
      → Books s c' held inside out
  Books-kept c c' held inside out k balances evm sent symbol = record {
    ledger = subst (λ (t : Table BalanceWithDust). Ledger s 0 t held) balances k.ledger;
    evm_row = k.evm_row;
    evm_found = sym evm ∙ k.evm_found;
    evm_holds = k.evm_holds;
    transferred = sym (ap (sent_worth s) sent) ∙ k.transferred;
    symbol = sym symbol ∙ k.symbol;
  }

module _ (s : Symbol) (token : IsToken s) where
  pub credit_row-Books :
      (owner v : ℕ) (message : String) (c c' : Contract) (held inside out : ℕ)
      → Books s c held inside out
      → credit_row owner v message c ≡ ok c'
      → Books s c' (held + v) inside out
  unfolding credit_row
  credit_row-Books owner v message c c' held inside out k e =
      elim (Option-cases (find owner c.balances)) [
        | inl missing ↦ absurd (ground (arith, missing))
        | inr (b, found) ↦ elim (Result-cases (add_amount b v)) [
          | inr (text, failed) ↦ absurd (ground (arith, found, failed))
          | inl (b', added) ↦
              let ends : record c { balances = put owner b' c.balances } ≡ c' =
                ground (arith, found, added) in
              let (worth, others, holds, split, change) = replace_lem s owner b k.ledger found in
              let sum : worth + v + others ≡ held + v = omega (arith, split) in
              subst (λ (d : Contract). Books s d (held + v) inside out) ends
                (Books-with_balances s (put owner b' c.balances) c held (held + v) inside out k (
                  subst (λ (n : ℕ). Ledger s 0 (put owner b' c.balances) n) sum
                    (change b' (worth + v) (add_amount-Holds s token b b' worth v holds added))))
        ]
      ]

  pub debit_row-Books :
      (owner v : ℕ) (message : String) (c c' : Contract) (held inside out : ℕ)
      → Books s c held inside out
      → debit_row owner v message c ≡ ok c'
      → (v ≤ held) × Books s c' (held - v) inside out
  unfolding debit_row
  debit_row-Books owner v message c c' held inside out k e =
      elim (Option-cases (find owner c.balances)) [
        | inl missing ↦ absurd (ground (arith, missing))
        | inr (b, found) ↦ elim (Result-cases (sub_amount b v)) [
          | inr (text, failed) ↦ absurd (ground (arith, found, failed))
          | inl (b', taken) ↦
              let ends : record c { balances = put owner b' c.balances } ≡ c' =
                ground (arith, found, taken) in
              let (worth, others, holds, split, change) = replace_lem s owner b k.ledger found in
              let (within, holds') = sub_amount-Holds s token b b' worth v holds taken in
              let rest : worth - v + others ≡ held - v = omega (arith, split, within) in
              (
                omega (arith, split, within),
                subst (λ (d : Contract). Books s d (held - v) inside out) ends
                    (Books-with_balances s (put owner b' c.balances) c held (held - v) inside out k
                      (subst (λ (n : ℕ). Ledger s 0 (put owner b' c.balances) n) rest
                        (change b' (worth - v) holds'))),
              )
        ]
      ]

  pub enter_evm-Books :
      (v : ℕ) (c c' : Contract) (held inside out : ℕ)
      → Books s c held inside out
      → enter_evm v c ≡ ok c'
      → Books s c' held (inside + v) out
  unfolding enter_evm
  enter_evm-Books v c c' held inside out k e = elim (Result-cases (add_amount k.evm_row v)) [
    | inr (text, failed) ↦ absurd (ground (arith, k.evm_found, failed))
    | inl (b', added) ↦
        let ends : record c { inevm = some b' } ≡ c' = ground (arith, k.evm_found, added) in
        subst (λ (d : Contract). Books s d held (inside + v) out) ends
          (Books-with_evm s b' c held inside (inside + v) out k
            (add_amount-Holds s token k.evm_row b' inside v k.evm_holds added))
  ]

  pub leave_evm-Books :
      (v : ℕ) (c c' : Contract) (held inside out : ℕ)
      → Books s c held inside out
      → leave_evm v c ≡ ok c'
      → (v ≤ inside) × Books s c' held (inside - v) out
  unfolding leave_evm
  leave_evm-Books v c c' held inside out k e = elim (Result-cases (sub_amount k.evm_row v)) [
    | inr (text, failed) ↦ absurd (ground (arith, k.evm_found, failed))
    | inl (b', taken) ↦
        let ends : record c { inevm = some b' } ≡ c' = ground (arith, k.evm_found, taken) in
        let (within, holds') = sub_amount-Holds s token k.evm_row b' inside v k.evm_holds taken in
        (
          within,
          subst (λ (d : Contract). Books s d held (inside - v) out) ends
              (Books-with_evm s b' c held inside (inside - v) out k holds'),
        )
  ]
