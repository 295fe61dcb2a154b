-- ===== src/Contract/Vault.antt =====
-- src/actions.cpp: what opening, closing, withdrawals and deposits do to the contract's books.
use eos_evm_contract.Prelude.{
  ℕ, ◌+◌, ◌-◌, ◌*◌, ◌/◌, ◌%◌, ◌≤◌, ◌<◌, ◌≡◌, refl, true, false, none, some, List, [], ◌∷◌, ◌++◌,
  Option, ok, arith, Option-cases, Result-cases, Bool-cases, inl, inr, ap, sym, subst, ◌∙◌, ◌==◌,
  has_value, value_or,
}
use eos_evm_contract.Prelude.Int.{ℤ, pos, negsuc, ◌+ℤ◌, ◌-ℤ◌, ◌≤ℤ◌}
use eos_evm_contract.Table.{Table, find, put, erase}
use eos_evm_contract.Bytes.{Bytes}
use eos_evm_contract.Balance.{Asset, AssetOps, Symbol, BalanceWithDust, max_amount, is_zero}
use eos_evm_contract.Balance.Laws.{IsToken, unit_of, holding, div-le_of_lt}
use eos_evm_contract.Contract.{text, Host, Contract, Transfer, token_symbol, zero_balance}
use eos_evm_contract.Contract.Accounts.{
  open_internal_balance, open_account, close_account, withdraw,
}
use eos_evm_contract.Contract.Ledger.{Ledger, Holds, replace_lem}
use eos_evm_contract.Contract.Ledger.Change.{
  Ledger-put_new, Ledger-erase, Holds-holding, Holds-taken, Holds-added, is_zero-Holds,
  unit_positive,
}
use eos_evm_contract.Contract.Books.{
  Books, Books-with_balances, Books-kept, sent_worth, sent_worth-append, magnitude,
}
use eos_evm_contract.Contract.Execute.Flow.{Backed}
pub mod Deposit

module _ (s : Symbol) where
  -- A balance is known from its three parts.
  pub is_holding :
      (b : BalanceWithDust) (rest : Asset) (own m : ℕ)
      → Holds s b own
      → rest.symbol ≡ s
      → rest.amount ≡ pos m
      → record b { balance = rest } ≡ holding s m (own % unit_of s)
  is_holding b rest own m holds symbol amount =
      ap (λ (d : ℕ). record { balance = rest; dust = d })
        (ap (λ (b : BalanceWithDust). b.dust) holds.is_holding)
      ∙ ap
          (λ (t : Symbol). record {
            balance = record { amount = rest.amount; symbol = t };
            dust = own % unit_of s;
          })
          symbol
      ∙ ap
          (λ (t : ℤ). record {
            balance = record { amount = t; symbol = s };
            dust = own % unit_of s;
          })
          amount

  pub pos_of :
      (b : BalanceWithDust) (own : ℕ) → Holds s b own → b.balance.amount ≡ pos (own / unit_of s)
  pos_of b own holds = ap (λ (b : BalanceWithDust). b.balance.amount) holds.is_holding

  symbol_of : (b : BalanceWithDust) (own : ℕ) → Holds s b own → b.balance.symbol ≡ s
  symbol_of b own holds = ap (λ (b : BalanceWithDust). b.balance.symbol) holds.is_holding

  less : (a b : ℕ) → b ≤ a → pos a -ℤ pos b ≡ pos (a - b)
  unfolding ◌-ℤ◌
  less a b h = ground arith

  pub more : (a b : ℕ) → pos a +ℤ pos b ≡ pos (a + b)
  unfolding ◌+ℤ◌
  more a b = ground arith

module _ (s : Symbol) (worth : ℕ) where
  -- Other balances that are worth `held'`, with the same of all else.
  pub Backed-with_balances :
      (c c' : Contract) (k : Backed s worth c) (worth' held' : ℕ)
      → Ledger s 0 c'.balances held'
      → c.inevm ≡ c'.inevm
      → c.sent ≡ c'.sent
      → token_symbol c ≡ token_symbol c'
      → held' + k.inside + k.out ≡ worth'
      → Backed s worth' c'
  Backed-with_balances c c' k worth' held' ledger evm sent symbol sum = record {
    held = held';
    inside = k.inside;
    out = k.out;
    books =
        Books-kept s (record c { balances = c'.balances }) c' held' k.inside k.out
          (Books-with_balances s c'.balances c k.held held' k.inside k.out k.books ledger) refl evm
          sent symbol;
    sum = sum;
  }

  pub zero-Holds : (c : Contract) → token_symbol c ≡ s → Holds s (zero_balance (token_symbol c)) 0
  zero-Holds c e =
      let zero =
        subst (Holds s (zero_balance s)) (omega arith)
          (Holds-holding s 0 0 (omega arith) (unit_positive s)) in
      subst (λ (t : Symbol). Holds s (zero_balance t) 0) (sym e) zero

  pub open_internal_balance-Backed :
      (owner : ℕ) (c : Contract) → Backed s worth c → Backed s worth (open_internal_balance owner c)
  unfolding open_internal_balance
  open_internal_balance-Backed owner c k = elim (Option-cases (find owner c.balances)) [
    | inr (b, found) ↦
        Backed-with_balances c (open_internal_balance owner c) k worth k.held
          (rw found k.books.ledger) refl refl refl k.sum
    | inl missing ↦
        Backed-with_balances c (open_internal_balance owner c) k worth (0 + k.held)
          (rw missing (
            Ledger-put_new s owner (zero_balance (token_symbol c)) 0 (omega arith) missing
              (zero-Holds c k.books.symbol) k.books.ledger))
          refl refl refl (omega (arith, k.sum))
  ]

  pub open_account-Backed :
      (h : Host) (owner : ℕ) (c c' : Contract)
      → Backed s worth c
      → open_account h owner c ≡ ok c'
      → Backed s worth c'
  unfolding open_account
  open_account-Backed h owner c c' k e =
      let opened : open_internal_balance owner c ≡ c' = ground arith in
      subst (Backed s worth) opened (open_internal_balance-Backed owner c k)

  pub close_account-Backed :
      (h : Host) (owner : ℕ) (c c' : Contract)
      → Backed s worth c
      → close_account h owner c ≡ ok c'
      → Backed s worth c'
  unfolding close_account
  close_account-Backed h owner c c' k e = elim (Option-cases (find owner c.balances)) [
    | inl missing ↦ absurd (ground (arith, missing))
    | inr (b, found) ↦
        let empty : is_zero b ≡ true = ground (arith, found) in
        let erased : erase owner c.balances ≡ c'.balances = ground (arith, found) in
        let (own, others, holds, split, left) = Ledger-erase s owner b k.books.ledger found in
        let nothing = is_zero-Holds s b own empty holds in
        Backed-with_balances c c' k worth others
          (subst (λ (t : Table BalanceWithDust). Ledger s 0 t others) erased left)
          (ground (arith, found)) (ground (arith, found)) (ground (arith, found))
          (omega (arith, split, nothing, k.sum))
  ]

  -- The row of a withdrawal: its quantity is taken from what the balances hold.
  taken-Ledger :
      (a : AssetOps) (owner : ℕ) (b : BalanceWithDust) (quantity rest : Asset) (n : ℕ)
      (c : Contract) (k : Backed s worth c)
      → find owner c.balances ≡ some b
      → quantity.amount ≡ pos n
      → quantity.amount ≤ℤ b.balance.amount
      → a.sub (record (b.balance) { symbol = token_symbol c }) quantity ≡ ok rest
      → (n * unit_of s ≤ k.held)
        × Ledger s 0 (put owner (record b { balance = rest }) c.balances) (k.held - n * unit_of s)
  taken-Ledger a owner b quantity rest n c k found whole within left =
      let (own, others, holds, split, change) = replace_lem s owner b k.books.ledger found in
      let amount = pos_of s b own holds in
      let few : n ≤ own / unit_of s = ground (arith, within, amount, whole) in
      let (covered, holds') = Holds-taken s b own n holds few in
      let laws = a.sub-eq-ok (record (b.balance) { symbol = token_symbol c }) quantity rest left in
      let difference =
        laws.2
        ∙ ap (λ (t : ℤ). t -ℤ quantity.amount) amount
        ∙ ap (λ (t : ℤ). pos (own / unit_of s) -ℤ t) whole
        ∙ less s (own / unit_of s) n few in
      let is_rest =
        is_holding s b rest own (own / unit_of s - n) holds (laws.1 ∙ k.books.symbol) difference in
      let ledger =
        change (record b { balance = rest }) (own - n * unit_of s)
          (subst (λ (b : BalanceWithDust). Holds s b (own - n * unit_of s)) (sym is_rest) holds') in
      (
        omega (arith, covered, split),
        subst (Ledger s 0 (put owner (record b { balance = rest }) c.balances))
            (omega (arith, covered, split)) ledger,
      )

  -- The transfers after a withdrawal, and what they are worth.
  abbrev sent_with : Contract → ℕ → Asset → List Transfer
  sent_with c to quantity =
      c.sent
      ++ (record {
        token = c.config.token_contract;
        to = to;
        quantity = quantity;
        memo = text "Withdraw from EVM balance";
      }
          ∷ [])

  sent_with_worth :
      (c : Contract) (to : ℕ) (quantity : Asset) (n : ℕ)
      → quantity.amount ≡ pos n
      → (k : Backed s worth c) → sent_worth s (sent_with c to quantity) ≡ k.out + n * unit_of s
  sent_with_worth c to quantity n whole k =
      let parts = sent_worth-append s c.sent (
        record {
          token = c.config.token_contract;
          to = to;
          quantity = quantity;
          memo = text "Withdraw from EVM balance";
        }
        ∷ []) in
      let amount : magnitude quantity.amount ≡ n = ap magnitude whole in
      let one = ap (λ (m : ℕ). m * unit_of s) amount in
      omega (arith, parts, one, k.books.transferred)

  -- The whole amount of a withdrawal goes from the balance to the transfers sent.
  pub withdraw-Backed :
      (a : AssetOps) (h : Host) (owner : ℕ) (quantity : Asset) (n : ℕ) (to : Option ℕ)
      (c c' : Contract)
      → Backed s worth c
      → quantity.amount ≡ pos n
      → withdraw a h owner quantity to c ≡ ok c'
      → Backed s worth c'
  unfolding withdraw
  withdraw-Backed a h owner quantity n to c c' k whole e =
      elim (Option-cases (find owner c.balances)) [
        | inl missing ↦ absurd (ground (arith, missing))
        | inr (b, found) ↦
            elim (Result-cases (a.sub (record (b.balance) { symbol = token_symbol c }) quantity)) [
              | inr (m, failed) ↦ absurd (ground (arith, found, failed))
              | inl (rest, left) ↦
                  let (covered, ledger) =
                    taken-Ledger a owner b quantity rest n c k found whole
                      (ground (arith, found, left)) left in
                  let sent : sent_with c (value_or to owner) quantity ≡ c'.sent =
                    ground (arith, found, left) in
                  let put_back : put owner (record b { balance = rest }) c.balances ≡ c'.balances =
                    ground (arith, found, left) in
                  let paid = sent_with_worth c (value_or to owner) quantity n whole k in
                  record {
                    held = k.held - n * unit_of s;
                    inside = k.inside;
                    out = k.out + n * unit_of s;
                    books = record {
                      ledger =
                          subst
                            (λ (t : Table BalanceWithDust). Ledger s 0 t (k.held - n * unit_of s))
                            put_back ledger;
                      evm_row = k.books.evm_row;
                      evm_found = ground (arith, found, left, k.books.evm_found);
                      evm_holds = k.books.evm_holds;
                      transferred = sym (ap (sent_worth s) sent) ∙ paid;
                      symbol = ground (arith, found, left, k.books.symbol);
                    };
                    sum = omega (arith, covered, k.sum);
                  }
            ]
      ]
