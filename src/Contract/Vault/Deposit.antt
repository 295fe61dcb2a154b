-- ===== src/Contract/Vault/Deposit.antt =====
-- src/actions.cpp: what a token transfer into the contract does to its books.
use eos_evm_contract.Prelude.{
  ℕ, ◌+◌, ◌*◌, ◌/◌, ◌≤◌, ◌≡◌, refl, some, Option, not, ◌||◌, ◌&&◌, ok, arith, Option-cases,
  Result-cases, Bool-cases, inl, inr, ap, sym, subst, ◌∙◌, ◌==◌, length, if◌then◌else◌,
}
use eos_evm_contract.Prelude.Int.{ℤ, pos, ◌+ℤ◌}
use eos_evm_contract.Table.{find, put}
use eos_evm_contract.Bytes.{Bytes}
use eos_evm_contract.Balance.{Asset, AssetOps, Symbol, BalanceWithDust, max_amount}
use eos_evm_contract.Balance.Laws.{unit_of}
use eos_evm_contract.Config.{get_evm_version}
use eos_evm_contract.Contract.{Host, Contract, get_statistics, set_statistics}
use eos_evm_contract.Contract.Accounts.{get_and_increment_nonce}
use eos_evm_contract.Contract.Ingress.{
  Parsing, Dispatch, process_prices, credit, handle_account_transfer, record_fee, bridge_in,
  handle_evm_transfer, is_evm_memo, receive, transfer,
}
use eos_evm_contract.Contract.Ledger.{Holds, replace_lem}
use eos_evm_contract.Contract.Ledger.Change.{Holds-added}
use eos_evm_contract.Contract.Execute.Flow.{Backed}
use eos_evm_contract.Contract.Process.Conserved.{process_prices-Backed}
use eos_evm_contract.Contract.Calls.Conserved.{Backed-kept, get_and_increment_nonce-Backed}
use eos_evm_contract.Contract.Vault.{is_holding, pos_of, more, Backed-with_balances}

record_fee-Backed :
    (s : Symbol) (worth : ℕ) (a : AssetOps) (p : Parsing) (h : Host) (c c' : Contract)
    → Backed s worth c
    → record_fee a p h c ≡ ok c'
    → Backed s worth c'
unfolding record_fee get_statistics set_statistics
record_fee-Backed s worth a p h c c' k e =
    Backed-kept s worth c c' k (ground arith) (ground arith) (ground arith) (ground arith)

-- What a transfer of `n` adds: nothing where it is not for the contract, or is a plain payment of the
-- token contract; else the whole.
abbrev pub deposited : Host → ℕ → ℕ → ℕ → Bytes → Contract → ℕ
deposited h n from to memo c =
    if (not (to == h.self) || from == h.self)
      || (length memo == 0 && from == c.config.token_contract)
    then 0
    else n

module _ (s : Symbol) (worth : ℕ) (a : AssetOps) (p : Parsing) (h : Host) (quantity : Asset) (n : ℕ)
    (whole : quantity.amount ≡ pos n) where
  -- A row to which the quantity was added.
  deposit_row-Backed :
      (owner : ℕ) (b : BalanceWithDust) (sum : Asset) (c : Contract)
      → Backed s worth c
      → find owner c.balances ≡ some b
      → a.add b.balance quantity ≡ ok sum
      → Backed s
          (worth + n * unit_of s)
          (record c { balances = put owner (record b { balance = sum }) c.balances })
  deposit_row-Backed owner b sum c k found added =
      let (own, others, holds, split, change) = replace_lem s owner b k.books.ledger found in
      let laws = a.add-eq-ok b.balance quantity sum added in
      let symbol = laws.1 ∙ ap (λ (b : BalanceWithDust). b.balance.symbol) holds.is_holding in
      let amount =
        laws.2
        ∙ ap (λ (t : ℤ). t +ℤ quantity.amount) (pos_of s b own holds)
        ∙ ap (λ (t : ℤ). pos (own / unit_of s) +ℤ t) whole
        ∙ more s (own / unit_of s) n in
      let within : own / unit_of s + n ≤ max_amount =
        ground (arith, amount, a.add-within b.balance quantity sum added) in
      let is_sum = is_holding s b sum own (own / unit_of s + n) holds symbol amount in
      let ledger =
        change (record b { balance = sum }) (own + n * unit_of s)
          (subst (λ (b : BalanceWithDust). Holds s b (own + n * unit_of s)) (sym is_sum)
            (Holds-added s own n within)) in
      Backed-with_balances s worth c
        (record c { balances = put owner (record b { balance = sum }) c.balances }) k
        (worth + n * unit_of s) (own + n * unit_of s + others) ledger refl refl refl
        (omega (arith, split, k.sum))

  handle_account_transfer-Backed :
      (memo : Bytes) (c c' : Contract)
      → Backed s worth c
      → handle_account_transfer a p h quantity memo c ≡ ok c'
      → Backed s (worth + n * unit_of s) c'
  unfolding handle_account_transfer credit
  handle_account_transfer-Backed memo c c' k e = elim (Result-cases (p.names.name_of memo)) [
    | inr (text, failed) ↦ absurd (ground (arith, failed))
    | inl (owner, named) ↦ elim (Option-cases (find owner (process_prices h c).balances)) [
      | inl missing ↦ absurd (ground (arith, named, missing))
      | inr (b, found) ↦ elim (Result-cases (a.add b.balance quantity)) [
        | inr (text, failed) ↦ absurd (ground (arith, named, found, failed))
        | inl (sum, added) ↦
            let ends : record (process_prices h c) {
              balances = put owner (record b { balance = sum }) (process_prices h c).balances;
            }
                ≡ c' =
              ground (arith, named, found, added) in
            subst (Backed s (worth + n * unit_of s)) ends (
              deposit_row-Backed owner b sum (process_prices h c)
                (process_prices-Backed s worth h c k) found added)
      ]
    ]
  ]

  bridge_in-Backed :
      (version : ℕ) (memo : Bytes) (c c' : Contract) (d : Dispatch)
      → Backed s worth c
      → bridge_in a p h version quantity memo c ≡ ok (c', d)
      → Backed s (worth + n * unit_of s) c'
  unfolding bridge_in
  bridge_in-Backed version memo c c' d k e = elim (Option-cases (find h.self c.balances)) [
    | inl missing ↦ absurd (ground (arith, missing))
    | inr (b, found) ↦ elim (Result-cases (a.add b.balance quantity)) [
      | inr (text, failed) ↦ absurd (ground (arith, found, failed))
      | inl (sum, added) ↦ elim (Result-cases (a.sub quantity c.config.ingress_bridge_fee)) [
        | inr (text, failed) ↦ absurd (ground (arith, found, added, failed))
        | inl (rest, taken) ↦
            let paid = record c { balances = put h.self (record b { balance = sum }) c.balances } in
            elim (Result-cases (record_fee a p h paid)) [
              | inr (text, failed) ↦ absurd (ground (arith, found, added, taken, failed))
              | inl (c2, noted) ↦ elim (Result-cases (get_and_increment_nonce h.self c2)) [
                | inr (text, failed) ↦ absurd (ground (arith, found, added, taken, noted, failed))
                | inl ((c3, nonce), used) ↦
                    let same : c3 ≡ c' = ground (arith, found, added, taken, noted, used) in
                    let credited = deposit_row-Backed h.self b sum c k found added in
                    let total = worth + n * unit_of s in
                    subst (Backed s total) same (
                      get_and_increment_nonce-Backed s total h.self nonce c2 c3
                        (record_fee-Backed s total a p h paid c2 credited noted) used)
              ]
            ]
      ]
    ]
  ]

  receive-Backed :
      (memo : Bytes) (c c' : Contract) (d : Option Dispatch)
      → Backed s worth c
      → receive a p h quantity memo c ≡ ok (c', d)
      → Backed s (worth + n * unit_of s) c'
  unfolding receive handle_evm_transfer
  receive-Backed memo c c' d k e = elim (Bool-cases (is_evm_memo a p h memo)) [
    | inl to_evm ↦ elim (Result-cases (handle_evm_transfer a p h quantity memo c)) [
      | inr (text, failed) ↦ absurd (ground (arith, to_evm, failed))
      | inl ((c1, d1), ran) ↦
          let same : c1 ≡ c' = ground (arith, to_evm, ran) in
          subst (Backed s (worth + n * unit_of s)) same (
            bridge_in-Backed (get_evm_version h.platform c.config) memo (process_prices h c) c1 d1
              (process_prices-Backed s worth h c k) ran)
    ]
    | inr other ↦ elim (Result-cases (handle_account_transfer a p h quantity memo c)) [
      | inr (text, failed) ↦ absurd (ground (arith, other, failed))
      | inl (c1, ran) ↦
          let same : c1 ≡ c' = ground (arith, other, ran) in
          subst (Backed s (worth + n * unit_of s)) same
            (handle_account_transfer-Backed memo c c1 k ran)
    ]
  ]

  pub transfer-Backed :
      (from to : ℕ) (memo : Bytes) (c c' : Contract) (d : Option Dispatch)
      → Backed s worth c
      → transfer a p h from to quantity memo c ≡ ok (c', d)
      → Backed s (worth + deposited h n from to memo c * unit_of s) c'
  unfolding transfer
  transfer-Backed from to memo c c' d k e =
      elim (Bool-cases (not (to == h.self) || from == h.self)) [
        | inl ignored ↦
            let same : c ≡ c' = ground (arith, ignored) in
            subst
              (λ (c' : Contract). Backed s (worth + deposited h n from to memo c * unit_of s) c')
              same (rw ignored (subst (λ (w : ℕ). Backed s w c) (omega arith) k))
        | inr ours ↦ elim (Bool-cases (length memo == 0 && from == c.config.token_contract)) [
          | inl plain ↦
              let same : c ≡ c' = ground (arith, ours, plain) in
              subst
                (λ (c' : Contract). Backed s (worth + deposited h n from to memo c * unit_of s) c')
                same (rw (ours, plain) (subst (λ (w : ℕ). Backed s w c) (omega arith) k))
          | inr paid ↦ rw (ours, paid) (receive-Backed memo c c' d k (ground (arith, ours, paid)))
        ]
      ]
