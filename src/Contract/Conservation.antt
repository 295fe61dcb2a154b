-- ===== src/Contract/Conservation.antt =====
-- src/actions.cpp: the sum of all balances, in EVM units, under the bridge messages.
use eos_evm_contract.Prelude.{
  ℕ, ◌+◌, ◌-◌, ◌%◌, ◌^◌, ◌<◌, ◌≡◌, Bool, none, some, List, [], ◌∷◌, ok, arith, if◌then◌else◌,
  Result-cases, Option-cases, Bool-cases, inl, inr, ◌==◌, sym, subst,
}
use eos_evm_contract.Table.{Table, find, put}
use eos_evm_contract.Bytes.{Intx}
use eos_evm_contract.Balance.{Symbol, BalanceWithDust, add_amount, sub_amount}
use eos_evm_contract.Balance.Laws.{IsToken}
use eos_evm_contract.Message.{Stream, Names, MessageV0, decode_message, get_account_as_name}
use eos_evm_contract.Transaction.{FilteredMessage}
use eos_evm_contract.Contract.{Host, Contract}
use eos_evm_contract.Contract.Messages.{
  Notice, deliver, process_message, message_loop, settle, process_filtered_messages,
}
use eos_evm_contract.Contract.Ledger.{Ledger, replace_lem, add_amount-Holds, sub_amount-Holds}

-- The value of the messages that pass the filter.
abbrev pub credited : Intx → (FilteredMessage → Bool) → List FilteredMessage → ℕ
credited x extra_filter [] = 0
credited x extra_filter (m ∷ messages) =
    (if extra_filter m then x.be_load m.value else 0) + credited x extra_filter messages

deliver_parts :
    (x : Intx) (h : Host) (m : FilteredMessage) (decoded : MessageV0) (receiver : ℕ)
    (c c' : Contract) (n : Notice)
    → deliver x h m decoded receiver c ≡ ok (c', n)
    → (b : BalanceWithDust) × (b' : BalanceWithDust) × (find receiver c.balances ≡ some b)
      × (add_amount b (x.be_load m.value) ≡ ok b')
      × (c' ≡ record c { balances = put receiver b' c.balances })
unfolding deliver
deliver_parts x h m decoded receiver c c' n e = elim (Option-cases (find receiver c.balances)) [
  | inl missing ↦ absurd (ground (arith, missing))
  | inr (b, found) ↦ elim (Result-cases (add_amount b (x.be_load m.value))) [
    | inr (text, failed) ↦ absurd (ground (arith, found, failed))
    | inl (b', added) ↦ (b, b', found, added, ground (arith, found, added))
  ]
]

module _ (s : Symbol) (token : IsToken s) (st : Stream) (names : Names) (x : Intx) (h : Host) where
  pub process_message_parts :
      (m : FilteredMessage) (c c' : Contract) (n : Notice)
      → process_message st names x h m c ≡ ok (c', n)
      → (receiver : ℕ) × (b : BalanceWithDust) × (b' : BalanceWithDust) × (find receiver c.balances
          ≡ some b)
        × (add_amount b (x.be_load m.value) ≡ ok b')
        × (c' ≡ record c { balances = put receiver b' c.balances })
  unfolding process_message
  process_message_parts m c c' n e = elim (Result-cases (decode_message st x m.payload)) [
    | inr (text, failed) ↦ absurd (ground (arith, failed))
    | inl (none, run) ↦ absurd (ground (arith, run))
    | inl (some decoded, run) ↦ elim (Result-cases (get_account_as_name names decoded)) [
      | inr (text, failed) ↦ absurd (ground (arith, run, failed))
      | inl (receiver, named) ↦
          let (b, b', found, added, put_back) =
            deliver_parts x h m decoded receiver c c' n (ground (arith, run, named)) in
          (receiver, b, b', found, added, put_back)
    ]
  ]

  process_message_total :
      (m : FilteredMessage) (total : ℕ) (c c' : Contract) (n : Notice)
      → Ledger s 0 c.balances total
      → process_message st names x h m c ≡ ok (c', n)
      → Ledger s 0 c'.balances (x.be_load m.value + total)
  process_message_total m total c c' n ledger e =
      let (receiver, b, b', found, added, put_back) = process_message_parts m c c' n e in
      let (worth, others, holds, split, change) = replace_lem s receiver b ledger found in
      let sum : worth + x.be_load m.value + others ≡ x.be_load m.value + total =
        omega (arith, split) in
      subst (λ (d : Contract). Ledger s 0 d.balances (x.be_load m.value + total)) (sym put_back)
        (subst (λ (n : ℕ). Ledger s 0 (put receiver b' c.balances) n) sum
          (change b' (worth + x.be_load m.value)
            (add_amount-Holds s token b b' worth _ holds added)))

  settle_total :
      (total sum : ℕ) (c c' : Contract)
      → Ledger s 0 c.balances (sum + total)
      → settle x h sum c ≡ ok c'
      → Ledger s 0 c'.balances total
  unfolding settle
  settle_total total sum c c' ledger e = elim (Bool-cases (sum == 0)) [
    | inl nothing ↦
        let same : c ≡ c' = ground (arith, nothing) in
        let zero : sum + total ≡ total = ground (arith, nothing) in
        subst (λ (d : Contract). Ledger s 0 d.balances total) same
          (subst (λ (n : ℕ). Ledger s 0 c.balances n) zero ledger)
    | inr more ↦ elim (Option-cases (find h.self c.balances)) [
      | inl missing ↦ absurd (ground (arith, more, missing))
      | inr (b, found) ↦ elim (Result-cases (sub_amount b sum)) [
        | inr (text, failed) ↦ absurd (ground (arith, more, found, failed))
        | inl (b', taken) ↦
            let put_back : put h.self b' c.balances ≡ c'.balances =
              ground (arith, more, found, taken) in
            let (worth, others, holds, split, change) = replace_lem s h.self b ledger found in
            let (within, holds') = sub_amount-Holds s token b b' worth sum holds taken in
            let rest : worth - sum + others ≡ total = omega (arith, split, within) in
            subst (λ (t : Table BalanceWithDust). Ledger s 0 t total) put_back
              (subst (λ (n : ℕ). Ledger s 0 (put h.self b' c.balances) n) rest
                (change b' (worth - sum) holds'))
      ]
    ]
  ]

  message_loop_total :
      (extra_filter : FilteredMessage → Bool) (messages : List FilteredMessage) (total sum sum' : ℕ)
      (c c' : Contract) (notices : List Notice)
      → Ledger s 0 c.balances total
      → sum + credited x extra_filter messages < 2 ^ 256
      → message_loop st names x h extra_filter messages sum c ≡ ok (c', sum', notices)
      → Ledger s 0 c'.balances (credited x extra_filter messages + total)
        × (sum' ≡ sum + credited x extra_filter messages)
  unfolding message_loop
  message_loop_total f [] total sum sum' c c' notices ledger small e =
      let same : (c ≡ c') × (sum ≡ sum') = ground arith in
      (
        subst (λ (d : Contract). Ledger s 0 d.balances (0 + total)) same.0
            (subst (λ (n : ℕ). Ledger s 0 c.balances n) (omega arith) ledger),
        omega (arith, same.1),
      )
  message_loop_total f (m ∷ messages) total sum sum' c c' notices ledger small e =
      elim (Bool-cases (f m)) [
        | inr out ↦
            let skipped : credited x f (m ∷ messages) ≡ credited x f messages =
              rw out (omega arith) in
            let rest =
              message_loop_total f messages total sum sum' c c' notices ledger
                (omega (arith, small, skipped)) (ground (arith, out)) in
            (
              subst (λ (n : ℕ). Ledger s 0 c'.balances (n + total)) (sym skipped) rest.0,
              omega (arith, skipped, rest.1),
            )
        | inl taken ↦ elim (Result-cases (process_message st names x h m c)) [
          | inr (text, failed) ↦ absurd (ground (arith, taken, failed))
          | inl ((d, n), ran) ↦
              let v = x.be_load m.value in
              let counted : credited x f (m ∷ messages) ≡ v + credited x f messages = rw taken in
              let step = process_message_total m total c d n ledger ran in
              let exact : (sum + v) % 2 ^ 256 ≡ sum + v = omega (arith, small, counted) in
              elim (Result-cases (message_loop st names x h f messages ((sum + v) % 2 ^ 256) d)) [
                | inr (text, failed) ↦ absurd (ground (arith, taken, ran, failed))
                | inl ((d', total', later), run) ↦
                    let ends : (d' ≡ c') × (total' ≡ sum') = ground (arith, taken, ran, run) in
                    let rest =
                      message_loop_total f messages (v + total) ((sum + v) % 2 ^ 256) total' d d'
                        later step (omega (arith, small, counted, exact)) run in
                    let all : credited x f messages + (v + total)
                        ≡ credited x f (m ∷ messages) + total =
                      omega (arith, counted) in
                    (
                      subst
                          (λ (b : Contract).
                            Ledger s 0 b.balances (credited x f (m ∷ messages) + total))
                          ends.0 (subst (λ (n : ℕ). Ledger s 0 d'.balances n) all rest.0),
                      omega (arith, ends.1, rest.1, exact, counted),
                    )
              ]
        ]
      ]

  -- Bridge messages that are processed move value between the balances and make none: with every
  -- balance in range, all balances together are worth as many EVM units after the messages as before,
  -- and every balance is in range again; the values of the messages sum up to less than 2^256.
  pub process_filtered_messages-Ledger :
      (extra_filter : FilteredMessage → Bool) (messages : List FilteredMessage) (total : ℕ)
      (c c' : Contract) (notices : List Notice)
      → Ledger s 0 c.balances total
      → credited x extra_filter messages < 2 ^ 256
      → process_filtered_messages st names x h extra_filter messages c ≡ ok (c', notices)
      → Ledger s 0 c'.balances total
  unfolding process_filtered_messages
  process_filtered_messages-Ledger f messages total c c' notices ledger small e =
      elim (Result-cases (message_loop st names x h f messages 0 c)) [
        | inr (text, failed) ↦ absurd (ground (arith, failed))
        | inl ((d, sum, later), run) ↦
            let (credits, is_sum) =
              message_loop_total f messages total 0 sum c d later ledger (omega (arith, small))
                run in
            elim (Result-cases (settle x h sum d)) [
              | inr (text, failed) ↦ absurd (ground (arith, run, failed))
              | inl (d', settled) ↦
                  let ends : d' ≡ c' = ground (arith, run, settled) in
                  let all : credited x f messages ≡ sum = omega (arith, is_sum) in
                  subst (λ (b : Contract). Ledger s 0 b.balances total) ends
                    (settle_total total sum d d'
                      (subst (λ (n : ℕ). Ledger s 0 d.balances (n + total)) all credits) settled)
            ]
      ]
