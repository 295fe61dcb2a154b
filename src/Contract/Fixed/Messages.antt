-- ===== src/Contract/Fixed/Messages.antt =====
-- src/actions.cpp: bridge messages, for the configuration and the nonces.
use eos_evm_contract.Prelude.{
  ℕ, ◌%◌, ◌+◌, ◌≡◌, Bool, List, [], ◌∷◌, ok, arith, ◌∙◌, inl, inr, Result-cases, Bool-cases,
}
use eos_evm_contract.Bytes.{Intx}
use eos_evm_contract.Transaction.{two_256}
use eos_evm_contract.Message.{Stream, Names}
use eos_evm_contract.Transaction.{FilteredMessage}
use eos_evm_contract.Contract.{Host, Contract}
use eos_evm_contract.Contract.Messages.{
  Notice, deliver, process_message, message_loop, settle, process_filtered_messages,
}
use eos_evm_contract.Contract.Fixed.{kept_of}

module _ (st : Stream) (names : Names) (x : Intx) (h : Host) where
  process_message-kept_of :
      (m : FilteredMessage) (c c' : Contract) (notice : Notice)
      → process_message st names x h m c ≡ ok (c', notice)
      → kept_of c' ≡ kept_of c
  unfolding process_message deliver
  process_message-kept_of m c c' notice run = ground (arith, run)

  message_loop-kept_of :
      (f : FilteredMessage → Bool) (messages : List FilteredMessage) (sum sum' : ℕ)
      (c c' : Contract) (notices : List Notice)
      → message_loop st names x h f messages sum c ≡ ok (c', sum', notices)
      → kept_of c' ≡ kept_of c
  unfolding message_loop
  message_loop-kept_of f [] sum sum' c c' notices run = ground (arith, run)
  message_loop-kept_of f (m ∷ messages) sum sum' c c' notices run = elim (Bool-cases (f m)) [
    | inr out ↦ message_loop-kept_of f messages sum sum' c c' notices (ground (arith, out))
    | inl taken ↦ elim (Result-cases (process_message st names x h m c)) [
      | inr (text, failed) ↦ absurd (ground (arith, taken, failed))
      | inl ((d, n), ran) ↦
          elim (Result-cases
            (message_loop st names x h f messages ((sum + x.be_load m.value) % two_256) d)) [
              | inr (text, failed) ↦ absurd (ground (arith, taken, ran, failed))
              | inl ((d', total, later), rest) ↦
                  let same : kept_of c' ≡ kept_of d' = ground (arith, taken, ran, rest) in
                  same
                  ∙ message_loop-kept_of f messages ((sum + x.be_load m.value) % two_256) total d d'
                      later rest
                  ∙ process_message-kept_of m c d n ran
            ]
    ]
  ]

  settle-kept_of : (sum : ℕ) (c c' : Contract) → settle x h sum c ≡ ok c' → kept_of c' ≡ kept_of c
  unfolding settle
  settle-kept_of sum c c' run = ground (arith, run)

  pub process_filtered_messages-kept_of :
      (f : FilteredMessage → Bool) (messages : List FilteredMessage) (c c' : Contract)
      (notices : List Notice)
      → process_filtered_messages st names x h f messages c ≡ ok (c', notices)
      → kept_of c' ≡ kept_of c
  unfolding process_filtered_messages
  process_filtered_messages-kept_of f messages c c' notices run =
      elim (Result-cases (message_loop st names x h f messages 0 c)) [
        | inr (text, failed) ↦ absurd (ground (arith, failed))
        | inl ((d, sum, later), ran) ↦
            settle-kept_of sum d c' (ground (arith, ran))
            ∙ message_loop-kept_of f messages 0 sum c d later ran
      ]
