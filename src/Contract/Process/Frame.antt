-- ===== src/Contract/Process/Frame.antt =====
-- src/actions.cpp: what the bridge messages and the promotion of settings leave as it was.
use eos_evm_contract.Prelude.{
  ℕ, ◌+◌, ◌%◌, ◌^◌, ◌<◌, ◌≡◌, refl, Bool, List, [], ◌∷◌, ok, arith, ◌==◌, inl, inr, Bool-cases,
  Option-cases, Result-cases, sym, subst, ap, ◌∙◌,
}
use eos_evm_contract.Bytes.{Intx}
use eos_evm_contract.Balance.{Symbol, sub_amount}
use eos_evm_contract.Balance.Laws.{IsToken}
use eos_evm_contract.Table.{find}
use eos_evm_contract.Config.{
  Platform, ConfigWrapper, GasParameter, get_evm_version_and_maybe_promote,
}
use eos_evm_contract.Config.Consensus.{get_consensus_param_and_maybe_promote}
use eos_evm_contract.Message.{Stream, Names}
use eos_evm_contract.Transaction.{FilteredMessage, two_256}
use eos_evm_contract.Contract.{Host, Contract}
use eos_evm_contract.Contract.Messages.{
  Notice, process_message, message_loop, settle, process_filtered_messages,
}
use eos_evm_contract.Contract.Conservation.{
  credited, process_message_parts, process_filtered_messages-Ledger,
}
use eos_evm_contract.Contract.Books.{Books-kept, Books-with_balances}
use eos_evm_contract.Contract.Execute.Flow.{Backed}

-- Two contracts that differ in the balances only, as far as books go.
pub record SameRest (c c' : Contract) : Type 0 where
  pub evm : c.inevm ≡ c'.inevm
  pub sent : c.sent ≡ c'.sent
  pub config : c.config ≡ c'.config

module _ (s : Symbol) (token : IsToken s) (st : Stream) (names : Names) (x : Intx) (h : Host) where
  message_loop-SameRest :
      (extra_filter : FilteredMessage → Bool) (messages : List FilteredMessage) (sum sum' : ℕ)
      (c c' : Contract) (notices : List Notice)
      → message_loop st names x h extra_filter messages sum c ≡ ok (c', sum', notices)
      → SameRest c c'
  unfolding message_loop
  message_loop-SameRest f [] sum sum' c c' notices e =
      let same : c ≡ c' = ground arith in
      subst (SameRest c) same (record { evm = refl; sent = refl; config = refl })
  message_loop-SameRest f (m ∷ messages) sum sum' c c' notices e = elim (Bool-cases (f m)) [
    | inr out ↦ message_loop-SameRest f messages sum sum' c c' notices (ground (arith, out))
    | inl taken ↦ elim (Result-cases (process_message st names x h m c)) [
      | inr (text, failed) ↦ absurd (ground (arith, taken, failed))
      | inl ((d, n), ran) ↦
          elim (Result-cases
            (message_loop st names x h f messages ((sum + x.be_load m.value) % two_256) d)) [
              | inr (text, failed) ↦ absurd (ground (arith, taken, ran, failed))
              | inl ((d', total, later), run) ↦
                  let (receiver, b, b', found, added, put_back) =
                    process_message_parts s token st names x h m c d n ran in
                  let rest =
                    message_loop-SameRest f messages ((sum + x.be_load m.value) % two_256) total d
                      d' later run in
                  let same : d' ≡ c' = ground (arith, taken, ran, run) in
                  subst (SameRest c) same (record {
                    evm = sym (ap (λ (k : Contract). k.inevm) put_back) ∙ rest.evm;
                    sent = sym (ap (λ (k : Contract). k.sent) put_back) ∙ rest.sent;
                    config = sym (ap (λ (k : Contract). k.config) put_back) ∙ rest.config;
                  })
            ]
    ]
  ]

  settle-SameRest : (sum : ℕ) (c c' : Contract) → settle x h sum c ≡ ok c' → SameRest c c'
  unfolding settle
  settle-SameRest sum c c' e = elim (Bool-cases (sum == 0)) [
    | inl nothing ↦ record {
      evm = ground (arith, nothing);
      sent = ground (arith, nothing);
      config = ground (arith, nothing);
    }
    | inr more ↦ elim (Option-cases (find h.self c.balances)) [
      | inl missing ↦ absurd (ground (arith, more, missing))
      | inr (b, found) ↦ elim (Result-cases (sub_amount b sum)) [
        | inr (text, failed) ↦ absurd (ground (arith, more, found, failed))
        | inl (b', taken) ↦ record {
          evm = ground (arith, more, found, taken);
          sent = ground (arith, more, found, taken);
          config = ground (arith, more, found, taken);
        }
      ]
    ]
  ]

  pub process_filtered_messages-Backed :
      (extra_filter : FilteredMessage → Bool) (messages : List FilteredMessage) (worth : ℕ)
      (c c' : Contract) (notices : List Notice)
      → Backed s worth c
      → credited x extra_filter messages < 2 ^ 256
      → process_filtered_messages st names x h extra_filter messages c ≡ ok (c', notices)
      → Backed s worth c'
  unfolding process_filtered_messages
  process_filtered_messages-Backed f messages worth c c' notices k small e =
      elim (Result-cases (message_loop st names x h f messages 0 c)) [
        | inr (text, failed) ↦ absurd (ground (arith, failed))
        | inl ((d, sum, later), run) ↦ elim (Result-cases (settle x h sum d)) [
          | inr (text, failed) ↦ absurd (ground (arith, run, failed))
          | inl (d', settled) ↦
              let same : d' ≡ c' = ground (arith, run, settled) in
              let first = message_loop-SameRest f messages 0 sum c d later run in
              let second = settle-SameRest sum d d' settled in
              let ledger =
                process_filtered_messages-Ledger s token st names x h f messages k.held c c' notices
                  k.books.ledger small e in
              record {
                held = k.held;
                inside = k.inside;
                out = k.out;
                books =
                    Books-kept s (record c { balances = c'.balances }) c' k.held k.inside k.out
                      (Books-with_balances s c'.balances c k.held k.held k.inside k.out k.books
                        ledger)
                      refl (first.evm ∙ second.evm ∙ ap (λ (k : Contract). k.inevm) same)
                      (first.sent ∙ second.sent ∙ ap (λ (k : Contract). k.sent) same)
                      (ap (λ (g : ConfigWrapper). g.ingress_bridge_fee.symbol)
                        (first.config ∙ second.config ∙ ap (λ (k : Contract). k.config) same));
                sum = k.sum;
              }
        ]
      ]

-- Promotions leave the fee, and so the symbol, of the configuration.
pub get_evm_version_keeps :
    (e : Platform) (w w' : ConfigWrapper) (version : ℕ)
    → get_evm_version_and_maybe_promote e w ≡ ok (w', version)
    → w.ingress_bridge_fee ≡ w'.ingress_bridge_fee
unfolding get_evm_version_and_maybe_promote
get_evm_version_keeps e w w' version run = ground arith

pub get_consensus_param_keeps :
    (e : Platform) (w w' : ConfigWrapper) (g : GasParameter) (promoted : Bool)
    → get_consensus_param_and_maybe_promote e w ≡ ok (w', g, promoted)
    → w.ingress_bridge_fee ≡ w'.ingress_bridge_fee
unfolding get_consensus_param_and_maybe_promote
get_consensus_param_keeps e w w' g promoted run = ground arith
