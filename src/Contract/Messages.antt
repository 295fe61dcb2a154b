-- ===== src/Contract/Messages.antt =====
-- src/actions.cpp: process_filtered_messages, the messages that transactions send to the bridge.
use eos_evm_contract.Prelude.{
  ℕ, ◌+◌, ◌*◌, ◌%◌, ◌==◌, leb, Bool, not, ◌||◌, List, [], ◌∷◌, Result, ok, ◌>>=◌, ◌>>◌, check,
  or_fail, if◌then◌else◌,
}
use eos_evm_contract.Prelude.Int.{to_uint64}
use eos_evm_contract.Table.{find, put}
use eos_evm_contract.Bytes.{Bytes, Intx}
use eos_evm_contract.Balance.{add_amount, sub_amount}
use eos_evm_contract.Contract.{Host, Contract}
use eos_evm_contract.Config.Consensus.{get_minimum_natively_representable}
use eos_evm_contract.Transaction.{FilteredMessage, two_256}
use eos_evm_contract.Message.{Stream, Names, MessageV0, decode_message, get_account_as_name}

-- The inline action onbridgemsg to a handler.
pub record Notice : Type 0 where
  pub handler : ℕ
  pub receiver : ℕ
  pub sender : Bytes
  pub timestamp : ℕ
  pub value : Bytes
  pub contents : Bytes

module _ (x : Intx) (h : Host) where
  -- The body of the loop, once the message is decoded and its receiver known.
  unfoldable pub deliver : FilteredMessage → MessageV0 → ℕ → Contract → Result (Contract × Notice)
  deliver m decoded receiver c = do
    check (h.is_account receiver) "receiver is not account"
    r ← or_fail (find receiver c.receivers) "receiver not registered"
    check (not decoded.force_atomic || r.flags % 2 == 1) "unable to process message"
    unit ← get_minimum_natively_representable c.config
    check (leb (to_uint64 r.min_fee.amount * unit % two_256) (x.be_load m.value))
        "min_fee not covered"
    b ← or_fail (find receiver c.balances) "receiver account is not open"
    b' ← add_amount b (x.be_load m.value)
    ok (
      record c { balances = put receiver b' c.balances },
      record {
        handler = r.handler;
        receiver = receiver;
        sender = m.sender;
        timestamp = h.platform.now;
        value = m.value;
        contents = decoded.contents;
      },
    )

  -- What was credited is taken from the contract's own balance.
  unfoldable pub settle : ℕ → Contract → Result Contract
  settle sum c =
      if sum == 0
      then ok c
      else (or_fail (find h.self c.balances) "unable to find key" >>= λ b.
          sub_amount b sum >>= λ b'. ok (record c { balances = put h.self b' c.balances }))

module _ (st : Stream) (names : Names) (x : Intx) (h : Host) where
  unfoldable pub process_message : FilteredMessage → Contract → Result (Contract × Notice)
  unfolding deliver
  process_message m c = do
    found ← decode_message st x m.payload
    decoded ← or_fail found "unable to decode bridge message"
    receiver ← get_account_as_name names decoded
    deliver x h m decoded receiver c

  -- The loop, with the uint256 that accumulates the values.
  unfoldable pub message_loop :
      (FilteredMessage → Bool)
      → List FilteredMessage
      → ℕ
      → Contract
      → Result (Contract × ℕ × List Notice)
  unfolding process_message
  message_loop extra_filter [] sum c = ok (c, sum, [])
  message_loop extra_filter (m ∷ messages) sum c =
      if extra_filter m
      then (process_message m c >>= λ done.
          message_loop extra_filter messages ((sum + x.be_load m.value) % two_256) done.0
          >>= λ rest. ok (rest.0, rest.1, done.1 ∷ rest.2))
      else message_loop extra_filter messages sum c

  unfoldable pub process_filtered_messages :
      (FilteredMessage → Bool) → List FilteredMessage → Contract → Result (Contract × List Notice)
  unfolding message_loop settle
  process_filtered_messages extra_filter messages c = do
    r ← message_loop extra_filter messages 0 c
    c' ← settle x h r.1 r.0
    ok (c', r.2)
