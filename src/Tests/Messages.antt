-- ===== src/Tests/Messages.antt =====
-- The bridge messages at a concrete input.
use eos_evm_contract.Prelude.{ℕ, ◌≡◌, ◌++◌, refl, true, [], ◌∷◌, ok, arith, replicate}
use eos_evm_contract.Prelude.Int.{◌-ℤ◌}
use eos_evm_contract.Table.{find, put}
use eos_evm_contract.Balance.{add_amount, sub_amount, add_units, sub_units, pow10_const, pow10_loop}
use eos_evm_contract.Contract.{Contract}
use eos_evm_contract.Bytes.{Bytes, bytes_eq}
use eos_evm_contract.Transaction.{FilteredMessage}
use eos_evm_contract.Message.{
  Names, message_id, decode_message, decode_message_v0, read_word, read_length, read_padded,
  get_account_as_name,
}
use eos_evm_contract.Tests.Transactions.{stream, read_bytes}
use eos_evm_contract.Config.Consensus.{get_minimum_natively_representable}
use eos_evm_contract.Contract.Messages.{
  Notice, process_filtered_messages, message_loop, process_message, deliver, settle,
}
use eos_evm_contract.Contract.Ledger.{Ledger, done, row}
use eos_evm_contract.Contract.Conservation.{process_filtered_messages-Ledger}
use eos_evm_contract.Tests.Samples.{
  token, balance_of, contract, host, asset, intx, store_bytes, load_bytes,
}

-- Account 9 is a receiver with a fee of 1 unit of the token's last digit; 42 is the contract.
abbrev before : Contract
before = record contract {
  balances = (9, balance_of 5 7) ∷ (42, balance_of 10 0) ∷ [];
  receivers = (9, record { handler = 8; min_fee = asset 1; flags = 1 }) ∷ [];
}

-- The call data of bridgeMsgV0("nine", true, ""), where the account is 4 characters long.
abbrev word : ℕ → Bytes
word v = store_bytes 32 v

unfoldable pub call_data : Bytes
unfolding store_bytes
call_data =
    message_id
    ++ (word 0x60
        ++ (word 1 ++ (word 0xA0 ++ (word 4 ++ ((9 ∷ 9 ∷ 9 ∷ 9 ∷ replicate 28 0) ++ word 0)))))

-- A name is the sum of its characters.
abbrev names : Names
names = record { name_of = λ text. ok 9; to_string = λ account. 9 ∷ 9 ∷ 9 ∷ 9 ∷ [] }

abbrev message : FilteredMessage
message = record {
  receiver = 42 ∷ [];
  sender = [];
  value = store_bytes 32 200000000000003;
  payload = call_data;
}

abbrev after : Contract
after = record before { balances = (9, balance_of 7 10) ∷ (42, balance_of 7 99999999999997) ∷ [] }

abbrev notice : Notice
notice = record {
  handler = 8;
  receiver = 9;
  sender = [];
  timestamp = 100000000;
  value = store_bytes 32 200000000000003;
  contents = [];
}

messages_run :
    process_filtered_messages stream names intx host (λ m. true) (message ∷ []) before
    ≡ ok (after, notice ∷ [])
unfolding process_filtered_messages message_loop process_message deliver settle find put add_amount
    sub_amount add_units sub_units pow10_const pow10_loop get_minimum_natively_representable
    store_bytes load_bytes ◌-ℤ◌ decode_message decode_message_v0 read_word read_length read_padded
    get_account_as_name bytes_eq call_data read_bytes
messages_run = refl

before-Ledger : Ledger token 0 before.balances 1500000000000007
before-Ledger =
    row {worth = 500000000000007} {total = 1000000000000000} (omega arith)
      (record { is_holding = refl; in_range = omega arith })
      (row {worth = 1000000000000000} {total = 0} (omega arith)
        (record { is_holding = refl; in_range = omega arith }) done)

process_filtered_messages-Ledger_example : Ledger token 0 after.balances 1500000000000007
process_filtered_messages-Ledger_example =
    process_filtered_messages-Ledger token (record { named = refl; coarse = omega arith }) stream
      names intx host (λ m. true) (message ∷ []) 1500000000000007 before after (notice ∷ [])
      before-Ledger (unfold store_bytes load_bytes in omega arith) messages_run
