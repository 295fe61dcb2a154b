-- ===== src/Tests/Transactions.antt =====
-- Transactions at concrete inputs, over a processor that does the same for every transaction.
use eos_evm_contract.Prelude.{
  ℕ, ◌+◌, ◌^◌, ◌≡◌, refl, true, false, none, some, Option, [], ◌∷◌, Result, ok, err, arith, length,
  take, drop, leb, if◌then◌else◌, ◌≤◌,
}
use eos_evm_contract.Prelude.Int.{◌-ℤ◌}
use eos_evm_contract.Table.{find, put}
use eos_evm_contract.Bytes.{Bytes, bytes_eq}
use eos_evm_contract.Balance.{add_amount, sub_amount, add_units, sub_units, pow10_const, pow10_loop}
use eos_evm_contract.Balance.Laws.{IsToken}
use eos_evm_contract.Config.{
  get_evm_version, default_gas_parameter, get_evm_version_and_maybe_promote,
}
use eos_evm_contract.Config.Consensus.{
  get_minimum_natively_representable, get_consensus_param_and_maybe_promote,
}
use eos_evm_contract.Config.Prices.{process_price_queue}
use eos_evm_contract.PriceQueue.{process_queue}
use eos_evm_contract.State.{Account, open_state}
use eos_evm_contract.Message.{Stream, Names}
use eos_evm_contract.Transaction.{
  Transaction, FilteredMessage, Silkworm, valid, bridge_runtime_config, get_tx, get_rlptx,
}
use eos_evm_contract.Contract.{
  Contract, raw, assert_unfrozen, get_gas_price, get_statistics, set_statistics, zero_balance,
}
use eos_evm_contract.Contract.Ledger.{row, done}
use eos_evm_contract.Contract.Rows.{credit_row, debit_row, enter_evm, leave_evm}
use eos_evm_contract.Contract.Ingress.{process_prices}
use eos_evm_contract.Contract.Egress.{
  process_egress, egress_loop, egress_object, egress_open, egress_closed, mark_messages,
  send_marked,
}
use eos_evm_contract.Contract.Execute.{
  Call, max_gas_cost, execute_tx, run_tx, admit, charge, check_result, account_tx, portion_of,
  miner_portion, refund_of, refund_gas, income_of, gas_income, record_income, pay_miner,
}
use eos_evm_contract.Contract.Execute.Flow.{Backed}
use eos_evm_contract.Contract.Execute.Conserved.{IsReserved, execute_tx-Backed}
use eos_evm_contract.Contract.Messages.{process_filtered_messages, message_loop, settle}
use eos_evm_contract.Contract.Process.{
  Outside, evmtx_v1, pushtx, process_tx, process_in, check_price, run_block, tx_event,
}
use eos_evm_contract.Contract.Process.Conserved.{IsProcessor, pushtx-Backed}
use eos_evm_contract.Tests.Samples.{
  token, asset, balance_of, contract, host, intx, asset_ops, store_bytes, load_bytes,
}

-- Account 9 sends two units to account 5, which is not open, and pays for the gas.
abbrev transaction : Transaction
transaction = record {
  nonce = 0;
  max_priority_fee_per_gas = 100000000000;
  max_fee_per_gas = 100000000000;
  gas_limit = 1000;
  to = some (5 ∷ []);
  value = 200000000000000;
  tx_data = [];
  chain_id = none;
  r = 0;
  s = 9;
}

abbrev to_five : FilteredMessage
to_five = record {
  receiver = 5 ∷ [];
  sender = 9 ∷ [];
  value = store_bytes 32 200000000000000;
  payload = 7 ∷ [];
}

abbrev holding_of : ℕ → Account
holding_of n = record { nonce = 0; balance = n; code_hash = []; incarnation = 0 }

-- Half of the gas is used: the contract's own address gets what it costs.
abbrev silkworm : Silkworm (Unit {0}) (Option ℕ) (Unit {0})
silkworm = record {
  empty_hash = [];
  lookup_known_chain = λ id. some tt;
  prepare_block_header = λ genesis self block version fee. fee;
  base_fee_per_gas = λ header. header;
  processor = λ header chain state prices. tt;
  is_special_signature = λ r s. true;
  pre_validate_transaction = λ tx header chain gas. valid;
  recover_sender = λ tx. some (tx.s ∷ []);
  is_reserved_address = λ address. true;
  extract_reserved_address = λ address. elim address [ [] ↦ none | b ∷ rest ↦ some b ];
  make_reserved_address = λ account. account ∷ [];
  set_balance = λ address v ep. ok ep;
  set_nonce = λ address n ep. ok ep;
  validate_transaction = λ tx from ep. ok valid;
  execute_transaction =
      λ tx from gas ep. ok (ep, record { success = true; cumulative_gas_used = 500 }, 0);
  priority_fee_per_gas = λ tx fee. 3;
  reserved_objects = λ ep.
      (42 ∷ [], holding_of 50000000000000)
      ∷ (5 ∷ [], holding_of 200000000000000)
      ∷ (9 ∷ [], holding_of 50000000000000)
      ∷ [];
  filtered_messages = λ ep. to_five ∷ [];
  finalize = λ header ep. ok ep;
  write_to_db = λ header ep. ok (open_state contract.evm false false);
  evm_execute = λ header chain state input gas. ok (0, []);
  encode = λ tx. tx.s ∷ [];
  decode_transaction = λ b. some transaction;
}

silkworm-IsReserved : IsReserved silkworm
unfolding bytes_eq
silkworm-IsReserved = record {
  distinct = λ ep. ((refl, (refl, tt)), ((refl, tt), (tt, tt)));
  bounded = λ ep. omega arith;
}

abbrev payer : Contract
payer = record contract {
  balances = (1, balance_of 0 0) ∷ (9, balance_of 500 3) ∷ (42, balance_of 100 60000000000000) ∷ [];
}

abbrev call : Call (Option ℕ) (Unit {0})
call = record {
  rc = bridge_runtime_config;
  miner = 1;
  header = some 150;
  chain = tt;
  gas_params = default_gas_parameter;
  tx = transaction;
}

-- The miner gets 3 for each of 500 units of gas from the contract's balance, which rolled over.
abbrev paid : Contract
paid = record payer {
  balances =
      (1, balance_of 0 1500)
      ∷ (9, balance_of 497 50000000000003)
      ∷ (42, balance_of 101 9999999998500)
      ∷ [];
  inevm = some (balance_of 800 7);
  sent = record { token = 77; to = 5; quantity = asset 2; memo = raw (7 ∷ []) } ∷ [];
  statistics = some (record {
    gas_fee_income = record { balance = asset 0; dust = 75000 };
    ingress_bridge_fee_income = zero_balance token;
  });
}

call_runs :
    execute_tx asset_ops silkworm host intx call tt payer
    ≡ ok (tt, record { success = true; cumulative_gas_used = 500 }, paid)
unfolding execute_tx run_tx admit charge check_result account_tx portion_of miner_portion refund_of
    refund_gas income_of gas_income record_income pay_miner process_egress egress_loop egress_object
    egress_open egress_closed mark_messages send_marked credit_row debit_row enter_evm leave_evm
    get_minimum_natively_representable get_evm_version get_statistics set_statistics find put
    add_amount sub_amount add_units sub_units pow10_const pow10_loop ◌-ℤ◌ bytes_eq store_bytes
    load_bytes
call_runs = refl

pub token-IsToken : IsToken token
token-IsToken = record { named = refl; coarse = omega arith }

payer-Backed : Backed token 140060000000000010 payer
payer-Backed = record {
  held = 60060000000000003;
  inside = 80000000000000007;
  out = 0;
  books = record {
    ledger =
        row {worth = 0} {total = 60060000000000003} (omega arith)
          (record { is_holding = refl; in_range = omega arith })
          (row {worth = 50000000000000003} {total = 10060000000000000} (omega arith)
            (record { is_holding = refl; in_range = omega arith })
            (row {worth = 10060000000000000} {total = 0} (omega arith)
              (record { is_holding = refl; in_range = omega arith }) done));
    evm_row = balance_of 800 7;
    evm_found = refl;
    evm_holds = record { is_holding = refl; in_range = omega arith };
    transferred = refl;
    symbol = refl;
  };
  sum = refl;
}

execute_tx-Backed_example : Backed token 140060000000000010 paid
execute_tx-Backed_example =
    execute_tx-Backed token token-IsToken asset_ops silkworm silkworm-IsReserved host intx call tt
      tt (record { success = true; cumulative_gas_used = 500 }) 140060000000000010 payer paid
      payer-Backed call_runs

-- The contract pushes the transaction to itself, so no miner is paid.
unfoldable pub read_bytes : ℕ → Bytes → Result (Bytes × Bytes)
read_bytes n b = if leb n (length b) then ok (take n b, drop n b) else err "read past the end"

pub read_lem : (n : ℕ) (b : Bytes) → n ≤ length b → read_bytes n b ≡ ok (take n b, drop n b)
unfolding read_bytes
read_lem n b h = ground arith

abbrev pub stream : Stream
stream = record { read = read_bytes; read-within = read_lem }

abbrev pub names : Names
names = record { name_of = λ text. ok (length text); to_string = λ account. [] }

abbrev pub outside : Outside (Unit {0}) (Option ℕ) (Unit {0})
outside = record {
  assets = asset_ops;
  silkworm = silkworm;
  host = record host { sender = some 42 };
  intx = intx;
  stream = stream;
  names = names;
}

pub outside-IsProcessor : IsProcessor outside
unfolding bytes_eq
outside-IsProcessor = record { reserved = silkworm-IsReserved; bounded = λ ep. omega arith }

abbrev pushed : Contract
pushed = record payer {
  balances =
      (1, balance_of 0 0)
      ∷ (9, balance_of 497 50000000000003)
      ∷ (42, balance_of 101 10000000000000)
      ∷ [];
  inevm = some (balance_of 800 7);
  sent = record { token = 77; to = 5; quantity = asset 2; memo = raw (7 ∷ []) } ∷ [];
  statistics = some (record {
    gas_fee_income = record { balance = asset 0; dust = 75000 };
    ingress_bridge_fee_income = zero_balance token;
  });
}

push_runs : pushtx outside 42 (9 ∷ []) none payer ≡ ok (pushed, evmtx_v1 1 (9 ∷ []) 150 ∷ [])
unfolding pushtx process_tx process_in check_price run_block tx_event get_tx get_rlptx
    assert_unfrozen process_prices process_price_queue process_queue
    get_evm_version_and_maybe_promote get_consensus_param_and_maybe_promote get_gas_price
    process_filtered_messages message_loop settle execute_tx run_tx admit charge check_result
    account_tx portion_of miner_portion refund_of refund_gas income_of gas_income record_income
    pay_miner process_egress egress_loop egress_object egress_open egress_closed mark_messages
    send_marked credit_row debit_row enter_evm leave_evm get_minimum_natively_representable
    get_evm_version get_statistics set_statistics find put add_amount sub_amount add_units sub_units
    pow10_const pow10_loop ◌-ℤ◌ bytes_eq store_bytes load_bytes
push_runs = refl

pushtx-Backed_example : Backed token 140060000000000010 pushed
pushtx-Backed_example =
    pushtx-Backed token token-IsToken outside outside-IsProcessor 42 (9 ∷ []) none
      140060000000000010 payer pushed (evmtx_v1 1 (9 ∷ []) 150 ∷ []) payer-Backed push_runs

-- A gas limit and a fee whose product, 2^256 + 6, does not fit: account 42 is charged 6.
abbrev costly : Transaction
costly = record transaction { gas_limit = 2; max_fee_per_gas = 2 ^ 255 + 3 }

costly_charge : max_gas_cost costly ≡ 6
costly_charge = refl

-- Before version 1 the income from two units of gas at that fee is 6, less the portion of 1.
costly_income : gas_income 0 none (some 1) costly 2 ≡ ok 5
unfolding gas_income
costly_income = refl
