-- ===== src/Tests/Funds.antt =====
-- The start of the contract and the transfers into it at concrete inputs.
use eos_evm_contract.Prelude.{
  ℕ, ◌*◌, ◌<◌, ◌≡◌, refl, true, none, some, [], ◌∷◌, ok, err, arith, ◌==◌, length,
}
use eos_evm_contract.Prelude.Int.{pos, ◌+ℤ◌, ◌-ℤ◌}
use eos_evm_contract.Table.{find, find_by, put}
use eos_evm_contract.Bytes.{Bytes}
use eos_evm_contract.Balance.{BalanceWithDust, pow10_loop, pow10_const}
use eos_evm_contract.Balance.Laws.{unit_of}
use eos_evm_contract.Config.{
  set_version, set_chainid, set_genesis_time, set_ingress_bridge_fee, set_gas_price,
  get_evm_version,
}
use eos_evm_contract.Config.Fees.{
  FeeParameters, set_fee_parameters, set_fee_gas_price, set_fee_miner_cut, set_fee_ingress,
}
use eos_evm_contract.Config.Row.{load}
use eos_evm_contract.Config.Prices.{process_price_queue}
use eos_evm_contract.Config.Consensus.{get_minimum_natively_representable, get_consensus_param}
use eos_evm_contract.PriceQueue.{process_queue}
use eos_evm_contract.State.{find_account}
use eos_evm_contract.Contract.{
  Contract, zero_balance, assert_unfrozen, get_gas_price, get_statistics, set_statistics,
}
use eos_evm_contract.Contract.Accounts.{open_internal_balance, get_and_increment_nonce}
use eos_evm_contract.Contract.Init.{init, init_config}
use eos_evm_contract.Contract.Startup.{next_action, init-once}
use eos_evm_contract.Contract.Ingress.{
  Parsing, Dispatch, handle_evm_transfer, handle_account_transfer, credit, bridge_in, record_fee,
  process_prices, calculate_gas_limit,
}
use eos_evm_contract.Transaction.{bridge_runtime_config}
use eos_evm_contract.Contract.Deposits.{handle_evm_transfer-value, handle_account_transfer-credits}
use eos_evm_contract.Tests.Samples.{
  token, asset, balance_of, contract, config, host, stranger, asset_ops, add_assets, sub_assets,
}

abbrev pub blank : Contract
blank = record contract {
  config = load 77 none [] [];
  balances = [];
  nextnonces = [];
  inevm = none;
}

abbrev pub fees : FeeParameters
fees = record {
  gas_price = some 150;
  miner_cut = some 10000;
  ingress_bridge_fee = some (asset 100);
}

-- The configuration after init, at second 100, on chain 15555.
abbrev pub started : Contract
started = record contract {
  config = record (load 77 none [] []) {
    cached = record config {
      genesis_time = 100;
      status = 0;
      evm_version = record { pending_value = none; cached_value = 0 };
      gas_prices = record { overhead_price = none; storage_price = none };
    };
    dirty = true;
  };
  balances = (42, balance_of 0 0) ∷ [];
  nextnonces = (42, 0) ∷ [];
  inevm = some (balance_of 0 0);
}

pub starting : init (λ chain. chain == 15555) host 15555 fees none blank ≡ ok started
unfolding init init_config set_version set_chainid set_genesis_time set_fee_parameters
    set_fee_gas_price set_fee_miner_cut set_fee_ingress set_ingress_bridge_fee set_gas_price
    get_evm_version open_internal_balance load find put
starting = refl

init-once_example :
    (assert_unfrozen (next_action 77 started) ≡ ok tt)
    × (init (λ chain. chain == 15555) stranger 1 fees none (next_action 77 started)
        ≡ err "missing required authority")
init-once_example =
    init-once (λ chain. chain == 15555) host stranger 77 15555 1 fees fees none none [] [] blank
      started refl starting

-- A memo stands for the address of its characters here.
abbrev pub parsing : Parsing
parsing = record {
  names = record { name_of = λ memo. ok (length memo); to_string = λ account. [] };
  from_hex = λ memo. some memo;
  to_evmc_address = λ address. address;
}

abbrev bridging : Contract
bridging = record contract {
  balances = (9, balance_of 500 3) ∷ (42, balance_of 1000 6) ∷ [];
  nextnonces = (42, 3) ∷ [];
}

abbrev bridged : Contract
bridged = record contract {
  balances = (9, balance_of 500 3) ∷ (42, balance_of 1250 6) ∷ [];
  nextnonces = (42, 4) ∷ [];
  statistics = some (record {
    gas_fee_income = zero_balance token;
    ingress_bridge_fee_income = record { balance = asset 100; dust = 0 };
  });
}

abbrev dispatched : Dispatch
dispatched = record {
  rc = bridge_runtime_config;
  txn = record {
    nonce = 3;
    max_priority_fee_per_gas = 150;
    max_fee_per_gas = 150;
    gas_limit = 21000;
    to = some (7 ∷ []);
    value = 15000000000000000;
    tx_data = [];
    chain_id = none;
    r = 0;
    s = 42;
  };
}

bridging_runs :
    handle_evm_transfer asset_ops parsing host (asset 250) (7 ∷ []) bridging
    ≡ ok (bridged, dispatched)
unfolding handle_evm_transfer bridge_in record_fee process_prices calculate_gas_limit
    get_minimum_natively_representable get_gas_price get_statistics set_statistics pow10_const
    pow10_loop process_price_queue process_queue get_evm_version get_consensus_param find_account
    get_and_increment_nonce find find_by put add_assets sub_assets ◌+ℤ◌ ◌-ℤ◌
bridging_runs = refl

handle_evm_transfer-value_example :
    (b : BalanceWithDust) × (b' : BalanceWithDust) × (rest : ℕ) × (find 42 bridging.balances
      ≡ some b)
    × (find 42 bridged.balances ≡ some b')
    × (b'.balance.amount ≡ b.balance.amount +ℤ pos 250)
    × (b'.dust ≡ b.dust)
    × (find 42 bridging.nextnonces ≡ some 3)
    × (pos 250 -ℤ pos 100 ≡ pos rest)
    × (0 < rest)
    × (15000000000000000 ≡ rest * unit_of token)
handle_evm_transfer-value_example =
    handle_evm_transfer-value asset_ops parsing host (asset 250) (7 ∷ []) bridging bridged
      dispatched (record { named = refl; coarse = omega arith }) (omega arith) (omega arith)
      bridging_runs

abbrev credited : Contract
credited = record bridging { balances = (9, balance_of 750 3) ∷ (42, balance_of 1000 6) ∷ [] }

-- The memo has nine characters, so it names account 9.
abbrev nine : Bytes
nine = 1 ∷ 1 ∷ 1 ∷ 1 ∷ 1 ∷ 1 ∷ 1 ∷ 1 ∷ 1 ∷ []

crediting : handle_account_transfer asset_ops parsing host (asset 250) nine bridging ≡ ok credited
unfolding handle_account_transfer credit process_prices process_price_queue process_queue
    get_evm_version find put add_assets ◌+ℤ◌
crediting = refl

handle_account_transfer-credits_example :
    (b : BalanceWithDust) × (b' : BalanceWithDust) × (find 9 bridging.balances ≡ some b)
    × (b'.balance.amount ≡ b.balance.amount +ℤ pos 250)
    × (b'.dust ≡ b.dust)
    × (find 42 credited.balances ≡ find 42 bridging.balances)
    × (credited.nextnonces ≡ bridging.nextnonces)
    × (credited.inevm ≡ bridging.inevm)
handle_account_transfer-credits_example =
    handle_account_transfer-credits asset_ops parsing host (asset 250) nine 9 42 bridging credited
      refl crediting
