-- ===== src/Config/Row.antt =====
-- src/config_wrapper.cpp: the constructor, which reads the stored row, and flush, which writes it back.
use eos_evm_contract.Prelude.{
  ℕ, ◌≡◌, false, Option, none, some, has_value, value_or, if◌then◌else◌, arith,
}
use eos_evm_contract.Prelude.Int.{pos}
use eos_evm_contract.Table.{Table}
use eos_evm_contract.Promoter.{Promoter}
use eos_evm_contract.Balance.{Asset, no_symbol}
use eos_evm_contract.Config.{Config, ConfigWrapper, GasPrices, GasParameter, default_gas_parameter}

-- struct config: the fields added by later versions may be missing from an old row.
pub record ConfigRow : Type 0 where
  pub version : ℕ
  pub chainid : ℕ
  pub genesis_time : ℕ
  pub ingress_bridge_fee : Asset
  pub gas_price : ℕ
  pub miner_cut : ℕ
  pub status : ℕ
  pub evm_version : Option (Promoter ℕ)
  pub consensus_parameter : Option (Promoter GasParameter)
  pub token_contract : Option ℕ
  pub queue_front_block : Option ℕ
  pub ingress_gas_limit : Option ℕ
  pub gas_prices : Option GasPrices

-- The initializers of struct config.
abbrev pub new_row : ConfigRow
new_row = record {
  version = 0;
  chainid = 0;
  genesis_time = 0;
  ingress_bridge_fee = record { amount = pos 0; symbol = no_symbol };
  gas_price = 0;
  miner_cut = 0;
  status = 0;
  evm_version = none;
  consensus_parameter = none;
  token_contract = none;
  queue_front_block = none;
  ingress_gas_limit = none;
  gas_prices = none;
}

-- `default_token_account` is the name "eosio.token"_n.
abbrev cache : ℕ → ConfigRow → Config
cache default_token_account r = record {
  version = r.version;
  chainid = r.chainid;
  genesis_time = r.genesis_time;
  ingress_bridge_fee = r.ingress_bridge_fee;
  gas_price = r.gas_price;
  miner_cut = r.miner_cut;
  status = r.status;
  evm_version = value_or r.evm_version (record { pending_value = none; cached_value = 0 });
  consensus_parameter =
      value_or r.consensus_parameter
        (record { pending_value = none; cached_value = default_gas_parameter });
  token_contract = value_or r.token_contract default_token_account;
  queue_front_block = value_or r.queue_front_block 0;
  ingress_gas_limit = value_or r.ingress_gas_limit 21000;
  gas_prices = value_or r.gas_prices (record { overhead_price = none; storage_price = none });
}

abbrev pub row_of : Config → ConfigRow
row_of c = record {
  version = c.version;
  chainid = c.chainid;
  genesis_time = c.genesis_time;
  ingress_bridge_fee = c.ingress_bridge_fee;
  gas_price = c.gas_price;
  miner_cut = c.miner_cut;
  status = c.status;
  evm_version = some c.evm_version;
  consensus_parameter = some c.consensus_parameter;
  token_contract = some c.token_contract;
  queue_front_block = some c.queue_front_block;
  ingress_gas_limit = some c.ingress_gas_limit;
  gas_prices = some c.gas_prices;
}

-- The constructor, over the singleton's row and the two queue tables.
unfoldable pub load : ℕ → Option ConfigRow → Table ℕ → Table GasPrices → ConfigWrapper
load default_token_account row price_queue prices_queue = record {
  cached = cache default_token_account (value_or row new_row);
  dirty = false;
  exists = has_value row;
  price_queue = price_queue;
  prices_queue = prices_queue;
}

-- The singleton's row after flush(), from the row before.
unfoldable pub flush : Option ConfigRow → ConfigWrapper → Option ConfigRow
flush row c = if c.dirty then some (row_of c.cached) else row

-- A wrapper that is flushed and loaded again has the cached values, if it was dirty; the values of
-- one that was not dirty are lost, and the stored row is read again.
pub load-flush :
    (account : ℕ) (row : Option ConfigRow) (c : ConfigWrapper)
    → (load account (flush row c) c.price_queue c.prices_queue).cached
      ≡ (if c.dirty then c.cached else (load account row c.price_queue c.prices_queue).cached)
unfolding load flush
load-flush account row c = ground arith
