-- ===== src/Config.antt =====
-- The configuration row (include/evm_runtime/tables.hpp, `config`; runtime_config.hpp; types.hpp) and
-- the object that caches it, config_wrapper (src/config_wrapper.cpp). A method returns the new
-- wrapper, or the message with which it aborts. The two queue tables that the methods open stand
-- beside the cached row.
use eos_evm_contract.Prelude.{
  ℕ, ◌+◌, ◌≤◌, Bool, true, false, not, ◌&&◌, ◌||◌, Option, none, some, [], leb, ◌==◌, Result, ok,
  err, ◌>>=◌, ◌>>◌, check, if◌then◌else◌, value_or, max,
}
use eos_evm_contract.Prelude.Int.{pos, leb_ℤ}
use eos_evm_contract.Table.{Table}
use eos_evm_contract.Promoter.{Promoter, get_value, get_value_and_maybe_promote}
use eos_evm_contract.Balance.{Symbol, no_symbol, symbol_eq, Asset, evm_precision}
pub mod Prices
pub mod Version
pub mod Fees
pub mod Consensus
pub mod Row
pub mod Schedule
pub mod Upgrade
pub mod Gas
pub mod RamPrice

-- What the contract takes from elsewhere: the chain's clock in microseconds, block_mapping's EVM block
-- of a time after a genesis time in seconds, eosevm::max_eos_evm_version and silkworm's kMaxCodeSize.
pub record Platform : Type 0 where
  pub now : ℕ
  pub block_num : ℕ → ℕ → ℕ
  pub max_eos_evm_version : ℕ
  pub max_code_size : ℕ

pub record GasPrices : Type 0 where
  pub overhead_price : Option ℕ
  pub storage_price : Option ℕ

unfoldable pub get_base_price : GasPrices → ℕ
get_base_price g = max (value_or g.overhead_price 0) (value_or g.storage_price 0)

abbrev pub option_eq : Option ℕ → Option ℕ → Bool
option_eq none none = true
option_eq none (some b) = false
option_eq (some a) none = false
option_eq (some a) (some b) = a == b

-- gas_prices_type::operator==
abbrev pub gas_prices_eq : GasPrices → GasPrices → Bool
gas_prices_eq a b =
    option_eq b.overhead_price a.overhead_price && option_eq b.storage_price a.storage_price

pub record GasParameter : Type 0 where
  pub gas_txnewaccount : ℕ
  pub gas_newaccount : ℕ
  pub gas_txcreate : ℕ
  pub gas_codedeposit : ℕ
  pub gas_sset : ℕ

abbrev pub default_gas_parameter : GasParameter
default_gas_parameter = record {
  gas_txnewaccount = 0;
  gas_newaccount = 25000;
  gas_txcreate = 32000;
  gas_codedeposit = 200;
  gas_sset = 20000;
}

abbrev pub ninety_percent : ℕ
ninety_percent = 90000

abbrev pub hundred_percent : ℕ
hundred_percent = 100000

abbrev pub gas_sset_min : ℕ
gas_sset_min = 2900

abbrev pub grace_period_seconds : ℕ
grace_period_seconds = 180

-- struct config as the wrapper caches it: its constructor gives every binary_extension a value, and
-- no method takes one away, so they are plain fields here (Config/Row has the stored row).
pub record Config : Type 0 where
  pub version : ℕ
  pub chainid : ℕ
  pub genesis_time : ℕ
  pub ingress_bridge_fee : Asset
  pub gas_price : ℕ
  pub miner_cut : ℕ
  pub status : ℕ
  pub evm_version : Promoter ℕ
  pub consensus_parameter : Promoter GasParameter
  pub token_contract : ℕ
  pub queue_front_block : ℕ
  pub ingress_gas_limit : ℕ
  pub gas_prices : GasPrices

pub record ConfigWrapper : Type 0 where
  pub cached : Config
  pub open cached use *
  pub dirty : Bool
  pub exists : Bool
  pub price_queue : Table ℕ
  pub prices_queue : Table GasPrices

-- A write to a cached field followed by set_dirty().
abbrev pub write : ConfigWrapper → Config → ConfigWrapper
write c cached = record c { cached = cached; dirty = true }

unfoldable pub set_version : ℕ → ConfigWrapper → ConfigWrapper
set_version v c = write c (record (c.cached) { version = v })

unfoldable pub set_chainid : ℕ → ConfigWrapper → ConfigWrapper
set_chainid id c = write c (record (c.cached) { chainid = id })

unfoldable pub set_genesis_time : ℕ → ConfigWrapper → ConfigWrapper
set_genesis_time t c = write c (record (c.cached) { genesis_time = t })

unfoldable pub set_ingress_bridge_fee : Asset → ConfigWrapper → Result ConfigWrapper
set_ingress_bridge_fee fee c = do
  check (leb fee.symbol.precision evm_precision) "invalid ingress fee precision"
  ok (write c (record (c.cached) { ingress_bridge_fee = fee }))

unfoldable pub set_gas_price : ℕ → ConfigWrapper → ConfigWrapper
set_gas_price p c = write c (record (c.cached) { gas_price = p })

abbrev pub first_some : Option ℕ → Option ℕ → Option ℕ
first_some none b = b
first_some (some a) b = some a

-- A price that is given replaces the one in force; one that is not given leaves it.
unfoldable pub merge_gas_prices : GasPrices → GasPrices → GasPrices
merge_gas_prices new old = record {
  overhead_price = first_some new.overhead_price old.overhead_price;
  storage_price = first_some new.storage_price old.storage_price;
}

unfoldable pub set_gas_prices : GasPrices → ConfigWrapper → ConfigWrapper
unfolding merge_gas_prices
set_gas_prices prices c =
    write c (record (c.cached) { gas_prices = merge_gas_prices prices c.gas_prices })

unfoldable pub set_miner_cut : ℕ → ConfigWrapper → Result ConfigWrapper
set_miner_cut cut c = do
  check (leb cut ninety_percent) "miner_cut must <= 90%"
  ok (write c (record (c.cached) { miner_cut = cut }))

unfoldable pub set_status : ℕ → ConfigWrapper → ConfigWrapper
set_status status c = write c (record (c.cached) { status = status })

unfoldable pub set_ingress_gas_limit : ℕ → ConfigWrapper → ConfigWrapper
set_ingress_gas_limit limit c = write c (record (c.cached) { ingress_gas_limit = limit })

-- Only used by init, after other writes: it does not mark the row as dirty.
unfoldable pub set_token_contract : ℕ → ConfigWrapper → ConfigWrapper
set_token_contract name c = record c { cached = record (c.cached) { token_contract = name } }

unfoldable pub swap_gas_token : ℕ → Symbol → ConfigWrapper → ConfigWrapper
swap_gas_token new_token_contract new_symbol c = write c (record (c.cached) {
  ingress_bridge_fee = record (c.ingress_bridge_fee) { symbol = new_symbol };
  token_contract = new_token_contract;
})

module _ (e : Platform) where
  -- The EVM block of the current time.
  abbrev pub current_block : ConfigWrapper → ℕ
  current_block c = e.block_num c.genesis_time e.now

  unfoldable pub get_evm_version : ConfigWrapper → ℕ
  unfolding get_value
  get_evm_version c = get_value (e.block_num c.genesis_time) c.evm_version e.now

  abbrev pub drop_miner_cut : ℕ → ℕ → ℕ
  drop_miner_cut version cut = if leb 1 version && not (cut == 0) then 0 else cut

  unfoldable pub get_evm_version_and_maybe_promote : ConfigWrapper → Result (ConfigWrapper × ℕ)
  unfolding get_value_and_maybe_promote
  get_evm_version_and_maybe_promote c = do
    r ← get_value_and_maybe_promote (e.block_num c.genesis_time) c.evm_version e.now
    ok (
      (if r.2
          then write c
              (record (c.cached) { evm_version = r.0; miner_cut = drop_miner_cut r.1 c.miner_cut })
          else c),
      r.1,
    )
