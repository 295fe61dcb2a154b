-- ===== src/Contract.antt =====
-- The contract's tables and its configuration (include/evm_runtime/tables.hpp, evm_contract.hpp), what
-- the chain tells an action, and the guards and small accessors that the actions share
-- (src/actions.cpp). An action returns the new state, or the message with which it aborts.
use eos_evm_contract.Prelude.{
  ℕ, ◌+◌, ◌-◌, ◌%◌, ◌==◌, leb, Bool, true, false, Option, none, some, List, [], ◌∷◌, ◌++◌, String,
  Result, ok, err, ◌>>=◌, ◌>>◌, check, or_fail, has_value, value_or, if◌then◌else◌,
}
use eos_evm_contract.Prelude.Int.{pos}
use eos_evm_contract.Table.{Table, find, put}
use eos_evm_contract.Balance.{Symbol, Asset, BalanceWithDust}
use eos_evm_contract.Config.{Platform, ConfigWrapper, GasPrices, get_base_price}
use eos_evm_contract.State.{Db}
use eos_evm_contract.Bytes.{Bytes}
pub mod Accounts
pub mod Settings
pub mod Bridge
pub mod Init
pub mod Ingress
pub mod Startup
pub mod Deposits
pub mod Rows
pub mod Egress
pub mod Execute
pub mod Books
pub mod Messages
pub mod Process
pub mod Calls
pub mod Ledger
pub mod Vault
pub mod Solvency
pub mod Conservation
pub mod Repair
pub mod Swap
pub mod Nonces
pub mod Funds
pub mod Interface
pub mod Fixed

-- The account of the contract (get_self), whose authority the action has (require_auth), the
-- account that sent an inline action (get_sender), the contract that a notification comes from
-- (get_code), the accounts that exist, and those whose code hash is not zero.
pub record Host : Type 0 where
  pub self : ℕ
  pub authorised : ℕ → Bool
  pub sender : Option ℕ
  pub code : ℕ
  pub is_account : ℕ → Bool
  pub has_code : ℕ → Bool
  pub platform : Platform

-- A row of msgreceiver; its key is `account`.
pub record MessageReceiver : Type 0 where
  pub handler : ℕ
  pub min_fee : Asset
  pub flags : ℕ

-- The statistics singleton.
pub record Statistics : Type 0 where
  pub gas_fee_income : BalanceWithDust
  pub ingress_bridge_fee_income : BalanceWithDust

-- The memo of a transfer: a text of the contract's, or the bytes that a message of the EVM carried.
pub data Memo : Type 0 where
  text : String → Memo
  raw : Bytes → Memo

-- An inline action: a transfer that the token contract `token` is to make from the contract's account.
pub record Transfer : Type 0 where
  pub token : ℕ
  pub to : ℕ
  pub quantity : Asset
  pub memo : Memo

-- The tables, with the wrapper of the running action, and the transfers that it has sent.
pub record Contract : Type 0 where
  pub config : ConfigWrapper
  pub balances : Table BalanceWithDust
  pub nextnonces : Table ℕ
  pub inevm : Option BalanceWithDust
  pub egresslist : Table (Unit {0})
  pub receivers : Table MessageReceiver
  pub statistics : Option Statistics
  pub evm : Db
  pub sent : List Transfer

abbrev pub with_config : Contract → ConfigWrapper → Contract
with_config c w = record c { config = w }

abbrev pub require_auth : Host → ℕ → Result (Unit {0})
require_auth h account = check (h.authorised account) "missing required authority"

unfoldable pub assert_inited : Contract → Result (Unit {0})
assert_inited c = do
  check c.config.exists "contract not initialized"
  check (c.config.version == 0) "unsupported configuration singleton"

-- `(status & frozen) == 0`, with bit 0 for frozen.
unfoldable pub assert_unfrozen : Contract → Result (Unit {0})
unfolding assert_inited
assert_unfrozen c = do assert_inited c; check (c.config.status % 2 == 0) "contract is frozen"

unfoldable pub get_gas_price : ℕ → Contract → ℕ
get_gas_price evm_version c =
    if leb 3 evm_version then get_base_price c.config.gas_prices else c.config.gas_price

abbrev pub zero_balance : Symbol → BalanceWithDust
zero_balance s = record { balance = record { amount = pos 0; symbol = s }; dust = 0 }

-- get_token_symbol
abbrev pub token_symbol : Contract → Symbol
token_symbol c = c.config.ingress_bridge_fee.symbol

abbrev pub no_statistics : Contract → Statistics
no_statistics c = record {
  gas_fee_income = zero_balance (token_symbol c);
  ingress_bridge_fee_income = zero_balance (token_symbol c);
}

-- get_or_create leaves the row that it returns.
unfoldable pub get_statistics : Contract → Contract × Statistics
get_statistics c =
    let s = value_or c.statistics (no_statistics c) in (record c { statistics = some s }, s)

unfoldable pub set_statistics : Statistics → Contract → Contract
set_statistics s c = record c { statistics = some s }
