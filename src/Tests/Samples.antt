-- ===== src/Tests/Samples.antt =====
-- The values that the tests share: a platform whose blocks last a second, and a small contract.
use eos_evm_contract.Prelude.{
  ℕ, ◌+◌, ◌-◌, ◌/◌, true, false, none, some, [], ◌∷◌, leb, if◌then◌else◌, Result, ok, err, ◌≡◌,
  refl, arith, zero, suc, ◌*◌, ◌%◌, ◌^◌, ◌<◌, ◌++◌, length, length-append,
}
use native.Mathlib.Nat.{pow-suc}
use eos_evm_contract.Bytes.{Bytes, Intx}
use eos_evm_contract.Prelude.Int.{ℤ, pos, ◌+ℤ◌, ◌-ℤ◌, ◌≤ℤ◌, leb_ℤ}
use eos_evm_contract.Balance.{Symbol, symbol_eq, Asset, AssetOps, BalanceWithDust, max_amount}
use eos_evm_contract.Config.{Platform, Config, ConfigWrapper, default_gas_parameter}
use eos_evm_contract.Contract.{Host, Contract}
use eos_evm_contract.State.{Db}

abbrev pub second_blocks : ℕ → ℕ → ℕ
second_blocks genesis t = if leb genesis (t / 1000000) then 1 + (t / 1000000 - genesis) else 0

abbrev pub platform : Platform
platform = record {
  now = 100000000;
  block_num = second_blocks;
  max_eos_evm_version = 3;
  max_code_size = 24576;
}

abbrev pub token : Symbol
token = record { precision = 4; code = 5459781 }

abbrev pub asset : ℕ → Asset
asset n = record { amount = pos n; symbol = token }

abbrev pub config : Config
config = record {
  version = 0;
  chainid = 15555;
  genesis_time = 10;
  ingress_bridge_fee = asset 100;
  gas_price = 150;
  miner_cut = 10000;
  status = 4;
  evm_version = record { pending_value = none; cached_value = 1 };
  consensus_parameter = record { pending_value = none; cached_value = default_gas_parameter };
  token_contract = 77;
  queue_front_block = 0;
  ingress_gas_limit = 21000;
  gas_prices = record { overhead_price = some 5; storage_price = some 7 };
}

abbrev pub wrapper : ConfigWrapper
wrapper = record {
  cached = config;
  dirty = false;
  exists = true;
  price_queue = [];
  prices_queue = [];
}

abbrev pub db : Db
db = record { accounts = []; codes = []; storage = λ _. []; gcstore = []; next_account_id = none }

abbrev pub balance_of : ℕ → ℕ → BalanceWithDust
balance_of n dust = record { balance = asset n; dust = dust }

abbrev pub contract : Contract
contract = record {
  config = wrapper;
  balances = (1, balance_of 0 0) ∷ (9, balance_of 500 3) ∷ [];
  nextnonces = (1, 4) ∷ (9, 0) ∷ [];
  inevm = some (balance_of 800 7);
  egresslist = [];
  receivers = [];
  statistics = none;
  evm = db;
  sent = [];
}

abbrev pub host : Host
host = record {
  self = 42;
  authorised = λ _. true;
  sender = none;
  code = 77;
  is_account = λ _. true;
  has_code = λ _. false;
  platform = platform;
}

abbrev pub stranger : Host
stranger = record host { authorised = λ _. false }

unfoldable pub add_assets : Asset → Asset → Result Asset
add_assets a b =
    if symbol_eq a.symbol b.symbol
    then (if leb_ℤ (a.amount +ℤ b.amount) (pos max_amount)
        then ok (record { amount = a.amount +ℤ b.amount; symbol = a.symbol })
        else err "addition overflow")
    else err "attempt to add asset with different symbol"

unfoldable pub sub_assets : Asset → Asset → Result Asset
sub_assets a b =
    if symbol_eq a.symbol b.symbol
    then ok (record { amount = a.amount -ℤ b.amount; symbol = a.symbol })
    else err "attempt to subtract asset with different symbol"

module _ (a b c : Asset) where
  pub added_lem :
      add_assets a b ≡ ok c
      → (a.symbol ≡ b.symbol) × (c.symbol ≡ a.symbol) × (c.amount ≡ a.amount +ℤ b.amount)
  unfolding add_assets
  added_lem h = ground arith

  pub added_within : add_assets a b ≡ ok c → c.amount ≤ℤ pos max_amount
  unfolding add_assets
  added_within h = ground arith

  pub subtracted_lem :
      sub_assets a b ≡ ok c
      → (a.symbol ≡ b.symbol) × (c.symbol ≡ a.symbol) × (c.amount ≡ a.amount -ℤ b.amount)
  unfolding sub_assets
  subtracted_lem h = ground arith

pub made_lem :
    (n : ℤ) (s : Symbol) (c : Asset)
    → Result.ok (record { amount = n; symbol = s }) ≡ ok c
    → (c.amount ≡ n) × (c.symbol ≡ s)
made_lem n s c e = ground arith

-- Assets without the range check of the subtraction, which no test reaches.
abbrev pub asset_ops : AssetOps
asset_ops = record {
  add = add_assets;
  sub = sub_assets;
  make = λ n s. ok (record { amount = n; symbol = s });
  make-eq-ok = made_lem;
  add-eq-ok = added_lem;
  add-within = added_within;
  sub-eq-ok = subtracted_lem;
}

-- Big-endian bytes, as many as asked for.
unfoldable pub store_bytes : ℕ → ℕ → Bytes
store_bytes zero v = []
store_bytes (suc k) v = store_bytes k (v / 256) ++ (v % 256 ∷ [])

unfoldable pub load_bytes : ℕ → Bytes → ℕ
load_bytes acc [] = acc
load_bytes acc (b ∷ bs) = load_bytes (acc * 256 + b) bs

pub length-store_bytes : (k v : ℕ) → length (store_bytes k v) ≡ k
unfolding store_bytes
length-store_bytes zero v = refl
length-store_bytes (suc k) v =
    omega (
      arith,
      length-append (store_bytes k (v / 256)) (v % 256 ∷ []),
      length-store_bytes k (v / 256),
    )

load_bytes-append :
    (acc b : ℕ) (bs : Bytes) → load_bytes acc (bs ++ (b ∷ [])) ≡ load_bytes acc bs * 256 + b
unfolding load_bytes
load_bytes-append acc b [] = refl
load_bytes-append acc b (c ∷ bs) = load_bytes-append (acc * 256 + c) b bs

load_bytes-store_bytes : (k v : ℕ) → v < 256 ^ k → load_bytes 0 (store_bytes k v) ≡ v
unfolding store_bytes
load_bytes-store_bytes zero v h = unfold load_bytes in omega arith
load_bytes-store_bytes (suc k) v h = omega (
  arith,
  load_bytes-append 0 (v % 256) (store_bytes k (v / 256)),
  load_bytes-store_bytes k (v / 256) (omega (arith, pow-suc 256 k)),
)

pub load-store : (v : ℕ) → v < 2 ^ 256 → load_bytes 0 (store_bytes 32 v) ≡ v
load-store v h = load_bytes-store_bytes 32 v h

abbrev pub intx : Intx
intx = record {
  be_store = store_bytes 32;
  be_load = load_bytes 0;
  length-be_store = length-store_bytes 32;
  be_load-be_store = load-store;
}
