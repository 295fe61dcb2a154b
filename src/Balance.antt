-- ===== src/Balance.antt =====
-- include/evm_runtime/tables.hpp: assets, and balance_with_dust, a token balance that keeps the
-- part of a 256-bit EVM amount that the token's precision cannot show; pow10_const of
-- src/utils.cpp. `asset` and its `+=` and `-=` are the contract SDK's: here is its data, and the
-- operators are a parameter where they are used (AssetOps).
use eos_evm_contract.Prelude.{
  ℕ, zero, suc, ◌+◌, ◌-◌, ◌*◌, ◌/◌, ◌%◌, ◌≡◌, Bool, not, ◌&&◌, leb, ◌==◌, Result, ok, err, ◌>>=◌,
  ◌>>◌, check, if◌then◌else◌,
}
use eos_evm_contract.Prelude.Int.{
  ℤ, pos, negsuc, ◌+ℤ◌, ◌-ℤ◌, ◌≤ℤ◌, leb_ℤ, two_64, two_63, to_uint64, int64_add, int64_sub,
}
pub mod Laws

-- eosio::symbol; the default one is `no_symbol`.
pub record Symbol : Type 0 where
  pub precision : ℕ
  pub code : ℕ

abbrev pub no_symbol : Symbol
no_symbol = record { precision = 0; code = 0 }

abbrev pub symbol_eq : Symbol → Symbol → Bool
symbol_eq a b = a.precision == b.precision && a.code == b.code

pub record Asset : Type 0 where
  pub amount : ℤ
  pub symbol : Symbol

-- asset::max_amount, 2^62 - 1.
abbrev pub max_amount : ℕ
max_amount = 4611686018427387903

-- `a += b` and `a -= b` of eosio::asset: equal symbols are demanded, and a sum out of range aborts;
-- and its constructor, which aborts on an amount out of range.
pub record AssetOps : Type 0 where
  pub add : Asset → Asset → Result Asset
  pub sub : Asset → Asset → Result Asset
  pub make : ℤ → Symbol → Result Asset
  pub add-eq-ok :
      (a b c : Asset)
      → add a b ≡ ok c
      → (a.symbol ≡ b.symbol) × (c.symbol ≡ a.symbol) × (c.amount ≡ a.amount +ℤ b.amount)
  pub add-within : (a b c : Asset) → add a b ≡ ok c → c.amount ≤ℤ pos max_amount
  pub sub-eq-ok :
      (a b c : Asset)
      → sub a b ≡ ok c
      → (a.symbol ≡ b.symbol) × (c.symbol ≡ a.symbol) × (c.amount ≡ a.amount -ℤ b.amount)
  pub make-eq-ok :
      (n : ℤ) (s : Symbol) (c : Asset) → make n s ≡ ok c → (c.amount ≡ n) × (c.symbol ≡ s)

abbrev pub evm_precision : ℕ
evm_precision = 18

-- `while (v-- > 0) r *= 10;` on a uint64_t
unfoldable pub pow10_loop : ℕ → ℕ → ℕ
pow10_loop zero r = r
pow10_loop (suc v) r = pow10_loop v (r * 10 % two_64)

unfoldable pub pow10_const : ℤ → Result ℕ
pow10_const (pos v) = ok (pow10_loop v 1)
pow10_const (negsuc v) = err "invalid exponent"

pub record BalanceWithDust : Type 0 where
  pub balance : Asset
  pub dust : ℕ

unfoldable pub is_zero : BalanceWithDust → Bool
is_zero b = b.dust == 0 && (leb_ℤ b.balance.amount (pos 0) && leb_ℤ (pos 0) b.balance.amount)

abbrev pub with_parts : BalanceWithDust → ℤ → ℕ → BalanceWithDust
with_parts b amount dust = record {
  balance = record { amount = amount; symbol = b.balance.symbol };
  dust = dust;
}

-- The part of `+=` after the unit `min_asset` is known.
unfoldable pub add_units : ℕ → BalanceWithDust → ℕ → Result BalanceWithDust
unfolding int64_add
add_units min_asset b amount = do
  check (leb (amount / min_asset) max_amount) "accumulation overflow"
  check (leb_ℤ b.balance.amount (pos max_amount)) "accumulation overflow"
  let sum = int64_add b.balance.amount (amount / min_asset)
  let dust = (b.dust + amount % min_asset) % two_64
  let rolls = leb min_asset dust
  let sum' = if rolls then int64_add sum 1 else sum
  let dust' = if rolls then dust - min_asset else dust
  check (leb_ℤ sum' (pos max_amount)) "accumulation overflow"
  ok (with_parts b sum' dust')

-- balance_with_dust::operator+=
unfoldable pub add_amount : BalanceWithDust → ℕ → Result BalanceWithDust
add_amount b amount = do
  check (not (symbol_eq b.balance.symbol no_symbol)) "symbol can't be empty in balance_with_dust"
  min_asset ← pow10_const (pos evm_precision -ℤ pos b.balance.symbol.precision)
  add_units min_asset b amount

-- The part of `-=` after the unit is known. A 64-bit amount is compared with the 256-bit quotient
-- as a uint64_t, and a borrow shows in bit 63 of the dust.
unfoldable pub sub_units : ℕ → BalanceWithDust → ℕ → Result BalanceWithDust
unfolding int64_sub int64_add
sub_units min_asset b amount = do
  check (leb (amount / min_asset) (to_uint64 b.balance.amount)) "decrementing more than available"
  let rest = int64_sub b.balance.amount (amount / min_asset)
  let dust = (b.dust + (two_64 - amount % min_asset)) % two_64
  if dust / two_63 % 2 == 1
      then (check (leb_ℤ (pos 0) (int64_sub rest 1)) "decrementing more than available"
          >> ok (with_parts b (int64_sub rest 1) ((dust + min_asset) % two_64)))
      else ok (with_parts b rest dust)

-- balance_with_dust::operator-=
unfoldable pub sub_amount : BalanceWithDust → ℕ → Result BalanceWithDust
sub_amount b amount = do
  check (not (symbol_eq b.balance.symbol no_symbol)) "symbol can't be empty in balance_with_dust"
  min_asset ← pow10_const (pos evm_precision -ℤ pos b.balance.symbol.precision)
  sub_units min_asset b amount
