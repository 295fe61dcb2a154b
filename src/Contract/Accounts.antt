-- ===== src/Contract/Accounts.antt =====
-- src/actions.cpp: the balances that accounts hold in the contract, and their nonces: open, close,
-- withdraw, assertnonce, and the egress list.
use eos_evm_contract.Prelude.{
  ℕ, ◌+◌, ◌%◌, not, ◌==◌, Option, List, [], ◌∷◌, ◌++◌, Result, ok, ◌>>=◌, ◌>>◌, check, or_fail,
  value_or, has_value, if◌then◌else◌,
}
use eos_evm_contract.Prelude.Int.{leb_ℤ, two_64}
use eos_evm_contract.Table.{Table, find, put, erase}
use eos_evm_contract.Balance.{symbol_eq, Asset, AssetOps, is_zero}
use eos_evm_contract.Contract.{
  text, Host, Contract, require_auth, assert_inited, assert_unfrozen, zero_balance, token_symbol,
}

-- Rows are made only where there is none.
unfoldable pub open_internal_balance : ℕ → Contract → Contract
open_internal_balance owner c = record c {
  balances =
      if has_value (find owner c.balances)
      then c.balances
      else put owner (zero_balance (token_symbol c)) c.balances;
  nextnonces =
      if has_value (find owner c.nextnonces) then c.nextnonces else put owner 0 c.nextnonces;
}

unfoldable pub open_account : Host → ℕ → Contract → Result Contract
unfolding open_internal_balance assert_unfrozen
open_account h owner c = do
  assert_unfrozen c
  require_auth h owner
  ok (open_internal_balance owner c)

unfoldable pub close_account : Host → ℕ → Contract → Result Contract
unfolding assert_unfrozen is_zero
close_account h owner c = do
  assert_unfrozen c
  require_auth h owner
  check (not (owner == h.self)) "Cannot close self"
  b ← or_fail (find owner c.balances) "account is not open"
  check (is_zero b) "cannot close because balance is not zero"
  n ← or_fail (find owner c.nextnonces) "unable to find key"
  ok (record c {
    balances = erase owner c.balances;
    nextnonces = if n == 0 then erase owner c.nextnonces else c.nextnonces;
  })

-- The nonce is a uint64_t.
unfoldable pub get_and_increment_nonce : ℕ → Contract → Result (Contract × ℕ)
get_and_increment_nonce owner c = do
  n ← or_fail (find owner c.nextnonces) "caller account has not been opened"
  ok (record c { nextnonces = put owner ((n + 1) % two_64) c.nextnonces }, n)

unfoldable pub assertnonce : ℕ → ℕ → Contract → Result Contract
assertnonce account next_nonce c = do
  check (value_or (find account c.nextnonces) 0 == next_nonce) "wrong nonce"
  ok c

-- The amount of the quantity is not tested for its sign: the token contract refuses a transfer of
-- a quantity that is not positive.
unfoldable pub withdraw : AssetOps → Host → ℕ → Asset → Option ℕ → Contract → Result Contract
unfolding assert_unfrozen
withdraw a h owner quantity to c = do
  assert_unfrozen c
  require_auth h owner
  b ← or_fail (find owner c.balances) "account is not open"
  check (symbol_eq (token_symbol c) quantity.symbol) "invalid symbol"
  check (leb_ℤ quantity.amount b.balance.amount) "overdrawn balance"
  rest ← a.sub (record (b.balance) { symbol = token_symbol c }) quantity
  ok (record c {
    balances = put owner (record b { balance = rest }) c.balances;
    sent =
        c.sent
        ++ (record {
          token = c.config.token_contract;
          to = value_or to owner;
          quantity = quantity;
          memo = text "Withdraw from EVM balance";
        }
            ∷ []);
  })

add_egress : List ℕ → Table (Unit {0}) → Table (Unit {0})
add_egress [] t = t
add_egress (account ∷ rest) t =
    add_egress rest (if has_value (find account t) then t else put account tt t)

remove_egress : List ℕ → Table (Unit {0}) → Table (Unit {0})
remove_egress [] t = t
remove_egress (account ∷ rest) t =
    remove_egress rest (if has_value (find account t) then erase account t else t)

unfoldable pub addegress : Host → List ℕ → Contract → Result Contract
unfolding assert_inited add_egress
addegress h accounts c = do
  assert_inited c
  require_auth h h.self
  ok (record c { egresslist = add_egress accounts c.egresslist })

unfoldable pub removeegress : Host → List ℕ → Contract → Result Contract
unfolding assert_inited remove_egress
removeegress h accounts c = do
  assert_inited c
  require_auth h h.self
  ok (record c { egresslist = remove_egress accounts c.egresslist })
