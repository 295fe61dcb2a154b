-- ===== src/Contract/Swap.antt =====
-- src/actions.cpp: swapgastoken and migratebal, which move the contract to another gas token.
use eos_evm_contract.Prelude.{
  ℕ, zero, suc, ◌+◌, ◌==◌, ltb, Option, some, [], ◌∷◌, ◌++◌, String, Result, ok, ◌>>=◌, ◌>>◌, check,
  or_fail, if◌then◌else◌,
}
use eos_evm_contract.Table.{Table}
use eos_evm_contract.Balance.{Symbol, symbol_eq, Asset, BalanceWithDust}
use eos_evm_contract.Config.{swap_gas_token}
use eos_evm_contract.Contract.{
  text, Host, Contract, MessageReceiver, with_config, require_auth, get_statistics, set_statistics,
}

abbrev pub with_symbol : Symbol → BalanceWithDust → BalanceWithDust
with_symbol s b = record b { balance = record (b.balance) { symbol = s } }

-- The loop of migratebal, from `lower_bound(from_name)` on: at most `limit` rows are visited, and
-- those of another symbol are changed and counted.
unfoldable pub migrate : Symbol → ℕ → ℕ → Table BalanceWithDust → Table BalanceWithDust × ℕ
migrate s from limit [] = ([], 0)
migrate s from zero (r ∷ t) = (r ∷ t, 0)
migrate s from (suc limit) ((owner, b) ∷ t) =
    let skipped = migrate s from (suc limit) t in
    let visited = migrate s from limit t in
    if ltb owner from
    then ((owner, b) ∷ skipped.0, skipped.1)
    else (if symbol_eq b.balance.symbol s
        then ((owner, b) ∷ visited.0, visited.1)
        else ((owner, with_symbol s b) ∷ visited.0, visited.1 + 1))

-- No authority is asked for; a negative limit visits no row, as 0 does.
unfoldable pub migratebal : ℕ → ℕ → Contract → Result Contract
unfolding migrate
migratebal from_name limit c = do
  inevm ← or_fail c.inevm "singleton does not exist"
  let r = migrate inevm.balance.symbol from_name limit c.balances
  check (ltb 0 r.1) "nothing changed"
  ok (record c { balances = r.0 })

abbrev pub with_fee_symbol : Symbol → Table MessageReceiver → Table MessageReceiver
with_fee_symbol s [] = []
with_fee_symbol s ((account, r) ∷ t) =
    (account, record r { min_fee = record (r.min_fee) { symbol = s } }) ∷ with_fee_symbol s t

-- Every table that shows the symbol of the gas token but the balances is changed at once, and of
-- the balances the contract's own. `old_balance` is the row of the contract in the accounts table of
-- the old token, which is another contract's.
unfoldable pub swapgastoken :
    Host → ℕ → Symbol → ℕ → String → Option Asset → Contract → Result Contract
swapgastoken h new_token_contract new_symbol swap_dest_account swap_memo old_balance c = do
  require_auth h h.self
  let old_token_contract = c.config.token_contract
  let c1 = with_config c (swap_gas_token new_token_contract new_symbol c.config)
  inevm ← or_fail c1.inevm "singleton does not exist"
  let c2 = record c1 {
    inevm = some (with_symbol new_symbol inevm);
    receivers = with_fee_symbol new_symbol c1.receivers;
  }
  let (c3, stat) = get_statistics c2
  let c4 =
      set_statistics
        (record {
          gas_fee_income = with_symbol new_symbol stat.gas_fee_income;
          ingress_bridge_fee_income = with_symbol new_symbol stat.ingress_bridge_fee_income;
        })
        c3
  c5 ← migratebal h.self 1 c4
  if swap_dest_account == 0
      then ok c5
      else (or_fail old_balance "can't get self balance from old token contract" >>= λ b.
          ok (record c5 {
            sent =
                c5.sent
                ++ (record {
                  token = old_token_contract;
                  to = swap_dest_account;
                  quantity = b;
                  memo = text swap_memo;
                }
                    ∷ []);
          }))
