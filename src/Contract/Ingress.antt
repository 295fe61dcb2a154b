-- ===== src/Contract/Ingress.antt =====
-- src/actions.cpp: transfer, the notification of token transfers, with handle_account_transfer and
-- handle_evm_transfer. The latter ends in dispatch_tx, which runs the transaction; here it returns
-- the transaction with its runtime_config. A memo is its characters.
use eos_evm_contract.Prelude.{
  ℕ, ◌+◌, ◌*◌, ◌%◌, ◌==◌, leb, Bool, false, not, ◌&&◌, ◌||◌, Option, none, some, [], ◌∷◌, Result,
  ok, err, ◌>>=◌, ◌>>◌, check, or_fail, has_value, length, if◌then◌else◌,
}
use eos_evm_contract.Prelude.Int.{pos, ltb_ℤ, to_uint64, two_64}
use eos_evm_contract.Table.{find, put}
use eos_evm_contract.Bytes.{Bytes}
use eos_evm_contract.Balance.{Asset, AssetOps, symbol_eq}
use eos_evm_contract.Config.{get_evm_version}
use eos_evm_contract.Config.Prices.{process_price_queue}
use eos_evm_contract.Config.Consensus.{get_minimum_natively_representable, get_consensus_param}
use eos_evm_contract.State.{find_account}
use eos_evm_contract.Message.{Names}
use eos_evm_contract.Transaction.{RuntimeConfig, bridge_runtime_config, Transaction, two_256}
use eos_evm_contract.Contract.{
  Host, Contract, with_config, assert_unfrozen, get_gas_price, get_statistics, set_statistics,
  token_symbol,
}
use eos_evm_contract.Contract.Accounts.{get_and_increment_nonce}

-- What the actions take from the SDK and silkworm: the names of accounts, from_hex and to_evmc_address.
pub record Parsing : Type 0 where
  pub names : Names
  pub from_hex : Bytes → Option Bytes
  pub to_evmc_address : Bytes → Bytes

pub record Dispatch : Type 0 where
  pub rc : RuntimeConfig
  pub txn : Transaction

-- `if(version >= 1) process_price_queue()`
unfoldable pub process_prices : Host → Contract → Contract
process_prices h c =
    if leb 1 (get_evm_version h.platform c.config)
    then with_config c (process_price_queue h.platform c.config)
    else c

-- The lambda calculate_gas_limit: a new account pays for its creation.
unfoldable pub calculate_gas_limit : Host → Bytes → Contract → ℕ
calculate_gas_limit h destination c =
    if has_value (find_account destination c.evm.accounts)
    then c.config.ingress_gas_limit
    else (c.config.ingress_gas_limit + (get_consensus_param h.platform c.config).gas_txnewaccount)
      % two_64

module _ (a : AssetOps) (p : Parsing) (h : Host) where
  unfoldable pub credit : ℕ → Asset → Contract → Result Contract
  credit owner quantity c = do
    b ← or_fail (find owner c.balances) "receiving account has not been opened"
    sum ← a.add b.balance quantity
    ok (record c { balances = put owner (record b { balance = sum }) c.balances })

  unfoldable pub handle_account_transfer : Asset → Bytes → Contract → Result Contract
  unfolding credit
  handle_account_transfer quantity memo c = do
    receiver ← p.names.name_of memo
    credit receiver quantity (process_prices h c)

  -- The statistics after an ingress fee was taken.
  unfoldable pub record_fee : Contract → Result Contract
  record_fee c = do
    let (c', s) = get_statistics c
    income ← a.add s.ingress_bridge_fee_income.balance c.config.ingress_bridge_fee
    ok (
        set_statistics
          (record s {
            ingress_bridge_fee_income = record (s.ingress_bridge_fee_income) { balance = income };
          })
          c')

  -- Everything after the price queue was processed.
  unfoldable pub bridge_in : ℕ → Asset → Bytes → Contract → Result (Contract × Dispatch)
  unfolding record_fee
  bridge_in version quantity memo c = do
    b ← or_fail (find h.self c.balances) "unable to find key"
    sum ← a.add b.balance quantity
    rest ← a.sub quantity c.config.ingress_bridge_fee
    check (ltb_ℤ (pos 0) rest.amount) "must bridge more than ingress bridge fee"
    c2 ← record_fee (record c { balances = put h.self (record b { balance = sum }) c.balances })
    address ← or_fail (p.from_hex memo) "unable to parse destination address"
    unit ← get_minimum_natively_representable c.config
    n ← get_and_increment_nonce h.self c2
    let to = p.to_evmc_address address
    let price = get_gas_price version c
    ok (
      n.0,
      record {
        rc = bridge_runtime_config;
        txn = record {
          nonce = n.1;
          max_priority_fee_per_gas = price;
          max_fee_per_gas = price;
          gas_limit = calculate_gas_limit h to n.0;
          to = some to;
          value = to_uint64 rest.amount * unit % two_256;
          tx_data = [];
          chain_id = none;
          r = 0;
          s = h.self;
        };
      },
    )

  unfoldable pub handle_evm_transfer : Asset → Bytes → Contract → Result (Contract × Dispatch)
  unfolding bridge_in
  handle_evm_transfer quantity memo c =
      bridge_in (get_evm_version h.platform c.config) quantity memo (process_prices h c)

  -- 42 characters that start with "0x".
  abbrev pub is_evm_memo : Bytes → Bool
  is_evm_memo [] = false
  is_evm_memo (x ∷ []) = false
  is_evm_memo (x ∷ y ∷ memo) = length memo == 40 && (x == 48 && y == 120)

  -- The branches on the memo of a transfer of the gas token to the contract.
  unfoldable pub receive : Asset → Bytes → Contract → Result (Contract × Option Dispatch)
  receive quantity memo c =
      if is_evm_memo memo
      then (handle_evm_transfer quantity memo c >>= λ r. ok (r.0, some r.1))
      else if not (length memo == 0) && leb (length memo) 13
      then (handle_account_transfer quantity memo c >>= λ c'. ok (c', none))
      else err
          "memo must be either 0x EVM address or already opened account name to credit deposit to"

  unfoldable pub transfer : ℕ → ℕ → Asset → Bytes → Contract → Result (Contract × Option Dispatch)
  unfolding receive assert_unfrozen
  transfer from to quantity memo c = do
    assert_unfrozen c
    if not (to == h.self) || from == h.self
        then ok (c, none)
        else (check
              (h.code == c.config.token_contract && symbol_eq quantity.symbol (token_symbol c))
              "received unexpected token"
            >> (if length memo == 0 && from == c.config.token_contract
                then ok (c, none)
                else receive quantity memo c))
