-- ===== src/Contract/Execute.antt =====
-- src/actions.cpp: execute_tx, which runs a transaction in the EVM and moves what it pays and what
-- leaves the EVM between the balances of the contract's tables.
use eos_evm_contract.Prelude.{
  ℕ, ◌+◌, ◌-◌, ◌*◌, ◌/◌, ◌%◌, ◌==◌, leb, ltb, Bool, true, false, not, ◌&&◌, ◌||◌, Option, none,
  some, List, [], ◌∷◌, ◌++◌, String, Result, ok, err, ◌>>=◌, ◌>>◌, check, or_fail, has_value,
  value_or, if◌then◌else◌,
}
use eos_evm_contract.Prelude.Int.{two_64, to_int64}
use eos_evm_contract.Table.{find}
use eos_evm_contract.Bytes.{Bytes, Intx}
use eos_evm_contract.Balance.{AssetOps, add_amount}
use eos_evm_contract.Config.{GasParameter, get_evm_version, hundred_percent}
use eos_evm_contract.State.{Account}
use eos_evm_contract.Transaction.{
  two_256, RuntimeConfig, Transaction, Receipt, ValidationResult, valid, wrong_chain_id,
  unsupported_transaction_type, max_fee_less_than_base, max_priority_fee_greater_than_max,
  invalid_signature, intrinsic_gas, nonce_too_high, missing_sender, sender_no_eoa, wrong_nonce,
  insufficient_funds, block_gas_limit_exceeded, other, Silkworm,
}
use eos_evm_contract.Contract.{Host, Contract, get_statistics, set_statistics}
use eos_evm_contract.Config.Consensus.{get_minimum_natively_representable}
use eos_evm_contract.Contract.Rows.{credit_row, debit_row, enter_evm}
use eos_evm_contract.Contract.Egress.{process_egress}
pub mod Flow
pub mod Conserved
pub mod Width

-- check_result; the messages end in these words, after the number of the result.
unfoldable pub check_result : ValidationResult → Result (Unit {0})
check_result valid = ok tt
check_result wrong_chain_id = err "Wrong chain id"
check_result unsupported_transaction_type = err "Unsupported transaction type"
check_result max_fee_less_than_base = err "Max fee per gas less than block base fee"
check_result max_priority_fee_greater_than_max =
    err "Max priority fee per gas greater than max fee per gas"
check_result invalid_signature = err "Invalid signature"
check_result intrinsic_gas = err "Intrinsic gas too low"
check_result nonce_too_high = err "Nonce too high"
check_result missing_sender = err "Missing sender"
check_result sender_no_eoa = err "Sender is not EOA"
check_result wrong_nonce = err "Wrong nonce"
check_result insufficient_funds = err "Insufficient funds"
check_result block_gas_limit_exceeded = err "Block gas limit exceeded"
check_result other = err "error"

-- The test that a cost stays below the largest uint256: numeric_limits<uint256>::max().
abbrev pub below_max : ℕ → Bool
below_max v = ltb v (two_256 - 1)

-- A product of two uint256, which is one too: it wraps around before it is widened to a uint512.
abbrev pub uint256_mul : ℕ → ℕ → ℕ
uint256_mul a b = a * b % two_256

-- The most that the gas of a transaction can cost.
abbrev pub max_gas_cost : Transaction → ℕ
max_gas_cost tx = uint256_mul tx.gas_limit tx.max_fee_per_gas

-- What a transaction from a reserved address may use is taken from the balances of its account, or
-- the gas from the one that pays for it, into the EVM.
unfoldable pub charge : Option ℕ → Transaction → ℕ → Contract → Result Contract
charge gas_payer tx ingress_account c = do
  check (below_max (max_gas_cost tx + tx.value)) "too much gas"
  paid ← elim gas_payer [
    | none ↦ debit_row ingress_account (tx.value + max_gas_cost tx) "unable to find key" c
    | some payer ↦
        (debit_row payer (max_gas_cost tx) "gas payer account has not been opened" c >>= λ c'.
        if ltb 0 tx.value
        then debit_row ingress_account tx.value "unable to find key" c'
        else ok c')
  ]
  enter_evm (tx.value + max_gas_cost tx) paid

-- What of the gas goes to the miner, if there is one.
unfoldable pub miner_portion : ℕ → ℕ → Option ℕ → (ℕ → ℕ) → Transaction → ℕ → ℕ → Result ℕ
miner_portion version miner_cut base_fee priority_fee_per_gas tx tx_gas_used inclusion_fee =
    if leb 3 version
    then ok inclusion_fee
    else if leb 1 version
    then (or_fail base_fee "no base fee" >>= λ fee.
        check (below_max (uint256_mul tx_gas_used (priority_fee_per_gas fee))) "too much gas"
        >> ok (uint256_mul tx_gas_used (priority_fee_per_gas fee)))
    else (check (below_max (uint256_mul tx_gas_used tx.max_fee_per_gas)) "too much gas"
        >> ok (uint256_mul tx_gas_used tx.max_fee_per_gas * miner_cut / hundred_percent % two_256))

-- The miner that is paid: an account other than the contract's.
abbrev pub paid_miner : Host → ℕ → Option ℕ
paid_miner h miner = if miner == h.self || miner == 0 then none else some miner

-- The miner gets its portion, which the egress loop has taken from the contract's balance.
unfoldable pub pay_miner : Option ℕ → Option ℕ → Bool → Contract → Result Contract
pay_miner miner none deducted c = ok c
pay_miner miner (some portion) deducted c =
    if portion == 0
    then ok c
    else (check deducted
          "unexpected error: contract account did not receive any funds through its reserved address"
        >> credit_row (value_or miner 0) portion "unable to find key" c)

-- The gas that was not used goes back to the account that paid for it. `ingress` is the account of
-- the sender's address.
unfoldable pub refund_gas :
    Option ℕ → Option ℕ → ℕ → (ℕ → ℕ) → Option ℕ → Transaction → Contract → Result Contract
refund_gas none base_fee tx_gas_used priority_fee_per_gas ingress tx c = ok c
refund_gas (some payer) base_fee tx_gas_used priority_fee_per_gas ingress tx c = do
  fee ← or_fail base_fee "bad optional access"
  let gas_fee = uint256_mul tx_gas_used ((priority_fee_per_gas fee + fee) % two_256)
  check (below_max gas_fee && (below_max (max_gas_cost tx) && ltb gas_fee (max_gas_cost tx)))
      "invalid gas fee"
  owner ← or_fail ingress "bad optional access"
  c' ← debit_row owner (max_gas_cost tx - gas_fee) "unable to find key" c
  credit_row payer (max_gas_cost tx - gas_fee) "unable to find key" c'

-- The statistics of gas income, where the transaction is not the contract's own. The subtraction
-- of the portion is on uint512; a portion is at most the fee it is a part of.
unfoldable pub gas_income : ℕ → Option ℕ → Option ℕ → Transaction → ℕ → Result ℕ
gas_income version base_fee portion tx tx_gas_used =
    if leb 1 version
    then (or_fail base_fee "bad optional access" >>= λ fee.
        check (below_max (uint256_mul tx_gas_used fee)) "too much gas"
        >> ok (uint256_mul tx_gas_used fee))
    else (check (below_max (uint256_mul tx_gas_used tx.max_fee_per_gas)) "too much gas"
        >> ok (
            (uint256_mul tx_gas_used tx.max_fee_per_gas + (two_256 - value_or portion 0))
            % two_256))

unfoldable pub record_income : Bool → Result ℕ → Contract → Result Contract
record_income from_self income c =
    if from_self
    then ok c
    else (income >>= λ gas_fee. add_amount (get_statistics c).1.gas_fee_income gas_fee >>= λ total.
        ok (
          set_statistics (record ((get_statistics c).1) { gas_fee_income = total })
            (get_statistics c).0))

-- What execute_tx is called with, and what it has computed once the transaction has run.
pub record Call (Header Chain : Type 0) : Type 0 where
  pub rc : RuntimeConfig
  pub miner : ℕ
  pub header : Header
  pub chain : Chain
  pub gas_params : GasParameter
  pub tx : Transaction

module _ {Chain Header Overlay : Type 0} (a : AssetOps) (w : Silkworm Chain Header Overlay)
    (h : Host) (x : Intx) (call : Call Header Chain) where
  -- The part on special signatures: the charge, the balance and nonce of the sender in the EVM, and
  -- whether the contract itself is the sender.
  unfoldable pub admit : Bytes → Overlay → Contract → Result (Overlay × Bool × Contract)
  unfolding charge
  admit from ep c =
      if w.is_special_signature call.tx.r call.tx.s
      then (check call.rc.allow_special_signature
            "bridge signature used outside of bridge transaction"
          >> (if w.is_reserved_address from
              then (or_fail (w.extract_reserved_address from) "bad optional access" >>= λ ingress.
                  charge call.rc.gas_payer call.tx ingress c >>= λ c'.
                  w.set_balance from (call.tx.value + max_gas_cost call.tx) ep >>= λ ep'.
                  w.set_nonce from call.tx.nonce ep' >>= λ ep''. ok (ep'', ingress == h.self, c'))
              else ok (ep, false, c)))
      else ok (ep, false, c)

  -- Everything before the gas is accounted for: what ran, and the sender.
  unfoldable pub run_tx :
      Overlay → Contract → Result ((Overlay × Receipt × ℕ) × (Bytes × Bool) × Contract)
  unfolding admit check_result
  run_tx ep c = do
    check_result (w.pre_validate_transaction call.tx call.header call.chain call.gas_params)
    from ← or_fail (w.recover_sender call.tx) "unable to recover sender"
    admitted ← admit from ep c
    check (not call.rc.enforce_chain_id || has_value call.tx.chain_id) "tx without chain-id"
    r ← w.validate_transaction call.tx from admitted.0
    check_result r
    ran ← w.execute_transaction call.tx from call.gas_params admitted.0
    ok (ran, (from, admitted.1), admitted.2)

  -- The portion of the miner, if one is paid, and the income of the contract.
  unfoldable pub portion_of : Option ℕ → (Overlay × Receipt × ℕ) → Contract → Result (Option ℕ)
  unfolding miner_portion
  portion_of none ran c = ok none
  portion_of (some m) ran c =
      miner_portion (get_evm_version h.platform c.config) c.config.miner_cut
        (w.base_fee_per_gas call.header) (w.priority_fee_per_gas call.tx) call.tx
        ran.1.cumulative_gas_used ran.2
      >>= λ p. ok (some p)

  unfoldable pub income_of : ℕ → Option ℕ → (Overlay × Receipt × ℕ) → Result ℕ
  unfolding gas_income
  income_of version portion ran =
      gas_income version (w.base_fee_per_gas call.header) portion call.tx ran.1.cumulative_gas_used

  unfoldable pub refund_of : Bytes → (Overlay × Receipt × ℕ) → Contract → Result Contract
  unfolding refund_gas
  refund_of from ran c =
      refund_gas call.rc.gas_payer (w.base_fee_per_gas call.header) ran.1.cumulative_gas_used
        (w.priority_fee_per_gas call.tx) (w.extract_reserved_address from) call.tx c

  -- Everything after the transaction has run.
  unfoldable pub account_tx :
      Option ℕ → (Overlay × Receipt × ℕ) → Bytes → Bool → Contract → Result Contract
  unfolding portion_of pay_miner refund_of record_income
  account_tx miner ran from from_self c = do
    portion ← portion_of miner ran c
    check (not call.rc.abort_on_failure || ran.1.success) "inline evm tx failed"
    egress ← process_egress a w h x portion (w.reserved_objects ran.0) (w.filtered_messages ran.0) c
    c2 ← pay_miner miner portion egress.1 egress.0
    c3 ← refund_of from ran c2
    record_income from_self (income_of (get_evm_version h.platform c.config) portion ran) c3

  unfoldable pub execute_tx : Overlay → Contract → Result (Overlay × Receipt × Contract)
  unfolding run_tx account_tx
  execute_tx ep c = do
    let miner = paid_miner h call.miner
    check (not (has_value miner) || has_value (find (value_or miner 0) c.balances))
        "no balance open for miner"
    r ← run_tx ep c
    c' ← account_tx miner r.0 r.1.0 r.1.1 r.2
    ok (r.0.0, r.0.1, c')
