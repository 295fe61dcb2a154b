-- ===== src/Contract/Egress.antt =====
-- src/actions.cpp: the part of execute_tx that pays out what a transaction has sent to the addresses
-- reserved for accounts.
use eos_evm_contract.Prelude.{
  ℕ, ◌+◌, ◌-◌, ◌/◌, ◌%◌, ◌==◌, leb, Bool, true, false, not, ◌&&◌, ◌||◌, Option, none, some, List,
  [], ◌∷◌, ◌++◌, Result, ok, ◌>>=◌, ◌>>◌, check, or_fail, has_value, map, if◌then◌else◌,
}
use eos_evm_contract.Prelude.Int.{two_64, to_int64}
use eos_evm_contract.Table.{find, put}
use eos_evm_contract.Bytes.{Bytes, bytes_eq, Intx}
use eos_evm_contract.Balance.{AssetOps, add_amount, sub_amount}
use eos_evm_contract.State.{Account}
use eos_evm_contract.Transaction.{two_256, FilteredMessage, Silkworm}
use eos_evm_contract.Contract.{Host, Contract, raw, token_symbol}
use eos_evm_contract.Config.Consensus.{get_minimum_natively_representable}
use eos_evm_contract.Contract.Rows.{leave_evm}
pub mod Marks
pub mod Total
pub mod Loop
pub mod Payout

-- A message with its entry of `need_send`.
abbrev pub Marked : Type 0
Marked = Bool × FilteredMessage

-- The state of the loop over the reserved objects.
pub record Egress : Type 0 where
  pub contract : Contract
  pub total : ℕ
  pub deducted : Bool
  pub messages : List Marked

-- An open balance gets the money; the contract's own pays the miner's portion from it.
unfoldable pub egress_open : Host → Option ℕ → ℕ → ℕ → Egress → Result Egress
egress_open h portion account v e = do
  b ← or_fail (find account e.contract.balances) "unable to find key"
  b' ← add_amount b v
  let c = e.contract
  elim portion [
    | none ↦ ok (record e { contract = record c { balances = put account b' c.balances } })
    | some p ↦
        if account == h.self
        then (check (not e.deducted)
              "unexpected error: contract account appears twice in reserved objects"
            >> (sub_amount b' p >>= λ b''. ok (record e {
              contract = record c { balances = put account b'' c.balances };
              deducted = true;
            })))
        else ok (record e { contract = record c { balances = put account b' c.balances } })
  ]

module _ (x : Intx) where
  -- The loop over the messages for one account that is not open: the balance that they leave of what
  -- it received, and the marks. `pending` messages were for it so far.
  unfoldable pub mark_messages : ℕ → Bytes → ℕ → ℕ → List Marked → Result (ℕ × List Marked)
  mark_messages unit address balance pending [] = ok (balance, [])
  mark_messages unit address balance pending ((marked, m) ∷ messages) =
      if bytes_eq m.receiver address
      then (check (leb (pending + 1) 5)
            "only five transfers to each non-open account allowed in single transaction"
          >> (check (x.be_load m.value % unit == 0)
                "egress bridging to non-open accounts must not contain dust"
              >> (check (leb (x.be_load m.value) balance)
                    "sum of bridge transfers not match total received balance"
                  >> (mark_messages unit address (balance - x.be_load m.value) (pending + 1)
                        messages
                      >>= λ rest. ok (rest.0, (true, m) ∷ rest.1)))))
      else (mark_messages unit address balance pending messages >>= λ rest.
          ok (rest.0, (marked, m) ∷ rest.1))

  unfoldable pub egress_closed : Host → ℕ → Bytes → ℕ → ℕ → Egress → Result Egress
  unfolding mark_messages
  egress_closed h unit address account v e = do
    check (not (account == h.self)) "evm runtime account not open"
    check (h.is_account account) "can only egress bridge to existing accounts"
    check (not (h.has_code account) || has_value (find account e.contract.egresslist))
        "non-open accounts containing contract code must be on allow list for egress bridging"
    r ← mark_messages unit address v 0 e.messages
    check (r.0 == 0) "sum of bridge transfers not match total received balance"
    ok (record e { messages = r.1 })

module _ {Chain Header Overlay : Type 0} (a : AssetOps) (w : Silkworm Chain Header Overlay)
    (h : Host) (x : Intx) where
  -- The body of the loop, for an object that holds money.
  unfoldable pub egress_object : ℕ → Option ℕ → Bytes × Account → Egress → Result Egress
  unfolding egress_open egress_closed
  egress_object unit portion (address, object) e = do
    account ← or_fail (w.extract_reserved_address address) "bad optional access"
    check (bytes_eq object.code_hash w.empty_hash)
        "contracts cannot be created in the reserved address space"
    check (not (account == 0)) "reserved 0 address cannot be used"
    let counted = record e { total = (e.total + object.balance) % two_256 }
    if object.balance == 0
        then ok e
        else (if has_value (find account e.contract.balances)
            then egress_open h portion account object.balance counted
            else egress_closed x h unit address account object.balance counted)

  unfoldable pub egress_loop : ℕ → Option ℕ → List (Bytes × Account) → Egress → Result Egress
  unfolding egress_object
  egress_loop unit portion [] e = ok e
  egress_loop unit portion (object ∷ objects) e =
      egress_object unit portion object e >>= egress_loop unit portion objects

  -- The transfers of the marked messages, in their order. An amount is a uint64_t that is passed as an
  -- int64_t.
  unfoldable pub send_marked : ℕ → List Marked → Contract → Result Contract
  send_marked unit [] c = ok c
  send_marked unit ((false, m) ∷ messages) c = send_marked unit messages c
  send_marked unit ((true, m) ∷ messages) c = do
    account ← or_fail (w.extract_reserved_address m.receiver) "bad optional access"
    quantity ← a.make (to_int64 (x.be_load m.value / unit % two_64)) (token_symbol c)
    send_marked unit messages (record c {
      sent =
          c.sent
          ++ (record {
            token = c.config.token_contract;
            to = account;
            quantity = quantity;
            memo = raw m.payload;
          }
              ∷ []);
    })

  -- The contract, and whether the miner's portion was deducted.
  unfoldable pub process_egress :
      Option ℕ → List (Bytes × Account) → List FilteredMessage → Contract → Result (Contract × Bool)
  unfolding egress_loop send_marked
  process_egress portion [] messages c = ok (c, false)
  process_egress portion (object ∷ objects) messages c = do
    unit ← get_minimum_natively_representable c.config
    e ← egress_loop unit portion (object ∷ objects) (record {
      contract = c;
      total = 0;
      deducted = false;
      messages = map (λ (m : FilteredMessage). (false, m)) messages;
    })
    sent ← send_marked unit e.messages e.contract
    c' ← (if e.total == 0 then ok sent else leave_evm e.total sent)
    ok (c', e.deducted)
