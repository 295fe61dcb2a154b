-- ===== src/Contract/Egress/Payout.antt =====
-- src/actions.cpp, execute_tx: the transfers that are sent, and the egress as a whole: what leaves the
-- EVM goes to balances and transfers, and nowhere else.
use native.Mathlib.Nat.{div-add-mod}
use eos_evm_contract.Prelude.{
  ℕ, ◌+◌, ◌-◌, ◌*◌, ◌/◌, ◌%◌, ◌^◌, ◌<◌, ◌≤◌, ◌≡◌, Bool, true, false, Option, some, List, [], ◌∷◌,
  ◌++◌, ok, arith, ◌==◌, inl, inr, Bool-cases, Option-cases, Result-cases, if◌then◌else◌, value_or,
  subst, ap, ◌∙◌,
}
use eos_evm_contract.Prelude.Int.{ℤ, pos, ◌-ℤ◌, to_int64, two_64}
use eos_evm_contract.Bytes.{Bytes, Intx}
use eos_evm_contract.Balance.{
  Symbol, BalanceWithDust, sub_amount, AssetOps, max_amount, pow10_const, evm_precision,
}
use eos_evm_contract.Balance.Laws.{IsToken, unit_of, exponent, div-le_of_lt}
use eos_evm_contract.State.{Account}
use eos_evm_contract.Transaction.{FilteredMessage, Silkworm}
use eos_evm_contract.Contract.{Host, Contract, Transfer, raw, token_symbol}
use eos_evm_contract.Config.Consensus.{get_minimum_natively_representable}
use eos_evm_contract.Contract.Rows.{leave_evm}
use eos_evm_contract.Contract.Books.{Books, sent_worth-append, magnitude, leave_evm-Books}
use eos_evm_contract.Contract.Ledger.{Holds, sub_amount-Holds}
use eos_evm_contract.Contract.Egress.{Marked, Egress, egress_loop, send_marked, process_egress}
use eos_evm_contract.Contract.Egress.Marks.{
  Distinct, objects_worth, marked_worth, Whole, unmarked, unmarked-AllClear, unmarked-Whole,
}
use eos_evm_contract.Contract.Egress.Loop.{Settled, egress_loop-Books}

-- A whole number of units that an asset can hold is sent as it is.
whole_units :
    (v unit : ℕ)
    → v < (max_amount + 1) * unit
    → v % unit ≡ 0
    → (to_int64 (v / unit % two_64) ≡ pos (v / unit)) × (v / unit * unit ≡ v)
whole_units v unit small whole =
    let few = div-le_of_lt v max_amount unit small in
    (ground (arith, few), omega (arith, whole, div-add-mod v unit))

module _ (s : Symbol) where
  Books-send :
      (t : Transfer) (c : Contract) (held inside out : ℕ)
      → Books s c held inside out
      → Books s
          (record c { sent = c.sent ++ (t ∷ []) })
          held
          inside
          (out + magnitude t.quantity.amount * unit_of s)
  Books-send t c held inside out k = record {
    ledger = k.ledger;
    evm_row = k.evm_row;
    evm_found = k.evm_found;
    evm_holds = k.evm_holds;
    transferred = omega (arith, k.transferred, sent_worth-append s c.sent (t ∷ []));
    symbol = k.symbol;
  }

module _ {Chain Header Overlay : Type 0} (a : AssetOps) (w : Silkworm Chain Header Overlay)
    (h : Host) (x : Intx) (s : Symbol) (token : IsToken s) where
  send_marked-Books :
      (messages : List Marked) (c c' : Contract) (held inside out : ℕ)
      → Books s c held inside out
      → Whole x (unit_of s) messages
      → marked_worth x messages < (max_amount + 1) * unit_of s
      → send_marked a w h x (unit_of s) messages c ≡ ok c'
      → Books s c' held inside (out + marked_worth x messages)
  unfolding send_marked
  send_marked-Books [] c c' held inside out k whole small run =
      let same : c ≡ c' = ground arith in
      subst (λ (d : Contract). Books s d held inside (out + 0)) same
        (subst (λ (n : ℕ). Books s c held inside n) (omega arith) k)
  send_marked-Books ((false, m) ∷ messages) c c' held inside out k whole small run =
      subst (λ (n : ℕ). Books s c' held inside n) (omega arith)
        (send_marked-Books messages c c' held inside out k whole.1 (omega (arith, small)) run)
  send_marked-Books ((true, m) ∷ messages) c c' held inside out k whole small run =
      let v = x.be_load m.value in
      let no_dust : v % unit_of s ≡ 0 = ground (arith, whole.0) in
      let (amount, exact) = whole_units v (unit_of s) (omega (arith, small)) no_dust in
      elim (Option-cases (w.extract_reserved_address m.receiver)) [
        | inl no_account ↦ absurd (ground (arith, no_account))
        | inr (account, is_account) ↦
            elim (Result-cases (a.make (to_int64 (v / unit_of s % two_64)) (token_symbol c))) [
              | inr (text, failed) ↦ absurd (ground (arith, is_account, failed))
              | inl (quantity, made) ↦
                  let t : Transfer = record {
                    token = c.config.token_contract;
                    to = account;
                    quantity = quantity;
                    memo = raw m.payload;
                  } in
                  let is_amount = (a.make-eq-ok _ _ quantity made).0 ∙ amount in
                  let worth : magnitude quantity.amount * unit_of s ≡ v =
                    ap (λ (n : ℤ). magnitude n * unit_of s) is_amount ∙ exact in
                  let rest =
                    send_marked-Books messages (record c { sent = c.sent ++ (t ∷ []) }) c' held
                      inside (out + magnitude quantity.amount * unit_of s)
                      (Books-send s t c held inside out k) whole.1 (omega (arith, small))
                      (ground (arith, is_account, made)) in
                  subst (λ (n : ℕ). Books s c' held inside n) (omega (arith, worth)) rest
            ]
      ]

  send_marked-inevm :
      (messages : List Marked) (c c' : Contract)
      → send_marked a w h x (unit_of s) messages c ≡ ok c'
      → c'.inevm ≡ c.inevm
  unfolding send_marked
  send_marked-inevm [] c c' run = ground arith
  send_marked-inevm ((false, m) ∷ messages) c c' run = send_marked-inevm messages c c' run
  send_marked-inevm ((true, m) ∷ messages) c c' run =
      elim (Option-cases (w.extract_reserved_address m.receiver)) [
        | inl no_account ↦ absurd (ground (arith, no_account))
        | inr (account, is_account) ↦
            elim (Result-cases
              (a.make (to_int64 (x.be_load m.value / unit_of s % two_64)) (token_symbol c))) [
                | inr (text, failed) ↦ absurd (ground (arith, is_account, failed))
                | inl (quantity, made) ↦
                    let t : Transfer = record {
                      token = c.config.token_contract;
                      to = account;
                      quantity = quantity;
                      memo = raw m.payload;
                    } in
                    send_marked-inevm messages (record c { sent = c.sent ++ (t ∷ []) }) c'
                      (ground (arith, is_account, made))
              ]
      ]

  unit :
      (c : Contract) (held inside out : ℕ)
      → Books s c held inside out
      → get_minimum_natively_representable c.config ≡ ok (unit_of s)
  unfolding get_minimum_natively_representable
  unit c held inside out k =
      ap (λ (f : Symbol). pow10_const (pos evm_precision -ℤ pos f.precision)) k.symbol
      ∙ exponent s token

  leave_evm-within :
      (b : BalanceWithDust) (v inside : ℕ) (c c' : Contract)
      → c.inevm ≡ some b
      → Holds s b inside
      → leave_evm v c ≡ ok c'
      → v ≤ inside
  unfolding leave_evm
  leave_evm-within b v inside c c' found holds run = elim (Result-cases (sub_amount b v)) [
    | inr (text, failed) ↦ absurd (ground (arith, found, failed))
    | inl (b', taken) ↦ (sub_amount-Holds s token b b' inside v holds taken).0
  ]

  -- The loop's state before the first object.
  abbrev start : Contract → List FilteredMessage → Egress
  start c messages = record {
    contract = c;
    total = 0;
    deducted = false;
    messages = unmarked messages;
  }

  pub process_egress-Books :
      (portion : Option ℕ) (objects : List (Bytes × Account)) (messages : List FilteredMessage)
      (c c' : Contract) (deducted : Bool) (held inside out : ℕ)
      → Books s c held inside out
      → Distinct objects
      → objects_worth objects < 2 ^ 256
      → process_egress a w h x portion objects messages c ≡ ok (c', deducted)
      → (held' : ℕ) × (inside' : ℕ) × (out' : ℕ) × Books s c' held' inside' out'
        × (held' + inside' + out' + (if deducted then value_or portion 0 else 0)
            ≡ held + inside + out)
  unfolding process_egress
  process_egress-Books portion [] messages c c' deducted held inside out k distinct small run =
      let ends : (c ≡ c') × (false ≡ deducted) = ground arith in
      (
        held,
        inside,
        out,
        subst (λ (d : Contract). Books s d held inside out) ends.0 k,
        ground (arith, ends.1),
      )
  process_egress-Books portion (object ∷ objects) messages c c' deducted held inside out k distinct
        small run =
      elim (Result-cases
        (egress_loop a w h x (unit_of s) portion (object ∷ objects) (start c messages))) [
          | inr (text, failed) ↦ absurd (ground (arith, unit c held inside out k, failed))
          | inl (e, looped) ↦
              elim (Result-cases (send_marked a w h x (unit_of s) e.messages e.contract)) [
                | inr (text, failed) ↦
                    absurd (ground (arith, unit c held inside out k, looped, failed))
                | inl (d, sent) ↦
                    let settled =
                      egress_loop-Books a w h x (unit_of s) portion s token (object ∷ objects)
                        (start c messages) e held inside out k distinct
                        (unmarked-AllClear (object ∷ objects) messages)
                        (unmarked-Whole x (unit_of s) messages).0 (omega (arith, small)) looped in
                    after settled d looped sent
              ]
        ]
    where
      after :
          {e : Egress}
          → Settled a w h x
              (unit_of s)
              portion
              s
              (objects_worth (object ∷ objects))
              (start c messages)
              e
              held
              inside
              out
          → (d : Contract)
          → egress_loop a w h x (unit_of s) portion (object ∷ objects) (start c messages) ≡ ok e
          → send_marked a w h x (unit_of s) e.messages e.contract ≡ ok d
          → (held' : ℕ) × (inside' : ℕ) × (out' : ℕ) × Books s c' held' inside' out'
            × (held' + inside' + out' + (if deducted then value_or portion 0 else 0)
                ≡ held + inside + out)
      after {e} settled d looped sent = elim (Bool-cases (e.total == 0)) [
        | inl nothing ↦
            let none_out : e.total ≡ 0 = ground (arith, nothing) in
            let all_sent =
              send_marked-Books e.messages e.contract d settled.held' inside out settled.books
                settled.whole
                (omega (
                  arith,
                  settled.within,
                  settled.total_is,
                  none_out,
                  settled.books.evm_holds.in_range,
                  unmarked-Whole x (unit_of s) messages,
                ))
                sent in
            let ends : (d ≡ c') × (e.deducted ≡ deducted) =
              ground (arith, unit c held inside out k, looped, sent, nothing) in
            (
              settled.held',
              inside,
              out + marked_worth x e.messages,
              subst
                  (λ (b : Contract).
                    Books s b settled.held' inside (out + marked_worth x e.messages))
                  ends.0 all_sent,
              ground (
                arith,
                settled.moved,
                settled.total_is,
                none_out,
                ends.1,
                unmarked-Whole x (unit_of s) messages,
              ),
            )
        | inr more ↦ elim (Result-cases (leave_evm e.total d)) [
          | inr (text, failed) ↦
              absurd (ground (arith, unit c held inside out k, looped, sent, more, failed))
          | inl (left, leaving) ↦
              let ends : (left ≡ c') × (e.deducted ≡ deducted) =
                ground (arith, unit c held inside out k, looped, sent, more, leaving) in
              let covered =
                leave_evm-within settled.books.evm_row e.total inside d left
                  (send_marked-inevm e.messages e.contract d sent ∙ settled.books.evm_found)
                  settled.books.evm_holds leaving in
              let all_sent =
                send_marked-Books e.messages e.contract d settled.held' inside out settled.books
                  settled.whole
                  (omega (
                    arith,
                    settled.within,
                    settled.total_is,
                    covered,
                    settled.books.evm_holds.in_range,
                    unmarked-Whole x (unit_of s) messages,
                  ))
                  sent in
              let out_of =
                leave_evm-Books s token e.total d left settled.held' inside
                  (out + marked_worth x e.messages) all_sent leaving in
              (
                settled.held',
                inside - e.total,
                out + marked_worth x e.messages,
                subst
                    (λ (b : Contract).
                      Books s b settled.held' (inside - e.total) (out + marked_worth x e.messages))
                    ends.0 out_of.1,
                ground (
                  arith,
                  settled.moved,
                  settled.total_is,
                  out_of.0,
                  ends.1,
                  unmarked-Whole x (unit_of s) messages,
                ),
              )
        ]
      ]
