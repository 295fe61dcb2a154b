-- ===== src/Contract/Egress/Loop.antt =====
-- src/actions.cpp, execute_tx: the loop over the reserved objects as a whole.
use eos_evm_contract.Prelude.{
  ℕ, ◌+◌, ◌%◌, ◌^◌, ◌<◌, ◌≤◌, ◌≡◌, Option, List, [], ◌∷◌, ok, arith, ◌==◌, ◌⊎◌, inl, inr,
  Bool-cases, Option-cases, Result-cases, has_value, sym, subst, ap,
}
use eos_evm_contract.Table.{find}
use eos_evm_contract.Bytes.{Bytes, Intx}
use eos_evm_contract.Balance.{Symbol, AssetOps}
use eos_evm_contract.Balance.Laws.{IsToken}
use eos_evm_contract.State.{Account}
use eos_evm_contract.Transaction.{two_256, Silkworm}
use eos_evm_contract.Contract.{Host}
use eos_evm_contract.Contract.Books.{Books}
use eos_evm_contract.Contract.Egress.{
  Marked, Egress, mark_messages, egress_open, egress_closed, egress_object, egress_loop,
}
use eos_evm_contract.Contract.Egress.Marks.{
  Clear, Absent, Distinct, AllClear, objects_worth, marked_worth, Whole, mark_messages-worth,
  mark_messages-AllClear,
}
use eos_evm_contract.Contract.Egress.Total.{owed, egress_open-Books}

-- An account that is not open only has messages marked, which carry all that it received.
egress_closed_parts :
    (x : Intx) (h : Host) (unit : ℕ) (address : Bytes) (account v : ℕ) (e e' : Egress)
    → egress_closed x h unit address account v e ≡ ok e'
    → (messages : List Marked) × (mark_messages x unit address v 0 e.messages ≡ ok (0, messages))
      × (e' ≡ record e { messages = messages })
unfolding egress_closed
egress_closed_parts x h unit address account v e e' run =
    elim (Result-cases (mark_messages x unit address v 0 e.messages)) [
      | inr (text, failed) ↦ absurd (ground (arith, failed))
      | inl ((rest, messages), marked) ↦
          let spent : rest ≡ 0 = ground (arith, marked) in
          (
            messages,
            subst (λ (n : ℕ). mark_messages x unit address v 0 e.messages ≡ ok (n, messages)) spent
                marked,
            ground (arith, marked),
          )
    ]

abbrev counted : ℕ → Egress → Egress
counted v e = record e { total = (e.total + v) % two_256 }

module _ {Chain Header Overlay : Type 0} (a : AssetOps) (w : Silkworm Chain Header Overlay)
    (h : Host) (x : Intx) (unit : ℕ) (portion : Option ℕ) where
  egress_object_parts :
      (address : Bytes) (object : Account) (e e' : Egress)
      → egress_object a w h x unit portion (address, object) e ≡ ok e'
      → ((object.balance ≡ 0) × (e' ≡ e))
        ⊎ ((account : ℕ) × (egress_open h portion account object.balance (counted object.balance e)
              ≡ ok e'))
        ⊎ ((account : ℕ) × (egress_closed x h unit address account object.balance
                (counted object.balance e)
              ≡ ok e'))
  unfolding egress_object
  egress_object_parts address object e e' run =
      elim (Option-cases (w.extract_reserved_address address)) [
        | inl no_account ↦ absurd (ground (arith, no_account))
        | inr (account, is_account) ↦ elim (Bool-cases (object.balance == 0)) [
          | inl empty ↦ inl (ground (arith, is_account, empty), ground (arith, is_account, empty))
          | inr holds ↦ elim (Bool-cases (has_value (find account e.contract.balances))) [
            | inl opened ↦ inr (inl (account, ground (arith, is_account, holds, opened)))
            | inr closed ↦ inr (inr (account, ground (arith, is_account, holds, closed)))
          ]
        ]
      ]

  -- What one step, or several, leaves of the books: `v` has come in.
  pub record Settled (s : Symbol) (v : ℕ) (e e' : Egress) (held inside out : ℕ) : Type 0 where
    pub held' : ℕ
    pub books : Books s e'.contract held' inside out
    pub moved :
        held' + owed portion e' + marked_worth x e'.messages
        ≡ held + owed portion e + marked_worth x e.messages + v
    pub total_is : e'.total ≡ e.total + v
    pub whole : Whole x unit e'.messages
    pub within : marked_worth x e'.messages ≤ marked_worth x e.messages + v

  module _ (s : Symbol) (token : IsToken s) where
    egress_object-Books :
        (address : Bytes) (object : Account) (objects : List (Bytes × Account)) (e e' : Egress)
        (held inside out : ℕ)
        → Books s e.contract held inside out
        → Absent address objects
        → Clear address e.messages
        → AllClear objects e.messages
        → Whole x unit e.messages
        → e.total + object.balance < 2 ^ 256
        → egress_object a w h x unit portion (address, object) e ≡ ok e'
        → Settled s object.balance e e' held inside out × AllClear objects e'.messages
    egress_object-Books address object objects e e' held inside out k absent clear all_clear whole
          small run =
        elim (egress_object_parts address object e e' run) [
          | inl (empty, same) ↦
              subst
                (λ (d : Egress).
                  Settled s object.balance e d held inside out × AllClear objects d.messages)
                (sym same)
                (
                  record {
                    held' = held;
                    books = k;
                    moved = omega (arith, empty);
                    total_is = omega (arith, empty);
                    whole = whole;
                    within = omega arith;
                  },
                  all_clear,
                )
          | inr (inl (account, opened)) ↦
              let (held', books, sum, total, same) =
                egress_open-Books s token h portion account object.balance
                  (counted object.balance e) e' held inside out k opened in
              (
                record {
                  held' = held';
                  books = books;
                  moved = omega (arith, sum, ap (marked_worth x) same);
                  total_is = omega (arith, total, small);
                  whole = subst (Whole x unit) (sym same) whole;
                  within = omega (arith, ap (marked_worth x) same);
                },
                subst (AllClear objects) (sym same) all_clear,
              )
          | inr (inr (account, closed)) ↦
              let (messages, marked, ends) =
                egress_closed_parts x h unit address account object.balance
                  (counted object.balance e) e' closed in
              let (worth, whole') =
                mark_messages-worth x unit address object.balance 0 0 e.messages messages clear
                  whole marked in
              subst
                (λ (d : Egress).
                  Settled s object.balance e d held inside out × AllClear objects d.messages)
                (sym ends)
                (
                  record {
                    held' = held;
                    books = k;
                    moved = omega (arith, worth);
                    total_is = omega (arith, small);
                    whole = whole';
                    within = omega (arith, worth);
                  },
                  mark_messages-AllClear x unit address object.balance 0 0 e.messages messages
                      objects absent all_clear marked,
                )
        ]

    pub egress_loop-Books :
        (objects : List (Bytes × Account)) (e e' : Egress) (held inside out : ℕ)
        → Books s e.contract held inside out
        → Distinct objects
        → AllClear objects e.messages
        → Whole x unit e.messages
        → e.total + objects_worth objects < 2 ^ 256
        → egress_loop a w h x unit portion objects e ≡ ok e'
        → Settled s (objects_worth objects) e e' held inside out
    unfolding egress_loop
    egress_loop-Books [] e e' held inside out k distinct clear whole small run =
        let same : e ≡ e' = ground arith in
        subst (λ (d : Egress). Settled s 0 e d held inside out) same
          (record {
            held' = held;
            books = k;
            moved = omega arith;
            total_is = omega arith;
            whole = whole;
            within = omega arith;
          })
    egress_loop-Books (object ∷ objects) e e' held inside out k distinct clear whole small run =
        elim (Result-cases (egress_object a w h x unit portion object e)) [
          | inr (text, failed) ↦ absurd (ground (arith, failed))
          | inl (d, step) ↦
              let (first, all_clear) =
                egress_object-Books object.0 object.1 objects e d held inside out k distinct.0
                  clear.0 clear.1 whole (omega (arith, small)) step in
              let rest =
                egress_loop-Books objects d e' first.held' inside out first.books distinct.1
                  all_clear first.whole (omega (arith, small, first.total_is))
                  (ground (arith, step)) in
              record {
                held' = rest.held';
                books = rest.books;
                moved = omega (arith, first.moved, rest.moved);
                total_is = omega (arith, first.total_is, rest.total_is);
                whole = rest.whole;
                within = omega (arith, first.within, rest.within);
              }
        ]
