-- ===== src/Contract/Egress/Marks.antt =====
-- src/actions.cpp, execute_tx: the messages that are marked to be sent as transfers.
use eos_evm_contract.Prelude.{
  ℕ, ◌+◌, ◌-◌, ◌%◌, ◌≡◌, refl, true, false, List, [], ◌∷◌, ok, arith, leb, ◌⊎◌, inl, inr,
  Bool-cases, Result-cases, if◌then◌else◌, ap, ◌∙◌, subst, map,
}
use eos_evm_contract.Bytes.{Bytes, bytes_eq, bytes_eq_sound, Intx}
use eos_evm_contract.State.{Account}
use eos_evm_contract.Transaction.{FilteredMessage}
use eos_evm_contract.Contract.Egress.{Marked, mark_messages}

-- No message to an address is marked.
abbrev pub Clear : Bytes → List Marked → Type 0
Clear address [] = Unit
Clear address ((marked, m) ∷ messages) =
    ((bytes_eq m.receiver address ≡ false) ⊎ (marked ≡ false)) × Clear address messages

-- The addresses of the reserved objects differ, as the keys of a map do, and no marked message is to
-- one of them.
abbrev pub Absent : Bytes → List (Bytes × Account) → Type 0
Absent address [] = Unit
Absent address (object ∷ objects) = (bytes_eq address object.0 ≡ false) × Absent address objects

abbrev pub Distinct : List (Bytes × Account) → Type 0
Distinct [] = Unit
Distinct (object ∷ objects) = Absent object.0 objects × Distinct objects

abbrev pub AllClear : List (Bytes × Account) → List Marked → Type 0
AllClear [] messages = Unit
AllClear (object ∷ objects) messages = Clear object.0 messages × AllClear objects messages

-- What all objects hold.
abbrev pub objects_worth : List (Bytes × Account) → ℕ
objects_worth [] = 0
objects_worth (object ∷ objects) = object.1.balance + objects_worth objects

module _ (x : Intx) where
  abbrev pub marked_worth : List Marked → ℕ
  marked_worth [] = 0
  marked_worth ((marked, m) ∷ messages) =
      (if marked then x.be_load m.value else 0) + marked_worth messages

  -- A marked value has no dust.
  abbrev pub Whole : ℕ → List Marked → Type 0
  Whole unit [] = Unit
  Whole unit ((marked, m) ∷ messages) =
      ((marked ≡ false) ⊎ (x.be_load m.value % unit ≡ 0)) × Whole unit messages

  -- Marking moves what the marked messages carry from the balance that is left to the marks.
  pub mark_messages-worth :
      (unit : ℕ) (address : Bytes) (balance pending rest : ℕ) (messages messages' : List Marked)
      → Clear address messages
      → Whole unit messages
      → mark_messages x unit address balance pending messages ≡ ok (rest, messages')
      → (marked_worth messages' + rest ≡ marked_worth messages + balance) × Whole unit messages'
  unfolding mark_messages
  mark_messages-worth unit address balance pending rest [] messages' clear whole e = ground arith
  mark_messages-worth unit address balance pending rest ((b, m) ∷ messages) messages' clear whole
        e =
      elim (Bool-cases (bytes_eq m.receiver address)) [
        | inr other ↦ elim (Result-cases (mark_messages x unit address balance pending messages)) [
          | inr (text, failed) ↦ absurd (ground (arith, other, failed))
          | inl ((rest', later), run) ↦
              let ih =
                mark_messages-worth unit address balance pending rest' messages later clear.1
                  whole.1 run in
              let ends : (rest' ≡ rest) × (((b, m) ∷ later) ≡ messages') =
                ground (arith, other, run) in
              subst
                (λ (ms : List Marked).
                  (marked_worth ms + rest ≡ marked_worth ((b, m) ∷ messages) + balance)
                  × Whole unit ms)
                ends.1 (omega (arith, ih.0, ends.0), (whole.0, ih.1))
        ]
        | inl here ↦
            elim (Result-cases
              (mark_messages x unit address (balance - x.be_load m.value) (pending + 1) messages)) [
                | inr (text, failed) ↦ absurd (ground (arith, here, failed))
                | inl ((rest', later), run) ↦
                    let ih =
                      mark_messages-worth unit address (balance - x.be_load m.value) (pending + 1)
                        rest' messages later clear.1 whole.1 run in
                    let ends : (rest' ≡ rest)
                        × (((true, m) ∷ later) ≡ messages')
                        × (x.be_load m.value % unit ≡ 0)
                        × (leb (x.be_load m.value) balance ≡ true) =
                      ground (arith, here, run) in
                    let unmarked : b ≡ false = ground (arith, here, clear.0) in
                    subst
                      (λ (ms : List Marked).
                        (marked_worth ms + rest ≡ marked_worth ((b, m) ∷ messages) + balance)
                        × Whole unit ms)
                      ends.1 (ground (arith, ih.0, ends.0, ends.3, unmarked), (inr ends.2, ih.1))
              ]
      ]

  -- Messages to another address stay as they are.
  pub mark_messages-Clear :
      (unit : ℕ) (address another : Bytes) (balance pending rest : ℕ)
      (messages messages' : List Marked)
      → bytes_eq address another ≡ false
      → Clear another messages
      → mark_messages x unit address balance pending messages ≡ ok (rest, messages')
      → Clear another messages'
  unfolding mark_messages
  mark_messages-Clear unit address another balance pending rest [] messages' apart clear e =
      let ends : ◌≡◌ {A = List Marked} [] messages' = ground arith in subst (Clear another) ends tt
  mark_messages-Clear unit address another balance pending rest ((b, m) ∷ messages) messages' apart
        clear e =
      elim (Bool-cases (bytes_eq m.receiver address)) [
        | inr other ↦ elim (Result-cases (mark_messages x unit address balance pending messages)) [
          | inr (text, failed) ↦ absurd (ground (arith, other, failed))
          | inl ((rest', later), run) ↦
              let ends : ((b, m) ∷ later) ≡ messages' = ground (arith, other, run) in
              subst (Clear another) ends (
                clear.0,
                mark_messages-Clear unit address another balance pending rest' messages later apart
                    clear.1 run,
              )
        ]
        | inl here ↦
            elim (Result-cases
              (mark_messages x unit address (balance - x.be_load m.value) (pending + 1) messages)) [
                | inr (text, failed) ↦ absurd (ground (arith, here, failed))
                | inl ((rest', later), run) ↦
                    let ends : ((true, m) ∷ later) ≡ messages' = ground (arith, here, run) in
                    let same : m.receiver ≡ address = bytes_eq_sound m.receiver address here in
                    subst (Clear another) ends (
                      inl (ap (λ (r : Bytes). bytes_eq r another) same ∙ apart),
                      mark_messages-Clear unit address another (balance - x.be_load m.value)
                          (pending + 1) rest' messages later apart clear.1 run,
                    )
              ]
      ]

  pub mark_messages-AllClear :
      (unit : ℕ) (address : Bytes) (balance pending rest : ℕ) (messages messages' : List Marked)
      (objects : List (Bytes × Account))
      → Absent address objects
      → AllClear objects messages
      → mark_messages x unit address balance pending messages ≡ ok (rest, messages')
      → AllClear objects messages'
  mark_messages-AllClear unit address balance pending rest messages messages' [] absent clear e = tt
  mark_messages-AllClear unit address balance pending rest messages messages' (object ∷ objects)
        absent clear e =
      (
        mark_messages-Clear unit address object.0 balance pending rest messages messages' absent.0
            clear.0 e,
        mark_messages-AllClear unit address balance pending rest messages messages' objects absent.1
            clear.1 e,
      )

-- At first nothing is marked.
abbrev pub unmarked : List FilteredMessage → List Marked
unmarked = map (λ (m : FilteredMessage). (false, m))

pub unmarked-Clear :
    (address : Bytes) (messages : List FilteredMessage) → Clear address (unmarked messages)
unmarked-Clear address [] = tt
unmarked-Clear address (m ∷ messages) = (inr refl, unmarked-Clear address messages)

pub unmarked-AllClear :
    (objects : List (Bytes × Account)) (messages : List FilteredMessage)
    → AllClear objects (unmarked messages)
unmarked-AllClear [] messages = tt
unmarked-AllClear (object ∷ objects) messages =
    (unmarked-Clear object.0 messages, unmarked-AllClear objects messages)

pub unmarked-Whole :
    (x : Intx) (unit : ℕ) (messages : List FilteredMessage)
    → Whole x unit (unmarked messages) × (marked_worth x (unmarked messages) ≡ 0)
unmarked-Whole x unit [] = (tt, refl)
unmarked-Whole x unit (m ∷ messages) =
    let rest = unmarked-Whole x unit messages in ((inl refl, rest.0), omega (arith, rest.1))
