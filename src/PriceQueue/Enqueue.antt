-- ===== src/PriceQueue/Enqueue.antt =====
-- src/config_wrapper.cpp, enqueue: a price change against the schedule of the values in force.
use eos_evm_contract.Prelude.{
  ℕ, ◌≤◌, ◌<◌, ◌≡◌, refl, Bool, true, false, Option, none, some, [], ◌∷◌, ◌&&◌, leb, ◌==◌, Result,
  ok, if◌then◌else◌, arith, Bool-cases, sym, leb→le, le→leb, inl, inr,
}
use eos_evm_contract.Table.{Table, put}
use eos_evm_contract.PriceQueue.{
  emplace_last, after_last, PriceQueue, two_32, last_row, front_of, enqueue,
}
use eos_evm_contract.PriceQueue.Schedule.{Ascends, IsQueue, in_force}

-- No row takes effect after block `limit`.
abbrev pub AtMost {ℓ} : {V : Type ℓ} → ℕ → Table V → Type 0
AtMost limit [] = Unit {0}
AtMost limit ((block, v) ∷ q) = (block ≤ limit) × AtMost limit q

module _ {ℓ} {V : Type ℓ} where
  last_row_le :
      (limit : ℕ) (q : Table V) (r : ℕ × V) → AtMost limit q → last_row q ≡ some r → r.0 ≤ limit
  last_row_le limit [] r h e = cc
  last_row_le limit (x ∷ []) r h e = ground arith
  last_row_le limit (x ∷ y ∷ q) r h e = last_row_le limit (y ∷ q) r h.1 e

  put-Ascends :
      (low block : ℕ) (v : V) (q : Table V)
      → low < block
      → block < two_32
      → Ascends low q
      → Ascends low (put block v q)
  unfolding put
  put-Ascends low block v [] l b h = (l, b, tt)
  put-Ascends low block v ((j, w) ∷ q) l b h = ground (arith, put-Ascends j block v q)

  front_of-put :
      (block : ℕ) (v : V) (q : Table V)
      → block < two_32
      → Ascends 0 q
      → AtMost block q
      → front_of (put block v q) ≡ (if front_of q == 0 then block else front_of q)
  unfolding put
  front_of-put block v [] b h k = omega arith
  front_of-put block v ((j, w) ∷ q) b h k = ground arith

  front_of_last :
      (q : Table V) (r : ℕ × V) → Ascends 0 q → last_row q ≡ some r → (front_of q == 0) ≡ false
  front_of_last [] r h e = cc
  front_of_last (x ∷ q) r h e = ground arith

module _ {V P : Type 0} (update : V → P → P)
    (overrides : (v w : V) (p : P) → update v (update w p) ≡ update v p) where
  in_force-put :
      (n block low : ℕ) (v : V) (p : P) (q : Table V)
      → Ascends low q
      → AtMost block q
      → in_force update n p (put block v q)
        ≡ (if leb block n then update v (in_force update n p q) else in_force update n p q)
  unfolding put
  in_force-put n block low v p [] a h = refl
  in_force-put n block low v p ((j, w) ∷ []) a h = ground (arith, overrides v w p)
  in_force-put n block low v p ((j, w) ∷ r ∷ q) a h = ground (
    arith,
    in_force-put n block j v (update w p) (r ∷ q) a.2 h.1,
    in_force-put n block j v p (r ∷ q) a.2 h.1,
  )

  in_force-last :
      (n limit : ℕ) (v : V) (p : P) (q : Table V) (block : ℕ)
      → limit ≤ n
      → AtMost limit q
      → last_row q ≡ some (block, v)
      → update v (in_force update n p q) ≡ in_force update n p q
  in_force-last n limit v p [] block k h e = cc
  in_force-last n limit v p (x ∷ []) block k h e = ground (arith, overrides x.1 x.1 p)
  in_force-last n limit v p (x ∷ y ∷ q) block k h e =
      in_force-last n limit v (if leb x.0 n then update x.1 p else p) (y ∷ q) block k h.1 e

  -- The rows after an accepted value: those that were there, and the new one at its block.
  Accepts : ℕ → ℕ → V → P → PriceQueue V → Result (PriceQueue V) → Type 0
  Accepts n block v p q r =
      (q' : PriceQueue V) × (r ≡ ok q')
      × IsQueue q'
      × (in_force update n p q'.rows ≡ (
          if leb block n
          then update v (in_force update n p q.rows)
          else in_force update n p q.rows))

  Accepts-emplace :
      (n block : ℕ) (v : V) (p : P) (q : PriceQueue V)
      → 0 < block
      → block < two_32
      → IsQueue q
      → AtMost block q.rows
      → Accepts n block v p q (ok (emplace_last q block v))
  unfolding emplace_last Accepts
  Accepts-emplace n block v p q pos small h k = (
    emplace_last q block v,
    refl,
    record {
      ascends = put-Ascends 0 block v q.rows pos small h.ascends;
      front_is = rw (front_of-put block v q.rows small h.ascends k) (rw h.front_is refl);
    },
    in_force-put n block 0 v p q.rows h.ascends k,
  )

  Accepts-modify :
      (n block : ℕ) (v : V) (p : P) (q : PriceQueue V) (r : ℕ × V)
      → last_row q.rows ≡ some r
      → 0 < block
      → block < two_32
      → IsQueue q
      → AtMost block q.rows
      → Accepts n block v p q (ok (record q { rows = put block v q.rows }))
  unfolding Accepts
  Accepts-modify n block v p q r e pos small h k = (
    record q { rows = put block v q.rows },
    refl,
    record {
      ascends = put-Ascends 0 block v q.rows pos small h.ascends;
      front_is =
          rw (front_of-put block v q.rows small h.ascends k, front_of_last q.rows r h.ascends e)
            h.front_is;
    },
    in_force-put n block 0 v p q.rows h.ascends k,
  )

  Accepts-same :
      (n block : ℕ) (v : V) (p : P) (q : PriceQueue V) (last : ℕ)
      → last_row q.rows ≡ some (last, v)
      → IsQueue q
      → AtMost block q.rows
      → Accepts n block v p q (ok q)
  unfolding Accepts
  Accepts-same n block v p q last e h k = (
    q,
    refl,
    h,
    elim (Bool-cases (leb block n)) [
      | inl reached ↦
          rw reached (sym (in_force-last n block v p q.rows last (leb→le _ _ reached) k e))
      | inr ahead ↦ rw ahead refl
    ],
  )

  -- A price change that is accepted when no row lies later than its activation block: it is in force
  -- from exactly that block on, and no earlier block sees it. The queue stays in order.
  pub enqueue-in_force :
      (same : V → V → Bool) (is_current : Bool) (q : PriceQueue V) (block n : ℕ) (v : V) (p : P)
      → ((a b : V) → same a b ≡ true → a ≡ b)
      → (is_current ≡ true → update v p ≡ p)
      → 0 < block
      → block < two_32
      → IsQueue q
      → AtMost block q.rows
      → (q' : PriceQueue V) × (enqueue same is_current q block v ≡ ok q')
        × IsQueue q'
        × (in_force update n p q'.rows ≡ (
            if leb block n
            then update v (in_force update n p q.rows)
            else in_force update n p q.rows))
  unfolding enqueue Accepts
  enqueue-in_force same is_current q block n v p sound current pos small h k =
      elim (Bool-cases (q.front == 0 && is_current)) [
        | inl unchanged ↦ rw unchanged (stays unchanged)
        | inr changed ↦ rw changed (from_last (last_row q.rows) refl)
      ]
    where
      from_last :
          (r : Option (ℕ × V))
          → last_row q.rows ≡ r
          → Accepts n block v p q (after_last same q block v r)
      from_last none e = Accepts-emplace n block v p q pos small h k
      from_last (some (last, w)) e = elim (Bool-cases (same v w)) [
        | inl equal ↦ rw equal (Accepts-same n block v p q last (rw (sound v w equal) e) h k)
        | inr other ↦
            rw (other, le→leb last block (last_row_le block q.rows (last, w) k e))
              (elim (Bool-cases (block == last)) [
                | inl meets ↦ rw meets (Accepts-modify n block v p q (last, w) e pos small h k)
                | inr later ↦ rw later (Accepts-emplace n block v p q pos small h k)
              ])
      ]

      empty_in_force :
          (rows : Table V) → Ascends 0 rows → front_of rows ≡ 0 → in_force update n p rows ≡ p
      empty_in_force [] a e = refl
      empty_in_force (r ∷ rows) a e = absurd (omega arith)

      stays : (q.front == 0 && is_current) ≡ true → Accepts n block v p q (ok q)
      stays e =
          let nothing = empty_in_force q.rows h.ascends (ground (arith, h.front_is)) in
          (q, refl, h, ground (arith, nothing, current))
