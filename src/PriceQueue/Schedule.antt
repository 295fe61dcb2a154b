-- ===== src/PriceQueue/Schedule.antt =====
-- src/config_wrapper.cpp, process_queue: the queue as a schedule of the values in force.
use eos_evm_contract.Prelude.{
  ℕ, ◌≤◌, ◌<◌, ◌≡◌, refl, Bool, true, [], ◌∷◌, ◌||◌, ltb, leb, ◌==◌, if◌then◌else◌, arith,
  Bool-cases, sym, inl, inr,
}
use eos_evm_contract.Table.{Table}
use eos_evm_contract.PriceQueue.{PriceQueue, two_32, front_of, process_loop, process_queue}

-- Blocks ascend from above `low` and fit a uint32_t.
abbrev pub Ascends {ℓ} : {V : Type ℓ} → ℕ → Table V → Type 0
Ascends low [] = Unit {0}
Ascends low ((block, v) ∷ q) = (low < block) × (block < two_32) × Ascends block q

-- The invariant of a queue: ascending positive blocks, and the cached front is the first block.
pub record IsQueue {ℓ} {V : Type ℓ} (q : PriceQueue V) : Type 0 where
  pub ascends : Ascends 0 q.rows
  pub front_is : q.front ≡ front_of q.rows

module _ {ℓ κ} {V : Type ℓ} {P : Type κ} (update : V → P → P) where
  -- The value in force at block `n`: every row up to `n` has taken effect, in order.
  abbrev pub in_force : ℕ → P → Table V → P
  in_force n p [] = p
  in_force n p ((block, v) ∷ q) = in_force n (if leb block n then update v p else p) q

  -- Nothing has taken effect below the first block.
  in_force_below : (n low : ℕ) (p : P) (q : Table V) → Ascends low q → n ≤ low → in_force n p q ≡ p
  in_force_below n low p [] h k = refl
  in_force_below n low p ((block, v) ∷ q) h k = ground (arith, in_force_below n block p q h.2)

  process_loop-in_force :
      (current low : ℕ) (p : P) (dirty : Bool) (q : Table V)
      → Ascends low q
      → let (p', q') = process_loop update current p (front_of q) dirty q in
        (p' ≡ in_force current p q) × Ascends 0 q'.rows × (q'.front ≡ front_of q'.rows)
  unfolding process_loop
  process_loop-in_force current low p dirty [] h = (refl, tt, refl)
  process_loop-in_force current low p dirty ((block, v) ∷ q) h = ground (
    arith,
    process_loop-in_force current block (update v p) true q h.2,
    in_force_below current block p q h.2,
  )

  process_loop-later :
      (current n low : ℕ) (p : P) (dirty : Bool) (q : Table V)
      → current ≤ n
      → Ascends low q
      → let (p', q') = process_loop update current p (front_of q) dirty q in
        in_force n p' q'.rows ≡ in_force n p q
  unfolding process_loop
  process_loop-later current n low p dirty [] k h = refl
  process_loop-later current n low p dirty ((block, v) ∷ q) k h =
      ground (arith, process_loop-later current n block (update v p) true q k h.2)

  idle_in_force :
      (current : ℕ) (p : P) (q : Table V)
      → Ascends 0 q
      → (front_of q == 0 || ltb current (front_of q)) ≡ true
      → in_force current p q ≡ p
  idle_in_force current p [] h k = refl
  idle_in_force current p ((block, v) ∷ q) h k =
      ground (arith, in_force_below current block p q h.2)

  -- Processing a queue that satisfies its invariant at block `current` leaves such a queue, makes the
  -- value in force at `current` the current one, and changes the value in force at no later block.
  pub process_queue-in_force :
      (current n : ℕ) (p : P) (q : PriceQueue V)
      → IsQueue q
      → current ≤ n
      → let (p', q') = process_queue update current p q in
        (p' ≡ in_force current p q.rows)
        × IsQueue q'
        × (in_force n p' q'.rows ≡ in_force n p q.rows)
  unfolding process_queue
  process_queue-in_force current n p q h k =
      elim (Bool-cases (q.front == 0 || ltb current q.front)) [
        | inl idle ↦
            rw idle
              (sym (idle_in_force current p q.rows h.ascends (rw h.front_is at idle)), h, refl)
        | inr due ↦
            rw (due, h.front_is)
              (later (process_loop-in_force current 0 p q.dirty q.rows h.ascends))
      ]
    where
      later :
          let (p', q') = process_loop update current p (front_of q.rows) q.dirty q.rows in
          (p' ≡ in_force current p q.rows) × Ascends 0 q'.rows × (q'.front ≡ front_of q'.rows)
          → (p' ≡ in_force current p q.rows)
            × IsQueue q'
            × (in_force n p' q'.rows ≡ in_force n p q.rows)
      later r = (
        r.0,
        record { ascends = r.1; front_is = r.2 },
        process_loop-later current n 0 p q.dirty q.rows k h.ascends,
      )
