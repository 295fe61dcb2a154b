-- ===== src/PriceQueue.antt =====
-- src/config_wrapper.cpp: the templates enqueue and process_queue over a queue table whose rows are
-- keyed by the EVM block in which they take effect, with the cached `queue_front_block`, which is 0
-- when the queue is empty. What a row does when it takes effect (`update_func`) and how values are
-- compared are parameters, as in the templates.
use eos_evm_contract.Prelude.{
  ℕ, ◌%◌, Bool, true, false, Option, none, some, List, [], ◌∷◌, ◌||◌, ◌&&◌, ltb, leb, ◌==◌, Result,
  ok, err, ◌>>=◌, ◌>>◌, check, if◌then◌else◌,
}
use eos_evm_contract.Table.{Table, put}
pub mod Schedule
pub mod Enqueue

abbrev pub two_32 : ℕ
two_32 = 4294967296

-- The cached block of the first row, whether it was written (`set_queue_front_block` marks the
-- configuration as dirty), and the table.
pub record PriceQueue {ℓ} (V : Type ℓ) : Type ℓ where
  pub front : ℕ
  pub dirty : Bool
  pub rows : Table V

module _ {ℓ} {V : Type ℓ} where
  -- `--queue.end()`
  abbrev pub last_row : Table V → Option (ℕ × V)
  last_row [] = none
  last_row (r ∷ []) = some r
  last_row (r ∷ s ∷ q) = last_row (s ∷ q)

  -- `it != queue.end() ? it->block : 0`, passed as a uint32_t.
  abbrev pub front_of : Table V → ℕ
  front_of [] = 0
  front_of ((block, v) ∷ q) = block % two_32

  emplace_last : PriceQueue V → ℕ → V → PriceQueue V
  emplace_last q block v = record {
    front = if q.front == 0 then block else q.front;
    dirty = if q.front == 0 then true else q.dirty;
    rows = put block v q.rows;
  }

  after_last : (V → V → Bool) → PriceQueue V → ℕ → V → Option (ℕ × V) → Result (PriceQueue V)
  unfolding emplace_last
  after_last same q block v none = ok (emplace_last q block v)
  after_last same q block v (some (last, w)) = if same v w then ok q else do
    check (leb last block) "internal error"
    ok (if block == last then record q { rows = put block v q.rows } else emplace_last q block v)

  -- `is_current` says whether the new value is the one in force.
  unfoldable pub enqueue : (V → V → Bool) → Bool → PriceQueue V → ℕ → V → Result (PriceQueue V)
  unfolding after_last
  enqueue same is_current q block v =
      if q.front == 0 && is_current then ok q else after_last same q block v (last_row q.rows)

module _ {ℓ κ} {V : Type ℓ} {P : Type κ} (update : V → P → P) where
  unfoldable pub process_loop : ℕ → P → ℕ → Bool → Table V → P × PriceQueue V
  process_loop current p front dirty [] = (p, record { front = front; dirty = dirty; rows = [] })
  process_loop current p front dirty ((block, v) ∷ q) =
      let rest = process_loop current (update v p) (front_of q) true q in
      if leb block current
      then rest
      else (p, record { front = front; dirty = dirty; rows = (block, v) ∷ q })

  unfoldable pub process_queue : ℕ → P → PriceQueue V → P × PriceQueue V
  unfolding process_loop
  process_queue current p q =
      if q.front == 0 || ltb current q.front
      then (p, q)
      else process_loop current p q.front q.dirty q.rows
