-- ===== src/Config/Prices.antt =====
-- src/config_wrapper.cpp: enqueue_gas_price, enqueue_gas_prices and process_price_queue.
use eos_evm_contract.Prelude.{
  ℕ, ◌+◌, ◌*◌, ◌%◌, Bool, Option, none, some, ◌&&◌, ◌||◌, leb, ◌==◌, Result, ok, ◌>>=◌,
  if◌then◌else◌,
}
use eos_evm_contract.PriceQueue.{PriceQueue, two_32, enqueue, process_queue}
use eos_evm_contract.Config.{
  Platform, GasPrices, Config, ConfigWrapper, option_eq, gas_prices_eq, set_gas_price,
  set_gas_prices, grace_period_seconds, get_evm_version, current_block,
}

-- The queue of single prices, before version 3, and that of price pairs, from version 3 on. Both
-- tables share the cached front.
abbrev pub old_queue : ConfigWrapper → PriceQueue ℕ
old_queue c = record { front = c.queue_front_block; dirty = c.dirty; rows = c.price_queue }

abbrev pub new_queue : ConfigWrapper → PriceQueue GasPrices
new_queue c = record { front = c.queue_front_block; dirty = c.dirty; rows = c.prices_queue }

abbrev pub with_front : ConfigWrapper → ℕ → Config
with_front c front = record (c.cached) { queue_front_block = front }

abbrev pub with_old_queue : ConfigWrapper → PriceQueue ℕ → ConfigWrapper
with_old_queue c q = record c {
  cached = with_front c q.front;
  dirty = q.dirty;
  price_queue = q.rows;
}

abbrev pub with_new_queue : ConfigWrapper → PriceQueue GasPrices → ConfigWrapper
with_new_queue c q = record c {
  cached = with_front c q.front;
  dirty = q.dirty;
  prices_queue = q.rows;
}

-- `!given.has_value() || current == given`
abbrev pub agrees : Option ℕ → Option ℕ → Bool
agrees none current = Bool.true
agrees (some a) current = option_eq current (some a)

-- is_same_as_current_price
abbrev pub is_current_prices : ConfigWrapper → GasPrices → Bool
is_current_prices c p =
    agrees p.overhead_price c.gas_prices.overhead_price
    && agrees p.storage_price c.gas_prices.storage_price

module _ (e : Platform) where
  -- The block after the one in which the grace period ends, a uint32_t.
  abbrev pub activation_block : ConfigWrapper → ℕ
  activation_block c =
      (e.block_num c.genesis_time (e.now + grace_period_seconds * 1000000) + 1) % two_32

  unfoldable pub enqueue_gas_price : ℕ → ConfigWrapper → Result ConfigWrapper
  enqueue_gas_price p c = do
    q ← enqueue ◌==◌ (c.gas_price == p) (old_queue c) (activation_block c) p
    ok (with_old_queue c q)

  unfoldable pub enqueue_gas_prices : GasPrices → ConfigWrapper → Result ConfigWrapper
  enqueue_gas_prices p c = do
    q ← enqueue gas_prices_eq (is_current_prices c p) (new_queue c) (activation_block c) p
    ok (with_new_queue c q)

  -- The price that each processed row sets is set in the cached row, with the dirty mark.
  unfoldable pub process_price_queue : ConfigWrapper → ConfigWrapper
  process_price_queue c =
      if leb 3 (get_evm_version e c)
      then (let (c', q) = process_queue set_gas_prices (current_block e c) c (new_queue c) in
          with_new_queue c' (record q { dirty = c'.dirty || q.dirty }))
      else (let (c', q) = process_queue set_gas_price (current_block e c) c (old_queue c) in
          with_old_queue c' (record q { dirty = c'.dirty || q.dirty }))
