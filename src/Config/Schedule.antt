-- ===== src/Config/Schedule.antt =====
-- src/config_wrapper.cpp: when a gas price takes effect.
use eos_evm_contract.Prelude.{
  ℕ, ◌≤◌, ◌<◌, ◌≡◌, refl, true, false, leb, ◌==◌, ==_iff, ok, ◌>>=◌, ◌∷◌, [], arith, if◌then◌else◌,
  sym, ap, ◌∙◌,
}
use eos_evm_contract.Table.{Table, put}
use eos_evm_contract.PriceQueue.{process_queue, enqueue}
use eos_evm_contract.PriceQueue.Schedule.{IsQueue, in_force, process_queue-in_force}
use eos_evm_contract.PriceQueue.Enqueue.{AtMost, enqueue-in_force}
use eos_evm_contract.Config.{
  Platform, ConfigWrapper, GasPrices, set_gas_price, set_gas_prices, get_evm_version, current_block,
  gas_prices_eq, merge_gas_prices,
}
use eos_evm_contract.Config.Prices.{
  with_old_queue, old_queue, new_queue, activation_block, enqueue_gas_price, enqueue_gas_prices,
  process_price_queue, is_current_prices,
}

-- The single price in force at a block, from the cached price and the queue.
abbrev pub price_at : ℕ → ConfigWrapper → ℕ
price_at n c = in_force (λ v _. v) n c.gas_price c.price_queue

-- A price set before version 3 takes effect at exactly the block after its grace period, and not
-- before, if no queued price lies later; the queue stays in order, and its cached front its first block.
pub enqueue_gas_price-price_at :
    (e : Platform) (c : ConfigWrapper) (p n : ℕ)
    → IsQueue (old_queue c)
    → 0 < activation_block e c
    → AtMost (activation_block e c) c.price_queue
    → (c' : ConfigWrapper) × (enqueue_gas_price e p c ≡ ok c')
      × IsQueue (old_queue c')
      × (price_at n c' ≡ (if leb (activation_block e c) n then p else price_at n c))
unfolding enqueue_gas_price
enqueue_gas_price-price_at e c p n h pos late =
    let r =
      enqueue-in_force (λ v _. v) (λ v w q. refl) ◌==◌ (c.gas_price == p) (old_queue c)
        (activation_block e c) n p c.gas_price (λ a b s. (==_iff a b).0 s)
        (λ s. sym ((==_iff c.gas_price p).0 s)) pos (omega arith) h late in
    (with_old_queue c r.0, rw r.1, r.2, r.3)

price_of_in_force :
    (n : ℕ) (c : ConfigWrapper) (q : Table ℕ)
    → (in_force set_gas_price n c q).gas_price ≡ in_force (λ v _. v) n c.gas_price q
unfolding set_gas_price
price_of_in_force n c [] = refl
price_of_in_force n c ((block, v) ∷ q) =
    ground (arith, price_of_in_force n (set_gas_price v c) q, price_of_in_force n c q)

-- Before version 3, processing makes the price in force at the current block the cached price,
-- keeps the queue in order, and changes the price in force at no later block.
pub process_price_queue-price_at :
    (e : Platform) (c : ConfigWrapper) (n : ℕ)
    → get_evm_version e c < 3
    → IsQueue (old_queue c)
    → current_block e c ≤ n
    → let c' = process_price_queue e c in
      (c'.gas_price ≡ price_at (current_block e c) c)
      × IsQueue (old_queue c')
      × (price_at n c' ≡ price_at n c)
unfolding process_price_queue
process_price_queue-price_at e c n old h k =
    let r = process_queue-in_force set_gas_price (current_block e c) n c (old_queue c) h k in
    let before : leb 3 (get_evm_version e c) ≡ false = ground arith in
    let done = process_queue set_gas_price (current_block e c) c (old_queue c) in
    rw before (
      ap (λ (w : ConfigWrapper). w.gas_price) r.0
          ∙ price_of_in_force (current_block e c) c c.price_queue,
      record { ascends = r.1.ascends; front_is = r.1.front_is },
      sym (price_of_in_force n done.0 done.1.rows)
          ∙ ap (λ (w : ConfigWrapper). w.gas_price) r.2
          ∙ price_of_in_force n c c.price_queue,
    )

-- The price pair in force at a block, from version 3 on: each queued pair replaces what it gives.
abbrev pub prices_at : ℕ → ConfigWrapper → GasPrices
prices_at n c = in_force merge_gas_prices n c.gas_prices c.prices_queue

prices_of_in_force :
    (n : ℕ) (c : ConfigWrapper) (q : Table GasPrices)
    → (in_force set_gas_prices n c q).gas_prices ≡ in_force merge_gas_prices n c.gas_prices q
unfolding set_gas_prices
prices_of_in_force n c [] = refl
prices_of_in_force n c ((block, v) ∷ q) =
    ground (arith, prices_of_in_force n (set_gas_prices v c) q, prices_of_in_force n c q)

-- From version 3 on, processing makes the price pair in force at the current block the cached pair,
-- keeps the queue in order, and changes the pair in force at no later block.
pub process_price_queue-prices_at :
    (e : Platform) (c : ConfigWrapper) (n : ℕ)
    → 3 ≤ get_evm_version e c
    → IsQueue (new_queue c)
    → current_block e c ≤ n
    → let c' = process_price_queue e c in
      (c'.gas_prices ≡ prices_at (current_block e c) c)
      × IsQueue (new_queue c')
      × (prices_at n c' ≡ prices_at n c)
unfolding process_price_queue
process_price_queue-prices_at e c n new h k =
    let r = process_queue-in_force set_gas_prices (current_block e c) n c (new_queue c) h k in
    let since : leb 3 (get_evm_version e c) ≡ true = ground arith in
    let done = process_queue set_gas_prices (current_block e c) c (new_queue c) in
    rw since (
      ap (λ (w : ConfigWrapper). w.gas_prices) r.0
          ∙ prices_of_in_force (current_block e c) c c.prices_queue,
      record { ascends = r.1.ascends; front_is = r.1.front_is },
      sym (prices_of_in_force n done.0 done.1.rows)
          ∙ ap (λ (w : ConfigWrapper). w.gas_prices) r.2
          ∙ prices_of_in_force n c c.prices_queue,
    )

-- From version 3 on a price pair that is queued in the block of an earlier one replaces that pair
-- whole: a price that only the earlier pair gave is dropped, though each pair alone would only
-- replace the prices that it gives.
pub enqueue_gas_prices-replaces :
    (e : Platform) (c : ConfigWrapper) (first second : GasPrices)
    → c.queue_front_block ≡ 0
    → c.prices_queue ≡ []
    → 0 < activation_block e c
    → is_current_prices c first ≡ false
    → gas_prices_eq second first ≡ false
    → (c' : ConfigWrapper) × ((enqueue_gas_prices e first c >>= enqueue_gas_prices e second)
        ≡ ok c')
      × (c'.prices_queue ≡ (activation_block e c, second) ∷ [])
      × (c'.queue_front_block ≡ activation_block e c)
unfolding enqueue_gas_prices enqueue put
enqueue_gas_prices-replaces e c first second empty none_queued pos new other = (
  record c {
    cached = record (c.cached) { queue_front_block = activation_block e c };
    dirty = true;
    prices_queue = (activation_block e c, second) ∷ [];
  },
  ground arith,
  refl,
  refl,
)
