-- ===== src/Tests/Prices.antt =====
-- Balances, promoted values, the price queue and the configuration at concrete inputs.
use eos_evm_contract.Prelude.{ℕ, ◌≡◌, refl, true, none, some, [], ◌∷◌, ok, ◌+◌, arith, ◌>>=◌, Bool}
use eos_evm_contract.Balance.{add_amount, sub_amount}
use eos_evm_contract.Balance.Laws.{IsToken, holding, add_amount-holding, sub_amount-holding}
use eos_evm_contract.Promoter.{Promoter, update, get_value, get_value_and_maybe_promote}
use eos_evm_contract.Promoter.Laws.{get_value-update, get_value-promote}
use eos_evm_contract.PriceQueue.Schedule.{IsQueue}
use eos_evm_contract.Config.{
  ConfigWrapper, GasPrices, get_evm_version, get_evm_version_and_maybe_promote, merge_gas_prices,
}
use eos_evm_contract.Config.Prices.{
  old_queue, new_queue, enqueue_gas_price, enqueue_gas_prices, process_price_queue,
}
use eos_evm_contract.Config.Schedule.{
  price_at, prices_at, enqueue_gas_price-price_at, process_price_queue-price_at,
  process_price_queue-prices_at, enqueue_gas_prices-replaces,
}
use eos_evm_contract.Config.Upgrade.{
  Upgrades, version_at, set_evm_version-Upgrades, set_evm_version-version_at,
}
use eos_evm_contract.Config.Version.{set_evm_version}
use eos_evm_contract.Config.Gas.{check_gas_overflow-exact}
use eos_evm_contract.Config.Consensus.{check_gas_overflow}
use eos_evm_contract.Config.Row.{load, flush, load-flush}
use eos_evm_contract.Tests.Samples.{second_blocks, platform, token, wrapper, config}

token-IsToken : IsToken token
token-IsToken = record { named = refl; coarse = omega arith }

-- 7 token units and 30 of dust, and 1 unit less 10 of dust more.
add_amount-holding_example :
    add_amount (holding token 7 30) 99999999999990 ≡ ok (holding token 8 20)
add_amount-holding_example =
    add_amount-holding token 7 30 99999999999990 token-IsToken (omega arith) (omega arith)

sub_amount-holding_example :
    sub_amount (holding token 8 20) 99999999999990 ≡ ok (holding token 7 30)
sub_amount-holding_example =
    sub_amount-holding token 8 20 99999999999990 token-IsToken (omega arith) (omega arith)

abbrev switch : Promoter ℕ
switch = record { pending_value = some (record { value = 2; time = 50000000 }); cached_value = 1 }

get_value-update_example :
    (w : Promoter ℕ) × (update (second_blocks 10) switch (λ v. ok (v + 1)) 60000000 ≡ ok w)
    × (get_value (second_blocks 10) w 61000000 ≡ 3)
unfolding get_value
get_value-update_example =
    get_value-update (second_blocks 10) switch (λ v. ok (v + 1)) 3 60000000 61000000 refl

get_value-promote_example :
    (w : Promoter ℕ) × (promoted : Bool) × (get_value_and_maybe_promote
        (second_blocks 10)
        switch
        60000000
      ≡ ok (w, 2, promoted))
    × (get_value (second_blocks 10) w 70000000 ≡ 2)
    × (promoted ≡ true)
unfolding get_value
get_value-promote_example =
    get_value-promote (second_blocks 10) switch 60000000 70000000 (omega arith)

-- Block 91, and prices that take effect in blocks 50 and 200.
abbrev scheduled : ConfigWrapper
scheduled = record wrapper {
  cached = record config { queue_front_block = 50 };
  price_queue = (50, 160) ∷ (200, 170) ∷ [];
}

scheduled-IsQueue : IsQueue (old_queue scheduled)
scheduled-IsQueue = record { ascends = omega arith; front_is = refl }

enqueue_gas_price-price_at_example :
    (c : ConfigWrapper) × (enqueue_gas_price platform 180 scheduled ≡ ok c)
    × IsQueue (old_queue c)
    × (price_at 272 c ≡ 180)
enqueue_gas_price-price_at_example =
    enqueue_gas_price-price_at platform scheduled 180 272 scheduled-IsQueue (omega arith)
      (omega arith)

process_price_queue-price_at_example :
    ((process_price_queue platform scheduled).gas_price ≡ 160)
    × IsQueue (old_queue (process_price_queue platform scheduled))
    × (price_at 200 (process_price_queue platform scheduled) ≡ 170)
process_price_queue-price_at_example =
    process_price_queue-price_at platform scheduled 200 (unfold get_evm_version in omega arith)
      scheduled-IsQueue (omega arith)

-- Version 3, with a storage price from block 60 on and an overhead price from block 300 on.
abbrev paired : ConfigWrapper
paired = record wrapper {
  cached = record config {
    evm_version = record { pending_value = none; cached_value = 3 };
    queue_front_block = 60;
  };
  prices_queue =
      (60, record { overhead_price = none; storage_price = some 8 })
      ∷ (300, record { overhead_price = some 6; storage_price = none })
      ∷ [];
}

paired-IsQueue : IsQueue (new_queue paired)
paired-IsQueue = record { ascends = omega arith; front_is = refl }

process_price_queue-prices_at_example :
    ((process_price_queue platform paired).gas_prices
      ≡ record { overhead_price = some 5; storage_price = some 8 })
    × IsQueue (new_queue (process_price_queue platform paired))
    × (prices_at 300 (process_price_queue platform paired)
        ≡ record { overhead_price = some 6; storage_price = some 8 })
unfolding merge_gas_prices
process_price_queue-prices_at_example =
    process_price_queue-prices_at platform paired 300 (unfold get_evm_version in omega arith)
      paired-IsQueue (omega arith)

abbrev overhead_only : GasPrices
overhead_only = record { overhead_price = some 11; storage_price = none }

abbrev storage_only : GasPrices
storage_only = record { overhead_price = none; storage_price = some 12 }

enqueue_gas_prices-replaces_example :
    (c : ConfigWrapper) × ((enqueue_gas_prices platform overhead_only wrapper
        >>= enqueue_gas_prices platform storage_only)
      ≡ ok c)
    × (c.prices_queue ≡ (272, storage_only) ∷ [])
    × (c.queue_front_block ≡ 272)
enqueue_gas_prices-replaces_example =
    enqueue_gas_prices-replaces platform wrapper overhead_only storage_only refl refl (omega arith)
      refl refl

-- The wrapper after version 3 was set in block 91.
abbrev upgraded : ConfigWrapper
upgraded = record wrapper {
  cached = record config {
    evm_version = record {
      pending_value = some (record { value = 3; time = 100000000 });
      cached_value = 1;
    };
    gas_price = 0;
  };
  dirty = true;
}

set_evm_version_runs : set_evm_version platform 3 wrapper ≡ ok upgraded
unfolding set_evm_version get_evm_version_and_maybe_promote update
set_evm_version_runs = refl

set_evm_version-Upgrades_example : Upgrades platform 3 wrapper upgraded
set_evm_version-Upgrades_example =
    set_evm_version-Upgrades platform 3 wrapper upgraded set_evm_version_runs

set_evm_version-version_at_example : version_at platform 101000000 upgraded ≡ 3
set_evm_version-version_at_example =
    set_evm_version-version_at platform 3 101000000 wrapper upgraded set_evm_version_runs

check_gas_overflow-exact_example : check_gas_overflow 24576 606000 1000 ≡ ok true
check_gas_overflow-exact_example = check_gas_overflow-exact 24576 606000 1000 (omega arith)

load-flush_example :
    (load 77 (flush none upgraded) upgraded.price_queue upgraded.prices_queue).cached
    ≡ upgraded.cached
load-flush_example = load-flush 77 none upgraded
