-- ===== src/Tests/Parameters.antt =====
-- The gas parameters from a price of memory at concrete inputs, with fractions in place of doubles; and
-- a message in the layout of the ABI.
use eos_evm_contract.Prelude.{
  ℕ, ◌+◌, ◌*◌, ◌/◌, ◌≤◌, ◌<◌, ◌≡◌, refl, Bool, true, some, [], ◌∷◌, Result, ok, err, arith, ltb,
  leb, ◌==◌, if◌then◌else◌, replicate,
}
use eos_evm_contract.Prelude.Int.{pos_part, ◌-ℤ◌}
use eos_evm_contract.Balance.{pow10_const, pow10_loop}
use eos_evm_contract.Table.{put}
use eos_evm_contract.PriceQueue.{enqueue}
use eos_evm_contract.Promoter.{update}
use eos_evm_contract.Config.{ConfigWrapper, get_evm_version, default_gas_parameter, gas_sset_min}
use eos_evm_contract.Config.Prices.{enqueue_gas_price}
use eos_evm_contract.Config.Consensus.{
  update_consensus_parameters2, visit_gas, check_gas_overflow, get_minimum_natively_representable,
}
use eos_evm_contract.Config.RamPrice.{
  Double, gas_per_byte_of, set_storage_price, update_consensus_parameters,
}
use eos_evm_contract.Config.RamPrice.Exact.{update_consensus_parameters-exact}
use eos_evm_contract.Message.{MessageV0, decode_message}
use eos_evm_contract.Message.Layout.{layout, decode_message-layout}
use eos_evm_contract.Tests.Samples.{platform, wrapper, config, asset, intx}
use eos_evm_contract.Tests.Transactions.{stream}

-- Numerator and denominator; the one of infinity is zero.
abbrev pub Fraction : Type 0
Fraction = ℕ × ℕ

abbrev greater : Fraction → Fraction → Bool
greater x y = ltb (y.0 * x.1) (x.0 * y.1)

pub greater_lem : (a b k : ℕ) → greater (a * 1, 1 * b) (k, 1) ≡ true → b * k ≤ 2 * a
greater_lem a b k h = ground arith

abbrev whole_part : Fraction → Result ℕ
whole_part x = if x.1 == 0 then err "out of range" else ok (x.0 / x.1)

abbrev pub fractions : Double Fraction
fractions = record {
  of_int = λ z. (pos_part z, 1);
  of_nat = λ n. (n, 1);
  mul = λ x y. (x.0 * y.0, x.1 * y.1);
  div = λ x y. (x.0 * y.1, x.1 * y.0);
  add = λ x y. (x.0 * y.1 + y.0 * x.1, x.1 * y.1);
  gt = greater;
  ge = λ x y. leb (y.0 * x.1) (x.0 * y.1);
  to_uint64 = whole_part;
  gt-div = greater_lem;
}

abbrev updated : ConfigWrapper
updated = record wrapper {
  cached = record config {
    consensus_parameter = record {
      pending_value = some (record {
        value = record {
          gas_txnewaccount = 33312;
          gas_newaccount = 33312;
          gas_txcreate = 58176;
          gas_codedeposit = 96;
          gas_sset = 36116;
        };
        time = 100000000;
      });
      cached_value = default_gas_parameter;
    };
    queue_front_block = 272;
  };
  dirty = true;
  price_queue = (272, 1000000000) ∷ [];
}

-- At 0.1 token a megabyte, and 10^9 for a unit of gas, a byte costs 96.
updating :
    update_consensus_parameters platform fractions (asset 1000) 1000000000 wrapper ≡ ok updated
unfolding update_consensus_parameters gas_per_byte_of set_storage_price enqueue_gas_price enqueue
    update_consensus_parameters2 visit_gas check_gas_overflow get_minimum_natively_representable
    update get_evm_version pow10_const pow10_loop ◌-ℤ◌ put
updating = refl

update_consensus_parameters-exact_example :
    (g : ℕ) × (w : ConfigWrapper) × (0 < g)
    × (update_consensus_parameters2 platform
          (record {
            txnewaccount = some (347 * g);
            newaccount = some (347 * g);
            txcreate = some (606 * g);
            codedeposit = some g;
            sset =
                some (
                  (if ltb (get_evm_version platform wrapper) 3 then gas_sset_min else 0) + 346 * g);
          })
          wrapper
        ≡ ok w)
    × (set_storage_price platform (get_evm_version platform wrapper) 1000000000 w ≡ ok updated)
update_consensus_parameters-exact_example =
    update_consensus_parameters-exact platform fractions (asset 1000) 1000000000 wrapper updated
      (omega arith) updating

-- A text of nine bytes, and bytes that fill more than one word.
abbrev message : MessageV0
message = record {
  account = 1 ∷ 2 ∷ 3 ∷ 4 ∷ 5 ∷ 6 ∷ 7 ∷ 8 ∷ 9 ∷ [];
  force_atomic = true;
  contents = replicate 40 7;
}

decode_message-layout_example :
    decode_message stream intx (layout intx message (1 ∷ [])) ≡ ok (some message)
decode_message-layout_example =
    decode_message-layout stream intx message (1 ∷ []) (omega arith) (omega arith)
