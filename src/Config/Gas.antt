-- ===== src/Config/Gas.antt =====
-- src/config_wrapper.cpp: check_gas_overflow, and when gas parameters take effect.
use native.Mathlib.Nat.{mul-le-mul_right}
use eos_evm_contract.Prelude.{
  ℕ, ◌+◌, ◌*◌, ◌/◌, ◌≤◌, ◌<◌, ◌≡◌, leb, ltb, ok, arith, Bool-cases, inl, inr, ltb→lt, ltb_false→le,
}
use eos_evm_contract.Config.Consensus.{overflow_limit, check_gas_overflow}

-- For gas_txcreate above zero the check does not trap, and passes exactly when the largest code size
-- times gas_txcreate, with gas_codedeposit added once, does not pass 2^63 - 1.
pub check_gas_overflow-exact :
    (max_code_size gas_txcreate gas_codedeposit : ℕ)
    → 0 < gas_txcreate
    → check_gas_overflow max_code_size gas_txcreate gas_codedeposit
      ≡ ok (leb (max_code_size * gas_txcreate + gas_codedeposit) overflow_limit)
unfolding check_gas_overflow
check_gas_overflow-exact m t d h =
    let whole : overflow_limit < (overflow_limit / t + 1) * t = omega arith in
    elim (Bool-cases (ltb (overflow_limit / t) m)) [
      | inl over ↦ rw over (
          ground (
            arith,
            mul-le-mul_right {m = overflow_limit / t + 1} {n = m} t
                (omega (arith, ltb→lt _ _ over)),
          ))
      | inr within ↦
          let fits : m * t ≤ overflow_limit =
            omega (arith, mul-le-mul_right t (ltb_false→le _ _ within)) in
          rw within (ground (arith, fits))
    ]
