-- ===== src/Config/Consensus.antt =====
-- src/config_wrapper.cpp: the gas parameters, update_consensus_parameters2, and check_gas_overflow.
use eos_evm_contract.Prelude.{
  ℕ, ◌+◌, ◌-◌, not, has_value, ◌*◌, ◌/◌, ◌%◌, Bool, true, false, ◌||◌, leb, ltb, ◌==◌, Option,
  value_or, Result, ok, err, ◌>>=◌, ◌>>◌, check, if◌then◌else◌,
}
use eos_evm_contract.Prelude.Int.{pos, ◌-ℤ◌, two_64}
use eos_evm_contract.Balance.{evm_precision, pow10_const}
use eos_evm_contract.Promoter.{get_value, get_value_and_maybe_promote, update}
use eos_evm_contract.Config.{
  Platform, ConfigWrapper, GasParameter, write, get_evm_version, gas_sset_min,
}

-- The five optional arguments of update_consensus_parameters2.
pub record GasUpdate : Type 0 where
  pub txnewaccount : Option ℕ
  pub newaccount : Option ℕ
  pub txcreate : Option ℕ
  pub codedeposit : Option ℕ
  pub sset : Option ℕ

-- (1ull << 63) - 1
abbrev pub overflow_limit : ℕ
overflow_limit = 9223372036854775807

-- get_minimum_natively_representable
unfoldable pub get_minimum_natively_representable : ConfigWrapper → Result ℕ
get_minimum_natively_representable w =
    pow10_const (pos evm_precision -ℤ pos w.ingress_bridge_fee.symbol.precision)

-- Whether the two gas costs are small enough; a division by zero traps. The product is a uint64_t.
unfoldable pub check_gas_overflow : ℕ → ℕ → ℕ → Result Bool
check_gas_overflow max_code_size gas_txcreate gas_codedeposit =
    if gas_txcreate == 0
    then err "integer divide by zero"
    else ok (
        if ltb (overflow_limit / gas_txcreate) max_code_size
        then false
        else (if ltb ((overflow_limit + (two_64 - max_code_size * gas_txcreate % two_64)) % two_64)
              gas_codedeposit
            then false
            else true))

module _ (e : Platform) where
  -- The visitor of the promoter.
  unfoldable pub visit_gas : GasUpdate → ℕ → GasParameter → Result GasParameter
  visit_gas g version v = do
    check (not (has_value g.sset) || (leb 3 version || leb gas_sset_min (value_or g.sset 0)))
        "gas_sset too small"
    ok (record {
      gas_txnewaccount = value_or g.txnewaccount v.gas_txnewaccount;
      gas_newaccount = value_or g.newaccount v.gas_newaccount;
      gas_txcreate = value_or g.txcreate v.gas_txcreate;
      gas_codedeposit = value_or g.codedeposit v.gas_codedeposit;
      gas_sset = value_or g.sset v.gas_sset;
    })

  unfoldable pub update_consensus_parameters2 : GasUpdate → ConfigWrapper → Result ConfigWrapper
  unfolding visit_gas
  update_consensus_parameters2 g c = do
    check (leb 1 (get_evm_version e c)) "evm_version must >= 1"
    p ←
        update (e.block_num c.genesis_time) c.consensus_parameter
          (visit_gas g (get_evm_version e c)) e.now
    ok (write c (record (c.cached) { consensus_parameter = p }))

  unfoldable pub get_consensus_param : ConfigWrapper → GasParameter
  get_consensus_param c = get_value (e.block_num c.genesis_time) c.consensus_parameter e.now

  unfoldable pub get_consensus_param_and_maybe_promote :
      ConfigWrapper → Result (ConfigWrapper × GasParameter × Bool)
  get_consensus_param_and_maybe_promote c = do
    r ← get_value_and_maybe_promote (e.block_num c.genesis_time) c.consensus_parameter e.now
    ok ((if r.2 then write c (record (c.cached) { consensus_parameter = r.0 }) else c), r.1, r.2)
