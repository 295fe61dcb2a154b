-- ===== src/Contract/Init.antt =====
-- src/actions.cpp: init. The chains that silkworm knows (lookup_known_chain) are a parameter.
use eos_evm_contract.Prelude.{
  ℕ, ◌/◌, ◌%◌, Bool, not, false, Option, none, some, Result, ok, ◌>>=◌, ◌>>◌, check, value_or,
}
use eos_evm_contract.Balance.{no_symbol, Symbol}
use eos_evm_contract.PriceQueue.{two_32}
use eos_evm_contract.Config.{
  Platform, ConfigWrapper, set_version, set_chainid, set_genesis_time, set_token_contract,
}
use eos_evm_contract.Config.Fees.{FeeParameters, set_fee_parameters}
use eos_evm_contract.Contract.{Host, Contract, require_auth, zero_balance}
use eos_evm_contract.Contract.Accounts.{open_internal_balance}

-- The symbol of the fee, which set_fee_parameters has demanded before it is read.
abbrev pub fee_symbol : FeeParameters → Symbol
fee_symbol params = elim params.ingress_bridge_fee [ none ↦ no_symbol | some fee ↦ fee.symbol ]

-- The configuration that init writes; the genesis time is the current one, rounded down to seconds.
unfoldable pub init_config :
    Platform → ℕ → FeeParameters → Option ℕ → ConfigWrapper → Result ConfigWrapper
unfolding set_version set_chainid set_genesis_time
init_config e chainid params token_contract w = do
  let dated = set_genesis_time (e.now / 1000000 % two_32) (set_chainid chainid (set_version 0 w))
  paid ← set_fee_parameters e false params dated
  ok (elim token_contract [ none ↦ paid | some name ↦ set_token_contract name paid ])

module _ (known_chain : ℕ → Bool) where
  unfoldable pub init : Host → ℕ → FeeParameters → Option ℕ → Contract → Result Contract
  unfolding init_config
  init h chainid params token_contract c = do
    require_auth h h.self
    check (not c.config.exists) "contract already initialized"
    check (known_chain chainid) "unknown chainid"
    w ← init_config h.platform chainid params token_contract c.config
    ok (
        open_internal_balance h.self (record c {
          config = w;
          inevm = some (value_or c.inevm (zero_balance (fee_symbol params)));
        }))
