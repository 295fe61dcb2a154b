-- ===== src/Config/Version.antt =====
-- src/config_wrapper.cpp: set_evm_version.
use eos_evm_contract.Prelude.{
  ℕ, not, ◌||◌, leb, ltb, ◌==◌, value_or, Result, ok, ◌>>=◌, ◌>>◌, check, if◌then◌else◌,
}
use eos_evm_contract.Promoter.{update}
use eos_evm_contract.Config.{Platform, ConfigWrapper, write, get_evm_version_and_maybe_promote}

-- The visitor sets the new version, and clears the old price when it is version 3.
unfoldable pub set_evm_version : Platform → ℕ → ConfigWrapper → Result ConfigWrapper
set_evm_version e new_version c = do
  check (leb new_version e.max_eos_evm_version) "Unsupported version"
  check (not (new_version == 3) || c.queue_front_block == 0) "price queue must be empty"
  check (not (new_version == 3) || not (value_or c.gas_prices.storage_price 0 == 0))
      "storage price must be set"
  r ← get_evm_version_and_maybe_promote e c
  check (ltb r.1 new_version) "new version must be greater than the active one"
  let c' = r.0
  v ← update (e.block_num c'.genesis_time) c'.evm_version (λ _. ok new_version) e.now
  ok (
      write c' (record (c'.cached) {
        evm_version = v;
        gas_price = if new_version == 3 then 0 else c'.gas_price;
      }))
