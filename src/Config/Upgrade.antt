-- ===== src/Config/Upgrade.antt =====
-- src/config_wrapper.cpp: what set_evm_version demands, and when the new version is in force.
use eos_evm_contract.Prelude.{
  ℕ, ◌≤◌, ◌<◌, ◌≡◌, ◌≢◌, ◌⊎◌, true, ltb, value_or, ok, arith, if◌then◌else◌,
}
use eos_evm_contract.Promoter.{update}
use eos_evm_contract.Config.{
  Platform, ConfigWrapper, get_evm_version, get_evm_version_and_maybe_promote,
}
use eos_evm_contract.Config.Version.{set_evm_version}

-- The version as read at another time.
abbrev pub version_at : Platform → ℕ → ConfigWrapper → ℕ
version_at e t c = get_evm_version (record e { now = t }) c

-- What an accepted change of the version implies.
pub record Upgrades (e : Platform) (v : ℕ) (c c' : ConfigWrapper) : Type 0 where
  pub supported : v ≤ e.max_eos_evm_version
  pub newer : get_evm_version e c < v
  pub ready : (v ≢ 3) ⊎ ((c.queue_front_block ≡ 0) × (value_or c.gas_prices.storage_price 0 ≢ 0))
  pub marked : c'.dirty ≡ true

-- A version that is accepted is supported and newer than the active one; version 3 is accepted only
-- with no price change pending and a storage price set.
pub set_evm_version-Upgrades :
    (e : Platform) (v : ℕ) (c c' : ConfigWrapper)
    → set_evm_version e v c ≡ ok c'
    → Upgrades e v c c'
unfolding set_evm_version get_evm_version get_evm_version_and_maybe_promote update
set_evm_version-Upgrades e v c c' h = ground arith

-- It is in force from the block after the one in which it was set; readers in that block or before
-- see the version that was active.
pub set_evm_version-version_at :
    (e : Platform) (v t : ℕ) (c c' : ConfigWrapper)
    → set_evm_version e v c ≡ ok c'
    → version_at e t c' ≡ (
        if ltb (e.block_num c.genesis_time e.now) (e.block_num c.genesis_time t)
        then v
        else get_evm_version e c)
unfolding set_evm_version get_evm_version get_evm_version_and_maybe_promote update
set_evm_version-version_at e v t c c' h = ground arith
