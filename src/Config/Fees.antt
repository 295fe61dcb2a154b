-- ===== src/Config/Fees.antt =====
-- src/config_wrapper.cpp: set_fee_parameters, over struct fee_parameters of types.hpp.
use eos_evm_contract.Prelude.{
  ℕ, Bool, leb, ◌==◌, ◌||◌, Option, none, some, Result, ok, err, ◌>>=◌, ◌>>◌, check, if◌then◌else◌,
}
use eos_evm_contract.Prelude.Int.{pos, leb_ℤ}
use eos_evm_contract.Balance.{Asset, no_symbol, symbol_eq}
use eos_evm_contract.Config.{
  Platform, ConfigWrapper, write, get_evm_version, set_gas_price, set_ingress_bridge_fee,
  ninety_percent,
}
use eos_evm_contract.Config.Prices.{enqueue_gas_price}

pub record FeeParameters : Type 0 where
  pub gas_price : Option ℕ
  pub miner_cut : Option ℕ
  pub ingress_bridge_fee : Option Asset

module _ (e : Platform) (allow_any_to_be_unspecified : Bool) where
  -- The three blocks of set_fee_parameters, one for each parameter.
  unfoldable pub set_fee_gas_price : Option ℕ → ConfigWrapper → Result ConfigWrapper
  set_fee_gas_price (some p) c =
      if leb 3 (get_evm_version e c)
      then err "Can't use set_fee_parameters to set gas_price"
      else if leb 1 (get_evm_version e c)
      then enqueue_gas_price e p c
      else ok (set_gas_price p c)
  set_fee_gas_price none c = do
    check allow_any_to_be_unspecified "All required fee parameters not specified: missing gas_price"
    ok c

  unfoldable pub set_fee_miner_cut : Option ℕ → ConfigWrapper → Result ConfigWrapper
  set_fee_miner_cut (some cut) c = do
    check (get_evm_version e c == 0) "can't set miner_cut"
    check (leb cut ninety_percent) "miner_cut must <= 90%"
    ok (record c { cached = record (c.cached) { miner_cut = cut } })
  set_fee_miner_cut none c = do
    check allow_any_to_be_unspecified "All required fee parameters not specified: missing miner_cut"
    ok c

  unfoldable pub set_fee_ingress : Option Asset → ConfigWrapper → Result ConfigWrapper
  set_fee_ingress (some fee) c = do
    check
        (symbol_eq c.ingress_bridge_fee.symbol no_symbol
          || symbol_eq fee.symbol c.ingress_bridge_fee.symbol)
        "bridge symbol can't change"
    check (leb_ℤ (pos 0) fee.amount) "ingress bridge fee cannot be negative"
    set_ingress_bridge_fee fee c
  set_fee_ingress none c = do
    check allow_any_to_be_unspecified
        "All required fee parameters not specified: missing ingress_bridge_fee"
    ok c

  unfoldable pub set_fee_parameters : FeeParameters → ConfigWrapper → Result ConfigWrapper
  unfolding set_fee_gas_price set_fee_miner_cut set_fee_ingress
  set_fee_parameters params c = do
    c1 ← set_fee_gas_price params.gas_price c
    c2 ← set_fee_miner_cut params.miner_cut c1
    c3 ← set_fee_ingress params.ingress_bridge_fee c2
    ok (write c3 c3.cached)
