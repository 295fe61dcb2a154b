-- ===== src/Contract/Fixed/Prices.antt =====
-- src/config_wrapper.cpp: promotions and the price queues, for the chain's part of the configuration.
use eos_evm_contract.Prelude.{
  ℕ, ◌==◌, ltb, leb, ◌≡◌, refl, Bool, true, [], ◌∷◌, ok, arith, ◌||◌, ◌∙◌, inl, inr, Bool-cases, ap,
}
use eos_evm_contract.Config.{
  ConfigWrapper, Platform, GasParameter, get_evm_version_and_maybe_promote, get_evm_version,
  set_gas_price, set_gas_prices, current_block,
}
use eos_evm_contract.Config.Consensus.{get_consensus_param_and_maybe_promote}
use eos_evm_contract.Config.Prices.{process_price_queue, old_queue, new_queue}
use eos_evm_contract.PriceQueue.{PriceQueue, process_loop, process_queue, front_of}
use eos_evm_contract.Table.{Table}
use eos_evm_contract.Contract.{Host, Contract, with_config}
use eos_evm_contract.Contract.Ingress.{process_prices}
use eos_evm_contract.Contract.Fixed.{chain_of, frame_of}

pub get_evm_version-chain :
    (e : Platform) (w w' : ConfigWrapper) (version : ℕ)
    → get_evm_version_and_maybe_promote e w ≡ ok (w', version)
    → chain_of w' ≡ chain_of w
unfolding get_evm_version_and_maybe_promote
get_evm_version-chain e w w' version run = ground arith

pub get_consensus_param-chain :
    (e : Platform) (w w' : ConfigWrapper) (g : GasParameter) (promoted : Bool)
    → get_consensus_param_and_maybe_promote e w ≡ ok (w', g, promoted)
    → chain_of w' ≡ chain_of w
unfolding get_consensus_param_and_maybe_promote
get_consensus_param-chain e w w' g promoted run = ground arith

-- A run through a queue of prices keeps what its update keeps.
module _ {V : Type 0} (update : V → ConfigWrapper → ConfigWrapper)
    (keeps : (v : V) (w : ConfigWrapper) → chain_of (update v w) ≡ chain_of w) where
  process_loop-chain :
      (current : ℕ) (w : ConfigWrapper) (front : ℕ) (dirty : Bool) (rows : Table V)
      → chain_of (process_loop update current w front dirty rows).0 ≡ chain_of w
  unfolding process_loop
  process_loop-chain current w front dirty [] = refl
  process_loop-chain current w front dirty ((block, v) ∷ rows) =
      let next = process_loop-chain current (update v w) (front_of rows) true rows in
      let one = keeps v w in
      elim (Bool-cases (leb block current)) [
        | inl due ↦ ground (arith, due, next ∙ one)
        | inr waits ↦ ground (arith, waits)
      ]

  process_queue-chain :
      (current : ℕ) (w : ConfigWrapper) (q : PriceQueue V)
      → chain_of (process_queue update current w q).0 ≡ chain_of w
  unfolding process_queue
  process_queue-chain current w q =
      let all = process_loop-chain current w q.front q.dirty q.rows in
      elim (Bool-cases (q.front == 0 || ltb current q.front)) [
        | inl nothing ↦ ground (arith, nothing)
        | inr due ↦ ground (arith, due, all)
      ]

process_price_queue-chain :
    (e : Platform) (w : ConfigWrapper) → chain_of (process_price_queue e w) ≡ chain_of w
unfolding process_price_queue
process_price_queue-chain e w =
    let old =
      process_queue-chain set_gas_price (λ p w. unfold set_gas_price in refl) (current_block e w) w
        (old_queue w) in
    let new =
      process_queue-chain set_gas_prices (λ p w. unfold set_gas_prices in refl) (current_block e w)
        w (new_queue w) in
    elim (Bool-cases (leb 3 (get_evm_version e w))) [
      | inl pairs ↦ ground (arith, pairs, new)
      | inr single ↦ ground (arith, single, old)
    ]

pub promoted_frame :
    (e : Platform) (c : Contract) (w : ConfigWrapper) (version : ℕ)
    → get_evm_version_and_maybe_promote e c.config ≡ ok (w, version)
    → frame_of (with_config c w) ≡ frame_of c
promoted_frame e c w version run =
    ap (λ (k : ℕ × ℕ × ℕ × Bool). (k, c.nextnonces))
      (get_evm_version-chain e c.config w version run)

pub process_prices-frame_of : (h : Host) (c : Contract) → frame_of (process_prices h c) ≡ frame_of c
unfolding process_prices
process_prices-frame_of h c =
    let kept = process_price_queue-chain h.platform c.config in
    elim (Bool-cases (leb 1 (get_evm_version h.platform c.config))) [
      | inl processed ↦ ground (arith, processed, kept)
      | inr before ↦ ground (arith, before)
    ]
