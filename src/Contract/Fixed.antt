-- ===== src/Contract/Fixed.antt =====
-- src/actions.cpp: the part of the configuration that is for the chain, and the nonces, as the actions
-- leave them.
use eos_evm_contract.Prelude.{ℕ, Bool}
use eos_evm_contract.Table.{Table}
use eos_evm_contract.Config.{ConfigWrapper}
use eos_evm_contract.Contract.{Contract}
pub mod Execute
pub mod Messages
pub mod Prices
pub mod Process
pub mod Calls
pub mod Settings

-- The chain that the configuration is for: its id and genesis time, and the version of the row.
abbrev pub chain_of : ConfigWrapper → ℕ × ℕ × ℕ × Bool
chain_of w = (w.chainid, w.genesis_time, w.version, w.exists)

-- What a transaction that runs leaves, and with the promotions and the price queue before it.
abbrev pub kept_of : Contract → ConfigWrapper × Table ℕ
kept_of c = (c.config, c.nextnonces)

abbrev pub Frame : Type 0
Frame = (ℕ × ℕ × ℕ × Bool) × Table ℕ

abbrev pub frame_of : Contract → Frame
frame_of c = (chain_of c.config, c.nextnonces)

abbrev pub frame : ConfigWrapper × Table ℕ → Frame
frame k = (chain_of k.0, k.1)
