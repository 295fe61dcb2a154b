-- ===== src/State/Gc.antt =====
-- src/state.cpp: gc, which removes at most `max` rows of the storage of removed accounts.
use eos_evm_contract.Prelude.{ℕ, zero, suc, Bool, true, false, [], ◌∷◌}
use eos_evm_contract.Table.{Table}
use eos_evm_contract.State.{EvmState, StorageRow, set_scope}

-- The inner loop over one storage table, each row of which costs one of `max`: what is left of both.
unfoldable pub gc_rows : ℕ → Table StorageRow → ℕ × Table StorageRow
gc_rows zero t = (0, t)
gc_rows (suc max) [] = (suc max, [])
gc_rows (suc max) (r ∷ t) = gc_rows max t

-- The outer loop, over the gcstore rows from the first on. The row itself costs one too, and stays
-- when nothing is left to pay for it.
unfoldable pub gc_loop : ℕ → Table ℕ → (ℕ → Table StorageRow) → Table ℕ × (ℕ → Table StorageRow)
unfolding gc_rows
gc_loop max [] storage = ([], storage)
gc_loop max ((id, scope) ∷ gc) storage =
    let (left, t) = gc_rows max (storage scope) in
    let cleared = set_scope scope t storage in
    elim left [ zero ↦ ((id, scope) ∷ gc, cleared) | suc left' ↦ gc_loop left' gc cleared ]

unfoldable pub gc : ℕ → EvmState → EvmState × Bool
unfolding gc_loop
gc max s =
    let (rows, storage) = gc_loop max s.gcstore s.storage in
    (
      record s { db = record (s.db) { gcstore = rows; storage = storage } },
      elim rows [ [] ↦ true | r ∷ rest ↦ false ],
    )
