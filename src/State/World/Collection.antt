-- ===== src/State/World/Collection.antt =====
-- src/state.cpp: gc keeps what the tables keep, and shows in nothing that they stand for.
use eos_evm_contract.Prelude.{
  ℕ, zero, suc, ◌+◌, ◌≤◌, ◌==◌, Bool-cases, ◌≡◌, refl, some, [], ◌∷◌, ok, arith, Option-cases, inl,
  inr, ap, subst,
}
use eos_evm_contract.Table.{Table}
use eos_evm_contract.Table.Order.{IsAscending}
use eos_evm_contract.Table.Bounds.{IsAscending-lower}
use eos_evm_contract.Table.Index.{IsUnique}
use eos_evm_contract.Bytes.{Bytes}
use eos_evm_contract.State.{Evm, AccountRow, StorageRow, EvmState, find_account, set_scope}
use eos_evm_contract.State.Gc.{gc_rows, gc_loop, gc}
use eos_evm_contract.State.GcLaws.{
  Collects, gc_loop-spent, gc_loop-next, gc_loop-others, gc_rows-left,
}
use eos_evm_contract.State.World.{world}
use eos_evm_contract.State.World.Invariant.{IsState, IsScope, next_of}
use eos_evm_contract.State.World.Rows.{find_account-find}
use eos_evm_contract.State.World.Moves.{World-eq}
use eos_evm_contract.State.World.Writes.{Does}

-- What the inner loop leaves is a rest of the table.
gc_rows-rest :
    (P : Table StorageRow → Type 0)
    → ((id : ℕ) (r : StorageRow) (t : Table StorageRow) → P ((id, r) ∷ t) → P t)
    → (max : ℕ) (t : Table StorageRow) → P t
    → P (gc_rows max t).1
unfolding gc_rows
gc_rows-rest P next zero t p = p
gc_rows-rest P next (suc max) [] p = p
gc_rows-rest P next (suc max) ((id, r) ∷ t) p = gc_rows-rest P next max t (next id r t p)

IsScope-rest : (id : ℕ) (r : StorageRow) (t : Table StorageRow) → IsScope ((id, r) ∷ t) → IsScope t
unfolding IsAscending IsUnique
IsScope-rest id r t p = record {
  ordered = IsAscending-lower (id + 1) 0 t (omega arith) p.ordered.1;
  unique = p.unique.1;
}

-- What holds of each scope, and of all that is left of it, holds after the loop.
gc_loop-rest :
    (P : ℕ → Table StorageRow → Type 0)
    → ((i id : ℕ) (r : StorageRow) (t : Table StorageRow) → P i ((id, r) ∷ t) → P i t)
    → (max : ℕ) (gc : Table ℕ) (storage : ℕ → Table StorageRow) → ((i : ℕ) → P i (storage i))
    → (i : ℕ) → P i ((gc_loop max gc storage).1 i)
gc_loop-rest P next max [] storage p i = unfold gc_loop in p i
gc_loop-rest P next max ((id, scope) ∷ gc) storage p i =
    from_left (gc_rows max (storage scope)).0 refl (λ left st q. gc_loop-rest P next left gc st q i)
  where
    cleared : (j : ℕ) → P j (set_scope scope (gc_rows max (storage scope)).1 storage j)
    cleared j = elim (Bool-cases (j == scope)) [
      | inl here ↦
          let is_scope : scope ≡ j = ground (arith, here) in
          rw here (
            subst (λ (k : ℕ). P k (gc_rows max (storage scope)).1) is_scope
              (gc_rows-rest (P scope) (next scope) max (storage scope) (p scope)))
      | inr apart ↦ rw apart (p j)
    ]

    from_left :
        (left : ℕ)
        → (gc_rows max (storage scope)).0 ≡ left
        → ((left' : ℕ) (st : ℕ → Table StorageRow)
            → ((j : ℕ) → P j (st j))
            → P i ((gc_loop left' gc st).1 i))
        → P i ((gc_loop max ((id, scope) ∷ gc) storage).1 i)
    from_left zero e ih = rw (gc_loop-spent max id scope gc storage e) (cleared i)
    from_left (suc left) e ih = rw (gc_loop-next max id scope left gc storage e) (
        ih left (set_scope scope [] storage) (
          subst (λ (t : Table StorageRow). (j : ℕ) → P j (set_scope scope t storage j))
            (gc_rows-left max left (storage scope) e) cleared))

-- No scope is collected that was not collected before.
gc_loop-Collects :
    (max i : ℕ) (gc : Table ℕ) (storage : ℕ → Table StorageRow)
    → Collects i (gc_loop max gc storage).0
    → Collects i gc
gc_loop-Collects max i [] storage c = unfold gc_loop in c
gc_loop-Collects max i ((id, scope) ∷ gc) storage c =
    from_left (gc_rows max (storage scope)).0 refl (λ left st. gc_loop-Collects left i gc st)
  where
    from_left :
        (left : ℕ)
        → (gc_rows max (storage scope)).0 ≡ left
        → ((left' : ℕ) (st : ℕ → Table StorageRow)
            → Collects i (gc_loop left' gc st).0
            → Collects i gc)
        → Collects i ((id, scope) ∷ gc)
    from_left zero e ih =
        subst (Collects i)
          (ap (λ (t : Table ℕ × (ℕ → Table StorageRow)). t.0)
            (gc_loop-spent max id scope gc storage e))
          c
    from_left (suc left) e ih = inr (
        ih left (set_scope scope [] storage) (
          subst (λ (t : Table ℕ × (ℕ → Table StorageRow)). Collects i t.0)
            (gc_loop-next max id scope left gc storage e) c))

-- The scope of an account that is there is no garbage.
module _ (v : Evm) (s : EvmState) (h : IsState s) where
  found_kept :
      (max id : ℕ) (a : Bytes) (r : AccountRow)
      → find_account a s.accounts ≡ some (id, r)
      → (gc_loop max s.gcstore s.storage).1 id ≡ s.storage id
  found_kept max id a r found =
      let there = find_account-find (next_of s) id a r s.accounts h.accounts_valid found in
      gc_loop-others max id s.gcstore s.storage
        (λ c. ground (arith, (h.garbage_valid.unused id c).0, there.0))

  pub gc-Does : (max : ℕ) → Does v s (ok (gc max s).0) (world v s.db)
  unfolding gc next_of
  gc-Does max =
      let scope =
        gc_loop-rest (λ (i : ℕ) (t : Table StorageRow). IsScope t × (next_of s ≤ i → t ≡ []))
          (λ i id r t p. (IsScope-rest id r t p.0, λ above. ground (arith, p.1 above))) max
          s.gcstore s.storage (λ i. (h.scopes_valid.scopes i, h.scopes_valid.fresh i)) in
      record {
        after = (gc max s).0;
        ran = refl;
        valid = record {
          accounts_valid = h.accounts_valid;
          scopes_valid = record { scopes = λ i. (scope i).0; fresh = λ i. (scope i).1 };
          codes_valid = h.codes_valid;
          garbage_valid = record {
            unused =
                λ id c. h.garbage_valid.unused id (gc_loop-Collects max id s.gcstore s.storage c);
          };
          started = h.started;
        };
        means =
            World-eq _ _ (λ a. refl)
              (λ a l. elim (Option-cases (find_account a s.accounts)) [
                | inl missing ↦ rw missing refl
                | inr ((id, r), found) ↦ rw (found, found_kept max id a r found) refl
              ]);
        kept = refl;
        counts = λ k. omega arith;
      }
