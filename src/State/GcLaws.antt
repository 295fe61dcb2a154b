-- ===== src/State/GcLaws.antt =====
-- src/state.cpp, gc: what a call removes, and when everything is collected.
use mathlib.Core.Path.{fun_ext}
use eos_evm_contract.Prelude.{
  ℕ, zero, suc, ◌+◌, ◌-◌, ◌*◌, ◌<◌, ◌≤◌, ◌≡◌, refl, Bool, true, false, [], ◌∷◌, length, arith, drop,
  ◌⊎◌, inl, inr, ap, leb, ◌∙◌, Bool-cases, ◌==◌,
}
use eos_evm_contract.Table.{Table}
use eos_evm_contract.State.{EvmState, StorageRow, set_scope}
use eos_evm_contract.State.Gc.{gc_rows, gc_loop, gc}

-- The inner loop removes the first rows, one for each unit of its budget.
gc_rows-eq-drop : (max : ℕ) (t : Table StorageRow) → (gc_rows max t).1 ≡ drop max t
unfolding gc_rows
gc_rows-eq-drop zero t = refl
gc_rows-eq-drop (suc max) [] = refl
gc_rows-eq-drop (suc max) (r ∷ t) = gc_rows-eq-drop max t

gc_rows-cost :
    (max : ℕ) (t : Table StorageRow) → (gc_rows max t).0 + length t ≡ max + length (gc_rows max t).1
unfolding gc_rows
gc_rows-cost zero t = refl
gc_rows-cost (suc max) [] = refl
gc_rows-cost (suc max) (r ∷ t) = omega (arith, gc_rows-cost max t)

-- The rows that the collector has to remove: the gcstore rows, and the rows of their scopes. Scopes
-- are counted once each.
abbrev pub garbage : Table ℕ → (ℕ → Table StorageRow) → ℕ
garbage [] storage = 0
garbage ((id, scope) ∷ gc) storage =
    suc (length (storage scope)) + garbage gc (set_scope scope [] storage)

set_scope-set_scope :
    (i : ℕ) (t u : Table StorageRow) (storage : ℕ → Table StorageRow)
    → set_scope i t (set_scope i u storage) ≡ set_scope i t storage
set_scope-set_scope i t u storage = fun_ext λ j. ground arith

set_scope_self :
    (i : ℕ) (t : Table StorageRow) (storage : ℕ → Table StorageRow) → set_scope i t storage i ≡ t
set_scope_self i t storage = ground arith

-- Which scopes are to be collected.
abbrev pub Collects : ℕ → Table ℕ → Type 0
Collects i [] = ⊥
Collects i ((id, scope) ∷ gc) = (i ≡ scope) ⊎ Collects i gc

Collects-dec : (i : ℕ) (gc : Table ℕ) → Collects i gc ⊎ (¬ Collects i gc)
Collects-dec i [] = inr λ none. none
Collects-dec i ((id, scope) ∷ gc) = elim (Bool-cases (i == scope)) [
  | inl same ↦ inl (inl (ground (arith, same)))
  | inr other ↦ elim (Collects-dec i gc) [
    | inl later ↦ inl (inr later)
    | inr never ↦ inr (elim [ inl same ↦ ground (arith, same, other) | inr later ↦ never later ])
  ]
]

pub gc_rows-left :
    (max left : ℕ) (t : Table StorageRow) → (gc_rows max t).0 ≡ suc left → (gc_rows max t).1 ≡ []
unfolding gc_rows
gc_rows-left zero left t h = absurd (omega arith)
gc_rows-left (suc max) left [] h = refl
gc_rows-left (suc max) left (r ∷ t) h = gc_rows-left max left t h

-- One round of the loop, by what is left of the budget after the scope of the first row.
pub gc_loop-spent :
    (max id scope : ℕ) (gc : Table ℕ) (storage : ℕ → Table StorageRow)
    → (gc_rows max (storage scope)).0 ≡ 0
    → gc_loop max ((id, scope) ∷ gc) storage
      ≡ ((id, scope) ∷ gc, set_scope scope (gc_rows max (storage scope)).1 storage)
unfolding gc_loop
gc_loop-spent max id scope gc storage e = rw (e, gc_loop)

pub gc_loop-next :
    (max id scope left : ℕ) (gc : Table ℕ) (storage : ℕ → Table StorageRow)
    → (gc_rows max (storage scope)).0 ≡ suc left
    → gc_loop max ((id, scope) ∷ gc) storage ≡ gc_loop left gc (set_scope scope [] storage)
unfolding gc_loop
gc_loop-next max id scope left gc storage e =
    rw (e, gc_loop) (rw (gc_rows-left max left (storage scope) e))

gc_loop-garbage :
    (max : ℕ) (gc : Table ℕ) (storage : ℕ → Table StorageRow)
    → let (gc', storage') = gc_loop max gc storage in
      garbage gc' storage' ≡ garbage gc storage - max
gc_loop-garbage max [] storage = unfold gc_loop in omega arith
gc_loop-garbage max ((id, scope) ∷ gc) storage =
    from_left (gc_rows max (storage scope)).0 refl (λ left st. gc_loop-garbage left gc st)
  where
    cost :
        (gc_rows max (storage scope)).0 + length (storage scope)
        ≡ max + length (gc_rows max (storage scope)).1
    cost = gc_rows-cost max (storage scope)

    from_left :
        (left : ℕ)
        → (gc_rows max (storage scope)).0 ≡ left
        → ((left' : ℕ) (st : ℕ → Table StorageRow)
            → garbage (gc_loop left' gc st).0 (gc_loop left' gc st).1 ≡ garbage gc st - left')
        → let (gc', storage') = gc_loop max ((id, scope) ∷ gc) storage in
          garbage gc' storage' ≡ garbage ((id, scope) ∷ gc) storage - max
    from_left zero e ih = rw (gc_loop-spent max id scope gc storage e) (
        rw (set_scope-set_scope scope [] (gc_rows max (storage scope)).1 storage) (
          rw (set_scope_self scope (gc_rows max (storage scope)).1 storage)
            (omega (arith, cost, e))))
    from_left (suc left) e ih =
        rw (gc_loop-next max id scope left gc storage e, ih left (set_scope scope [] storage))
          (omega (arith, cost, e, ap length (gc_rows-left max left (storage scope) e)))

pub gc_loop-others :
    (max i : ℕ) (gc : Table ℕ) (storage : ℕ → Table StorageRow)
    → ¬ Collects i gc
    → (gc_loop max gc storage).1 i ≡ storage i
gc_loop-others max i [] storage h = unfold gc_loop in refl
gc_loop-others max i ((id, scope) ∷ gc) storage h =
    from_left (gc_rows max (storage scope)).0 refl
      (λ left st. gc_loop-others left i gc st (λ c. h (inr c)))
  where
    elsewhere : (t : Table StorageRow) → set_scope scope t storage i ≡ storage i
    elsewhere t = ground (arith, λ (e : i ≡ scope). h (inl e))

    from_left :
        (left : ℕ)
        → (gc_rows max (storage scope)).0 ≡ left
        → ((left' : ℕ) (st : ℕ → Table StorageRow) → (gc_loop left' gc st).1 i ≡ st i)
        → (gc_loop max ((id, scope) ∷ gc) storage).1 i ≡ storage i
    from_left zero e ih =
        rw (gc_loop-spent max id scope gc storage e) (elsewhere (gc_rows max (storage scope)).1)
    from_left (suc left) e ih =
        rw (gc_loop-next max id scope left gc storage e)
          (ih left (set_scope scope [] storage) ∙ elsewhere [])

is_empty_iff :
    (gc : Table ℕ) (storage : ℕ → Table StorageRow) (n : ℕ) (max : ℕ)
    → garbage gc storage ≡ n - max
    → elim gc as (λ g. Bool) [ [] ↦ true | r ∷ rest ↦ false ] ≡ leb n max
is_empty_iff [] storage n max h = ground arith
is_empty_iff (r ∷ gc) storage n max h = ground arith

-- A call pays one unit for each storage row and each gcstore row that it removes, and removes as much
-- as `max` pays for: the garbage falls by exactly that. It reports that all is collected exactly when
-- `max` pays for all, and it touches the storage of no account but the removed ones.
pub gc-garbage :
    (max : ℕ) (s : EvmState) (i : ℕ)
    → let (s', done) = gc max s in
      (garbage s'.gcstore s'.storage ≡ garbage s.gcstore s.storage - max)
      × (done ≡ leb (garbage s.gcstore s.storage) max)
      × (Collects i s.gcstore ⊎ (s'.storage i ≡ s.storage i))
unfolding gc
gc-garbage max s i =
    let left = gc_loop-garbage max s.gcstore s.storage in
    (
      left,
      is_empty_iff (gc_loop max s.gcstore s.storage).0 (gc_loop max s.gcstore s.storage).1 _ max
          left,
      elim (Collects-dec i s.gcstore) [
        | inl collected ↦ inl collected
        | inr kept ↦ inr (gc_loop-others max i s.gcstore s.storage kept)
      ],
    )

-- Calls of gc one after the other, with the same budget.
abbrev pub gc_times : ℕ → ℕ → EvmState → EvmState
gc_times zero max s = s
gc_times (suc n) max s = gc_times n max (gc max s).0

gc_times-garbage :
    (n max : ℕ) (s : EvmState)
    → let s' = gc_times n max s in
      garbage s'.gcstore s'.storage ≡ garbage s.gcstore s.storage - n * max
gc_times-garbage zero max s = omega arith
gc_times-garbage (suc n) max s =
    let next = gc_times-garbage n max (gc max s).0 in omega (arith, next, (gc-garbage max s 0).0)

le_mul : (n max : ℕ) → 0 < max → n ≤ n * max
le_mul zero max h = omega arith
le_mul (suc n) max h = omega (arith, le_mul n max h, h)

-- With a budget above zero, repeated calls of gc come to an end: the call after n others reports that
-- all is collected exactly when the budgets of these n + 1 calls pay for all the garbage that there
-- was, and so it does at the latest when n is the number of rows to remove.
pub gc_times-done :
    (max : ℕ) (s : EvmState)
    → 0 < max
    → let rows = garbage s.gcstore s.storage in
      ((n : ℕ) → (gc max (gc_times n max s)).1 ≡ leb rows (n * max + max))
      × ((gc max (gc_times rows max s)).1 ≡ true)
gc_times-done max s h =
    let rows = garbage s.gcstore s.storage in
    let told : (n : ℕ) → (gc max (gc_times n max s)).1 ≡ leb rows (n * max + max) =
      λ n. ground (arith, (gc-garbage max (gc_times n max s) 0).1, gc_times-garbage n max s) in
    (told, ground (arith, told rows, le_mul rows max h))
