-- ===== src/State/World/Storage.antt =====
-- src/state.cpp: update_storage does what it means.
use eos_evm_contract.Prelude.{
  ℕ, ◌≡◌, refl, true, false, none, some, ok, arith, Bool-cases, Option-cases, inl, inr, ◌==◌,
  if◌then◌else◌, ap, sym, ◌∙◌,
}
use eos_evm_contract.Table.{Table}
use eos_evm_contract.Table.Order.{found_above}
use eos_evm_contract.Bytes.{Bytes, bytes_eq, bytes_eq_refl, bytes_eq_sound, pad32}
use eos_evm_contract.State.{Evm, Db, AccountRow, StorageRow, EvmState, find_account}
use eos_evm_contract.State.Read.{zero32}
use eos_evm_contract.State.Update.{
  with_scope, bare_account, clear_slot, write_slot, clear_storage, write_storage, update_storage,
}
use eos_evm_contract.State.World.{same, world, slot_of, set_slot, touch, put_slot}
use eos_evm_contract.State.World.Invariant.{IsState, IsAccounts, IsScope, address_key, next_of}
use eos_evm_contract.State.World.Scope.{
  write_slot-IsScope, clear_slot-IsScope, slot_of-write, slot_of-clear,
}
use eos_evm_contract.State.World.Rows.{find_account-find, find_account-put_new}
use eos_evm_contract.State.World.Moves.{
  World-eq, find_account-same, emplaced, emplace_account-emplaced, emplaced-IsState, emplaced-world,
}
use eos_evm_contract.State.World.Writes.{Does, Does-as, counted_new, old_of}

-- Accounts with different addresses have different scopes.
other_scope :
    (next : ℕ) (a address : Bytes) (i id : ℕ) (x r : AccountRow) (t : Table AccountRow)
    → IsAccounts next t
    → same a address ≡ false
    → find_account a t ≡ some (i, x)
    → find_account address t ≡ some (id, r)
    → (i == id) ≡ false
unfolding find_account
other_scope next a address i id x r t h apart f g = elim (Bool-cases (i == id)) [
  | inr other ↦ other
  | inl equal ↦
      let test = λ (k : Bytes) (r : AccountRow). bytes_eq k (address_key r) in
      let (there, below) = find_account-find next i a x t h f in
      let (there', below') = find_account-find next id address r t h g in
      let is_r : x ≡ r = ground (arith, there, there', equal) in
      let key = (found_above 0 t (test (pad32 a)) i x h.ordered f).1 in
      let key' = (found_above 0 t (test (pad32 address)) id r h.ordered g).1 in
      let keys =
        bytes_eq_sound (pad32 a) (address_key x) key
        ∙ ap address_key is_r
        ∙ sym (bytes_eq_sound (pad32 address) (address_key r) key') in
      absurd (
        ground (
          arith,
          apart,
          ap (λ (k : Bytes). bytes_eq k (pad32 address)) keys ∙ bytes_eq_refl (pad32 address),
        ))
]

module _ (v : Evm) where
  -- One scope changed at one location.
  scopes :
      (address location value : Bytes) (id : ℕ) (r : AccountRow) (t : Table StorageRow)
      (s : EvmState)
      → IsState s
      → find_account address s.accounts ≡ some (id, r)
      → IsScope t
      → ((l : Bytes) → slot_of l t ≡ (if same l location then value else slot_of l (s.storage id)))
      → Does v s (ok (with_scope s id t)) (set_slot address location value (world v s.db))
  unfolding next_of
  scopes address location value id r t s h found valid seen =
      let (there, below) =
        find_account-find (next_of s) id address r s.accounts h.accounts_valid found in
      record {
        after = with_scope s id t;
        ran = refl;
        valid = record {
          accounts_valid = h.accounts_valid;
          scopes_valid = record {
            scopes = λ i. elim (Bool-cases (i == id)) [
              | inl here ↦ rw here valid
              | inr apart ↦ rw apart (h.scopes_valid.scopes i)
            ];
            fresh = λ i above.
                let apart : (i == id) ≡ false = ground (arith, above, below) in
                rw apart (h.scopes_valid.fresh i above);
          };
          codes_valid = h.codes_valid;
          garbage_valid = h.garbage_valid;
          started = h.started;
        };
        means =
            World-eq _ _ (λ a. refl)
              (λ a l. elim (Bool-cases (same a address)) [
                | inl here ↦
                    let leads = find_account-same a address s.accounts here ∙ found in
                    let scope : (id == id) ≡ true = ground arith in rw (leads, here, scope) (seen l)
                | inr apart ↦ elim (Option-cases (find_account a s.accounts)) [
                  | inl missing ↦ rw (missing, apart) refl
                  | inr ((i, x), leads) ↦
                      let scope =
                        other_scope (next_of s) a address i id x r s.accounts h.accounts_valid apart
                          leads found in
                      rw (leads, apart, scope) refl
                ]
              ]);
        kept = refl;
        counts = λ k. omega arith;
      }

  -- A location of an address that has no account reads as zero.
  clear_nothing :
      (address location : Bytes) (d : Db)
      → find_account address d.accounts ≡ none
      → set_slot address location zero32 (world v d) ≡ world v d
  clear_nothing address location d missing =
      World-eq _ _ (λ a. refl)
        (λ a l. elim (Bool-cases (same a address)) [
          | inl here ↦ elim (Bool-cases (same l location)) [
            | inl slot ↦ rw (here, slot, find_account-same a address d.accounts here, missing) refl
            | inr other ↦ rw (here, other) refl
          ]
          | inr apart ↦ rw apart refl
        ])

  -- The two writes, where the state is not read-only.
  update_storage-zero :
      (address location value : Bytes) (s : EvmState)
      → s.read_only ≡ false
      → v.is_zero value ≡ true
      → update_storage v address location value s
        ≡ ok (clear_storage location (find_account address s.accounts) s)
  unfolding update_storage
  update_storage-zero address location value s rw_state zero = ground (arith, rw_state, zero)

  update_storage-value :
      (address location value : Bytes) (s : EvmState)
      → s.read_only ≡ false
      → v.is_zero value ≡ false
      → update_storage v address location value s
        ≡ ok (write_storage address location value (find_account address s.accounts) s)
  unfolding update_storage
  update_storage-value address location value s rw_state some_value =
      ground (arith, rw_state, some_value)

  clear_storage-Does :
      (address location : Bytes) (s : EvmState)
      → IsState s
      → Does v s
          (ok (clear_storage location (find_account address s.accounts) s))
          (set_slot address location zero32 (world v s.db))
  unfolding clear_storage
  clear_storage-Does address location s h = elim (Option-cases (find_account address s.accounts)) [
    | inr ((id, r), found) ↦ rw found (
        scopes address location zero32 id r (clear_slot location (s.storage id)) s h found
          (clear_slot-IsScope location (s.storage id) (h.scopes_valid.scopes id))
          (λ l. slot_of-clear location l (s.storage id) (h.scopes_valid.scopes id)))
    | inl missing ↦
        rw (missing, clear_storage)
          (record {
            after = s;
            ran = refl;
            valid = h;
            means = sym (clear_nothing address location s.db missing);
            kept = refl;
            counts = λ k. omega arith;
          })
  ]

  write_storage-none :
      (address location value : Bytes) (s : EvmState)
      → IsState s
      → write_storage address location value none s
        ≡ with_scope
            (emplaced (bare_account address none) s)
            (next_of s)
            (write_slot location value (s.storage (next_of s)))
  unfolding write_storage
  write_storage-none address location value s h =
      ap (λ (t : ℕ × EvmState). with_scope t.1 t.0 (write_slot location value (t.1.storage t.0)))
        (emplace_account-emplaced (bare_account address none) s h)

  write_storage-Does :
      (address location value : Bytes) (s : EvmState)
      → IsState s
      → Does v s (ok (write_storage address location value (find_account address s.accounts) s)) (
          set_slot address location
            (pad32 value)
            (touch v address (old_of v address s) (world v s.db)))
  unfolding write_storage
  write_storage-Does address location value s h =
      elim (Option-cases (find_account address s.accounts)) [
        | inr ((id, r), found) ↦ rw found (
            scopes address location (pad32 value) id r (write_slot location value (s.storage id)) s
              h found (write_slot-IsScope location value (s.storage id) (h.scopes_valid.scopes id))
              (λ l. slot_of-write location value l (s.storage id) (h.scopes_valid.scopes id)))
        | inl missing ↦
            let row = bare_account address none in
            let made =
              emplaced-IsState v address s h row missing refl (counted_new v row s h refl) in
            let leads =
              find_account-put_new (next_of s) address s.accounts h.accounts_valid row address
                missing refl
              ∙ rw (bytes_eq_refl (pad32 address)) refl in
            let written =
              scopes address location (pad32 value) (next_of s) row
                (write_slot location value (s.storage (next_of s))) (emplaced row s) made leads
                (write_slot-IsScope location value (s.storage (next_of s))
                  (h.scopes_valid.scopes (next_of s)))
                (λ l.
                  slot_of-write location value l (s.storage (next_of s))
                    (h.scopes_valid.scopes (next_of s))) in
            rw missing (record {
              after = written.after;
              ran = ap ok (write_storage-none address location value s h) ∙ written.ran;
              valid = written.valid;
              means =
                  written.means
                  ∙ ap (set_slot address location (pad32 value))
                      (emplaced-world v address s h row missing refl);
              kept = written.kept;
              counts = written.counts;
            })
      ]

  pub update_storage-Does :
      (address location value : Bytes) (s : EvmState)
      → IsState s
      → s.read_only ≡ false
      → Does v s
          (update_storage v address location value s)
          (put_slot v address location value (world v s.db))
  update_storage-Does address location value s h rw_state = elim (Bool-cases (v.is_zero value)) [
    | inl zero ↦ rw zero (
        Does-as v (update_storage-zero address location value s rw_state zero)
          (clear_storage-Does address location s h))
    | inr some_value ↦ rw some_value (
        Does-as v (update_storage-value address location value s rw_state some_value)
          (write_storage-Does address location value s h))
  ]
