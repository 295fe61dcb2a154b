-- ===== src/State/World/Rows.antt =====
-- src/state.cpp: the table of accounts when a row is made, overwritten or removed, with the next id and
-- the garbage.
use eos_evm_contract.Prelude.{
  ℕ, ◌+◌, ◌<◌, ◌≡◌, refl, none, some, [], ◌∷◌, arith, Bool-cases, inl, inr, ◌⊎◌, ltb, ◌==◌,
  if◌then◌else◌, ap, sym, subst, ◌∙◌,
}
use eos_evm_contract.Table.{Table, find, put, erase, find-put, find-erase}
use eos_evm_contract.Table.Bounds.{
  IsBelow-find, IsBelow-put, IsBelow-erase, IsBelow-weaken, available_primary_key-le, find-found,
  IsAscending-put, IsAscending-erase,
}
use eos_evm_contract.Table.Index.{
  find_key, find_key-put, find_key-put_new, find_key-erase, IsUnique-put, IsUnique-put_new,
  IsUnique-erase,
}
use eos_evm_contract.Bytes.{Bytes, bytes_eq, pad32}
use eos_evm_contract.State.{AccountRow, find_account}
use eos_evm_contract.State.GcLaws.{Collects}
use eos_evm_contract.State.World.{same}
use eos_evm_contract.State.World.Invariant.{IsAccounts, IsGarbage, address_key}

-- A row that an address leads to is the one under its id, which is below the next one.
pub find_account-find :
    (next id : ℕ) (address : Bytes) (r : AccountRow) (t : Table AccountRow)
    → IsAccounts next t
    → find_account address t ≡ some (id, r)
    → (find id t ≡ some r) × (id < next)
unfolding find_account
find_account-find next id address r t h f =
    let there =
      find-found 0 t (λ (r : AccountRow). bytes_eq (pad32 address) (address_key r)) id r h.ordered
        f in
    (there, IsBelow-find next id r t h.below there)

Collects-put : (i k v : ℕ) (gc : Table ℕ) → Collects i (put k v gc) → (i ≡ v) ⊎ Collects i gc
unfolding put
Collects-put i k v [] c = c
Collects-put i k v ((j, w) ∷ gc) c = elim (Bool-cases (ltb k j)) [
  | inl before ↦
      let opened : put k v ((j, w) ∷ gc) ≡ (k, v) ∷ (j, w) ∷ gc = rw before refl in
      subst (Collects i) opened c
  | inr behind ↦ elim (Bool-cases (k == j)) [
    | inl here ↦
        let opened : put k v ((j, w) ∷ gc) ≡ (k, v) ∷ gc = rw (behind, here) refl in
        elim (subst (Collects i) opened c) [ inl e ↦ inl e | inr later ↦ inr (inr later) ]
    | inr apart ↦
        let opened : put k v ((j, w) ∷ gc) ≡ (j, w) ∷ put k v gc = rw (behind, apart) refl in
        elim (subst (Collects i) opened c) [
          | inl e ↦ inr (inl e)
          | inr later ↦ elim (Collects-put i k v gc later) [
            | inl e ↦ inl e
            | inr before ↦ inr (inr before)
          ]
        ]
  ]
]

module _ (next : ℕ) (address : Bytes) (t : Table AccountRow) (h : IsAccounts next t) where
  -- What the address leads to after a row for it was made, and what others lead to.
  pub find_account-put_new :
      (r : AccountRow) (a : Bytes)
      → find_account address t ≡ none
      → r.eth_address ≡ address
      → find_account a (put next r t)
        ≡ (if same a address then some (next, r) else find_account a t)
  unfolding find_account
  find_account-put_new r a missing e =
      let key = ap pad32 e in
      let absent = ap (λ (k : Bytes). find_key address_key k t) key ∙ missing in
      find_key-put_new address_key 0 next r t (pad32 a) h.ordered
        (available_primary_key-le next t h.below) absent
      ∙ ap (λ (k : Bytes). if bytes_eq (pad32 a) k then some (next, r) else find_account a t) key

  pub put_new-IsAccounts :
      (r : AccountRow)
      → find_account address t ≡ none
      → r.eth_address ≡ address
      → IsAccounts (next + 1) (put next r t)
  unfolding find_account
  put_new-IsAccounts r missing e =
      let absent = ap (λ (k : Bytes). find_key address_key k t) (ap pad32 e) ∙ missing in
      record {
        ordered = IsAscending-put 0 next r t (omega arith) h.ordered;
        unique =
            IsUnique-put_new address_key 0 next r t h.ordered h.unique
              (available_primary_key-le next t h.below) absent;
        below =
            IsBelow-put (next + 1) next r t (omega arith)
              (IsBelow-weaken next (next + 1) t (omega arith) h.below);
      }

  module _ (id : ℕ) (r : AccountRow) (found : find_account address t ≡ some (id, r)) where
    pub find_account-put :
        (r' : AccountRow) (a : Bytes)
        → r'.eth_address ≡ r.eth_address
        → find_account a (put id r' t)
          ≡ (if same a address then some (id, r') else find_account a t)
    unfolding find_account
    find_account-put r' a e =
        find_key-put address_key 0 id (pad32 address) r r' t (pad32 a) h.ordered found (ap pad32 e)

    pub put-IsAccounts :
        (r' : AccountRow) → r'.eth_address ≡ r.eth_address → IsAccounts next (put id r' t)
    unfolding find_account
    put-IsAccounts r' e = record {
      ordered = IsAscending-put 0 id r' t (omega arith) h.ordered;
      unique =
          IsUnique-put address_key 0 id (pad32 address) r r' t h.ordered h.unique found
            (ap pad32 e);
      below = IsBelow-put next id r' t (find_account-find next id address r t h found).1 h.below;
    }

    pub find_account-erase :
        (a : Bytes)
        → find_account a (erase id t) ≡ (if same a address then none else find_account a t)
    unfolding find_account
    find_account-erase a =
        find_key-erase address_key 0 id (pad32 address) r t (pad32 a) h.ordered h.unique found

    pub erase-IsAccounts : IsAccounts next (erase id t)
    erase-IsAccounts = record {
      ordered = IsAscending-erase 0 id t h.ordered;
      unique = IsUnique-erase address_key id t h.unique;
      below = IsBelow-erase next id t h.below;
    }

    module _ (gc : Table ℕ) (g : IsGarbage next gc t) where
      -- The account is there, so it is no garbage.
      pub put-IsGarbage : (r' : AccountRow) → IsGarbage next gc (put id r' t)
      put-IsGarbage r' = record {
        unused = λ i collected.
            let (missing, below) = g.unused i collected in
            let there = (find_account-find next id address r t h found).0 in
            (ground (arith, find-put i id r' t, missing, there), below);
      }

      pub erase-IsGarbage : (k : ℕ) → IsGarbage next (put k id gc) (erase id t)
      erase-IsGarbage k = record {
        unused = λ i collected. elim (Collects-put i k id gc collected) [
          | inl is_id ↦ (
            ground (arith, is_id, find-erase i id t),
            subst (λ (i : ℕ). i < next) (sym is_id)
                (find_account-find next id address r t h found).1,
          )
          | inr before ↦
              let (missing, below) = g.unused i before in
              (ground (arith, find-erase i id t, missing), below)
        ];
      }

  pub put_new-IsGarbage :
      (gc : Table ℕ)
      → IsGarbage next gc t
      → (r : AccountRow) → IsGarbage (next + 1) gc (put next r t)
  put_new-IsGarbage gc g r = record {
    unused = λ i collected.
        let (missing, below) = g.unused i collected in
        (ground (arith, find-put i next r t, missing, below), omega (arith, below));
  }
