-- ===== src/Table/Index.antt =====
-- include/evm_runtime/tables.hpp: secondary indices over keys of bytes, each of which one row has: what
-- a lookup sees after a row is overwritten, added or erased, and that the keys stay distinct.
use eos_evm_contract.Prelude.{
  ℕ, ◌+◌, ◌≤◌, ◌≡◌, refl, true, false, Option, none, some, [], ◌∷◌, arith, Bool-cases, inl, inr,
  ltb, ◌==◌, if◌then◌else◌, ap, sym, ◌∙◌, Option-cases,
}
use eos_evm_contract.Bytes.{Bytes, bytes_eq, bytes_eq_refl, bytes_eq_sound}
use eos_evm_contract.Table.{Table, find_by, put, erase, available_primary_key}
use eos_evm_contract.Table.Order.{
  IsAscending, found_above, find_by-put, find_by-put_other, find_by-put_last, last_above,
}
use eos_evm_contract.Table.Bounds.{erase-absent, find_by-erase-none, below_tail}

bytes_eq_sym : (a b : Bytes) → bytes_eq a b ≡ false → bytes_eq b a ≡ false
bytes_eq_sym a b h = elim (Bool-cases (bytes_eq b a)) [
  | inr apart ↦ apart
  | inl same ↦
      let turned = ap (λ (c : Bytes). bytes_eq c b) (bytes_eq_sound b a same) ∙ h in
      absurd (ground (arith, turned, bytes_eq_refl b))
]

module _ {V : Type 0} (key : V → Bytes) where
  -- The row with a key.
  abbrev pub find_key : Bytes → Table V → Option (ℕ × V)
  find_key k = find_by λ r. bytes_eq k (key r)

  unfoldable pub IsUnique : Table V → Type 0
  IsUnique [] = Unit {0}
  IsUnique ((id, r) ∷ t) = (find_key (key r) t ≡ none) × IsUnique t

  pub find_key-put :
      (low id : ℕ) (k : Bytes) (r r' : V) (t : Table V) (j : Bytes)
      → IsAscending low t
      → find_key k t ≡ some (id, r)
      → key r' ≡ key r
      → find_key j (put id r' t) ≡ (if bytes_eq j k then some (id, r') else find_key j t)
  find_key-put low id k r r' t j h f e =
      let is_key =
        bytes_eq_sound k (key r) (found_above low t (λ r. bytes_eq k (key r)) id r h f).1 in
      elim (Bool-cases (bytes_eq j k)) [
        | inl same ↦
            let there = ap (λ (k : Bytes). find_key k t) (bytes_eq_sound j k same) ∙ f in
            rw same (
              find_by-put low t (λ r. bytes_eq j (key r)) id r r' h there
                (ap (bytes_eq j) (e ∙ sym is_key) ∙ same))
        | inr apart ↦ rw apart (
            find_by-put_other low t (λ r. bytes_eq j (key r)) (λ r. bytes_eq k (key r)) id r r' h f
              (ap (bytes_eq j) (sym is_key) ∙ apart) (ap (bytes_eq j) (e ∙ sym is_key) ∙ apart))
      ]

  pub find_key-put_new :
      (low id : ℕ) (r : V) (t : Table V) (j : Bytes)
      → IsAscending low t
      → available_primary_key t ≤ id
      → find_key (key r) t ≡ none
      → find_key j (put id r t) ≡ (if bytes_eq j (key r) then some (id, r) else find_key j t)
  find_key-put_new low id r t j h b absent =
      let added = find_by-put_last low id t (λ r. bytes_eq j (key r)) r h b in
      elim (Bool-cases (bytes_eq j (key r))) [
        | inl same ↦
            let there = ap (λ (k : Bytes). find_key k t) (bytes_eq_sound j (key r) same) ∙ absent in
            ground (arith, added, same, there)
        | inr apart ↦ elim (Option-cases (find_key j t)) [
          | inl missing ↦ ground (arith, added, apart, missing)
          | inr (x, present) ↦ ground (arith, added, apart, present)
        ]
      ]

  pub find_key-erase :
      (low id : ℕ) (k : Bytes) (r : V) (t : Table V) (j : Bytes)
      → IsAscending low t
      → IsUnique t
      → find_key k t ≡ some (id, r)
      → find_key j (erase id t) ≡ (if bytes_eq j k then none else find_key j t)
  unfolding find_by erase IsAscending IsUnique
  find_key-erase low id k r [] j h u f = cc
  find_key-erase low id k r ((i, w) ∷ t) j h u f = elim (Bool-cases (bytes_eq k (key w))) [
    | inl here ↦
        let is_id : i ≡ id = ground (arith, here) in
        let equal : (id == i) ≡ true = ground (arith, is_id) in
        let gone = erase-absent (i + 1) id t h.1 (omega (arith, is_id)) in
        let is_key = bytes_eq_sound k (key w) here in
        elim (Bool-cases (bytes_eq j k)) [
          | inl same ↦
              let absent =
                ap (λ (k : Bytes). find_key k t) (bytes_eq_sound j k same ∙ is_key) ∙ u.0 in
              rw (equal, gone, same) absent
          | inr apart ↦
              let other : bytes_eq j (key w) ≡ false = ap (bytes_eq j) (sym is_key) ∙ apart in
              rw (equal, gone, apart, other) refl
        ]
    | inr later ↦
        let rest : find_key k t ≡ some (id, r) = ground (arith, later) in
        let above = found_above (i + 1) t (λ r. bytes_eq k (key r)) id r h.1 rest in
        let apart : (id == i) ≡ false = ground (arith, above.0) in
        let next = find_key-erase (i + 1) id k r t j h.1 u.1 rest in
        elim (Bool-cases (bytes_eq j (key w))) [
          | inl head ↦
              let other =
                ap (λ (c : Bytes). bytes_eq c k) (bytes_eq_sound j (key w) head)
                ∙ bytes_eq_sym k (key w) later in
              rw (apart, head, other) refl
          | inr tail ↦ rw (apart, tail) next
        ]
  ]

  pub IsUnique-put :
      (low id : ℕ) (k : Bytes) (r r' : V) (t : Table V)
      → IsAscending low t
      → IsUnique t
      → find_key k t ≡ some (id, r)
      → key r' ≡ key r
      → IsUnique (put id r' t)
  unfolding find_by put IsAscending IsUnique
  IsUnique-put low id k r r' [] h u f e = cc
  IsUnique-put low id k r r' ((i, w) ∷ t) h u f e = elim (Bool-cases (bytes_eq k (key w))) [
    | inl here ↦
        let is_id : i ≡ id = ground (arith, here) in
        let is_w : w ≡ r = ground (arith, here) in
        let behind : ltb id i ≡ false = ground (arith, is_id) in
        let equal : (id == i) ≡ true = ground (arith, is_id) in
        rw (behind, equal) (ap (λ (k : Bytes). find_key k t) (e ∙ ap key (sym is_w)) ∙ u.0, u.1)
    | inr later ↦
        let rest : find_key k t ≡ some (id, r) = ground (arith, later) in
        let above = found_above (i + 1) t (λ r. bytes_eq k (key r)) id r h.1 rest in
        let behind : ltb id i ≡ false = ground (arith, above.0) in
        let apart : (id == i) ≡ false = ground (arith, above.0) in
        rw (behind, apart)
          (
            find_key-put (i + 1) id k r r' t (key w) h.1 rest e
                ∙ rw (bytes_eq_sym k (key w) later) u.0,
            IsUnique-put (i + 1) id k r r' t h.1 u.1 rest e,
          )
  ]

  pub IsUnique-put_new :
      (low id : ℕ) (r : V) (t : Table V)
      → IsAscending low t
      → IsUnique t
      → available_primary_key t ≤ id
      → find_key (key r) t ≡ none
      → IsUnique (put id r t)
  unfolding find_by put IsAscending IsUnique
  IsUnique-put_new low id r [] h u b f = (refl, tt)
  IsUnique-put_new low id r ((i, w) ∷ t) h u b f =
      let above = last_above low i w t h in
      let behind : ltb id i ≡ false = ground (arith, above, b) in
      let apart : (id == i) ≡ false = ground (arith, above, b) in
      let other : bytes_eq (key r) (key w) ≡ false = ground (arith, f) in
      let absent : find_key (key r) t ≡ none = ground (arith, f, other) in
      let last = below_tail id i w t b in
      rw (behind, apart)
        (
          find_key-put_new (i + 1) id r t (key w) h.1 last absent
              ∙ rw (bytes_eq_sym (key r) (key w) other) u.0,
          IsUnique-put_new (i + 1) id r t h.1 u.1 last absent,
        )

  pub IsUnique-erase : (id : ℕ) (t : Table V) → IsUnique t → IsUnique (erase id t)
  unfolding erase IsUnique
  IsUnique-erase id [] u = tt
  IsUnique-erase id ((i, w) ∷ t) u = elim (Bool-cases (id == i)) [
    | inl here ↦ rw here (IsUnique-erase id t u.1)
    | inr later ↦
        rw later
          (find_by-erase-none id (λ r. bytes_eq (key w) (key r)) t u.0, IsUnique-erase id t u.1)
  ]
