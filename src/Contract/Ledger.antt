-- ===== src/Contract/Ledger.antt =====
-- A table of balances as a sum of money in EVM units, and what a change of one row does to it.
use eos_evm_contract.Prelude.{
  ℕ, ◌+◌, ◌-◌, ◌*◌, ◌/◌, ◌%◌, ◌≤◌, ◌<◌, ◌≡◌, refl, false, some, [], ◌∷◌, ok, arith, Bool-cases, inl,
  inr, ltb, ◌==◌, ◌∙◌, ap, sym, subst,
}
use eos_evm_contract.Table.{Table, find, put}
use eos_evm_contract.Balance.{Symbol, BalanceWithDust, max_amount, add_amount, sub_amount}
use eos_evm_contract.Balance.Laws.{
  div-le_of_lt, IsToken, unit_of, holding, add_amount-holding, sub_amount-holding,
}
pub mod Change

module _ (s : Symbol) where
  -- A balance of the token that is in range, worth `worth` EVM units.
  pub record Holds (b : BalanceWithDust) (worth : ℕ) : Type 0 where
    pub is_holding : b ≡ holding s (worth / unit_of s) (worth % unit_of s)
    pub in_range : worth < (max_amount + 1) * unit_of s

  -- A table of such balances, with keys above a bound in ascending order, and what they are worth.
  pub data Ledger : ℕ → Table BalanceWithDust → ℕ → Type 0 where
    done : {low : ℕ} → Ledger low [] 0
    row :
        {low owner worth total : ℕ} {b : BalanceWithDust} {t : Table BalanceWithDust}
        → low ≤ owner
        → Holds b worth
        → Ledger (owner + 1) t total
        → Ledger low ((owner, b) ∷ t) (worth + total)

  find_above :
      {low total : ℕ} {t : Table BalanceWithDust} (k : ℕ) (b : BalanceWithDust)
      → Ledger low t total
      → find k t ≡ some b
      → low ≤ k
  unfolding find
  find_above k b done f = cc
  find_above {t = (owner, b') ∷ t} k b (row above holds rest) f = elim (Bool-cases (k == owner)) [
    | inl here ↦ ground (arith, here)
    | inr later ↦
        let found : find k t ≡ some b = ground (arith, later) in
        let next = find_above k b rest found in omega (arith, next, above)
  ]

  -- A balance that is there can be read, and replaced by another that is in range.
  pub replace_lem :
      {low total : ℕ} {t : Table BalanceWithDust} (k : ℕ) (b : BalanceWithDust)
      → Ledger low t total
      → find k t ≡ some b
      → (worth : ℕ) × (others : ℕ) × Holds b worth
        × (total ≡ worth + others)
        × ((b' : BalanceWithDust) (worth' : ℕ)
            → Holds b' worth'
            → Ledger low (put k b' t) (worth' + others))
  unfolding find put
  replace_lem k b done f = cc
  replace_lem {low} {t = (owner, c) ∷ t} k b (row {worth} {total} above holds rest) f =
      elim (Bool-cases (k == owner)) [
        | inl here ↦
            let same : k ≡ owner = ground (arith, here) in
            let not_below : ltb k owner ≡ false = ground (arith, here) in
            let is_c : c ≡ b = ground (arith, here) in
            (
              worth,
              total,
              subst (λ (c : BalanceWithDust). Holds c worth) is_c holds,
              refl,
              λ b' worth' holds'.
                  rw (not_below, here)
                    (row (omega (arith, same, above)) holds'
                      (subst (λ (o : ℕ). Ledger (o + 1) t total) (sym same) rest)),
            )
        | inr later ↦
            let found : find k t ≡ some b = ground (arith, later) in
            let below = find_above k b rest found in
            let not_below : ltb k owner ≡ false = ground (arith, below) in
            let (worth', others, holds', split, change) = replace_lem k b rest found in
            (
              worth',
              worth + others,
              holds',
              omega (arith, split),
              λ b' w' new.
                  rw (not_below, later)
                    (subst (λ (n : ℕ). Ledger low ((owner, c) ∷ put k b' t) n) (omega arith)
                      (row above holds (change b' w' new))),
            )
      ]

  module _ (token : IsToken s) where
    pub add_amount-Holds :
        (b b' : BalanceWithDust) (worth v : ℕ)
        → Holds b worth
        → add_amount b v ≡ ok b'
        → Holds b' (worth + v)
    add_amount-Holds b b' worth v holds e =
        let whole : worth / unit_of s * unit_of s + worth % unit_of s ≡ worth = omega arith in
        let sum =
          add_amount-holding s (worth / unit_of s) (worth % unit_of s) v token
            (div-le_of_lt worth max_amount (unit_of s) holds.in_range) (omega arith) in
        let run = sym (ap (λ (c : BalanceWithDust). add_amount c v) holds.is_holding ∙ sum) ∙ e in
        let known : (worth + v < (max_amount + 1) * unit_of s)
            × (b' ≡ holding s ((worth + v) / unit_of s) ((worth + v) % unit_of s)) =
          ground (arith, run, whole) in
        record { is_holding = known.1; in_range = known.0 }

    pub sub_amount-Holds :
        (b b' : BalanceWithDust) (worth v : ℕ)
        → Holds b worth
        → sub_amount b v ≡ ok b'
        → (v ≤ worth) × Holds b' (worth - v)
    sub_amount-Holds b b' worth v holds e =
        let whole : worth / unit_of s * unit_of s + worth % unit_of s ≡ worth = omega arith in
        let rest =
          sub_amount-holding s (worth / unit_of s) (worth % unit_of s) v token
            (div-le_of_lt worth max_amount (unit_of s) holds.in_range) (omega arith) in
        let run = sym (ap (λ (c : BalanceWithDust). sub_amount c v) holds.is_holding ∙ rest) ∙ e in
        let known : (v ≤ worth)
            × (b' ≡ holding s ((worth - v) / unit_of s) ((worth - v) % unit_of s)) =
          ground (arith, run, whole) in
        (known.0, record { is_holding = known.1; in_range = omega (arith, holds.in_range) })
