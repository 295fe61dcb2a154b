-- ===== src/Contract/Ledger/Change.antt =====
-- A table of balances when a row comes or goes, and a balance in range from its parts.
use eos_evm_contract.Prelude.{
  ℕ, ◌+◌, ◌-◌, ◌*◌, ◌/◌, ◌%◌, ◌≤◌, ◌<◌, ◌≡◌, refl, true, false, none, some, Bool-cases, inl, inr,
  arith, ltb, ◌==◌, ◌∷◌, ap, ◌∙◌, sym, subst,
}
use native.Mathlib.Nat.{mul-le-mul_right, pow-le-pow_right}
use eos_evm_contract.Table.{Table, find, put, erase}
use eos_evm_contract.Balance.{Symbol, BalanceWithDust, max_amount, is_zero}
use eos_evm_contract.Balance.Laws.{unit_of, holding, div-mod_unique, div-le_of_lt}
use eos_evm_contract.Contract.Ledger.{Ledger, Holds, done, row}

module _ (s : Symbol) where
  pub Ledger-put_new :
      {low total : ℕ} {t : Table BalanceWithDust} (k : ℕ) (b : BalanceWithDust) (worth : ℕ)
      → low ≤ k
      → find k t ≡ none
      → Holds s b worth
      → Ledger s low t total
      → Ledger s low (put k b t) (worth + total)
  unfolding find put
  Ledger-put_new k b worth above f holds done = row above holds done
  Ledger-put_new {low} {t = (owner, c) ∷ t} k b worth above f holds
        (row {worth = w} {total} near own rest) =
      elim (Bool-cases (ltb k owner)) [
        | inl before ↦ rw before (row above holds (row (ground arith) own rest))
        | inr behind ↦ elim (Bool-cases (k == owner)) [
          | inl here ↦ absurd (ground (arith, here))
          | inr later ↦
              rw (behind, later)
                (subst (λ (n : ℕ). Ledger s low ((owner, c) ∷ put k b t) n) (omega arith)
                  (row near own (
                    Ledger-put_new k b worth (ground (arith, behind, later)) (ground (arith, later))
                      holds rest)))
        ]
      ]

  missing_below :
      {low total : ℕ} {t : Table BalanceWithDust} (k : ℕ)
      → Ledger s low t total
      → k < low
      → erase k t ≡ t
  unfolding erase
  missing_below k done h = refl
  missing_below {t = (owner, c) ∷ t} k (row near own rest) h =
      let later : (k == owner) ≡ false = ground arith in
      rw later
        (ap (λ (r : Table BalanceWithDust). (owner, c) ∷ r) (missing_below k rest (omega arith)))

  Ledger-lower :
      {low total : ℕ} {t : Table BalanceWithDust} (low' : ℕ)
      → low' ≤ low
      → Ledger s low t total
      → Ledger s low' t total
  Ledger-lower low' h done = done
  Ledger-lower low' h (row near own rest) = row (omega arith) own rest

  -- A row that is erased takes what it is worth with it.
  pub Ledger-erase :
      {low total : ℕ} {t : Table BalanceWithDust} (k : ℕ) (b : BalanceWithDust)
      → Ledger s low t total
      → find k t ≡ some b
      → (worth : ℕ) × (others : ℕ) × Holds s b worth
        × (total ≡ worth + others)
        × Ledger s low (erase k t) others
  unfolding find erase
  Ledger-erase k b done f = cc
  Ledger-erase {low} {t = (owner, c) ∷ t} k b (row {worth} {total} near own rest) f =
      elim (Bool-cases (k == owner)) [
        | inl here ↦
            let is_c : c ≡ b = ground (arith, here) in
            let gone = missing_below k rest (ground (arith, here)) in
            (
              worth,
              total,
              subst (λ (c : BalanceWithDust). Holds s c worth) is_c own,
              refl,
              rw (here, gone) (Ledger-lower low (omega (arith, near)) rest),
            )
        | inr later ↦
            let (worth', others, holds, split, left) =
              Ledger-erase k b rest (ground (arith, later)) in
            (worth', worth + others, holds, omega (arith, split), rw later (row near own left))
      ]

  pub unit_positive : 0 < unit_of s
  unit_positive =
      omega (
        arith,
        pow-le-pow_right {n = 10} (omega arith) {i = 0} {j = 18 - s.precision} (omega arith),
      )

  pub Holds-holding :
      (a d : ℕ) → a ≤ max_amount → d < unit_of s → Holds s (holding s a d) (a * unit_of s + d)
  Holds-holding a d ha hd =
      let parts = div-mod_unique (a * unit_of s + d) (unit_of s) a d refl hd in
      let below = mul-le-mul_right (unit_of s) ha in
      record { is_holding = rw (parts.0, parts.1); in_range = omega (arith, below) }

  -- A balance that counts as zero holds nothing.
  pub is_zero-Holds :
      (b : BalanceWithDust) (worth : ℕ) → is_zero b ≡ true → Holds s b worth → worth ≡ 0
  unfolding is_zero
  is_zero-Holds b worth z holds =
      let whole : worth / unit_of s * unit_of s + worth % unit_of s ≡ worth = omega arith in
      let zero = ap is_zero (sym holds.is_holding) ∙ z in
      let parts : (worth / unit_of s ≡ 0) × (worth % unit_of s ≡ 0) = ground (arith, zero) in
      ground (arith, whole, parts.0, parts.1)

  -- Whole units of the token that leave a balance, or enter it.
  pub Holds-taken :
      (b : BalanceWithDust) (worth n : ℕ)
      → Holds s b worth
      → n ≤ worth / unit_of s
      → (n * unit_of s ≤ worth)
        × Holds s (holding s (worth / unit_of s - n) (worth % unit_of s)) (worth - n * unit_of s)
  Holds-taken b worth n holds h =
      let whole : worth / unit_of s * unit_of s + worth % unit_of s ≡ worth = omega arith in
      let parts : worth / unit_of s ≡ worth / unit_of s - n + n = omega arith in
      let products = ap (λ (t : ℕ). t * unit_of s) parts in
      let within = div-le_of_lt worth max_amount (unit_of s) holds.in_range in
      let rest : (worth / unit_of s - n) * unit_of s + worth % unit_of s ≡ worth - n * unit_of s =
        omega (arith, whole, products) in
      (
        omega (arith, whole, products),
        subst (Holds s (holding s (worth / unit_of s - n) (worth % unit_of s))) rest (
            Holds-holding (worth / unit_of s - n) (worth % unit_of s) (omega (arith, within))
              (omega (arith, unit_positive))),
      )

  pub Holds-added :
      (worth n : ℕ)
      → worth / unit_of s + n ≤ max_amount
      → Holds s (holding s (worth / unit_of s + n) (worth % unit_of s)) (worth + n * unit_of s)
  Holds-added worth n h =
      let sum : (worth / unit_of s + n) * unit_of s + worth % unit_of s ≡ worth + n * unit_of s =
        omega arith in
      subst (Holds s (holding s (worth / unit_of s + n) (worth % unit_of s))) sum
        (Holds-holding (worth / unit_of s + n) (worth % unit_of s) h (omega (arith, unit_positive)))
