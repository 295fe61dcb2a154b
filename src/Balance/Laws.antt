-- ===== src/Balance/Laws.antt =====
-- balance_with_dust as a single number: what `+=` and `-=` do to it, on every branch.
use eos_evm_contract.Prelude.{
  ℕ, ◌+◌, ◌-◌, ◌*◌, ◌/◌, ◌%◌, ◌^◌, ◌≤◌, ◌<◌, ◌≡◌, refl, true, false, leb, ltb, ap, ◌∙◌, ==_iff,
  all_below, all_below_sound, Bool-cases, ◌⊎◌, sym, ltb→lt, ltb_false→le, leb→le, leb_false→lt,
  le→leb, inl, inr, ◌==◌, arith, ok, err, if◌then◌else◌,
}
use eos_evm_contract.Prelude.Int.{pos, ◌-ℤ◌}
use native.Mathlib.Nat.{
  mul-le-mul_right, pow-le-pow_right, mul-add-div_right, div-eq_of_lt, mul-add-mod_self_right,
  mod-eq_of_lt,
}
use eos_evm_contract.Balance.{
  Symbol, no_symbol, symbol_eq, BalanceWithDust, max_amount, evm_precision, pow10_loop, pow10_const,
  add_units, sub_units, add_amount, sub_amount,
}

-- The EVM amount of one unit of the token.
abbrev pub unit_of : Symbol → ℕ
unit_of s = 10 ^ (18 - s.precision)

-- A balance whose token amount is not negative.
abbrev pub holding : Symbol → ℕ → ℕ → BalanceWithDust
holding s a d = record { balance = record { amount = pos a; symbol = s }; dust = d }

pow10_table : all_below 20 (λ v. pow10_loop v 1 == 10 ^ v) ≡ true
unfolding pow10_loop all_below
pow10_table = refl

-- Ten to every power that a uint64_t holds is computed without wrap-around.
pub pow10_const-eq-pow : (v : ℕ) → v < 20 → pow10_const (pos v) ≡ ok (10 ^ v)
unfolding pow10_const
pow10_const-eq-pow v h = ap ok ((==_iff _ (10 ^ v)).0 (all_below_sound 20 _ v pow10_table h))

pub div-mod_unique : (n u q r : ℕ) → n ≡ q * u + r → r < u → (n / u ≡ q) × (n % u ≡ r)
div-mod_unique n u q r e h = rw e (
  omega (arith, mul-add-div_right {m = u} (omega arith) q r, div-eq_of_lt h),
  mul-add-mod_self_right q u r ∙ mod-eq_of_lt h,
)

ltb-mul_add : (m k u e : ℕ) → e < u → ltb (m * u + e) (k * u) ≡ ltb m k
ltb-mul_add m k u e h = elim (Bool-cases (ltb m k)) [
  | inl below ↦ rw below (grind (arith, mul-le-mul_right u (ltb→lt m k below)))
  | inr above ↦ rw above (grind (arith, mul-le-mul_right u (ltb_false→le m k above)))
]

-- A sum of whole units and dust, as the outcome of `+=` states it.
outcome_of_parts :
    (u : ℕ) (s : Symbol) (total m e : ℕ)
    → total ≡ m * u + e
    → e < u
    → (if ltb total ((max_amount + 1) * u)
        then ok (holding s (total / u) (total % u))
        else err "accumulation overflow")
      ≡ (if ltb m (max_amount + 1) then ok (holding s m e) else err "accumulation overflow")
outcome_of_parts u s total m e p h =
    let parts = div-mod_unique total u m e p h in
    rw (parts.0, parts.1) (rw p (rw (ltb-mul_add m (max_amount + 1) u e h)))

-- `+=` with a unit: the amounts are added as whole numbers of EVM units.
add_units-holding :
    (u : ℕ) (s : Symbol) (a d x : ℕ)
    → u ≤ 1000000000000000000
    → a ≤ max_amount
    → d < u
    → add_units u (holding s a d) x ≡ (
        if ltb (a * u + d + x) ((max_amount + 1) * u)
        then ok (holding s ((a * u + d + x) / u) ((a * u + d + x) % u))
        else err "accumulation overflow")
unfolding add_units
add_units-holding u s a d x hu ha hd =
    let low : x % u < u = omega arith in
    let split : x ≡ x / u * u + x % u = omega arith in
    elim (Bool-cases (leb u (d + x % u))) [
      | inl rolls ↦
          rw
            (outcome_of_parts u s (a * u + d + x) (a + x / u + 1) (d + x % u - u)
              (omega (arith, leb→le u (d + x % u) rolls))
              (omega (arith, leb→le u (d + x % u) rolls)))
            (ground arith)
      | inr stays ↦
          rw
            (outcome_of_parts u s (a * u + d + x) (a + x / u) (d + x % u)
              (omega (arith, leb_false→lt u (d + x % u) stays))
              (omega (arith, leb_false→lt u (d + x % u) stays)))
            (ground arith)
    ]

-- What is left of `total` after `x`, as the outcome of `-=` states it.
left_of_parts :
    (u : ℕ) (s : Symbol) (total x m e : ℕ)
    → total ≡ m * u + e + x
    → e < u
    → (if leb x total
        then ok (holding s ((total - x) / u) ((total - x) % u))
        else err "decrementing more than available")
      ≡ ok (holding s m e)
left_of_parts u s total x m e p h =
    let rest : total - x ≡ m * u + e = omega arith in
    let parts = div-mod_unique (total - x) u m e rest h in
    rw (le→leb x total (omega arith)) (rw (parts.0, parts.1))

too_much :
    (u : ℕ) (s : Symbol) (total x : ℕ)
    → total < x
    → (if leb x total
        then ok (holding s ((total - x) / u) ((total - x) % u))
        else err "decrementing more than available")
      ≡ err "decrementing more than available"
too_much u s total x h = ground arith

-- `-=` with a unit: the difference of whole numbers of EVM units.
module _ (u : ℕ) (s : Symbol) (a d x : ℕ) (hu : u ≤ 1000000000000000000) (ha : a ≤ max_amount)
    (hd : d < u) (low : x % u < u) (split : x ≡ x / u * u + x % u) where
  sub_units-overdrawn :
      a < x / u → sub_units u (holding s a d) x ≡ err "decrementing more than available"
  unfolding sub_units
  sub_units-overdrawn h = ground arith

  sub_units-plain :
      x / u ≤ a → x % u ≤ d → sub_units u (holding s a d) x ≡ ok (holding s (a - x / u) (d - x % u))
  unfolding sub_units
  sub_units-plain h k = ground arith

  sub_units-borrow :
      x / u < a
      → d < x % u
      → sub_units u (holding s a d) x ≡ ok (holding s (a - (x / u + 1)) (d + u - x % u))
  unfolding sub_units
  sub_units-borrow h k = ground arith

  sub_units-broke :
      x / u ≡ a → d < x % u → sub_units u (holding s a d) x ≡ err "decrementing more than available"
  unfolding sub_units
  sub_units-broke h k = ground arith

sub_units-holding :
    (u : ℕ) (s : Symbol) (a d x : ℕ)
    → u ≤ 1000000000000000000
    → a ≤ max_amount
    → d < u
    → sub_units u (holding s a d) x ≡ (
        if leb x (a * u + d)
        then ok (holding s ((a * u + d - x) / u) ((a * u + d - x) % u))
        else err "decrementing more than available")
sub_units-holding u s a d x hu ha hd =
    let low : x % u < u = omega arith in
    let split : x ≡ x / u * u + x % u = omega arith in
    elim (three_cases (x / u) a) [
      | inl over ↦
          sub_units-overdrawn u s a d x hu ha hd low split over
          ∙ sym (too_much u s (a * u + d) x (omega (arith, mul-le-mul_right u over)))
      | inr (inl same) ↦ elim (Bool-cases (leb (x % u) d)) [
        | inl enough ↦
            sub_units-plain u s a d x hu ha hd low split (omega arith) (leb→le _ _ enough)
            ∙ sym (
                left_of_parts u s (a * u + d) x (a - x / u) (d - x % u)
                  (omega (arith, leb→le _ _ enough, spread u a (x / u) (omega arith)))
                  (omega arith))
        | inr short ↦
            sub_units-broke u s a d x hu ha hd low split same (leb_false→lt _ _ short)
            ∙ sym (
                too_much u s (a * u + d) x
                  (omega (arith, leb_false→lt _ _ short, ap (λ (t : ℕ). t * u) same)))
      ]
      | inr (inr under) ↦ elim (Bool-cases (leb (x % u) d)) [
        | inl enough ↦
            sub_units-plain u s a d x hu ha hd low split (omega arith) (leb→le _ _ enough)
            ∙ sym (
                left_of_parts u s (a * u + d) x (a - x / u) (d - x % u)
                  (omega (arith, leb→le _ _ enough, spread u a (x / u) (omega arith)))
                  (omega arith))
        | inr short ↦
            sub_units-borrow u s a d x hu ha hd low split under (leb_false→lt _ _ short)
            ∙ sym (
                left_of_parts u s (a * u + d) x (a - (x / u + 1)) (d + u - x % u)
                  (omega (arith, leb_false→lt _ _ short, spread u a (x / u + 1) (omega arith)))
                  (omega (arith, leb_false→lt _ _ short)))
      ]
    ]
  where
    three_cases : (n m : ℕ) → (m < n) ⊎ ((n ≡ m) ⊎ (n < m))
    three_cases n m = omega arith

    spread : (k n m : ℕ) → m ≤ n → n * k ≡ (n - m) * k + m * k
    spread k n m h = let e : n ≡ n - m + m = omega arith in omega (arith, ap (λ (t : ℕ). t * k) e)

pub div-le_of_lt : (n k u : ℕ) → n < (k + 1) * u → n / u ≤ k
div-le_of_lt n k u h = elim (Bool-cases (leb (n / u) k)) [
  | inl within ↦ leb→le (n / u) k within
  | inr over ↦ absurd (
      omega (
        arith,
        mul-le-mul_right {m = k + 1} {n = n / u} u (omega (arith, leb_false→lt (n / u) k over)),
      ))
]

-- A token symbol of the contract: not empty, and no finer than the EVM's 18 digits.
pub record IsToken (s : Symbol) : Type 0 where
  pub named : symbol_eq s no_symbol ≡ false
  pub coarse : s.precision ≤ 18

pub unit_bounds : (s : Symbol) → unit_of s ≤ 1000000000000000000
unit_bounds s =
    pow-le-pow_right {n = 10} (omega arith) {i = 18 - s.precision} {j = 18} (omega arith)

pub exponent :
    (s : Symbol) → IsToken s → pow10_const (pos evm_precision -ℤ pos s.precision) ≡ ok (unit_of s)
unfolding ◌-ℤ◌
exponent s t =
    let e : pos evm_precision -ℤ pos s.precision ≡ pos (18 - s.precision) = ground arith in
    rw e (pow10_const-eq-pow (18 - s.precision) (omega arith))

-- Adding an EVM amount to a token balance that is not negative adds it exactly, to the token amount
-- and the dust together, and aborts exactly when the token amount would pass asset::max_amount.
pub add_amount-holding :
    (s : Symbol) (a d x : ℕ)
    → IsToken s
    → a ≤ max_amount
    → d < unit_of s
    → add_amount (holding s a d) x ≡ (
        if ltb (a * unit_of s + d + x) ((max_amount + 1) * unit_of s)
        then ok
            (holding s ((a * unit_of s + d + x) / unit_of s) ((a * unit_of s + d + x) % unit_of s))
        else err "accumulation overflow")
unfolding add_amount
add_amount-holding s a d x t ha hd =
    rw (t.named, exponent s t) (add_units-holding (unit_of s) s a d x (unit_bounds s) ha hd)

-- Taking an EVM amount from a token balance from zero to asset::max_amount, with less dust than a
-- unit, takes it exactly, from the token amount and the dust together, and aborts exactly when it is more than the whole balance.
pub sub_amount-holding :
    (s : Symbol) (a d x : ℕ)
    → IsToken s
    → a ≤ max_amount
    → d < unit_of s
    → sub_amount (holding s a d) x ≡ (
        if leb x (a * unit_of s + d)
        then ok
            (holding s ((a * unit_of s + d - x) / unit_of s) ((a * unit_of s + d - x) % unit_of s))
        else err "decrementing more than available")
unfolding sub_amount
sub_amount-holding s a d x t ha hd =
    rw (t.named, exponent s t) (sub_units-holding (unit_of s) s a d x (unit_bounds s) ha hd)
