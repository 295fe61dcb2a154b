-- ===== src/Prelude/Int.antt =====
-- Signed integers over the native numbers, and the 64-bit signed integers of `asset::amount`.
use eos_evm_contract.Prelude.{
  ℕ, suc, ◌+◌, ◌-◌, ◌%◌, ◌≤◌, ◌<◌, ◌≡◌, Bool, arith, ltb, leb, if◌then◌else◌,
}

-- `negsuc n` is -(n + 1).
pub data ℤ : Type 0 where
  pos : ℕ → ℤ
  negsuc : ℕ → ℤ

abbrev pub pos_part : ℤ → ℕ
pos_part (pos n) = n
pos_part (negsuc n) = 0

abbrev pub neg_part : ℤ → ℕ
neg_part (pos n) = 0
neg_part (negsuc n) = suc n

abbrev pub sub_ℕ : ℕ → ℕ → ℤ
sub_ℕ a b = if leb b a then pos (a - b) else negsuc (b - a - 1)

infixl 65 ◌+ℤ◌ ◌-ℤ◌
infix 50 ◌≤ℤ◌
unfoldable pub ◌+ℤ◌ : ℤ → ℤ → ℤ
a +ℤ b = sub_ℕ (pos_part a + pos_part b) (neg_part a + neg_part b)

unfoldable pub ◌-ℤ◌ : ℤ → ℤ → ℤ
a -ℤ b = sub_ℕ (pos_part a + neg_part b) (neg_part a + pos_part b)

abbrev pub ◌≤ℤ◌ : ℤ → ℤ → Type 0
a ≤ℤ b = pos_part a + neg_part b ≤ pos_part b + neg_part a

abbrev pub ltb_ℤ : ℤ → ℤ → Bool
ltb_ℤ a b = ltb (pos_part a + neg_part b) (pos_part b + neg_part a)

abbrev pub leb_ℤ : ℤ → ℤ → Bool
leb_ℤ a b = leb (pos_part a + neg_part b) (pos_part b + neg_part a)

abbrev pub two_64 : ℕ
two_64 = 18446744073709551616

abbrev pub two_63 : ℕ
two_63 = 9223372036854775808

-- static_cast<uint64_t> of an int64_t: the bits of the number.
abbrev pub to_uint64 : ℤ → ℕ
to_uint64 (pos n) = n % two_64
to_uint64 (negsuc n) = two_64 - 1 - n % two_64

-- static_cast<int64_t> of a uint64_t.
abbrev pub to_int64 : ℕ → ℤ
to_int64 n = if ltb n two_63 then pos n else negsuc (two_64 - 1 - n)

-- int64_t `a + b` and `a - b`, with the wrap-around written out.
unfoldable pub int64_add : ℤ → ℕ → ℤ
int64_add a b = to_int64 ((to_uint64 a + b % two_64) % two_64)

unfoldable pub int64_sub : ℤ → ℕ → ℤ
int64_sub a b = to_int64 ((to_uint64 a + (two_64 - b % two_64)) % two_64)

pub int64_add-pos : (a b : ℕ) → a + b < two_63 → int64_add (pos a) b ≡ pos (a + b)
unfolding int64_add
int64_add-pos a b h = ground arith

pub int64_sub-pos : (a b : ℕ) → a < two_63 → b ≤ a → int64_sub (pos a) b ≡ pos (a - b)
unfolding int64_sub
int64_sub-pos a b h k = ground arith

pub int64_sub-neg : (a b : ℕ) → b < two_63 → a < b → int64_sub (pos a) b ≡ negsuc (b - a - 1)
unfolding int64_sub
int64_sub-neg a b h k = ground arith
