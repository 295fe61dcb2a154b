-- ===== src/Bytes.antt =====
-- src/utils.cpp: byte strings, the 32-byte index keys made from them, and their conversions to fixed
-- sizes. The big-endian form of a 256-bit number is the library intx's, and a parameter (Intx).
use eos_evm_contract.Prelude.{
  ℕ, ◌-◌, ◌^◌, ◌<◌, ◌≡◌, refl, Bool, true, false, ◌&&◌, leb, ◌==◌, List, [], ◌∷◌, ◌++◌, length,
  replicate, Result, ok, ◌>>◌, check, arith,
}

abbrev pub Bytes : Type 0
Bytes = List ℕ

unfoldable pub bytes_eq : Bytes → Bytes → Bool
bytes_eq [] [] = true
bytes_eq [] (b ∷ bs) = false
bytes_eq (a ∷ as') [] = false
bytes_eq (a ∷ as') (b ∷ bs) = a == b && bytes_eq as' bs

-- Zeros to the right, up to 32 bytes.
unfoldable pub pad32 : Bytes → Bytes
pad32 b = b ++ replicate (32 - length b) 0

unfoldable pub make_key : Bytes → Result Bytes
unfolding pad32
make_key b = do check (leb (length b) 32) "invalida size"; ok (pad32 b)

unfoldable pub to_address : Bytes → Result Bytes
to_address b = do check (length b == 20) "wrong length"; ok b

unfoldable pub to_bytes32 : Bytes → Result Bytes
to_bytes32 b = do check (length b == 32) "wrong length"; ok b

-- intx::be::store and intx::be::load of a uint256, on 32 bytes.
pub record Intx : Type 0 where
  pub be_store : ℕ → Bytes
  pub be_load : Bytes → ℕ
  pub length-be_store : (v : ℕ) → length (be_store v) ≡ 32
  pub be_load-be_store : (v : ℕ) → v < 2 ^ 256 → be_load (be_store v) ≡ v

-- Zeros to the left, up to 32 bytes.
unfoldable pub to_uint256 : Intx → Bytes → Result ℕ
to_uint256 x b = do
  check (leb (length b) 32) "wrong length"
  ok (x.be_load (replicate (32 - length b) 0 ++ b))

pub bytes_eq_refl : (a : Bytes) → bytes_eq a a ≡ true
unfolding bytes_eq
bytes_eq_refl [] = refl
bytes_eq_refl (a ∷ as') = ground (arith, bytes_eq_refl as')

pub bytes_eq_sound : (a b : Bytes) → bytes_eq a b ≡ true → a ≡ b
unfolding bytes_eq
bytes_eq_sound [] [] h = refl
bytes_eq_sound [] (b ∷ bs) h = cc
bytes_eq_sound (a ∷ as') [] h = cc
bytes_eq_sound (a ∷ as') (b ∷ bs) h = ground (arith, bytes_eq_sound as' bs)

-- A number that is stored as bytes is read back as it was.
pub to_uint256-be_store : (x : Intx) (v : ℕ) → v < 2 ^ 256 → to_uint256 x (x.be_store v) ≡ ok v
unfolding to_uint256
to_uint256-be_store x v h = rw (x.length-be_store v) (rw (x.be_load-be_store v h))
