-- ===== src/Message.antt =====
-- include/evm_runtime/bridge.hpp: the bridge messages that contracts of the EVM send, and their
-- decoding from the call data of bridgeMsgV0(string,bool,bytes). The datastream is the SDK's, and a
-- parameter.
use eos_evm_contract.Prelude.{
  ℕ, ◌+◌, ◌-◌, ◌*◌, ◌/◌, ◌%◌, ◌==◌, leb, ltb, ◌≡◌, ◌≤◌, Bool, not, Option, none, some, [], ◌∷◌,
  ◌++◌, Result, ok, ◌>>=◌, ◌>>◌, check, length, take, drop, replicate, if◌then◌else◌,
}
use eos_evm_contract.PriceQueue.{two_32}
use eos_evm_contract.Bytes.{Bytes, bytes_eq, Intx}
pub mod Layout

-- datastream::read: the next bytes, and those behind them; it aborts past the end.
pub record Stream : Type 0 where
  pub read : ℕ → Bytes → Result (Bytes × Bytes)
  pub read-within : (n : ℕ) (b : Bytes) → n ≤ length b → read n b ≡ ok (take n b, drop n b)

-- message_v0
pub record MessageV0 : Type 0 where
  pub account : Bytes
  pub force_atomic : Bool
  pub contents : Bytes

-- The names that text stands for (eosio::name): of text that is no name the constructor aborts.
pub record Names : Type 0 where
  pub name_of : Bytes → Result ℕ
  pub to_string : ℕ → Bytes

-- The bytes of message_v0::id, 0xf781185b, from the highest: the four bytes read make a
-- little-endian uint32_t, which is compared with the id in the other order.
abbrev pub message_id : Bytes
message_id = 0xf7 ∷ 0x81 ∷ 0x18 ∷ 0x5b ∷ []

unfoldable pub get_account_as_name : Names → MessageV0 → Result ℕ
get_account_as_name names m = do
  n ← names.name_of m.account
  check (bytes_eq (names.to_string n) m.account) "invalid account name"
  ok n

-- vector::resize
abbrev pub resize : ℕ → Bytes → Bytes
resize n b = take n (b ++ replicate (n - length b) 0)

module _ (st : Stream) (x : Intx) where
  -- `ds >> v` of a uint256.
  unfoldable pub read_word : Bytes → Result (ℕ × Bytes)
  read_word ds = do r ← st.read 32 ds; ok (x.be_load r.0, r.1)

  -- The lambda get_length.
  unfoldable pub read_length : Bytes → Result (ℕ × Bytes)
  unfolding read_word
  read_length ds = do r ← read_word ds; check (ltb r.0 (two_32 - 1)) "invalid length"; ok r

  -- Bytes that fill whole words of 32; the sum that rounds up is a uint32_t.
  unfoldable pub read_padded : ℕ → Bytes → Result (Bytes × Bytes)
  read_padded len ds = do r ← st.read ((len + 31) % two_32 / 32 * 32) ds; ok (resize len r.0, r.1)

  unfoldable pub decode_message_v0 : Bytes → Result MessageV0
  unfolding read_word read_length read_padded
  decode_message_v0 ds = do
    p1 ← read_word ds
    check (p1.0 == 0x60) "invalid p1 offset"
    p2 ← read_word p1.1
    check (leb p2.0 1) "invalid p2 value"
    p3 ← read_word p2.1
    check (p3.0 == 0xA0) "invalid p3 offset"
    account_length ← read_length p3.1
    account ← read_padded account_length.0 account_length.1
    data_length ← read_length account.1
    contents ← read_padded data_length.0 data_length.1
    ok (record { account = account.0; force_atomic = not (p2.0 == 0); contents = contents.0 })

  -- A message that starts with another id is no message of the bridge.
  unfoldable pub decode_message : Bytes → Result (Option MessageV0)
  unfolding decode_message_v0
  decode_message b = do
    method ← st.read 4 b
    if bytes_eq method.0 message_id
        then (decode_message_v0 method.1 >>= λ m. ok (some m))
        else ok none
