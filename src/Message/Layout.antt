-- ===== src/Message/Layout.antt =====
-- include/evm_runtime/bridge.hpp: the call data of bridgeMsgV0(string,bool,bytes) as the ABI lays it
-- out, and what decode_message makes of it.
use eos_evm_contract.Prelude.{
  ℕ, ◌+◌, ◌-◌, ◌*◌, ◌/◌, ◌%◌, ◌^◌, ◌<◌, ◌≤◌, ◌≡◌, refl, some, [], leb, ◌&&◌, ◌==◌, false, err, ◌∷◌,
  ◌++◌, ok, arith, length, take, drop, replicate, length-append, length-replicate, if◌then◌else◌,
  ap, ◌∙◌, sym, Bool-cases, inl, inr,
}
use mathlib.Core.List.{append_assoc}
use eos_evm_contract.PriceQueue.{two_32}
use eos_evm_contract.Bytes.{Bytes, Intx, bytes_eq_refl}
use eos_evm_contract.Message.{
  Stream, MessageV0, message_id, resize, read_word, read_length, read_padded, decode_message_v0,
  decode_message,
}

take-append : (a b : Bytes) → take (length a) (a ++ b) ≡ a
take-append [] b = refl
take-append (x ∷ a) b = ap (λ (t : Bytes). x ∷ t) (take-append a b)

drop-append : (a b : Bytes) → drop (length a) (a ++ b) ≡ b
drop-append [] b = refl
drop-append (x ∷ a) b = drop-append a b

-- Zeros up to whole words of 32 bytes.
abbrev pub padding : ℕ → ℕ
padding n = (n + 31) / 32 * 32 - n

abbrev pub padded : Bytes → Bytes
padded b = b ++ replicate (padding (length b)) 0

-- Where the bytes start: behind three words, the length of the text, and the words of the text.
abbrev pub contents_offset : MessageV0 → ℕ
contents_offset m = 0x80 + (length m.account + 31) / 32 * 32

-- The layout: the id, the offset of the text, the flag, the offset of the bytes, and both, each behind
-- its length.
abbrev pub layout : Intx → MessageV0 → Bytes → Bytes
layout x m rest =
    message_id
    ++ (x.be_store 0x60
        ++ (x.be_store (if m.force_atomic then 1 else 0)
            ++ (x.be_store (contents_offset m)
                ++ (x.be_store (length m.account)
                    ++ (padded m.account
                        ++ (x.be_store (length m.contents) ++ (padded m.contents ++ rest)))))))

module _ (st : Stream) (x : Intx) where
  read_exact : (n : ℕ) (a b : Bytes) → length a ≡ n → st.read n (a ++ b) ≡ ok (a, b)
  read_exact n a b e =
      let within : n ≤ length (a ++ b) = omega (arith, length-append a b, e) in
      st.read-within n (a ++ b) within
      ∙ ap (λ (k : ℕ). ok (take k (a ++ b), drop k (a ++ b))) (sym e)
      ∙ ap (λ (t : Bytes). ok (t, drop (length a) (a ++ b))) (take-append a b)
      ∙ ap (λ (t : Bytes). ok (a, t)) (drop-append a b)

  read_word-be_store :
      (v : ℕ) (rest : Bytes) → v < 2 ^ 256 → read_word st x (x.be_store v ++ rest) ≡ ok (v, rest)
  unfolding read_word
  read_word-be_store v rest h =
      rw (read_exact 32 (x.be_store v) rest (x.length-be_store v), x.be_load-be_store v h)

  read_length-be_store :
      (v : ℕ) (rest : Bytes)
      → v < two_32 - 1
      → read_length st x (x.be_store v ++ rest) ≡ ok (v, rest)
  unfolding read_length
  read_length-be_store v rest h = ground (arith, read_word-be_store v rest (omega arith))

  length-padded : (b : Bytes) → length (padded b) ≡ (length b + 31) / 32 * 32
  length-padded b = omega (
    arith,
    length-append b (replicate (padding (length b)) 0),
    length-replicate {A = ℕ} (padding (length b)) 0,
  )

  resize-padded : (b : Bytes) → resize (length b) (padded b) ≡ b
  resize-padded b =
      ap (take (length b)) (
        append_assoc b (replicate (padding (length b)) 0)
          (replicate (length b - length (padded b)) 0))
      ∙ take-append b _

  read_padded-padded :
      (b rest : Bytes)
      → length b + 31 < two_32
      → read_padded st x (length b) (padded b ++ rest) ≡ ok (b, rest)
  unfolding read_padded
  read_padded-padded b rest h =
      let words : (length b + 31) % two_32 / 32 * 32 ≡ (length b + 31) / 32 * 32 =
        ap (λ (k : ℕ). k / 32 * 32) (omega arith) in
      rw (
        words,
        read_exact ((length b + 31) / 32 * 32) (padded b) rest (length-padded b),
        resize-padded b,
      )

  -- A text that fills one word, as the name of an account does.
  one_word :
      (m : MessageV0) (rest : Bytes)
      → contents_offset m ≡ 0xA0
      → length m.account + 31 < 2 ^ 32
      → length m.contents + 31 < 2 ^ 32
      → decode_message st x (layout x m rest) ≡ ok (some m)
  unfolding decode_message decode_message_v0
  one_word m rest fills small_account small_contents =
      rw
        (
          read_exact 4 message_id _ refl,
          read_word-be_store 0x60 _ (omega arith),
          read_word-be_store (if m.force_atomic then 1 else 0) _ (ground arith),
          fills,
          read_word-be_store 0xA0 _ (omega arith),
          read_length-be_store (length m.account) _ (omega arith),
          read_padded-padded m.account _ small_account,
          read_length-be_store (length m.contents) _ (omega arith),
          read_padded-padded m.contents rest small_contents,
          bytes_eq_refl message_id,
        )
        (elim (Bool-cases m.force_atomic) [
          | inl atomic ↦ ground (arith, atomic)
          | inr loose ↦ ground (arith, loose)
        ])

  other_words :
      (m : MessageV0) (rest : Bytes)
      → (contents_offset m == 0xA0) ≡ false
      → length m.account + 31 < 2 ^ 32
      → decode_message st x (layout x m rest) ≡ err "invalid p3 offset"
  unfolding decode_message decode_message_v0
  other_words m rest differs small_account =
      rw
        (
          read_exact 4 message_id _ refl,
          read_word-be_store 0x60 _ (omega arith),
          read_word-be_store (if m.force_atomic then 1 else 0) _ (ground arith),
          read_word-be_store (contents_offset m) _ (omega arith),
          bytes_eq_refl message_id,
          differs,
        )
        (elim (Bool-cases m.force_atomic) [
          | inl atomic ↦ ground (arith, atomic)
          | inr loose ↦ ground (arith, loose)
        ])

  -- A message in the layout of the ABI, with both lengths below 2^32 - 31, is decoded to its account,
  -- flag and contents, whatever follows it, where the account has 1 to 32 bytes; with another account
  -- it is refused for the offset of its contents.
  pub decode_message-layout :
      (m : MessageV0) (rest : Bytes)
      → length m.account + 31 < 2 ^ 32
      → length m.contents + 31 < 2 ^ 32
      → decode_message st x (layout x m rest) ≡ (
          if leb 1 (length m.account) && leb (length m.account) 32
          then ok (some m)
          else err "invalid p3 offset")
  decode_message-layout m rest small_account small_contents =
      elim (Bool-cases (leb 1 (length m.account) && leb (length m.account) 32)) [
        | inl fits ↦ rw fits (one_word m rest (ground (arith, fits)) small_account small_contents)
        | inr beyond ↦ rw beyond (other_words m rest (ground (arith, beyond)) small_account)
      ]
