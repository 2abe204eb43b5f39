-- ===== src/Examples/Keys.antt =====
-- Buffers and keys.
use qu_v.Encryption.Envelope.{Primitives, IsSound}
use qu_v.Encryption.Payload.{Codecs, Payload, encrypt_payload, decrypt_payload}
use qu_v.Encryption.Decrypts.{decrypt_payload-encrypt_payload}
use qu_v.Prelude.{
  ℕ, ◌+◌, ◌<◌, ◌≡◌, refl, ap, inl, Text, codes, none, some, List, [], ◌∷◌, ◌++◌, length, replicate,
  All, arith, text_eq, text_eq_refl, if◌then◌else◌,
}
use qu_v.ApCore.Base58.Digits.{digits_loop-enough}
use qu_v.ApCore.Base58.{value_from, digits_loop, digits_onto, base58_encode, base58_decode}
use qu_v.ApCore.Base58.RoundTrip.{base58_decode-base58_encode}
use qu_v.ApCore.Multikey.{decode_x25519_multikey}
use qu_v.ApCore.Multikey.RoundTrip.{multikey-RoundTrip}

base58_decode-base58_encode_example :
    base58_decode (base58_encode (replicate 2 0 ++ 237 ∷ 1 ∷ 0 ∷ []))
    ≡ some (replicate 2 0 ++ 237 ∷ 1 ∷ 0 ∷ [])
base58_decode-base58_encode_example =
    base58_decode-base58_encode 2 237 (1 ∷ 0 ∷ []) (omega arith) (omega arith)
      (omega arith, (omega arith, tt))

abbrev raw : List ℕ
raw = 215 ∷ 90 ∷ replicate 30 7

raw-bytes : All (λ x. x < 256) raw
raw-bytes = ground arith

-- A cipher that seals by writing the key beside the plaintext, and keys that are numbers.
abbrev toy : Primitives ℕ ℕ
toy = record {
  public_of = λ a. a;
  diffie_hellman = λ a p. (a + p) ∷ [];
  hash = λ b. b;
  seal = λ key iv plaintext. record { ciphertext = plaintext; auth_tag = key };
  unseal = λ key iv box. if text_eq key box.auth_tag then some box.ciphertext else none;
  random = λ n. n ∷ [];
}

toy-IsSound : IsSound toy
toy-IsSound = record {
  agree = λ a b. ap (λ z. z ∷ []) (omega arith);
  unseal-seal = λ key iv plaintext. rw (text_eq_refl key) refl;
}

-- A raw key stands for its first byte.
abbrev toy_codecs : Codecs ℕ
toy_codecs = record {
  to_base64 = λ b. b;
  from_base64 = λ t. t;
  utf8 = λ t. t;
  from_utf8 = λ b. b;
  public_from_raw = λ b. elim b [ [] ↦ 0 | x ∷ xs ↦ x ];
}

key_of :
    (raw : List ℕ)
    → length raw ≡ 32
    → All (λ x. x < 256) raw
    → (t : Text) × (decode_x25519_multikey t ≡ some raw)
key_of raw h k = let (ed, x, p, q, r, u, v, w) = multikey-RoundTrip raw h k in (x, v)

raw_b-bytes : All (λ x. x < 256) (9 ∷ replicate 31 3)
raw_b-bytes = ground arith

abbrev sender_key : Text
sender_key = (key_of raw refl raw-bytes).0

abbrev bob_key : Text
bob_key = (key_of (9 ∷ replicate 31 3) refl raw_b-bytes).0

decrypt_payload-encrypt_payload_example :
    (p : Payload) × (encrypt_payload toy toy_codecs 0
        (codes "hi")
        215
        sender_key
        ((codes "bob", bob_key) ∷ [])
      ≡ some p)
    × (decrypt_payload toy toy_codecs p (codes "bob") 9 ≡ some (codes "hi"))
decrypt_payload-encrypt_payload_example =
    decrypt_payload-encrypt_payload toy toy_codecs 0 (codes "hi") sender_key (codes "bob") bob_key
      215 9 ((codes "bob", bob_key) ∷ []) raw (9 ∷ replicate 31 3) toy-IsSound
      (record { from_base64-to_base64 = λ b. refl }) refl (key_of raw refl raw-bytes).1 refl
      (key_of (9 ∷ replicate 31 3) refl raw_b-bytes).1 refl ((λ z. z), tt)
      ((_, (key_of (9 ∷ replicate 31 3) refl raw_b-bytes).1), tt) (inl refl)

digits_loop-enough_example :
    (digits_loop 58 4000 3364 [] ≡ digits_onto 58 3364 [])
    × (value_from 58 0 (digits_loop 58 4000 3364 []) ≡ 3364)
    × All (λ d. d < 58) (digits_loop 58 4000 3364 [])
digits_loop-enough_example = digits_loop-enough 58 (omega arith) 4000 3364 (omega arith)
