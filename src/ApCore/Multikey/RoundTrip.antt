-- ===== src/ApCore/Multikey/RoundTrip.antt =====
-- Reading back the keys of multikey.js and x25519-multikey.js, and telling the two kinds apart.
use qu_v.Prelude.{
  ℕ, ◌<◌, ◌≡◌, refl, true, Text, text_eq, none, some, List, ◌∷◌, ◌++◌, length, ◌==◌, All, arith,
}
use qu_v.ApCore.Base58.{base58_encode, base58_decode}
use qu_v.ApCore.Base58.RoundTrip.{base58_decode-base58_encode}
use qu_v.ApCore.Multikey.{
  multicodec_ed25519_pub, multicodec_x25519_pub, multibase_prefix, has_codec, raw_of,
  encode_ed25519_multikey, decode_ed25519_multikey, encode_x25519_multikey, decode_x25519_multikey,
}

codec-RoundTrip :
    (c : ℕ) (raw : List ℕ)
    → 0 < c
    → c < 256
    → All (λ x. x < 256) raw
    → base58_decode (base58_encode (c ∷ 1 ∷ raw)) ≡ some (c ∷ 1 ∷ raw)
codec-RoundTrip c raw h k a = base58_decode-base58_encode 0 c (1 ∷ raw) h k (omega arith, a)

-- For 32 bytes, the Ed25519 text is made, decodes as Ed25519 to those bytes and fails to decode as
-- X25519; the X25519 text is made, decodes as X25519 to those bytes and fails to decode as Ed25519.
pub multikey-RoundTrip :
    (raw : List ℕ)
    → length raw ≡ 32
    → All (λ x. x < 256) raw
    → (ed : Text) × (x : Text) × (encode_ed25519_multikey raw ≡ some ed)
      × (decode_ed25519_multikey ed ≡ some raw)
      × (decode_x25519_multikey ed ≡ none)
      × (encode_x25519_multikey raw ≡ some x)
      × (decode_x25519_multikey x ≡ some raw)
      × (decode_ed25519_multikey x ≡ none)
unfolding encode_ed25519_multikey decode_ed25519_multikey encode_x25519_multikey
    decode_x25519_multikey raw_of has_codec text_eq
multikey-RoundTrip raw h a =
    let test : (length raw == 32) ≡ true = ground (arith, h) in
    let long : (length (237 ∷ 1 ∷ raw) == 34) ≡ true = ground (arith, h) in
    let as_ed = codec-RoundTrip 237 raw (omega arith) (omega arith) a in
    let as_x = codec-RoundTrip 236 raw (omega arith) (omega arith) a in
    (
      multibase_prefix ∷ base58_encode (multicodec_ed25519_pub ++ raw),
      multibase_prefix ∷ base58_encode (multicodec_x25519_pub ++ raw),
      rw test refl,
      rw (as_ed, long) refl,
      rw (as_ed, long) refl,
      rw test refl,
      rw (as_x, long) refl,
      rw (as_x, long) refl,
    )
