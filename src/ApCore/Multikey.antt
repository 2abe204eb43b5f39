-- ===== src/ApCore/Multikey.antt =====
-- packages/ap-core/src/multikey.js: encodeEd25519Multikey() and decodeEd25519Multikey(), and
-- packages/ap-encryption/src/x25519-multikey.js: encodeX25519Multikey() and decodeX25519Multikey().
-- none is the error each of them throws.
pub mod RoundTrip
use qu_v.Prelude.{
  ℕ, ◌+◌, Bool, true, false, ◌&&◌, Text, text_eq, Option, none, some, List, [], ◌∷◌, ◌++◌, length,
  drop, ◌==◌, if◌then◌else◌,
}
use qu_v.ApCore.Base58.{base58_encode, base58_decode}

-- MULTICODEC_ED25519_PUB
abbrev pub multicodec_ed25519_pub : List ℕ
multicodec_ed25519_pub = 237 ∷ 1 ∷ []

-- MULTICODEC_X25519_PUB
abbrev pub multicodec_x25519_pub : List ℕ
multicodec_x25519_pub = 236 ∷ 1 ∷ []

-- MULTIBASE_BASE58BTC_PREFIX
abbrev pub multibase_prefix : ℕ
multibase_prefix = b'z'

-- decoded.subarray(0, 2).equals(codec)
unfoldable pub has_codec : List ℕ → List ℕ → Bool
has_codec codec (x ∷ y ∷ _) = text_eq (x ∷ y ∷ []) codec
has_codec codec _ = false

-- decoded.subarray(2), of the right length and codec.
unfoldable pub raw_of : List ℕ → List ℕ → Option (List ℕ)
unfolding has_codec
raw_of codec decoded =
    if length decoded == 34 && has_codec codec decoded then some (drop 2 decoded) else none

unfoldable pub encode_ed25519_multikey : List ℕ → Option Text
encode_ed25519_multikey raw32 =
    if length raw32 == 32
    then some (multibase_prefix ∷ base58_encode (multicodec_ed25519_pub ++ raw32))
    else none

unfoldable pub decode_ed25519_multikey : Text → Option (List ℕ)
unfolding raw_of
decode_ed25519_multikey [] = none
decode_ed25519_multikey (c ∷ cs) =
    if c == multibase_prefix
    then elim (base58_decode cs) [
      | none ↦ none
      | some decoded ↦ raw_of multicodec_ed25519_pub decoded
    ]
    else none

unfoldable pub encode_x25519_multikey : List ℕ → Option Text
encode_x25519_multikey raw32 =
    if length raw32 == 32
    then some (multibase_prefix ∷ base58_encode (multicodec_x25519_pub ++ raw32))
    else none

unfoldable pub decode_x25519_multikey : Text → Option (List ℕ)
unfolding raw_of
decode_x25519_multikey [] = none
decode_x25519_multikey (c ∷ cs) =
    if c == multibase_prefix
    then elim (base58_decode cs) [
      | none ↦ none
      | some decoded ↦ raw_of multicodec_x25519_pub decoded
    ]
    else none
