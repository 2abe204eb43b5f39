-- ===== src/ApCore/Base58.antt =====
-- packages/ap-core/src/base58.js: base58Encode() and base58Decode(). A buffer is a list of bytes,
-- a BigInt a natural number, and a hexadecimal digit its value.
pub mod Digits
pub mod RoundTrip
use qu_v.Prelude.{
  ℕ, zero, suc, ◌+◌, ◌*◌, ◌/◌, ◌%◌, Bool, true, false, Text, codes, Option, none, some, List, [],
  ◌∷◌, ◌++◌, length, replicate, get_elem?, ◌==◌, if◌then◌else◌,
}
use mathlib.Core.Option

abbrev pub base : ℕ
base = 58

-- ALPHABET
abbrev pub alphabet : Text
alphabet = codes "123456789ABCDEFGHJKLMNPQRSTUVWXYZabcdefghijkmnopqrstuvwxyz"

-- ALPHABET[0]
abbrev pub zero_digit : ℕ
zero_digit = b'1'

-- ALPHABET[digit]; a digit is below 58.
unfoldable pub letter : ℕ → ℕ
letter d = elim (get_elem? alphabet d) [ none ↦ 0 | some c ↦ c ]

-- The index of a character in a text, counted from `i`.
unfoldable pub index_from : ℕ → Text → ℕ → Option ℕ
index_from i [] c = none
index_from i (x ∷ xs) c = let rest = index_from (i + 1) xs c in if c == x then some i else rest

-- ALPHABET_MAP.get(char)
unfoldable pub digit_of : ℕ → Option ℕ
unfolding index_from
digit_of c = index_from 0 alphabet c

-- The number with the given digits behind those of `acc`: value = value * base + digit.
unfoldable pub value_from : ℕ → ℕ → List ℕ → ℕ
value_from b acc [] = acc
value_from b acc (d ∷ ds) = value_from b (acc * b + d) ds

-- while (value > 0) { out = value % base, out; value /= base }. The fuel `value` is enough.
unfoldable pub digits_loop : ℕ → ℕ → ℕ → List ℕ → List ℕ
digits_loop b zero value out = out
digits_loop b (suc f) value out =
    let rest = digits_loop b f (value / b) ((value % b) ∷ out) in if value == 0 then out else rest

unfoldable pub digits_onto : ℕ → ℕ → List ℕ → List ℕ
unfolding digits_loop
digits_onto b value out = digits_loop b value value out

unfoldable pub letters : List ℕ → Text
unfolding letter
letters [] = []
letters (d ∷ ds) = letter d ∷ letters ds

-- How many elements equal `a` before the first that does not.
unfoldable pub leading : ℕ → List ℕ → ℕ
leading a [] = 0
leading a (x ∷ xs) = let rest = leading a xs in if x == a then suc rest else 0

-- base58Encode(bytes)
unfoldable pub base58_encode : List ℕ → Text
unfolding digits_onto value_from letters leading
base58_encode bytes =
    replicate (leading 0 bytes) zero_digit ++ letters (digits_onto base (value_from 256 0 bytes) [])

-- The loop over the characters; none is the error for a character outside the alphabet.
unfoldable pub decode_from : ℕ → Text → Option ℕ
unfolding digit_of
decode_from value [] = some value
decode_from value (c ∷ cs) = elim (digit_of c) [
  | none ↦ none
  | some d ↦ decode_from (value * base + d) cs
]

-- value.toString(16), one digit for zero.
unfoldable pub hex : ℕ → List ℕ
unfolding digits_onto
hex value = if value == 0 then 0 ∷ [] else digits_onto 16 value []

unfoldable pub is_odd : List ℕ → Bool
is_odd [] = false
is_odd (x ∷ []) = true
is_odd (x ∷ y ∷ xs) = is_odd xs

-- if (hex.length % 2 === 1) hex = `0${hex}`
unfoldable pub padded : List ℕ → List ℕ
unfolding is_odd
padded ds = if is_odd ds then 0 ∷ ds else ds

-- Buffer.from(hex, 'hex')
unfoldable pub from_hex : List ℕ → List ℕ
from_hex (x ∷ y ∷ ds) = (x * 16 + y) ∷ from_hex ds
from_hex _ = []

unfoldable pub bytes_of : ℕ → List ℕ
unfolding hex padded from_hex
bytes_of value = from_hex (padded (hex value))

-- base58Decode(str)
unfoldable pub base58_decode : Text → Option (List ℕ)
unfolding decode_from bytes_of leading
base58_decode [] = some []
base58_decode (c ∷ cs) =
    Option.map (λ value. replicate (leading zero_digit (c ∷ cs)) 0 ++ bytes_of value)
      (decode_from 0 (c ∷ cs))
