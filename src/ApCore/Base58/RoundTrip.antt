-- ===== src/ApCore/Base58/RoundTrip.antt =====
-- Decoding what base58Encode() produces.

use mathlib.Core.List.{append-nil}
use qu_v.Prelude.{
  ℕ, zero, suc, ◌+◌, ◌*◌, ◌/◌, ◌%◌, ◌≤◌, ◌<◌, ◌≡◌, refl, sym, ap, ◌∙◌, subst, inl, inr, Bool, true,
  false, not, Text, Option, none, some, List, [], ◌∷◌, ◌++◌, replicate, ◌==◌, if◌then◌else◌, All,
  Bool-cases, all_below, all_below-lt, arith,
}
use qu_v.ApCore.Base58.{
  base, zero_digit, letter, digit_of, index_from, value_from, digits_onto, letters, leading,
  base58_encode, decode_from, hex, is_odd, padded, from_hex, bytes_of, base58_decode,
}
use qu_v.ApCore.Base58.Digits.{
  digits_onto_step, digits_onto-zero, digits_onto-digits, value_from-digits_onto, All-digits_onto,
  digits_onto-positive,
}

-- Each letter is read as its digit, and only the first letter is the zero digit.
is_read : ℕ → Bool
is_read d = elim (digit_of (letter d)) [ none ↦ false | some e ↦ e == d ]

is_told_apart : ℕ → Bool
is_told_apart d = if d == 0 then true else not (letter d == zero_digit)

every_letter-is_read : all_below base is_read ≡ true
unfolding all_below is_read digit_of index_from letter
every_letter-is_read = refl

every_letter-is_told_apart : all_below base is_told_apart ≡ true
unfolding all_below is_told_apart letter
every_letter-is_told_apart = refl

digit_of-letter : (d : ℕ) → d < base → digit_of (letter d) ≡ some d
unfolding is_read
digit_of-letter d h =
    read (digit_of (letter d)) (all_below-lt base is_read d every_letter-is_read h)
  where
    read : (o : Option ℕ) → elim o [ none ↦ false | some e ↦ e == d ] ≡ true → o ≡ some d
    read none q = cc
    read (some e) q = ground arith

letter-positive : (d : ℕ) → d < base → 0 < d → (letter d == zero_digit) ≡ false
unfolding is_told_apart
letter-positive d h k =
    ground (arith, all_below-lt base is_told_apart d every_letter-is_told_apart h)

decode_from-letters :
    (acc : ℕ) (ds : List ℕ)
    → All (λ d. d < base) ds
    → decode_from acc (letters ds) ≡ some (value_from base acc ds)
unfolding decode_from letters value_from
decode_from-letters acc [] a = refl
decode_from-letters acc (d ∷ ds) a =
    rw (digit_of-letter d a.0, decode_from) (decode_from-letters (acc * base + d) ds a.1)

decode_from-zeros :
    (z : ℕ) (cs : Text) → decode_from 0 (replicate z zero_digit ++ cs) ≡ decode_from 0 cs
unfolding decode_from digit_of index_from
decode_from-zeros zero cs = refl
decode_from-zeros (suc z) cs = decode_from-zeros z cs

leading-replicate :
    (a z x : ℕ) (xs : List ℕ) → (x == a) ≡ false → leading a (replicate z a ++ x ∷ xs) ≡ z
unfolding leading
leading-replicate a zero x xs h = rw h refl
leading-replicate a (suc z) x xs h = ground (arith, leading-replicate a z x xs h)

leading-only : (a z : ℕ) → leading a (replicate z a) ≡ z
unfolding leading
leading-only a zero = refl
leading-only a (suc z) = ground (arith, leading-only a z)

value_from-zeros :
    (b z : ℕ) (ds : List ℕ) → value_from b 0 (replicate z 0 ++ ds) ≡ value_from b 0 ds
unfolding value_from
value_from-zeros b zero ds = refl
value_from-zeros b (suc z) ds =
    let e : 0 * b + 0 ≡ 0 = omega arith in rw (e, value_from) (value_from-zeros b z ds)

is_odd-cons : (x : ℕ) (xs : List ℕ) → is_odd xs ≡ false → is_odd (x ∷ xs) ≡ true
unfolding is_odd
is_odd-cons x [] h = refl
is_odd-cons x (y ∷ []) h = cc
is_odd-cons x (y ∷ z ∷ xs) h = is_odd-cons z xs h

-- Two hexadecimal digits make a byte.
from_hex-digits :
    (f v : ℕ) (ds : List ℕ)
    → v ≤ f
    → is_odd ds ≡ false
    → from_hex (padded (digits_onto 16 v ds)) ≡ digits_onto 256 v (from_hex ds)
unfolding padded from_hex is_odd
from_hex-digits zero v ds h e =
    let z : v ≡ 0 = omega arith in
    rw
      (z, digits_onto-zero 16 (omega arith) ds, e, digits_onto-zero 256 (omega arith) (from_hex ds))
      refl
from_hex-digits (suc f) v ds h e = elim (Bool-cases (v == 0)) [
  | inl q ↦
      let z : v ≡ 0 = ground arith in
      rw
        (
          z,
          digits_onto-zero 16 (omega arith) ds,
          e,
          digits_onto-zero 256 (omega arith) (from_hex ds),
        )
        refl
  | inr q ↦
      let pos : 0 < v = ground arith in
      rw
        (
          digits_onto_step 16 (omega arith) v ds pos,
          digits_onto_step 256 (omega arith) v (from_hex ds) pos,
        )
        (elim (Bool-cases (v / 16 == 0)) [
          | inl z ↦
              let a : v / 16 ≡ 0 = ground arith in
              let b : v / 256 ≡ 0 = omega arith in
              let c : 0 * 16 + v % 16 ≡ v % 256 = omega arith in
              rw
                (
                  a,
                  b,
                  digits_onto-zero 16 (omega arith) (v % 16 ∷ ds),
                  is_odd-cons (v % 16) ds e,
                  digits_onto-zero 256 (omega arith) (v % 256 ∷ from_hex ds),
                )
                (ap (λ x. x ∷ from_hex ds) c)
          | inr z ↦
              let a : v / 16 / 16 ≡ v / 256 = omega arith in
              let c : v / 16 % 16 * 16 + v % 16 ≡ v % 256 = omega arith in
              rw (digits_onto_step 16 (omega arith) (v / 16) (v % 16 ∷ ds) (ground arith), a, sym c)
                (from_hex-digits f (v / 256) (v / 16 % 16 ∷ v % 16 ∷ ds) (omega arith) e)
        ])
]

-- The bytes of a positive number are its digits in base 256.
bytes_of-positive : (v : ℕ) → 0 < v → bytes_of v ≡ digits_onto 256 v []
unfolding bytes_of hex from_hex
bytes_of-positive v h =
    let e : (v == 0) ≡ false = ground arith in rw e (from_hex-digits v v [] (omega arith) refl)

base58_decode-text :
    (z c : ℕ) (cs : Text) (v : ℕ)
    → decode_from 0 (replicate z zero_digit ++ c ∷ cs) ≡ some v
    → base58_decode (replicate z zero_digit ++ c ∷ cs)
      ≡ some (replicate (leading zero_digit (replicate z zero_digit ++ c ∷ cs)) 0 ++ bytes_of v)
unfolding base58_decode
base58_decode-text zero c cs v h = rw h refl
base58_decode-text (suc z) c cs v h = rw h refl

value_from-grows : (b acc : ℕ) (ds : List ℕ) → 0 < b → acc ≤ value_from b acc ds
unfolding value_from
value_from-grows b acc [] h = omega arith
value_from-grows b acc (d ∷ ds) h =
    let k : acc ≤ acc * b = grind arith in omega (arith, k, value_from-grows b (acc * b + d) ds h)

value_from-positive : (b : ℕ) (ds : List ℕ) → 0 < b → 0 < value_from 256 0 (b ∷ ds)
unfolding value_from
value_from-positive b ds h = omega (arith, value_from-grows 256 (0 * 256 + b) ds (omega arith))

-- A buffer whose first nonzero byte follows `z` zero bytes.
module _ (z b : ℕ) (rest : List ℕ) (positive : 0 < b) (is_byte : b < 256)
    (are_bytes : All (λ x. x < 256) rest) where
  -- A buffer of bytes with a nonzero byte, written as its leading zero bytes and the rest, comes back
  -- from its base58 text.
  pub base58_decode-base58_encode :
      base58_decode (base58_encode (replicate z 0 ++ b ∷ rest)) ≡ some (replicate z 0 ++ b ∷ rest)
  unfolding base58_encode
  base58_decode-base58_encode =
      let v = value_from 256 0 (b ∷ rest) in
      let zeros : leading 0 (replicate z 0 ++ b ∷ rest) ≡ z =
        leading-replicate 0 z b rest (ground arith) in
      let v_pos : 0 < v = value_from-positive b rest positive in
      let (d, ds, e, d_pos) = digits_onto-positive base (omega arith) v [] v_pos in
      let digits : All (λ x. x < base) (d ∷ ds) =
        subst (λ xs. All (λ x. x < base) xs) e (All-digits_onto base (omega arith) v [] tt) in
      let read : decode_from 0 (replicate z zero_digit ++ letters (d ∷ ds)) ≡ some v =
        decode_from-zeros z (letters (d ∷ ds))
        ∙ decode_from-letters 0 (d ∷ ds) digits
        ∙ ap some
            (ap (value_from base 0) (sym e) ∙ value_from-digits_onto base (omega arith) v []) in
      rw (zeros, value_from-zeros 256 z (b ∷ rest), e)
        (base58_decode-text z (letter d) (letters ds) v read
          ∙ rw
              (
                leading-replicate zero_digit z (letter d) (letters ds)
                    (letter-positive d digits.0 d_pos),
                bytes_of-positive v v_pos,
                digits_onto-digits 256 (omega arith) b rest positive is_byte are_bytes,
              )
              refl)

decode-zeros : (n : ℕ) → decode_from 0 (replicate n zero_digit) ≡ some 0
unfolding decode_from digit_of index_from
decode-zeros zero = refl
decode-zeros (suc n) = decode-zeros n

value_from-only_zeros : (b n : ℕ) → value_from b 0 (replicate n 0) ≡ 0
unfolding value_from
value_from-only_zeros b zero = refl
value_from-only_zeros b (suc n) =
    let e : 0 * b + 0 ≡ 0 = omega arith in rw (e, value_from) (value_from-only_zeros b n)

base58_encode-only_zeros : (n : ℕ) → base58_encode (replicate n 0) ≡ replicate n zero_digit
unfolding base58_encode letters
base58_encode-only_zeros n =
    rw (leading-only 0 n, value_from-only_zeros 256 n, digits_onto-zero base (omega arith) [])
      (append-nil (replicate n zero_digit))

-- The base58 text of a buffer of n + 1 zero bytes decodes to a buffer of n + 2 zero bytes.
pub base58_encode-zeros :
    (n : ℕ)
    → base58_decode (base58_encode (replicate (suc n) 0)) ≡ some (replicate (suc n) 0 ++ 0 ∷ [])
unfolding base58_decode bytes_of hex padded is_odd from_hex
base58_encode-zeros n =
    rw
      (
        base58_encode-only_zeros (suc n),
        base58_decode,
        decode-zeros (suc n),
        leading-only zero_digit n,
      )
      refl
