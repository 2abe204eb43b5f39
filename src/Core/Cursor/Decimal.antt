-- ===== src/Core/Cursor/Decimal.antt =====
-- String(n) and Number(s) on decimal texts, and the fixed-width form that padding gives.
use native.Mathlib.Nat.{pow-suc}
use qu_v.Prelude.{
  ℕ, zero, suc, ◌+◌, ◌-◌, ◌*◌, ◌/◌, ◌%◌, ◌^◌, ◌≤◌, ◌<◌, ◌≡◌, refl, sym, ap, ◌∙◌, inl, inr, Text, [],
  ◌∷◌, ◌++◌, append_assoc, arith, length, replicate, length-append, length-replicate, ltb, leb,
  ◌&&◌, if◌then◌else◌, Option, none, some, Bool-cases, Bool, false, dec_lt, ltb→lt, lt→ltb, ◌↔◌,
}

-- String(n) with a bound on the number of digits.
unfoldable pub digits_upto : ℕ → ℕ → Text
digits_upto zero n = []
digits_upto (suc f) n =
    let rest = digits_upto f (n / 10) ++ (b'0' + n % 10) ∷ [] in
    if ltb n 10 then (b'0' + n) ∷ [] else rest

-- String(n): n + 1 digits are enough.
unfoldable pub digits : ℕ → Text
unfolding digits_upto
digits n = digits_upto (suc n) n

unfoldable pub is_digit : ℕ → Bool
is_digit c = leb b'0' c && leb c b'9'

unfoldable pub number_from : ℕ → Text → Option ℕ
unfolding is_digit
number_from acc [] = some acc
number_from acc (c ∷ s) =
    let rest = number_from (acc * 10 + (c - b'0')) s in if is_digit c then rest else none

unfoldable pub number : Text → Option ℕ
unfolding number_from
number s = number_from 0 s

-- The last w decimal digits of n.
unfoldable pub fixed : ℕ → ℕ → Text
fixed zero n = []
fixed (suc w) n = fixed w (n / 10) ++ (b'0' + n % 10) ∷ []

pub length-fixed : (w n : ℕ) → length (fixed w n) ≡ w
unfolding fixed
length-fixed zero n = refl
length-fixed (suc w) n =
    omega (arith, length-append (fixed w (n / 10)) ((b'0' + n % 10) ∷ []), length-fixed w (n / 10))

replicate-snoc : (w a : ℕ) → replicate w a ++ a ∷ [] ≡ a ∷ replicate w a
replicate-snoc zero a = refl
replicate-snoc (suc w) a = ap (◌∷◌ a) (replicate-snoc w a)

fixed-zero : (w : ℕ) → fixed w 0 ≡ replicate w b'0'
unfolding fixed
fixed-zero zero = refl
fixed-zero (suc w) = ap (λ (t : Text). t ++ b'0' ∷ []) (fixed-zero w) ∙ replicate-snoc w b'0'

div_ten_lt : (w n : ℕ) → n < 10 ^ suc w → n / 10 < 10 ^ w
div_ten_lt w n h = omega (arith, pow-suc 10 w)

pow_pos : (w : ℕ) → 0 < 10 ^ w
pow_pos zero = omega arith
pow_pos (suc w) = omega (arith, pow-suc 10 w, pow_pos w)

pad_one : (w n : ℕ) → n < 10 → replicate (suc w - 1) b'0' ++ (b'0' + n) ∷ [] ≡ fixed (suc w) n
unfolding fixed
pad_one w n h =
    let q : n / 10 ≡ 0 = omega arith in
    let r : n % 10 ≡ n = omega arith in
    let k : suc w - 1 ≡ w = omega arith in rw (q, r, k, fixed-zero w)

pad_more :
    (w d : ℕ) (s t : Text)
    → replicate (w - length s) b'0' ++ s ≡ t
    → replicate (suc w - length (s ++ d ∷ [])) b'0' ++ (s ++ d ∷ []) ≡ t ++ d ∷ []
pad_more w d s t h =
    let k : suc w - length (s ++ d ∷ []) ≡ w - length s = omega (arith, length-append s (d ∷ [])) in
    rw k (sym (append_assoc _ s (d ∷ [])) ∙ ap (λ (x : Text). x ++ d ∷ []) h)

-- Padding with zeros on the left gives the fixed-width form.
pub pad-digits_upto :
    (f w n : ℕ)
    → n < f
    → n < 10 ^ suc w
    → replicate (suc w - length (digits_upto f n)) b'0' ++ digits_upto f n ≡ fixed (suc w) n
unfolding digits_upto fixed
pad-digits_upto zero w n h k = elim h [ ]
pad-digits_upto (suc f) zero n h k =
    let small : n < 10 = k in rw (lt→ltb n 10 small) (pad_one 0 n small)
pad-digits_upto (suc f) (suc w) n h k = elim (Bool-cases (ltb n 10)) [
  | inl e ↦ rw e (pad_one (suc w) n (ltb→lt n 10 e))
  | inr e ↦ rw e (
      pad_more (suc w) _ _ _ (pad-digits_upto f w (n / 10) (ground arith) (div_ten_lt (suc w) n k)))
]

length-digits_upto-le : (f w n : ℕ) → n < f → n < 10 ^ suc w → length (digits_upto f n) ≤ suc w
unfolding digits_upto
length-digits_upto-le f w n h k = omega (
  arith,
  ap length (pad-digits_upto f w n h k),
  length-append (replicate (suc w - length (digits_upto f n)) b'0') (digits_upto f n),
  length-replicate {A = ℕ} (suc w - length (digits_upto f n)) b'0',
  length-fixed (suc w) n,
)

length-digits_upto-gt : (f w n : ℕ) → n < f → 10 ^ w ≤ n → w < length (digits_upto f n)
unfolding digits_upto
length-digits_upto-gt zero w n h k = elim h [ ]
length-digits_upto-gt (suc f) zero n h k = elim (Bool-cases (ltb n 10)) [
  | inl e ↦ rw e (omega arith)
  | inr e ↦ rw e (omega (arith, length-append (digits_upto f (n / 10)) ((b'0' + n % 10) ∷ [])))
]
length-digits_upto-gt (suc f) (suc w) n h k =
    let big : 10 ^ w ≤ n / 10 = omega (arith, pow-suc 10 w) in
    let not_small : ltb n 10 ≡ false = elim (Bool-cases (ltb n 10)) [
      | inl e ↦ absurd (omega (arith, ltb→lt n 10 e, pow_pos w))
      | inr e ↦ e
    ] in
    rw not_small (
      omega (
        arith,
        length-append (digits_upto f (n / 10)) ((b'0' + n % 10) ∷ []),
        length-digits_upto-gt f w (n / 10) (omega (arith, pow_pos w)) big,
      ))

-- String(n) fits in w + 1 characters exactly when n is below 10 ^ (w + 1).
pub length-digits-le_iff : (w n : ℕ) → (length (digits n) ≤ suc w) ↔ (n < 10 ^ suc w)
unfolding digits
length-digits-le_iff w n = (
  (λ h. elim (dec_lt n (10 ^ suc w)) [
    | yes p ↦ p
    | no p ↦ absurd (omega (arith, length-digits_upto-gt (suc n) (suc w) n (omega arith)))
  ]),
  length-digits_upto-le (suc n) w n (omega arith),
)

-- The padded decimal of a number that fits is its fixed-width form.
pub pad-digits :
    (w n : ℕ)
    → n < 10 ^ suc w
    → replicate (suc w - length (digits n)) b'0' ++ digits n ≡ fixed (suc w) n
unfolding digits
pad-digits w n = pad-digits_upto (suc n) w n (omega arith)

number_from-digit : (acc d : ℕ) → d < 10 → number_from acc ((b'0' + d) ∷ []) ≡ some (acc * 10 + d)
unfolding number_from
number_from-digit acc d h = ground arith

number_from-append :
    (acc v : ℕ) (s t : Text)
    → number_from acc s ≡ some v
    → number_from acc (s ++ t) ≡ number_from v t
unfolding number_from
number_from-append acc v [] t h = ground arith
number_from-append acc v (c ∷ s) t h =
    ground (arith, number_from-append (acc * 10 + (c - b'0')) v s t)

-- Reading a fixed-width form gives the number back.
pub number_from-fixed : (w n : ℕ) → n < 10 ^ w → number_from 0 (fixed w n) ≡ some n
unfolding fixed
number_from-fixed zero n h = unfold number_from in ap some (omega arith)
number_from-fixed (suc w) n h =
    number_from-append 0 (n / 10) (fixed w (n / 10)) _
      (number_from-fixed w (n / 10) (div_ten_lt w n h))
    ∙ number_from-digit (n / 10) (n % 10) (omega arith)
    ∙ ap some (omega arith)

pub length-digits-gt : (w n : ℕ) → 10 ^ w ≤ n → w < length (digits n)
unfolding digits
length-digits-gt w n = length-digits_upto-gt (suc n) w n (omega arith)
