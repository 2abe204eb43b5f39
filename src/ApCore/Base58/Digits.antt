-- ===== src/ApCore/Base58/Digits.antt =====
-- Positional digits in any base from two on: a number and its digits determine each other.
use native.Mathlib.Nat.{
  div-add-mod', div-lt_self, mod-lt, div-eq_of_lt, mod-eq_of_lt, mul-add-div_right,
}
use mathlib.Core.List.{append-nil}
use qu_v.Prelude.{
  ℕ, zero, suc, ◌+◌, ◌*◌, ◌/◌, ◌%◌, ◌≤◌, ◌<◌, ◌≡◌, refl, sym, ap, ◌∙◌, inl, inr, false, List, [],
  ◌∷◌, ◌++◌, ◌==◌, All, Bool-cases, arith,
}
use qu_v.ApCore.Base58.{value_from, digits_loop, digits_onto}

module _ (b : ℕ) (big : 1 < b) where
  div-digits : (acc d : ℕ) → d < b → (acc * b + d) / b ≡ acc
  div-digits acc d h = mul-add-div_right (omega arith) acc d ∙ omega (arith, div-eq_of_lt h)

  mod-digits : (acc d : ℕ) → d < b → (acc * b + d) % b ≡ d
  mod-digits acc d h =
      let k : acc * b ≡ (acc * b + d) / b * b = ap (λ q. q * b) (sym (div-digits acc d h)) in
      omega (arith, div-add-mod' (acc * b + d) b)

  div-below : (v f : ℕ) → v ≤ suc f → (v == 0) ≡ false → v / b ≤ f
  div-below v f h e =
      let pos : 0 < v = ground arith in let less : v / b < v = div-lt_self pos big in omega arith

  digits_loop-fuel :
      (f g v : ℕ) (out : List ℕ) → v ≤ f → v ≤ g → digits_loop b f v out ≡ digits_loop b g v out
  unfolding digits_loop
  digits_loop-fuel zero zero v out h k = refl
  digits_loop-fuel zero (suc g) v out h k = ground arith
  digits_loop-fuel (suc f) zero v out h k = ground arith
  digits_loop-fuel (suc f) (suc g) v out h k = elim (Bool-cases (v == 0)) [
    | inl e ↦ rw e refl
    | inr e ↦ rw e (digits_loop-fuel f g (v / b) _ (div-below v f h e) (div-below v g k e))
  ]

  -- One turn of the loop on a positive number.
  pub digits_onto_step :
      (v : ℕ) (out : List ℕ) → 0 < v → digits_onto b v out ≡ digits_onto b (v / b) ((v % b) ∷ out)
  unfolding digits_onto digits_loop
  digits_onto_step zero out h = elim h [ ]
  digits_onto_step (suc v) out h =
      let e : (suc v == 0) ≡ false = ground arith in
      rw e (
        digits_loop-fuel v (suc v / b) (suc v / b) ((suc v % b) ∷ out)
          (div-below (suc v) v (omega arith) e) (omega arith))

  pub digits_onto-zero : (out : List ℕ) → digits_onto b 0 out ≡ out
  unfolding digits_onto digits_loop
  digits_onto-zero out = refl

  pos_mul : (n : ℕ) → 0 < n → 0 < n * b
  pos_mul n h = grind arith

  -- The digits of a number, with those of `ds` behind them, when the number is not zero.
  digits_onto-value_from :
      (acc : ℕ) (ds out : List ℕ)
      → 0 < acc
      → All (λ d. d < b) ds
      → digits_onto b (value_from b acc ds) out ≡ digits_onto b acc (ds ++ out)
  unfolding value_from
  digits_onto-value_from acc [] out h a = refl
  digits_onto-value_from acc (d ∷ ds) out h a =
      let pos : 0 < acc * b + d = omega (arith, pos_mul acc h) in
      digits_onto-value_from (acc * b + d) ds out pos a.1
      ∙ digits_onto_step (acc * b + d) (ds ++ out) pos
      ∙ rw (div-digits acc d a.0, mod-digits acc d a.0) refl

  -- The digits of a number that begins with a positive digit.
  pub digits_onto-digits :
      (d : ℕ) (ds : List ℕ)
      → 0 < d
      → d < b
      → All (λ x. x < b) ds
      → digits_onto b (value_from b 0 (d ∷ ds)) [] ≡ d ∷ ds
  unfolding value_from
  digits_onto-digits d ds h k a =
      let e : 0 * b + d ≡ d = omega arith in
      let q : d / b ≡ 0 = div-eq_of_lt k in
      let r : d % b ≡ d = mod-eq_of_lt k in
      rw e (
        digits_onto-value_from d ds [] h a
        ∙ digits_onto_step d (ds ++ []) h
        ∙ rw (q, r) (digits_onto-zero (d ∷ (ds ++ [])) ∙ ap (λ xs. d ∷ xs) (append-nil ds)))

  value_loop :
      (f v : ℕ) (out : List ℕ) → v ≤ f → value_from b 0 (digits_loop b f v out) ≡ value_from b v out
  unfolding digits_loop value_from
  value_loop zero v out h = let e : v ≡ 0 = omega arith in rw e refl
  value_loop (suc f) v out h = elim (Bool-cases (v == 0)) [
    | inl e ↦ let z : v ≡ 0 = ground arith in rw z refl
    | inr e ↦ rw e (
        value_loop f (v / b) ((v % b) ∷ out) (div-below v f h e)
        ∙ ap (λ n. value_from b n out) (div-add-mod' v b))
  ]

  -- The digits of a number have its value.
  pub value_from-digits_onto :
      (v : ℕ) (out : List ℕ) → value_from b 0 (digits_onto b v out) ≡ value_from b v out
  unfolding digits_onto
  value_from-digits_onto v out = value_loop v v out (omega arith)

  loop-AllDigits :
      (f v : ℕ) (out : List ℕ) → All (λ d. d < b) out → All (λ d. d < b) (digits_loop b f v out)
  unfolding digits_loop
  loop-AllDigits zero v out a = a
  loop-AllDigits (suc f) v out a = elim (Bool-cases (v == 0)) [
    | inl e ↦ rw e a
    | inr e ↦ rw e (loop-AllDigits f (v / b) ((v % b) ∷ out) (mod-lt v (omega arith), a))
  ]

  pub All-digits_onto :
      (v : ℕ) (out : List ℕ) → All (λ d. d < b) out → All (λ d. d < b) (digits_onto b v out)
  unfolding digits_onto
  All-digits_onto v out a = loop-AllDigits v v out a

  -- The first digit of a positive number is positive.
  leading_loop :
      (f v : ℕ) (out : List ℕ)
      → v ≤ f
      → 0 < v
      → (d : ℕ) × (ds : List ℕ) × (digits_loop b f v out ≡ d ∷ ds) × (0 < d)
  unfolding digits_loop
  leading_loop zero v out h k = absurd (omega arith)
  leading_loop (suc f) v out h k = elim (Bool-cases (v == 0)) [
    | inl e ↦ absurd (ground arith)
    | inr e ↦ rw e (elim (Bool-cases (v / b == 0)) [
      | inl z ↦
          let q : v / b ≡ 0 = ground arith in
          let r : v % b ≡ v = omega (arith, div-add-mod' v b, ap (λ x. x * b) q) in
          (
            v % b,
            out,
            digits_loop-fuel f 0 (v / b) _ (div-below v f h e) (omega arith),
            omega arith,
          )
      | inr z ↦ leading_loop f (v / b) ((v % b) ∷ out) (div-below v f h e) (ground arith)
    ])
  ]

  pub digits_onto-positive :
      (v : ℕ) (out : List ℕ)
      → 0 < v
      → (d : ℕ) × (ds : List ℕ) × (digits_onto b v out ≡ d ∷ ds) × (0 < d)
  unfolding digits_onto
  digits_onto-positive v out h = leading_loop v v out (omega arith) h

  -- In a base of at least two, as many turns as the number are enough: with that fuel or more the
  -- loop gives the same digits, each below the base, and they have the number's value.
  pub digits_loop-enough :
      (f v : ℕ)
      → v ≤ f
      → (digits_loop b f v [] ≡ digits_onto b v [])
        × (value_from b 0 (digits_loop b f v []) ≡ v)
        × All (λ d. d < b) (digits_loop b f v [])
  unfolding digits_onto value_from
  digits_loop-enough f v h =
      (digits_loop-fuel f v v [] h (omega arith), value_loop f v [] h, loop-AllDigits f v [] tt)
