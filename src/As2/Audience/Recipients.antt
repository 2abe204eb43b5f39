-- ===== src/As2/Audience/Recipients.antt =====
-- The recipients that normalizeAudience computes are exactly the addressed ids.
use qu_v.Prelude.{
  ◌≡◌, ◌↔◌, ◌⊎◌, sym, inl, inr, true, Text, codes, List, [], ◌∷◌, ◌++◌, text_eq_iff, In,
  In-append_left, In-append_right, In-append_cases, Bool-cases, arith,
}
use qu_v.Prelude.Sorting.{Distinct}
use qu_v.As2.Value.{Value}
use qu_v.As2.Vocabulary.{includes}
use qu_v.As2.Audience.{add, Gathered, gather, nobody, addressed}

pub includes_iff : (xs : List Text) (t : Text) → (includes xs t ≡ true) ↔ In t xs
unfolding includes
includes_iff [] t = ((λ h. cc), (λ h. absurd h))
includes_iff (x ∷ xs) t = ground (arith, text_eq_iff t x, includes_iff xs t)

pub Distinct-snoc : (xs : List Text) (x : Text) → Distinct xs → ¬ In x xs → Distinct (xs ++ x ∷ [])
Distinct-snoc [] x d h = ((λ m. m), tt)
Distinct-snoc (y ∷ ys) x d h = (
  (λ m. elim (In-append_cases y ys (x ∷ []) m) [
    | inl l ↦ d.0 l
    | inr (inl e) ↦ h (inl (sym e))
    | inr (inr z) ↦ z
  ]),
  Distinct-snoc ys x d.1 (λ m. h (inr m)),
)

pub add-Distinct : (seen : List Text) (x : Text) → Distinct seen → Distinct (add seen x)
unfolding add
add-Distinct seen x d = elim (Bool-cases (includes seen x)) [
  | inl e ↦ rw e d
  | inr e ↦ rw e (Distinct-snoc seen x d (λ m. cc ((includes_iff seen x).1 m, e)))
]

pub In-add : (seen : List Text) (x y : Text) → In y (add seen x) ↔ (In y seen ⊎ (y ≡ x))
unfolding add
In-add seen x y = elim (Bool-cases (includes seen x)) [
  | inl e ↦ rw e (inl, (λ h. elim h [ inl m ↦ m | inr q ↦ rw q ((includes_iff seen x).0 e) ]))
  | inr e ↦ rw e (
    (λ h. elim (In-append_cases y seen (x ∷ []) h) [
      | inl m ↦ inl m
      | inr (inl q) ↦ inr q
      | inr (inr z) ↦ absurd z
    ]),
    (λ h. elim h [
      | inl m ↦ In-append_left y seen (x ∷ []) m
      | inr q ↦ In-append_right y seen (x ∷ []) (inl q)
    ]),
  )
]

-- An id stands in one of the five addressing fields.
abbrev pub Addressed : Value → Text → Type 0
Addressed v t =
    In t (addressed v (codes "to"))
    ⊎ In t (addressed v (codes "cc"))
    ⊎ In t (addressed v (codes "bto"))
    ⊎ In t (addressed v (codes "bcc"))
    ⊎ In t (addressed v (codes "audience"))

-- The five fields in the order of the loop.
all_addressed : Value → List Text
all_addressed v =
    addressed v (codes "to")
    ++ (addressed v (codes "cc")
        ++ (addressed v (codes "bto")
            ++ (addressed v (codes "bcc") ++ addressed v (codes "audience"))))

gathered : Value → Gathered
unfolding all_addressed
gathered v = gather nobody (all_addressed v)
