-- ===== src/Prelude/Sorting.antt =====
-- `keys.sort()` on strings: the language's stable sort by `<`, as an insertion sort.
use mathlib.Core.Path.{◌≡◌, refl, sym, ap₂, subst, ◌∙◌}
use mathlib.Core.Logic.{inl, inr, ◌⊎◌, ◌↔◌}
use mathlib.Core.Bool.{true}
use mathlib.Core.List.{List, [], ◌∷◌}
use native.Mathlib.Omega.{arith}
use qu_v.Prelude.Tests.{if◌then◌else◌, Bool-cases}
use qu_v.Prelude.Lists.{In, All, All-In}
use qu_v.Prelude.Texts.{Text, text_ltb, text_ltb_trans, text_ltb_total, text_ltb_irrefl}

unfoldable pub insert_sorted : Text → List Text → List Text
insert_sorted k [] = k ∷ []
insert_sorted k (x ∷ xs) = if text_ltb x k then x ∷ insert_sorted k xs else k ∷ x ∷ xs

unfoldable pub sort : List Text → List Text
unfolding insert_sorted
sort [] = []
sort (k ∷ ks) = insert_sorted k (sort ks)

abbrev pub Above : Text → List Text → Type 0
Above k = All (λ x. text_ltb k x ≡ true)

-- Strictly ascending in the order of `<`.
abbrev pub Ascending : List Text → Type 0
Ascending [] = Unit
Ascending (x ∷ xs) = Above x xs × Ascending xs

abbrev pub Distinct : List Text → Type 0
Distinct [] = Unit
Distinct (x ∷ xs) = (¬ In x xs) × Distinct xs

In-insert_sorted : (a k : Text) (xs : List Text) → In a (insert_sorted k xs) ↔ ((a ≡ k) ⊎ In a xs)
unfolding insert_sorted
In-insert_sorted a k [] = (λ h. h, λ h. h)
In-insert_sorted a k (x ∷ xs) = elim (Bool-cases (text_ltb x k)) [
  | inl e ↦ rw (e, insert_sorted) (ground (arith, In-insert_sorted a k xs))
  | inr e ↦ rw (e, insert_sorted) (λ h. h, λ h. h)
]

pub In-sort : (a : Text) (ks : List Text) → In a (sort ks) ↔ In a ks
unfolding sort
In-sort a [] = (λ h. h, λ h. h)
In-sort a (k ∷ ks) = ground (arith, In-insert_sorted a k (sort ks), In-sort a ks)

Above-trans : (a b : Text) (xs : List Text) → text_ltb a b ≡ true → Above b xs → Above a xs
Above-trans a b [] h k = tt
Above-trans a b (x ∷ xs) h k = (text_ltb_trans a b x h k.0, Above-trans a b xs h k.1)

insert_sorted-Above :
    (a k : Text) (xs : List Text) → text_ltb a k ≡ true → Above a xs → Above a (insert_sorted k xs)
unfolding insert_sorted
insert_sorted-Above a k [] h b = (h, tt)
insert_sorted-Above a k (x ∷ xs) h b = ground (arith, insert_sorted-Above a k xs h b.1)

insert_sorted-Ascending :
    (k : Text) (xs : List Text) → ¬ In k xs → Ascending xs → Ascending (insert_sorted k xs)
unfolding insert_sorted
insert_sorted-Ascending k [] h s = (tt, tt)
insert_sorted-Ascending k (x ∷ xs) h s = elim (Bool-cases (text_ltb x k)) [
  | inl e ↦
      rw (e, insert_sorted)
        (insert_sorted-Above x k xs e s.0, insert_sorted-Ascending k xs (λ m. h (inr m)) s.1)
  | inr e ↦
      let before : text_ltb k x ≡ true = elim (Bool-cases (text_ltb k x)) [
        | inl y ↦ y
        | inr n ↦ absurd (h (inl (text_ltb_total k x n e)))
      ] in
      rw (e, insert_sorted) ((before, Above-trans k x xs before s.0), s)
]

-- Sorting distinct keys gives them in strictly ascending order.
pub sort-Ascending : (ks : List Text) → Distinct ks → Ascending (sort ks)
unfolding sort
sort-Ascending [] d = tt
sort-Ascending (k ∷ ks) d =
    insert_sorted-Ascending k (sort ks) (λ m. d.0 ((In-sort k ks).0 m)) (sort-Ascending ks d.1)

not-In_of_Above : (x : Text) (xs : List Text) → Above x xs → ¬ In x xs
not-In_of_Above x xs h m = cc (All-In _ xs x h m, text_ltb_irrefl x)

-- Two strictly ascending lists with the same members are the same list.
pub Ascending-ext :
    (xs ys : List Text) → Ascending xs → Ascending ys → ((a : Text) → In a xs ↔ In a ys) → xs ≡ ys
Ascending-ext [] [] s t h = refl
Ascending-ext [] (y ∷ ys) s t h = absurd ((h y).1 (inl refl))
Ascending-ext (x ∷ xs) [] s t h = absurd ((h x).0 (inl refl))
Ascending-ext (x ∷ xs) (y ∷ ys) s t h = ap₂ ◌∷◌ heads (Ascending-ext xs ys s.1 t.1 rest)
  where
    heads : x ≡ y
    heads = elim ((h x).0 (inl refl)) [
      | inl e ↦ e
      | inr m ↦ elim ((h y).1 (inl refl)) [
        | inl e ↦ sym e
        | inr n ↦
            cc (text_ltb_trans x y x (All-In _ xs y s.0 n) (All-In _ ys x t.0 m), text_ltb_irrefl x)
      ]
    ]

    rest : (a : Text) → In a xs ↔ In a ys
    rest a = (
      (λ m. elim ((h a).0 (inr m)) [
        | inl e ↦ absurd (not-In_of_Above x xs s.0 (subst (λ z. In z xs) (e ∙ sym heads) m))
        | inr n ↦ n
      ]),
      (λ m. elim ((h a).1 (inr m)) [
        | inl e ↦ absurd (not-In_of_Above y ys t.0 (subst (λ z. In z ys) (e ∙ heads) m))
        | inr n ↦ n
      ]),
    )
