-- ===== src/Core/Listing/Laws.antt =====
-- Which keys a listing selects, and in which order.
use mathlib.Core.List.{reverse-cons}
use qu_v.Prelude.{
  ℕ, zero, suc, ◌≡◌, ◌↔◌, refl, sym, ap, ◌∙◌, inl, inr, Bool, true, false, Text, Option, none, some,
  List, [], ◌∷◌, ◌++◌, reverse, In, All, take, starts_with, Bool-cases, Option-cases, arith,
  append-nil,
}
use qu_v.Prelude.Sorting.{Ascending, Distinct, In-sort, sort-Ascending}
use qu_v.Core.Storage.{keys}
use qu_v.Core.Listing.{with_prefix, select_keys, with_values}

In-with_prefix :
    (p k : Text) (ks : List Text) → In k (with_prefix p ks) ↔ ((starts_with p k ≡ true) × In k ks)
unfolding with_prefix
In-with_prefix p k [] = ((λ h. absurd h), (λ h. h.1))
In-with_prefix p k (x ∷ ks) = elim (Bool-cases (starts_with p x)) [
  | inl e ↦
      rw (e, with_prefix)
        (
          (λ h. elim h [
            | inl q ↦ (rw (q, e), inl q)
            | inr r ↦ let (a, b) = (In-with_prefix p k ks).0 r in (a, inr b)
          ]),
          (λ h. elim h.1 [ inl q ↦ inl q | inr r ↦ inr ((In-with_prefix p k ks).1 (h.0, r)) ]),
        )
  | inr e ↦
      rw (e, with_prefix)
        (
          (λ h. let (a, b) = (In-with_prefix p k ks).0 h in (a, inr b)),
          (λ h. elim h.1 [
            | inl q ↦ cc (h.0, ap (starts_with p) q)
            | inr r ↦ (In-with_prefix p k ks).1 (h.0, r)
          ]),
        )
]

with_prefix-Distinct : (p : Text) (ks : List Text) → Distinct ks → Distinct (with_prefix p ks)
unfolding with_prefix
with_prefix-Distinct p [] d = tt
with_prefix-Distinct p (k ∷ ks) d = elim (Bool-cases (starts_with p k)) [
  | inl e ↦
      rw (e, with_prefix)
        ((λ m. d.0 ((In-with_prefix p k ks).0 m).1), with_prefix-Distinct p ks d.1)
  | inr e ↦ rw (e, with_prefix) (with_prefix-Distinct p ks d.1)
]

pub In-select_keys :
    (p k : Text) (ks : List Text)
    → In k (select_keys p none false ks) ↔ ((starts_with p k ≡ true) × In k ks)
unfolding select_keys
In-select_keys p k ks =
    let (a, b) = In-sort k (with_prefix p ks) in
    let (c, d) = In-with_prefix p k ks in ((λ h. c (a h)), (λ h. b (d h)))

pub select_keys-Ascending :
    (p : Text) (ks : List Text) → Distinct ks → Ascending (select_keys p none false ks)
unfolding select_keys
select_keys-Ascending p ks d = sort-Ascending (with_prefix p ks) (with_prefix-Distinct p ks d)

pub select_keys-reverse :
    (p : Text) (ks : List Text) → select_keys p none true ks ≡ reverse (select_keys p none false ks)
unfolding select_keys
select_keys-reverse p ks = refl

pub select_keys-limit :
    (p : Text) (n : ℕ) (r : Bool) (ks : List Text)
    → select_keys p (some n) r ks ≡ take n (select_keys p none r ks)
unfolding select_keys
select_keys-limit p n r ks = refl

pair_eq : {V : Type 0} {k x : Text} {v w : V} → k ≡ x → v ≡ w → ◌≡◌ {A = Text × V} (k, v) (x, w)
pair_eq p q = λ i. (p i, q i)

module _ {V : Type 0} (find : Text → Option V) where
  abbrev pub Found : Text → Type 0
  Found k = (v : V) × (find k ≡ some v)

  pub In-with_values :
      (k : Text) (v : V) (ks : List Text)
      → In (k, v) (with_values find ks) ↔ (In k ks × (find k ≡ some v))
  unfolding with_values
  In-with_values k v [] = ((λ h. absurd h), (λ h. h.0))
  In-with_values k v (x ∷ ks) = elim (Option-cases (find x)) [
    | inl e ↦
        rw (e, with_values)
          (
            (λ h. let (a, b) = (In-with_values k v ks).0 h in (inr a, b)),
            (λ h. elim h.0 [
              | inl q ↦ cc (h.1, ap find q)
              | inr r ↦ (In-with_values k v ks).1 (r, h.1)
            ]),
          )
    | inr (w, e) ↦
        rw (e, with_values)
          (
            (λ h. elim h [
              | inl q ↦ (
                inl (ap (λ z. z.0) q),
                ap find (ap (λ z. z.0) q) ∙ e ∙ ap some (sym (ap (λ z. z.1) q)),
              )
              | inr r ↦ let (a, b) = (In-with_values k v ks).0 r in (inr a, b)
            ]),
            (λ h. elim h.0 [
              | inl q ↦ let same : v ≡ w = cc (h.1, ap find q, e) in inl (pair_eq q same)
              | inr r ↦ inr ((In-with_values k v ks).1 (r, h.1))
            ]),
          )
  ]

  pub keys-with_values : (ks : List Text) → All Found ks → keys (with_values find ks) ≡ ks
  unfolding with_values
  keys-with_values [] h = refl
  keys-with_values (k ∷ ks) h = rw (h.0.1, with_values) (ap (◌∷◌ k) (keys-with_values ks h.1))

  with_values-append :
      (ks js : List Text) → with_values find (ks ++ js) ≡ with_values find ks ++ with_values find js
  unfolding with_values
  with_values-append [] js = refl
  with_values-append (k ∷ ks) js = ground (arith, with_values-append ks js)

  pub with_values-reverse :
      (ks : List Text) → with_values find (reverse ks) ≡ reverse (with_values find ks)
  with_values-reverse [] = unfold with_values in refl
  with_values-reverse (k ∷ ks) =
      rw (reverse-cons k ks, with_values-append (reverse ks) (k ∷ []), with_values-reverse ks)
        (unfold with_values in
          elim (Option-cases (find k)) [
            | inl e ↦ rw (e, with_values) (append-nil _)
            | inr (v, e) ↦ rw (e, with_values) (sym (reverse-cons (k, v) (with_values find ks)))
          ])

  pub with_values-take :
      (n : ℕ) (ks : List Text)
      → All Found ks
      → with_values find (take n ks) ≡ take n (with_values find ks)
  unfolding with_values
  with_values-take zero ks h = refl
  with_values-take (suc n) [] h = refl
  with_values-take (suc n) (k ∷ ks) h =
      rw (h.0.1, with_values) (ap (◌∷◌ (k, h.0.0)) (with_values-take n ks h.1))
