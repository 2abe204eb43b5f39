-- ===== src/As2/Canonical/Total.antt =====
-- Only undefined itself has no canonical text.
use mathlib.Core.Option
use qu_v.Prelude.{
  ◌≡◌, refl, ◌∙◌, ap, ◌↔◌, true, false, Text, codes, Option, none, some, List, [], ◌∷◌, ◌++◌, All,
  All-of_In, ite, text_dec, Bool-cases, inl, inr,
}
use qu_v.Prelude.Sorting.{sort}
use qu_v.Core.JsMap.{Entries}
use qu_v.As2.Value.{
  Value, undefined, null, boolean, number, text, array, object, Items, nil, cons, Fields, end,
  field, lookup_field,
}
use qu_v.As2.Canonical.{
  field_names, is_defined, defined_keys, value_text, member_texts, canonicalize, canonical_items,
  canonical_fields, json_string,
}
use qu_v.As2.Canonical.Order.{In-sorted_keys, value_text-cons}

abbrev IsSome : {A : Type 0} → Option A → Type 0
IsSome {A} o = (a : A) × (o ≡ some a)

member_texts-IsSome :
    (m : Entries (Option Text)) (ks : List Text)
    → All (λ k. IsSome (value_text m k)) ks
    → IsSome (member_texts m ks)
unfolding member_texts
member_texts-IsSome m [] h = ([], refl)
member_texts-IsSome m (k ∷ ks) h =
    let (t, e) = h.0 in
    let (ts, p) = member_texts-IsSome m ks h.1 in
    ((json_string k ++ codes ":" ++ t) ∷ ts, rw (member_texts, e, p) refl)

mutual
  unfolding canonicalize is_defined lookup_field

  canonicalize-IsSome : (v : Value) → is_defined v ≡ true → IsSome (canonicalize v)
  canonicalize-IsSome undefined e = cc
  canonicalize-IsSome null e = (_, refl)
  canonicalize-IsSome (boolean b) e = (_, refl)
  canonicalize-IsSome (number n) e = (_, refl)
  canonicalize-IsSome (text t) e = (_, refl)
  canonicalize-IsSome (array xs) e =
      let (ts, p) = canonical_items-IsSome xs in (_, ap (Option.map _) p)
  canonicalize-IsSome (object fs) e =
      let (ts, p) =
        member_texts-IsSome (canonical_fields fs) (sort (defined_keys fs (field_names fs)))
          (All-of_In _ _ (λ k m. value_text-IsSome fs k ((In-sorted_keys fs k).0 m))) in
      (_, ap (Option.map _) p)

  canonical_items-IsSome : (xs : Items) → IsSome (canonical_items xs)
  canonical_items-IsSome nil = ([], refl)
  canonical_items-IsSome (cons v vs) =
      let (ts, p) = canonical_items-IsSome vs in
      elim (Bool-cases (is_defined v)) [
        | inl d ↦
            let (t, e) = canonicalize-IsSome v d in (t ∷ ts, rw (canonical_items, d, e, p) refl)
        | inr d ↦ (codes "null" ∷ ts, rw (canonical_items, d, p) refl)
      ]

  value_text-IsSome :
      (fs : Fields) (k : Text)
      → is_defined (lookup_field k fs) ≡ true
      → IsSome (value_text (canonical_fields fs) k)
  value_text-IsSome end k e = cc
  value_text-IsSome (field j v fs) k e =
      let (t, p) =
        elim (text_dec k j)
            as (λ d.
              is_defined (ite d v (lookup_field k fs)) ≡ true
              → IsSome (ite d (canonicalize v) (value_text (canonical_fields fs) k))) [
                | yes p ↦ canonicalize-IsSome v
                | no n ↦ value_text-IsSome fs k
              ]
          e in
      (t, value_text-cons j k (canonicalize v) (canonical_fields fs) ∙ p)

is_undefined : (v : Value) → is_defined v ≡ false → v ≡ undefined
unfolding is_defined
is_undefined undefined e = refl
is_undefined null e = cc
is_undefined (boolean b) e = cc
is_undefined (number n) e = cc
is_undefined (text t) e = cc
is_undefined (array xs) e = cc
is_undefined (object fs) e = cc

-- canonicalize() throws for undefined, and gives a text for every other value that JSON knows, with
-- undefined members and items in it or without.
pub canonicalize-undefined : (v : Value) → (canonicalize v ≡ none) ↔ (v ≡ undefined)
unfolding canonicalize is_defined
canonicalize-undefined v = (
  (λ e. elim (Bool-cases (is_defined v)) [
    | inl d ↦ let (t, p) = canonicalize-IsSome v d in cc (p, e)
    | inr d ↦ is_undefined v d
  ]),
  (λ e. rw e refl),
)
