-- ===== src/As2/Canonical/Order.antt =====
-- The canonical text of a document does not depend on the order of its objects' members.
use mathlib.Core.Option
use qu_v.Prelude.{
  ◌≡◌, refl, sym, ◌∙◌, ap, ◌↔◌, inl, inr, true, Text, Option, none, some, List, [], ◌∷◌, In, ite,
  if_neg, text_dec, Bool-cases,
}
use qu_v.Prelude.Sorting.{sort, In-sort, sort-Ascending, Ascending-ext, Ascending, Distinct}
use qu_v.Core.JsMap.{Entries, find}
use qu_v.As2.Value.{Value, array, object, Items, nil, cons, Fields, end, field, lookup_field}
use qu_v.As2.Canonical.{
  field_names, is_defined, defined_keys, value_text, member_texts, canonicalize, canonical_items,
  canonical_fields,
}

-- The keys of an object differ from each other.
abbrev pub IsRecord : Fields → Type 0
IsRecord fs = Distinct (field_names fs)

-- Two values are the same document: equal values, arrays whose items are the same one by one, or
-- objects with distinct keys in which every key has the same value, an absent member being undefined.
mutual
  pub data Same : Value → Value → Type 0 where
    same : (v : Value) → Same v v
    same_array : (xs ys : Items) → SameItems xs ys → Same (array xs) (array ys)
    same_object :
        (fs gs : Fields)
        → IsRecord fs
        → IsRecord gs
        → ((k : Text) → Same (lookup_field k fs) (lookup_field k gs))
        → Same (object fs) (object gs)

  pub data SameItems : Items → Items → Type 0 where
    same_nil : SameItems nil nil
    same_cons :
        (v w : Value) (vs ws : Items)
        → Same v w
        → SameItems vs ws
        → SameItems (cons v vs) (cons w ws)

Same-is_defined : (v w : Value) → Same v w → is_defined v ≡ is_defined w
unfolding is_defined
Same-is_defined v w (same u) = refl
Same-is_defined v w (same_array xs ys h) = refl
Same-is_defined v w (same_object fs gs d e h) = refl

In-defined_keys :
    (fs : Fields) (k : Text) (ks : List Text)
    → In k (defined_keys fs ks) ↔ (In k ks × (is_defined (lookup_field k fs) ≡ true))
unfolding defined_keys
In-defined_keys fs k [] = (λ h. absurd h, λ h. absurd h.0)
In-defined_keys fs k (j ∷ ks) = elim (Bool-cases (is_defined (lookup_field j fs))) [
  | inl e ↦
      rw (e, defined_keys)
        (
          (λ m. elim m [
            | inl p ↦ (inl p, ap (λ z. is_defined (lookup_field z fs)) p ∙ e)
            | inr i ↦ let (a, b) = (In-defined_keys fs k ks).0 i in (inr a, b)
          ]),
          (λ m. elim m.0 [ inl p ↦ inl p | inr i ↦ inr ((In-defined_keys fs k ks).1 (i, m.1)) ]),
        )
  | inr e ↦
      rw (e, defined_keys)
        (
          (λ i. let (a, b) = (In-defined_keys fs k ks).0 i in (inr a, b)),
          (λ m. elim m.0 [
            | inl p ↦ cc (ap (λ z. is_defined (lookup_field z fs)) p, e, m.1)
            | inr i ↦ (In-defined_keys fs k ks).1 (i, m.1)
          ]),
        )
]

defined_keys-Distinct : (fs : Fields) (ks : List Text) → Distinct ks → Distinct (defined_keys fs ks)
unfolding defined_keys
defined_keys-Distinct fs [] d = tt
defined_keys-Distinct fs (k ∷ ks) d = elim (Bool-cases (is_defined (lookup_field k fs))) [
  | inl e ↦
      rw (e, defined_keys)
        ((λ m. d.0 ((In-defined_keys fs k ks).0 m).0), defined_keys-Distinct fs ks d.1)
  | inr e ↦ rw (e, defined_keys) (defined_keys-Distinct fs ks d.1)
]

-- A key with a value is among the names.
In-field_names :
    (fs : Fields) (k : Text) → is_defined (lookup_field k fs) ≡ true → In k (field_names fs)
unfolding field_names lookup_field is_defined
In-field_names end k e = cc
In-field_names (field j v fs) k e = elim (text_dec k j) [
  | yes p ↦ inl p
  | no n ↦ inr (In-field_names fs k (rw (if_neg (text_dec k j) n) at e))
]

pub value_text-cons :
    (j k : Text) (t : Option Text) (m : Entries (Option Text))
    → value_text ((j, t) ∷ m) k ≡ ite (text_dec k j) t (value_text m k)
unfolding value_text find
value_text-cons j k t m =
    elim (text_dec k j)
      as (λ d.
        elim (ite d (some t) (find m k)) [ none ↦ none | some x ↦ x ] ≡ ite d t (value_text m k)) [
          | yes p ↦ refl
          | no n ↦ refl
        ]

-- The text of a key's value is the canonical text of the value.
value_text-canonical_fields :
    (fs : Fields) (k : Text) → value_text (canonical_fields fs) k ≡ canonicalize (lookup_field k fs)
unfolding value_text canonical_fields find lookup_field
value_text-canonical_fields end k = refl
value_text-canonical_fields (field j v fs) k =
    value_text-cons j k (canonicalize v) (canonical_fields fs)
    ∙ (elim (text_dec k j)
        as (λ d.
          ite d (canonicalize v) (value_text (canonical_fields fs) k)
          ≡ canonicalize (ite d v (lookup_field k fs))) [
            | yes p ↦ refl
            | no n ↦ value_text-canonical_fields fs k
          ])

member_texts-ext :
    (a b : Entries (Option Text)) (ks : List Text)
    → ((k : Text) → value_text a k ≡ value_text b k)
    → member_texts a ks ≡ member_texts b ks
unfolding member_texts
member_texts-ext a b [] h = refl
member_texts-ext a b (k ∷ ks) h = rw (member_texts, h k, member_texts-ext a b ks h) refl

sorted_keys-Ascending :
    (fs : Fields) → IsRecord fs → Ascending (sort (defined_keys fs (field_names fs)))
sorted_keys-Ascending fs d =
    sort-Ascending (defined_keys fs (field_names fs)) (defined_keys-Distinct fs (field_names fs) d)

pub In-sorted_keys :
    (fs : Fields) (k : Text)
    → In k (sort (defined_keys fs (field_names fs))) ↔ (is_defined (lookup_field k fs) ≡ true)
In-sorted_keys fs k = (
  (λ m. ((In-defined_keys fs k (field_names fs)).0 ((In-sort k _).0 m)).1),
  (λ e. (In-sort k _).1 ((In-defined_keys fs k (field_names fs)).1 (In-field_names fs k e, e))),
)

sorted_keys-ext :
    (fs gs : Fields)
    → IsRecord fs
    → IsRecord gs
    → ((k : Text) → is_defined (lookup_field k fs) ≡ is_defined (lookup_field k gs))
    → sort (defined_keys fs (field_names fs)) ≡ sort (defined_keys gs (field_names gs))
sorted_keys-ext fs gs d e h =
    Ascending-ext _ _ (sorted_keys-Ascending fs d) (sorted_keys-Ascending gs e) (λ k. (
      (λ m. (In-sorted_keys gs k).1 (sym (h k) ∙ (In-sorted_keys fs k).0 m)),
      (λ m. (In-sorted_keys fs k).1 (h k ∙ (In-sorted_keys gs k).0 m)),
    ))

mutual
  unfolding canonicalize canonical_items

  canonical_text-Same : (v w : Value) → Same v w → canonicalize v ≡ canonicalize w
  canonical_text-Same v w (same u) = refl
  canonical_text-Same v w (same_array xs ys h) = ap (Option.map _) (item_texts-Same xs ys h)
  canonical_text-Same v w (same_object fs gs d e h) =
      rw
        (
          canonicalize,
          sorted_keys-ext fs gs d e (λ k. Same-is_defined _ _ (h k)),
          member_texts-ext (canonical_fields fs) (canonical_fields gs)
              (sort (defined_keys gs (field_names gs)))
              (λ k.
                value_text-canonical_fields fs k
                ∙ canonical_text-Same _ _ (h k)
                ∙ sym (value_text-canonical_fields gs k)),
        )
        refl

  item_texts-Same : (xs ys : Items) → SameItems xs ys → canonical_items xs ≡ canonical_items ys
  item_texts-Same xs ys same_nil = refl
  item_texts-Same xs ys (same_cons v w vs ws h t) =
      rw
        (canonical_items, Same-is_defined v w h, canonical_text-Same v w h, item_texts-Same vs ws t)
        refl

-- canonicalize() gives the same text, or fails alike, for any two values that are the same document:
-- equal values, arrays with the same items in order, or objects with distinct keys in which every
-- key has the same value, in whatever order the members stand and with undefined ones or without.
pub canonicalize-Same : (v w : Value) → Same v w → canonicalize v ≡ canonicalize w
canonicalize-Same = canonical_text-Same
