-- ===== src/Examples/Documents.antt =====
-- A document whose members stand in two orders.
use qu_v.Prelude.{
  none, ◌↔◌, ◌≡◌, refl, sym, codes, text_dec, Text, some, [], ◌∷◌, arith, if_neg, subst, Bool-cases,
  text_ltb, ◌++◌,
}
use qu_v.Prelude.Sorting.{sort}
use qu_v.Core.Cursor.Decimal.{digits}
use qu_v.As2.Value.{
  Value, undefined, text, number, array, object, cons, nil, Fields, field, end, lookup_field,
}
use qu_v.As2.Canonical.{canonicalize, json_string, field_names}
use qu_v.As2.Canonical.Total.{canonicalize-undefined}
use qu_v.As2.Canonical.Order.{Same, same, same_object, canonicalize-Same}

abbrev items : Value
items = array (cons undefined (cons (number 12) nil))

abbrev type_first : Fields
type_first =
    field (codes "type") (text (codes "Note"))
      (field (codes "draft") undefined (field (codes "id") items end))

abbrev id_first : Fields
id_first = field (codes "id") items (field (codes "type") (text (codes "Note")) end)

canonicalize_test :
    canonicalize (object type_first) ≡ some (codes "{\"id\":[null,12],\"type\":\"Note\"}")
unfolding canonicalize json_string sort text_dec Bool-cases text_ltb digits
canonicalize_test = refl

json_string_test :
    json_string (b'"' ∷ 10 ∷ 31 ∷ 55357 ∷ 56832 ∷ 55357 ∷ [])
    ≡ codes "\"\\\"\\n\\u001f" ++ 55357 ∷ 56832 ∷ codes "\\ud83d\""
unfolding json_string
json_string_test = refl

members-Same : (k : Text) → Same (lookup_field k type_first) (lookup_field k id_first)
unfolding lookup_field text_dec Bool-cases
members-Same k = elim (text_dec k (codes "type")) [
  | yes p ↦ at (codes "type") p (same _)
  | no n ↦ elim (text_dec k (codes "draft")) [
    | yes p ↦ at (codes "draft") p (same _)
    | no m ↦ elim (text_dec k (codes "id")) [
      | yes p ↦ at (codes "id") p (same _)
      | no l ↦
          let a : lookup_field k type_first ≡ undefined =
            rw
              (
                lookup_field,
                if_neg (text_dec k (codes "type")) n,
                if_neg (text_dec k (codes "draft")) m,
                if_neg (text_dec k (codes "id")) l,
              )
              refl in
          let b : lookup_field k id_first ≡ undefined =
            rw
              (
                lookup_field,
                if_neg (text_dec k (codes "id")) l,
                if_neg (text_dec k (codes "type")) n,
              )
              refl in
          rw (a, b) (same undefined)
    ]
  ]
]
  where
    at :
        (j : Text)
        → k ≡ j
        → Same (lookup_field j type_first) (lookup_field j id_first)
        → Same (lookup_field k type_first) (lookup_field k id_first)
    at j p h = subst (λ z. Same (lookup_field z type_first) (lookup_field z id_first)) (sym p) h

type_first-Same : Same (object type_first) (object id_first)
unfolding field_names
type_first-Same = same_object type_first id_first (ground arith) (ground arith) members-Same

canonicalize-Same_example : canonicalize (object type_first) ≡ canonicalize (object id_first)
canonicalize-Same_example = canonicalize-Same (object type_first) (object id_first) type_first-Same

canonicalize-undefined_example :
    (canonicalize (object type_first) ≡ none) ↔ (object type_first ≡ undefined)
canonicalize-undefined_example = canonicalize-undefined (object type_first)
