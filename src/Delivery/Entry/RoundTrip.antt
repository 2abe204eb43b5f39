-- ===== src/Delivery/Entry/RoundTrip.antt =====
-- Reading back the document of a queue entry.
use qu_v.Prelude.{
  ◌≡◌, refl, ap, ap₂, Text, Option, none, some, List, [], ◌∷◌, map, text_dec, Bool-cases, text_eq,
}
use qu_v.As2.Value.{text, items, to_items, get_field, lookup_field, as_text}
use qu_v.Delivery.Entry.{
  Entry, entry_value, value_entry, texts, as_texts, as_number, error_value, text_or_empty,
}

texts-items : (ts : List Text) → texts (items (to_items (map text ts))) ≡ ts
unfolding texts items to_items
texts-items [] = refl
texts-items (t ∷ ts) = ap (λ x. t ∷ x) (texts-items ts)

as_text-error_value : (e : Option Text) → as_text (error_value e) ≡ e
unfolding as_text error_value
as_text-error_value none = refl
as_text-error_value (some t) = refl

-- Reading the document of an entry gives the entry back.
value_entry-entry_value : (e : Entry) → value_entry (entry_value e) ≡ e
unfolding value_entry entry_value get_field lookup_field as_text as_number as_texts text_or_empty
    text_dec Bool-cases text_eq
value_entry-entry_value e =
    ap₂ (λ rs err. record e { recipients = rs; last_error = err }) (texts-items e.recipients)
      (as_text-error_value e.last_error)
