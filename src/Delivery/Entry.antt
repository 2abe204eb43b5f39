-- ===== src/Delivery/Entry.antt =====
-- A queue entry, and the document that holds it in ApStore.
pub mod RoundTrip
use qu_v.Prelude.{
  ℕ, Text, codes, Option, none, some, List, [], ◌∷◌, ◌++◌, map, length, ◌==◌, if◌then◌else◌,
}
use qu_v.As2.Value.{
  Value, undefined, null, number, text, array, object, field, end, items, to_items, get_field,
  as_text,
}

pub record Entry : Type 0 where
  pub id : Text
  pub activity : Value
  pub recipients : List Text
  pub attempts : ℕ
  pub next_attempt_at : ℕ
  pub last_error : Option Text

unfoldable pub error_value : Option Text → Value
error_value none = null
error_value (some t) = text t

unfoldable pub entry_value : Entry → Value
unfolding error_value to_items
entry_value e = object (
    field (codes "id") (text e.id) (
      field (codes "activity") e.activity (
        field (codes "recipients") (array (to_items (map text e.recipients))) (
          field (codes "attempts") (number e.attempts) (
            field (codes "nextAttemptAt") (number e.next_attempt_at)
              (field (codes "lastError") (error_value e.last_error) end))))))

unfoldable pub as_number : Value → ℕ
as_number (number n) = n
as_number _ = 0

unfoldable pub texts : List Value → List Text
texts [] = []
texts (text t ∷ vs) = t ∷ texts vs
texts (v ∷ vs) = texts vs

unfoldable pub as_texts : Value → List Text
unfolding texts items
as_texts (array xs) = texts (items xs)
as_texts _ = []

unfoldable pub text_or_empty : Option Text → Text
text_or_empty none = []
text_or_empty (some t) = t

-- The fields that processDue() reads of a pending document, which the queue has put itself.
unfoldable pub value_entry : Value → Entry
unfolding get_field as_text as_number as_texts text_or_empty
value_entry v = record {
  id = text_or_empty (as_text (get_field v (codes "id")));
  activity = get_field v (codes "activity");
  recipients = as_texts (get_field v (codes "recipients"));
  attempts = as_number (get_field v (codes "attempts"));
  next_attempt_at = as_number (get_field v (codes "nextAttemptAt"));
  last_error = as_text (get_field v (codes "lastError"));
}
