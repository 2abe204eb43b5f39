-- ===== src/As2/Value.antt =====
-- JavaScript values as the program passes them: JSON documents, and `undefined` for what is absent.
use qu_v.Prelude.{
  ℕ, Bool, true, false, Text, Option, none, some, List, [], ◌∷◌, ite, text_dec, length, ◌==◌, not,
}

mutual
  pub data Value : Type 0 where
    undefined null : Value
    boolean : Bool → Value
    number : ℕ → Value
    text : Text → Value
    array : Items → Value
    object : Fields → Value

  pub data Items : Type 0 where
    nil : Items
    cons : Value → Items → Items

  pub data Fields : Type 0 where
    end : Fields
    field : Text → Value → Fields → Fields

unfoldable pub items : Items → List Value
items nil = []
items (cons v vs) = v ∷ items vs

unfoldable pub to_items : List Value → Items
to_items [] = nil
to_items (v ∷ vs) = cons v (to_items vs)

unfoldable pub lookup_field : Text → Fields → Value
lookup_field k end = undefined
lookup_field k (field j v fs) = ite (text_dec k j) v (lookup_field k fs)

-- v.k, or v?.k: a value that is no object has no fields of the documents' vocabulary.
unfoldable pub get_field : Value → Text → Value
unfolding lookup_field
get_field (object fs) k = lookup_field k fs
get_field _ k = undefined

-- typeof value === 'string'
unfoldable pub as_text : Value → Option Text
as_text (text t) = some t
as_text _ = none

-- Boolean(value)
unfoldable pub truthy : Value → Bool
truthy undefined = false
truthy null = false
truthy (boolean b) = b
truthy (number n) = not (n == 0)
truthy (text t) = not (length t == 0)
truthy (array xs) = true
truthy (object fs) = true

-- value && typeof value === 'object'
unfoldable pub is_object : Value → Bool
is_object (object fs) = true
is_object (array xs) = true
is_object _ = false
