-- ===== src/Examples/Storage.antt =====
-- The adapters with two keys in them, and a post with blind recipients.
use qu_v.Prelude.{ℕ, codes, [], ◌∷◌, arith, inl, inr}
use qu_v.Core.Volatile.{Volatile}
use qu_v.Core.Volatile.Expiry.{IsValid}
use qu_v.As2.Value.{Value, text, array, object, field, end, cons, nil}
use qu_v.As2.Vocabulary.{public_audience}

abbrev volatile_adapter : Volatile ℕ
volatile_adapter = record {
  entries =
      (codes "session/a/x", record { value = 1; expires_at = 900 })
      ∷ (codes "session/b/x", record { value = 2; expires_at = 200 })
      ∷ [];
  default_ttl_ms = 100;
}

volatile_adapter-IsValid : IsValid volatile_adapter
volatile_adapter-IsValid = ((λ h. elim h [ inl e ↦ ground (arith, e) | inr z ↦ z ]), ((λ h. h), tt))

abbrev post : Value
post = object (
    field (codes "to") (text public_audience)
      (field (codes "bto") (array (cons (text (codes "https://b.example/bob")) nil)) end))
