-- ===== src/Examples/Inbox.antt =====
-- A signed Create that reaches an inbox, and one whose actor is not its signer.
use qu_v.Prelude.{
  ℕ, ◌≡◌, ◌⊎◌, refl, Bool, true, Text, codes, some, [], ◌∷◌, ◌++◌, text_eq, text_dec, Bool-cases,
  arith, starts_with,
}
use qu_v.Core.JsMap.Laws.{IsMap}
use qu_v.Core.Memory.{memory_adapter}
use qu_v.Core.Memory.Laws.{memory_adapter-Laws}
use qu_v.As2.Value.{Value, text, object, field, end, get_field, lookup_field, as_text, is_object}
use qu_v.As2.Audience.{id_of}
use qu_v.Store.{Stored, doc_id}
use qu_v.Store.View.{Represents, update}
use qu_v.Store.Methods.{create}
use qu_v.Store.Fresh.{empty_view, empty-Represents}
use qu_v.Ingest.{
  Request, Resolved, actor_key, accepted, ingest_activity, persist, key_id_of, extract_key_id,
  find_key_id, until_quote, has_embedded_object, actor_id_of, is_actor,
}
use qu_v.Ingest.Trust.{IsAuthentic, Refuses, ingest_activity-IsAuthentic}
use qu_v.Ingest.Effects.{activity_record, object_record, ingest_activity-Create}

abbrev pub bob : Text
bob = codes "b"

abbrev pub bobs_note : Value
bobs_note = object (field (codes "id") (text (codes "n")) end)

abbrev pub bobs_create : Value
bobs_create = object (
    field (codes "id") (text (codes "c")) (
      field (codes "type") (text (codes "Create"))
        (field (codes "actor") (text bob) (field (codes "object") bobs_note end))))

abbrev pub request : Request
request = record {
  activity = bobs_create;
  raw_body = [];
  method = codes "POST";
  url = codes "/in";
  headers =
      object
        (field (codes "signature") (text (codes "keyId=" ++ (34 ∷ codes "b#k" ++ 34 ∷ []))) end);
  target_collection = codes "in";
}

-- The resolver knows one actor, and the key is a number that every signature matches.
abbrev pub resolver : Text → Resolved ℕ
resolver k = actor_key (object (field (codes "id") (text bob) end)) 1

abbrev pub verifier : Request → ℕ → Bool
verifier r k = true

request-IsAuthentic : IsAuthentic (memory_adapter Stored) resolver verifier request
unfolding key_id_of extract_key_id find_key_id until_quote get_field lookup_field as_text is_object
    actor_id_of is_actor id_of text_eq text_dec Bool-cases starts_with
request-IsAuthentic = record {
  key_id = codes "b#k";
  actor = object (field (codes "id") (text bob) end);
  key = 1;
  actor_id = bob;
  body = refl;
  names = refl;
  resolved = refl;
  verified = refl;
  asserts = refl;
  own = refl;
}

ingest_activity-IsAuthentic_example :
    (IsAuthentic (memory_adapter Stored) resolver verifier request
      × (ingest_activity (memory_adapter Stored) resolver verifier (create []) request 9
          ≡ persist (memory_adapter Stored) resolver verifier (create []) request 9))
    ⊎ Refuses
        (memory_adapter Stored)
        resolver
        verifier
        (create [])
        (ingest_activity (memory_adapter Stored) resolver verifier (create []) request 9)
ingest_activity-IsAuthentic_example =
    ingest_activity-IsAuthentic (memory_adapter Stored) resolver verifier (create []) request 9

create-id : doc_id bobs_create ≡ some (codes "c")
unfolding doc_id get_field lookup_field as_text text_dec Bool-cases text_eq
create-id = refl

note-id : doc_id (get_field bobs_create (codes "object")) ≡ some (codes "n")
unfolding doc_id get_field lookup_field as_text text_dec Bool-cases text_eq
note-id = refl

create-embeds : has_embedded_object bobs_create ≡ true
unfolding has_embedded_object get_field lookup_field as_text is_object text_dec Bool-cases text_eq
create-embeds = refl

ingest_activity-Create_example :
    ((ingest_activity (memory_adapter Stored) resolver verifier (create []) request 9).outcome
      ≡ accepted bobs_create)
    × Represents
        (memory_adapter Stored)
        IsMap
        (ingest_activity
          (memory_adapter Stored)
          resolver
          verifier
          (create [])
          request
          9).store.adapter
        (update
          (update empty_view (codes "c") (some (activity_record request 9)))
          (codes "n")
          (some (object_record request 9)))
unfolding create
ingest_activity-Create_example =
    ingest_activity-Create (memory_adapter Stored) IsMap (memory_adapter-Laws Stored) resolver
      verifier (create []) empty_view request 9 (codes "c") (codes "n") request-IsAuthentic
      empty-Represents create-id create-embeds note-id (ground arith) (omega arith)
