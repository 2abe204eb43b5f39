-- ===== src/Examples/Follows.antt =====
-- A Follow of the relay's actor, answered and queued.
use qu_v.Prelude.{
  ◌≡◌, refl, true, false, codes, some, [], text_eq, text_dec, Bool-cases, arith, starts_with,
}
use qu_v.Core.JsMap.Laws.{IsMap}
use qu_v.Core.Memory.{memory_adapter}
use qu_v.Core.Memory.Laws.{memory_adapter-Laws}
use qu_v.As2.Value.{Value, text, object, field, end, get_field, lookup_field, as_text, is_object}
use qu_v.As2.Audience.{id_of}
use qu_v.Store.{Stored, doc_id}
use qu_v.Store.View.{Represents, update}
use qu_v.Store.Methods.{create}
use qu_v.Store.Fresh.{empty_view, empty-Represents}
use qu_v.Delivery.Queue.{Settings}
use qu_v.Ingest.{
  Request, accepted, ingest_activity, key_id_of, extract_key_id, find_key_id, until_quote,
  has_embedded_object, actor_id_of, is_actor,
}
use qu_v.Ingest.Trust.{IsAuthentic}
use qu_v.Ingest.Effects.{activity_record}
use qu_v.Relay.Accepts.{Acceptor, follows, follower_of, accept_of, queued, on_persisted}
use qu_v.Relay.Accepts.Follows.{queue_entry, answered, follow-answered}
use qu_v.Examples.Inbox.{resolver, verifier, request, bob}

abbrev dora : Acceptor
dora = record { id = codes "d"; outbox = codes "d/out" }

abbrev queue : Settings
queue = record { collection_id = codes "queue"; max_attempts = 8 }

abbrev bobs_follow : Value
bobs_follow = object (
    field (codes "id") (text (codes "f")) (
      field (codes "type") (text (codes "Follow"))
        (field (codes "actor") (text bob) (field (codes "object") (text (codes "d")) end))))

abbrev followed : Request
followed = record request { activity = bobs_follow }

followed-IsAuthentic : IsAuthentic (memory_adapter Stored) resolver verifier followed
unfolding key_id_of extract_key_id find_key_id until_quote get_field lookup_field as_text is_object
    actor_id_of is_actor id_of text_eq text_dec Bool-cases starts_with
followed-IsAuthentic = record {
  key_id = codes "b#k";
  actor = object (field (codes "id") (text bob) end);
  key = 1;
  actor_id = bob;
  body = refl;
  names = refl;
  resolved = refl;
  verified = refl;
  asserts = refl;
  own = refl;
}

follow-id : doc_id bobs_follow ≡ some (codes "f")
unfolding doc_id get_field lookup_field as_text text_dec Bool-cases text_eq
follow-id = refl

follow-plain : has_embedded_object bobs_follow ≡ false
unfolding has_embedded_object get_field lookup_field as_text is_object text_dec Bool-cases text_eq
follow-plain = refl

follow-follows : follows bobs_follow (codes "d") ≡ true
unfolding follows id_of get_field lookup_field as_text text_dec Bool-cases text_eq
follow-follows = refl

follow-follower : follower_of bobs_follow ≡ some bob
unfolding follower_of id_of get_field lookup_field as_text text_dec Bool-cases text_eq
follow-follower = refl

follow-answered_example :
    ((ingest_activity (memory_adapter Stored) resolver verifier (create []) followed 9).outcome
      ≡ accepted bobs_follow)
    × ((on_persisted
          (memory_adapter Stored)
          queue
          dora
          (ingest_activity (memory_adapter Stored) resolver verifier (create []) followed 9).store
          bobs_follow
          (codes "x")
          10
          11).1
        ≡ queued (
            queue_entry
              (memory_adapter Stored)
              IsMap
              (memory_adapter-Laws Stored)
              queue
              dora
              (accept_of dora bobs_follow bob (codes "x"))
              bob
              11))
    × Represents
        (memory_adapter Stored)
        IsMap
        (on_persisted
          (memory_adapter Stored)
          queue
          dora
          (ingest_activity (memory_adapter Stored) resolver verifier (create []) followed 9).store
          bobs_follow
          (codes "x")
          10
          11).0.adapter
        (answered
          (memory_adapter Stored)
          IsMap
          (memory_adapter-Laws Stored)
          queue
          dora
          (update empty_view (codes "f") (some (activity_record followed 9)))
          bobs_follow
          bob
          (codes "x")
          10
          11)
unfolding create
follow-answered_example =
    follow-answered (memory_adapter Stored) IsMap (memory_adapter-Laws Stored) queue dora resolver
      verifier (create []) empty_view followed 9 10 11 (codes "f") bob (codes "x")
      followed-IsAuthentic empty-Represents follow-id follow-plain follow-follows follow-follower
      (ground arith, ground arith, ground arith) (omega arith, omega arith, omega arith)
