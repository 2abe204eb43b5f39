-- ===== src/Client/Outbox.antt =====
-- The outbox of ApClient: its entries, #enqueueOutbox(), #flushOutbox(), outboxSize() and connect().
use qu_v.Prelude.{
  ℕ, Bool, true, false, Text, codes, none, some, List, [], ◌∷◌, ◌++◌, map, reverse, length,
  if◌then◌else◌,
}
use qu_v.Core.Cursor
use qu_v.Core.Storage.{Operations}
use qu_v.As2.Value.{Value, number, text, array, object, field, end, to_items, get_field, as_text}
use qu_v.As2.Vocabulary.{persistent}
use qu_v.Delivery.Entry.{as_number, as_texts, text_or_empty}
use qu_v.Store.{Stored, Change, ApStore}
use qu_v.Store.Methods
use qu_v.Store.Methods.{put, delete, get_children}
use qu_v.Realtime.{data_frame, control_frame, hello, build_data_frame}
use qu_v.Client.{
  Client, frame_error, not_connected, Call, then_on, stored_by, try_send, send, send_subscriptions,
  send_resume,
}

-- OUTBOX_COLLECTION_PREFIX and OUTBOX_ENTRY_PREFIX
abbrev pub outbox_collection : Text → Text
outbox_collection actor_id = codes "urn:qu:client-outbox:" ++ actor_id

abbrev pub outbox_entry_id : Text → Text
outbox_entry_id id = codes "urn:qu:outbox-entry:" ++ id

pub record OutboxEntry : Type 0 where
  pub id : Text
  pub target_id : Text
  pub doc : Value
  pub collections : List Text
  pub ts : ℕ

-- { id: entryId, targetId: id, doc, collections, ts }
unfoldable pub outbox_value : OutboxEntry → Value
unfolding to_items
outbox_value e = object (
    field (codes "id") (text e.id) (
      field (codes "targetId") (text e.target_id) (
        field (codes "doc") e.doc (
          field (codes "collections") (array (to_items (map text e.collections)))
            (field (codes "ts") (number e.ts) end)))))

-- The fields that #flushOutbox() reads of a document, which the client has put itself.
unfoldable pub value_outbox : Value → OutboxEntry
unfolding get_field as_text as_number as_texts text_or_empty
value_outbox v = record {
  id = text_or_empty (as_text (get_field v (codes "id")));
  target_id = text_or_empty (as_text (get_field v (codes "targetId")));
  doc = get_field v (codes "doc");
  collections = as_texts (get_field v (codes "collections"));
  ts = as_number (get_field v (codes "ts"));
}

-- The argument of buildDataFrame() for an entry.
unfoldable pub entry_change : OutboxEntry → Change
entry_change e = record {
  id = e.target_id;
  doc = some e.doc;
  tier = persistent;
  collections = e.collections;
  session_id = none;
  ts = some e.ts;
}

module _ {S : Type 0} (o : Operations S Stored) (actor_id : Text) where
  -- outboxSize()
  unfoldable pub outbox_size : Client S → ℕ
  outbox_size c = length (get_children o c.store (outbox_collection actor_id) none)

  -- #enqueueOutbox({ id, doc, collections, ts }), where `now` is the time
  unfoldable pub enqueue_outbox : ℕ → Client S → Text → Value → List Text → ℕ → Call S
  unfolding stored_by outbox_value
  enqueue_outbox now c id doc collections ts = stored_by c (
      put o c.store
        (outbox_value (record {
          id = outbox_entry_id id;
          target_id = id;
          doc = doc;
          collections = collections;
          ts = ts;
        }))
        (record {
          collections = outbox_collection actor_id ∷ [];
          durability = codes "persistent";
          session_id = none;
          ts = ts;
        })
        now)

  module _ (accepts : ℕ → Bool) where
    -- The loop's body behind store.delete(): an exception breaks off the loop.
    unfoldable pub after_delete :
        Client S → ApStore S × Methods.Result (Unit {0}) → (Client S → Call S) → Call S
    after_delete c (s, Methods.thrown x) next = (record c { store = s }, none)
    after_delete c (s, Methods.returned x) next = next (record c { store = s })

    -- The loop's body behind transport.send(): an exception breaks off the loop.
    unfoldable pub after_send : Client S × Bool → Text → (Client S → Call S) → Call S
    unfolding after_delete
    after_send (c, false) id next = (c, none)
    after_send (c, true) id next = after_delete c (delete o c.store id) next

    -- #flushOutbox()'s loop, over the entries oldest first
    unfoldable pub flush_entries : Client S → List OutboxEntry → Call S
    unfolding entry_change try_send after_send
    flush_entries c [] = (c, none)
    flush_entries c (e ∷ es) = elim (build_data_frame (entry_change e)) [
      | Cursor.err x ↦ (c, some (frame_error x))
      | Cursor.ok f ↦ after_send (try_send accepts c (data_frame f)) e.id (λ d. flush_entries d es)
    ]

    -- #flushOutbox()
    unfoldable pub flush_outbox : Client S → Call S
    unfolding flush_entries value_outbox
    flush_outbox c =
        flush_entries c
          (map value_outbox (reverse (get_children o c.store (outbox_collection actor_id) none)))

    -- connect(), where `opened` is whether transport.connect() resolves
    unfoldable pub connect : Bool → Client S → Call S
    unfolding send send_subscriptions send_resume flush_outbox
    connect opened c =
        if opened
        then then_on (send accepts (record c { connected = true }) (control_frame (hello actor_id)))
            (λ d.
              then_on (send_subscriptions accepts d d.subscriptions)
                (λ e. then_on (send_resume o accepts e) (λ f. flush_outbox f)))
        else (c, some not_connected)
