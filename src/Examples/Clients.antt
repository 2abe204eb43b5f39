-- ===== src/Examples/Clients.antt =====
-- A client with one document in its outbox.
use qu_v.Prelude.{
  ℕ, ◌<◌, ◌≡◌, ◌≢◌, refl, sym, ap, ◌∙◌, subst, inl, inr, Bool, true, false, Text, codes, Option,
  none, some, List, [], ◌∷◌, ◌++◌, In, All, map, arith, text_eq, text_dec, Bool-cases,
}
use qu_v.Core.Cursor
use qu_v.Core.JsMap.{Entries}
use qu_v.Core.JsMap.Laws.{IsMap}
use qu_v.Core.Memory.{memory_adapter}
use qu_v.Core.Memory.Laws.{memory_adapter-Laws}
use qu_v.As2.Value.{Value, text, object, Fields, field, end, get_field, lookup_field, as_text}
use qu_v.As2.Vocabulary.{public_audience}
use qu_v.Encryption.{private_unencrypted}
use qu_v.Store.{Stored, Record, ApStore, doc_id, write_record, missing_id}
use qu_v.Store.Keys.{IsClean}
use qu_v.Store.View.{View, Represents, update}
use qu_v.Store.Fresh.{empty_view, empty-Represents}
use qu_v.Store.Methods.{create, get, get_children}
use qu_v.Store.Refines.{write_record-Represents}
use qu_v.Store.Calls.{delete_change}
use qu_v.Realtime.{
  DataFrame, data_frame, control_frame, hello, resume, subscribe, build_data_frame,
  frame_without_cursor,
}
use qu_v.Client.{
  Client, store_error, guard_error, cursor_id, get_cursor, since_entries, handle_frame,
}
use qu_v.Client.Outbox.{
  OutboxEntry, outbox_collection, outbox_entry_id, outbox_value, flush_outbox, connect,
}
use qu_v.Client.Flushes.{IsSendable, entry_frame, without, Flushed, flush_outbox-Flushed}
use qu_v.Client.Flushes
use qu_v.Client.Connects.{connect-sent}
use qu_v.Client.Handles.{handle_frame-deletion}
use qu_v.Client.Publish.{
  Publication, single, unset, doc_id_of, visibility_list, with_to, checked_draft, drafted, publish,
}
use qu_v.Client.Publishes.{publish-opaque, publish-offline}
use qu_v.Examples.Notes.{note_id, outbox, note, stored_note, outbox-IsClean}

abbrev alice : Text
alice = codes "alice"

abbrev entry : OutboxEntry
entry = record {
  id = outbox_entry_id note_id;
  target_id = note_id;
  doc = note;
  collections = outbox ∷ [];
  ts = 5;
}

abbrev queued_record : Record
queued_record = record {
  ts = 5;
  doc = outbox_value entry;
  collections = outbox_collection alice ∷ [];
}

box-IsClean : IsClean (outbox_collection alice)
box-IsClean = ground arith

queued_write :
    (b : Entries Stored) × (write_record (memory_adapter Stored) [] entry.id queued_record
      ≡ (b, none))
    × Represents (memory_adapter Stored) IsMap b (update empty_view entry.id (some queued_record))
queued_write =
    write_record-Represents (memory_adapter Stored) IsMap (memory_adapter-Laws Stored) [] empty_view
      entry.id queued_record empty-Represents (λ e. cc (e))
      (record { clean = (box-IsClean, tt); fits = omega arith })

abbrev queued : Entries Stored
queued = (write_record (memory_adapter Stored) [] entry.id queued_record).0

abbrev queued_view : View
queued_view = update empty_view entry.id (some queued_record)

queued-Represents : Represents (memory_adapter Stored) IsMap queued queued_view
queued-Represents =
    let (b, e, r) = queued_write in
    subst (λ x. Represents (memory_adapter Stored) IsMap x queued_view) (sym (ap (λ w. w.0) e)) r

abbrev client : Client (Entries Stored)
client = record {
  store = record (create []) { adapter = queued };
  connected = false;
  subscriptions = outbox ∷ [];
  sent = [];
  attempts = 0;
}

client-queue : Flushes.outbox (memory_adapter Stored) alice client ≡ entry ∷ []
unfolding get_children create write_record qu_v.Core.Memory.list qu_v.Core.Listing.with_values
    qu_v.Core.Listing.select_keys qu_v.Prelude.Sorting.sort qu_v.Store.forget_index
    qu_v.Core.Memory.get qu_v.Core.JsMap.find qu_v.Store.index_in qu_v.Store.index_key
    Cursor.encode_cursor qu_v.Core.Cursor.Decimal.digits qu_v.Core.Memory.put qu_v.Core.JsMap.put
    text_dec Bool-cases qu_v.Store.object_key qu_v.Prelude.starts_with
    qu_v.Core.Cursor.Decimal.digits_upto Cursor.pad_start Cursor.pad_timestamp Cursor.with_padding
    qu_v.Core.Listing.directed qu_v.Core.Listing.limited qu_v.Core.Listing.with_prefix
    qu_v.Core.Volatile.create qu_v.Prelude.Sorting.insert_sorted text_eq qu_v.Prelude.text_ltb
    qu_v.Store.Methods.documents qu_v.Store.as_id qu_v.Store.as_record qu_v.Store.index_key_prefix
    qu_v.Store.read_record qu_v.Store.unindex qu_v.Client.Outbox.value_outbox outbox_value get_field
    lookup_field as_text qu_v.Delivery.Entry.as_number qu_v.Delivery.Entry.as_texts
    qu_v.Delivery.Entry.texts qu_v.Delivery.Entry.text_or_empty qu_v.As2.Value.items
    qu_v.As2.Value.to_items
client-queue = refl

client-IsSendable : All IsSendable (Flushes.outbox (memory_adapter Stored) alice client)
client-IsSendable = rw client-queue (record { named = λ e. cc (e); fits = omega arith }, tt)

-- Transports that take no frame, and every frame.
abbrev takes_none : ℕ → Bool
takes_none n = false

abbrev takes_all : ℕ → Bool
takes_all n = true

flush_outbox-Flushed_example :
    (d : Client (Entries Stored)) × (flush_outbox (memory_adapter Stored) alice takes_none client
      ≡ (d, none))
    × Flushed
        (memory_adapter Stored)
        IsMap
        (memory_adapter-Laws Stored)
        alice
        takes_none
        client
        d
        queued_view
        (Flushes.outbox (memory_adapter Stored) alice client)
flush_outbox-Flushed_example =
    flush_outbox-Flushed (memory_adapter Stored) IsMap (memory_adapter-Laws Stored) alice takes_none
      client queued_view queued-Represents client-IsSendable

connect-sent_example :
    let queue = Flushes.outbox (memory_adapter Stored) alice client in
    (d : Client (Entries Stored)) × (connect (memory_adapter Stored) alice takes_all true client
      ≡ (d, none))
    × (d.connected ≡ true)
    × (d.sent
        ≡ []
          ++ (control_frame (hello alice)
              ∷ (map (λ k. control_frame (subscribe k)) (outbox ∷ [])
                  ++ (control_frame
                        (resume (since_entries (memory_adapter Stored) client (outbox ∷ [])))
                      ∷ map entry_frame queue))))
    × Represents
        (memory_adapter Stored)
        IsMap
        d.store.adapter
        (without (map (λ e. e.id) queue) queued_view)
connect-sent_example =
    connect-sent takes_all (λ n. refl) (memory_adapter Stored) IsMap (memory_adapter-Laws Stored)
      alice client queued_view queued-Represents client-IsSendable

abbrev deleted : DataFrame
deleted = frame_without_cursor (delete_change note_id stored_note)

handle_frame-deletion_example :
    handle_frame (memory_adapter Stored) 9 client (data_frame deleted)
    ≡ (client, some (store_error missing_id))
unfolding build_data_frame
handle_frame-deletion_example =
    handle_frame-deletion (memory_adapter Stored) 9 client (delete_change note_id stored_note)
      deleted refl refl

abbrev received : DataFrame
received = record {
  kind = codes "object";
  id = text note_id;
  doc = note;
  collections = outbox ∷ [];
  durability = codes "persistent";
  session_id = none;
  cursor = some (codes "000000000000005");
}

note-apart : (j : Text) → note_id ≢ cursor_id j
note-apart j e = cc (e)

-- encryptPayload() of the example: it hides its argument.
abbrev opaque : Fields → Value → List Value → Option Value
opaque fs k rs = some (text (codes "sealed"))

abbrev hidden : Publication
hidden = record {
  id = some note_id;
  type = codes "Note";
  fields = field (codes "content") (text (codes "hi")) end;
  visibility = single (codes "bob");
  durability = codes "persistent";
  collections = outbox ∷ [];
  session_id = none;
  encrypt_for = text (codes "bob") ∷ [];
  sender_keypair = some (text (codes "keypair"));
  allow_unencrypted_private = false;
}

abbrev exposed : Publication
exposed = record hidden { encrypt_for = [] }

publish-opaque_example :
    publish opaque (memory_adapter Stored) alice (codes "minted") takes_all 5 hidden client
    ≡ publish opaque
        (memory_adapter Stored)
        alice
        (codes "minted")
        takes_all
        5
        (record hidden { fields = end })
        client
unfolding qu_v.Client.Publish.will_encrypt
publish-opaque_example =
    publish-opaque opaque (memory_adapter Stored) alice (codes "minted") takes_all 5 hidden end
      client refl (λ k. refl)

abbrev sealed : Fields
sealed = field (codes "id") (text note_id) (
    field (codes "type") (text (codes "Note")) (
      field (codes "encryptedPayload") (text (codes "sealed"))
        (field (codes "encrypted") (qu_v.As2.Value.boolean true) end)))

publish-offline_example :
    let doc = object (with_to (visibility_list (single (codes "bob"))) sealed) in
    let queued_again : OutboxEntry = record {
      id = outbox_entry_id note_id;
      target_id = note_id;
      doc = doc;
      collections = outbox ∷ [];
      ts = 5;
    } in
    (d : Client (Entries Stored)) × (publish opaque
        (memory_adapter Stored)
        alice
        (codes "minted")
        takes_all
        5
        hidden
        client
      ≡ (d, none))
    × (d.sent ≡ [])
    × Represents (memory_adapter Stored) IsMap d.store.adapter (
        update
          (update queued_view note_id
            (some (record { ts = 5; doc = doc; collections = outbox ∷ [] })))
          (outbox_entry_id note_id)
          (some (record {
            ts = 5;
            doc = outbox_value queued_again;
            collections = outbox_collection alice ∷ [];
          })))
unfolding qu_v.As2.Vocabulary.includes visibility_list qu_v.Client.Publish.will_encrypt
    public_audience text_eq checked_draft qu_v.Client.Publish.draft
    qu_v.Client.Publish.draft_encrypted qu_v.Encryption.assert_encryption_guard doc_id_of with_to
    qu_v.Client.Publish.set_field doc_id get_field lookup_field text_dec Bool-cases as_text
publish-offline_example =
    publish-offline opaque (memory_adapter Stored) alice (codes "minted") takes_all 5 hidden sealed
      note_id client IsMap (memory_adapter-Laws Stored) queued_view queued-Represents refl refl refl
      refl (outbox-IsClean, tt) box-IsClean (omega arith)
