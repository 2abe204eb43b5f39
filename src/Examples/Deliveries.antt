-- ===== src/Examples/Deliveries.antt =====
-- Two recipients behind one shared inbox, one without one, one that cannot be fetched, and a queue with
-- one entry.
use qu_v.Prelude.{
  ◌+◌, ◌*◌, min, ◌≤◌, ◌≡◌, ◌≢◌, ◌↔◌, refl, sym, ap, subst, true, Text, codes, some, none, List, [],
  ◌∷◌, In, arith, text_eq, if◌then◌else◌, if_pos, text_dec,
}
use qu_v.Prelude.Sorting.{Distinct}
use qu_v.Core.JsMap.{Entries}
use qu_v.Core.JsMap.Laws.{IsMap}
use qu_v.Core.Memory.{memory_adapter}
use qu_v.Core.Memory.Laws.{memory_adapter-Laws}
use qu_v.As2.Value.{Value, object, end}
use qu_v.Store.{Stored, Record, ApStore, write_record}
use qu_v.Store.View.{View, Represents, update}
use qu_v.Store.Methods.{create}
use qu_v.Store.Calls.{record_of}
use qu_v.Store.Refines.{write_record-Represents}
use qu_v.Store.Fresh.{empty_view, empty-Represents}
use qu_v.Delivery.{
  Fetched, fetched, fetch_failed, DeliveryError, resolve_inboxes, deliver_activity, Posted,
  response, backoff_ms, Delivery,
}
use qu_v.Delivery.Inboxes.{Serves, Fails, resolve_inboxes-Serves}
use qu_v.Delivery.Backoff.{backoff_ms-doubles}
use qu_v.Delivery.Entry.{Entry, entry_value}
use qu_v.Delivery.Queue.{Settings, options_at, process_entry}
use qu_v.Delivery.Queue.Process.{Made, Outcome, process_entry-view}

abbrev fetch : Text → Fetched
fetch id =
    if text_eq id (codes "gone")
    then fetch_failed (codes "410")
    else fetched (record {
      inbox = id;
      shared_inbox = if text_eq id (codes "cat") then none else some (codes "shared");
    })

abbrev recipients : List Text
recipients = codes "ann" ∷ codes "gone" ∷ codes "bob" ∷ codes "cat" ∷ []

resolve_inboxes-Serves_example :
    ((t : Text) → In t (resolve_inboxes fetch recipients).inboxes ↔ Serves fetch recipients t)
    × Distinct (resolve_inboxes fetch recipients).inboxes
    × ((e : DeliveryError)
        → In e (resolve_inboxes fetch recipients).errors ↔ Fails fetch recipients e)
resolve_inboxes-Serves_example = resolve_inboxes-Serves fetch recipients

backoff_ms-doubles_example :
    (backoff_ms 1 ≡ 30000)
    × (backoff_ms (3 + 1) ≡ min (2 * backoff_ms 3) 21600000)
    × (30000 ≤ backoff_ms 3)
    × (backoff_ms 3 ≤ backoff_ms (3 + 7))
    × (backoff_ms (3 + 7) ≤ 21600000)
backoff_ms-doubles_example = backoff_ms-doubles 3 7 (omega arith)

abbrev settings : Settings
settings = record { collection_id = codes "queue"; max_attempts = 8 }

abbrev entry : Entry
entry = record {
  id = codes "e";
  activity = object end;
  recipients = recipients;
  attempts = 0;
  next_attempt_at = 3;
  last_error = none;
}

abbrev entry_record : Record
entry_record = record_of (entry_value entry) (options_at (memory_adapter Stored) settings 3)

abbrev queued : Entries Stored
queued = (write_record (memory_adapter Stored) [] entry.id entry_record).0

abbrev queued_view : View
queued_view = update empty_view entry.id (some entry_record)

queued-Represents : Represents (memory_adapter Stored) IsMap queued queued_view
queued-Represents =
    let ne : entry.id ≢ [] = λ e. cc (e) in
    let (b, e, r) =
      write_record-Represents (memory_adapter Stored) IsMap (memory_adapter-Laws Stored) []
        empty_view entry.id entry_record empty-Represents ne
        (record { clean = (ground arith, tt); fits = omega arith }) in
    subst (λ x. Represents (memory_adapter Stored) IsMap x queued_view) (sym (ap (λ w. w.0) e)) r

abbrev queue_store : ApStore (Entries Stored)
queue_store = record (create []) { adapter = queued }

abbrev post : Text → Value → Posted
post inbox activity = response true 202

process_entry-view_example :
    (ds : List Delivery) × Made
      (memory_adapter Stored)
      IsMap
      (memory_adapter-Laws Stored)
      settings
      (resolve_inboxes fetch)
      (deliver_activity post)
      entry
      ds
    × Outcome
        (memory_adapter Stored)
        IsMap
        (memory_adapter-Laws Stored)
        settings
        (resolve_inboxes fetch)
        (deliver_activity post)
        queued_view
        entry
        5
        ds
        (process_entry
          (memory_adapter Stored)
          settings
          (resolve_inboxes fetch)
          (deliver_activity post)
          queue_store
          entry
          5)
process_entry-view_example =
    process_entry-view (memory_adapter Stored) IsMap (memory_adapter-Laws Stored) settings
      (resolve_inboxes fetch) (deliver_activity post) queue_store queued_view entry entry_record 5
      queued-Represents (if_pos (text_dec entry.id entry.id) refl _ _) (ground arith) (omega arith)
