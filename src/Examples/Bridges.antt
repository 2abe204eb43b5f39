-- ===== src/Examples/Bridges.antt =====
-- A relay with one registered actor, whose peer is connected.
use qu_v.Prelude.{
  ◌≡◌, ◌⊎◌, ◌↔◌, refl, Text, codes, none, some, [], ◌∷◌, In, arith, text_eq, text_dec, Bool-cases,
}
use qu_v.Core.Cursor
use qu_v.Core.Cursor.RoundTrip.{cursor_text}
use qu_v.Core.JsMap
use qu_v.Core.JsMap.{Entries, find}
use qu_v.Core.JsMap.Laws.{IsMap}
use qu_v.Core.Memory.{memory_adapter}
use qu_v.Core.Memory.Laws.{memory_adapter-Laws}
use qu_v.As2.Value.{Value, text, object, end}
use qu_v.Store.{Stored, Change}
use qu_v.Store.View.{Represents, update}
use qu_v.Store.Children.{IsRow, After}
use qu_v.Store.Calls.{ephemeral_change}
use qu_v.Realtime.{
  DataFrame, data_frame, control_frame, hello, build_data_frame, frame_without_cursor,
}
use qu_v.Realtime.Resume.{replay_resume, since_of, replayed_frame}
use qu_v.Realtime.Replays.{replay_resume-rows}
use qu_v.Relay.Registry.{LocalActor, Registry, no_actors, register, by_id}
use qu_v.Relay.Bridge.{
  PeerState, Bridge, actor_of, broadcast, on_connection, on_message, Reachable, created, stepped,
  connects, sends, set_state, on_hello, on_control, on_frame,
}
use qu_v.Relay.Bridge.Known.{Reachable-registered}
use qu_v.Relay.Bridge.Safety.{Authorized, on_message-Authorized}
use qu_v.Relay.Bridge.Broadcast.{Listens, broadcast-Listens, on_message-no_collections}
use qu_v.Examples.Notes.{
  note_id, outbox, note, options, doc_id-note, noted_store, noted_view, noted-Represents,
  outbox-IsClean,
}

abbrev alice : Text
alice = codes "alice"

abbrev peer : Text
peer = codes "p"

abbrev registry : Registry
registry = register no_actors (record { actor_id = alice; username = alice; document = object end })

abbrev listening : PeerState
listening = record { actor_id = some alice; subscriptions = outbox ∷ [] }

abbrev fresh : Bridge (Entries Stored)
fresh = record { store = noted_store; peers = []; sent = []; closing = [] }

abbrev greeted : Bridge (Entries Stored)
greeted =
    on_message (memory_adapter Stored) registry (on_connection fresh peer) peer
      (control_frame (hello alice)) 6

greeted-Reachable : Reachable (memory_adapter Stored) registry noted_store greeted
greeted-Reachable =
    stepped _ _ (stepped _ _ created (connects fresh peer))
      (sends (on_connection fresh peer) peer (control_frame (hello alice)) 6)

abbrev bare_frame : DataFrame
bare_frame = record {
  kind = codes "object";
  id = text note_id;
  doc = note;
  collections = [];
  durability = codes "persistent";
  session_id = none;
  cursor = none;
}

Reachable-registered_example : (r : LocalActor) × (by_id registry alice ≡ some r)
unfolding on_connection on_message on_frame on_control on_hello set_state by_id register no_actors
    find JsMap.put text_dec Bool-cases text_eq
Reachable-registered_example =
    Reachable-registered (memory_adapter Stored) registry noted_store greeted peer alice
      (record { actor_id = some alice; subscriptions = [] }) greeted-Reachable refl refl

on_message-Authorized_example :
    ((on_message (memory_adapter Stored) registry greeted peer (data_frame bare_frame) 7).store
      ≡ greeted.store)
    ⊎ ((w : Authorized
          (memory_adapter Stored)
          registry
          greeted
          (on_message (memory_adapter Stored) registry greeted peer (data_frame bare_frame) 7)
          peer
          (data_frame bare_frame)
          7)
        × (r : LocalActor) × (by_id registry w.actor ≡ some r))
on_message-Authorized_example =
    on_message-Authorized (memory_adapter Stored) registry noted_store greeted peer
      (data_frame bare_frame) 7 greeted-Reachable

abbrev connected : Bridge (Entries Stored)
connected = record { store = noted_store; peers = (peer, listening) ∷ []; sent = []; closing = [] }

alice-said : actor_of listening ≡ some alice
unfolding actor_of
alice-said = ground arith

on_message-no_collections_example :
    Represents
      (memory_adapter Stored)
      IsMap
      (on_message
        (memory_adapter Stored)
        registry
        connected
        peer
        (data_frame bare_frame)
        7).store.adapter
      (update noted_view note_id (some (record { ts = 7; doc = note; collections = [] })))
unfolding find text_dec Bool-cases text_eq
on_message-no_collections_example =
    on_message-no_collections (memory_adapter Stored) IsMap (memory_adapter-Laws Stored) registry
      connected noted_view peer alice listening bare_frame note_id 7 noted-Represents refl
      alice-said doc_id-note refl refl (omega arith)

abbrev seen : Change
seen = ephemeral_change note_id note options

built-seen : build_data_frame seen ≡ Cursor.ok (frame_without_cursor seen)
unfolding build_data_frame
built-seen = refl

broadcast-Listens_example :
    In (peer, data_frame (frame_without_cursor seen)) (broadcast connected.peers seen) ↔ (
      (st : PeerState) × In (peer, st) connected.peers
      × Listens st seen.collections
      × (data_frame (frame_without_cursor seen) ≡ data_frame (frame_without_cursor seen)))
broadcast-Listens_example =
    broadcast-Listens connected.peers seen (frame_without_cursor seen) peer
      (data_frame (frame_without_cursor seen)) built-seen

abbrev missed : DataFrame
missed = replayed_frame outbox (cursor_text 5 note_id) note

replay_resume-rows_example :
    In (data_frame missed) (replay_resume (memory_adapter Stored) noted_store (outbox ∷ []) []).0
    ↔ ((c cursor : Text) × (doc : Value) × In c (outbox ∷ [])
        × IsRow noted_view c cursor doc
        × After (since_of [] c) cursor
        × (missed ≡ replayed_frame c cursor doc))
replay_resume-rows_example =
    replay_resume-rows (memory_adapter Stored) IsMap (memory_adapter-Laws Stored) noted_store
      noted_view noted-Represents (outbox ∷ []) [] missed (outbox-IsClean, tt)
