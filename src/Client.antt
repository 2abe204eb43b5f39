-- ===== src/Client.antt =====
-- packages/ap-client/src/client.js: ApClient, over ApStore and a transport. Each method runs as one
-- step. `accepts n` says whether the transport's n-th send() returns rather than throws.
pub mod Outbox
pub mod Publish
pub mod Publishes
pub mod Connects
pub mod Flushes
pub mod Handles
use qu_v.Prelude.{
  ℕ, ◌+◌, Bool, true, false, not, Text, codes, Option, none, some, List, [], ◌∷◌, ◌++◌, length,
  ◌==◌, if◌then◌else◌,
}
use qu_v.Core.Cursor.{CursorError}
use qu_v.Core.JsMap
use qu_v.Core.JsMap.{Entries}
use qu_v.Core.Storage.{Operations}
use qu_v.As2.Value.{Value, text, object, field, end, get_field, as_text}
use qu_v.As2.Vocabulary.{includes}
use qu_v.As2.Audience
use qu_v.Encryption.{GuardError}
use qu_v.Store.{Stored, ApStore, StoreError, PutOptions}
use qu_v.Store.Methods
use qu_v.Store.Methods.{put, get}
use qu_v.Realtime.{
  Frame, DataFrame, Control, data_frame, control_frame, hello, resume, resumed, subscribe,
  unsubscribe, other,
}
use qu_v.Relay.Bridge.{remove}

pub record Client (S : Type 0) : Type 0 where
  pub store : ApStore S
  pub connected : Bool
  pub subscriptions : List Text
  pub sent : List Frame
  pub attempts : ℕ

-- What a method throws.
pub data ClientError : Type 0 where
  missing_type missing_keypair encryption_failed not_connected : ClientError
  guard_error : GuardError → ClientError
  store_error : StoreError → ClientError
  frame_error : CursorError → ClientError

-- The client after a call, and the exception that ended it, if one did.
abbrev pub Call : Type 0 → Type 0
Call S = Client S × Option ClientError

abbrev pub then_on : {S : Type 0} → Call S → (Client S → Call S) → Call S
then_on (c, none) f = f c
then_on (c, some e) f = (c, some e)

-- CURSOR_PREFIX
abbrev pub cursor_prefix : Text
cursor_prefix = codes "urn:qu:client-cursor:"

abbrev pub cursor_id : Text → Text
cursor_id c = cursor_prefix ++ c

-- { id, cursor }
abbrev pub cursor_doc : Text → Text → Value
cursor_doc k cursor =
    object (field (codes "id") (text (cursor_id k)) (field (codes "cursor") (text cursor) end))

module _ {S : Type 0} where
  -- The transport's close event.
  unfoldable pub on_close : Client S → Client S
  on_close c = record c { connected = false }

  -- A call of the store's put() by the client.
  unfoldable pub stored_by : Client S → ApStore S × Methods.Result Value → Call S
  stored_by c (s, Methods.returned v) = (record c { store = s }, none)
  stored_by c (s, Methods.thrown e) = (record c { store = s }, some (store_error e))

  module _ (accepts : ℕ → Bool) where
    -- transport.send(frame), and whether it returned
    unfoldable pub try_send : Client S → Frame → Client S × Bool
    try_send c f =
        let d = record c { attempts = c.attempts + 1 } in
        if accepts c.attempts then (record d { sent = c.sent ++ f ∷ [] }, true) else (d, false)

    -- transport.send(frame)
    unfoldable pub send : Client S → Frame → Call S
    unfolding try_send
    send c f = let (d, ok) = try_send c f in (d, if ok then none else some not_connected)

    unfoldable pub send_if_connected : Client S → Frame → Call S
    unfolding send
    send_if_connected c f = if c.connected then send c f else (c, none)

    -- subscribe(collectionId)
    unfoldable pub subscribe_to : Client S → Text → Call S
    unfolding send_if_connected includes Audience.add
    subscribe_to c k =
        if includes c.subscriptions k
        then (c, none)
        else send_if_connected (record c { subscriptions = Audience.add c.subscriptions k })
            (control_frame (subscribe k))

    -- unsubscribe(collectionId)
    unfoldable pub unsubscribe_from : Client S → Text → Call S
    unfolding send_if_connected includes remove
    unsubscribe_from c k =
        if includes c.subscriptions k
        then send_if_connected (record c { subscriptions = remove c.subscriptions k })
            (control_frame (unsubscribe k))
        else (c, none)

    -- for (const collectionId of subscriptions) transport.send(…)
    unfoldable pub send_subscriptions : Client S → List Text → Call S
    unfolding send
    send_subscriptions c [] = (c, none)
    send_subscriptions c (k ∷ ks) =
        then_on (send c (control_frame (subscribe k))) λ d. send_subscriptions d ks

  module _ (o : Operations S Stored) where
    -- #getCursor(collectionId)
    unfoldable pub get_cursor : Client S → Text → Option Text
    unfolding get_field as_text get
    get_cursor c k = elim (get o c.store (cursor_id k)) [
      | none ↦ none
      | some doc ↦ as_text (get_field doc (codes "cursor"))
    ]

    -- #setCursor(collectionId, cursor) at the time `now`
    unfoldable pub set_cursor : ℕ → Client S → Text → Text → Call S
    unfolding stored_by
    set_cursor now c k cursor = stored_by c (
        put o c.store (cursor_doc k cursor)
          (record {
            collections = [];
            durability = codes "persistent";
            session_id = none;
            ts = now;
          })
          now)

    -- The object `since` of #resume().
    unfoldable pub since_entries : Client S → List Text → Entries (Option Text)
    unfolding get_cursor
    since_entries c [] = []
    since_entries c (k ∷ ks) = (k, get_cursor c k) ∷ since_entries c ks

    -- #resume()
    unfoldable pub send_resume : (ℕ → Bool) → Client S → Call S
    unfolding send since_entries
    send_resume accepts c =
        send accepts c (control_frame (resume (since_entries c c.subscriptions)))

    -- The loop over the cursors of a 'resumed' frame.
    unfoldable pub set_cursors : ℕ → Client S → Entries (Option Text) → Call S
    unfolding set_cursor
    set_cursors now c [] = (c, none)
    set_cursors now c ((k, none) ∷ ks) = set_cursors now c ks
    set_cursors now c ((k, some cursor) ∷ ks) =
        let rest = set_cursors now c ks in
        if length cursor == 0
        then rest
        else then_on (set_cursor now c k cursor) λ d. set_cursors now d ks

    -- The loop over the collections of a data frame with a cursor.
    unfoldable pub follow_cursor : ℕ → Client S → Text → List Text → Call S
    unfolding set_cursor includes
    follow_cursor now c cursor [] = (c, none)
    follow_cursor now c cursor (k ∷ ks) =
        let rest = follow_cursor now c cursor ks in
        if includes c.subscriptions k
        then then_on (set_cursor now c k cursor) (λ d. follow_cursor now d cursor ks)
        else rest

    unfoldable pub handle_data : ℕ → Client S → DataFrame → Call S
    unfolding stored_by follow_cursor
    handle_data now c f =
        then_on
          (stored_by c (
            put o c.store f.doc
              (record {
                collections = f.collections;
                durability = f.durability;
                session_id = f.session_id;
                ts = now;
              })
              now))
          λ d. elim f.cursor [
            | none ↦ (d, none)
            | some cursor ↦
                if length cursor == 0 then (d, none) else follow_cursor now d cursor f.collections
          ]

    -- #handleFrame(frame) at the time `now`
    unfoldable pub handle_frame : ℕ → Client S → Frame → Call S
    unfolding set_cursors handle_data
    handle_frame now c (control_frame (resumed cursors)) = set_cursors now c cursors
    handle_frame now c (control_frame _) = (c, none)
    handle_frame now c (data_frame f) = handle_data now c f
