-- ===== src/Realtime.antt =====
-- packages/ap-realtime/src/frame.js: the frames of the realtime channel. A frame that the program
-- holds is typed by its kind; `frame_value` is the object that it is, for what comes off the wire.
-- JSON.parse is a parameter of parse_frame.
pub mod Wire
pub mod Resume
pub mod Cursors
pub mod Replays
pub mod Sse
use qu_v.Prelude.{
  ℕ, Bool, true, false, Text, codes, Option, none, some, List, [], ◌∷◌, ◌++◌, map, ◌&&◌, not,
  if◌then◌else◌, text_eq,
}
use qu_v.Core.Cursor
use qu_v.Core.Cursor.{encode_cursor}
use qu_v.Core.JsMap.{Entries}
use qu_v.As2.Value.{
  Value, undefined, null, text, array, object, Fields, field, end, to_items, get_field, as_text,
  truthy,
}
use qu_v.As2.Vocabulary.{Tier, ephemeral, session, persistent, activity_types, includes}
use qu_v.Store.{Change}

-- FRAME_KINDS
abbrev pub frame_kinds : List Text
frame_kinds = map codes ("object" ∷ "activity" ∷ "ephemeral" ∷ "session" ∷ "control" ∷ [])

-- DATA_KINDS
abbrev pub data_kinds : List Text
data_kinds = map codes ("object" ∷ "activity" ∷ "ephemeral" ∷ "session" ∷ [])

-- The values of CONTROL_OP.
abbrev pub control_ops : List Text
control_ops = map codes ("hello" ∷ "resume" ∷ "resumed" ∷ "subscribe" ∷ "unsubscribe" ∷ [])

-- A data frame; an absent `doc` is null, and an absent `cursor` or `session_id` has no field.
pub record DataFrame : Type 0 where
  pub kind : Text
  pub id : Value
  pub doc : Value
  pub collections : List Text
  pub durability : Text
  pub session_id : Option Text
  pub cursor : Option Text

-- An operation with the fields that go with it; `other` is a text that names none of CONTROL_OP.
pub data Control : Type 0 where
  hello : (actor_id : Text) → Control
  resume : (since : Entries (Option Text)) → Control
  resumed : (cursors : Entries (Option Text)) → Control
  subscribe : (collection_id : Text) → Control
  unsubscribe : (collection_id : Text) → Control
  other : (op : Text) → Control

pub data Frame : Type 0 where
  data_frame : DataFrame → Frame
  control_frame : Control → Frame

-- The text of a tier in DURABILITY.
unfoldable pub durability_text : Tier → Text
durability_text ephemeral = codes "ephemeral"
durability_text session = codes "session"
durability_text persistent = codes "persistent"

-- ACTIVITY_TYPES.includes(doc.type)
unfoldable pub is_activity : Value → Bool
unfolding get_field as_text includes
is_activity doc = elim (as_text (get_field doc (codes "type"))) [
  | none ↦ false
  | some t ↦ includes activity_types t
]

-- persistentFrameKind(doc)
unfoldable pub persistent_frame_kind : Value → Text
unfolding is_activity truthy
persistent_frame_kind doc =
    if truthy doc && is_activity doc then codes "activity" else codes "object"

unfoldable pub doc_value : Option Value → Value
doc_value none = null
doc_value (some d) = d

-- frameKindForChange({ doc, durability })
unfoldable pub frame_kind_for_change : Value → Tier → Text
unfolding persistent_frame_kind
frame_kind_for_change doc ephemeral = codes "ephemeral"
frame_kind_for_change doc session = codes "session"
frame_kind_for_change doc persistent = persistent_frame_kind doc

-- buildDataFrame(), of an event without a `ts`
unfoldable pub frame_without_cursor : Change → DataFrame
unfolding frame_kind_for_change doc_value durability_text
frame_without_cursor e = record {
  kind = frame_kind_for_change (doc_value e.doc) e.tier;
  id = text e.id;
  doc = doc_value e.doc;
  collections = e.collections;
  durability = durability_text e.tier;
  session_id = e.session_id;
  cursor = none;
}

-- buildDataFrame(event); what encodeCursor() throws it throws.
unfoldable pub build_data_frame : Change → Cursor.Result DataFrame
unfolding frame_without_cursor
build_data_frame e = elim e.ts [
  | none ↦ Cursor.ok (frame_without_cursor e)
  | some ts ↦ elim (encode_cursor (record { ts = ts; id = e.id })) [
    | Cursor.ok cursor ↦ Cursor.ok (record (frame_without_cursor e) { cursor = some cursor })
    | Cursor.err x ↦ Cursor.err x
  ]
]

unfoldable pub op_text : Control → Text
op_text (hello a) = codes "hello"
op_text (resume since) = codes "resume"
op_text (resumed cursors) = codes "resumed"
op_text (subscribe c) = codes "subscribe"
op_text (unsubscribe c) = codes "unsubscribe"
op_text (other op) = op

-- buildControlFrame(op, fields); none is the error for an unknown op.
unfoldable pub build_control_frame : Control → Option Frame
unfolding op_text includes
build_control_frame c = if includes control_ops (op_text c) then some (control_frame c) else none

unfoldable pub cursor_value : Option Text → Value
cursor_value none = null
cursor_value (some t) = text t

unfoldable pub cursor_fields : Entries (Option Text) → Fields
unfolding cursor_value
cursor_fields [] = end
cursor_fields ((c, t) ∷ cs) = field c (cursor_value t) (cursor_fields cs)

-- The fields beside `kind` and `op`.
unfoldable pub control_fields : Control → Fields
unfolding cursor_fields
control_fields (hello a) = field (codes "actorId") (text a) end
control_fields (resume since) = field (codes "since") (object (cursor_fields since)) end
control_fields (resumed cursors) = field (codes "cursors") (object (cursor_fields cursors)) end
control_fields (subscribe c) = field (codes "collectionId") (text c) end
control_fields (unsubscribe c) = field (codes "collectionId") (text c) end
control_fields (other op) = end

-- A field that is set only when its value is there.
unfoldable pub optional_field : Text → Option Text → Fields → Fields
optional_field k none fs = fs
optional_field k (some t) fs = field k (text t) fs

-- The object that a frame is.
unfoldable pub frame_value : Frame → Value
unfolding optional_field to_items op_text control_fields
frame_value (data_frame f) = object (
    field (codes "kind") (text f.kind) (
      field (codes "id") f.id (
        field (codes "doc") f.doc (
          field (codes "collections") (array (to_items (map text f.collections))) (
            field (codes "durability") (text f.durability) (
              optional_field (codes "sessionId") f.session_id
                (optional_field (codes "cursor") f.cursor end)))))))
frame_value (control_frame c) = object (
    field (codes "kind") (text (codes "control"))
      (field (codes "op") (text (op_text c)) (control_fields c)))

-- kinds.includes(frame.kind), or DATA_KINDS.has(frame.kind)
unfoldable pub has_kind : List Text → Value → Bool
unfolding get_field as_text includes
has_kind kinds frame = elim (as_text (get_field frame (codes "kind"))) [
  | none ↦ false
  | some k ↦ includes kinds k
]

unfoldable pub is_data_frame : Value → Bool
unfolding has_kind truthy
is_data_frame frame = truthy frame && has_kind data_kinds frame

unfoldable pub is_control_frame : Value → Bool
unfolding has_kind truthy
is_control_frame frame = truthy frame && has_kind (codes "control" ∷ []) frame

-- typeof frame.op === 'string'
unfoldable pub has_op : Value → Bool
unfolding get_field as_text
has_op frame = elim (as_text (get_field frame (codes "op"))) [ none ↦ false | some op ↦ true ]

-- The checks of parseFrame(); none is an error.
unfoldable pub checked_frame : Value → Option Value
unfolding has_kind is_control_frame has_op truthy
checked_frame frame =
    if not (truthy frame && has_kind frame_kinds frame)
    then none
    else if is_control_frame frame && not (has_op frame)
    then none
    else some frame

-- parseFrame(raw)
unfoldable pub parse_frame : (Text → Option Value) → Value → Option Value
unfolding checked_frame
parse_frame parse_json (text raw) = elim (parse_json raw) [
  | none ↦ none
  | some frame ↦ checked_frame frame
]
parse_frame parse_json frame = checked_frame frame
