-- ===== src/Realtime/Resume.antt =====
-- packages/ap-realtime/src/resume.js: replayResume(), and the frames that it sends in order. An
-- object of cursors is its entries in order; no collection id names a property of Object.prototype.
use qu_v.Prelude.{Text, Option, none, some, List, [], ◌∷◌, ◌++◌, codes}
use qu_v.Core.JsMap
use qu_v.Core.JsMap.{Entries, find}
use qu_v.Core.Storage.{Operations}
use qu_v.As2.Value.{Value, get_field}
use qu_v.As2.Vocabulary.{persistent}
use qu_v.Store.{Stored, ApStore}
use qu_v.Store.Methods.{get_children_since}
use qu_v.Realtime.{
  DataFrame, Frame, data_frame, control_frame, resumed, persistent_frame_kind, durability_text,
}

-- since[collectionId] ?? null
unfoldable pub since_of : Entries (Option Text) → Text → Option Text
unfolding find
since_of since c = elim (find since c) [ none ↦ none | some cursor ↦ cursor ]

-- buildDataFrame({ id: doc.id, doc, collections: [collectionId], … }), with the cursor attached
unfoldable pub replayed_frame : Text → Text → Value → DataFrame
unfolding persistent_frame_kind durability_text get_field
replayed_frame c cursor doc = record {
  kind = persistent_frame_kind doc;
  id = get_field doc (codes "id");
  doc = doc;
  collections = c ∷ [];
  durability = durability_text persistent;
  session_id = none;
  cursor = some cursor;
}

-- The frames of the inner loop.
unfoldable pub replayed : Text → List (Text × Value) → List Frame
unfolding replayed_frame
replayed c [] = []
replayed c ((cursor, doc) ∷ es) = data_frame (replayed_frame c cursor doc) ∷ replayed c es

-- The inner loop's writes to cursors[collectionId], and the value that it has when there is none.
unfoldable pub last_cursor : Option Text → List (Text × Value) → Option Text
last_cursor since [] = since
last_cursor since ((cursor, doc) ∷ es) = last_cursor (some cursor) es

module _ {S : Type 0} (o : Operations S Stored) (s : ApStore S) where
  -- The outer loop: the frames sent from here on, and the cursors at its end.
  unfoldable pub replay :
      List Text → Entries (Option Text) → Entries (Option Text) → List Frame × Entries (Option Text)
  unfolding replayed last_cursor since_of
  replay [] since cursors = ([], cursors)
  replay (c ∷ cs) since cursors =
      let entries = get_children_since o s c (since_of since c) none in
      let rest = replay cs since (JsMap.put cursors c (last_cursor (since_of since c) entries)) in
      (replayed c entries ++ rest.0, rest.1)

  -- replayResume({ store, subscriptions, since, send }): what it sends and what it returns
  unfoldable pub replay_resume :
      List Text → Entries (Option Text) → List Frame × Entries (Option Text)
  unfolding replay
  replay_resume subscriptions since =
      let (frames, cursors) = replay subscriptions since [] in
      (frames ++ control_frame (resumed cursors) ∷ [], cursors)
