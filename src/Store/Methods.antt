-- ===== src/Store/Methods.antt =====
-- The public methods of ApStore, the whole of each: guards, writes, and the event at the end.
use mathlib.Core.Option
use qu_v.Prelude.{
  ℕ, ◌*◌, true, false, Text, codes, Option, none, some, List, [], ◌∷◌, ◌++◌, length, take, drop,
  ◌==◌, if◌then◌else◌, text_ltb,
}
use qu_v.Core.Cursor
use qu_v.Core.Storage.{Operations}
use qu_v.Core.Volatile
use qu_v.As2.Value.{Value, text, truthy}
use qu_v.As2.Vocabulary.{Tier, ephemeral, session, persistent, tier_of}
use qu_v.Store.{
  Stored, Kept, kept_doc, kept_id, Change, StoreError, missing_id, unknown_tier, missing_session,
  bad_cursor, ApStore, PutOptions, object_key, index_key, index_key_prefix, doc_id, read_record,
  write_record, erase_record, as_id,
}

-- What a call leaves behind: the store, and the value returned or the exception thrown.
pub data Result (A : Type 0) : Type 0 where
  returned : A → Result A
  thrown : StoreError → Result A

unfoldable pub emit : {S : Type 0} → ApStore S → Change → ApStore S
emit s c = record s { changes = s.changes ++ c ∷ [] }

-- EPHEMERAL_DEDUP_TTL_MS
abbrev pub ephemeral_dedup_ttl_ms : ℕ
ephemeral_dedup_ttl_ms = 30000

-- SESSION_SAFETY_NET_TTL_MS
abbrev pub session_safety_net_ttl_ms : ℕ
session_safety_net_ttl_ms = 24 * 60 * 60 * 1000

-- The constructor with its default volatile adapters and a fresh bus.
unfoldable pub create : {S : Type 0} → S → ApStore S
create a = record {
  adapter = a;
  volatile = Volatile.create session_safety_net_ttl_ms;
  dedup = Volatile.create ephemeral_dedup_ttl_ms;
  changes = [];
}

-- session/${sessionId}/
unfoldable pub session_prefix : Text → Text
session_prefix sid = codes "session/" ++ (sid ++ codes "/")

-- The loop over the collections in the session branch of put().
unfoldable pub index_session :
    List Text
    → Text
    → ℕ
    → Text
    → ℕ
    → Volatile.Volatile Kept
    → Volatile.Volatile Kept × Option Cursor.CursorError
unfolding index_key
index_session [] sid ts id now v = (v, none)
index_session (c ∷ cs) sid ts id now v = elim (index_key c ts id) [
  | Cursor.ok k ↦
      index_session cs sid ts id now (Volatile.put v (session_prefix sid ++ k) (kept_id id) now)
  | Cursor.err e ↦ (v, some e)
]

-- entries.filter((entry) => entry.key > sinceKey)
unfoldable pub entries_after : Text → List (Text × Stored) → List (Text × Stored)
entries_after since [] = []
entries_after since ((k, v) ∷ es) =
    let rest = entries_after since es in if text_ltb since k then (k, v) ∷ rest else rest

-- sinceCursor ? … : entries, where an empty cursor counts as none
unfoldable pub since_entries : Text → Option Text → List (Text × Stored) → List (Text × Stored)
unfolding entries_after
since_entries prefix none es = es
since_entries prefix (some since) es =
    if length since == 0 then es else entries_after (prefix ++ since) es

-- limit is finite ? after.slice(0, limit) : after
unfoldable pub cut : Option ℕ → List (Text × Stored) → List (Text × Stored)
cut none es = es
cut (some n) es = take n es

-- if (!sessionId) throw
unfoldable pub with_session :
    {S : Type 0}
    → Option Text
    → ApStore S
    → (Text → ApStore S × Result Value)
    → ApStore S × Result Value
with_session none s f = (s, thrown missing_session)
with_session (some sid) s f = if length sid == 0 then (s, thrown missing_session) else f sid

module _ {S : Type 0} (o : Operations S Stored) where
  unfoldable pub put_ephemeral :
      ApStore S → Text → Value → PutOptions → ℕ → ApStore S × Result Value
  unfolding emit
  put_ephemeral s id doc opts now =
      let (d, already_seen) = Volatile.has s.dedup id now in
      let t = record s { dedup = Volatile.put d id true now } in
      (
        if already_seen
            then t
            else emit t (record {
              id = id;
              doc = some doc;
              tier = ephemeral;
              collections = opts.collections;
              session_id = none;
              ts = none;
            }),
        returned doc,
      )

  -- After the guard: `sid` is the session id that was given.
  unfoldable pub put_session :
      ApStore S → Text → Value → PutOptions → Text → ℕ → ApStore S × Result Value
  unfolding emit index_session session_prefix object_key
  put_session s id doc opts sid now =
      let kept = Volatile.put s.volatile (session_prefix sid ++ object_key id) (kept_doc doc) now in
      let (v, failure) = index_session opts.collections sid opts.ts id now kept in
      let t = record s { volatile = v } in
      elim failure [
        | some e ↦ (t, thrown (bad_cursor e))
        | none ↦ (
          emit t (record {
            id = id;
            doc = some doc;
            tier = session;
            collections = opts.collections;
            session_id = some sid;
            ts = some opts.ts;
          }),
          returned doc,
        )
      ]

  unfoldable pub put_persistent : ApStore S → Text → Value → PutOptions → ApStore S × Result Value
  unfolding emit write_record
  put_persistent s id doc opts =
      let (a, failure) =
        write_record o s.adapter id
          (record { ts = opts.ts; doc = doc; collections = opts.collections }) in
      let t = record s { adapter = a } in
      elim failure [
        | some e ↦ (t, thrown (bad_cursor e))
        | none ↦ (
          emit t (record {
            id = id;
            doc = some doc;
            tier = persistent;
            collections = opts.collections;
            session_id = none;
            ts = some opts.ts;
          }),
          returned doc,
        )
      ]

  unfoldable pub put_as :
      Tier → ApStore S → Text → Value → PutOptions → ℕ → ApStore S × Result Value
  unfolding put_ephemeral put_session put_persistent with_session
  put_as ephemeral s id doc opts now = put_ephemeral s id doc opts now
  put_as session s id doc opts now =
      with_session opts.session_id s (λ sid. put_session s id doc opts sid now)
  put_as persistent s id doc opts now = put_persistent s id doc opts

  -- put(doc, options) at the time `now`
  unfoldable pub put : ApStore S → Value → PutOptions → ℕ → ApStore S × Result Value
  unfolding put_as doc_id tier_of
  put s doc opts now = elim (doc_id doc) [
    | none ↦ (s, thrown missing_id)
    | some id ↦ elim (tier_of opts.durability) [
      | none ↦ (s, thrown unknown_tier)
      | some tier ↦ put_as tier s id doc opts now
    ]
  ]

  -- get(id)
  unfoldable pub get : ApStore S → Text → Option Value
  unfolding read_record
  get s id = Option.map (λ r. r.doc) (read_record o s.adapter id)

  -- delete(id)
  unfoldable pub delete : ApStore S → Text → ApStore S × Result (Unit {0})
  unfolding read_record erase_record emit
  delete s id = elim (read_record o s.adapter id) [
    | none ↦ (s, returned tt)
    | some r ↦
        let (a, failure) = erase_record o s.adapter id r in
        let t = record s { adapter = a } in
        elim failure [
          | some e ↦ (t, thrown (bad_cursor e))
          | none ↦ (
            emit t (record {
              id = id;
              doc = none;
              tier = persistent;
              collections = r.collections;
              session_id = none;
              ts = none;
            }),
            returned tt,
          )
        ]
  ]

  -- The documents of listed entries that are still there.
  unfoldable pub documents : S → List (Text × Stored) → List Value
  unfolding read_record as_id
  documents a [] = []
  documents a ((k, v) ∷ es) =
      let rest = documents a es in
      elim (read_record o a (as_id v)) [ none ↦ rest | some r ↦ r.doc ∷ rest ]

  -- getChildren(collectionId, { limit }); a limit of none is Infinity
  unfoldable pub get_children : ApStore S → Text → Option ℕ → List Value
  unfolding documents index_key_prefix
  get_children s c limit = documents s.adapter (o.list s.adapter (index_key_prefix c) limit true)

  -- Each entry with the part of its key behind the prefix.
  unfoldable pub cursors_and_docs : S → Text → List (Text × Stored) → List (Text × Value)
  unfolding read_record as_id
  cursors_and_docs a prefix [] = []
  cursors_and_docs a prefix ((k, v) ∷ es) =
      let rest = cursors_and_docs a prefix es in
      elim (read_record o a (as_id v)) [
        | none ↦ rest
        | some r ↦ (drop (length prefix) k, r.doc) ∷ rest
      ]

  -- getChildrenSince(collectionId, sinceCursor, { limit })
  unfoldable pub get_children_since :
      ApStore S → Text → Option Text → Option ℕ → List (Text × Value)
  unfolding cursors_and_docs cut since_entries index_key_prefix
  get_children_since s c since limit =
      let prefix = index_key_prefix c in
      cursors_and_docs s.adapter prefix
        (cut limit (since_entries prefix since (o.list s.adapter prefix none false)))

-- A listed value as it stands in a template string.
unfoldable pub kept_text : Kept → Text
kept_text (kept_id id) = id
kept_text (kept_doc d) = codes "[object Object]"

unfoldable pub kept_value : Kept → Value
kept_value (kept_id id) = text id
kept_value (kept_doc d) = d

-- The documents of a session's listed entries that are still kept.
unfoldable pub session_documents :
    Text → List (Text × Kept) → Volatile.Volatile Kept → ℕ → List Value
unfolding object_key session_prefix kept_text kept_value truthy
session_documents sid [] v now = []
session_documents sid ((k, e) ∷ es) v now =
    let rest = session_documents sid es v now in
    elim (Volatile.get v (session_prefix sid ++ object_key (kept_text e)) now).1 [
      | none ↦ rest
      | some d ↦ if truthy (kept_value d) then kept_value d ∷ rest else rest
    ]

-- getSessionChildren(sessionId, collectionId, { limit }) at the time `now`
unfoldable pub get_session_children :
    {S : Type 0} → ApStore S → Text → Text → Option ℕ → ℕ → List Value
unfolding session_documents session_prefix index_key_prefix
get_session_children s sid c limit now =
    let (v, es) =
      Volatile.list s.volatile (session_prefix sid ++ index_key_prefix c) limit true now in
    session_documents sid es v now

-- endSession(sessionId)
unfoldable pub end_session : {S : Type 0} → ApStore S → Text → ApStore S
unfolding session_prefix
end_session s sid = record s { volatile = Volatile.clear s.volatile (session_prefix sid) }
