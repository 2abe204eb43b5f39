-- ===== src/Store/Calls.antt =====
-- What the calls put(), get() and delete() do to the abstract store and to the bus.
use mathlib.Core.Option
use qu_v.Prelude.{
  codes, text_eq, ℕ, ◌+◌, ◌≤◌, ◌≡◌, ◌≢◌, refl, ap, ◌∙◌, Bool, true, false, Text, none, some, [],
  ◌∷◌, ◌++◌, if◌then◌else◌, ltb, if_pos, text_dec, arith,
}
use qu_v.Core.Storage
use qu_v.Core.Storage.{Operations}
use qu_v.Core.Volatile
use qu_v.Core.Volatile.Expiry.{IsValid, get-put_ttl, prune-IsValid}
use qu_v.As2.Value.{Value}
use qu_v.As2.Vocabulary.{ephemeral, persistent, tier_of}
use qu_v.Store.{
  Stored, Record, Change, ApStore, PutOptions, doc_id, write_record, erase_record, read_record,
}
use qu_v.Store.View.{View, Represents, IsIndexable, update}
use qu_v.Store.Methods.{returned, emit, put, put_as, put_ephemeral, put_persistent, get, delete}
use qu_v.Store.Refines.{read_record-view, write_record-Represents}
use qu_v.Store.Erases.{erase_record-Represents}

-- The record that a persistent put() of `doc` writes.
abbrev pub record_of : Value → PutOptions → Record
record_of doc opts = record { ts = opts.ts; doc = doc; collections = opts.collections }

-- The events of put() and delete().
abbrev pub put_change : Text → Value → PutOptions → Change
put_change id doc opts = record {
  id = id;
  doc = some doc;
  tier = persistent;
  collections = opts.collections;
  session_id = none;
  ts = some opts.ts;
}

abbrev pub delete_change : Text → Record → Change
delete_change id r = record {
  id = id;
  doc = none;
  tier = persistent;
  collections = r.collections;
  session_id = none;
  ts = none;
}

abbrev pub ephemeral_change : Text → Value → PutOptions → Change
ephemeral_change id doc opts = record {
  id = id;
  doc = some doc;
  tier = ephemeral;
  collections = opts.collections;
  session_id = none;
  ts = none;
}

-- The durability that put() defaults to.
pub tier_of-persistent : tier_of (codes "persistent") ≡ some persistent
unfolding tier_of text_eq
tier_of-persistent = refl

doc_id-ne : (doc : Value) (id : Text) → doc_id doc ≡ some id → id ≢ []
unfolding doc_id
doc_id-ne doc id e n = ground (arith, e, n)

module _ {S : Type 0} (o : Operations S Stored) (Ok : S → Type 0)
    (laws : Storage.Laws S Stored o Ok) where
  put-runs :
      (s : ApStore S) (b : S) (doc : Value) (id : Text) (opts : PutOptions) (now : ℕ)
      → doc_id doc ≡ some id
      → tier_of opts.durability ≡ some persistent
      → write_record o s.adapter id (record_of doc opts) ≡ (b, none)
      → put o s doc opts now
        ≡ (emit (record s { adapter = b }) (put_change id doc opts), returned doc)
  unfolding put put_as put_persistent
  put-runs s b doc id opts now e p q =
      rw (e, put, p, put_as, put_persistent, ap (λ w. w.1) q, ap (λ w. w.0) q) refl

  delete-runs :
      (s : ApStore S) (b : S) (id : Text) (r : Record)
      → read_record o s.adapter id ≡ some r
      → erase_record o s.adapter id r ≡ (b, none)
      → delete o s id ≡ (emit (record s { adapter = b }) (delete_change id r), returned tt)
  unfolding delete
  delete-runs s b id r e q = rw (e, delete, ap (λ w. w.1) q, ap (λ w. w.0) q) refl

  delete-absent :
      (s : ApStore S) (id : Text)
      → read_record o s.adapter id ≡ none
      → delete o s id ≡ (s, returned tt)
  unfolding delete
  delete-absent s id e = rw (e, delete) refl

  -- On a store that represents a view, a persistent put() of a document with an id, whose timestamp
  -- and collections the index can hold, returns the document, appends exactly one event, and leaves
  -- an adapter that represents the view updated at that id.
  pub put-persistent :
      (s : ApStore S) (m : View) (doc : Value) (id : Text) (opts : PutOptions) (now : ℕ)
      → Represents o Ok s.adapter m
      → doc_id doc ≡ some id
      → tier_of opts.durability ≡ some persistent
      → IsIndexable (record_of doc opts)
      → (b : S) × (put o s doc opts now
          ≡ (emit (record s { adapter = b }) (put_change id doc opts), returned doc))
        × Represents o Ok b (update m id (some (record_of doc opts)))
  put-persistent s m doc id opts now rep e p x =
      let (b, q, u) =
        write_record-Represents o Ok laws s.adapter m id (record_of doc opts) rep
          (doc_id-ne doc id e) x in
      (b, put-runs s b doc id opts now e p q, u)

  -- On a store that represents a view, get() returns the document of the record that the view has
  -- for the id, and none where it has no record.
  pub get-view :
      (s : ApStore S) (m : View) (id : Text)
      → Represents o Ok s.adapter m
      → get o s id ≡ Option.map (λ r. r.doc) (m id)
  unfolding get
  get-view s m id rep = rw (read_record-view o Ok laws s.adapter m id rep) refl

  -- On a store that represents a view, delete() of an id that has a record leaves an adapter that
  -- represents the view without that id, and appends one event, whose document is null.
  pub delete-view :
      (s : ApStore S) (m : View) (id : Text) (r : Record)
      → Represents o Ok s.adapter m
      → m id ≡ some r
      → (b : S) × (delete o s id
          ≡ (emit (record s { adapter = b }) (delete_change id r), returned tt))
        × Represents o Ok b (update m id none)
  delete-view s m id r rep e =
      let (b, q, u) = erase_record-Represents o Ok laws s.adapter m id r rep e in
      (b, delete-runs s b id r (read_record-view o Ok laws s.adapter m id rep ∙ e) q, u)

  -- On a store that represents a view, delete() of an id without a record changes nothing and emits
  -- nothing.
  pub delete-unknown :
      (s : ApStore S) (m : View) (id : Text)
      → Represents o Ok s.adapter m
      → m id ≡ none
      → delete o s id ≡ (s, returned tt)
  delete-unknown s m id rep e =
      delete-absent s id (read_record-view o Ok laws s.adapter m id rep ∙ e)

module _ {S : Type 0} (o : Operations S Stored) (s : ApStore S) (id : Text) (d : Value)
    (p : PutOptions) (t : ℕ) where
  put_ephemeral-adapter : (put_ephemeral o s id d p t).0.adapter ≡ s.adapter
  unfolding put_ephemeral emit
  put_ephemeral-adapter = ground arith

  put_ephemeral-dedup :
      (put_ephemeral o s id d p t).0.dedup ≡ Volatile.put (Volatile.has s.dedup id t).0 id true t
  unfolding put_ephemeral emit
  put_ephemeral-dedup = ground arith

  put_ephemeral-changes : (put_ephemeral o s id d p t).0.changes ≡ (
      if (Volatile.has s.dedup id t).1
      then s.changes
      else s.changes ++ ephemeral_change id d p ∷ [])
  unfolding put_ephemeral emit
  put_ephemeral-changes = ground arith

is_some-if : (b : Bool) → Volatile.is_some (if b then some true else none) ≡ b
unfolding Volatile.is_some
is_some-if true = refl
is_some-if false = refl

-- An entry put at `t` is seen at `u` exactly within the adapter's window.
has-put :
    (a : Volatile.Volatile Bool) (k : Text) (t u : ℕ)
    → IsValid a
    → t ≤ u
    → (Volatile.has (Volatile.put (Volatile.has a k t).0 k true t) k u).1
      ≡ ltb u (t + a.default_ttl_ms)
unfolding Volatile.has Volatile.put Volatile.get Volatile.prune
has-put a k t u v h =
    ap Volatile.is_some (
      get-put_ttl (Volatile.prune t a) k k true a.default_ttl_ms t u (prune-IsValid a t v) h
      ∙ if_pos (text_dec k k) refl (if ltb u (t + a.default_ttl_ms) then some true else none) _)
    ∙ is_some-if (ltb u (t + a.default_ttl_ms))

-- In a dedup adapter with distinct keys, two ephemeral puts of the same id, the second at a time no earlier than the first: neither
-- touches the persistent adapter, and the second one emits its event exactly when the dedup
-- window, counted from the first, has passed.
pub put_ephemeral-twice :
    {S : Type 0} (o : Operations S Stored) (s : ApStore S) (id : Text) (d e : Value)
    (p q : PutOptions) (t u : ℕ)
    → IsValid s.dedup
    → t ≤ u
    → let first = (put_ephemeral o s id d p t).0 in
      let second = (put_ephemeral o first id e q u).0 in
      (second.adapter ≡ s.adapter)
      × (second.changes ≡ (
          if ltb u (t + s.dedup.default_ttl_ms)
          then first.changes
          else first.changes ++ ephemeral_change id e q ∷ []))
put_ephemeral-twice o s id d e p q t u v h =
    let first = (put_ephemeral o s id d p t).0 in
    (
      put_ephemeral-adapter o first id e q u ∙ put_ephemeral-adapter o s id d p t,
      put_ephemeral-changes o first id e q u
          ∙ ap (λ b. if b then first.changes else first.changes ++ ephemeral_change id e q ∷ [])
              (ap (λ x. (Volatile.has x id u).1) (put_ephemeral-dedup o s id d p t)
                ∙ has-put s.dedup id t u v h),
    )
