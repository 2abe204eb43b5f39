-- ===== src/Ingest/Effects.antt =====
-- What the pipeline stores of an authentic request.
use qu_v.Prelude.{
  ℕ, ◌<◌, ◌≡◌, refl, sym, ap, ◌∙◌, subst, Bool, true, false, Text, codes, none, some, [], ◌∷◌,
}
use qu_v.Core.Storage
use qu_v.Core.Storage.{Operations}
use qu_v.Core.Cursor.RoundTrip.{ts_limit}
use qu_v.As2.Value.{Value, get_field}
use qu_v.Store.{Stored, ApStore, PutOptions, Record, doc_id}
use qu_v.Store.Keys.{IsClean}
use qu_v.Store.View.{View, Represents, IsIndexable, update}
use qu_v.Store.Methods
use qu_v.Store.Methods.{emit, put}
use qu_v.Store.Calls.{tier_of-persistent, put_change, put-persistent}
use qu_v.Ingest.{
  Request, accepted, Resolved, has_embedded_object, put_object, persist, authorize, ingest_activity,
  finish,
}
use qu_v.Ingest.Trust.{IsAuthentic}

-- The records that ingesting at `now` writes: the activity's, in the inbox, and the object's, in no
-- collection.
abbrev pub activity_record : Request → ℕ → Record
activity_record r now = record {
  ts = now;
  doc = r.activity;
  collections = r.target_collection ∷ [];
}

abbrev pub object_record : Request → ℕ → Record
object_record r now = record {
  ts = now;
  doc = get_field r.activity (codes "object");
  collections = [];
}

options_of : Record → PutOptions
options_of r = record {
  collections = r.collections;
  durability = codes "persistent";
  session_id = none;
  ts = r.ts;
}

module _ {S K : Type 0} (o : Operations S Stored) (Ok : S → Type 0)
    (laws : Storage.Laws S Stored o Ok) (resolve : Text → Resolved K)
    (verify : Request → K → Bool) where
  ingest_activity-persist :
      (s : ApStore S) (r : Request) (now : ℕ)
      → IsAuthentic o resolve verify r
      → ingest_activity o resolve verify s r now ≡ persist o resolve verify s r now
  unfolding ingest_activity authorize
  ingest_activity-persist s r now x =
      rw (x.body, ingest_activity, x.names, x.resolved, x.verified, authorize, x.asserts, x.own)
        refl

  -- A put of a record, as the pipeline makes it.
  put-record :
      (s : ApStore S) (m : View) (id : Text) (r : Record) (now : ℕ)
      → Represents o Ok s.adapter m
      → doc_id r.doc ≡ some id
      → IsIndexable r
      → (t : ApStore S) × (put o s r.doc (options_of r) now ≡ (t, Methods.returned r.doc))
        × Represents o Ok t.adapter (update m id (some r))
  unfolding emit options_of
  put-record s m id r now rep e x =
      let (b, q, u) =
        put-persistent o Ok laws s m r.doc id (options_of r) now rep e tier_of-persistent x in
      (emit (record s { adapter = b }) (put_change id r.doc (options_of r)), q, u)

  persist-runs :
      (s t u : ApStore S) (r : Request) (d : Value) (now : ℕ)
      → put o s r.activity (options_of (activity_record r now)) now
        ≡ (t, Methods.returned r.activity)
      → put_object o resolve verify t r.activity now ≡ (u, Methods.returned d)
      → persist o resolve verify s r now ≡ finish o resolve verify u r.activity
  unfolding persist options_of
  persist-runs s t u r d now e f =
      rw
        (
          ap (λ w. w.1) e,
          persist,
          ap (λ w. w.0) e,
          ap (λ w. w.1) f,
          ap (λ w. w.0) e,
          ap (λ w. w.0) f,
        )
        refl

  put_object-embedded :
      (t : ApStore S) (r : Request) (now : ℕ)
      → has_embedded_object r.activity ≡ true
      → put_object o resolve verify t r.activity now
        ≡ put o t (get_field r.activity (codes "object")) (options_of (object_record r now)) now
  unfolding put_object options_of
  put_object-embedded t r now e = rw (e, put_object) refl

  -- On a store that represents a view, an authentic Create with an id, whose object has an id, is
  -- accepted when the inbox's id is clean and the time fits in a cursor. The store then represents
  -- the view with the activity at its id, in the inbox, and the object at its own id, in no
  -- collection, whatever record stood there before.
  pub ingest_activity-Create :
      (s : ApStore S) (m : View) (r : Request) (now : ℕ) (id object_id : Text)
      → IsAuthentic o resolve verify r
      → Represents o Ok s.adapter m
      → doc_id r.activity ≡ some id
      → has_embedded_object r.activity ≡ true
      → doc_id (get_field r.activity (codes "object")) ≡ some object_id
      → IsClean r.target_collection
      → now < ts_limit
      → ((ingest_activity o resolve verify s r now).outcome ≡ accepted r.activity)
        × Represents o Ok (ingest_activity o resolve verify s r now).store.adapter (
            update
              (update m id (some (activity_record r now)))
              object_id
              (some (object_record r now)))
  unfolding finish
  ingest_activity-Create s m r now id object_id x rep e h f c l =
      let (t, p, u) =
        put-record s m id (activity_record r now) now rep e
          (record { clean = (c, tt); fits = l }) in
      let (v, q, w) =
        put-record t (update m id (some (activity_record r now))) object_id (object_record r now)
          now u f (record { clean = tt; fits = l }) in
      let run =
        ingest_activity-persist s r now x
        ∙ persist-runs s t v r (get_field r.activity (codes "object")) now p
            (put_object-embedded t r now h ∙ q) in
      (
        ap (λ z. z.outcome) run,
        subst
            (λ z. Represents o Ok z.store.adapter (
              update (update m id (some (activity_record r now))) object_id
                (some (object_record r now))))
            (sym run) w,
      )

  put_object-plain :
      (t : ApStore S) (r : Request) (now : ℕ)
      → has_embedded_object r.activity ≡ false
      → put_object o resolve verify t r.activity now ≡ (t, Methods.returned r.activity)
  unfolding put_object
  put_object-plain t r now e = rw (e, put_object) refl

  -- On a store that represents a view, any other authentic activity with an id is accepted under the
  -- same conditions, and the store then represents the view with the activity at its id, in the inbox.
  pub ingest_activity-plain :
      (s : ApStore S) (m : View) (r : Request) (now : ℕ) (id : Text)
      → IsAuthentic o resolve verify r
      → Represents o Ok s.adapter m
      → doc_id r.activity ≡ some id
      → has_embedded_object r.activity ≡ false
      → IsClean r.target_collection
      → now < ts_limit
      → ((ingest_activity o resolve verify s r now).outcome ≡ accepted r.activity)
        × Represents o Ok
            (ingest_activity o resolve verify s r now).store.adapter
            (update m id (some (activity_record r now)))
  unfolding finish
  ingest_activity-plain s m r now id x rep e h c l =
      let (t, p, u) =
        put-record s m id (activity_record r now) now rep e
          (record { clean = (c, tt); fits = l }) in
      let run =
        ingest_activity-persist s r now x
        ∙ persist-runs s t t r r.activity now p (put_object-plain t r now h) in
      (
        ap (λ z. z.outcome) run,
        subst (λ z. Represents o Ok z.store.adapter (update m id (some (activity_record r now))))
            (sym run) u,
      )
