-- ===== src/Relay/Accepts/Follows.antt =====
-- A Follow, from the inbox to the queue.
use qu_v.Prelude.{
  ℕ, ◌<◌, ◌≡◌, ◌≢◌, refl, sym, ap, ◌∙◌, subst, Bool, true, false, Text, codes, none, some, [], ◌∷◌,
  ◌++◌, text_eq, text_dec, Bool-cases, length, length-append, reverse, ◌==◌, arith,
}
use qu_v.Core.Storage
use qu_v.Core.Storage.{Operations}
use qu_v.Core.Cursor.RoundTrip.{ts_limit}
use qu_v.As2.Value.{Value, get_field, lookup_field, as_text}
use qu_v.As2.Id.{drop_slash, id_text}
use qu_v.Store.{Stored, ApStore, PutOptions, doc_id}
use qu_v.As2.Vocabulary.{tier_of}
use qu_v.Store.Keys.{IsClean}
use qu_v.Store.View.{View, Represents, IsIndexable, update}
use qu_v.Store.Methods
use qu_v.Store.Methods.{put, emit}
use qu_v.Store.Calls.{tier_of-persistent, put_change, record_of, put-persistent}
use qu_v.Delivery.Entry.{Entry, entry_value}
use qu_v.Delivery.Queue.{Settings, options_at, entry_id_for, activity_id, enqueue}
use qu_v.Delivery.Queue.Process.{doc_id-entry_value}
use qu_v.Ingest.{Request, accepted, Resolved, has_embedded_object, ingest_activity}
use qu_v.Ingest.Trust.{IsAuthentic}
use qu_v.Ingest.Effects.{activity_record, ingest_activity-plain}
use qu_v.Relay.Accepts.{
  Acceptor, follows, follower_of, accept_id, accept_of, queued, outbox_options, reaction_to, accept,
  on_persisted,
}

id_text-ne : (a c l : Text) → length (id_text a c l) == 0 ≡ false
unfolding id_text
id_text-ne a c l =
    ground (arith, length-append (reverse (drop_slash (reverse a))) (b'/' ∷ (c ++ b'/' ∷ l)))

accept-id :
    (actor : Acceptor) (activity : Value) (follower local_id : Text)
    → doc_id (accept_of actor activity follower local_id) ≡ some (accept_id actor local_id)
unfolding doc_id accept_of get_field lookup_field as_text text_dec Bool-cases text_eq
accept-id actor activity follower local_id =
    rw (id_text-ne actor.id (codes "activities") local_id) refl

entry_id-ne : (c a : Text) → ◌≢◌ {A = Text} (entry_id_for c a) []
unfolding entry_id_for
entry_id-ne c a = cc

module _ {S : Type 0} (o : Operations S Stored) (Ok : S → Type 0)
    (laws : Storage.Laws S Stored o Ok) (c : Settings) (actor : Acceptor) where
  -- The queue's entry for an Accept, as enqueue() at `later` makes it.
  abbrev pub entry_for : Value → Text → ℕ → Entry
  entry_for doc follower later = record {
    id = entry_id_for c.collection_id (activity_id doc);
    activity = doc;
    recipients = follower ∷ [];
    attempts = 0;
    next_attempt_at = later;
    last_error = none;
  }

  abbrev pub queue_entry : Value → Text → ℕ → Value
  queue_entry doc follower later = entry_value (entry_for doc follower later)

  -- The view with the Accept in the outbox and its delivery in the queue.
  abbrev pub answered : View → Value → Text → Text → ℕ → ℕ → View
  answered m activity follower local_id now later =
      let doc = accept_of actor activity follower local_id in
      update
        (update m (accept_id actor local_id) (some (record_of doc (outbox_options o c actor now))))
        (entry_id_for c.collection_id (activity_id doc))
        (some (record_of (queue_entry doc follower later) (options_at o c later)))

  put-stored :
      (s : ApStore S) (m : View) (doc : Value) (id : Text) (opts : PutOptions) (now : ℕ)
      → Represents o Ok s.adapter m
      → doc_id doc ≡ some id
      → opts.durability ≡ codes "persistent"
      → IsIndexable (record_of doc opts)
      → (t : ApStore S) × (put o s doc opts now ≡ (t, Methods.returned doc))
        × Represents o Ok t.adapter (update m id (some (record_of doc opts)))
  unfolding emit
  put-stored s m doc id opts now rep e d x =
      let (b, q, u) =
        put-persistent o Ok laws s m doc id opts now rep e (ap tier_of d ∙ tier_of-persistent) x in
      (emit (record s { adapter = b }) (put_change id doc opts), q, u)

  accept-answered :
      (s : ApStore S) (m : View) (activity : Value) (follower local_id : Text) (now later : ℕ)
      → Represents o Ok s.adapter m
      → IsClean actor.outbox
      → IsClean c.collection_id
      → now < ts_limit
      → later < ts_limit
      → ((accept o c actor s activity follower local_id now later).1
          ≡ queued (queue_entry (accept_of actor activity follower local_id) follower later))
        × Represents o Ok
            (accept o c actor s activity follower local_id now later).0.adapter
            (answered m activity follower local_id now later)
  unfolding accept enqueue
  accept-answered s m activity follower local_id now later rep h k l n =
      let doc = accept_of actor activity follower local_id in
      let id = accept_id actor local_id in
      let (t, q, u) =
        put-stored s m doc id (outbox_options o c actor now) now rep
          (accept-id actor activity follower local_id) refl
          (record { clean = (h, tt); fits = l }) in
      let entry_id = entry_id_for c.collection_id (activity_id doc) in
      let (t', q', u') =
        put-stored t (update m id (some (record_of doc (outbox_options o c actor now))))
          (queue_entry doc follower later) entry_id (options_at o c later) later u
          (doc_id-entry_value (entry_for doc follower later)
            (entry_id-ne c.collection_id (activity_id doc)))
          refl (record { clean = (k, tt); fits = n }) in
      let run : accept o c actor s activity follower local_id now later
          ≡ reaction_to o c actor (enqueue o c t doc (follower ∷ []) later) =
        rw (ap (λ w. w.1) q, accept, ap (λ w. w.0) q) refl in
      let whole = run ∙ ap (reaction_to o c actor) q' in
      (
        ap (λ w. w.1) whole,
        subst (λ w. Represents o Ok w.0.adapter (answered m activity follower local_id now later))
            (sym whole) u',
      )

  -- An authentic Follow of the relay's actor, by a follower with an id, that is ingested on a store
  -- that represents a view, and then handed to the handler: the pipeline accepts it, the handler queues
  -- a delivery, and the store represents the view with the Follow in the inbox, with the Accept in the
  -- actor's outbox, and with the entry for its delivery to the follower in the queue. The Follow has an
  -- id, the ids of the three collections are clean, and the times fit in a cursor.
  pub follow-answered :
      {K : Type 0} (resolve : Text → Resolved K) (verify : Request → K → Bool) (s : ApStore S)
      (m : View) (r : Request) (ingested now later : ℕ) (id follower local_id : Text)
      → IsAuthentic o resolve verify r
      → Represents o Ok s.adapter m
      → doc_id r.activity ≡ some id
      → has_embedded_object r.activity ≡ false
      → follows r.activity actor.id ≡ true
      → follower_of r.activity ≡ some follower
      → IsClean r.target_collection × IsClean actor.outbox × IsClean c.collection_id
      → (ingested < ts_limit) × (now < ts_limit) × (later < ts_limit)
      → ((ingest_activity o resolve verify s r ingested).outcome ≡ accepted r.activity)
        × ((on_persisted o c actor
              (ingest_activity o resolve verify s r ingested).store
              r.activity
              local_id
              now
              later).1
            ≡ queued (queue_entry (accept_of actor r.activity follower local_id) follower later))
        × Represents o Ok
            (on_persisted o c actor
              (ingest_activity o resolve verify s r ingested).store
              r.activity
              local_id
              now
              later).0.adapter
            (answered
              (update m id (some (activity_record r ingested)))
              r.activity
              follower
              local_id
              now
              later)
  unfolding on_persisted
  follow-answered resolve verify s m r ingested now later id follower local_id x rep e h f g k l =
      let (a, u) =
        ingest_activity-plain o Ok laws resolve verify s m r ingested id x rep e h k.0 l.0 in
      let t = (ingest_activity o resolve verify s r ingested).store in
      let (q, w) =
        accept-answered t (update m id (some (activity_record r ingested))) r.activity follower
          local_id now later u k.1 k.2 l.1 l.2 in
      let run : on_persisted o c actor t r.activity local_id now later
          ≡ accept o c actor t r.activity follower local_id now later =
        rw (f, on_persisted, g) refl in
      (
        a,
        ap (λ z. z.1) run ∙ q,
        subst
            (λ z. Represents o Ok z.0.adapter (
              answered (update m id (some (activity_record r ingested))) r.activity follower
                local_id now later))
            (sym run) w,
      )
