-- ===== src/Relay/Bridge/Broadcast.antt =====
-- Whom a change reaches, and what the test for a peer's own collections lets through.
use qu_v.Prelude.{
  ℕ, ◌≡◌, ◌↔◌, refl, sym, ap, ap₂, ◌∙◌, ◌<◌, subst, inl, inr, true, Text, codes, some, List, [],
  ◌∷◌, In, Bool-cases, Option-cases,
}
use qu_v.Core.Cursor
use qu_v.Core.JsMap.{Entries, find}
use qu_v.Core.Storage.{Operations}
use qu_v.As2.Vocabulary.{includes, tier_of}
use qu_v.As2.Audience.Recipients.{includes_iff}
use qu_v.Store.{Stored, Change, doc_id}
use qu_v.Store.Methods.{put, emit}
use qu_v.Store.View.{View, Represents, IsIndexable, update}
use qu_v.Store.Calls.{record_of, put-persistent, tier_of-persistent}
use qu_v.Core.Cursor.RoundTrip.{ts_limit}
use qu_v.Core.Storage
use qu_v.Realtime.{DataFrame, Frame, data_frame, build_data_frame}
use qu_v.Relay.Registry.{Registry}
use qu_v.Relay.Bridge.{
  PeerState, Bridge, every_own, actor_of, some_subscribed, is_relevant, to_peers, broadcast,
  options_of, changed_to, on_data, on_frame, on_message,
}

some_subscribed_iff :
    (subs cs : List Text) → (some_subscribed subs cs ≡ true) ↔ ((c : Text) × In c cs × In c subs)
unfolding some_subscribed
some_subscribed_iff subs [] = ((λ h. cc), (λ h. absurd h.1))
some_subscribed_iff subs (c ∷ cs) = elim (Bool-cases (includes subs c)) [
  | inl t ↦ rw (t, some_subscribed) ((λ h. (c, inl refl, (includes_iff subs c).0 t)), (λ h. refl))
  | inr f ↦
      rw (f, some_subscribed)
        (
          (λ h. let (x, m, n) = (some_subscribed_iff subs cs).0 h in (x, inr m, n)),
          (λ h.
              let (x, m, n) = h in
              elim m [
                | inl e ↦ cc ((includes_iff subs c).1 (subst (λ z. In z subs) e n), f)
                | inr r ↦ (some_subscribed_iff subs cs).1 (x, r, n)
              ]),
        )
]

-- A peer that has said who it is and subscribes to one of the collections.
pub record Listens (st : PeerState) (cs : List Text) : Type 0 where
  pub actor : Text
  pub said : actor_of st ≡ some actor
  pub collection : Text
  pub changed : In collection cs
  pub subscribed : In collection st.subscriptions

is_relevant_iff : (st : PeerState) (cs : List Text) → (is_relevant st cs ≡ true) ↔ Listens st cs
unfolding is_relevant
is_relevant_iff st cs = elim (Option-cases (actor_of st)) [
  | inl e ↦ rw (e, is_relevant) ((λ h. cc), (λ h. cc (h.said, e)))
  | inr (a, e) ↦
      rw (e, is_relevant)
        (
          (λ h.
              let (c, m, n) = (some_subscribed_iff st.subscriptions cs).0 h in
              record { actor = a; said = e; collection = c; changed = m; subscribed = n }),
          (λ h.
              (some_subscribed_iff st.subscriptions cs).1 (h.collection, h.changed, h.subscribed)),
        )
]

In-to_peers :
    (ps : Entries PeerState) (cs : List Text) (f g : Frame) (p : Text)
    → In (p, g) (to_peers ps cs f) ↔ ((st : PeerState) × In (p, st) ps × Listens st cs × (g ≡ f))
unfolding to_peers
In-to_peers [] cs f g p = ((λ h. absurd h), (λ h. absurd h.1))
In-to_peers ((q, st) ∷ ps) cs f g p = elim (Bool-cases (is_relevant st cs)) [
  | inl t ↦
      rw (t, to_peers)
        (
          (λ h. elim h [
            | inl e ↦
                (st, inl (ap (λ z. (z.0, st)) e), (is_relevant_iff st cs).0 t, ap (λ z. z.1) e)
            | inr r ↦ let (x, m, l, e) = (In-to_peers ps cs f g p).0 r in (x, inr m, l, e)
          ]),
          (λ h.
              let (x, m, l, e) = h in
              elim m [
                | inl y ↦ inl (ap₂ (λ a b. (a, b)) (ap (λ z. z.0) y) e)
                | inr r ↦ inr ((In-to_peers ps cs f g p).1 (x, r, l, e))
              ]),
        )
  | inr n ↦
      rw (n, to_peers)
        (
          (λ h. let (x, m, l, e) = (In-to_peers ps cs f g p).0 h in (x, inr m, l, e)),
          (λ h.
              let (x, m, l, e) = h in
              elim m [
                | inl y ↦ cc ((is_relevant_iff x cs).1 l, ap (λ z. z.1) y, n)
                | inr r ↦ (In-to_peers ps cs f g p).1 (x, r, l, e)
              ]),
        )
]

-- The listener hands the frame of an event, and no other, to the transport exactly for the connected
-- peers that have said who they are and subscribe to one of the event's collections.
pub broadcast-Listens :
    (peers : Entries PeerState) (e : Change) (f : DataFrame) (p : Text) (g : Frame)
    → build_data_frame e ≡ Cursor.ok f
    → In (p, g) (broadcast peers e)
      ↔ ((st : PeerState) × In (p, st) peers × Listens st e.collections × (g ≡ data_frame f))
unfolding broadcast
broadcast-Listens peers e f p g h =
    rw (h, broadcast) (In-to_peers peers e.collections (data_frame f) g p)

on_message-put :
    {S : Type 0} (o : Operations S Stored) (registry : Registry) (b : Bridge S) (p a : Text)
    (st : PeerState) (f : DataFrame) (now : ℕ)
    → find b.peers p ≡ some st
    → actor_of st ≡ some a
    → every_own a f.collections ≡ true
    → (on_message o registry b p (data_frame f) now).store
      ≡ (put o b.store f.doc (options_of f now) now).0
unfolding on_message on_frame on_data changed_to
on_message-put o registry b p a st f now connected said own =
    rw (connected, on_message, said, on_data, own) refl

-- Over a store that represents a view, and at a time that fits in a cursor: a persistent data frame
-- without collections, from a peer that has said that it is any actor, replaces the record of the id
-- of its document, whichever stood there, by one in no collection.
pub on_message-no_collections :
    {S : Type 0} (o : Operations S Stored) (Ok : S → Type 0) (laws : Storage.Laws S Stored o Ok)
    (registry : Registry) (b : Bridge S) (m : View) (p a : Text) (st : PeerState) (f : DataFrame)
    (id : Text) (now : ℕ)
    → Represents o Ok b.store.adapter m
    → find b.peers p ≡ some st
    → actor_of st ≡ some a
    → doc_id f.doc ≡ some id
    → f.durability ≡ codes "persistent"
    → f.collections ≡ []
    → now < ts_limit
    → Represents o Ok
        (on_message o registry b p (data_frame f) now).store.adapter
        (update m id (some (record { ts = now; doc = f.doc; collections = [] })))
unfolding every_own options_of emit
on_message-no_collections o Ok laws registry b m p a st f id now rep connected said e d c fits =
    let tier = ap tier_of d ∙ tier_of-persistent in
    let x : IsIndexable (record_of f.doc (options_of f now)) = record {
      clean = rw c tt;
      fits = fits;
    } in
    let (s, q, u) =
      put-persistent o Ok laws b.store m f.doc id (options_of f now) now rep e tier x in
    let own : every_own a f.collections ≡ true = rw c refl in
    subst
      (λ z.
        Represents o Ok z.adapter
          (update m id (some (record { ts = now; doc = f.doc; collections = [] }))))
      (sym (ap (λ w. w.0) q) ∙ sym (on_message-put o registry b p a st f now connected said own))
      (subst
        (λ z.
          Represents o Ok s
            (update m id (some (record { ts = now; doc = f.doc; collections = z }))))
        c u)
