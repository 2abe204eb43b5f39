-- ===== src/Client/Publishes.antt =====
-- What publish() refuses, what of its argument leaves the device, and what it does offline.
use qu_v.Prelude.{
  ℕ, ◌≡◌, ◌<◌, refl, ap, ◌∙◌, inl, inr, Bool, true, false, Text, codes, Option, none, some, List,
  [], ◌∷◌, All, if◌then◌else◌, Bool-cases, Option-cases, arith, length, ◌==◌, text_dec, text_eq,
}
use qu_v.Core.Cursor.RoundTrip.{ts_limit}
use qu_v.Core.Storage
use qu_v.Core.Storage.{Operations}
use qu_v.As2.Value.{Value, object, Fields, get_field, lookup_field, as_text}
use qu_v.As2.Vocabulary.{includes, tier_of, persistent, public_audience}
use qu_v.Encryption.{assert_encryption_guard, public_encrypted, private_unencrypted}
use qu_v.Store.{Stored, PutOptions, doc_id}
use qu_v.Store.Keys.{IsClean}
use qu_v.Store.View.{View, Represents, update}
use qu_v.Store.Methods.{emit}
use qu_v.Store.Calls.{put_change, put-persistent, tier_of-persistent}
use qu_v.Client.{Client, guard_error, missing_type, stored_by}
use qu_v.Client.Outbox.{
  OutboxEntry, outbox_collection, outbox_entry_id, outbox_value, enqueue_outbox,
}
use qu_v.Client.Publish.{
  Publication, visibility_list, will_encrypt, with_to, Drafted, refused, drafted, draft,
  draft_encrypted, checked_draft, after_write, write_doc, doc_id_of, publish,
}

module _ (encrypt : Fields → Value → List Value → Option Value) where
  draft-opaque :
      (p : Publication) (fs : Fields) (id : Text)
      → will_encrypt p.encrypt_for ≡ true
      → ((k : Value) → encrypt p.fields k p.encrypt_for ≡ encrypt fs k p.encrypt_for)
      → draft encrypt p id ≡ draft encrypt (record p { fields = fs }) id
  unfolding draft draft_encrypted
  draft-opaque p fs id w same = elim (Option-cases p.sender_keypair) [
    | inl e ↦ rw (w, draft, draft_encrypted, e) refl
    | inr (k, e) ↦ rw (w, draft, draft_encrypted, e, same k) refl
  ]

  checked_draft-opaque :
      (p : Publication) (fs : Fields) (id : Text)
      → will_encrypt p.encrypt_for ≡ true
      → ((k : Value) → encrypt p.fields k p.encrypt_for ≡ encrypt fs k p.encrypt_for)
      → checked_draft encrypt p id ≡ checked_draft encrypt (record p { fields = fs }) id
  unfolding checked_draft
  checked_draft-opaque p fs id w same =
      ap
        (λ (z : Drafted).
          if length p.type == 0
          then refused missing_type
          else elim (assert_encryption_guard
              (includes (visibility_list p.visibility) public_audience) (will_encrypt p.encrypt_for)
              p.allow_unencrypted_private) [ some e ↦ refused (guard_error e) | none ↦ z ])
        (draft-opaque p fs id w same)

outbox_value-id :
    (e : OutboxEntry) (target : Text)
    → e.id ≡ outbox_entry_id target
    → doc_id (outbox_value e) ≡ some (outbox_entry_id target)
unfolding doc_id outbox_value get_field lookup_field text_dec Bool-cases text_eq as_text
outbox_value-id e target h = rw h (ground arith)

module _ (encrypt : Fields → Value → List Value → Option Value) {S : Type 0}
    (o : Operations S Stored) (actor_id minted : Text) (accepts : ℕ → Bool) (now : ℕ) where
  -- Whether the publication is addressed to everyone.
  abbrev pub is_public : Publication → Bool
  is_public p = includes (visibility_list p.visibility) public_audience

  -- A publication with a type that is neither public nor encrypted, without the explicit permission,
  -- is refused by the guard: nothing is written, queued or sent.
  pub publish-refuses :
      (p : Publication) (c : Client S)
      → (length p.type == 0) ≡ false
      → is_public p ≡ false
      → will_encrypt p.encrypt_for ≡ false
      → p.allow_unencrypted_private ≡ false
      → publish encrypt o actor_id minted accepts now p c
        ≡ (c, some (guard_error private_unencrypted))
  unfolding publish checked_draft assert_encryption_guard
  publish-refuses p c h q e a = rw (h, publish, checked_draft, q, e, a) refl

  -- A publication with a type that is public and names recipients to encrypt for is refused by the
  -- guard, whatever is permitted: nothing is written, queued or sent.
  publish-refuses_public :
      (p : Publication) (c : Client S)
      → (length p.type == 0) ≡ false
      → is_public p ≡ true
      → will_encrypt p.encrypt_for ≡ true
      → publish encrypt o actor_id minted accepts now p c ≡ (c, some (guard_error public_encrypted))
  unfolding publish checked_draft assert_encryption_guard
  publish-refuses_public p c h q e = rw (h, publish, checked_draft, q, e) refl

  -- Where recipients are given, the fields enter only through the encryption: two publications that
  -- differ in their fields, whose encryptions for every keypair and those recipients are the same,
  -- have the same effect on the client, its store and the frames it sends included.
  pub publish-opaque :
      (p : Publication) (fs : Fields) (c : Client S)
      → will_encrypt p.encrypt_for ≡ true
      → ((k : Value) → encrypt p.fields k p.encrypt_for ≡ encrypt fs k p.encrypt_for)
      → publish encrypt o actor_id minted accepts now p c
        ≡ publish encrypt o actor_id minted accepts now (record p { fields = fs }) c
  unfolding publish write_doc doc_id_of
  publish-opaque p fs c w same =
      ap
        (λ (z : Drafted). elim z [
          | refused e ↦ (c, some e)
          | drafted gs ↦
              write_doc encrypt o actor_id minted accepts now p
                (doc_id_of encrypt o actor_id minted accepts now p)
                (object (with_to (visibility_list p.visibility) gs)) c
        ])
        (checked_draft-opaque encrypt p fs _ w same)

  -- On a client that is not connected, whose store represents a view, a persistent publication that
  -- passes the checks, and whose document and outbox entry the index can hold, throws nothing and
  -- sends nothing: it leaves the document under its id, and an outbox entry with the document.
  pub publish-offline :
      (p : Publication) (fs : Fields) (id : Text) (c : Client S) (Ok : S → Type 0)
      (laws : Storage.Laws S Stored o Ok) (m : View)
      → Represents o Ok c.store.adapter m
      → c.connected ≡ false
      → checked_draft encrypt p (doc_id_of encrypt o actor_id minted accepts now p) ≡ drafted fs
      → doc_id (object (with_to (visibility_list p.visibility) fs)) ≡ some id
      → p.durability ≡ codes "persistent"
      → All IsClean p.collections
      → IsClean (outbox_collection actor_id)
      → now < ts_limit
      → let target = doc_id_of encrypt o actor_id minted accepts now p in
        let doc = object (with_to (visibility_list p.visibility) fs) in
        let entry : OutboxEntry = record {
          id = outbox_entry_id target;
          target_id = target;
          doc = doc;
          collections = p.collections;
          ts = now;
        } in
        (d : Client S) × (publish encrypt o actor_id minted accepts now p c ≡ (d, none))
        × (d.sent ≡ c.sent)
        × Represents o Ok d.store.adapter (
            update
              (update m id (some (record { ts = now; doc = doc; collections = p.collections })))
              (outbox_entry_id target)
              (some (record {
                ts = now;
                doc = outbox_value entry;
                collections = outbox_collection actor_id ∷ [];
              })))
  unfolding publish write_doc after_write enqueue_outbox stored_by emit
  publish-offline p fs id c Ok laws m rep off ready e tier clean box fits =
      let target = doc_id_of encrypt o actor_id minted accepts now p in
      let doc = object (with_to (visibility_list p.visibility) fs) in
      let entry : OutboxEntry = record {
        id = outbox_entry_id target;
        target_id = target;
        doc = doc;
        collections = p.collections;
        ts = now;
      } in
      let opts : PutOptions = record {
        collections = p.collections;
        durability = p.durability;
        session_id = p.session_id;
        ts = now;
      } in
      let box_opts : PutOptions = record {
        collections = outbox_collection actor_id ∷ [];
        durability = codes "persistent";
        session_id = none;
        ts = now;
      } in
      let named : tier_of p.durability ≡ some persistent = ap tier_of tier ∙ tier_of-persistent in
      let (a, q, u) =
        put-persistent o Ok laws c.store m doc id opts now rep e named
          (record { clean = clean; fits = fits }) in
      let s1 = emit (record (c.store) { adapter = a }) (put_change id doc opts) in
      let (b, r, v) =
        put-persistent o Ok laws s1 _ (outbox_value entry) (outbox_entry_id target) box_opts now u
          (outbox_value-id entry target refl) tier_of-persistent
          (record { clean = (box, tt); fits = fits }) in
      let s2 =
        emit (record s1 { adapter = b })
          (put_change (outbox_entry_id target) (outbox_value entry) box_opts) in
      (
        record c { store = s2 },
        rw (ready, publish, q, write_doc, named, r, after_write, off) refl,
        refl,
        v,
      )
