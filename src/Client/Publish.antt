-- ===== src/Client/Publish.antt =====
-- ApClient.publish(). Minting an id and encryptPayload() are parameters: `minted` is the id that
-- mintId() gives, and `encrypt` the payload for the fields, a keypair and recipients, none for an exception.
use qu_v.Prelude.{
  ℕ, Bool, true, false, Text, codes, Option, none, some, List, [], ◌∷◌, map, length, ◌==◌,
  if◌then◌else◌, text_eq,
}
use qu_v.Core.Storage.{Operations}
use qu_v.As2.Value.{Value, text, boolean, array, object, Fields, field, end, to_items}
use qu_v.As2.Vocabulary.{Tier, persistent, tier_of, includes, public_audience}
use qu_v.Encryption.{assert_encryption_guard}
use qu_v.Store.{Stored, Change}
use qu_v.Store.Methods.{put}
use qu_v.Realtime.{data_frame, frame_without_cursor}
use qu_v.Client.{
  Client, ClientError, missing_type, missing_keypair, encryption_failed, guard_error, Call, then_on,
  stored_by, try_send,
}
use qu_v.Client.Outbox.{enqueue_outbox, flush_outbox}

-- The `visibility` argument.
pub data Visibility : Type 0 where
  unset : Visibility
  single : Text → Visibility
  several : List Text → Visibility

unfoldable pub visibility_list : Visibility → List Text
visibility_list unset = []
visibility_list (single t) = t ∷ []
visibility_list (several ts) = ts

-- The argument of publish(), with its defaults.
pub record Publication : Type 0 where
  pub id : Option Text
  pub type : Text
  pub fields : Fields
  pub visibility : Visibility
  pub durability : Text
  pub collections : List Text
  pub session_id : Option Text
  pub encrypt_for : List Value
  pub sender_keypair : Option Value
  pub allow_unencrypted_private : Bool

-- object[k] = v: a known property keeps its place.
unfoldable pub set_field : Text → Value → Fields → Fields
set_field k v end = field k v end
set_field k v (field j w fs) =
    let rest = set_field k v fs in if text_eq k j then field j v fs else field j w rest

-- { ...base, ...fields }
unfoldable pub spread : Fields → Fields → Fields
unfolding set_field
spread base end = base
spread base (field k v fs) = spread (set_field k v base) fs

-- if (visibilityList.length > 0) doc.to = visibilityList
unfoldable pub with_to : List Text → Fields → Fields
unfolding set_field to_items
with_to [] fs = fs
with_to (t ∷ ts) fs = set_field (codes "to") (array (to_items (map text (t ∷ ts)))) fs

-- Array.isArray(encryptFor) && encryptFor.length > 0
unfoldable pub will_encrypt : List Value → Bool
will_encrypt [] = false
will_encrypt (v ∷ vs) = true

-- The error that the checks before the write end with, or the document's fields.
pub data Drafted : Type 0 where
  refused : ClientError → Drafted
  drafted : Fields → Drafted

module _ (encrypt : Fields → Value → List Value → Option Value) where
  unfoldable pub draft_encrypted : Publication → Text → Drafted
  draft_encrypted p id = elim p.sender_keypair [
    | none ↦ refused missing_keypair
    | some keypair ↦ elim (encrypt p.fields keypair p.encrypt_for) [
      | none ↦ refused encryption_failed
      | some payload ↦ drafted (
          field (codes "id") (text id) (
            field (codes "type") (text p.type) (
              field (codes "encryptedPayload") payload
                (field (codes "encrypted") (boolean true) end))))
    ]
  ]

  unfoldable pub draft : Publication → Text → Drafted
  unfolding draft_encrypted spread will_encrypt
  draft p id =
      if will_encrypt p.encrypt_for
      then draft_encrypted p id
      else drafted
          (spread (field (codes "id") (text id) (field (codes "type") (text p.type) end)) p.fields)

  -- From the check of `type` to the document.
  unfoldable pub checked_draft : Publication → Text → Drafted
  unfolding draft includes assert_encryption_guard visibility_list
  checked_draft p id =
      if length p.type == 0
      then refused missing_type
      else elim (assert_encryption_guard (includes (visibility_list p.visibility) public_audience)
          (will_encrypt p.encrypt_for) p.allow_unencrypted_private) [
            | some e ↦ refused (guard_error e)
            | none ↦ draft p id
          ]

  module _ {S : Type 0} (o : Operations S Stored) (actor_id minted : Text) (accepts : ℕ → Bool)
      (now : ℕ) where
    -- The live send of ephemeral and session data, whose failure is dropped.
    unfoldable pub send_live : Client S → Change → Call S
    unfolding try_send frame_without_cursor
    send_live c e =
        if c.connected
        then ((try_send accepts c (data_frame (frame_without_cursor e))).0, none)
        else (c, none)

    -- After the write.
    unfoldable pub after_write : List Text → Option Text → Text → Value → Tier → Client S → Call S
    unfolding send_live enqueue_outbox flush_outbox
    after_write collections session_id id doc persistent c =
        then_on (enqueue_outbox o actor_id now c id doc collections now)
          (λ d. if d.connected then flush_outbox o actor_id accepts d else (d, none))
    after_write collections session_id id doc tier c = send_live c (record {
      id = id;
      doc = some doc;
      tier = tier;
      collections = collections;
      session_id = session_id;
      ts = none;
    })

    -- put(), and what follows when it returns; it throws on a durability that is no tier.
    unfoldable pub write_doc : Publication → Text → Value → Client S → Call S
    unfolding stored_by after_write tier_of
    write_doc p id doc c =
        then_on
          (stored_by c (
            put o c.store doc
              (record {
                collections = p.collections;
                durability = p.durability;
                session_id = p.session_id;
                ts = now;
              })
              now))
          (λ d. elim (tier_of p.durability) [
            | none ↦ (d, none)
            | some tier ↦ after_write p.collections p.session_id id doc tier d
          ])

    unfoldable pub doc_id_of : Publication → Text
    doc_id_of p = elim p.id [ none ↦ minted | some id ↦ id ]

    -- publish(publication)
    unfoldable pub publish : Publication → Client S → Call S
    unfolding checked_draft write_doc with_to visibility_list doc_id_of
    publish p c = elim (checked_draft p (doc_id_of p)) [
      | refused e ↦ (c, some e)
      | drafted fs ↦
          write_doc p (doc_id_of p) (object (with_to (visibility_list p.visibility) fs)) c
    ]
