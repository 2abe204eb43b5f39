-- ===== src/Relay/Accepts.antt =====
-- packages/relay/src/auto-accept-follows.js: wireAutoAcceptFollows(), the handler that it registers for
-- 'ap-ingest:afterPersist', as one step over the store that the delivery queue shares. The local part of
-- the id that it mints is an argument, and so are the times of its two writes.
pub mod Follows
use qu_v.Prelude.{
  ℕ, Bool, true, false, Text, codes, Option, none, some, List, [], ◌∷◌, length, ◌==◌, ◌&&◌,
  if◌then◌else◌, text_eq,
}
use qu_v.Core.Storage.{Operations}
use qu_v.As2.Value.{Value, text, array, object, nil, cons, end, field, get_field, as_text}
use qu_v.As2.Audience.{id_of}
use qu_v.As2.Id.{id_text}
use qu_v.Store.{Stored, ApStore, PutOptions, StoreError}
use qu_v.Store.Methods
use qu_v.Store.Methods.{put}
use qu_v.Delivery.Queue.{Settings, enqueue}

-- The fields of the local actor's document that the handler reads; neither is empty.
pub record Acceptor : Type 0 where
  pub id : Text
  pub outbox : Text

-- activity.type === 'Follow' && idOf(activity.object) === actor.id
unfoldable pub follows : Value → Text → Bool
unfolding get_field as_text id_of
follows activity actor_id =
    let is_follow : Bool = elim (as_text (get_field activity (codes "type"))) [
      | none ↦ false
      | some t ↦ text_eq t (codes "Follow")
    ] in
    let is_object : Bool = elim (id_of (get_field activity (codes "object"))) [
      | none ↦ false
      | some t ↦ text_eq t actor_id
    ] in
    is_follow && is_object

-- idOf(activity.actor), where an empty id counts as none
unfoldable pub follower_of : Value → Option Text
unfolding id_of get_field
follower_of activity = elim (id_of (get_field activity (codes "actor"))) [
  | none ↦ none
  | some a ↦ if length a == 0 then none else some a
]

abbrev pub accept_id : Acceptor → Text → Text
accept_id actor local_id = id_text actor.id (codes "activities") local_id

-- The Accept.
unfoldable pub accept_of : Acceptor → Value → Text → Text → Value
unfolding get_field
accept_of actor activity follower local_id = object (
    field (codes "id") (text (accept_id actor local_id)) (
      field (codes "type") (text (codes "Accept")) (
        field (codes "actor") (text actor.id) (
          field (codes "object") (get_field activity (codes "id"))
            (field (codes "to") (array (cons (text follower) nil)) end)))))

-- What the handler came to: nothing to do, the queue's entry, or an exception.
pub data Reaction : Type 0 where
  ignored : Reaction
  queued : Value → Reaction
  failed : StoreError → Reaction

module _ {S : Type 0} (o : Operations S Stored) (c : Settings) (actor : Acceptor) where
  abbrev pub outbox_options : ℕ → PutOptions
  outbox_options now = record {
    collections = actor.outbox ∷ [];
    durability = codes "persistent";
    session_id = none;
    ts = now;
  }

  abbrev reaction_to : ApStore S × Methods.Result Value → ApStore S × Reaction
  reaction_to (s, Methods.returned v) = (s, queued v)
  reaction_to (s, Methods.thrown e) = (s, failed e)

  -- From the Accept on.
  unfoldable pub accept : ApStore S → Value → Text → Text → ℕ → ℕ → ApStore S × Reaction
  unfolding accept_of enqueue
  accept s activity follower local_id now later =
      let doc = accept_of actor activity follower local_id in
      let (t, first) = put o s doc (outbox_options now) now in
      elim first [
        | Methods.thrown e ↦ (t, failed e)
        | Methods.returned d ↦ reaction_to (enqueue o c t doc (follower ∷ []) later)
      ]

  -- The handler of an ingested activity
  unfoldable pub on_persisted : ApStore S → Value → Text → ℕ → ℕ → ApStore S × Reaction
  unfolding accept follows follower_of
  on_persisted s activity local_id now later =
      if follows activity actor.id
      then elim (follower_of activity) [
        | none ↦ (s, ignored)
        | some follower ↦ accept s activity follower local_id now later
      ]
      else (s, ignored)
