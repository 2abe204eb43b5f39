-- ===== src/Ingest.antt =====
-- packages/ap-ingest/src/pipeline.js: ingestActivity(), with extractKeyId() of
-- packages/ap-core/src/http-signature.js. Resolving a key and verifying a request are parameters:
-- the first is injected by the caller, the second rests on the platform's cryptography.
pub mod Trust
pub mod Effects
use qu_v.Prelude.{
  ℕ, Bool, true, false, Text, codes, Option, none, some, List, [], ◌∷◌, ◌++◌, length, drop, ◌==◌,
  if◌then◌else◌, starts_with, text_eq,
}
use mathlib.Core.Option
use qu_v.Core.Storage.{Operations}
use qu_v.As2.Value.{Value, undefined, text, get_field, as_text, is_object}
use qu_v.As2.Audience.{id_of}
use qu_v.Store.{Stored, ApStore, PutOptions, StoreError}
use qu_v.Store.Methods
use qu_v.Store.Methods.{put}

-- "
abbrev quote : ℕ
quote = 34

-- ([^"]*)" at the start of a text
unfoldable pub until_quote : Text → Option Text
until_quote [] = none
until_quote (c ∷ cs) =
    let rest = until_quote cs in if c == quote then some [] else Option.map (λ t. c ∷ t) rest

abbrev key_id_prefix : Text
key_id_prefix = codes "keyId=" ++ quote ∷ []

-- /keyId="([^"]*)"/.exec(signatureHeader)
unfoldable pub find_key_id : Text → Option Text
unfolding until_quote
find_key_id [] = none
find_key_id (c ∷ cs) =
    let rest = find_key_id cs in
    if starts_with key_id_prefix (c ∷ cs)
    then elim (until_quote (drop (length key_id_prefix) (c ∷ cs))) [ none ↦ rest | some t ↦ some t ]
    else rest

-- extractKeyId(signatureHeader)
unfoldable pub extract_key_id : Value → Option Text
unfolding find_key_id as_text
extract_key_id header = elim (as_text header) [ none ↦ none | some t ↦ find_key_id t ]

-- What the caller passes, less the store, the bus and the key resolver.
pub record Request : Type 0 where
  pub activity : Value
  pub raw_body : Text
  pub method : Text
  pub url : Text
  pub headers : Value
  pub target_collection : Text

pub data Failure : Type 0 where
  invalid_body missing_signature signature_invalid missing_actor actor_mismatch : Failure
  key_resolution_failed : Text → Failure

-- The events that the pipeline emits itself; their payloads are parts of the request and the actor.
pub data Hook : Type 0 where
  before_verify after_verify before_authorize after_authorize before_side_effect after_persist
        before_notify :
      Hook

-- { ok: true, activity }, { ok: false, reason }, or the exception of a put().
pub data Outcome : Type 0 where
  accepted : Value → Outcome
  refused : Failure → Outcome
  threw : StoreError → Outcome

-- What a call leaves behind: the store, the hooks that it emitted, and its outcome.
pub record Run (S : Type 0) : Type 0 where
  pub store : ApStore S
  pub hooks : List Hook
  pub outcome : Outcome

-- What resolveActorKey gives for a key id: the message of an error, or the actor and its key.
pub data Resolved (K : Type 0) : Type 0 where
  failed : Text → Resolved K
  actor_key : Value → K → Resolved K

-- extractKeyId() gave a non-empty text
unfoldable pub key_id_of : Request → Option Text
unfolding extract_key_id get_field
key_id_of r = elim (extract_key_id (get_field r.headers (codes "signature"))) [
  | none ↦ none
  | some k ↦ if length k == 0 then none else some k
]

-- activity.type === 'Create' && activity.object && typeof activity.object === 'object'
unfoldable pub has_embedded_object : Value → Bool
unfolding get_field as_text is_object
has_embedded_object activity = elim (as_text (get_field activity (codes "type"))) [
  | none ↦ false
  | some t ↦
      if text_eq t (codes "Create") then is_object (get_field activity (codes "object")) else false
]

-- idOf(activity.actor), where an empty id counts as none
unfoldable pub actor_id_of : Value → Option Text
unfolding id_of get_field
actor_id_of activity = elim (id_of (get_field activity (codes "actor"))) [
  | none ↦ none
  | some a ↦ if length a == 0 then none else some a
]

-- activityActorId !== actor.id, negated
unfoldable pub is_actor : Text → Value → Bool
unfolding get_field as_text
is_actor a actor = elim (as_text (get_field actor (codes "id"))) [
  | none ↦ false
  | some t ↦ text_eq a t
]

module _ {S K : Type 0} (o : Operations S Stored) (resolve : Text → Resolved K)
    (verify : Request → K → Bool) where
  -- What follows the puts.
  unfoldable pub finish : ApStore S → Value → Run S
  finish s activity = record {
    store = s;
    hooks =
        before_verify ∷ after_verify ∷ before_authorize ∷ after_authorize ∷ before_side_effect
        ∷ after_persist ∷ before_notify ∷ [];
    outcome = accepted activity;
  }

  abbrev put_threw : ApStore S → StoreError → Run S
  put_threw s e = record {
    store = s;
    hooks =
        before_verify ∷ after_verify ∷ before_authorize ∷ after_authorize ∷ before_side_effect ∷ [];
    outcome = threw e;
  }

  -- The put of the object that a Create wraps, where there is one.
  unfoldable pub put_object : ApStore S → Value → ℕ → ApStore S × Methods.Result Value
  unfolding has_embedded_object get_field
  put_object s activity now =
      if has_embedded_object activity
      then put o s (get_field activity (codes "object"))
          (record {
            collections = [];
            durability = codes "persistent";
            session_id = none;
            ts = now;
          })
          now
      else (s, Methods.returned activity)

  -- From `const ts` on: the side effects, and the answer.
  unfoldable pub persist : ApStore S → Request → ℕ → Run S
  unfolding finish put_object
  persist s r now =
      let (t, first) =
        put o s (r.activity)
          (record {
            collections = r.target_collection ∷ [];
            durability = codes "persistent";
            session_id = none;
            ts = now;
          })
          now in
      elim first [
        | Methods.thrown e ↦ put_threw t e
        | Methods.returned d ↦
            let (u, second) = put_object t r.activity now in
            elim second [
              | Methods.thrown e ↦ put_threw u e
              | Methods.returned d ↦ finish u r.activity
            ]
      ]

  abbrev refuse : ApStore S → List Hook → Failure → Run S
  refuse s hs f = record { store = s; hooks = hs; outcome = refused f }

  -- The authorisation, of a request whose signature has been verified.
  unfoldable pub authorize : ApStore S → Request → Value → ℕ → Run S
  unfolding persist actor_id_of is_actor
  authorize s r actor now = elim (actor_id_of r.activity) [
    | none ↦ refuse s (before_verify ∷ after_verify ∷ before_authorize ∷ []) missing_actor
    | some a ↦
        if is_actor a actor
        then persist s r now
        else refuse s (before_verify ∷ after_verify ∷ before_authorize ∷ []) actor_mismatch
  ]

  -- ingestActivity() at the time `now`
  unfoldable pub ingest_activity : ApStore S → Request → ℕ → Run S
  unfolding authorize key_id_of is_object
  ingest_activity s r now =
      if is_object r.activity
      then elim (key_id_of r) [
        | none ↦ refuse s (before_verify ∷ []) missing_signature
        | some k ↦ elim (resolve k) [
          | failed message ↦ refuse s (before_verify ∷ []) (key_resolution_failed message)
          | actor_key actor key ↦
              if verify r key
              then authorize s r actor now
              else refuse s (before_verify ∷ []) signature_invalid
        ]
      ]
      else refuse s [] invalid_body
