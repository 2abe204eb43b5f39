-- ===== src/ApCore/Resolve.antt =====
-- packages/ap-core/src/resolve.js: resolving a handle to an actor's URL, an actor's URL to its
-- document, and a key id to an actor and its key. fetch(), createPublicKey() and encodeURIComponent()
-- are an interface; an error is its message.
pub mod Keys
use mathlib.Core.Option
use qu_v.Prelude.{
  ℕ, Bool, true, false, Text, codes, Option, none, some, List, [], ◌∷◌, ◌++◌, ◌==◌, length,
  if◌then◌else◌, starts_with, text_eq,
}
use qu_v.Core.Cursor.Decimal.{digits}
use qu_v.As2.Value.{Value, text, get_field, as_text, truthy}
use qu_v.Ingest.{Resolved, failed, actor_key}
use qu_v.ApCore.Webfinger.{
  acct_prefix, parse_acct, build_webfinger_request_url, actor_url_from_webfinger, is_nullish,
  field_is,
}

pub data Result (A : Type 0) : Type 0 where
  got : A → Result A
  error : (message : Text) → Result A

abbrev pub then_with : {A B : Type 0} → Result A → (A → Result B) → Result B
then_with (got a) f = f a
then_with (error m) f = error m

-- What fetch() resolves to: response.status, response.ok, and what response.json() gives.
pub record Response : Type 0 where
  pub status : ℕ
  pub is_ok : Bool
  pub json : Result Value

-- The network and the platform; `type_error` is the message for a field of null.
pub record Network (K : Type 0) : Type 0 where
  pub fetch : Text → Result Response
  pub create_public_key : Value → Result K
  pub encode_uri_component : Text → Text
  pub type_error : Text

-- keyId.split('#')[0]
unfoldable pub before_hash : Text → Text
before_hash [] = []
before_hash (c ∷ cs) = let rest = before_hash cs in if c == b'#' then [] else c ∷ rest

unfoldable pub quoted : Text → Text
quoted t = b'\'' ∷ (t ++ b'\'' ∷ [])

module _ {K : Type 0} (n : Network K) where
  -- The JSON of an answer that is ok.
  unfoldable pub fetch_json : Text → Text → Result Value
  fetch_json name url = then_with (n.fetch url) λ response.
      if response.is_ok
      then response.json
      else error (name ++ (codes ": " ++ (url ++ (codes " responded " ++ digits response.status))))

  -- typeof actor.id === 'string' && typeof actor.inbox === 'string'
  unfoldable pub checked_actor : Text → Value → Result Value
  unfolding is_nullish get_field as_text
  checked_actor actor_url actor =
      let invalid : Result Value =
        error
          (codes "fetchActor: " ++ (actor_url ++ codes " did not return a valid actor document")) in
      if is_nullish actor
      then error n.type_error
      else elim (as_text (get_field actor (codes "id"))) [
        | none ↦ invalid
        | some id ↦ elim (as_text (get_field actor (codes "inbox"))) [
          | none ↦ invalid
          | some inbox ↦ got actor
        ]
      ]

  -- fetchActor(actorUrl)
  unfoldable pub fetch_actor : Text → Result Value
  unfolding fetch_json checked_actor
  fetch_actor actor_url =
      then_with (fetch_json (codes "fetchActor") actor_url) (checked_actor actor_url)

  -- !actor.publicKey || actor.publicKey.id !== keyId, negated
  unfoldable pub has_key : Value → Text → Bool
  unfolding truthy field_is get_field
  has_key actor key_id =
      let key = get_field actor (codes "publicKey") in
      if truthy key then field_is key (codes "id") key_id else false

  -- The key of an actor that has one with this id.
  unfoldable pub key_of : Text → Value → Result (Value × K)
  unfolding has_key get_field
  key_of key_id actor =
      if has_key actor key_id
      then then_with
          (n.create_public_key
            (get_field (get_field actor (codes "publicKey")) (codes "publicKeyPem")))
          (λ key. got (actor, key))
      else error (
          codes "resolveActorPublicKey: "
          ++ (before_hash key_id ++ (codes " has no publicKey matching " ++ quoted key_id)))

  -- resolveActorPublicKey(keyId)
  unfoldable pub resolve_actor_public_key : Text → Result (Value × K)
  unfolding fetch_actor key_of before_hash
  resolve_actor_public_key key_id = then_with (fetch_actor (before_hash key_id)) (key_of key_id)

  -- The resolver as ingestActivity() calls it: an exception is caught with its message.
  unfoldable pub resolve_actor_key : Text → Resolved K
  unfolding resolve_actor_public_key
  resolve_actor_key key_id = elim (resolve_actor_public_key key_id) [
    | got (actor, key) ↦ actor_key actor key
    | error message ↦ failed message
  ]

  abbrev malformed : Text → Result Value
  malformed handle = error (codes "resolveWebFinger: malformed handle " ++ quoted handle)

  -- From the JRD on; a truthy href that is no text is returned as it is.
  unfoldable pub actor_url_of : Text → Value → Result Value
  unfolding actor_url_from_webfinger truthy
  actor_url_of handle jrd = elim (actor_url_from_webfinger jrd) [
    | none ↦ error n.type_error
    | some url ↦
        if truthy url
        then got url
        else error (codes "resolveWebFinger: no self/activity+json link for " ++ quoted handle)
  ]

  -- resolveWebFinger(handle)
  unfoldable pub resolve_webfinger : Text → Result Value
  unfolding parse_acct build_webfinger_request_url fetch_json actor_url_of
  resolve_webfinger handle =
      elim (parse_acct (if starts_with acct_prefix handle then handle else acct_prefix ++ handle)) [
        | none ↦ malformed handle
        | some acct ↦
            elim (build_webfinger_request_url n.encode_uri_component acct.host acct.username) [
              | none ↦ error (codes "buildAcct: username and host are required")
              | some url ↦
                  then_with (fetch_json (codes "resolveWebFinger") url) (actor_url_of handle)
            ]
      ]
