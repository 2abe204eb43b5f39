-- ===== src/Relay/Router.antt =====
-- packages/relay/src/ap-router.js: createApRouter(), the routes of the relay's AP server, over ApStore
-- and the ingest pipeline. new URL(), JSON.parse(), the key resolver and the verification of a
-- signature are parameters; a response's body is the document that is printed as JSON.
pub mod Serves
pub mod Inboxes
use qu_v.Prelude.{
  ℕ, Bool, true, false, not, Text, codes, Option, none, some, List, [], ◌∷◌, ◌++◌, length, ◌==◌,
  ◌&&◌, if◌then◌else◌, text_eq,
}
use qu_v.Core.Storage.{Operations}
use qu_v.As2.Value.{Value, undefined, null, text, get_field, as_text}
use qu_v.As2.Audience
use qu_v.As2.Audience.{normalize_audience}
use qu_v.Store.{Stored, ApStore}
use qu_v.Store.Methods.{get_children}
use qu_v.Ingest.{
  Request, Failure, invalid_body, missing_signature, signature_invalid, missing_actor,
  actor_mismatch, key_resolution_failed, Hook, accepted, refused, threw, Run, Resolved,
  ingest_activity,
}
use qu_v.ApCore.Signature.{split}
use qu_v.ApCore.Webfinger.{is_nullish, Acct, parse_acct, build_webfinger_resource}
use qu_v.ApCore.Documents.{build_ordered_collection_page, build_nodeinfo_discovery, build_nodeinfo}
use qu_v.Relay.Replies.{
  HttpRequest, Url, Response, Answer, Relay, bare, send_status, caught, send_json,
  status_for_ingest_failure, answer_to,
}
use qu_v.Relay.Paths.{
  Sub, whole, inbox, outbox, followers, following, sub_of, actor_path, match_parts, match_actor,
}
use qu_v.Relay.Registry.{LocalActor, Registry, by_username, by_id}

-- A value that is no text, as it stands in a template string, for the properties of an actor's document.
unfoldable pub text_of : Value → Text
unfolding as_text
text_of v = elim (as_text v) [ none ↦ codes "undefined" | some t ↦ t ]

-- objectId ? [objectId] : []
unfoldable pub object_candidate : Value → List Text
unfolding Audience.id_of get_field
object_candidate activity = elim (Audience.id_of (get_field activity (codes "object"))) [
  | none ↦ []
  | some t ↦ if length t == 0 then [] else t ∷ []
]

-- recipientCandidates(activity)
unfoldable pub recipient_candidates : Value → List Text
unfolding normalize_audience object_candidate
recipient_candidates activity =
    (normalize_audience activity).recipients ++ object_candidate activity

-- candidates.map((id) => registry.byId(id)).find(Boolean)
unfoldable pub first_registered : Registry → List Text → Option LocalActor
unfolding by_id
first_registered registry [] = none
first_registered registry (id ∷ ids) =
    let rest = first_registered registry ids in
    elim (by_id registry id) [ none ↦ rest | some a ↦ some a ]

abbrev pub json_type : Text
json_type = codes "application/json"

abbrev pub jrd_type : Text
jrd_type = codes "application/jrd+json"

abbrev pub activity_type : Text
activity_type = codes "application/activity+json"

abbrev pub base_url : Relay → Text
base_url relay = codes "https://" ++ relay.host

module _ {S K : Type 0} (o : Operations S Stored) (relay : Relay) (registry : Registry)
    (resolve : Text → Resolved K) (verify : Request → K → Bool) where
  unfoldable pub handle_webfinger : ApStore S → Url → Answer S
  unfolding send_status send_json parse_acct by_username
  handle_webfinger s url = elim url.resource [
    | none ↦ send_status s 400
    | some resource ↦ elim (parse_acct resource) [
      | none ↦ send_status s 400
      | some acct ↦ elim (by_username registry acct.username) [
        | none ↦ send_status s 404
        | some a ↦
            send_json s jrd_type (build_webfinger_resource acct.username acct.host a.actor_id [])
      ]
    ]
  ]

  -- The collections of an actor's document are texts, or absent.
  unfoldable pub handle_collection_get : ApStore S → Value → Answer S
  unfolding send_status send_json as_text
  handle_collection_get s collection = elim (as_text collection) [
    | none ↦ send_status s 404
    | some c ↦
        if length c == 0
        then send_status s 404
        else send_json s activity_type
            (build_ordered_collection_page c c (get_children o s c (some 20)) [] [])
  ]

  unfoldable pub request_to : HttpRequest → Value → Text → LocalActor → Request
  unfolding text_of
  request_to req activity raw_body target = record {
    activity = activity;
    raw_body = raw_body;
    method = codes "POST";
    url = base_url relay ++ req.url;
    headers = req.headers;
    target_collection = text_of (get_field target.document (codes "inbox"));
  }

  unfoldable pub run_ingest : ApStore S → HttpRequest → Value → Text → LocalActor → ℕ → Answer S
  unfolding answer_to request_to
  run_ingest s req activity raw_body target now =
      answer_to (ingest_activity o resolve verify s (request_to req activity raw_body target) now)

  -- readBody() and JSON.parse()
  unfoldable pub with_body : ApStore S → HttpRequest → (Value → Text → Answer S) → Answer S
  unfolding send_status caught
  with_body s req next = elim req.body [
    | none ↦ caught s []
    | some raw ↦ elim (relay.parse_json raw) [
      | none ↦ send_status s 400
      | some activity ↦ next activity raw
    ]
  ]

  unfoldable pub handle_inbox_post : ApStore S → HttpRequest → LocalActor → ℕ → Answer S
  unfolding with_body run_ingest
  handle_inbox_post s req target now =
      with_body s req (λ activity raw. run_ingest s req activity raw target now)

  -- normalizeAudience(null) throws.
  unfoldable pub route_shared : ApStore S → HttpRequest → ℕ → Value → Text → Answer S
  unfolding run_ingest first_registered recipient_candidates is_nullish send_status caught
  route_shared s req now activity raw =
      if is_nullish activity
      then caught s []
      else elim (first_registered registry (recipient_candidates activity)) [
        | none ↦ send_status s 400
        | some target ↦ run_ingest s req activity raw target now
      ]

  unfoldable pub handle_shared_inbox_post : ApStore S → HttpRequest → ℕ → Answer S
  unfolding with_body route_shared
  handle_shared_inbox_post s req now = with_body s req (route_shared s req now)

  -- A route below /actors/<name>, which other methods than its own do not find.
  unfoldable pub for_method : ApStore S → HttpRequest → Text → Answer S → Answer S
  unfolding send_status
  for_method s req method a = if text_eq req.method method then a else send_status s 404

  -- The routes below /actors/<name>, of a registered actor.
  unfoldable pub handle_actor : ApStore S → HttpRequest → LocalActor → Sub → ℕ → Answer S
  unfolding for_method send_json handle_inbox_post handle_collection_get
  handle_actor s req a whole now =
      for_method s req (codes "GET") (send_json s activity_type (some a.document))
  handle_actor s req a inbox now = for_method s req (codes "POST") (handle_inbox_post s req a now)
  handle_actor s req a outbox now =
      for_method s req (codes "GET")
        (handle_collection_get s (get_field a.document (codes "outbox")))
  handle_actor s req a followers now =
      for_method s req (codes "GET")
        (handle_collection_get s (get_field a.document (codes "followers")))
  handle_actor s req a following now =
      for_method s req (codes "GET")
        (handle_collection_get s (get_field a.document (codes "following")))

  unfoldable pub handle_path : ApStore S → HttpRequest → Url → ℕ → Answer S
  unfolding match_actor handle_actor by_username send_status
  handle_path s req url now = elim (match_actor url.pathname) [
    | none ↦ send_status s 404
    | some m ↦ elim (by_username registry m.0) [
      | none ↦ send_status s 404
      | some a ↦ handle_actor s req a m.1 now
    ]
  ]

  abbrev pub is_route : HttpRequest → Url → Text → Text → Bool
  is_route req url method path = text_eq req.method method && text_eq url.pathname path

  unfoldable pub handle_url : ApStore S → HttpRequest → Url → ℕ → Answer S
  unfolding handle_webfinger send_json handle_shared_inbox_post handle_path
  handle_url s req url now =
      if is_route req url (codes "GET") (codes "/.well-known/webfinger")
      then handle_webfinger s url
      else if is_route req url (codes "GET") (codes "/.well-known/nodeinfo")
      then send_json s jrd_type (build_nodeinfo_discovery (base_url relay ++ codes "/nodeinfo/2.1"))
      else if is_route req url (codes "GET") (codes "/nodeinfo/2.1")
      then send_json s json_type (build_nodeinfo relay.software_name relay.software_version)
      else if is_route req url (codes "POST") (codes "/inbox")
      then handle_shared_inbox_post s req now
      else handle_path s req url now

  -- The handler that createApRouter() returns, at the time `now`
  unfoldable pub handle : ApStore S → HttpRequest → ℕ → Answer S
  unfolding handle_url caught
  handle s req now = elim (relay.parse_url (base_url relay) req.url) [
    | none ↦ caught s []
    | some url ↦ handle_url s req url now
  ]
