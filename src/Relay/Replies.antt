-- ===== src/Relay/Replies.antt =====
-- packages/relay/src/ap-router.js: what the router reads of a request, and its responses. A response's
-- body is the document that is printed as JSON.
use qu_v.Prelude.{ℕ, Bool, true, false, Text, Option, none, some, List, []}
use qu_v.As2.Value.{Value}
use qu_v.Store.{ApStore}
use qu_v.Ingest.{
  Failure, invalid_body, missing_signature, signature_invalid, missing_actor, actor_mismatch,
  key_resolution_failed, Hook, accepted, refused, threw, Run,
}

-- What the router reads of a request; `body` is none where reading it fails.
pub record HttpRequest : Type 0 where
  pub method : Text
  pub url : Text
  pub headers : Value
  pub body : Option Text

-- What the router reads of a URL: its pathname, and searchParams.get('resource').
pub record Url : Type 0 where
  pub pathname : Text
  pub resource : Option Text

-- A response: sendStatus() has no document.
pub record Response : Type 0 where
  pub status : ℕ
  pub content_type : Option Text
  pub document : Option Value

-- What a request leaves behind: the store, the hooks of the pipeline, the response, and whether
-- 'ap-router:error' was emitted.
pub record Answer (S : Type 0) : Type 0 where
  pub store : ApStore S
  pub hooks : List Hook
  pub response : Response
  pub has_failed : Bool

-- The parameters of createApRouter() but the registry, the store and the bus.
pub record Relay : Type 0 where
  pub host : Text
  pub software_name : Text
  pub software_version : Text
  pub parse_url : Text → Text → Option Url
  pub parse_json : Text → Option Value

abbrev pub bare : ℕ → Response
bare status = record { status = status; content_type = none; document = none }

unfoldable pub send_status : {S : Type 0} → ApStore S → ℕ → Answer S
send_status s status = record { store = s; hooks = []; response = bare status; has_failed = false }

-- The handler's catch.
unfoldable pub caught : {S : Type 0} → ApStore S → List Hook → Answer S
caught s hooks = record { store = s; hooks = hooks; response = bare 500; has_failed = true }

-- sendJson(res, 200, doc, contentType), where the building of the document may throw.
unfoldable pub send_json : {S : Type 0} → ApStore S → Text → Option Value → Answer S
unfolding caught
send_json s content_type none = caught s []
send_json s content_type (some doc) = record {
  store = s;
  hooks = [];
  has_failed = false;
  response = record { status = 200; content_type = some content_type; document = some doc };
}

-- statusForIngestFailure(reason)
unfoldable pub status_for_ingest_failure : Failure → ℕ
status_for_ingest_failure invalid_body = 400
status_for_ingest_failure missing_signature = 401
status_for_ingest_failure (key_resolution_failed message) = 401
status_for_ingest_failure signature_invalid = 401
status_for_ingest_failure missing_actor = 400
status_for_ingest_failure actor_mismatch = 403

-- The answer to what the pipeline did.
unfoldable pub answer_to : {S : Type 0} → Run S → Answer S
unfolding status_for_ingest_failure caught
answer_to run = elim run.outcome [
  | accepted activity ↦ record {
    store = run.store;
    hooks = run.hooks;
    response = bare 202;
    has_failed = false;
  }
  | refused reason ↦ record {
    store = run.store;
    hooks = run.hooks;
    response = bare (status_for_ingest_failure reason);
    has_failed = false;
  }
  | threw e ↦ caught run.store run.hooks
]
