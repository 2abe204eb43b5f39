-- ===== src/Examples/Routes.antt =====
-- A relay that hosts one actor: a Follow for its shared inbox, a WebFinger request, and a key id whose
-- URL serves a document with another server's actor id.
use qu_v.Prelude.{
  ℕ, ◌≡◌, ◌↔◌, ◌⊎◌, refl, true, false, codes, none, some, [], ◌∷◌, text_eq, text_dec, Bool-cases,
  arith, inr,
}
use qu_v.Core.Memory.{memory_adapter}
use qu_v.Core.JsMap
use qu_v.Core.JsMap.{find, Entries}
use qu_v.As2.Value.{Value, text, object, field, end, get_field, lookup_field, as_text, truthy}
use qu_v.As2.Audience
use qu_v.Store.{Stored}
use qu_v.Store.Methods.{create}
use qu_v.ApCore.Webfinger.{
  is_nullish, parse_acct, build_acct, acct_text, is_one_line, is_line_end, field_is,
  actor_url_from_webfinger,
}
use qu_v.ApCore.Webfinger.Handles.{IsPlain, parse_acct-build_acct}
use qu_v.ApCore.Resolve.{Network, got, resolve_actor_public_key, has_key}
use qu_v.ApCore.Resolve.Keys.{Resolves, resolve_actor_public_key-Resolves}
use qu_v.Relay.Registry.{LocalActor, Registry, no_actors, register, by_id, by_username}
use qu_v.Relay.Replies.{HttpRequest, Relay, send_json}
use qu_v.Relay.Router.{handle, run_ingest, jrd_type, recipient_candidates, object_candidate}
use qu_v.Relay.Router.Serves.{Delivers, Untouched, handle-Delivers}
use qu_v.Relay.Router.Inboxes.{IsShared, shared_inbox-first, webfinger-finds}
use qu_v.Examples.Inbox.{resolver, verifier}

abbrev carol : LocalActor
carol = record {
  actor_id = codes "r/c";
  username = codes "carol";
  document = object (field (codes "inbox") (text (codes "r/c/in")) end);
}

abbrev hosted : Registry
hosted = register no_actors carol

abbrev follow : Value
follow =
    object (
      field (codes "type") (text (codes "Follow"))
        (field (codes "object") (text (codes "r/c")) end))

-- A URL is its path, and every body is the Follow.
abbrev relay : Relay
relay = record {
  host = codes "r";
  software_name = codes "q";
  software_version = codes "1";
  parse_url = λ base url. some (record { pathname = url; resource = some (codes "acct:carol@r") });
  parse_json = λ t. some follow;
}

abbrev posted : HttpRequest
posted = record {
  method = codes "POST";
  url = codes "/inbox";
  headers = object end;
  body = some (codes "{}");
}

abbrev asked : HttpRequest
asked = record {
  method = codes "GET";
  url = codes "/.well-known/webfinger";
  headers = object end;
  body = none;
}

handle-Delivers_example :
    Delivers
      (memory_adapter Stored)
      relay
      hosted
      resolver
      verifier
      (create [])
      posted
      7
      (handle (memory_adapter Stored) relay hosted resolver verifier (create []) posted 7)
    ⊎ Untouched
        (create [])
        (handle (memory_adapter Stored) relay hosted resolver verifier (create []) posted 7)
handle-Delivers_example =
    handle-Delivers (memory_adapter Stored) relay hosted resolver verifier (create []) posted 7

posted-IsShared :
    IsShared
      (memory_adapter Stored)
      relay
      hosted
      resolver
      verifier
      (create [])
      posted
      7
      follow
      (codes "{}")
posted-IsShared = record {
  url = record { pathname = codes "/inbox"; resource = some (codes "acct:carol@r") };
  parsed_url = refl;
  path = refl;
  post = refl;
  read = refl;
  parsed = refl;
}

follow-candidates : recipient_candidates follow ≡ codes "r/c" ∷ []
unfolding recipient_candidates object_candidate Audience.normalize_audience Audience.addressed
    Audience.dedup Audience.ids Audience.to_array Audience.gather Audience.id_of get_field
    lookup_field as_text text_eq text_dec Bool-cases
follow-candidates = refl

carol-by_id : by_id hosted (codes "r/c") ≡ some carol
unfolding by_id register no_actors JsMap.put find text_eq text_dec Bool-cases
carol-by_id = refl

carol-by_username : by_username hosted (codes "carol") ≡ some carol
unfolding by_username register no_actors JsMap.put find text_eq text_dec Bool-cases
carol-by_username = refl

follow-not_null : is_nullish follow ≡ false
unfolding is_nullish
follow-not_null = refl

shared_inbox-first_example :
    handle (memory_adapter Stored) relay hosted resolver verifier (create []) posted 7
    ≡ run_ingest
        (memory_adapter Stored)
        relay
        hosted
        resolver
        verifier
        (create [])
        posted
        follow
        (codes "{}")
        carol
        7
shared_inbox-first_example =
    shared_inbox-first (memory_adapter Stored) relay hosted resolver verifier (create []) posted 7
      follow (codes "{}") [] [] (codes "r/c") carol posted-IsShared follow-not_null
      follow-candidates tt carol-by_id

carol-acct : build_acct (codes "carol") (codes "r") ≡ some (codes "acct:carol@r")
unfolding build_acct acct_text
carol-acct = refl

carol-IsPlain : IsPlain (codes "carol")
carol-IsPlain = (refl, (refl, (refl, (refl, (refl, tt)))))

r-line : is_one_line (codes "r") ≡ true
unfolding is_one_line is_line_end
r-line = refl

parse_acct-build_acct_example :
    (parse_acct (codes "acct:carol@r")
      ≡ some (record { username = codes "carol"; host = codes "r" }))
    ↔ ((build_acct (codes "carol") (codes "r") ≡ some (codes "acct:carol@r"))
        × IsPlain (codes "carol")
        × (is_one_line (codes "r") ≡ true))
parse_acct-build_acct_example =
    parse_acct-build_acct (codes "acct:carol@r") (codes "carol") (codes "r")

webfinger-finds_example :
    (jrd : Value) × (handle
        (memory_adapter Stored)
        relay
        hosted
        resolver
        verifier
        (create [])
        asked
        7
      ≡ send_json (create []) jrd_type (some jrd))
    × (actor_url_from_webfinger jrd ≡ some (text (codes "r/c")))
webfinger-finds_example =
    webfinger-finds (memory_adapter Stored) relay hosted resolver verifier (create []) asked 7
      (record { pathname = codes "/.well-known/webfinger"; resource = some (codes "acct:carol@r") })
      carol (codes "r") (codes "acct:carol@r") refl refl refl refl carol-acct carol-IsPlain r-line
      carol-by_username refl

-- The document at e/m has the id of an actor that another server has.
abbrev forged : Value
forged = object (
    field (codes "id") (text (codes "v/a")) (
      field (codes "inbox") (text (codes "e/in"))
        (field (codes "publicKey") (object (field (codes "id") (text (codes "e/m#k")) end)) end)))

abbrev network : Network ℕ
network = record {
  fetch = λ url. got (record { status = 200; is_ok = true; json = got forged });
  create_public_key = λ pem. got 1;
  encode_uri_component = λ t. t;
  type_error = codes "null";
}

forged-Resolves : Resolves network (codes "e/m#k") forged 1
unfolding is_nullish get_field lookup_field as_text has_key truthy field_is text_eq text_dec
    Bool-cases
forged-Resolves = record {
  url = codes "e/m";
  before = (ground arith, inr (codes "k", refl));
  serves = (record { status = 200; is_ok = true; json = got forged }, refl, refl, refl);
  id = codes "v/a";
  has_id = refl;
  inbox = codes "e/in";
  has_inbox = refl;
  names = refl;
  makes = refl;
}

resolve_actor_public_key-Resolves_example :
    (resolve_actor_public_key network (codes "e/m#k") ≡ got (forged, 1))
    ↔ Resolves network (codes "e/m#k") forged 1
resolve_actor_public_key-Resolves_example =
    resolve_actor_public_key-Resolves network (codes "e/m#k") forged 1
