-- ===== src/Relay/Router/Inboxes.antt =====
-- Where the router finds an actor: by the addressees of an activity, and by a handle.
use qu_v.Prelude.{
  ℕ, ◌≡◌, refl, ◌∙◌, Bool, true, false, Text, codes, List, [], ◌∷◌, ◌++◌, All, none, some, map,
  text_dec, Bool-cases, text_eq, length, ◌==◌,
}
use qu_v.Core.Storage.{Operations}
use qu_v.As2.Value.{
  Value, text, object, array, cons, nil, field, end, to_items, get_field, lookup_field, as_text,
  items,
}
use qu_v.Store.{Stored, ApStore}
use qu_v.Ingest.{Request, Resolved}
use qu_v.ApCore.Webfinger.{
  is_nullish, build_acct, build_webfinger_resource, is_one_line, actor_url_from_webfinger,
  find_link, find_self, self_link, field_is, or_null,
}
use qu_v.ApCore.Webfinger.Handles.{IsPlain, parse_acct-build_acct}
use qu_v.Relay.Registry.{LocalActor, Registry, by_username, by_id}
use qu_v.Relay.Replies.{HttpRequest, Url, Relay, send_status, send_json}
use qu_v.Relay.Router.{
  first_registered, recipient_candidates, handle_webfinger, run_ingest, with_body, route_shared,
  handle_shared_inbox_post, handle_url, handle, jrd_type, base_url,
}

abbrev pub Unknown : Registry → List Text → Type 0
Unknown registry = All (λ id. by_id registry id ≡ none)

first_registered-append :
    (registry : Registry) (xs ys : List Text) (id : Text) (a : LocalActor)
    → Unknown registry xs
    → by_id registry id ≡ some a
    → first_registered registry (xs ++ id ∷ ys) ≡ some a
unfolding first_registered
first_registered-append registry [] ys id a u e = rw (e, first_registered) refl
first_registered-append registry (x ∷ xs) ys id a u e =
    rw (u.0, first_registered) (first_registered-append registry xs ys id a u.1 e)

first_registered-none :
    (registry : Registry) (xs : List Text)
    → Unknown registry xs
    → first_registered registry xs ≡ none
unfolding first_registered
first_registered-none registry [] u = refl
first_registered-none registry (x ∷ xs) u =
    rw (u.0, first_registered) (first_registered-none registry xs u.1)

module _ {S K : Type 0} (o : Operations S Stored) (relay : Relay) (registry : Registry)
    (resolve : Text → Resolved K) (verify : Request → K → Bool) (s : ApStore S) (req : HttpRequest)
    (now : ℕ) where
  -- The request is a POST to /inbox whose body is this JSON document.
  pub record IsShared (activity : Value) (raw_body : Text) : Type 0 where
    pub url : Url
    pub parsed_url : relay.parse_url (base_url relay) req.url ≡ some url
    pub path : url.pathname ≡ codes "/inbox"
    pub post : req.method ≡ codes "POST"
    pub read : req.body ≡ some raw_body
    pub parsed : relay.parse_json raw_body ≡ some activity

  shared-route :
      (activity : Value) (raw_body : Text)
      → IsShared activity raw_body
      → handle o relay registry resolve verify s req now
        ≡ route_shared o relay registry resolve verify s req now activity raw_body
  unfolding handle handle_url handle_shared_inbox_post with_body text_eq
  shared-route activity raw_body h =
      rw (h.parsed_url, handle)
        (rw (h.post, handle_url, h.path) (rw (h.read, with_body, h.parsed) refl))

  -- A POST to /inbox whose body is a JSON document other than null goes to the inbox of the first of
  -- its recipient candidates that is the id of a registered actor: it is answered as the pipeline's
  -- run for that actor is.
  pub shared_inbox-first :
      (activity : Value) (raw_body : Text) (xs ys : List Text) (id : Text) (a : LocalActor)
      → IsShared activity raw_body
      → is_nullish activity ≡ false
      → recipient_candidates activity ≡ xs ++ id ∷ ys
      → Unknown registry xs
      → by_id registry id ≡ some a
      → handle o relay registry resolve verify s req now
        ≡ run_ingest o relay registry resolve verify s req activity raw_body a now
  unfolding route_shared
  shared_inbox-first activity raw_body xs ys id a h z c u e =
      shared-route activity raw_body h
      ∙ rw (z, route_shared, c, first_registered-append registry xs ys id a u e) refl

  -- Where no candidate is the id of a registered actor, the answer is 400 and the store is kept.
  pub shared_inbox-Unknown :
      (activity : Value) (raw_body : Text)
      → IsShared activity raw_body
      → is_nullish activity ≡ false
      → Unknown registry (recipient_candidates activity)
      → handle o relay registry resolve verify s req now ≡ send_status s 400
  unfolding route_shared
  shared_inbox-Unknown activity raw_body h z u =
      shared-route activity raw_body h
      ∙ rw (z, route_shared, first_registered-none registry (recipient_candidates activity) u) refl

jrd-link :
    (u h actor_url subject : Text)
    → build_acct u h ≡ some subject
    → length actor_url == 0 ≡ false
    → (jrd : Value) × (build_webfinger_resource u h actor_url [] ≡ some jrd)
      × (actor_url_from_webfinger jrd ≡ some (text actor_url))
unfolding build_webfinger_resource actor_url_from_webfinger find_link find_self get_field
    lookup_field items field_is or_null is_nullish as_text text_eq text_dec Bool-cases
jrd-link u h actor_url subject b n = (
  object (
      field (codes "subject") (text subject) (
        field (codes "aliases") (array (to_items (map text (actor_url ∷ []))))
          (field (codes "links") (array (cons (self_link actor_url) nil)) end))),
  rw (b, build_webfinger_resource, n) refl,
  refl,
)

module _ {S K : Type 0} (o : Operations S Stored) (relay : Relay) (registry : Registry)
    (resolve : Text → Resolved K) (verify : Request → K → Bool) (s : ApStore S) (req : HttpRequest)
    (now : ℕ) where
  -- A GET of /.well-known/webfinger for the handle of a registered actor, as buildAcct() writes it of
  -- the actor's username, without `@`, and of a host in one line, is answered by a document in which
  -- actorUrlFromWebFinger() finds the actor's id, where that id is not empty.
  pub webfinger-finds :
      (url : Url) (a : LocalActor) (host resource : Text)
      → relay.parse_url (base_url relay) req.url ≡ some url
      → req.method ≡ codes "GET"
      → url.pathname ≡ codes "/.well-known/webfinger"
      → url.resource ≡ some resource
      → build_acct a.username host ≡ some resource
      → IsPlain a.username
      → is_one_line host ≡ true
      → by_username registry a.username ≡ some a
      → length a.actor_id == 0 ≡ false
      → (jrd : Value) × (handle o relay registry resolve verify s req now
          ≡ send_json s jrd_type (some jrd))
        × (actor_url_from_webfinger jrd ≡ some (text a.actor_id))
  unfolding handle handle_url handle_webfinger text_eq
  webfinger-finds url a host resource p m path q b plain line r n =
      let acct = (parse_acct-build_acct resource a.username host).1 (b, plain, line) in
      let (jrd, e, f) = jrd-link a.username host a.actor_id resource b n in
      (jrd, rw (p, handle, m, handle_url, path, q, handle_webfinger, acct, r, e) refl, f)
