-- ===== src/Relay/Router/Serves.antt =====
-- What a request to the AP server may do to the store.
use qu_v.Prelude.{
  ℕ, ◌≡◌, ◌≢◌, ◌⊎◌, inl, inr, refl, sym, ap, ◌∙◌, subst, Bool, true, false, Text, codes, List, [],
  ◌∷◌, ◌++◌, Option, none, some, length, ◌==◌, ◌&&◌, text_eq, Option-cases, if◌then◌else◌, arith,
}
use qu_v.Core.Storage.{Operations}
use qu_v.As2.Value.{Value, get_field, as_text}
use qu_v.Store.{Stored, ApStore}
use qu_v.Ingest.{
  Request, Failure, invalid_body, missing_signature, signature_invalid, missing_actor,
  actor_mismatch, key_resolution_failed, Run, accepted, threw, refused, Resolved, persist,
}
use qu_v.Ingest.Trust.{IsAuthentic, ingest_activity-IsAuthentic}
use qu_v.ApCore.Webfinger.{is_nullish, parse_acct, build_webfinger_resource}
use qu_v.ApCore.Documents.{build_ordered_collection_page, build_nodeinfo, build_nodeinfo_discovery}
use qu_v.Store.Methods.{get_children}
use qu_v.Relay.Registry.{LocalActor, Registry, by_username, by_id}
use qu_v.Relay.Replies.{
  HttpRequest, Url, Answer, Relay, send_status, caught, send_json, status_for_ingest_failure,
  answer_to,
}
use qu_v.Relay.Paths.{Sub, whole, inbox, outbox, followers, following, match_actor}
use qu_v.Relay.Router.{
  first_registered, recipient_candidates, is_route, handle_webfinger, handle_collection_get,
  request_to, run_ingest, with_body, handle_inbox_post, for_method, base_url, activity_type,
  jrd_type, json_type, route_shared, handle_shared_inbox_post, handle_actor, handle_path,
  handle_url, handle,
}

-- The store is as it was, and the response is not 202 Accepted.
abbrev pub Untouched : {S : Type 0} → ApStore S → Answer S → Type 0
Untouched s a = (a.store ≡ s) × (a.response.status ≢ 202)

first_registered-by_id :
    (registry : Registry) (ids : List Text) (a : LocalActor)
    → first_registered registry ids ≡ some a
    → (id : Text) × (by_id registry id ≡ some a)
unfolding first_registered
first_registered-by_id registry [] a e = cc
first_registered-by_id registry (id ∷ ids) a e = elim (Option-cases (by_id registry id)) [
  | inl n ↦ first_registered-by_id registry ids a (rw (n, first_registered) at e)
  | inr (b, n) ↦ (id, n ∙ (rw (n, first_registered) at e))
]

failure-ne : (f : Failure) → status_for_ingest_failure f ≢ 202
unfolding status_for_ingest_failure
failure-ne invalid_body = omega arith
failure-ne missing_signature = omega arith
failure-ne (key_resolution_failed m) = omega arith
failure-ne signature_invalid = omega arith
failure-ne missing_actor = omega arith
failure-ne actor_mismatch = omega arith

and-true : (a b : Bool) → (a && b) ≡ true → a ≡ true
and-true true b h = refl
and-true false b h = h

answer_to-store : {S : Type 0} (run : Run S) → (answer_to run).store ≡ run.store
unfolding answer_to caught
answer_to-store run =
    elim run.outcome as (λ x. (answer_to (record run { outcome = x })).store ≡ run.store) [
      | accepted v ↦ refl
      | refused f ↦ refl
      | threw e ↦ refl
    ]

module _ {S K : Type 0} (o : Operations S Stored) (relay : Relay) (registry : Registry)
    (resolve : Text → Resolved K) (verify : Request → K → Bool) (s : ApStore S) (req : HttpRequest)
    (now : ℕ) where
  -- The body of a POST is JSON, and an authentic activity for the inbox of a registered actor; the
  -- store is what the pipeline's side effects leave.
  pub record Delivers (a : Answer S) : Type 0 where
    pub post : text_eq req.method (codes "POST") ≡ true
    pub raw_body : Text
    pub read : req.body ≡ some raw_body
    pub activity : Value
    pub parsed : relay.parse_json raw_body ≡ some activity
    pub target : LocalActor
    pub name : Text
    pub registered : (by_username registry name ≡ some target) ⊎ (by_id registry name ≡ some target)
    pub authentic :
        IsAuthentic o resolve verify
          (request_to o relay registry resolve verify req activity raw_body target)
    pub persisted :
        a.store
        ≡ (persist o resolve verify s
            (request_to o relay registry resolve verify req activity raw_body target)
            now).store

  abbrev Fine : Answer S → Type 0
  Fine a = Delivers a ⊎ Untouched s a

  status-Fine : (n : ℕ) → n ≢ 202 → Fine (send_status s n)
  unfolding send_status
  status-Fine n h = inr (refl, h)

  json-Fine : (t : Text) (d : Option Value) → Fine (send_json s t d)
  unfolding send_json caught
  json-Fine t none = inr (refl, omega arith)
  json-Fine t (some d) = inr (refl, omega arith)

  turn : {x : Answer S} (y : Answer S) → x ≡ y → Fine y → Fine x
  turn y e h = subst Fine (sym e) h

  if-Fine :
      {x y : Answer S} (b : Bool)
      → (b ≡ true → Fine x)
      → (b ≡ false → Fine y)
      → Fine (if b then x else y)
  if-Fine true f g = f refl
  if-Fine false f g = g refl

  run_ingest-Fine :
      (raw_body : Text) (activity : Value) (target : LocalActor) (name : Text)
      → text_eq req.method (codes "POST") ≡ true
      → req.body ≡ some raw_body
      → relay.parse_json raw_body ≡ some activity
      → (by_username registry name ≡ some target) ⊎ (by_id registry name ≡ some target)
      → Fine (run_ingest o relay registry resolve verify s req activity raw_body target now)
  unfolding run_ingest
  run_ingest-Fine raw_body activity target name p b j r =
      let q = request_to o relay registry resolve verify req activity raw_body target in
      elim (ingest_activity-IsAuthentic o resolve verify s q now) [
        | inl (x, e) ↦ inl (record {
          post = p;
          raw_body = raw_body;
          read = b;
          activity = activity;
          parsed = j;
          target = target;
          name = name;
          registered = r;
          authentic = x;
          persisted = answer_to-store _ ∙ ap (λ z. z.store) e;
        })
        | inr (f, e, t) ↦ inr (answer_to-store _ ∙ t, rw (e, answer_to) (failure-ne f))
      ]

  with_body-Fine :
      (next : Value → Text → Answer S)
      → ((raw_body : Text) (activity : Value)
          → req.body ≡ some raw_body
          → relay.parse_json raw_body ≡ some activity
          → Fine (next activity raw_body))
      → Fine (with_body o relay registry resolve verify s req next)
  unfolding with_body caught
  with_body-Fine next f = elim (Option-cases req.body) [
    | inl n ↦ turn (caught s []) (rw (n, with_body) refl) (inr (refl, omega arith))
    | inr (raw_body, b) ↦ elim (Option-cases (relay.parse_json raw_body)) [
      | inl n ↦ turn (send_status s 400) (rw (b, with_body, n) refl) (status-Fine 400 (omega arith))
      | inr (activity, j) ↦
          turn (next activity raw_body) (rw (b, with_body, j) refl) (f raw_body activity b j)
    ]
  ]

  route_shared-Fine :
      (raw_body : Text) (activity : Value)
      → text_eq req.method (codes "POST") ≡ true
      → req.body ≡ some raw_body
      → relay.parse_json raw_body ≡ some activity
      → Fine (route_shared o relay registry resolve verify s req now activity raw_body)
  unfolding route_shared caught
  route_shared-Fine raw_body activity p b j =
      if-Fine (is_nullish activity) (λ z. inr (refl, omega arith))
        λ z. elim (Option-cases (first_registered registry (recipient_candidates activity))) [
          | inl n ↦ rw (n, first_registered) (status-Fine 400 (omega arith))
          | inr (target, n) ↦
              let (id, r) = first_registered-by_id registry _ target n in
              rw (n, first_registered) (run_ingest-Fine raw_body activity target id p b j (inr r))
        ]

  abbrev page : Text → Option Value
  page c = build_ordered_collection_page c c (get_children o s c (some 20)) [] []

  abbrev collection_page : Text → Answer S
  collection_page c =
      if length c == 0 then send_status s 404 else send_json s activity_type (page c)

  collection-Fine : (v : Value) → Fine (handle_collection_get o relay registry resolve verify s v)
  unfolding handle_collection_get
  collection-Fine v = elim (Option-cases (as_text v)) [
    | inl n ↦
        turn (send_status s 404) (rw (n, handle_collection_get) refl)
          (status-Fine 404 (omega arith))
    | inr (c, n) ↦ turn (collection_page c) (rw (n, handle_collection_get) refl) (
        if-Fine {x = send_status s 404} {y = send_json s activity_type (page c)} (length c == 0)
          (λ _. status-Fine 404 (omega arith)) (λ _. json-Fine activity_type (page c)))
  ]

  method-Fine :
      (method : Text) (a : Answer S)
      → (text_eq req.method method ≡ true → Fine a)
      → Fine (for_method o relay registry resolve verify s req method a)
  unfolding for_method
  method-Fine method a f =
      if-Fine (text_eq req.method method) f (λ _. status-Fine 404 (omega arith))

  handle_actor-Fine :
      (a : LocalActor) (sub : Sub) (name : Text)
      → by_username registry name ≡ some a
      → Fine (handle_actor o relay registry resolve verify s req a sub now)
  unfolding handle_actor handle_inbox_post
  handle_actor-Fine a whole name r =
      method-Fine (codes "GET") _ (λ _. json-Fine activity_type (some a.document))
  handle_actor-Fine a inbox name r =
      method-Fine (codes "POST") _
        λ p. with_body-Fine _ λ raw activity b j. run_ingest-Fine raw activity a name p b j (inl r)
  handle_actor-Fine a outbox name r =
      method-Fine (codes "GET") _ (λ _. collection-Fine (get_field a.document (codes "outbox")))
  handle_actor-Fine a followers name r =
      method-Fine (codes "GET") _ (λ _. collection-Fine (get_field a.document (codes "followers")))
  handle_actor-Fine a following name r =
      method-Fine (codes "GET") _ (λ _. collection-Fine (get_field a.document (codes "following")))

  handle_path-Fine : (url : Url) → Fine (handle_path o relay registry resolve verify s req url now)
  unfolding handle_path
  handle_path-Fine url = elim (Option-cases (match_actor url.pathname)) [
    | inl n ↦ turn (send_status s 404) (rw (n, handle_path) refl) (status-Fine 404 (omega arith))
    | inr (m, n) ↦ elim (Option-cases (by_username registry m.0)) [
      | inl u ↦
          turn (send_status s 404) (rw (n, handle_path, u) refl) (status-Fine 404 (omega arith))
      | inr (a, u) ↦
          turn (handle_actor o relay registry resolve verify s req a m.1 now)
            (rw (n, handle_path, u) refl) (handle_actor-Fine a m.1 m.0 u)
    ]
  ]

  webfinger-Fine : (url : Url) → Fine (handle_webfinger o relay registry resolve verify s url)
  unfolding handle_webfinger
  webfinger-Fine url = elim (Option-cases url.resource) [
    | inl n ↦
        turn (send_status s 400) (rw (n, handle_webfinger) refl) (status-Fine 400 (omega arith))
    | inr (t, n) ↦ elim (Option-cases (parse_acct t)) [
      | inl p ↦
          turn (send_status s 400) (rw (n, handle_webfinger, p) refl)
            (status-Fine 400 (omega arith))
      | inr (acct, p) ↦ elim (Option-cases (by_username registry acct.username)) [
        | inl u ↦
            turn (send_status s 404) (rw (n, handle_webfinger, p, u) refl)
              (status-Fine 404 (omega arith))
        | inr (a, u) ↦
            turn
              (send_json s jrd_type
                (build_webfinger_resource acct.username acct.host a.actor_id []))
              (rw (n, handle_webfinger, p, u) refl)
              (json-Fine jrd_type (build_webfinger_resource acct.username acct.host a.actor_id []))
      ]
    ]
  ]

  handle_url-Fine : (url : Url) → Fine (handle_url o relay registry resolve verify s req url now)
  unfolding handle_url handle_shared_inbox_post
  handle_url-Fine url =
      if-Fine
        (is_route o relay registry resolve verify req url (codes "GET")
          (codes "/.well-known/webfinger"))
        (λ _. webfinger-Fine url)
        λ _.
          if-Fine
            (is_route o relay registry resolve verify req url (codes "GET")
              (codes "/.well-known/nodeinfo"))
            (λ _.
              json-Fine jrd_type
                (build_nodeinfo_discovery (base_url relay ++ codes "/nodeinfo/2.1")))
            λ _.
              if-Fine
                (is_route o relay registry resolve verify req url (codes "GET")
                  (codes "/nodeinfo/2.1"))
                (λ _.
                  json-Fine json_type (build_nodeinfo relay.software_name relay.software_version))
                λ _.
                  if-Fine
                    (is_route o relay registry resolve verify req url (codes "POST")
                      (codes "/inbox"))
                    (λ p.
                      with_body-Fine (route_shared o relay registry resolve verify s req now)
                        λ raw activity b j.
                          route_shared-Fine raw activity
                            ((and-true (text_eq req.method (codes "POST")) _ p)) b j)
                    (λ _. handle_path-Fine url)

  -- A request either is a POST whose body is JSON, an authentic activity for the inbox of a registered
  -- actor, and the store is then what the pipeline's side effects leave; or it leaves the store as it
  -- was, and is not answered by 202.
  pub handle-Delivers :
      Delivers (handle o relay registry resolve verify s req now)
      ⊎ Untouched s (handle o relay registry resolve verify s req now)
  unfolding handle caught
  handle-Delivers = elim (Option-cases (relay.parse_url (base_url relay) req.url)) [
    | inl n ↦ turn (caught s []) (rw (n, handle) refl) (inr (refl, omega arith))
    | inr (url, n) ↦
        turn (handle_url o relay registry resolve verify s req url now) (rw (n, handle) refl)
          (handle_url-Fine url)
  ]
