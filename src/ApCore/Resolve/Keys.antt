-- ===== src/ApCore/Resolve/Keys.antt =====
-- When a key id is resolved to an actor and a key.
use qu_v.Prelude.{
  ◌≡◌, ◌≢◌, ◌↔◌, ◌⊎◌, refl, subst, ap, ◌∙◌, text_eq_iff, text_eq_refl, true, false, Text, codes,
  some, [], ◌∷◌, ◌++◌, ◌==◌, All, Bool-cases, Option-cases, inl, inr, arith,
}
use qu_v.As2.Value.{
  Value, undefined, null, boolean, number, text, array, object, get_field, as_text, truthy,
}
use qu_v.ApCore.Webfinger.{is_nullish, field_is}
use qu_v.ApCore.Resolve.{
  Result, got, error, then_with, Response, Network, before_hash, fetch_json, checked_actor,
  fetch_actor, has_key, key_of, resolve_actor_public_key,
}

-- An answer that serves the document.
abbrev pub Serves : {K : Type 0} → Network K → Text → Value → Type 0
Serves n url doc = (r : Response) × (n.fetch url ≡ got r) × (r.is_ok ≡ true) × (r.json ≡ got doc)

-- The part of a text before its first `#`, or the whole text where it has none.
abbrev pub IsBeforeHash : Text → Text → Type 0
IsBeforeHash t url =
    All (λ c. c ≢ b'#') url × ((t ≡ url) ⊎ ((rest : Text) × (t ≡ url ++ b'#' ∷ rest)))

before_hash-IsBeforeHash : (t : Text) → IsBeforeHash t (before_hash t)
unfolding before_hash
before_hash-IsBeforeHash [] = (tt, inl refl)
before_hash-IsBeforeHash (c ∷ cs) = elim (Bool-cases (c == b'#')) [
  | inl e ↦
      let same : c ≡ b'#' = ground (arith, e) in
      rw (e, before_hash) (tt, inr (cs, ap (λ z. z ∷ cs) same))
  | inr e ↦
      let other : c ≢ b'#' = ground (arith, e) in
      let (none_in, parts) = before_hash-IsBeforeHash cs in
      rw (e, before_hash)
        (
          (other, none_in),
          elim parts [ inl q ↦ inl (ap (◌∷◌ c) q) | inr (rest, q) ↦ inr (rest, ap (◌∷◌ c) q) ],
        )
]

before_hash-append :
    (url rest : Text) → All (λ c. c ≢ b'#') url → before_hash (url ++ b'#' ∷ rest) ≡ url
unfolding before_hash
before_hash-append [] rest h = refl
before_hash-append (c ∷ cs) rest h =
    let e : (c == b'#') ≡ false = ground (arith, h.0) in
    rw (e, before_hash) (ap (◌∷◌ c) (before_hash-append cs rest h.1))

before_hash-plain : (url : Text) → All (λ c. c ≢ b'#') url → before_hash url ≡ url
unfolding before_hash
before_hash-plain [] h = refl
before_hash-plain (c ∷ cs) h =
    let e : (c == b'#') ≡ false = ground (arith, h.0) in
    rw (e, before_hash) (ap (◌∷◌ c) (before_hash-plain cs h.1))

IsBeforeHash-eq : (t url : Text) → IsBeforeHash t url → before_hash t ≡ url
IsBeforeHash-eq t url (h, inl e) = ap before_hash e ∙ before_hash-plain url h
IsBeforeHash-eq t url (h, inr (rest, e)) = ap before_hash e ∙ before_hash-append url rest h

-- Only an object has fields that are texts.
as_text-object :
    (v : Value) (k t : Text)
    → as_text (get_field v k) ≡ some t
    → (truthy v ≡ true) × (is_nullish v ≡ false)
unfolding as_text get_field truthy is_nullish
as_text-object undefined k t e = cc
as_text-object null k t e = cc
as_text-object (boolean b) k t e = cc
as_text-object (number n) k t e = cc
as_text-object (text x) k t e = cc
as_text-object (array xs) k t e = cc
as_text-object (object fs) k t e = (refl, refl)

module _ {K : Type 0} (n : Network K) where
  has_key-names :
      (actor : Value) (key_id : Text)
      → (has_key n actor key_id ≡ true)
        ↔ (as_text (get_field (get_field actor (codes "publicKey")) (codes "id")) ≡ some key_id)
  unfolding has_key field_is
  has_key-names actor key_id =
      let key = get_field actor (codes "publicKey") in
      (
        (λ h. elim (Bool-cases (truthy key)) [
          | inr f ↦ cc (rw (f, has_key) at h)
          | inl f ↦ elim (Option-cases (as_text (get_field key (codes "id")))) [
            | inl q ↦ cc (rw (f, has_key, q, field_is) at h)
            | inr (t, q) ↦
                q ∙ ap some ((text_eq_iff t key_id).0 (rw (f, has_key, q, field_is) at h))
          ]
        ]),
        (λ e.
            let f = (as_text-object key (codes "id") key_id e).0 in
            rw (f, has_key, e, field_is) (text_eq_refl key_id)),
      )

  -- The URL that stands before the first `#` of the key id serves the actor, whose id and inbox are
  -- texts; the actor's publicKey has the key id as its id, and its PEM makes that key.
  pub record Resolves (key_id : Text) (actor : Value) (key : K) : Type 0 where
    pub url : Text
    pub before : IsBeforeHash key_id url
    pub serves : Serves n url actor
    pub id : Text
    pub has_id : as_text (get_field actor (codes "id")) ≡ some id
    pub inbox : Text
    pub has_inbox : as_text (get_field actor (codes "inbox")) ≡ some inbox
    pub names : as_text (get_field (get_field actor (codes "publicKey")) (codes "id")) ≡ some key_id
    pub makes :
        n.create_public_key (get_field (get_field actor (codes "publicKey")) (codes "publicKeyPem"))
        ≡ got key

  resolve_actor_public_key-got :
      (key_id : Text) (actor : Value) (key : K)
      → Resolves key_id actor key
      → resolve_actor_public_key n key_id ≡ got (actor, key)
  unfolding resolve_actor_public_key fetch_actor fetch_json checked_actor key_of
  resolve_actor_public_key-got key_id actor key h =
      let (r, f, o, j) = h.serves in
      rw
        (
          IsBeforeHash-eq key_id h.url h.before,
          f,
          then_with,
          o,
          j,
          resolve_actor_public_key,
          checked_actor,
          (as_text-object actor (codes "id") h.id h.has_id).1,
          h.has_id,
          h.has_inbox,
          key_of,
          (has_key-names actor key_id).1 h.names,
          h.makes,
        )
        refl

then_with_inv :
    {A B : Type 0} (m : Result A) (f : A → Result B) (b : B)
    → then_with m f ≡ got b
    → (a : A) × (m ≡ got a) × (f a ≡ got b)
then_with_inv (got a) f b e = (a, refl, e)
then_with_inv (error m) f b e = cc

module _ {K : Type 0} (n : Network K) where
  fetch_json_inv :
      (name url : Text) (doc : Value) → fetch_json n name url ≡ got doc → Serves n url doc
  unfolding fetch_json
  fetch_json_inv name url doc e =
      let (r, f, h) = then_with_inv (n.fetch url) _ doc e in
      elim (Bool-cases r.is_ok) [ inl o ↦ (r, f, o, rw o at h) | inr o ↦ cc (rw o at h) ]

  checked_actor_inv :
      (url : Text) (actor doc : Value)
      → checked_actor n url actor ≡ got doc
      → (actor ≡ doc)
        × (is_nullish actor ≡ false)
        × (id : Text) × (as_text (get_field actor (codes "id")) ≡ some id)
        × (inbox : Text) × (as_text (get_field actor (codes "inbox")) ≡ some inbox)
  unfolding checked_actor
  checked_actor_inv url actor doc e = elim (Bool-cases (is_nullish actor)) [
    | inl z ↦ cc (rw (z, checked_actor) at e)
    | inr z ↦ elim (Option-cases (as_text (get_field actor (codes "id")))) [
      | inl i ↦ cc (rw (z, checked_actor, i) at e)
      | inr (id, i) ↦ elim (Option-cases (as_text (get_field actor (codes "inbox")))) [
        | inl j ↦ cc (rw (z, checked_actor, i, j) at e)
        | inr (inbox, j) ↦ (cc (rw (z, checked_actor, i, j) at e), z, id, i, inbox, j)
      ]
    ]
  ]

  key_of_inv :
      (key_id : Text) (doc actor : Value) (key : K)
      → key_of n key_id doc ≡ got (actor, key)
      → (doc ≡ actor)
        × (has_key n doc key_id ≡ true)
        × (n.create_public_key
              (get_field (get_field doc (codes "publicKey")) (codes "publicKeyPem"))
            ≡ got key)
  unfolding key_of
  key_of_inv key_id doc actor key e = elim (Bool-cases (has_key n doc key_id)) [
    | inr h ↦ cc (rw (h, key_of) at e)
    | inl h ↦
        let (k, m, p) =
          then_with_inv
            (n.create_public_key
              (get_field (get_field doc (codes "publicKey")) (codes "publicKeyPem")))
            (λ k. got (doc, k)) (actor, key) (rw (h, key_of) at e) in
        (cc, h, cc)
  ]

  -- resolveActorPublicKey() gives an actor and a key exactly when fetching the URL that stands before
  -- the first `#` of the key id, or the key id itself where it has none, succeeds with an ok status,
  -- the response's JSON is the actor, its id and inbox are texts, the id of its publicKey is the key
  -- id, and the key is the one made from its publicKeyPem.
  pub resolve_actor_public_key-Resolves :
      (key_id : Text) (actor : Value) (key : K)
      → (resolve_actor_public_key n key_id ≡ got (actor, key)) ↔ Resolves n key_id actor key
  unfolding resolve_actor_public_key fetch_actor
  resolve_actor_public_key-Resolves key_id actor key = (
    (λ e.
        let (doc, f, k) =
          then_with_inv (fetch_actor n (before_hash key_id)) (key_of n key_id) (actor, key) e in
        let (raw, j, c) =
          then_with_inv (fetch_json n (codes "fetchActor") (before_hash key_id))
            (checked_actor n (before_hash key_id)) doc f in
        let (p, z, id, i, inbox, b) = checked_actor_inv (before_hash key_id) raw doc c in
        let (q, h, m) = key_of_inv key_id doc actor key k in
        let same : raw ≡ actor = p ∙ q in
        record {
          url = before_hash key_id;
          before = before_hash-IsBeforeHash key_id;
          serves =
              subst (Serves n (before_hash key_id)) same
                (fetch_json_inv (codes "fetchActor") (before_hash key_id) raw j);
          id = id;
          has_id = subst (λ v. as_text (get_field v (codes "id")) ≡ some id) same i;
          inbox = inbox;
          has_inbox = subst (λ v. as_text (get_field v (codes "inbox")) ≡ some inbox) same b;
          names = (has_key-names n actor key_id).0 (subst (λ v. has_key n v key_id ≡ true) q h);
          makes =
              subst
                (λ v.
                  n.create_public_key
                    (get_field (get_field v (codes "publicKey")) (codes "publicKeyPem"))
                  ≡ got key)
                q m;
        }),
    resolve_actor_public_key-got n key_id actor key,
  )
