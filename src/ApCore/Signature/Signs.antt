-- ===== src/ApCore/Signature/Signs.antt =====
-- A request that signRequest() signs is one that verifyRequest() accepts.
use mathlib.Core.Option
use qu_v.Prelude.{
  ◌≡◌, ◌≢◌, refl, ap, ap₂, subst, ◌∙◌, inl, inr, true, false, Text, codes, Option, none, some, List,
  [], ◌∷◌, ◌++◌, length, ◌==◌, if◌then◌else◌, All, if_pos, if_neg, text_eq, text_eq_refl, text_dec,
  Bool-cases, Option-cases, arith,
}
use qu_v.Core.JsMap
use qu_v.Core.JsMap.{Entries, find}
use qu_v.Core.JsMap.Laws.{find-put}
use qu_v.ApCore.Signature.{
  Url, Platform, attribute, join, to_lower, param, signature_header, set_default, request_target,
  present, request_target_line, line_of, lines, build_signing_string, digest_header_for,
  with_digest, out_headers, sign_request, has_wrong_digest, verify_request,
}
use qu_v.ApCore.Signature.Scan.{Lacks, IsQuotable, parse-signature_header}

find-set_default :
    (hs : Entries Text) (k j v : Text) → j ≢ k → find (set_default hs k v) j ≡ find hs j
unfolding set_default
find-set_default hs k j v n = elim (Option-cases (find hs k)) [
  | inl e ↦ rw (e, set_default) (find-put hs k j v ∙ if_neg (text_dec j k) n _ _)
  | inr (w, e) ↦ rw (e, set_default) refl
]

find-set_default_self :
    (hs : Entries Text) (k v : Text) → find hs k ≡ none → find (set_default hs k v) k ≡ some v
unfolding set_default
find-set_default_self hs k v e =
    rw (e, set_default) (find-put hs k k v ∙ if_pos (text_dec k k) refl _ _)

filled-param :
    (hs : Entries Text) (k v : Text)
    → find hs k ≡ some v
    → (length v == 0) ≡ false
    → param hs k ≡ some v
unfolding param
filled-param hs k v e h = rw (e, param, h) refl

digest-ne_host : codes "digest" ≢ codes "host"
digest-ne_host e = cc (e)

digest-ne_date : codes "digest" ≢ codes "date"
digest-ne_date e = cc (e)

digest-ne_signature : codes "digest" ≢ codes "signature"
digest-ne_signature e = cc (e)

header-filled :
    (key_id : Text) (names : List Text) (sig : Text)
    → (length (signature_header key_id names sig) == 0) ≡ false
unfolding signature_header attribute
header-filled key_id names sig = ground arith

module _ {Private Public : Type 0} (c : Platform Private Public) where
  digest-filled : (b : Text) → (length (digest_header_for c b) == 0) ≡ false
  unfolding digest_header_for
  digest-filled b = ground arith

  request_target_line-some :
      (method url : Text) (u : Url)
      → c.parse_url url ≡ some u
      → (l : Text) × (request_target_line c method url ≡ some l)
  unfolding request_target_line
  request_target_line-some method url u e =
      (to_lower method ++ (b' ' ∷ (u.pathname ++ u.search)), rw (e, request_target_line) refl)

  line_of-target :
      (method url n l : Text) (hs : Entries Text)
      → text_eq n request_target ≡ true
      → request_target_line c method url ≡ some l
      → (x : Text) × (line_of c method url hs n ≡ some x)
  unfolding line_of
  line_of-target method url n l hs t e = (n ++ (b':' ∷ b' ' ∷ l), rw (t, line_of, e) refl)

  line_of-header :
      (method url n v : Text) (hs : Entries Text)
      → text_eq n request_target ≡ false
      → find hs n ≡ some v
      → (x : Text) × (line_of c method url hs n ≡ some x)
  unfolding line_of
  line_of-header method url n v hs t e = (n ++ (b':' ∷ b' ' ∷ v), rw (t, line_of, e) refl)

  -- Every name that is present has a line.
  lines-present :
      (method url : Text) (u : Url) (hs : Entries Text) (ns : List Text)
      → c.parse_url url ≡ some u
      → (ls : List Text) × (lines c method url hs (present hs ns) ≡ some ls)
  unfolding present lines
  lines-present method url u hs [] e = ([], refl)
  lines-present method url u hs (n ∷ ns) e =
      let (ls, q) = lines-present method url u hs ns e in
      let (l, r) = request_target_line-some method url u e in
      elim (Bool-cases (text_eq n request_target)) [
        | inl t ↦
            let (x, y) = line_of-target method url n l hs t r in
            (x ∷ ls, rw (t, present, y, lines, q) refl)
        | inr f ↦ elim (Option-cases (find hs n)) [
          | inl z ↦ (ls, rw (f, present, z) q)
          | inr (v, z) ↦
              let (x, y) = line_of-header method url n v hs f z in
              (x ∷ ls, rw (f, present, z, y, lines, q) refl)
        ]
      ]

  line_of-signature :
      (method url v n : Text) (hs : Entries Text)
      → n ≢ codes "signature"
      → line_of c method url (JsMap.put hs (codes "signature") v) n ≡ line_of c method url hs n
  unfolding line_of
  line_of-signature method url v n hs h =
      ap
        (λ z.
          Option.map (λ w. n ++ (b':' ∷ b' ' ∷ w))
            (if text_eq n request_target then request_target_line c method url else z))
        (find-put hs (codes "signature") n v ∙ if_neg (text_dec n (codes "signature")) h _ _)

  -- The signature is none of the signed headers, so adding it does not change their lines.
  lines-signature :
      (method url v : Text) (hs : Entries Text) (ns : List Text)
      → All (λ n. n ≢ codes "signature") ns
      → lines c method url (JsMap.put hs (codes "signature") v) ns ≡ lines c method url hs ns
  unfolding lines
  lines-signature method url v hs [] h = refl
  lines-signature method url v hs (n ∷ ns) h =
      ap₂ (λ x y. elim x [ none ↦ none | some l ↦ Option.map (λ ls. l ∷ ls) y ])
        (line_of-signature method url v n hs h.0) (lines-signature method url v hs ns h.1)

  has_wrong_digest-out_headers :
      (headers : Entries Text) (host date v : Text) (body : Option Text)
      → find headers (codes "digest") ≡ none
      → has_wrong_digest c
          (JsMap.put (out_headers c headers host date body) (codes "signature") v)
          body
        ≡ false
  unfolding has_wrong_digest out_headers with_digest
  has_wrong_digest-out_headers headers host date v none e = refl
  has_wrong_digest-out_headers headers host date v (some b) e =
      let hs = set_default (set_default headers (codes "host") host) (codes "date") date in
      let free : find hs (codes "digest") ≡ none =
        find-set_default (set_default headers (codes "host") host) (codes "date") (codes "digest")
          date digest-ne_date
        ∙ find-set_default headers (codes "host") (codes "digest") host digest-ne_host
        ∙ e in
      let d = digest_header_for c b in
      let out = JsMap.put (set_default hs (codes "digest") d) (codes "signature") v in
      let found : find out (codes "digest") ≡ some d =
        find-put (set_default hs (codes "digest") d) (codes "signature") (codes "digest") v
        ∙ if_neg (text_dec (codes "digest") (codes "signature")) digest-ne_signature _ _
        ∙ find-set_default_self hs (codes "digest") d free in
      let read : param out (codes "digest") ≡ some d =
        filled-param out (codes "digest") d found (digest-filled b) in
      rw (read, has_wrong_digest, text_eq_refl d) refl

  build-present :
      (method url : Text) (u : Url) (hs : Entries Text) (ns names : List Text)
      → c.parse_url url ≡ some u
      → present hs ns ≡ names
      → (t : Text) × (build_signing_string c method url hs names ≡ some t)
  unfolding build_signing_string
  build-present method url u hs ns names e p =
      let (ls, q) = lines-present method url u hs ns e in
      (
        join 10 ls,
        subst (λ z. Option.map (join 10) (lines c method url hs z) ≡ some (join 10 ls)) p
            (rw q refl),
      )

  build-signature :
      (method url v : Text) (hs : Entries Text) (ns : List Text)
      → All (λ n. n ≢ codes "signature") ns
      → build_signing_string c method url (JsMap.put hs (codes "signature") v) ns
        ≡ build_signing_string c method url hs ns
  unfolding build_signing_string
  build-signature method url v hs ns h =
      ap (Option.map (join 10)) (lines-signature method url v hs ns h)

-- What is relied on of RSA and Base64: a signature verifies with the key pair's public key, and its
-- Base64 is read back, is not empty and has no quotes.
pub record IsKeyPair {Private Public : Type 0} (c : Platform Private Public) (a : Private)
    (p : Public) : Type 0 where
  pub verify-sign : (t : Text) → c.verify p t (c.sign a t) ≡ true
  pub from_base64-to_base64 : (t : Text) → c.from_base64 (c.to_base64 (c.sign a t)) ≡ c.sign a t
  pub quotable : (t : Text) → IsQuotable (c.to_base64 (c.sign a t))

-- For a key pair and a URL that parses, and when the caller gives no digest header: where the headers
-- that are there and to be signed are one at least, none of them the signature, without quotes and
-- spaces in their names, and the key id has no quotes, signRequest() returns headers, and
-- verifyRequest() accepts them for the same method, URL and body.
pub verify_request-sign_request :
    {Private Public : Type 0} (c : Platform Private Public) (a : Private) (p : Public)
    (method url key_id date name : Text) (headers : Entries Text) (body : Option Text)
    (signed names : List Text) (u : Url)
    → IsKeyPair c a p
    → c.parse_url url ≡ some u
    → find headers (codes "digest") ≡ none
    → present (out_headers c headers u.host date body) signed ≡ name ∷ names
    → All IsQuotable (name ∷ names)
    → All (Lacks b' ') (name ∷ names)
    → All (λ n. n ≢ codes "signature") (name ∷ names)
    → IsQuotable key_id
    → (out : Entries Text) × (sign_request c method url headers body key_id a signed date
        ≡ some out)
      × (verify_request c method url out body p ≡ true)
unfolding sign_request verify_request
verify_request-sign_request c a p method url key_id date name headers body signed names u pair e
      free there quotable spaces others key =
    let hs = out_headers c headers u.host date body in
    let (t, q) = build-present c method url u hs signed (name ∷ names) e there in
    let sig = c.to_base64 (c.sign a t) in
    let header = signature_header key_id (name ∷ names) sig in
    let out = JsMap.put hs (codes "signature") header in
    let found : param out (codes "signature") ≡ some header =
      filled-param out (codes "signature") header
        (find-put hs (codes "signature") (codes "signature") header
          ∙ if_pos (text_dec (codes "signature") (codes "signature")) refl _ _)
        (header-filled key_id (name ∷ names) sig) in
    let same = build-signature c method url header hs (name ∷ names) others ∙ q in
    (
      out,
      rw (e, sign_request, there, q)
          (ap (λ z. some (JsMap.put hs (codes "signature") (signature_header key_id z sig))) there),
      rw
          (
            found,
            verify_request,
            parse-signature_header key_id sig name names key (pair.quotable t) quotable spaces,
            has_wrong_digest-out_headers c headers u.host date header body free,
            same,
            pair.from_base64-to_base64 t,
          )
          (pair.verify-sign t),
    )
