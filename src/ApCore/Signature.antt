-- ===== src/ApCore/Signature.antt =====
-- packages/ap-core/src/http-signature.js: signRequest() and verifyRequest(). URL, SHA-256, RSA and
-- Base64 are an interface; a header set is an object of texts, and a body a text. none is an error.
pub mod Scan
pub mod Signs
use mathlib.Core.Option
use qu_v.Prelude.{
  ℕ, ◌+◌, Bool, true, false, not, ◌&&◌, ◌||◌, Text, codes, Option, none, some, List, [], ◌∷◌, ◌++◌,
  length, ◌==◌, leb, if◌then◌else◌, text_eq,
}
use qu_v.Core.JsMap
use qu_v.Core.JsMap.{Entries, find}

pub record Url : Type 0 where
  pub host : Text
  pub pathname : Text
  pub search : Text

-- new URL(), the SHA-256 of a text's UTF-8 in Base64, RSA-SHA256, and Base64.
pub record Platform (Private Public : Type 0) : Type 0 where
  pub parse_url : Text → Option Url
  pub digest : Text → Text
  pub sign : Private → Text → List ℕ
  pub verify : Public → Text → List ℕ → Bool
  pub to_base64 : List ℕ → Text
  pub from_base64 : Text → List ℕ

-- text.toLowerCase(), on the ASCII letters that a method has
unfoldable pub to_lower : Text → Text
to_lower [] = []
to_lower (c ∷ cs) = (if leb b'A' c && leb c b'Z' then c + 32 else c) ∷ to_lower cs

-- lines.join(separator)
unfoldable pub join : ℕ → List Text → Text
join sep [] = []
join sep (x ∷ []) = x
join sep (x ∷ y ∷ ys) = x ++ sep ∷ join sep (y ∷ ys)

-- The first part of text.split(separator), and the others, with a part begun.
unfoldable pub split_from : ℕ → Text → Text → List Text
split_from sep part [] = part ∷ []
split_from sep part (c ∷ cs) =
    let next = if c == sep then [] else part ++ c ∷ [] in
    let rest = split_from sep next cs in if c == sep then part ∷ rest else rest

-- text.split(separator)
unfoldable pub split : ℕ → Text → List Text
unfolding split_from
split sep t = split_from sep [] t

-- Where the pattern /(\w+)="([^"]*)"/g stands: in a word, behind `word=`, or inside the quotes.
pub data Mode : Type 0 where
  word : Text → Mode
  equals : Text → Mode
  quoted : (name value : Text) → Mode

-- \w
unfoldable pub is_word : ℕ → Bool
is_word c =
    (leb b'0' c && leb c b'9')
    || (leb b'A' c && leb c b'Z')
    || (leb b'a' c && leb c b'z')
    || c == b'_'

abbrev pub quote : ℕ
quote = 34

-- One character: where the pattern stands next, and the match that it ends.
unfoldable pub advance : Mode → ℕ → Mode × Option (Text × Text)
unfolding is_word
advance (word w) c =
    if is_word c
    then (word (w ++ c ∷ []), none)
    else if c == b'=' && not (length w == 0)
    then (equals w, none)
    else (word [], none)
advance (equals w) c =
    if c == quote
    then (quoted w [], none)
    else if is_word c
    then (word (c ∷ []), none)
    else (word [], none)
advance (quoted w v) c =
    if c == quote then (word [], some (w, v)) else (quoted w (v ++ c ∷ []), none)

unfoldable pub continue_from :
    Mode × Option (Text × Text) → (Mode → List (Text × Text)) → List (Text × Text)
continue_from (m, none) next = next m
continue_from (m, some p) next = p ∷ next m

-- The matches of the pattern.
unfoldable pub matches : Mode → Text → List (Text × Text)
unfolding advance continue_from
matches m [] = []
matches m (c ∷ cs) = continue_from (advance m c) (λ n. matches n cs)

-- params[match[1]] = match[2], for each match
unfoldable pub params : Entries Text → List (Text × Text) → Entries Text
params ps [] = ps
params ps ((k, v) ∷ ms) = params (JsMap.put ps k v) ms

pub record Parsed : Type 0 where
  pub key_id : Text
  pub signed_header_names : List Text
  pub signature : Text

-- The value of a parameter, where it is truthy.
unfoldable pub param : Entries Text → Text → Option Text
unfolding find
param ps k = elim (find ps k) [ none ↦ none | some v ↦ if length v == 0 then none else some v ]

-- The parameters that parseSignatureHeader() needs.
unfoldable pub parsed_of : Entries Text → Option Parsed
unfolding param split
parsed_of ps = elim (param ps (codes "keyId")) [
  | none ↦ none
  | some key_id ↦ elim (param ps (codes "signature")) [
    | none ↦ none
    | some signature ↦ elim (param ps (codes "headers")) [
      | none ↦ none
      | some headers ↦ some (record {
        key_id = key_id;
        signed_header_names = split b' ' headers;
        signature = signature;
      })
    ]
  ]
]

-- parseSignatureHeader(signatureHeader), with the signature still in Base64; the algorithm is not read.
unfoldable pub parse_signature_header : Text → Option Parsed
unfolding params matches parsed_of
parse_signature_header header = parsed_of (params [] (matches (word []) header))

-- A part of the Signature header, before what follows it.
unfoldable pub attribute : Text → Text → Text → Text
attribute prefix value rest = prefix ++ (quote ∷ (value ++ quote ∷ rest))

-- The value of the Signature header.
unfoldable pub signature_header : Text → List Text → Text → Text
unfolding join attribute
signature_header key_id names signature = attribute (codes "keyId=") key_id (
    attribute (codes ",algorithm=") (codes "rsa-sha256") (
      attribute (codes ",headers=") (join b' ' names)
        (attribute (codes ",signature=") signature [])))

-- outHeaders[name] ??= value
unfoldable pub set_default : Entries Text → Text → Text → Entries Text
unfolding find
set_default hs k v = elim (find hs k) [ none ↦ JsMap.put hs k v | some w ↦ hs ]

abbrev pub request_target : Text
request_target = codes "(request-target)"

-- signedHeaderNames.filter(…)
unfoldable pub present : Entries Text → List Text → List Text
unfolding find
present hs [] = []
present hs (n ∷ ns) =
    let rest = present hs ns in
    if text_eq n request_target
    then n ∷ rest
    else elim (find hs n) [ none ↦ rest | some v ↦ n ∷ rest ]

module _ {Private Public : Type 0} (c : Platform Private Public) where
  -- requestTargetLine(method, url)
  unfoldable pub request_target_line : Text → Text → Option Text
  unfolding to_lower
  request_target_line method url = elim (c.parse_url url) [
    | none ↦ none
    | some u ↦ some (to_lower method ++ (b' ' ∷ (u.pathname ++ u.search)))
  ]

  -- The line of one name.
  unfoldable pub line_of : Text → Text → Entries Text → Text → Option Text
  unfolding request_target_line find
  line_of method url hs name =
      let value =
        if text_eq name request_target then request_target_line method url else find hs name in
      Option.map (λ v. name ++ (b':' ∷ b' ' ∷ v)) value

  unfoldable pub lines : Text → Text → Entries Text → List Text → Option (List Text)
  unfolding line_of
  lines method url hs [] = some []
  lines method url hs (n ∷ ns) = elim (line_of method url hs n) [
    | none ↦ none
    | some l ↦ Option.map (λ ls. l ∷ ls) (lines method url hs ns)
  ]

  -- buildSigningString(method, url, headers, signedHeaderNames); '\n' is 10
  unfoldable pub build_signing_string : Text → Text → Entries Text → List Text → Option Text
  unfolding lines join
  build_signing_string method url hs names = Option.map (join 10) (lines method url hs names)

  -- digestHeaderFor(body)
  unfoldable pub digest_header_for : Text → Text
  digest_header_for body = codes "SHA-256=" ++ c.digest body

  unfoldable pub with_digest : Entries Text → Option Text → Entries Text
  unfolding set_default digest_header_for
  with_digest hs none = hs
  with_digest hs (some body) = set_default hs (codes "digest") (digest_header_for body)

  -- outHeaders before the signature
  unfoldable pub out_headers : Entries Text → Text → Text → Option Text → Entries Text
  unfolding set_default with_digest
  out_headers headers host date body =
      with_digest (set_default (set_default headers (codes "host") host) (codes "date") date) body

  -- signRequest(), after the checks for missing arguments, at the time that prints as `date`
  unfoldable pub sign_request :
      Text
      → Text
      → Entries Text
      → Option Text
      → Text
      → Private
      → List Text
      → Text
      → Option (Entries Text)
  unfolding out_headers build_signing_string signature_header present
  sign_request method url headers body key_id private_key signed_header_names date =
      elim (c.parse_url url) [
        | none ↦ none
        | some u ↦
            let hs = out_headers headers u.host date body in
            let names = present hs signed_header_names in
            elim (build_signing_string method url hs names) [
              | none ↦ none
              | some s ↦ some (
                  JsMap.put hs (codes "signature")
                    (signature_header key_id names (c.to_base64 (c.sign private_key s))))
            ]
      ]

  -- headers.digest && body !== undefined, and the digest is another
  unfoldable pub has_wrong_digest : Entries Text → Option Text → Bool
  unfolding param digest_header_for
  has_wrong_digest hs none = false
  has_wrong_digest hs (some body) = elim (param hs (codes "digest")) [
    | none ↦ false
    | some d ↦ not (text_eq d (digest_header_for body))
  ]

  -- verifyRequest(), for a public key that is given
  unfoldable pub verify_request : Text → Text → Entries Text → Option Text → Public → Bool
  unfolding param parse_signature_header has_wrong_digest build_signing_string
  verify_request method url headers body public_key = elim (param headers (codes "signature")) [
    | none ↦ false
    | some header ↦ elim (parse_signature_header header) [
      | none ↦ false
      | some parsed ↦
          if has_wrong_digest headers body
          then false
          else elim (build_signing_string method url headers parsed.signed_header_names) [
            | none ↦ false
            | some s ↦ c.verify public_key s (c.from_base64 parsed.signature)
          ]
    ]
  ]
