-- ===== src/Examples/Requests.antt =====
-- A signed request.
use qu_v.Prelude.{
  ℕ, ◌≡◌, ◌≢◌, refl, true, Text, codes, some, List, [], ◌∷◌, length, replicate, zero, suc, All,
  text_eq, text_eq_refl, text_dec, Bool-cases, arith,
}
use qu_v.Core.JsMap
use qu_v.Core.JsMap.{Entries, find}
use qu_v.ApCore.Signature.{
  Platform, quote, present, out_headers, request_target, set_default, with_digest,
  digest_header_for, sign_request, verify_request,
}
use qu_v.ApCore.Signature.Scan.{Lacks, IsQuotable}
use qu_v.ApCore.Signature.Signs.{IsKeyPair, verify_request-sign_request}

-- A platform whose signatures are a key and as many letters as the text has.
abbrev toy : Platform ℕ ℕ
toy = record {
  parse_url = λ t. some (record { host = codes "h"; pathname = codes "/inbox"; search = [] });
  digest = λ t. t;
  sign = λ a t. a ∷ replicate (length t) b'x';
  verify = λ p t s. text_eq s (p ∷ replicate (length t) b'x');
  to_base64 = λ b. b;
  from_base64 = λ t. t;
}

replicate-Lacks : (n : ℕ) → Lacks quote (replicate n b'x')
replicate-Lacks zero = tt
replicate-Lacks (suc n) = (refl, replicate-Lacks n)

toy-IsKeyPair : IsKeyPair toy b'k' b'k'
toy-IsKeyPair = record {
  verify-sign = λ t. text_eq_refl (b'k' ∷ replicate (length t) b'x');
  from_base64-to_base64 = λ t. refl;
  quotable = λ t. record { lacks = (refl, replicate-Lacks (length t)); filled = ground arith };
}

abbrev names : List Text
names = codes "host" ∷ codes "date" ∷ codes "digest" ∷ []

names-IsQuotable : All IsQuotable (request_target ∷ names)
names-IsQuotable = (
  record { lacks = ground arith; filled = refl },
  (
    record { lacks = ground arith; filled = refl },
    (
      record { lacks = ground arith; filled = refl },
      (record { lacks = ground arith; filled = refl }, tt),
    ),
  ),
)

names-Lacks : All (Lacks b' ') (request_target ∷ names)
names-Lacks = ground arith

names-ne : All (λ n. n ≢ codes "signature") (request_target ∷ names)
names-ne = ((λ e. cc (e)), ((λ e. cc (e)), ((λ e. cc (e)), ((λ e. cc (e)), tt))))

verify_request-sign_request_example :
    (out : Entries Text) × (sign_request toy
        (codes "POST")
        (codes "https://h/inbox")
        []
        (some (codes "{}"))
        (codes "https://h/a#key")
        b'k'
        (request_target ∷ names)
        (codes "today")
      ≡ some out)
    × (verify_request toy (codes "POST") (codes "https://h/inbox") out (some (codes "{}")) b'k'
        ≡ true)
unfolding present out_headers set_default with_digest digest_header_for find JsMap.put text_eq
    text_dec Bool-cases
verify_request-sign_request_example =
    verify_request-sign_request toy b'k' b'k' (codes "POST") (codes "https://h/inbox")
      (codes "https://h/a#key") (codes "today") request_target [] (some (codes "{}"))
      (request_target ∷ names) names
      (record { host = codes "h"; pathname = codes "/inbox"; search = [] }) toy-IsKeyPair refl refl
      refl names-IsQuotable names-Lacks names-ne (record { lacks = ground arith; filled = refl })
