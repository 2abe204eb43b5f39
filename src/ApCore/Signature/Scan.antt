-- ===== src/ApCore/Signature/Scan.antt =====
-- Reading back the Signature header that signRequest() writes.
use qu_v.Prelude.{
  ℕ, ◌≡◌, refl, sym, ap, ◌∙◌, true, false, Text, codes, some, List, [], ◌∷◌, ◌++◌, length, ◌==◌,
  All, append_assoc, append-nil, text_eq, text_dec, Bool-cases, arith,
}
use qu_v.Core.JsMap
use qu_v.Core.JsMap.{Entries, find}
use qu_v.ApCore.Signature.{
  attribute, continue_from, parsed_of, join, split_from, split, word, quoted, is_word, quote,
  advance, matches, params, param, parse_signature_header, signature_header,
}

-- The text has no such character.
abbrev pub Lacks : ℕ → Text → Type 0
Lacks c t = All (λ x. (x == c) ≡ false) t

matches-quoted :
    (w v t : Text) (cs : Text)
    → Lacks quote t
    → matches (quoted w v) (t ++ quote ∷ cs) ≡ (w, v ++ t) ∷ matches (word []) cs
unfolding matches advance continue_from
matches-quoted w v [] cs h = ap (λ z. (w, z) ∷ matches (word []) cs) (sym (append-nil v))
matches-quoted w v (x ∷ t) cs h =
    rw (h.0, matches)
      (matches-quoted w (v ++ x ∷ []) t cs h.1
        ∙ ap (λ z. (w, z) ∷ matches (word []) cs) (append_assoc v (x ∷ []) t))

-- Each part of the header is one match.
matches-header :
    (key_id signature : Text) (names : List Text)
    → Lacks quote key_id
    → Lacks quote (join b' ' names)
    → Lacks quote signature
    → matches (word []) (signature_header key_id names signature)
      ≡ (codes "keyId", key_id)
        ∷ (codes "algorithm", codes "rsa-sha256")
        ∷ (codes "headers", join b' ' names)
        ∷ (codes "signature", signature)
        ∷ []
unfolding matches advance continue_from is_word signature_header attribute
matches-header key_id signature names a b c =
    matches-quoted (codes "keyId") [] key_id _ a
    ∙ ap (λ z. (codes "keyId", key_id) ∷ (codes "algorithm", codes "rsa-sha256") ∷ z)
        (matches-quoted (codes "headers") [] (join b' ' names) _ b
          ∙ ap (λ z. (codes "headers", join b' ' names) ∷ z)
              (matches-quoted (codes "signature") [] signature [] c))

split-part : (sep : ℕ) (part x : Text) → Lacks sep x → split_from sep part x ≡ (part ++ x) ∷ []
unfolding split_from
split-part sep part [] h = ap (λ z. z ∷ []) (sym (append-nil part))
split-part sep part (c ∷ x) h =
    rw (h.0, split_from)
      (split-part sep (part ++ c ∷ []) x h.1 ∙ ap (λ z. z ∷ []) (append_assoc part (c ∷ []) x))

split-more :
    (sep : ℕ) (part x rest : Text)
    → Lacks sep x
    → split_from sep part (x ++ sep ∷ rest) ≡ (part ++ x) ∷ split_from sep [] rest
unfolding split_from
split-more sep part [] rest h =
    let e : (sep == sep) ≡ true = ground arith in
    rw (e, split_from) (ap (λ z. z ∷ split_from sep [] rest) (sym (append-nil part)))
split-more sep part (c ∷ x) rest h =
    rw (h.0, split_from)
      (split-more sep (part ++ c ∷ []) x rest h.1
        ∙ ap (λ z. z ∷ split_from sep [] rest) (append_assoc part (c ∷ []) x))

pub split-join :
    (sep : ℕ) (x : Text) (xs : List Text)
    → Lacks sep x
    → All (Lacks sep) xs
    → split sep (join sep (x ∷ xs)) ≡ x ∷ xs
unfolding split join
split-join sep x [] h a = split-part sep [] x h
split-join sep x (y ∷ ys) h a =
    split-more sep [] x (join sep (y ∷ ys)) h ∙ ap (λ z. x ∷ z) (split-join sep y ys a.0 a.1)

Lacks-append : (c : ℕ) (x y : Text) → Lacks c x → Lacks c y → Lacks c (x ++ y)
Lacks-append c [] y h k = k
Lacks-append c (a ∷ x) y h k = (h.0, Lacks-append c x y h.1 k)

Lacks-join :
    (c sep : ℕ) (xs : List Text) → (sep == c) ≡ false → All (Lacks c) xs → Lacks c (join sep xs)
unfolding join
Lacks-join c sep [] e h = tt
Lacks-join c sep (x ∷ []) e h = h.0
Lacks-join c sep (x ∷ y ∷ ys) e h = Lacks-append c x _ h.0 (e, Lacks-join c sep (y ∷ ys) e h.1)

-- A text that stands in quotes in the header.
pub record IsQuotable (t : Text) : Type 0 where
  pub lacks : Lacks quote t
  pub filled : (length t == 0) ≡ false

join-filled :
    (sep : ℕ) (t : Text) (ts : List Text)
    → (length t == 0) ≡ false
    → (length (join sep (t ∷ ts)) == 0) ≡ false
unfolding join
join-filled sep [] ts h = cc (h)
join-filled sep (c ∷ t) [] h = ground arith
join-filled sep (c ∷ t) (y ∷ ys) h = ground arith

parsed-header :
    (key_id signature name : Text) (names : List Text)
    → IsQuotable key_id
    → IsQuotable signature
    → All IsQuotable (name ∷ names)
    → All (Lacks b' ') (name ∷ names)
    → parsed_of (
        params [] (
          (codes "keyId", key_id)
          ∷ (codes "algorithm", codes "rsa-sha256")
          ∷ (codes "headers", join b' ' (name ∷ names))
          ∷ (codes "signature", signature)
          ∷ []))
      ≡ some (record { key_id = key_id; signed_header_names = name ∷ names; signature = signature })
unfolding parsed_of params param find JsMap.put text_dec Bool-cases text_eq
parsed-header key_id signature name names k s n spaces =
    let ps = params [] (
      (codes "keyId", key_id)
      ∷ (codes "algorithm", codes "rsa-sha256")
      ∷ (codes "headers", join b' ' (name ∷ names))
      ∷ (codes "signature", signature)
      ∷ []) in
    let p : param ps (codes "keyId") ≡ some key_id = rw (k.filled, param) refl in
    let q : param ps (codes "signature") ≡ some signature = rw (s.filled, param) refl in
    let r : param ps (codes "headers") ≡ some (join b' ' (name ∷ names)) =
      rw (join-filled b' ' name names n.0.filled, param) refl in
    rw (p, parsed_of, q, r, split-join b' ' name names spaces.0 spaces.1) refl

-- The header that is written for a key id, a list of names without spaces and quotes, and a
-- signature, is read as that key id, those names and that signature.
pub parse-signature_header :
    (key_id signature name : Text) (names : List Text)
    → IsQuotable key_id
    → IsQuotable signature
    → All IsQuotable (name ∷ names)
    → All (Lacks b' ') (name ∷ names)
    → parse_signature_header (signature_header key_id (name ∷ names) signature)
      ≡ some (record { key_id = key_id; signed_header_names = name ∷ names; signature = signature })
unfolding parse_signature_header
parse-signature_header key_id signature name names k s n spaces =
    ap (λ ms. parsed_of (params [] ms))
      (matches-header key_id signature (name ∷ names) k.lacks
        (Lacks-join quote b' ' (name ∷ names) refl (lacks (name ∷ names) n)) s.lacks)
    ∙ parsed-header key_id signature name names k s n spaces
  where
    lacks : (ts : List Text) → All IsQuotable ts → All (Lacks quote) ts
    lacks [] h = tt
    lacks (t ∷ ts) h = (h.0.lacks, lacks ts h.1)
