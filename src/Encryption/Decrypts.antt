-- ===== src/Encryption/Decrypts.antt =====
-- Every recipient reads what encryptPayload() wrote.
use qu_v.Prelude.{
  ℕ, ◌+◌, ◌≡◌, refl, sym, ap, ap₂, ◌∙◌, inl, inr, true, false, Text, some, List, [], ◌∷◌, map, In,
  In-map, subst, All, text_eq, text_eq_iff, text_eq-ne,
}
use qu_v.Prelude.Sorting.{Distinct}
use qu_v.ApCore.Multikey.{decode_x25519_multikey}
use qu_v.Encryption.Envelope.{
  Buffer, Primitives, IsSound, Sealed, WrappedKey, Envelope, aes_gcm_encrypt, aes_gcm_decrypt,
  wrap_key, wrap_all, encrypt_for_recipients, find_entry, decrypt_from_sender,
}
use qu_v.Encryption.Payload.{
  Codecs, Payload, sealed_text, text_sealed, wrapped_text, text_wrapped, public_keys, payload_of,
  envelope_of, encrypt_payload, decrypt_payload,
}

some_inj : (a b : Buffer) → some a ≡ some b → a ≡ b
some_inj a b e = cc

module _ {Private Public : Type 0} (c : Primitives Private Public) (sound : IsSound c) where
  -- The entry of a recipient whose id comes once.
  find_entry-wrap_all :
      (n : ℕ) (a : Private) (key : Buffer) (rs : List (Text × Public)) (id : Text) (p : Public)
      → Distinct (map (λ r. r.0) rs)
      → In (id, p) rs
      → (i : ℕ) × (find_entry (wrap_all c n a key rs) id
          ≡ some (record { id = id; wrapped = aes_gcm_encrypt c i (wrap_key c a p) key }))
  unfolding find_entry wrap_all
  find_entry-wrap_all n a key [] id p d m = absurd m
  find_entry-wrap_all n a key ((j, q) ∷ rs) id p d (inl e) =
      let t : text_eq j id ≡ true = (text_eq_iff j id).1 (sym (ap (λ z. z.0) e)) in
      (
        n,
        rw t (
            ap
              (λ z.
                some (record { id = z.0; wrapped = aes_gcm_encrypt c n (wrap_key c a z.1) key }))
              (sym e)),
      )
  find_entry-wrap_all n a key ((j, q) ∷ rs) id p d (inr m) =
      let (i, e) = find_entry-wrap_all (n + 1) a key rs id p d.1 m in
      let t : text_eq j id ≡ false =
        text_eq-ne j id (λ y. d.0 (rw y (In-map (λ r. r.0) (id, p) rs m))) in
      (i, rw t e)

  unwrap-wrap :
      (i : ℕ) (a b : Private) (key : Buffer)
      → aes_gcm_decrypt c
          (wrap_key c b (c.public_of a))
          (aes_gcm_encrypt c i (wrap_key c a (c.public_of b)) key)
        ≡ some key
  unfolding aes_gcm_encrypt aes_gcm_decrypt wrap_key
  unwrap-wrap i a b key =
      ap
        (λ z.
          c.unseal (c.hash z) (c.random i)
            (c.seal (c.hash (c.diffie_hellman a (c.public_of b))) (c.random i) key))
        (sound.agree b a)
      ∙ sound.unseal-seal _ (c.random i) key

  decrypt-encrypt :
      (n : ℕ) (plaintext : Buffer) (a b : Private) (rs : List (Text × Public)) (id : Text)
      → Distinct (map (λ r. r.0) rs)
      → In (id, c.public_of b) rs
      → (e : Envelope) × (encrypt_for_recipients c n plaintext a rs ≡ some e)
        × (decrypt_from_sender c e id b (c.public_of a) ≡ some plaintext)
  unfolding encrypt_for_recipients decrypt_from_sender aes_gcm_encrypt aes_gcm_decrypt
  decrypt-encrypt n plaintext a b [] id d m = absurd m
  decrypt-encrypt n plaintext a b (r ∷ rs) id d m =
      let (i, e) = find_entry-wrap_all (n + 2) a (c.random n) (r ∷ rs) id (c.public_of b) d m in
      (
        _,
        refl,
        rw (e, decrypt_from_sender, unwrap-wrap i a b (c.random n))
            (sound.unseal-seal (c.random n) (c.random (n + 1)) plaintext),
      )

-- Base64 gives a buffer back.
pub record IsFaithful {Public : Type 0} (k : Codecs Public) : Type 0 where
  pub from_base64-to_base64 : (b : Buffer) → k.from_base64 (k.to_base64 b) ≡ b

module _ {Public : Type 0} (k : Codecs Public) (faithful : IsFaithful k) where
  text_sealed-sealed_text : (s : Sealed) → text_sealed k (sealed_text k s) ≡ s
  unfolding text_sealed sealed_text
  text_sealed-sealed_text s =
      let f = faithful.from_base64-to_base64 in
      λ i. record {
        iv = f s.iv i;
        box = record { ciphertext = f s.box.ciphertext i; auth_tag = f s.box.auth_tag i };
      }

  wrapped-RoundTrip : (ws : List WrappedKey) → map (text_wrapped k) (map (wrapped_text k) ws) ≡ ws
  unfolding text_wrapped wrapped_text
  wrapped-RoundTrip [] = refl
  wrapped-RoundTrip (w ∷ ws) =
      ap₂ (λ x xs. record { id = w.id; wrapped = x } ∷ xs) (text_sealed-sealed_text w.wrapped)
        (wrapped-RoundTrip ws)

  envelope_of-payload_of :
      (sender_key : Text) (e : Envelope) → envelope_of k (payload_of k sender_key e) ≡ e
  unfolding envelope_of payload_of
  envelope_of-payload_of sender_key e =
      ap₂ (λ x xs. record { content = x; to = xs }) (text_sealed-sealed_text e.content)
        (wrapped-RoundTrip e.to)

-- A recipient whose Multikey text decodes.
abbrev pub HasKey : Text × Text → Type 0
HasKey r = (raw : Buffer) × (decode_x25519_multikey r.1 ≡ some raw)

module _ {Public : Type 0} (k : Codecs Public) where
  -- The recipients with their keys.
  record Keyed (rs : List (Text × Text)) : Type 0 where
    keys : List (Text × Public)
    read : public_keys k rs ≡ some keys
    ids : map (λ r. r.0) keys ≡ map (λ r. r.0) rs
    has :
        (id multikey : Text) (raw : Buffer)
        → In (id, multikey) rs
        → decode_x25519_multikey multikey ≡ some raw
        → In (id, k.public_from_raw raw) keys

  read-keys : (rs : List (Text × Text)) → All HasKey rs → Keyed rs
  unfolding public_keys
  read-keys [] h = record {
    keys = [];
    read = refl;
    ids = refl;
    has = λ id multikey raw m e. absurd m;
  }
  read-keys ((j, mk) ∷ rs) h =
      let (raw, e) = h.0 in
      let rest = read-keys rs h.1 in
      record {
        keys = (j, k.public_from_raw raw) ∷ rest.keys;
        read = rw (e, public_keys, rest.read) refl;
        ids = ap (λ z. j ∷ z) rest.ids;
        has = λ id multikey r m q. elim m [
          | inl y ↦ inl (
              ap₂ (λ x z. (x, k.public_from_raw z)) (ap (λ z. z.0) y)
                (some_inj r raw (sym q ∙ ap (λ z. decode_x25519_multikey z.1) y ∙ e)))
          | inr y ↦ inr (rest.has id multikey r y q)
        ];
      }

-- With sound primitives and a faithful Base64, for recipients with distinct ids whose Multikey texts
-- decode, encryptPayload() makes a payload, and decryptPayload() gives the plaintext back to each
-- recipient that uses the private key of its Multikey text, where the sender's Multikey text is that
-- of the sender's private key and UTF-8 gives the plaintext back.
pub decrypt_payload-encrypt_payload :
    {Private Public : Type 0} (c : Primitives Private Public) (k : Codecs Public) (n : ℕ)
    (plaintext sender_key id multikey : Text) (a b : Private) (rs : List (Text × Text))
    (raw_a raw_b : Buffer)
    → IsSound c
    → IsFaithful k
    → k.from_utf8 (k.utf8 plaintext) ≡ plaintext
    → decode_x25519_multikey sender_key ≡ some raw_a
    → k.public_from_raw raw_a ≡ c.public_of a
    → decode_x25519_multikey multikey ≡ some raw_b
    → k.public_from_raw raw_b ≡ c.public_of b
    → Distinct (map (λ r. r.0) rs)
    → All HasKey rs
    → In (id, multikey) rs
    → (p : Payload) × (encrypt_payload c k n plaintext a sender_key rs ≡ some p)
      × (decrypt_payload c k p id b ≡ some plaintext)
unfolding encrypt_payload decrypt_payload payload_of
decrypt_payload-encrypt_payload c k n plaintext sender_key id multikey a b rs raw_a raw_b sound
      faithful utf8 da pa db pb distinct h m =
    let keyed = read-keys k rs h in
    let named : In (id, c.public_of b) keyed.keys =
      subst (λ z. In (id, z) keyed.keys) pb (keyed.has id multikey raw_b m db) in
    let (e, q, r) =
      decrypt-encrypt c sound n (k.utf8 plaintext) a b keyed.keys id
        (subst Distinct (sym keyed.ids) distinct) named in
    let opened : decrypt_from_sender c (envelope_of k (payload_of k sender_key e)) id b
          (k.public_from_raw raw_a)
        ≡ some (k.utf8 plaintext) =
      ap₂ (λ x y. decrypt_from_sender c x id b y) (envelope_of-payload_of k faithful sender_key e)
        pa
      ∙ r in
    (
      payload_of k sender_key e,
      rw (keyed.read, encrypt_payload, q) refl,
      rw (da, decrypt_payload, opened) (ap some utf8),
    )
