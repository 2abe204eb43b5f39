-- ===== src/Encryption/Envelope.antt =====
-- packages/core/src/crypto.js: encryptForRecipients() and decryptFromSender(). The platform's
-- cryptography is an interface; `random n` is the n-th buffer that randomBytes() draws.
use qu_v.Prelude.{ℕ, ◌+◌, ◌≡◌, Text, Option, none, some, List, [], ◌∷◌, if◌then◌else◌, text_eq}

abbrev pub Buffer : Type 0
Buffer = List ℕ

-- Ciphertext and authentication tag.
pub record Box : Type 0 where
  pub ciphertext : Buffer
  pub auth_tag : Buffer

-- diffieHellman(), createHash('sha256'), and aes-256-gcm both ways: `unseal` is none where
-- decipher.final() throws.
pub record Primitives (Private Public : Type 0) : Type 0 where
  pub public_of : Private → Public
  pub diffie_hellman : Private → Public → Buffer
  pub hash : Buffer → Buffer
  pub seal : (key iv plaintext : Buffer) → Box
  pub unseal : (key iv : Buffer) → Box → Option Buffer
  pub random : ℕ → Buffer

-- What the program relies on: both parties compute the same secret, and what was sealed is unsealed
-- with the same key and initialization vector.
pub record IsSound {Private Public : Type 0} (c : Primitives Private Public) : Type 0 where
  pub agree :
      (a b : Private) → c.diffie_hellman a (c.public_of b) ≡ c.diffie_hellman b (c.public_of a)
  pub unseal-seal :
      (key iv plaintext : Buffer) → c.unseal key iv (c.seal key iv plaintext) ≡ some plaintext

pub record Sealed : Type 0 where
  pub iv : Buffer
  pub box : Box

pub record WrappedKey : Type 0 where
  pub id : Text
  pub wrapped : Sealed

-- { iv, ciphertext, authTag, to }
pub record Envelope : Type 0 where
  pub content : Sealed
  pub to : List WrappedKey

-- envelope.to.find((r) => r.id === recipientId)
unfoldable pub find_entry : List WrappedKey → Text → Option WrappedKey
find_entry [] id = none
find_entry (w ∷ ws) id = let rest = find_entry ws id in if text_eq w.id id then some w else rest

module _ {Private Public : Type 0} (c : Primitives Private Public) where
  -- aesGcmEncrypt(key, plaintext), at the n-th draw
  unfoldable pub aes_gcm_encrypt : ℕ → Buffer → Buffer → Sealed
  aes_gcm_encrypt n key plaintext = record {
    iv = c.random n;
    box = c.seal key (c.random n) plaintext;
  }

  -- aesGcmDecrypt(key, sealed)
  unfoldable pub aes_gcm_decrypt : Buffer → Sealed → Option Buffer
  aes_gcm_decrypt key s = c.unseal key s.iv s.box

  -- sha256(ecdh(privateKey, publicKey))
  unfoldable pub wrap_key : Private → Public → Buffer
  wrap_key a p = c.hash (c.diffie_hellman a p)

  -- recipients.map(…), from the n-th draw on
  unfoldable pub wrap_all : ℕ → Private → Buffer → List (Text × Public) → List WrappedKey
  unfolding aes_gcm_encrypt wrap_key
  wrap_all n a content_key [] = []
  wrap_all n a content_key ((id, p) ∷ rs) =
      record { id = id; wrapped = aes_gcm_encrypt n (wrap_key a p) content_key }
      ∷ wrap_all (n + 1) a content_key rs

  -- encryptForRecipients(plaintext, { senderPrivateKey, recipients }), from the n-th draw on; none is
  -- the error for no recipient.
  unfoldable pub encrypt_for_recipients :
      ℕ → Buffer → Private → List (Text × Public) → Option Envelope
  unfolding aes_gcm_encrypt wrap_all
  encrypt_for_recipients n plaintext a [] = none
  encrypt_for_recipients n plaintext a (r ∷ rs) = some (record {
    content = aes_gcm_encrypt (n + 1) (c.random n) plaintext;
    to = wrap_all (n + 2) a (c.random n) (r ∷ rs);
  })

  -- decryptFromSender(envelope, { recipientId, recipientPrivateKey, senderPublicKey }); none is an error.
  unfoldable pub decrypt_from_sender : Envelope → Text → Private → Public → Option Buffer
  unfolding find_entry aes_gcm_decrypt wrap_key
  decrypt_from_sender e id b sender = elim (find_entry e.to id) [
    | none ↦ none
    | some w ↦ elim (aes_gcm_decrypt (wrap_key b sender) w.wrapped) [
      | none ↦ none
      | some content_key ↦ aes_gcm_decrypt content_key e.content
    ]
  ]
