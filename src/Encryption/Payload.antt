-- ===== src/Encryption/Payload.antt =====
-- packages/ap-encryption/src/payload.js: encryptPayload() and decryptPayload(). Base64, UTF-8 and the
-- platform's key objects are an interface.
use qu_v.Prelude.{ℕ, Text, Option, none, some, List, [], ◌∷◌, map}
use qu_v.ApCore.Multikey.{decode_x25519_multikey}
use qu_v.Encryption.Envelope.{
  Buffer, Primitives, Sealed, WrappedKey, Envelope, encrypt_for_recipients, decrypt_from_sender,
}

pub record Codecs (Public : Type 0) : Type 0 where
  pub to_base64 : Buffer → Text
  pub from_base64 : Text → Buffer
  pub utf8 : Text → Buffer
  pub from_utf8 : Buffer → Text
  pub public_from_raw : Buffer → Public

-- iv, ciphertext and authTag, in Base64.
pub record SealedText : Type 0 where
  pub iv : Text
  pub ciphertext : Text
  pub auth_tag : Text

pub record WrappedText : Type 0 where
  pub id : Text
  pub wrapped : SealedText

-- A qu:EncryptedPayload document.
pub record Payload : Type 0 where
  pub sender_key : Text
  pub content : SealedText
  pub to : List WrappedText

module _ {Public : Type 0} (k : Codecs Public) where
  unfoldable pub sealed_text : Sealed → SealedText
  sealed_text s = record {
    iv = k.to_base64 s.iv;
    ciphertext = k.to_base64 s.box.ciphertext;
    auth_tag = k.to_base64 s.box.auth_tag;
  }

  unfoldable pub text_sealed : SealedText → Sealed
  text_sealed s = record {
    iv = k.from_base64 s.iv;
    box = record { ciphertext = k.from_base64 s.ciphertext; auth_tag = k.from_base64 s.auth_tag };
  }

  unfoldable pub wrapped_text : WrappedKey → WrappedText
  unfolding sealed_text
  wrapped_text w = record { id = w.id; wrapped = sealed_text w.wrapped }

  unfoldable pub text_wrapped : WrappedText → WrappedKey
  unfolding text_sealed
  text_wrapped w = record { id = w.id; wrapped = text_sealed w.wrapped }

  -- recipients.map(…); none is what decodeX25519Multikey() throws.
  unfoldable pub public_keys : List (Text × Text) → Option (List (Text × Public))
  public_keys [] = some []
  public_keys ((id, multikey) ∷ rs) = elim (decode_x25519_multikey multikey) [
    | none ↦ none
    | some raw ↦ elim (public_keys rs) [
      | none ↦ none
      | some ps ↦ some ((id, k.public_from_raw raw) ∷ ps)
    ]
  ]

  unfoldable pub payload_of : Text → Envelope → Payload
  unfolding sealed_text wrapped_text
  payload_of sender_key e = record {
    sender_key = sender_key;
    content = sealed_text e.content;
    to = map wrapped_text e.to;
  }

  unfoldable pub envelope_of : Payload → Envelope
  unfolding text_sealed text_wrapped
  envelope_of p = record { content = text_sealed p.content; to = map text_wrapped p.to }

module _ {Private Public : Type 0} (c : Primitives Private Public) (k : Codecs Public) where
  -- encryptPayload(plaintext, { senderPrivateKey, senderPublicKeyMultibase, recipients }), from the
  -- n-th draw on
  unfoldable pub encrypt_payload : ℕ → Text → Private → Text → List (Text × Text) → Option Payload
  unfolding public_keys encrypt_for_recipients payload_of
  encrypt_payload n plaintext a sender_key recipients = elim (public_keys k recipients) [
    | none ↦ none
    | some ps ↦ elim (encrypt_for_recipients c n (k.utf8 plaintext) a ps) [
      | none ↦ none
      | some e ↦ some (payload_of k sender_key e)
    ]
  ]

  -- decryptPayload(payload, { recipientId, recipientPrivateKey })
  unfoldable pub decrypt_payload : Payload → Text → Private → Option Text
  unfolding decrypt_from_sender envelope_of
  decrypt_payload p id b = elim (decode_x25519_multikey p.sender_key) [
    | none ↦ none
    | some raw ↦ elim (decrypt_from_sender c (envelope_of k p) id b (k.public_from_raw raw)) [
      | none ↦ none
      | some plaintext ↦ some (k.from_utf8 plaintext)
    ]
  ]
