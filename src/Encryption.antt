-- ===== src/Encryption.antt =====
-- packages/ap-encryption/src/guard.js: assertEncryptionGuard(); in children, the envelope of
-- packages/core/src/crypto.js and the payload of packages/ap-encryption/src/payload.js.
pub mod Envelope
pub mod Payload
pub mod Decrypts
use qu_v.Prelude.{Bool, not, ◌&&◌, Option, none, some, if◌then◌else◌}

pub data GuardError : Type 0 where
  public_encrypted private_unencrypted : GuardError

-- assertEncryptionGuard({ isPublic, encrypted, allowUnencryptedPrivate }); none is the return.
unfoldable pub assert_encryption_guard : Bool → Bool → Bool → Option GuardError
assert_encryption_guard is_public encrypted allow_unencrypted_private =
    if is_public && encrypted
    then some public_encrypted
    else if not is_public && not encrypted && not allow_unencrypted_private
    then some private_unencrypted
    else none
