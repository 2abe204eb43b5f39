-- ===== src/Relay/LocalIdentity.antt =====
-- packages/relay/src/local-actor.js: ensureLocalActor(). randomBytes(), the key that
-- ed25519KeypairFromSeed() derives, generateRsaTransportKeypair() and the reading of a PEM are an
-- interface; QU_CONTEXT is a document.
pub mod Ensures
use qu_v.Prelude.{
  ℕ, Bool, true, false, Text, codes, Option, none, some, List, ◌++◌, length, ◌==◌, ◌||◌,
  if◌then◌else◌,
}
use qu_v.As2.Value.{Value}
use qu_v.ApCore.Documents.{ActorParams, build_actor}
use qu_v.LocalVault.{
  Vault, Keypair, get_seed, set_seed, get_transport_keypair, set_transport_keypair,
}

-- What the platform gives; `random_seed` and `new_keypair` are what one call makes.
pub record Platform (Key : Type 0) : Type 0 where
  pub random_seed : List ℕ
  pub multibase_of : List ℕ → Text
  pub new_keypair : Keypair
  pub create_key : Text → Key
  pub context : Value

pub record Identity (Key : Type 0) : Type 0 where
  pub actor : Value
  pub username : Text
  pub key_id : Text
  pub private_key : Key
  pub public_key : Key
  pub public_key_multibase : Text

-- What a call leaves behind: the vault, and the identity, or none for an exception.
abbrev pub Ensured : Type 0 → Type 0
Ensured Key = Vault × Option (Identity Key)

module _ {Key : Type 0} (p : Platform Key) where
  -- if (!seed) { … }
  unfoldable pub ensure_seed : Vault → Vault × List ℕ
  unfolding get_seed set_seed
  ensure_seed v = elim (get_seed v) [
    | none ↦ (set_seed v p.random_seed, p.random_seed)
    | some seed ↦ (v, seed)
  ]

  -- if (!transportKeypair) { … }
  unfoldable pub ensure_keypair : Vault → Vault × Option Keypair
  unfolding get_transport_keypair set_transport_keypair
  ensure_keypair v = elim (get_transport_keypair v) [
    | some k ↦ (v, some k)
    | none ↦ elim (set_transport_keypair v p.new_keypair) [
      | none ↦ (v, none)
      | some w ↦ (w, some p.new_keypair)
    ]
  ]

  abbrev pub base_of : Text → Text → Text
  base_of host username = codes "https://" ++ (host ++ (codes "/actors/" ++ username))

  abbrev pub actor_params : Text → Text → List ℕ → Keypair → ActorParams
  actor_params host username seed k = record {
    id = base_of host username;
    kind = codes "Person";
    preferred_username = username;
    name = codes "";
    summary = codes "";
    inbox = base_of host username ++ codes "/inbox";
    outbox = base_of host username ++ codes "/outbox";
    followers = base_of host username ++ codes "/followers";
    following = base_of host username ++ codes "/following";
    shared_inbox = codes "https://" ++ (host ++ codes "/inbox");
    public_key_multibase = p.multibase_of seed;
    rsa_public_key_pem = k.public_key_pem;
  }

  -- The identity of a seed and a keypair.
  unfoldable pub identity_of : Text → Text → List ℕ → Keypair → Option (Identity Key)
  unfolding build_actor
  identity_of host username seed k =
      elim (build_actor p.context (actor_params host username seed k)) [
        | none ↦ none
        | some actor ↦ some (record {
          actor = actor;
          username = username;
          key_id = base_of host username ++ codes "#transport-key";
          private_key = p.create_key k.private_key_pem;
          public_key = p.create_key k.public_key_pem;
          public_key_multibase = p.multibase_of seed;
        })
      ]

  abbrev finish : Text → Text → List ℕ → Vault × Option Keypair → Ensured Key
  finish host username seed (v, none) = (v, none)
  finish host username seed (v, some k) = (v, identity_of host username seed k)

  -- ensureLocalActor({ vault, host, username })
  unfoldable pub ensure_local_actor : Vault → Text → Text → Ensured Key
  unfolding ensure_seed ensure_keypair identity_of
  ensure_local_actor v host username =
      if length host == 0 || length username == 0
      then (v, none)
      else finish host username (ensure_seed v).1 (ensure_keypair (ensure_seed v).0)
