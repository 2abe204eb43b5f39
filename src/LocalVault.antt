-- ===== src/LocalVault.antt =====
-- packages/local-vault/src/vault.js and adapters/memory-adapter.js: LocalVault over MemoryVaultAdapter.
-- A seed is its bytes, and the transport keypair two PEM texts.
use qu_v.Prelude.{
  ℕ, ◌≡◌, refl, Text, codes, Option, none, some, List, length, ◌==◌, ◌||◌, if◌then◌else◌, text_dec,
  text_eq, Bool-cases, subst, inl, inr,
}
use qu_v.Core.JsMap
use qu_v.Core.JsMap.{Entries, find}
use qu_v.Core.JsMap.Laws.{find-put}

pub record Keypair : Type 0 where
  pub public_key_pem : Text
  pub private_key_pem : Text

-- What an adapter holds.
pub data Secret : Type 0 where
  seed_bytes : List ℕ → Secret
  keypair : Keypair → Secret

-- MemoryVaultAdapter's entries.
abbrev pub Vault : Type 0
Vault = Entries Secret

-- get(key), set(key, value), delete(key) and keys() of MemoryVaultAdapter
unfoldable pub get : Vault → Text → Option Secret
unfolding find
get v k = find v k

unfoldable pub set : Vault → Text → Secret → Vault
set v k x = JsMap.put v k x

unfoldable pub delete : Vault → Text → Vault
delete v k = JsMap.delete v k

-- SEED_KEY
abbrev pub seed_key : Text
seed_key = codes "identity-seed"

-- TRANSPORT_KEYPAIR_KEY
abbrev pub transport_keypair_key : Text
transport_keypair_key = codes "transport-keypair"

-- getSeed(), of what setSeed() stores
unfoldable pub get_seed : Vault → Option (List ℕ)
unfolding get
get_seed v = elim (get v seed_key) [
  | none ↦ none
  | some x ↦ elim x [ seed_bytes bs ↦ some bs | keypair k ↦ none ]
]

-- setSeed(seed)
unfoldable pub set_seed : Vault → List ℕ → Vault
unfolding set
set_seed v bs = set v seed_key (seed_bytes bs)

-- getTransportKeypair(), of what setTransportKeypair() stores
unfoldable pub get_transport_keypair : Vault → Option Keypair
unfolding get
get_transport_keypair v = elim (get v transport_keypair_key) [
  | none ↦ none
  | some x ↦ elim x [ seed_bytes bs ↦ none | keypair k ↦ some k ]
]

-- setTransportKeypair({ publicKeyPem, privateKeyPem }); none is an error
unfoldable pub set_transport_keypair : Vault → Keypair → Option Vault
unfolding set
set_transport_keypair v k =
    if length k.public_key_pem == 0 || length k.private_key_pem == 0
    then none
    else some (set v transport_keypair_key (keypair k))

-- clear()
unfoldable pub clear : Vault → Vault
unfolding delete
clear v = delete (delete v seed_key) transport_keypair_key

-- The seed that was set is read, and the keypair is left.
pub get-set_seed :
    (v : Vault) (bs : List ℕ)
    → (get_seed (set_seed v bs) ≡ some bs)
      × (get_transport_keypair (set_seed v bs) ≡ get_transport_keypair v)
unfolding get_seed set_seed get_transport_keypair text_dec Bool-cases text_eq
get-set_seed v bs = (
  rw (find-put v seed_key seed_key (seed_bytes bs), get_seed) refl,
  rw (find-put v seed_key transport_keypair_key (seed_bytes bs), get_transport_keypair) refl,
)

-- The keypair that was set is read, and the seed is left.
pub get-set_transport_keypair :
    (v w : Vault) (k : Keypair)
    → set_transport_keypair v k ≡ some w
    → (get_transport_keypair w ≡ some k) × (get_seed w ≡ get_seed v)
unfolding get_seed set_transport_keypair get_transport_keypair text_dec Bool-cases text_eq
get-set_transport_keypair v w k e =
    elim (Bool-cases (length k.public_key_pem == 0 || length k.private_key_pem == 0)) [
      | inl g ↦
          let p : ◌≡◌ {A = Option Vault} none (some w) = rw (g, set_transport_keypair) at e in cc
      | inr g ↦
          let p : ◌≡◌ {A = Option Vault} (some (set v transport_keypair_key (keypair k))) (some w) =
            rw (g, set_transport_keypair) at e in
          let q : set v transport_keypair_key (keypair k) ≡ w = cc in
          subst (λ z. (get_transport_keypair z ≡ some k) × (get_seed z ≡ get_seed v)) q
            (
              rw
                  (
                    find-put v transport_keypair_key transport_keypair_key (keypair k),
                    get_transport_keypair,
                  )
                  refl,
              rw (find-put v transport_keypair_key seed_key (keypair k), get_seed) refl,
            )
    ]
