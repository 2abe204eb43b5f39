-- ===== src/Examples/Identities.antt =====
-- A relay that starts for the first time.
use qu_v.Prelude.{◌≡◌, refl, Text, codes, none, some, [], ◌∷◌, text_eq, text_dec, Bool-cases}
use qu_v.Core.JsMap
use qu_v.Core.JsMap.{find}
use qu_v.As2.Value.{Value, object, end}
use qu_v.As2.Vocabulary.{includes}
use qu_v.ApCore.Documents.{build_actor, field_if, endpoints_if, key_fields}
use qu_v.LocalVault.{
  Vault, Keypair, seed_bytes, keypair, seed_key, transport_keypair_key, get, set, get_seed,
  set_seed, get_transport_keypair, set_transport_keypair,
}
use qu_v.Relay.LocalIdentity.{
  actor_params, Platform, Identity, ensure_seed, ensure_keypair, identity_of, ensure_local_actor,
}
use qu_v.Relay.LocalIdentity.Ensures.{ensure_local_actor-again}

abbrev keys_of : Text → Keypair
keys_of t = record { public_key_pem = t; private_key_pem = t }

abbrev machine : Platform Text
machine = record {
  random_seed = 4 ∷ [];
  multibase_of = λ bs. codes "z";
  new_keypair = keys_of (codes "k");
  create_key = λ pem. pem;
  context = object end;
}

abbrev document : Value
document =
    elim (build_actor (object end)
      (actor_params machine (codes "h") (codes "u") (4 ∷ []) (keys_of (codes "k")))) [
        | none ↦ object end
        | some d ↦ d
      ]

abbrev identity : Identity Text
identity = record {
  actor = document;
  username = codes "u";
  key_id = codes "https://h/actors/u#transport-key";
  private_key = codes "k";
  public_key = codes "k";
  public_key_multibase = codes "z";
}

abbrev filled : Vault
filled =
    (seed_key, seed_bytes (4 ∷ [])) ∷ (transport_keypair_key, keypair (keys_of (codes "k"))) ∷ []

first_start : ensure_local_actor machine [] (codes "h") (codes "u") ≡ (filled, some identity)
unfolding ensure_local_actor ensure_seed ensure_keypair identity_of build_actor field_if
    endpoints_if key_fields includes get_seed set_seed get_transport_keypair set_transport_keypair
    get set find JsMap.put text_dec Bool-cases text_eq
first_start = refl

ensure_local_actor-again_example :
    ensure_local_actor
      (record machine { random_seed = 9 ∷ []; new_keypair = keys_of (codes "n") })
      filled
      (codes "h")
      (codes "u")
    ≡ (filled, some identity)
ensure_local_actor-again_example =
    ensure_local_actor-again machine [] filled (codes "h") (codes "u") identity (9 ∷ [])
      (keys_of (codes "n")) first_start
