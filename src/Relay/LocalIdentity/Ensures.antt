-- ===== src/Relay/LocalIdentity/Ensures.antt =====
-- An identity is made once.
use qu_v.Prelude.{
  ℕ, ◌≡◌, refl, sym, ap, ◌∙◌, subst, Text, Option, none, some, List, length, ◌==◌, ◌||◌, Bool-cases,
  Option-cases, inl, inr,
}
use qu_v.LocalVault.{
  Vault, Keypair, get_seed, get_transport_keypair, set_transport_keypair, get-set_seed,
  get-set_transport_keypair,
}
use qu_v.Relay.LocalIdentity.{
  Platform, Identity, Ensured, ensure_seed, ensure_keypair, identity_of, finish, ensure_local_actor,
}

module _ {Key : Type 0} (p : Platform Key) where
  ensure_seed-get : (v : Vault) → get_seed (ensure_seed p v).0 ≡ some (ensure_seed p v).1
  unfolding ensure_seed
  ensure_seed-get v = elim (Option-cases (get_seed v)) [
    | inl n ↦
        subst {A = Vault × List ℕ} (λ z. get_seed z.0 ≡ some z.1) (sym (rw (n, ensure_seed) refl))
          (get-set_seed v p.random_seed).0
    | inr (s, n) ↦
        subst {A = Vault × List ℕ} (λ z. get_seed z.0 ≡ some z.1) (sym (rw (n, ensure_seed) refl)) n
  ]

  -- The keypair that is given is in the vault, with the seed that was there.
  ensure_keypair-get :
      (v w : Vault) (k : Keypair)
      → ensure_keypair p v ≡ (w, some k)
      → (get_transport_keypair w ≡ some k) × (get_seed w ≡ get_seed v)
  unfolding ensure_keypair
  ensure_keypair-get v w k e = elim (Option-cases (get_transport_keypair v)) [
    | inr (j, n) ↦
        let q : ◌≡◌ {A = Vault × Option Keypair} (v, some j) (w, some k) =
          rw (n, ensure_keypair) at e in
        let a : v ≡ w = cc in
        let b : j ≡ k = cc in
        (ap get_transport_keypair (sym a) ∙ n ∙ ap some b, ap get_seed (sym a))
    | inl n ↦ elim (Option-cases (set_transport_keypair v p.new_keypair)) [
      | inl m ↦
          let q : ◌≡◌ {A = Vault × Option Keypair} (v, none) (w, some k) =
            rw (n, ensure_keypair, m) at e in
          cc
      | inr (u, m) ↦
          let q : ◌≡◌ {A = Vault × Option Keypair} (u, some p.new_keypair) (w, some k) =
            rw (n, ensure_keypair, m) at e in
          let a : u ≡ w = cc in
          let b : p.new_keypair ≡ k = cc in
          let (x, y) = get-set_transport_keypair v u p.new_keypair m in
          (ap get_transport_keypair (sym a) ∙ x ∙ ap some b, ap get_seed (sym a) ∙ y)
    ]
  ]

  finish_inv :
      (host username : Text) (seed : List ℕ) (x : Vault × Option Keypair) (w : Vault)
      (i : Identity Key)
      → finish p host username seed x ≡ (w, some i)
      → (k : Keypair) × (x ≡ (w, some k)) × (identity_of p host username seed k ≡ some i)
  finish_inv host username seed (v, none) w i e =
      let q : ◌≡◌ {A = Option (Identity Key)} none (some i) = ap (λ z. z.1) e in cc
  finish_inv host username seed (v, some k) w i e =
      let a : v ≡ w = ap (λ z. z.0) e in (k, ap (λ z. (z, some k)) a, ap (λ z. z.1) e)

  stored_seed : (v : Vault) (seed : List ℕ) → get_seed v ≡ some seed → ensure_seed p v ≡ (v, seed)
  unfolding ensure_seed
  stored_seed v seed e = rw (e, ensure_seed) refl

  stored_keypair :
      (v : Vault) (k : Keypair)
      → get_transport_keypair v ≡ some k
      → ensure_keypair p v ≡ (v, some k)
  unfolding ensure_keypair
  stored_keypair v k e = rw (e, ensure_keypair) refl

module _ {Key : Type 0} (p : Platform Key) where
  -- Where ensureLocalActor() has returned an identity, every later call on the vault that it left, for
  -- the same host and username, returns the same identity and leaves the vault as it is, whatever
  -- random seed and new keypair the platform would give that call.
  pub ensure_local_actor-again :
      (v w : Vault) (host username : Text) (i : Identity Key) (seed : List ℕ) (k : Keypair)
      → ensure_local_actor p v host username ≡ (w, some i)
      → ensure_local_actor (record p { random_seed = seed; new_keypair = k }) w host username
        ≡ (w, some i)
  unfolding ensure_local_actor identity_of
  ensure_local_actor-again v w host username i seed k e =
      let later = record p { random_seed = seed; new_keypair = k } in
      elim (Bool-cases (length host == 0 || length username == 0)) [
        | inl g ↦
            let q : ◌≡◌ {A = Ensured Key} (v, none) (w, some i) = rw (g, ensure_local_actor) at e in
            let r : ◌≡◌ {A = Option (Identity Key)} none (some i) = ap (λ z. z.1) q in cc
        | inr g ↦
            let (j, q, d) =
              finish_inv p host username (ensure_seed p v).1 (ensure_keypair p (ensure_seed p v).0)
                w i (rw (g, ensure_local_actor) at e) in
            let (x, y) = ensure_keypair-get p (ensure_seed p v).0 w j q in
            rw
              (
                g,
                ensure_local_actor,
                stored_seed later w (ensure_seed p v).1 (y ∙ ensure_seed-get p v),
                stored_keypair later w j x,
              )
              (ap (λ z. (w, z)) d)
      ]
