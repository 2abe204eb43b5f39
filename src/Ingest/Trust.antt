-- ===== src/Ingest/Trust.antt =====
-- What reaches the store through the pipeline.
use qu_v.Prelude.{
  ℕ, ◌≡◌, refl, sym, subst, ◌⊎◌, inl, inr, Bool, true, Text, some, Bool-cases, Option-cases,
}
use qu_v.Core.Storage.{Operations}
use qu_v.As2.Value.{Value, is_object}
use qu_v.Store.{Stored, ApStore}
use qu_v.Ingest.{
  Request, Failure, invalid_body, missing_signature, signature_invalid, missing_actor,
  actor_mismatch, key_resolution_failed, refused, Run, Resolved, failed, actor_key, key_id_of,
  actor_id_of, is_actor, persist, authorize, ingest_activity,
}

module _ {S K : Type 0} (o : Operations S Stored) (resolve : Text → Resolved K)
    (verify : Request → K → Bool) where
  -- The request names a key, which resolves to an actor; the request's signature verifies with that
  -- actor's key, and the activity is that actor's own.
  pub record IsAuthentic (r : Request) : Type 0 where
    pub key_id : Text
    pub actor : Value
    pub key : K
    pub actor_id : Text
    pub body : is_object r.activity ≡ true
    pub names : key_id_of r ≡ some key_id
    pub resolved : resolve key_id ≡ actor_key actor key
    pub verified : verify r key ≡ true
    pub asserts : actor_id_of r.activity ≡ some actor_id
    pub own : is_actor actor_id actor ≡ true

  -- A run that refuses the request and leaves the store alone.
  abbrev pub Refuses : ApStore S → Run S → Type 0
  Refuses s run = (f : Failure) × (run.outcome ≡ refused f) × (run.store ≡ s)

  Verdict : ApStore S → Request → ℕ → Run S → Type 0
  Verdict s r now run = (IsAuthentic r × (run ≡ persist o resolve verify s r now)) ⊎ Refuses s run

  module _ (s : ApStore S) (r : Request) (now : ℕ) where
    authorize-Verdict :
        (k : Text) (actor : Value) (key : K)
        → is_object r.activity ≡ true
        → key_id_of r ≡ some k
        → resolve k ≡ actor_key actor key
        → verify r key ≡ true
        → Verdict s r now (authorize o resolve verify s r actor now)
    unfolding authorize Verdict
    authorize-Verdict k actor key b n e v = elim (Option-cases (actor_id_of r.activity)) [
      | inl p ↦ inr (missing_actor, rw (p, authorize) refl, rw (p, authorize) refl)
      | inr (a, p) ↦ elim (Bool-cases (is_actor a actor)) [
        | inl q ↦ inl (
          record {
            key_id = k;
            actor = actor;
            key = key;
            actor_id = a;
            body = b;
            names = n;
            resolved = e;
            verified = v;
            asserts = p;
            own = q;
          },
          rw (p, authorize, q) refl,
        )
        | inr q ↦ inr (actor_mismatch, rw (p, authorize, q) refl, rw (p, authorize, q) refl)
      ]
    ]

    verified-Verdict :
        (k : Text) (actor : Value) (key : K)
        → is_object r.activity ≡ true
        → key_id_of r ≡ some k
        → resolve k ≡ actor_key actor key
        → Verdict s r now (ingest_activity o resolve verify s r now)
    unfolding ingest_activity Verdict
    verified-Verdict k actor key b n e = elim (Bool-cases (verify r key)) [
      | inl v ↦
          subst (Verdict s r now) (sym (rw (b, ingest_activity, n, e, v) refl))
            (authorize-Verdict k actor key b n e v)
      | inr v ↦ inr (
        signature_invalid,
        rw (b, ingest_activity, n, e, v) refl,
        rw (b, ingest_activity, n, e, v) refl,
      )
    ]

    resolved-Verdict :
        (k : Text) (x : Resolved K)
        → is_object r.activity ≡ true
        → key_id_of r ≡ some k
        → resolve k ≡ x
        → Verdict s r now (ingest_activity o resolve verify s r now)
    unfolding ingest_activity Verdict
    resolved-Verdict k (failed message) b n e = inr (
      key_resolution_failed message,
      rw (b, ingest_activity, n, e) refl,
      rw (b, ingest_activity, n, e) refl,
    )
    resolved-Verdict k (actor_key actor key) b n e = verified-Verdict k actor key b n e

    -- A request is either authentic, and the run is the side effects alone, with the exceptions they
    -- may throw, or it is refused, and the store is left as it was.
    pub ingest_activity-IsAuthentic :
        (IsAuthentic r
          × (ingest_activity o resolve verify s r now ≡ persist o resolve verify s r now))
        ⊎ Refuses s (ingest_activity o resolve verify s r now)
    unfolding ingest_activity Verdict
    ingest_activity-IsAuthentic = elim (Bool-cases (is_object r.activity)) [
      | inr b ↦ inr (invalid_body, rw (b, ingest_activity) refl, rw (b, ingest_activity) refl)
      | inl b ↦ elim (Option-cases (key_id_of r)) [
        | inl n ↦
            inr
              (missing_signature, rw (b, ingest_activity, n) refl, rw (b, ingest_activity, n) refl)
        | inr (k, n) ↦ resolved-Verdict k (resolve k) b n refl
      ]
    ]
