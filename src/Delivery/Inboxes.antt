-- ===== src/Delivery/Inboxes.antt =====
-- Which inboxes a list of recipients comes to, and which of the recipients fail.
use qu_v.Prelude.{
  ◌≡◌, refl, sym, ap, ◌∙◌, subst, ◌↔◌, ◌⊎◌, inl, inr, Text, none, some, Option-cases, List, [], ◌∷◌,
  ◌++◌, In, In-append_cases, In-append_left, In-append_right,
}
use qu_v.Prelude.Sorting.{Distinct}
use qu_v.As2.Audience.{add}
use qu_v.As2.Audience.Recipients.{add-Distinct, In-add}
use qu_v.Delivery.{
  Fetched, fetch_failed, fetched, Resolution, DeliveryError, Actor, delivery_inbox, resolve_one,
  resolve_all, resolve_inboxes,
}

-- The inbox of an actor's deliveries: its shared inbox, or its own where it has no shared one.
abbrev pub IsInboxOf : Actor → Text → Type 0
IsInboxOf a t = (a.shared_inbox ≡ some t) ⊎ ((a.shared_inbox ≡ none) × (t ≡ a.inbox))

IsInboxOf-delivery_inbox : (a : Actor) → IsInboxOf a (delivery_inbox a)
unfolding delivery_inbox
IsInboxOf-delivery_inbox a = elim (Option-cases a.shared_inbox) [
  | inl n ↦ inr (n, rw (n, delivery_inbox) refl)
  | inr (t, n) ↦ inl (n ∙ ap some (rw (n, delivery_inbox) refl))
]

IsInboxOf-eq : (a : Actor) (t : Text) → IsInboxOf a t → t ≡ delivery_inbox a
unfolding delivery_inbox
IsInboxOf-eq a t (inl n) = rw (n, delivery_inbox) refl
IsInboxOf-eq a t (inr (n, e)) = rw (n, delivery_inbox) e

-- One of the recipients was fetched, and its deliveries go to the inbox.
abbrev pub Serves : (Text → Fetched) → List Text → Text → Type 0
Serves fetch ids t = (id : Text) × (a : Actor) × In id ids × (fetch id ≡ fetched a) × IsInboxOf a t

-- One of the recipients could not be fetched.
abbrev pub Fails : (Text → Fetched) → List Text → DeliveryError → Type 0
Fails fetch ids e = In e.id ids × (fetch e.id ≡ fetch_failed e.message)

record IsResolved (fetch : Text → Fetched) (ids : List Text) (r s : Resolution) : Type 0 where
  inboxes : (t : Text) → In t s.inboxes ↔ (In t r.inboxes ⊎ Serves fetch ids t)
  errors : (e : DeliveryError) → In e s.errors ↔ (In e r.errors ⊎ Fails fetch ids e)
  distinct : Distinct r.inboxes → Distinct s.inboxes

resolve_one-failed :
    (fetch : Text → Fetched) (r : Resolution) (i message : Text)
    → fetch i ≡ fetch_failed message
    → resolve_one fetch r i
      ≡ record r { errors = r.errors ++ record { id = i; message = message } ∷ [] }
unfolding resolve_one
resolve_one-failed fetch r i message e = rw (e, resolve_one) refl

resolve_one-fetched :
    (fetch : Text → Fetched) (r : Resolution) (i : Text) (a : Actor)
    → fetch i ≡ fetched a
    → resolve_one fetch r i ≡ record r { inboxes = add r.inboxes (delivery_inbox a) }
unfolding resolve_one
resolve_one-fetched fetch r i a e = rw (e, resolve_one) refl

-- The ways in which the recipient `i` alone serves an inbox, or fails.
only_failure :
    (fetch : Text → Fetched) (i message : Text) (e : DeliveryError)
    → fetch i ≡ fetch_failed message
    → Fails fetch (i ∷ []) e
    → e ≡ record { id = i; message = message }
only_failure fetch i message e q (inl p, k) =
    let h : fetch_failed e.message ≡ fetch_failed message = sym k ∙ ap fetch p ∙ q in
    let k : e.message ≡ message = cc (h) in λ z. record { id = p z; message = k z }
only_failure fetch i message e q (inr m, k) = absurd m

no_inbox :
    (fetch : Text → Fetched) (i message t : Text)
    → fetch i ≡ fetch_failed message
    → ¬ Serves fetch (i ∷ []) t
no_inbox fetch i message t q (id, a, inl p, e, u) = cc (ap fetch p, e, q)
no_inbox fetch i message t q (id, a, inr m, e, u) = m

only_inbox :
    (fetch : Text → Fetched) (i t : Text) (a : Actor)
    → fetch i ≡ fetched a
    → Serves fetch (i ∷ []) t
    → IsInboxOf a t
only_inbox fetch i t a q (id, b, inl p, e, u) =
    let h : fetched b ≡ fetched a = sym e ∙ ap fetch p ∙ q in
    let k : b ≡ a = cc (h) in subst (λ z. IsInboxOf z t) k u
only_inbox fetch i t a q (id, b, inr m, e, u) = absurd m

no_failure :
    (fetch : Text → Fetched) (i : Text) (a : Actor) (e : DeliveryError)
    → fetch i ≡ fetched a
    → ¬ Fails fetch (i ∷ []) e
no_failure fetch i a e q (inl p, k) = cc (ap fetch p, k, q)
no_failure fetch i a e q (inr m, k) = m

resolve_one-IsResolved :
    (fetch : Text → Fetched) (r : Resolution) (i : Text) (x : Fetched)
    → fetch i ≡ x
    → IsResolved fetch (i ∷ []) r (resolve_one fetch r i)
resolve_one-IsResolved fetch r i (fetch_failed message) q =
    rw (resolve_one-failed fetch r i message q) record {
      inboxes =
          λ t. (inl, (λ h. elim h [ inl m ↦ m | inr x ↦ absurd (no_inbox fetch i message t q x) ]));
      errors = λ e. (
        (λ h. elim (In-append_cases e r.errors _ h) [
          | inl m ↦ inl m
          | inr (inl p) ↦ inr (
            inl (ap (λ x. x.id) p),
            ap fetch (ap (λ x. x.id) p) ∙ q ∙ ap (λ x. fetch_failed x.message) (sym p),
          )
          | inr (inr z) ↦ absurd z
        ]),
        (λ h. elim h [
          | inl m ↦ In-append_left e r.errors _ m
          | inr x ↦ In-append_right e r.errors _ (inl (only_failure fetch i message e q x))
        ]),
      );
      distinct = λ d. d;
    }
resolve_one-IsResolved fetch r i (fetched a) q = rw (resolve_one-fetched fetch r i a q) record {
  inboxes = λ t. (
    (λ h. elim ((In-add r.inboxes (delivery_inbox a) t).0 h) [
      | inl m ↦ inl m
      | inr p ↦ inr (i, a, inl refl, q, subst (IsInboxOf a) (sym p) (IsInboxOf-delivery_inbox a))
    ]),
    (λ h.
        (In-add r.inboxes (delivery_inbox a) t).1
          (elim h [ inl m ↦ inl m | inr x ↦ inr (IsInboxOf-eq a t (only_inbox fetch i t a q x)) ])),
  );
  errors = λ e. (inl, (λ h. elim h [ inl m ↦ m | inr x ↦ absurd (no_failure fetch i a e q x) ]));
  distinct = λ d. add-Distinct r.inboxes (delivery_inbox a) d;
}

Serves-cases :
    (fetch : Text → Fetched) (i : Text) (ids : List Text) (t : Text)
    → Serves fetch (i ∷ ids) t ↔ (Serves fetch (i ∷ []) t ⊎ Serves fetch ids t)
Serves-cases fetch i ids t = (
  (λ h.
      let (id, a, m, e, q) = h in
      elim m [ inl p ↦ inl (id, a, inl p, e, q) | inr n ↦ inr (id, a, n, e, q) ]),
  (λ h. elim h [
    | inl x ↦ let (id, a, m, e, q) = x in (id, a, elim m [ inl p ↦ inl p | inr z ↦ absurd z ], e, q)
    | inr x ↦ let (id, a, m, e, q) = x in (id, a, inr m, e, q)
  ]),
)

Fails-cases :
    (fetch : Text → Fetched) (i : Text) (ids : List Text) (e : DeliveryError)
    → Fails fetch (i ∷ ids) e ↔ (Fails fetch (i ∷ []) e ⊎ Fails fetch ids e)
Fails-cases fetch i ids e = (
  (λ h. elim h.0 [ inl p ↦ inl (inl p, h.1) | inr n ↦ inr (n, h.1) ]),
  (λ h. elim h [
    | inl x ↦ (elim x.0 [ inl p ↦ inl p | inr z ↦ absurd z ], x.1)
    | inr x ↦ (inr x.0, x.1)
  ]),
)

-- Membership after two rounds.
chain : {X Y Z P Q R : Type 0} → (Y ↔ (X ⊎ P)) → (Z ↔ (Y ⊎ Q)) → (R ↔ (P ⊎ Q)) → Z ↔ (X ⊎ R)
chain a b c = (
  (λ z. elim (b.0 z) [
    | inl y ↦ elim (a.0 y) [ inl x ↦ inl x | inr p ↦ inr (c.1 (inl p)) ]
    | inr q ↦ inr (c.1 (inr q))
  ]),
  (λ h. elim h [
    | inl x ↦ b.1 (inl (a.1 (inl x)))
    | inr r ↦ elim (c.0 r) [ inl p ↦ b.1 (inl (a.1 (inr p))) | inr q ↦ b.1 (inr q) ]
  ]),
)

resolve_all-IsResolved :
    (fetch : Text → Fetched) (r : Resolution) (ids : List Text)
    → IsResolved fetch ids r (resolve_all fetch r ids)
unfolding resolve_all
resolve_all-IsResolved fetch r [] = record {
  inboxes = λ t. (inl, (λ h. elim h [ inl m ↦ m | inr (id, a, m, e, q) ↦ absurd m ]));
  errors = λ e. (inl, (λ h. elim h [ inl m ↦ m | inr x ↦ absurd x.0 ]));
  distinct = λ d. d;
}
resolve_all-IsResolved fetch r (i ∷ ids) =
    let one = resolve_one-IsResolved fetch r i (fetch i) refl in
    let all = resolve_all-IsResolved fetch (resolve_one fetch r i) ids in
    record {
      inboxes = λ t. chain (one.inboxes t) (all.inboxes t) (Serves-cases fetch i ids t);
      errors = λ e. chain (one.errors e) (all.errors e) (Fails-cases fetch i ids e);
      distinct = λ d. all.distinct (one.distinct d);
    }

-- The inboxes that resolveInboxes() finds are those of the recipients that could be fetched, the
-- shared inbox where an actor has one and its own inbox where it has none, each once, and its errors
-- are those of the others.
pub resolve_inboxes-Serves :
    (fetch : Text → Fetched) (ids : List Text)
    → ((t : Text) → In t (resolve_inboxes fetch ids).inboxes ↔ Serves fetch ids t)
      × Distinct (resolve_inboxes fetch ids).inboxes
      × ((e : DeliveryError) → In e (resolve_inboxes fetch ids).errors ↔ Fails fetch ids e)
unfolding resolve_inboxes
resolve_inboxes-Serves fetch ids =
    let x = resolve_all-IsResolved fetch (record { inboxes = []; errors = [] }) ids in
    (
      (λ t. (
        (λ h. elim ((x.inboxes t).0 h) [ inl z ↦ absurd z | inr s ↦ s ]),
        (λ s. (x.inboxes t).1 (inr s)),
      )),
      x.distinct tt,
      (λ e. (
        (λ h. elim ((x.errors e).0 h) [ inl z ↦ absurd z | inr s ↦ s ]),
        (λ s. (x.errors e).1 (inr s)),
      )),
    )
