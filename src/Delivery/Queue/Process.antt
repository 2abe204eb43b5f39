-- ===== src/Delivery/Queue/Process.antt =====
-- What an attempt does to the queue, as the abstract store sees it.
use qu_v.Prelude.{
  ℕ, ◌+◌, ◌*◌, ◌^◌, ◌≤◌, ◌<◌, min, ◌≡◌, ◌-◌, ◌≢◌, ◌↔◌, ◌⊎◌, refl, sym, subst, ap, ◌∙◌, inl, inr,
  Bool, true, false, not, ◌||◌, Text, codes, none, some, List, [], ◌∷◌, All, leb, Bool-cases,
  Option-cases, text_dec, text_eq, arith,
}
use qu_v.Core.Storage
use qu_v.Core.Storage.{Operations}
use qu_v.Core.Cursor.RoundTrip.{ts_limit}
use qu_v.As2.Value.{Value, get_field, lookup_field, as_text}
use qu_v.Store.{Stored, ApStore, Record, doc_id}
use qu_v.Store.Keys.{IsClean}
use qu_v.Store.View.{View, Represents, update}
use qu_v.Store.Methods
use qu_v.Store.Methods.{emit, put, delete, returned}
use qu_v.Store.Calls.{tier_of-persistent, record_of, put-persistent, delete-view}
use qu_v.Delivery.{Resolution, Delivery, DeliveryError, backoff_ms}
use qu_v.Delivery.Entry.{Entry, entry_value}
use qu_v.Delivery.Queue.{
  Settings, Report, delivered, gave_up, rescheduled, options_at, is_empty, failed_deliveries,
  first_message, last_error_of, attempt, has_failures, retried, process_entry, reported,
}

pub doc_id-entry_value : (e : Entry) → e.id ≢ [] → doc_id (entry_value e) ≡ some e.id
unfolding doc_id entry_value get_field lookup_field as_text text_dec Bool-cases text_eq
doc_id-entry_value e n = ground (arith, n)

-- Every delivery is ok, and every recipient was resolved.
abbrev pub IsDelivered : List Delivery → List DeliveryError → Type 0
IsDelivered ds errors = All (λ d. d.ok ≡ true) ds × (errors ≡ [])

-- The message of the first recipient that was not resolved.
abbrev pub IsFirst : List DeliveryError → Text → Type 0
IsFirst [] t = t ≡ codes "unknown delivery error"
IsFirst (e ∷ es) t = t ≡ e.message

-- The error of the first delivery that is not ok, and where there is none, or it has none, the message
-- of the first recipient that was not resolved.
abbrev pub IsReason : List Delivery → List DeliveryError → Text → Type 0
IsReason [] errors t = IsFirst errors t
IsReason (d ∷ ds) errors t =
    ((d.ok ≡ true) × IsReason ds errors t)
    ⊎ ((d.ok ≡ false) × ((d.error ≡ some t) ⊎ ((d.error ≡ none) × IsFirst errors t)))

first_message-IsFirst : (errors : List DeliveryError) → IsFirst errors (first_message errors)
unfolding first_message
first_message-IsFirst [] = refl
first_message-IsFirst (e ∷ es) = refl

last_error_of-IsReason :
    (ds : List Delivery) (errors : List DeliveryError)
    → IsReason ds errors (last_error_of (failed_deliveries ds) errors)
unfolding last_error_of failed_deliveries
last_error_of-IsReason [] errors = first_message-IsFirst errors
last_error_of-IsReason (d ∷ ds) errors = elim (Bool-cases d.ok) [
  | inl k ↦ inl (k, rw (k, failed_deliveries) (last_error_of-IsReason ds errors))
  | inr k ↦ inr (
    k,
    elim (Option-cases d.error) [
      | inl n ↦ inr (n, rw (k, failed_deliveries, n, last_error_of) (first_message-IsFirst errors))
      | inr (t, n) ↦ inl (n ∙ ap some (rw (k, failed_deliveries, n, last_error_of) refl))
    ],
  )
]

failed_deliveries-none :
    (ds : List Delivery) → (is_empty (failed_deliveries ds) ≡ true) ↔ All (λ d. d.ok ≡ true) ds
unfolding failed_deliveries
failed_deliveries-none [] = (λ h. tt, λ h. refl)
failed_deliveries-none (d ∷ ds) = elim (Bool-cases d.ok) [
  | inl k ↦
      rw (k, failed_deliveries)
        ((λ h. (refl, (failed_deliveries-none ds).0 h)), (λ h. (failed_deliveries-none ds).1 h.1))
  | inr k ↦ rw (k, failed_deliveries) ((λ h. cc h), (λ h. cc (h.0)))
]

due :
    (attempts now : ℕ) → now + backoff_ms (attempts + 1) ≡ now + min (30000 * 2 ^ attempts) 21600000
unfolding backoff_ms
due attempts now =
    let before : attempts + 1 - 1 ≡ attempts = omega arith in rw (backoff_ms, before) refl

neither : (a b : Bool) → (not a || not b) ≡ false → (a ≡ true) × (b ≡ true)
neither true true h = (refl, refl)
neither true false h = cc h
neither false b h = cc h

is_empty-nil : {A : Type 0} (xs : List A) → (is_empty xs ≡ true) ↔ (xs ≡ [])
is_empty-nil [] = (λ h. refl, λ h. refl)
is_empty-nil (x ∷ xs) = (λ h. cc h, λ h. cc h)

module _ {S : Type 0} (o : Operations S Stored) (Ok : S → Type 0)
    (laws : Storage.Laws S Stored o Ok) (c : Settings) (resolve : List Text → Resolution)
    (deliver : Value → List Text → List Delivery) where
  -- The report of a run, and the view that its store represents.
  abbrev pub Leaves : ApStore S × Methods.Result Report → Report → View → Type 0
  Leaves run x m = (run.1 ≡ returned x) × Represents o Ok run.0.adapter m

  removes :
      (s : ApStore S) (m : View) (id : Text) (r : Record) (x : Report)
      → Represents o Ok s.adapter m
      → m id ≡ some r
      → Leaves (reported o c resolve deliver (delete o s id) x) x (update m id none)
  unfolding emit
  removes s m id r x rep e =
      let (b, q, u) = delete-view o Ok laws s m id r rep e in
      subst (λ z. Leaves (reported o c resolve deliver z x) x (update m id none)) (sym q) (refl, u)

  reschedules :
      (s : ApStore S) (m : View) (e : Entry) (now : ℕ) (x : Report)
      → Represents o Ok s.adapter m
      → e.id ≢ []
      → IsClean c.collection_id
      → now < ts_limit
      → Leaves
          (reported o c resolve deliver (put o s (entry_value e) (options_at o c now) now) x)
          x
          (update m e.id (some (record_of (entry_value e) (options_at o c now))))
  unfolding emit
  reschedules s m e now x rep n h l =
      let (b, q, u) =
        put-persistent o Ok laws s m (entry_value e) e.id (options_at o c now) now rep
          (doc_id-entry_value e n) tier_of-persistent (record { clean = (h, tt); fits = l }) in
      subst
        (λ z.
          Leaves (reported o c resolve deliver z x) x
            (update m e.id (some (record_of (entry_value e) (options_at o c now)))))
        (sym q) (refl, u)

  -- The deliveries that the entry asks for, and the recipients that could not be resolved.
  abbrev pub Made : Entry → List Delivery → Type 0
  Made e ds =
      (((resolve e.recipients).inboxes ≡ []) × (ds ≡ []))
      ⊎ (((resolve e.recipients).inboxes ≢ [])
          × (ds ≡ deliver e.activity (resolve e.recipients).inboxes))

  attempt-Made : (e : Entry) → Made e (attempt o c resolve deliver e)
  unfolding attempt
  attempt-Made e = with_inboxes (resolve e.recipients).inboxes refl
    where
      with_inboxes :
          (is : List Text)
          → (resolve e.recipients).inboxes ≡ is
          → Made e (attempt o c resolve deliver e)
      with_inboxes [] q = inl (q, rw (q, attempt) refl)
      with_inboxes (i ∷ is) q = inr ((λ z. cc (q, z)), rw (q, attempt) refl)

  has_failures-IsDelivered :
      (e : Entry)
      → (has_failures o c resolve deliver e ≡ false)
        ↔ IsDelivered (attempt o c resolve deliver e) (resolve e.recipients).errors
  unfolding has_failures
  has_failures-IsDelivered e =
      let ds = attempt o c resolve deliver e in
      let errors = (resolve e.recipients).errors in
      let (p, q) = failed_deliveries-none ds in
      let (u, v) = is_empty-nil errors in
      (
        (λ h.
            let (x, y) = neither (is_empty (failed_deliveries ds)) (is_empty errors) h in
            (p x, u y)),
        (λ h. rw (q h.0, v h.1) refl),
      )

  -- What an attempt at an entry at `now` ends with: the report, and the view that the store represents.
  -- Nothing is left of an entry that is delivered, or that has used up its attempts; else one attempt
  -- more is counted, and the next is due after thirty seconds, doubled with each attempt before it,
  -- and after six hours at most.
  pub data Ends (m : View) (e : Entry) (now : ℕ) (ds : List Delivery) : Report → View → Type 0 where
    delivers :
        IsDelivered ds (resolve e.recipients).errors
        → Ends m e now ds (delivered e.id (e.attempts + 1)) (update m e.id none)
    gives_up :
        (t : Text)
        → ¬ IsDelivered ds (resolve e.recipients).errors
        → c.max_attempts ≤ e.attempts + 1
        → IsReason ds (resolve e.recipients).errors t
        → Ends m e now ds (gave_up e.id (e.attempts + 1) t) (update m e.id none)
    retries :
        (t : Text) (due : ℕ)
        → ¬ IsDelivered ds (resolve e.recipients).errors
        → e.attempts + 1 < c.max_attempts
        → IsReason ds (resolve e.recipients).errors t
        → due ≡ now + min (30000 * 2 ^ e.attempts) 21600000
        → Ends m e now ds (rescheduled e.id (e.attempts + 1) t due) (
            update m e.id (
              some (record {
                ts = now;
                collections = c.collection_id ∷ [];
                doc = entry_value (record {
                  id = e.id;
                  activity = e.activity;
                  recipients = e.recipients;
                  attempts = e.attempts + 1;
                  next_attempt_at = due;
                  last_error = some t;
                });
              })))

  -- A run throws nothing, and ends so.
  abbrev pub Outcome : View → Entry → ℕ → List Delivery → ApStore S × Methods.Result Report → Type 0
  Outcome m e now ds run =
      (x : Report) × (run.1 ≡ returned x)
      × (after : View) × Ends m e now ds x after
      × Represents o Ok run.0.adapter after

  process_entry-Outcome :
      (s : ApStore S) (m : View) (e : Entry) (r : Record) (now : ℕ)
      → Represents o Ok s.adapter m
      → m e.id ≡ some r
      → IsClean c.collection_id
      → now < ts_limit
      → Outcome m e now (attempt o c resolve deliver e) (process_entry o c resolve deliver s e now)
  unfolding process_entry retried
  process_entry-Outcome s m e r now rep p h l =
      let errors = (resolve e.recipients).errors in
      let message = last_error_of (failed_deliveries (attempt o c resolve deliver e)) errors in
      let reason = last_error_of-IsReason (attempt o c resolve deliver e) errors in
      let (f, g) = has_failures-IsDelivered e in
      elim (Bool-cases (has_failures o c resolve deliver e)) [
        | inr z ↦
            let (q, u) = removes s m e.id r (delivered e.id (e.attempts + 1)) rep p in
            rw (z, process_entry) (_, q, _, delivers (f z), u)
        | inl z ↦
            let failed : ¬ IsDelivered (attempt o c resolve deliver e) errors = λ y. cc (z, g y) in
            elim (Bool-cases (leb c.max_attempts (e.attempts + 1))) [
              | inl y ↦
                  let (q, u) = removes s m e.id r (gave_up e.id (e.attempts + 1) message) rep p in
                  rw (z, process_entry, y)
                    (_, q, _, gives_up message failed (ground (arith, y)) reason, u)
              | inr y ↦
                  let next = retried o c resolve deliver e now in
                  let (q, u) =
                    reschedules s m next now
                      (rescheduled e.id (e.attempts + 1) message next.next_attempt_at) rep
                      (rep.indexable e.id r p).1 h l in
                  rw (z, process_entry, y)
                    (
                      _,
                      q,
                      _,
                      retries message next.next_attempt_at failed (ground (arith, y)) reason
                          (due e.attempts now),
                      u,
                    )
            ]
      ]

  -- On a store that represents a view in which the entry has a record, with a clean collection id and
  -- a time that fits in a cursor, an attempt at an entry throws nothing. It delivers to the inboxes of
  -- the recipients, if there are any. When each delivery is ok and each recipient was resolved, it
  -- reports that, and the store represents the view without the entry; when not, and the attempts are
  -- used up, it gives up and removes the entry too; and else it stores the entry with one attempt more,
  -- the first error, and a next attempt that is due in thirty seconds times two to the attempts made
  -- before, and in six hours at most.
  pub process_entry-view :
      (s : ApStore S) (m : View) (e : Entry) (r : Record) (now : ℕ)
      → Represents o Ok s.adapter m
      → m e.id ≡ some r
      → IsClean c.collection_id
      → now < ts_limit
      → (ds : List Delivery) × Made e ds
        × Outcome m e now ds (process_entry o c resolve deliver s e now)
  process_entry-view s m e r now rep p h l =
      (attempt o c resolve deliver e, attempt-Made e, process_entry-Outcome s m e r now rep p h l)
