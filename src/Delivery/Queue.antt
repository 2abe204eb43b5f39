-- ===== src/Delivery/Queue.antt =====
-- The DeliveryQueue over ApStore.
pub mod Process
use qu_v.Prelude.{
  ℕ, ◌+◌, Bool, true, false, not, Text, codes, Option, none, some, List, [], ◌∷◌, ◌++◌, length,
  ◌==◌, ◌&&◌, ◌||◌, ltb, leb, if◌then◌else◌,
}
use qu_v.Core.Storage.{Operations}
use qu_v.As2.Value.{Value, get_field, as_text}
use qu_v.Store.{Stored, ApStore, PutOptions, StoreError}
use qu_v.Store.Methods
use qu_v.Store.Methods.{put, delete, get_children}
use qu_v.Delivery.{Resolution, Delivery, DeliveryError, backoff_ms}
use qu_v.Delivery.Entry.{Entry, entry_value, value_entry}

-- The constructor's parameters that the methods read.
pub record Settings : Type 0 where
  pub collection_id : Text
  pub max_attempts : ℕ

-- The delimiter in entryIdFor(), '\x02'
abbrev pub entry_delim : ℕ
entry_delim = 2

unfoldable pub entry_id_for : Text → Text → Text
entry_id_for collection_id activity_id =
    codes "urn:qu:delivery-queue-entry:" ++ (collection_id ++ entry_delim ∷ activity_id)

-- An element of processDue()'s results.
pub data Report : Type 0 where
  delivered : (id : Text) (attempts : ℕ) → Report
  gave_up : (id : Text) (attempts : ℕ) (last_error : Text) → Report
  rescheduled : (id : Text) (attempts : ℕ) (last_error : Text) (next_attempt_at : ℕ) → Report

-- deliveryResults.filter((r) => !r.ok)
unfoldable pub failed_deliveries : List Delivery → List Delivery
failed_deliveries [] = []
failed_deliveries (d ∷ ds) = let rest = failed_deliveries ds in if d.ok then rest else d ∷ rest

abbrev pub is_empty : {A : Type 0} → List A → Bool
is_empty [] = true
is_empty (x ∷ xs) = false

-- errors[0]?.message ?? 'unknown delivery error'
unfoldable pub first_message : List DeliveryError → Text
first_message [] = codes "unknown delivery error"
first_message (e ∷ es) = e.message

-- failedDeliveries[0]?.error ?? …
unfoldable pub last_error_of : List Delivery → List DeliveryError → Text
unfolding first_message
last_error_of [] errors = first_message errors
last_error_of (d ∷ ds) errors = elim d.error [ none ↦ first_message errors | some t ↦ t ]

-- activity.id, as it stands in a template string
unfoldable pub activity_id : Value → Text
unfolding get_field as_text
activity_id activity = elim (as_text (get_field activity (codes "id"))) [
  | none ↦ codes "undefined"
  | some t ↦ t
]

module _ {S : Type 0} (o : Operations S Stored) (c : Settings) where
  abbrev pub options_at : ℕ → PutOptions
  options_at now = record {
    collections = c.collection_id ∷ [];
    durability = codes "persistent";
    session_id = none;
    ts = now;
  }

  -- enqueue(activity, recipients) at the time `now`
  unfoldable pub enqueue : ApStore S → Value → List Text → ℕ → ApStore S × Methods.Result Value
  unfolding entry_id_for entry_value activity_id
  enqueue s activity recipients now =
      put o s
        (entry_value (record {
          id = entry_id_for c.collection_id (activity_id activity);
          activity = activity;
          recipients = recipients;
          attempts = 0;
          next_attempt_at = now;
          last_error = none;
        }))
        (options_at now) now

  -- pending()
  unfoldable pub pending : ApStore S → List Value
  pending s = get_children o s c.collection_id none

  module _ (resolve : List Text → Resolution) (deliver : Value → List Text → List Delivery) where
    -- The deliveries that an entry's attempt makes: none where there is no inbox.
    unfoldable pub attempt : Entry → List Delivery
    attempt e =
        let inboxes = (resolve e.recipients).inboxes in
        if is_empty inboxes then [] else deliver e.activity inboxes

    unfoldable pub has_failures : Entry → Bool
    unfolding attempt failed_deliveries
    has_failures e =
        not (is_empty (failed_deliveries (attempt e)))
        || not (is_empty (resolve e.recipients).errors)

    -- { ...entry, attempts, lastError, nextAttemptAt }
    unfoldable pub retried : Entry → ℕ → Entry
    unfolding last_error_of failed_deliveries attempt backoff_ms
    retried e now = record e {
      attempts = e.attempts + 1;
      last_error =
          some (last_error_of (failed_deliveries (attempt e)) (resolve e.recipients).errors);
      next_attempt_at = now + backoff_ms (e.attempts + 1);
    }

    -- A step of processDue()'s loop that ended in an exception, or in a report.
    abbrev pub reported :
        {A : Type 0} → ApStore S × Methods.Result A → Report → ApStore S × Methods.Result Report
    reported (s, Methods.returned x) r = (s, Methods.returned r)
    reported (s, Methods.thrown e) r = (s, Methods.thrown e)

    -- The body of processDue()'s loop, for an entry that is due.
    unfoldable pub process_entry : ApStore S → Entry → ℕ → ApStore S × Methods.Result Report
    unfolding has_failures retried last_error_of failed_deliveries attempt entry_value
    process_entry s e now =
        let last_error =
          last_error_of (failed_deliveries (attempt e)) (resolve e.recipients).errors in
        let next = retried e now in
        if has_failures e
        then if leb c.max_attempts (e.attempts + 1)
          then reported (delete o s e.id) (gave_up e.id (e.attempts + 1) last_error)
          else reported (put o s (entry_value next) (options_at now) now)
              (rescheduled e.id (e.attempts + 1) last_error next.next_attempt_at)
        else reported (delete o s e.id) (delivered e.id (e.attempts + 1))

    -- processDue(now)'s loop over the pending documents, with the reports so far.
    unfoldable pub process_entries :
        ApStore S → List Value → List Report → ℕ → ApStore S × Methods.Result (List Report)
    unfolding process_entry value_entry
    process_entries s [] reports now = (s, Methods.returned reports)
    process_entries s (v ∷ vs) reports now = elim (ltb now (value_entry v).next_attempt_at) [
      | true ↦ process_entries s vs reports now
      | false ↦
          let (t, outcome) = process_entry s (value_entry v) now in
          elim outcome [
            | Methods.returned r ↦ process_entries t vs (reports ++ r ∷ []) now
            | Methods.thrown e ↦ (t, Methods.thrown e)
          ]
    ]

    -- processDue(now)
    unfoldable pub process_due : ApStore S → ℕ → ApStore S × Methods.Result (List Report)
    unfolding process_entries pending
    process_due s now = process_entries s (pending s) [] now
