-- ===== src/Delivery.antt =====
-- packages/ap-delivery/src: resolveInboxes() of resolve-inboxes.js, deliverActivity() of deliver.js
-- and the DeliveryQueue of queue.js. What the network answers during a call is a parameter.
pub mod Entry
pub mod Queue
pub mod Inboxes
pub mod Backoff
use qu_v.Prelude.{
  ℕ, ◌+◌, ◌-◌, ◌*◌, ◌^◌, min, Bool, true, false, not, Text, Option, none, some, List, [], ◌∷◌, ◌++◌,
  map, length, ◌==◌, if◌then◌else◌,
}
use qu_v.As2.Value.{Value}
use qu_v.As2.Audience.{add}

-- The fields that are read of an actor document; fetchActorImpl has checked that `inbox` is a string.
pub record Actor : Type 0 where
  pub inbox : Text
  pub shared_inbox : Option Text

-- What fetchActorImpl gives for an id: the message of an error, or an actor.
pub data Fetched : Type 0 where
  fetch_failed : Text → Fetched
  fetched : Actor → Fetched

pub record DeliveryError : Type 0 where
  pub id : Text
  pub message : Text

-- { inboxes, errors }; the inboxes are a Set in insertion order.
pub record Resolution : Type 0 where
  pub inboxes : List Text
  pub errors : List DeliveryError

-- actor.endpoints?.sharedInbox ?? actor.inbox
unfoldable pub delivery_inbox : Actor → Text
delivery_inbox a = elim a.shared_inbox [ none ↦ a.inbox | some t ↦ t ]

-- One turn of the loop.
unfoldable pub resolve_one : (Text → Fetched) → Resolution → Text → Resolution
unfolding delivery_inbox
resolve_one fetch r id = elim (fetch id) [
  | fetch_failed message ↦ record r {
    errors = r.errors ++ record { id = id; message = message } ∷ [];
  }
  | fetched a ↦ record r { inboxes = add r.inboxes (delivery_inbox a) }
]

unfoldable pub resolve_all : (Text → Fetched) → Resolution → List Text → Resolution
unfolding resolve_one
resolve_all fetch r [] = r
resolve_all fetch r (id ∷ ids) = resolve_all fetch (resolve_one fetch r id) ids

-- resolveInboxes(recipientIds)
unfoldable pub resolve_inboxes : (Text → Fetched) → List Text → Resolution
unfolding resolve_all
resolve_inboxes fetch ids = resolve_all fetch (record { inboxes = []; errors = [] }) ids

-- What fetchImpl gives for an inbox: the message of an error, or a response's ok and status.
pub data Posted : Type 0 where
  post_failed : Text → Posted
  response : Bool → ℕ → Posted

pub record Delivery : Type 0 where
  pub inbox : Text
  pub ok : Bool
  pub status : Option ℕ
  pub error : Option Text

unfoldable pub delivery_of : Text → Posted → Delivery
delivery_of inbox (post_failed message) = record {
  inbox = inbox;
  ok = false;
  status = none;
  error = some message;
}
delivery_of inbox (response ok status) = record {
  inbox = inbox;
  ok = ok;
  status = some status;
  error = none;
}

-- deliverActivity(activity, { inboxes, … })
unfoldable pub deliver_activity : (Text → Value → Posted) → Value → List Text → List Delivery
unfolding delivery_of
deliver_activity post activity [] = []
deliver_activity post activity (inbox ∷ inboxes) =
    delivery_of inbox (post inbox activity) ∷ deliver_activity post activity inboxes

-- DEFAULT_MAX_ATTEMPTS, BASE_BACKOFF_MS and MAX_BACKOFF_MS
abbrev pub default_max_attempts : ℕ
default_max_attempts = 8

abbrev pub base_backoff_ms : ℕ
base_backoff_ms = 30000

abbrev pub max_backoff_ms : ℕ
max_backoff_ms = 6 * 60 * 60 * 1000

unfoldable pub backoff_ms : ℕ → ℕ
backoff_ms attempts = min (base_backoff_ms * 2 ^ (attempts - 1)) max_backoff_ms
