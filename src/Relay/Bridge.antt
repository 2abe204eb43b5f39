-- ===== src/Relay/Bridge.antt =====
-- packages/relay/src/realtime-bridge.js: createRealtimeBridge(), over ApStore and its bus. A handler
-- runs as one step; the frames that the bridge hands to the transport are listed with their peers,
-- and the peers that it has told to close.
pub mod Known
pub mod Safety
pub mod Broadcast
use mathlib.Core.Option
use qu_v.Prelude.{
  ℕ, Bool, true, false, not, ◌&&◌, ◌≡◌, Text, Option, none, some, List, [], ◌∷◌, ◌++◌, map, length,
  drop, ◌==◌, if◌then◌else◌, starts_with, text_eq,
}
use qu_v.Core.Cursor
use qu_v.Core.JsMap
use qu_v.Core.JsMap.{Entries, find}
use qu_v.Core.Storage.{Operations}
use qu_v.As2.Value.{Value}
use qu_v.As2.Vocabulary.{includes}
use qu_v.As2.Audience
use qu_v.Store.{Stored, Change, ApStore, PutOptions}
use qu_v.Store.Methods
use qu_v.Store.Methods.{put}
use qu_v.Realtime.{
  DataFrame, Control, Frame, data_frame, control_frame, hello, resume, resumed, subscribe,
  unsubscribe, other, build_data_frame,
}
use qu_v.Realtime.Resume.{replay_resume}
use qu_v.Relay.Registry.{Registry, by_id}

-- The value of peerState for a peer.
pub record PeerState : Type 0 where
  pub actor_id : Option Text
  pub subscriptions : List Text

pub record Bridge (S : Type 0) : Type 0 where
  pub store : ApStore S
  pub peers : Entries PeerState
  pub sent : List (Text × Frame)
  pub closing : List Text

-- isOwnCollection(actorId, collectionId)
unfoldable pub is_own_collection : Text → Text → Bool
unfolding starts_with
is_own_collection actor_id c = starts_with actor_id c

-- collections.every((c) => isOwnCollection(actorId, c))
unfoldable pub every_own : Text → List Text → Bool
unfolding is_own_collection
every_own actor_id [] = true
every_own actor_id (c ∷ cs) = is_own_collection actor_id c && every_own actor_id cs

-- set.delete(x)
unfoldable pub remove : List Text → Text → List Text
remove [] x = []
remove (y ∷ ys) x = let rest = remove ys x in if text_eq x y then ys else y ∷ rest

-- The actor of a state, where it is truthy.
unfoldable pub actor_of : PeerState → Option Text
actor_of st = elim st.actor_id [ none ↦ none | some a ↦ if length a == 0 then none else some a ]

-- collections.some((c) => subscriptions.has(c))
unfoldable pub some_subscribed : List Text → List Text → Bool
unfolding includes
some_subscribed subscriptions [] = false
some_subscribed subscriptions (c ∷ cs) =
    let rest = some_subscribed subscriptions cs in if includes subscriptions c then true else rest

-- The test for a peer in the listener on 'change'.
unfoldable pub is_relevant : PeerState → List Text → Bool
unfolding actor_of some_subscribed
is_relevant st collections = elim (actor_of st) [
  | none ↦ false
  | some a ↦ some_subscribed st.subscriptions collections
]

-- The frame, once for each relevant peer.
unfoldable pub to_peers : Entries PeerState → List Text → Frame → List (Text × Frame)
unfolding is_relevant
to_peers [] collections f = []
to_peers ((p, st) ∷ ps) collections f =
    let rest = to_peers ps collections f in
    if is_relevant st collections then (p, f) ∷ rest else rest

-- The listener on 'change'; an exception of buildDataFrame() leaves nothing sent.
unfoldable pub broadcast : Entries PeerState → Change → List (Text × Frame)
unfolding to_peers build_data_frame
broadcast peers e = elim (build_data_frame e) [
  | Cursor.ok f ↦ to_peers peers e.collections (data_frame f)
  | Cursor.err x ↦ []
]

unfoldable pub broadcast_all : Entries PeerState → List Change → List (Text × Frame)
unfolding broadcast
broadcast_all peers [] = []
broadcast_all peers (e ∷ es) = broadcast peers e ++ broadcast_all peers es

-- { collections, durability: frame.durability, sessionId: frame.sessionId }, at the time `now`
unfoldable pub options_of : DataFrame → ℕ → PutOptions
options_of f now = record {
  collections = f.collections;
  durability = f.durability;
  session_id = f.session_id;
  ts = now;
}

-- The frames addressed to one peer.
unfoldable pub send_to : Text → List Frame → List (Text × Frame)
send_to p fs = map (λ f. (p, f)) fs

module _ {S : Type 0} where
  unfoldable pub on_connection : Bridge S → Text → Bridge S
  on_connection b p = record b {
    peers = JsMap.put b.peers p (record { actor_id = none; subscriptions = [] });
  }

  unfoldable pub on_close : Bridge S → Text → Bridge S
  on_close b p = record b { peers = JsMap.delete b.peers p }

  -- The peer's state, changed in place.
  unfoldable pub set_state : Bridge S → Text → PeerState → Bridge S
  set_state b p st = record b { peers = JsMap.put b.peers p st }

  -- The store after a call of it, with the events that it emitted sent on.
  unfoldable pub changed_to : Bridge S → ApStore S → Bridge S
  unfolding broadcast_all
  changed_to b t = record b {
    store = t;
    sent = b.sent ++ broadcast_all b.peers (drop (length b.store.changes) t.changes);
  }

  module _ (o : Operations S Stored) (registry : Registry) where
    -- The control frames that count only after a valid hello.
    unfoldable pub on_request : Bridge S → Text → PeerState → Control → Bridge S
    unfolding set_state remove send_to Audience.add
    on_request b p st (subscribe c) =
        set_state b p (record st { subscriptions = Audience.add st.subscriptions c })
    on_request b p st (unsubscribe c) =
        set_state b p (record st { subscriptions = remove st.subscriptions c })
    on_request b p st (resume since) = record b {
      sent = b.sent ++ send_to p (replay_resume o b.store st.subscriptions since).0;
    }
    on_request b p st (hello a) = b
    on_request b p st (resumed cursors) = b
    on_request b p st (other op) = b

    unfoldable pub on_hello : Bridge S → Text → PeerState → Text → Bridge S
    unfolding set_state by_id
    on_hello b p st a = elim (by_id registry a) [
      | none ↦ record b { closing = b.closing ++ p ∷ [] }
      | some r ↦ set_state b p (record st { actor_id = some a })
    ]

    -- if (!state.actorId) return
    unfoldable pub after_hello : Bridge S → Text → PeerState → Control → Bridge S
    unfolding on_request actor_of
    after_hello b p st c = elim (actor_of st) [ none ↦ b | some a ↦ on_request b p st c ]

    unfoldable pub on_control : Bridge S → Text → PeerState → Control → Bridge S
    unfolding on_hello after_hello
    on_control b p st (hello a) = on_hello b p st a
    on_control b p st c = after_hello b p st c

    unfoldable pub on_data : Bridge S → Text → PeerState → DataFrame → ℕ → Bridge S
    unfolding actor_of every_own changed_to options_of
    on_data b p st f now = elim (actor_of st) [
      | none ↦ b
      | some a ↦
          if every_own a f.collections
          then changed_to b (put o b.store f.doc (options_of f now) now).0
          else b
    ]

    unfoldable pub on_frame : Bridge S → Text → PeerState → Frame → ℕ → Bridge S
    unfolding on_control on_data
    on_frame b p st (data_frame f) now = on_data b p st f now
    on_frame b p st (control_frame c) now = on_control b p st c

    -- peer.onMessage's callback; a peer that the bridge does not know has none.
    unfoldable pub on_message : Bridge S → Text → Frame → ℕ → Bridge S
    unfolding on_frame find
    on_message b p frame now = elim (find b.peers p) [
      | none ↦ b
      | some st ↦ on_frame b p st frame now
    ]

-- What happens at the bridge: a peer connects, closes or sends a frame, or another part of the relay
-- puts a document.
pub data Step {S : Type 0} (o : Operations S Stored) (registry : Registry)
    : Bridge S → Bridge S → Type 0 where
  connects : (b : Bridge S) (p : Text) → Step o registry b (on_connection b p)
  closes : (b : Bridge S) (p : Text) → Step o registry b (on_close b p)
  sends :
      (b : Bridge S) (p : Text) (f : Frame) (now : ℕ)
      → Step o registry b (on_message o registry b p f now)
  elsewhere :
      (b : Bridge S) (doc : Value) (opts : PutOptions) (now : ℕ)
      → Step o registry b (changed_to b (put o b.store doc opts now).0)

-- The states of a bridge that was created over the store.
pub data Reachable {S : Type 0} (o : Operations S Stored) (registry : Registry) (s : ApStore S)
    : Bridge S → Type 0 where
  created : Reachable o registry s (record { store = s; peers = []; sent = []; closing = [] })
  stepped :
      (b c : Bridge S) → Reachable o registry s b → Step o registry b c → Reachable o registry s c
