-- ===== src/Relay/Bridge/Safety.antt =====
-- Who can write through the bridge.
use qu_v.Prelude.{
  ℕ, ◌≡◌, ◌⊎◌, refl, inl, inr, true, Text, some, List, [], ◌∷◌, All, starts_with, Bool-cases,
  Option-cases, arith,
}
use qu_v.Core.JsMap.{find}
use qu_v.Core.Storage.{Operations}
use qu_v.Store.{Stored, ApStore}
use qu_v.Store.Methods.{put}
use qu_v.Realtime.{
  DataFrame, Control, Frame, data_frame, control_frame, hello, resume, resumed, subscribe,
  unsubscribe, other,
}
use qu_v.Relay.Registry.{LocalActor, Registry, by_id}
use qu_v.Relay.Bridge.{
  PeerState, Bridge, is_own_collection, every_own, actor_of, after_hello, on_frame, options_of,
  set_state, changed_to, on_request, on_hello, on_control, on_data, on_message, Reachable,
}
use qu_v.Relay.Bridge.Known.{Reachable-registered}

every_own-All :
    (a : Text) (cs : List Text) → every_own a cs ≡ true → All (λ c. starts_with a c ≡ true) cs
unfolding every_own is_own_collection
every_own-All a [] h = tt
every_own-All a (c ∷ cs) h = elim (Bool-cases (starts_with a c)) [
  | inl t ↦ (t, every_own-All a cs (rw t at h))
  | inr f ↦ absurd (ground (arith, f, h))
]

actor_of-some : (st : PeerState) (a : Text) → actor_of st ≡ some a → st.actor_id ≡ some a
unfolding actor_of
actor_of-some st a h = elim (Option-cases st.actor_id) [
  | inl e ↦ ground (arith, e, h)
  | inr (x, e) ↦ ground (arith, e, h)
]

module _ {S : Type 0} (o : Operations S Stored) (registry : Registry) where
  -- A peer's data frame, put into the store for the actor that the peer has said it is.
  pub record Authorized (b c : Bridge S) (p : Text) (message : Frame) (now : ℕ) : Type 0 where
    pub state : PeerState
    pub actor : Text
    pub frame : DataFrame
    pub carried : message ≡ data_frame frame
    pub connected : find b.peers p ≡ some state
    pub said : state.actor_id ≡ some actor
    pub own : All (λ k. starts_with actor k ≡ true) frame.collections
    pub written : c.store ≡ (put o b.store frame.doc (options_of frame now) now).0

  request-store :
      (b : Bridge S) (p : Text) (st : PeerState) (c : Control)
      → (on_request o registry b p st c).store ≡ b.store
  unfolding on_request set_state
  request-store b p st (hello a) = refl
  request-store b p st (resume since) = refl
  request-store b p st (resumed cursors) = refl
  request-store b p st (subscribe c) = refl
  request-store b p st (unsubscribe c) = refl
  request-store b p st (other op) = refl

  after_hello-store :
      (b : Bridge S) (p : Text) (st : PeerState) (c : Control)
      → (after_hello o registry b p st c).store ≡ b.store
  unfolding after_hello
  after_hello-store b p st c = elim (Option-cases (actor_of st)) [
    | inl e ↦ rw (e, after_hello) refl
    | inr (a, e) ↦ rw (e, after_hello) (request-store b p st c)
  ]

  control-store :
      (b : Bridge S) (p : Text) (st : PeerState) (c : Control)
      → (on_control o registry b p st c).store ≡ b.store
  unfolding on_control on_hello set_state
  control-store b p st (hello a) = elim (Option-cases (by_id registry a)) [
    | inl e ↦ rw (e, on_hello) refl
    | inr (x, e) ↦ rw (e, on_hello) refl
  ]
  control-store b p st (resume since) = after_hello-store b p st (resume since)
  control-store b p st (resumed cursors) = after_hello-store b p st (resumed cursors)
  control-store b p st (subscribe c) = after_hello-store b p st (subscribe c)
  control-store b p st (unsubscribe c) = after_hello-store b p st (unsubscribe c)
  control-store b p st (other op) = after_hello-store b p st (other op)

  data-store :
      (b : Bridge S) (p : Text) (st : PeerState) (f : DataFrame) (now : ℕ)
      → find b.peers p ≡ some st
      → ((on_data o registry b p st f now).store ≡ b.store)
        ⊎ Authorized b (on_data o registry b p st f now) p (data_frame f) now
  unfolding on_data changed_to
  data-store b p st f now h = elim (Option-cases (actor_of st)) [
    | inl e ↦ rw (e, on_data) (inl refl)
    | inr (a, e) ↦ elim (Bool-cases (every_own a f.collections)) [
      | inl t ↦ inr (record {
        state = st;
        actor = a;
        frame = f;
        carried = refl;
        connected = h;
        said = actor_of-some st a e;
        own = every_own-All a f.collections t;
        written = rw (e, on_data, t) refl;
      })
      | inr n ↦ rw (e, on_data, n) (inl refl)
    ]
  ]

  frame-store :
      (b : Bridge S) (p : Text) (st : PeerState) (frame : Frame) (now : ℕ)
      → find b.peers p ≡ some st
      → ((on_frame o registry b p st frame now).store ≡ b.store)
        ⊎ Authorized b (on_frame o registry b p st frame now) p frame now
  unfolding on_frame
  frame-store b p st (data_frame f) now e = data-store b p st f now e
  frame-store b p st (control_frame k) now e = inl (control-store b p st k)

  message-store :
      (b : Bridge S) (p : Text) (frame : Frame) (now : ℕ)
      → ((on_message o registry b p frame now).store ≡ b.store)
        ⊎ Authorized b (on_message o registry b p frame now) p frame now
  unfolding on_message
  message-store b p frame now = elim (Option-cases (find b.peers p)) [
    | inl e ↦ rw (e, on_message) (inl refl)
    | inr (st, e) ↦ rw (e, on_message) (frame-store b p st frame now e)
  ]

  -- In every state that a bridge can reach, a peer's message leaves the store as it was, or it is a
  -- data frame, all of whose collections start with the id of a registered actor that the peer has
  -- said it is, and the store is what put() of the frame's document makes of it.
  pub on_message-Authorized :
      (s : ApStore S) (b : Bridge S) (p : Text) (frame : Frame) (now : ℕ)
      → Reachable o registry s b
      → ((on_message o registry b p frame now).store ≡ b.store)
        ⊎ ((w : Authorized b (on_message o registry b p frame now) p frame now) × (r : LocalActor)
            × (by_id registry w.actor ≡ some r))
  on_message-Authorized s b p frame now reach = elim (message-store b p frame now) [
    | inl e ↦ inl e
    | inr w ↦
        let (r, e) =
          Reachable-registered o registry s b p w.actor w.state reach w.connected w.said in
        inr (w, r, e)
  ]
