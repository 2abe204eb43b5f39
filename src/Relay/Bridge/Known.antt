-- ===== src/Relay/Bridge/Known.antt =====
-- Which actors the peers of the bridge can be.
use qu_v.Prelude.{
  ℕ, ◌≡◌, refl, sym, ap, ◌∙◌, subst, inl, inr, Text, none, some, text_dec, if_pos, if_neg,
  Bool-cases, Option-cases,
}
use qu_v.Core.JsMap.{find}
use qu_v.Core.JsMap.Laws.{IsMap, find-put, find-delete, put-IsMap, delete-IsMap}
use qu_v.Core.Storage.{Operations}
use qu_v.Store.{Stored, ApStore}
use qu_v.Realtime.{
  DataFrame, Control, Frame, data_frame, control_frame, hello, resume, resumed, subscribe,
  unsubscribe, other,
}
use qu_v.Relay.Registry.{LocalActor, Registry, by_id}
use qu_v.Relay.Bridge.{
  PeerState, Bridge, every_own, actor_of, after_hello, on_frame, on_connection, on_close, set_state,
  changed_to, on_request, on_hello, on_control, on_data, on_message, Step, connects, closes, sends,
  elsewhere, Reachable, created, stepped,
}

some_inj : (a b : Text) → some a ≡ some b → a ≡ b
some_inj a b e = cc

module _ {S : Type 0} (o : Operations S Stored) (registry : Registry) where
  -- Every peer that has said which actor it is has named a registered one.
  pub record Known (b : Bridge S) : Type 0 where
    pub distinct : IsMap b.peers
    pub registered :
        (p a : Text) (st : PeerState)
        → find b.peers p ≡ some st
        → st.actor_id ≡ some a
        → (r : LocalActor) × (by_id registry a ≡ some r)

  set_state-Known :
      (b : Bridge S) (p : Text) (st : PeerState)
      → Known b
      → ((a : Text) → st.actor_id ≡ some a → (r : LocalActor) × (by_id registry a ≡ some r))
      → Known (set_state b p st)
  unfolding set_state
  set_state-Known b p st k h = record {
    distinct = put-IsMap b.peers p st k.distinct;
    registered = λ q a x e s. elim (text_dec q p) [
      | yes y ↦ h a (
          ap (λ z. elim z [ none ↦ none | some w ↦ w.actor_id ])
            (sym (find-put b.peers p q st ∙ if_pos (text_dec q p) y _ _) ∙ e)
          ∙ s)
      | no n ↦
          k.registered q a x (sym (find-put b.peers p q st ∙ if_neg (text_dec q p) n _ _) ∙ e) s
    ];
  }

  Known-peers : (b c : Bridge S) → c.peers ≡ b.peers → Known b → Known c
  Known-peers b c e k = record {
    distinct = rw e k.distinct;
    registered = λ p a st f s. k.registered p a st (rw e at f) s;
  }

  request-Known :
      (b : Bridge S) (p : Text) (st : PeerState) (c : Control)
      → find b.peers p ≡ some st
      → Known b
      → Known (on_request o registry b p st c)
  unfolding on_request
  request-Known b p st (hello a) e k = k
  request-Known b p st (resume since) e k = Known-peers b _ refl k
  request-Known b p st (resumed cursors) e k = k
  request-Known b p st (subscribe c) e k = set_state-Known b p _ k (λ a s. k.registered p a st e s)
  request-Known b p st (unsubscribe c) e k =
      set_state-Known b p _ k (λ a s. k.registered p a st e s)
  request-Known b p st (other op) e k = k

  after_hello-Known :
      (b : Bridge S) (p : Text) (st : PeerState) (c : Control)
      → find b.peers p ≡ some st
      → Known b
      → Known (after_hello o registry b p st c)
  unfolding after_hello
  after_hello-Known b p st c e k = elim (Option-cases (actor_of st)) [
    | inl q ↦ rw (q, after_hello) k
    | inr (a, q) ↦ rw (q, after_hello) (request-Known b p st c e k)
  ]

  control-Known :
      (b : Bridge S) (p : Text) (st : PeerState) (c : Control)
      → find b.peers p ≡ some st
      → Known b
      → Known (on_control o registry b p st c)
  unfolding on_control on_hello
  control-Known b p st (hello a) e k = elim (Option-cases (by_id registry a)) [
    | inl q ↦ rw (q, on_hello) (Known-peers b _ refl k)
    | inr (r, q) ↦
        rw (q, on_hello)
          (set_state-Known b p _ k
            (λ x s. (r, subst (λ z. by_id registry z ≡ some r) (some_inj a x s) q)))
  ]
  control-Known b p st (resume since) e k = after_hello-Known b p st (resume since) e k
  control-Known b p st (resumed cursors) e k = after_hello-Known b p st (resumed cursors) e k
  control-Known b p st (subscribe c) e k = after_hello-Known b p st (subscribe c) e k
  control-Known b p st (unsubscribe c) e k = after_hello-Known b p st (unsubscribe c) e k
  control-Known b p st (other op) e k = after_hello-Known b p st (other op) e k

  data-Known :
      (b : Bridge S) (p : Text) (st : PeerState) (f : DataFrame) (now : ℕ)
      → Known b
      → Known (on_data o registry b p st f now)
  unfolding on_data changed_to
  data-Known b p st f now k = elim (Option-cases (actor_of st)) [
    | inl e ↦ rw (e, on_data) k
    | inr (a, e) ↦ elim (Bool-cases (every_own a f.collections)) [
      | inl t ↦ rw (e, on_data, t) (Known-peers b _ refl k)
      | inr n ↦ rw (e, on_data, n) k
    ]
  ]

  frame-Known :
      (b : Bridge S) (p : Text) (st : PeerState) (frame : Frame) (now : ℕ)
      → find b.peers p ≡ some st
      → Known b
      → Known (on_frame o registry b p st frame now)
  unfolding on_frame
  frame-Known b p st (data_frame f) now e k = data-Known b p st f now k
  frame-Known b p st (control_frame c) now e k = control-Known b p st c e k

  Step-Known : (b c : Bridge S) → Step o registry b c → Known b → Known c
  unfolding on_connection on_close on_message changed_to
  Step-Known _ _ (connects b p) k = set_state-Known b p _ k (λ a s. cc)
  Step-Known _ _ (closes b p) k = record {
    distinct = delete-IsMap b.peers p k.distinct;
    registered = λ q a st e s. elim (text_dec q p) [
      | yes y ↦ cc (sym (find-delete b.peers p q k.distinct ∙ if_pos (text_dec q p) y _ _) ∙ e)
      | no n ↦
          k.registered q a st
            (sym (find-delete b.peers p q k.distinct ∙ if_neg (text_dec q p) n _ _) ∙ e) s
    ];
  }
  Step-Known _ _ (sends b p f now) k = elim (Option-cases (find b.peers p)) [
    | inl e ↦ rw (e, on_message) k
    | inr (st, e) ↦ rw (e, on_message) (frame-Known b p st f now e k)
  ]
  Step-Known _ _ (elsewhere b doc opts now) k = Known-peers b _ refl k

  Reachable-Known : (s : ApStore S) (b : Bridge S) → Reachable o registry s b → Known b
  unfolding find
  Reachable-Known s _ created = record { distinct = tt; registered = λ p a st e t. cc }
  Reachable-Known s _ (stepped b c r step) = Step-Known b c step (Reachable-Known s b r)

  -- In every state that a bridge can reach, the registry has a record for the actor that a connected
  -- peer has said it is.
  pub Reachable-registered :
      (s : ApStore S) (b : Bridge S) (p a : Text) (st : PeerState)
      → Reachable o registry s b
      → find b.peers p ≡ some st
      → st.actor_id ≡ some a
      → (r : LocalActor) × (by_id registry a ≡ some r)
  Reachable-registered s b p a st reach e t = (Reachable-Known s b reach).registered p a st e t
