-- ===== src/Client/Connects.antt =====
-- The order in which connect() talks to the relay.
use qu_v.Prelude.{
  ℕ, ◌+◌, ◌≡◌, ◌⊎◌, refl, sym, ap, ap₂, ◌∙◌, Bool, true, false, Text, none, List, [], ◌∷◌, ◌++◌,
  map, All, append_assoc, append-nil, arith, take, length, length-append, inl, inr,
}
use mathlib.Core.Bool.{false≢true}
use qu_v.Core.Storage
use qu_v.Core.Storage.{Operations}
use qu_v.Store.{Stored}
use qu_v.Store.View.{View, Represents}
use qu_v.Realtime.{Frame, control_frame, hello, resume, subscribe}
use qu_v.Client.{
  Client, Call, try_send, send, send_subscriptions, send_resume, since_entries, get_cursor,
}
use qu_v.Client.Outbox.{connect}
use qu_v.Client.Flushes.{IsSendable, entry_frame, without, outbox, flush_outbox-Flushed}

-- The client after some frames have gone out.
abbrev sent_on : {S : Type 0} → Client S → List Frame → Client S
sent_on c fs = record c { sent = c.sent ++ fs; attempts = c.attempts + length fs }

take-all : {A : Type 0} (n : ℕ) (xs : List A) → n ≡ length xs → take n xs ≡ xs
take-all n xs e = rw e (all xs)
  where
    all : {A : Type 0} (xs : List A) → take (length xs) xs ≡ xs
    all [] = refl
    all (x ∷ xs) = ap (λ z. x ∷ z) (all xs)

sent_on_twice :
    {S : Type 0} (c : Client S) (fs gs : List Frame)
    → ◌≡◌ {A = Call S} (sent_on (sent_on c fs) gs, none) (sent_on c (fs ++ gs), none)
sent_on_twice c fs gs =
    let e : c.attempts + length fs + length gs ≡ c.attempts + length (fs ++ gs) =
      omega (arith, length-append fs gs) in
    ap₂ (λ s n. (record c { sent = s; attempts = n }, none)) (append_assoc c.sent fs gs) e

whole :
    (accepts : ℕ → Bool) (n l k : ℕ)
    → ((j : ℕ) → accepts j ≡ true)
    → (n ≡ l) ⊎ (accepts k ≡ false)
    → n ≡ l
whole accepts n l k h (inl e) = e
whole accepts n l k h (inr f) = absurd (false≢true (sym f ∙ h k))

joined :
    (xs ys zs : List Frame) (f g : Frame)
    → ((xs ++ f ∷ []) ++ ys) ++ g ∷ [] ++ zs ≡ xs ++ (f ∷ (ys ++ (g ∷ zs)))
joined xs ys zs f g =
    append_assoc ((xs ++ f ∷ []) ++ ys) (g ∷ []) zs
    ∙ append_assoc (xs ++ f ∷ []) ys (g ∷ zs)
    ∙ append_assoc xs (f ∷ []) (ys ++ g ∷ zs)

since_entries-store :
    {S : Type 0} (o : Operations S Stored) (c d : Client S) (ks : List Text)
    → d.store ≡ c.store
    → since_entries o d ks ≡ since_entries o c ks
unfolding since_entries get_cursor
since_entries-store o c d [] e = refl
since_entries-store o c d (k ∷ ks) e = rw (e, since_entries-store o c d ks e) refl

module _ {S : Type 0} (accepts : ℕ → Bool) (opened : (n : ℕ) → accepts n ≡ true) where
  send-accepted : (c : Client S) (f : Frame) → send accepts c f ≡ (sent_on c (f ∷ []), none)
  unfolding send try_send
  send-accepted c f = rw (opened c.attempts) refl

  send_subscriptions-accepted :
      (c : Client S) (ks : List Text)
      → send_subscriptions accepts c ks
        ≡ (sent_on c (map (λ k. control_frame (subscribe k)) ks), none)
  unfolding send_subscriptions
  send_subscriptions-accepted c [] =
      let e : c.attempts ≡ c.attempts + 0 = omega arith in
      ap₂ (λ s n. (record c { sent = s; attempts = n }, none)) (sym (append-nil c.sent)) e
  send_subscriptions-accepted c (k ∷ ks) =
      rw (send-accepted c (control_frame (subscribe k)), send_subscriptions)
        (send_subscriptions-accepted (sent_on c (control_frame (subscribe k) ∷ [])) ks
          ∙ sent_on_twice c (control_frame (subscribe k) ∷ [])
              (map (λ k. control_frame (subscribe k)) ks))

  module _ (o : Operations S Stored) (Ok : S → Type 0) (laws : Storage.Laws S Stored o Ok)
      (actor_id : Text) where
    -- Over a transport that opens and whose send() never throws, on a store that represents a view,
    -- and for an outbox whose entries can all be sent, connect() throws nothing and sends, in this
    -- order: hello with the actor's id; a subscribe for each subscription; one resume with the
    -- stored cursor of each subscription; and the frame of each outbox entry, oldest first. It
    -- leaves the client connected, and a store without the records of those entries.
    pub connect-sent :
        (c : Client S) (m : View)
        → Represents o Ok c.store.adapter m
        → All IsSendable (outbox o actor_id c)
        → let queue = outbox o actor_id c in
          (d : Client S) × (connect o actor_id accepts true c ≡ (d, none))
          × (d.connected ≡ true)
          × (d.sent
              ≡ c.sent
                ++ (control_frame (hello actor_id)
                    ∷ (map (λ k. control_frame (subscribe k)) c.subscriptions
                        ++ (control_frame (resume (since_entries o c c.subscriptions))
                            ∷ map entry_frame queue))))
          × Represents o Ok d.store.adapter (without (map (λ e. e.id) queue) m)
    unfolding connect send_resume
    connect-sent c m rep h =
        let c0 = record c { connected = true } in
        let c1 = sent_on c0 (control_frame (hello actor_id) ∷ []) in
        let c2 = sent_on c1 (map (λ k. control_frame (subscribe k)) c.subscriptions) in
        let ask = control_frame (resume (since_entries o c2 c.subscriptions)) in
        let c3 = sent_on c2 (ask ∷ []) in
        let (d, q, x) = flush_outbox-Flushed o Ok laws actor_id accepts c3 m rep h in
        let all : take x.count (outbox o actor_id c) ≡ outbox o actor_id c =
          take-all x.count _ (whole accepts x.count _ _ opened x.stopped) in
        (
          d,
          rw
              (
                send-accepted c0 (control_frame (hello actor_id)),
                send_subscriptions-accepted c1 c.subscriptions,
                send-accepted c2 ask,
              )
              q,
          x.same.0,
          x.sent
              ∙ (rw all (
                  joined c.sent (map (λ k. control_frame (subscribe k)) c.subscriptions)
                    (map entry_frame (outbox o actor_id c)) (control_frame (hello actor_id)) ask))
              ∙ ap
                  (λ z.
                    c.sent
                    ++ (control_frame (hello actor_id)
                        ∷ (map (λ k. control_frame (subscribe k)) c.subscriptions
                            ++ (control_frame (resume z) ∷ map entry_frame (outbox o actor_id c)))))
                  (since_entries-store o c c2 c.subscriptions refl),
          rw all at x.view,
        )
