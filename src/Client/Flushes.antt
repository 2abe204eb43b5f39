-- ===== src/Client/Flushes.antt =====
-- What #flushOutbox() hands to the transport, and what it leaves in the store.
use qu_v.Prelude.{
  ℕ, suc, ◌+◌, ◌≤◌, ◌<◌, ◌≡◌, ◌≢◌, ◌⊎◌, refl, sym, ap, ◌∙◌, subst, inl, inr, Bool, true, false,
  Text, Option, none, some, List, [], ◌∷◌, ◌++◌, map, All, take, length, append_assoc, append-nil,
  reverse, text_dec, if_pos, if_neg, text_eq_iff, text_eq-ne, if◌then◌else◌, Bool-cases,
  Option-cases, arith,
}
use qu_v.Core.Cursor
use qu_v.Core.Cursor.RoundTrip.{ts_limit, cursor_text, encode_cursor-fits}
use qu_v.Core.Storage
use qu_v.Core.Storage.{Operations}
use qu_v.As2.Vocabulary.{includes}
use qu_v.Store.{Stored, ApStore, Record}
use qu_v.Store.View.{View, Represents, update}
use qu_v.Store.Methods
use qu_v.Store.Methods.{delete, emit, get_children}
use qu_v.Store.Calls.{delete-view, delete-unknown, delete_change}
use qu_v.Realtime.{Frame, data_frame, build_data_frame, frame_without_cursor}
use qu_v.Client.{Client, try_send}
use qu_v.Client.Outbox.{
  OutboxEntry, outbox_collection, value_outbox, entry_change, after_send, after_delete,
  flush_entries, flush_outbox,
}

-- The view without the records of some ids.
abbrev pub without : List Text → View → View
without ids m j = if includes ids j then none else m j

-- An entry whose frame has a cursor.
pub record IsSendable (e : OutboxEntry) : Type 0 where
  pub named : e.target_id ≢ []
  pub fits : e.ts < ts_limit

-- The frame of an entry.
abbrev pub entry_frame : OutboxEntry → Frame
entry_frame e = data_frame (record (frame_without_cursor (entry_change e)) {
  cursor = some (cursor_text e.ts e.target_id);
})

build-entry :
    (e : OutboxEntry)
    → IsSendable e
    → build_data_frame (entry_change e)
      ≡ Cursor.ok (record (frame_without_cursor (entry_change e)) {
        cursor = some (cursor_text e.ts e.target_id);
      })
unfolding build_data_frame entry_change
build-entry e x =
    rw
      (encode_cursor-fits (record { ts = e.ts; id = e.target_id }) x.fits x.named, build_data_frame)
      refl

without-cons :
    (id : Text) (ids : List Text) (m : View) → without ids (update m id none) ≡ without (id ∷ ids) m
unfolding includes
without-cons id ids m = λ i j. at_id j i
  where
    both_none : (b : Bool) → ◌≡◌ {A = Option Record} (if b then none else none) none
    both_none true = refl
    both_none false = refl

    at_id : (j : Text) → without ids (update m id none) j ≡ without (id ∷ ids) m j
    at_id j = elim (text_dec j id) [
      | yes q ↦
          rw ((text_eq_iff j id).1 q, if_pos (text_dec j id) q none (m j))
            (both_none (includes ids j))
      | no n ↦ rw (text_eq-ne j id n, if_neg (text_dec j id) n none (m j)) refl
    ]

update_absent : (id : Text) (m : View) → m id ≡ none → update m id none ≡ m
update_absent id m e = λ i j. at_id j i
  where
    at_id : (j : Text) → update m id none j ≡ m j
    at_id j = elim (text_dec j id) [
      | yes q ↦ if_pos (text_dec j id) q _ _ ∙ sym e ∙ ap m (sym q)
      | no n ↦ if_neg (text_dec j id) n _ _
    ]

-- The outbox, oldest entry first.
abbrev pub outbox : {S : Type 0} → Operations S Stored → Text → Client S → List OutboxEntry
outbox o actor_id c =
    map value_outbox (reverse (get_children o c.store (outbox_collection actor_id) none))

module _ {S : Type 0} (o : Operations S Stored) (Ok : S → Type 0)
    (laws : Storage.Laws S Stored o Ok) where
  -- delete() of any id, whether it has a record or not.
  delete-any :
      (s : ApStore S) (m : View) (id : Text)
      → Represents o Ok s.adapter m
      → (t : ApStore S) × (delete o s id ≡ (t, Methods.returned tt))
        × Represents o Ok t.adapter (update m id none)
  unfolding emit
  delete-any s m id rep = elim (Option-cases (m id)) [
    | inl e ↦ (s, delete-unknown o Ok laws s m id rep e, rw (update_absent id m e) rep)
    | inr (r, e) ↦
        let (b, q, u) = delete-view o Ok laws s m id r rep e in
        (emit (record s { adapter = b }) (delete_change id r), q, u)
  ]

  module _ (actor_id : Text) (accepts : ℕ → Bool) where
    -- The entries that went out: the first `count` of the outbox, each sent once in order and then
    -- removed from the store, which keeps every other record. It stopped at the outbox's end, or at
    -- a send() that threw.
    pub record Flushed (c d : Client S) (m : View) (es : List OutboxEntry) : Type 0 where
      pub count : ℕ
      pub within : count ≤ length es
      pub sent : d.sent ≡ c.sent ++ map entry_frame (take count es)
      pub view : Represents o Ok d.store.adapter (without (map (λ e. e.id) (take count es)) m)
      pub same : (d.connected ≡ c.connected) × (d.subscriptions ≡ c.subscriptions)
      pub stopped : (count ≡ length es) ⊎ (accepts (c.attempts + count) ≡ false)

    flush_entries-Flushed :
        (c : Client S) (m : View) (es : List OutboxEntry)
        → Represents o Ok c.store.adapter m
        → All IsSendable es
        → (d : Client S) × (flush_entries o actor_id accepts c es ≡ (d, none)) × Flushed c d m es
    unfolding flush_entries try_send after_send after_delete includes
    flush_entries-Flushed c m [] rep h = (
      c,
      refl,
      record {
        count = 0;
        within = omega arith;
        sent = sym (append-nil c.sent);
        view = rep;
        same = (refl, refl);
        stopped = inl refl;
      },
    )
    flush_entries-Flushed c m (e ∷ es) rep h = elim (Bool-cases (accepts c.attempts)) [
      | inl t ↦
          let c' = record c { attempts = c.attempts + 1; sent = c.sent ++ entry_frame e ∷ [] } in
          let (s, q, u) = delete-any c.store m e.id rep in
          let went : try_send accepts c (entry_frame e) ≡ (c', true) =
            unfold try_send in rw t refl in
          let (d, r, x) =
            flush_entries-Flushed (record c' { store = s }) (update m e.id none) es u h.1 in
          (
            d,
            rw (build-entry e h.0, flush_entries, went, q) r,
            record {
              count = suc x.count;
              within = omega (arith, x.within);
              sent = x.sent ∙ append_assoc c.sent (entry_frame e ∷ []) _;
              view =
                  subst (λ v. Represents o Ok d.store.adapter v)
                    (without-cons e.id (map (λ z. z.id) (take x.count es)) m) x.view;
              same = x.same;
              stopped = elim x.stopped [
                | inl y ↦ inl (ap suc y)
                | inr y ↦
                    let z : c.attempts + 1 + x.count ≡ c.attempts + suc x.count = omega arith in
                    inr (rw z at y)
              ];
            },
          )
      | inr f ↦ (
        record c { attempts = c.attempts + 1 },
        rw (build-entry e h.0, flush_entries, try_send, f) refl,
        record {
          count = 0;
          within = omega arith;
          sent = sym (append-nil c.sent);
          view = rep;
          same = (refl, refl);
          stopped = let z : c.attempts + 0 ≡ c.attempts = omega arith in inr (rw z f);
        },
      )
    ]

  -- On a store that represents a view, and for an outbox whose entries can all be sent, the flush
  -- throws nothing: it sends the frames of the outbox's first entries, each once and oldest first,
  -- and removes exactly those entries from the store. It stops at the outbox's end, or at a send()
  -- that threw.
  pub flush_outbox-Flushed :
      (actor_id : Text) (accepts : ℕ → Bool) (c : Client S) (m : View)
      → Represents o Ok c.store.adapter m
      → All IsSendable (outbox o actor_id c)
      → (d : Client S) × (flush_outbox o actor_id accepts c ≡ (d, none))
        × Flushed actor_id accepts c d m (outbox o actor_id c)
  unfolding flush_outbox
  flush_outbox-Flushed actor_id accepts c m rep h =
      flush_entries-Flushed actor_id accepts c m (outbox o actor_id c) rep h
