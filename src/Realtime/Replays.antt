-- ===== src/Realtime/Replays.antt =====
-- What a peer receives when it resumes: everything it has not seen, once.
use mathlib.Core.Bool.{false≢true}
use qu_v.Prelude.{
  text_dec, if_pos, if_neg, All-of_In, All-In, ◌≡◌, ◌↔◌, refl, sym, ap, ◌∙◌, subst, inl, inr, Text,
  Option, none, some, List, [], ◌∷◌, ◌++◌, map, In, All, In-append_left, In-append_right,
  In-append_cases,
}
use qu_v.Prelude.Sorting.{Ascending}
use qu_v.Core.JsMap
use qu_v.Core.JsMap.{Entries, find}
use qu_v.Core.JsMap.Laws.{find-put}
use qu_v.Core.Storage
use qu_v.Core.Storage.{Operations}
use qu_v.As2.Value.{Value}
use qu_v.Store.{Stored, ApStore}
use qu_v.Store.Keys.{IsClean}
use qu_v.Store.View.{View, Represents}
use qu_v.Store.Methods.{get_children_since}
use qu_v.Store.Children.{IsRow, After}
use qu_v.Store.Listing.{get_children_since-rows}
use qu_v.Realtime.{DataFrame, data_frame, control_frame, resumed}
use qu_v.Realtime.Cursors.{
  Carries, In-replayed, Last-of, After-trans, After-cursor, empty, row_cursor-ne,
}
use qu_v.Realtime.Resume.{since_of, replayed_frame, replayed, last_cursor, replay, replay_resume}

module _ {S : Type 0} (o : Operations S Stored) (s : ApStore S) where
  -- The rows that a peer has not seen of a collection.
  abbrev pub unseen : Entries (Option Text) → Text → List (Text × Value)
  unseen since c = get_children_since o s c (since_of since c) none

  -- The cursor that a peer is given for a collection.
  abbrev pub next_cursor : Entries (Option Text) → Text → Option Text
  next_cursor since c = last_cursor (since_of since c) (unseen since c)

  -- A frame of one of the collections.
  pub record Replays (cs : List Text) (since : Entries (Option Text)) (f : DataFrame) : Type 0 where
    pub collection : Text
    pub subscribed : In collection cs
    pub carries : Carries collection (unseen since collection) f

  In-replay :
      (cs : List Text) (since cursors : Entries (Option Text)) (f : DataFrame)
      → In (data_frame f) (replay o s cs since cursors).0 ↔ Replays cs since f
  unfolding replay
  In-replay [] since cursors f = ((λ h. absurd h), (λ h. absurd h.subscribed))
  In-replay (c ∷ cs) since cursors f =
      let rest = In-replay cs since (JsMap.put cursors c (next_cursor since c)) f in
      (
        (λ h. elim (In-append_cases _ (replayed c (unseen since c)) _ h) [
          | inl a ↦ record {
            collection = c;
            subscribed = inl refl;
            carries = (In-replayed c _ f).0 a;
          }
          | inr b ↦
              let x = rest.0 b in
              record {
                collection = x.collection;
                subscribed = inr x.subscribed;
                carries = x.carries;
              }
        ]),
        (λ h. elim h.subscribed [
          | inl e ↦
              In-append_left _ (replayed c (unseen since c)) _
                ((In-replayed c _ f).1 (subst (λ z. Carries z (unseen since z) f) e h.carries))
          | inr r ↦
              In-append_right _ (replayed c (unseen since c)) _
                (rest.1 (record { collection = h.collection; subscribed = r; carries = h.carries }))
        ]),
      )

  replay-keeps :
      (cs : List Text) (since cursors : Entries (Option Text)) (c : Text)
      → find cursors c ≡ some (next_cursor since c)
      → find (replay o s cs since cursors).1 c ≡ some (next_cursor since c)
  unfolding replay
  replay-keeps [] since cursors c h = h
  replay-keeps (k ∷ cs) since cursors c h =
      replay-keeps cs since (JsMap.put cursors k (next_cursor since k)) c (
        find-put cursors k c _ ∙ elim (text_dec c k) [
          | yes e ↦ if_pos (text_dec c k) e _ _ ∙ ap (λ z. some (next_cursor since z)) (sym e)
          | no n ↦ if_neg (text_dec c k) n _ _ ∙ h
        ])

  replay-cursor :
      (cs : List Text) (since cursors : Entries (Option Text)) (c : Text)
      → In c cs
      → find (replay o s cs since cursors).1 c ≡ some (next_cursor since c)
  unfolding replay
  replay-cursor [] since cursors c m = absurd m
  replay-cursor (k ∷ cs) since cursors c (inl e) =
      replay-keeps cs since (JsMap.put cursors k (next_cursor since k)) c (
        find-put cursors k c _
        ∙ if_pos (text_dec c k) e _ _
        ∙ ap (λ z. some (next_cursor since z)) (sym e))
  replay-cursor (k ∷ cs) since cursors c (inr r) = replay-cursor cs since _ c r

  replay-silent :
      (cs : List Text) (since cursors : Entries (Option Text))
      → All (λ c. unseen since c ≡ []) cs
      → (replay o s cs since cursors).0 ≡ []
  unfolding replay replayed
  replay-silent [] since cursors h = refl
  replay-silent (c ∷ cs) since cursors h =
      rw (h.0, replay, replayed)
        (replay-silent cs since (JsMap.put cursors c (last_cursor (since_of since c) [])) h.1)

module _ {S : Type 0} (o : Operations S Stored) (Ok : S → Type 0)
    (laws : Storage.Laws S Stored o Ok) (s : ApStore S) (m : View)
    (rep : Represents o Ok s.adapter m) where
  -- Behind the last cursor that getChildrenSince() gave it gives nothing more.
  caught_up :
      (c : Text) (since : Option Text)
      → IsClean c
      → get_children_since o s c (last_cursor since (get_children_since o s c since none)) none ≡ []
  caught_up c since clean = none_left (get_children_since o s c since none) refl
    where
      none_left :
          (es : List (Text × Value))
          → es ≡ get_children_since o s c since none
          → get_children_since o s c (last_cursor since es) none ≡ []
      none_left [] q = unfold last_cursor in sym q
      none_left (e ∷ es) q =
          let rows =
            λ (since : Option Text). get_children_since-rows o Ok laws s m c rep clean since in
          let l =
            Last-of since e es (subst (λ z. Ascending (map (λ w. w.0) z)) (sym q) (rows since).1) in
          let mine = ((rows since).0 l.cursor l.doc).0 (subst (In (l.cursor, l.doc)) q l.listed) in
          rw l.last (
            empty _ (λ k d h.
              let (row, after) = ((rows (some l.cursor)).0 k d).0 h in
              let behind =
                After-cursor l.cursor k (row_cursor-ne m c l.cursor l.doc mine.0) after in
              let seen =
                subst (In (k, d)) (sym q)
                  (((rows since).0 k d).1 (row, After-trans since l.cursor k mine.1 behind)) in
              false≢true (sym (l.greatest k d seen) ∙ behind)))

  -- Over a store that represents a view, and for subscriptions to clean collections, replayResume()
  -- sends a data frame exactly for each record that is indexed under a subscribed collection and
  -- comes after the peer's cursor for it.
  pub replay_resume-rows :
      (cs : List Text) (since : Entries (Option Text)) (f : DataFrame)
      → All IsClean cs
      → In (data_frame f) (replay_resume o s cs since).0 ↔ (
          (c cursor : Text) × (doc : Value) × In c cs
          × IsRow m c cursor doc
          × After (since_of since c) cursor
          × (f ≡ replayed_frame c cursor doc))
  unfolding replay_resume
  replay_resume-rows cs since f clean = (
    (λ h. elim (In-append_cases _ (replay o s cs since []).0 _ h) [
      | inl a ↦
          let x = (In-replay o s cs since [] f).0 a in
          let y = x.carries in
          let (row, after) =
            ((get_children_since-rows o Ok laws s m x.collection rep
                  (All-In IsClean cs x.collection clean x.subscribed)
                  (since_of since x.collection)).0
                y.cursor y.doc).0
              y.listed in
          (x.collection, y.cursor, y.doc, x.subscribed, row, after, y.frame)
      | inr (inl e) ↦ cc
      | inr (inr z) ↦ absurd z
    ]),
    (λ h.
        let (c, cursor, doc, mine, row, after, e) = h in
        let listed =
          ((get_children_since-rows o Ok laws s m c rep (All-In IsClean cs c clean mine)
                (since_of since c)).0
              cursor doc).1
            (row, after) in
        In-append_left _ (replay o s cs since []).0 _ (
          (In-replay o s cs since [] f).1 (record {
            collection = c;
            subscribed = mine;
            carries = record { cursor = cursor; doc = doc; listed = listed; frame = e };
          }))),
  )

  -- Over a store that represents a view, and for subscriptions to clean collections, resuming again
  -- from the cursors that replayResume() returned sends nothing but the closing control frame.
  pub replay_resume-again :
      (cs : List Text) (since : Entries (Option Text))
      → All IsClean cs
      → let again = replay_resume o s cs (replay_resume o s cs since).1 in
        again.0 ≡ control_frame (resumed again.1) ∷ []
  unfolding replay_resume
  replay_resume-again cs since clean =
      let given = (replay o s cs since []).1 in
      ap (λ z. z ++ control_frame (resumed (replay o s cs given []).1) ∷ [])
        (replay-silent o s cs given [] (
          All-of_In (λ c. unseen o s given c ≡ []) cs
            (λ c mine.
              ap (λ z. get_children_since o s c z none)
                (since_given c given (replay-cursor o s cs since [] c mine))
              ∙ caught_up c (since_of since c) (All-In IsClean cs c clean mine))))
    where
      since_given :
          (c : Text) (given : Entries (Option Text)) {x : Option Text}
          → find given c ≡ some x
          → since_of given c ≡ x
      since_given c given e = unfold since_of in rw (e, since_of) refl
