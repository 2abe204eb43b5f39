-- ===== src/Client/Handles.antt =====
-- What a client does with the frames that it receives.
use mathlib.Core.Option
use qu_v.Prelude.{
  ℕ, ◌<◌, ◌≡◌, ◌≢◌, ◌⊎◌, refl, sym, ap, ◌∙◌, subst, inl, inr, false, Text, codes, none, some, List,
  [], ◌∷◌, In, text_dec, if_pos, if_neg, text_eq, Bool-cases, arith, length, ◌==◌,
}
use qu_v.Core.Cursor
use qu_v.Core.Cursor.RoundTrip.{ts_limit}
use qu_v.Core.Storage
use qu_v.Core.Storage.{Operations}
use qu_v.As2.Value.{text, object, field, end, get_field, lookup_field, as_text}
use qu_v.As2.Vocabulary.{includes, tier_of}
use qu_v.As2.Audience.Recipients.{includes_iff}
use qu_v.Store.{Stored, Record, Change, ApStore, PutOptions, missing_id, doc_id}
use qu_v.Store.View.{View, Represents, IsIndexable, update}
use qu_v.Store.Methods.{put, get, emit}
use qu_v.Store.Calls.{put_change, put-persistent, get-view, tier_of-persistent}
use qu_v.Realtime.{DataFrame, data_frame, build_data_frame, frame_without_cursor, doc_value}
use qu_v.Realtime.Wire.{build_data_frame_inv}
use qu_v.Client.{
  Client, store_error, stored_by, cursor_id, cursor_doc, get_cursor, set_cursor, follow_cursor,
  handle_data, handle_frame,
}

-- The frame that buildDataFrame() makes of an event whose document is null makes the client's handler
-- throw, and changes nothing at the client.
pub handle_frame-deletion :
    {S : Type 0} (o : Operations S Stored) (now : ℕ) (c : Client S) (e : Change) (f : DataFrame)
    → e.doc ≡ none
    → build_data_frame e ≡ Cursor.ok f
    → handle_frame o now c (data_frame f) ≡ (c, some (store_error missing_id))
unfolding handle_frame handle_data put doc_id frame_without_cursor doc_value get_field as_text
    stored_by
handle_frame-deletion o now c e f h q =
    let (cursor, same) = build_data_frame_inv e f q in rw (sym same, h) refl

-- The record that #setCursor() writes.
abbrev pub cursor_record : Text → Text → ℕ → Record
cursor_record k cursor now = record { ts = now; doc = cursor_doc k cursor; collections = [] }

cursor_doc-id : (k cursor : Text) → doc_id (cursor_doc k cursor) ≡ some (cursor_id k)
unfolding doc_id get_field lookup_field text_dec Bool-cases text_eq as_text
cursor_doc-id k cursor = ground arith

cursor_doc-cursor :
    (k cursor : Text) → as_text (get_field (cursor_doc k cursor) (codes "cursor")) ≡ some cursor
unfolding get_field lookup_field text_dec Bool-cases text_eq as_text
cursor_doc-cursor k cursor = refl

-- Writing one cursor record leaves the others' values.
update-cursor :
    (m : View) (k j cursor : Text) (now : ℕ)
    → (j ≡ k) ⊎ (m (cursor_id j) ≡ some (cursor_record j cursor now))
    → update m (cursor_id k) (some (cursor_record k cursor now)) (cursor_id j)
      ≡ some (cursor_record j cursor now)
update-cursor m k j cursor now (inl e) =
    if_pos (text_dec (cursor_id j) (cursor_id k)) (ap cursor_id e) _ _
    ∙ ap (λ z. some (cursor_record z cursor now)) (sym e)
update-cursor m k j cursor now (inr h) = elim (text_dec (cursor_id j) (cursor_id k)) [
  | yes e ↦
      if_pos (text_dec (cursor_id j) (cursor_id k)) e _ _
      ∙ ap
          (λ z. some (record {
            ts = now;
            doc = object (field (codes "id") (text z) (field (codes "cursor") (text cursor) end));
            collections = [];
          }))
          (sym e)
  | no n ↦ if_neg (text_dec (cursor_id j) (cursor_id k)) n _ _ ∙ h
]

module _ {S : Type 0} (o : Operations S Stored) (Ok : S → Type 0)
    (laws : Storage.Laws S Stored o Ok) where
  set_cursor-view :
      (now : ℕ) (c : Client S) (m : View) (k cursor : Text)
      → Represents o Ok c.store.adapter m
      → now < ts_limit
      → (s : ApStore S) × (set_cursor o now c k cursor ≡ (record c { store = s }, none))
        × Represents o Ok s.adapter (update m (cursor_id k) (some (cursor_record k cursor now)))
  unfolding set_cursor stored_by emit
  set_cursor-view now c m k cursor rep fits =
      let opts : PutOptions = record {
        collections = [];
        durability = codes "persistent";
        session_id = none;
        ts = now;
      } in
      let doc = cursor_doc k cursor in
      let (a, q, u) =
        put-persistent o Ok laws c.store m doc (cursor_id k) opts now rep (cursor_doc-id k cursor)
          tier_of-persistent (record { clean = tt; fits = fits }) in
      (emit (record (c.store) { adapter = a }) (put_change (cursor_id k) doc opts), rw q refl, u)

  -- The client after it has followed a frame's cursor: the subscribed collections have that cursor,
  -- and the records of all ids but those of cursors are as they were.
  record Followed (now : ℕ) (c d : Client S) (m : View) (cursor : Text) (ks : List Text)
      : Type 0 where
    view : View
    rep : Represents o Ok d.store.adapter view
    same : d.subscriptions ≡ c.subscriptions
    has :
        (k : Text)
        → In k ks
        → In k c.subscriptions
        → view (cursor_id k) ≡ some (cursor_record k cursor now)
    keeps :
        (k : Text)
        → m (cursor_id k) ≡ some (cursor_record k cursor now)
        → view (cursor_id k) ≡ some (cursor_record k cursor now)
    others : (j : Text) → ((k : Text) → j ≢ cursor_id k) → view j ≡ m j

  follow_cursor-Followed :
      (now : ℕ) (c : Client S) (m : View) (cursor : Text) (ks : List Text)
      → Represents o Ok c.store.adapter m
      → now < ts_limit
      → (d : Client S) × (follow_cursor o now c cursor ks ≡ (d, none))
        × Followed now c d m cursor ks
  unfolding follow_cursor
  follow_cursor-Followed now c m cursor [] rep fits = (
    c,
    refl,
    record {
      view = m;
      rep = rep;
      same = refl;
      has = λ k h. absurd h;
      keeps = λ k h. h;
      others = λ j h. refl;
    },
  )
  follow_cursor-Followed now c m cursor (k ∷ ks) rep fits =
      elim (Bool-cases (includes c.subscriptions k)) [
        | inl t ↦
            let (s, q, u) = set_cursor-view now c m k cursor rep fits in
            let (d, r, x) =
              follow_cursor-Followed now (record c { store = s }) _ cursor ks u fits in
            (
              d,
              rw (t, follow_cursor, q) r,
              record {
                view = x.view;
                rep = x.rep;
                same = x.same;
                has = λ j h n. elim h [
                  | inl e ↦ x.keeps j (update-cursor m k j cursor now (inl e))
                  | inr y ↦ x.has j y n
                ];
                keeps = λ j h. x.keeps j (update-cursor m k j cursor now (inr h));
                others = λ j h. x.others j h ∙ if_neg (text_dec j (cursor_id k)) (h k) _ _;
              },
            )
        | inr f ↦
            let (d, r, x) = follow_cursor-Followed now c m cursor ks rep fits in
            (
              d,
              rw (f, follow_cursor) r,
              record {
                view = x.view;
                rep = x.rep;
                same = x.same;
                has = λ j h n. elim h [
                  | inl e ↦ cc (
                    (includes_iff c.subscriptions k).1 (subst (λ z. In z c.subscriptions) e n),
                    f,
                  )
                  | inr y ↦ x.has j y n
                ];
                keeps = x.keeps;
                others = x.others;
              },
            )
      ]

  get_cursor-of :
      (d : Client S) (k cursor : Text) (now : ℕ)
      → get o d.store (cursor_id k) ≡ some (cursor_doc k cursor)
      → get_cursor o d k ≡ some cursor
  unfolding get_cursor
  get_cursor-of d k cursor now h = rw (h, get_cursor) (cursor_doc-cursor k cursor)

  -- On a client whose store represents a view, a persistent frame of a document with an id, whose
  -- collections the index can hold and whose cursor is not empty, is handled without an exception:
  -- the cursor becomes the stored cursor of every subscribed collection of the frame, and get() gives
  -- the document, whose id is taken to be no cursor's.
  pub handle_frame-cursor :
      (now : ℕ) (c : Client S) (m : View) (f : DataFrame) (id : Text) (x : ℕ) (xs k : Text)
      → Represents o Ok c.store.adapter m
      → doc_id f.doc ≡ some id
      → f.durability ≡ codes "persistent"
      → IsIndexable (record { ts = now; doc = f.doc; collections = f.collections })
      → f.cursor ≡ some (x ∷ xs)
      → In k f.collections
      → In k c.subscriptions
      → ((j : Text) → id ≢ cursor_id j)
      → (d : Client S) × (handle_frame o now c (data_frame f) ≡ (d, none))
        × (get_cursor o d k ≡ some (x ∷ xs))
        × (get o d.store id ≡ some f.doc)
  unfolding handle_frame handle_data stored_by emit get_cursor
  handle_frame-cursor now c m f id x xs k rep e p ix q named subscribed apart =
      let opts : PutOptions = record {
        collections = f.collections;
        durability = f.durability;
        session_id = f.session_id;
        ts = now;
      } in
      let (a, r, u) =
        put-persistent o Ok laws c.store m f.doc id opts now rep e
          (ap tier_of p ∙ tier_of-persistent) ix in
      let c1 = record c {
        store = emit (record (c.store) { adapter = a }) (put_change id f.doc opts);
      } in
      let (d, g, w) = follow_cursor-Followed now c1 _ (x ∷ xs) f.collections u ix.fits in
      let long : (length (x ∷ xs) == 0) ≡ false = ground arith in
      (
        d,
        rw (r, q, long) g,
        get_cursor-of d k (x ∷ xs) now (
            get-view o Ok laws d.store w.view (cursor_id k) w.rep
            ∙ ap (Option.map (λ z. z.doc)) (w.has k named subscribed)),
        get-view o Ok laws d.store w.view id w.rep
            ∙ ap (Option.map (λ z. z.doc)) (w.others id apart ∙ if_pos (text_dec id id) refl _ _),
      )
