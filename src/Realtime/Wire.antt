-- ===== src/Realtime/Wire.antt =====
-- Frames on the wire: what one side serializes the other side parses and classifies.
use qu_v.Prelude.{
  ℕ, ◌≡◌, refl, sym, ap, ◌∙◌, subst, inl, inr, In, [], ◌∷◌, Bool-cases, true, false, Text, codes,
  text_eq, text_dec, Option, none, some, ◌&&◌, arith,
}
use qu_v.As2.Value.{Value, text, get_field, lookup_field, as_text, truthy}
use qu_v.As2.Vocabulary.{Tier, ephemeral, session, persistent, includes}
use qu_v.Store.{Change}
use qu_v.Core.Cursor
use qu_v.Core.Cursor.{encode_cursor}
use qu_v.Realtime.{
  Frame, DataFrame, Control, data_frame, control_frame, frame_value, is_data_frame,
  is_control_frame, parse_frame, checked_frame, has_kind, has_op, build_data_frame,
  frame_without_cursor, frame_kind_for_change, persistent_frame_kind, is_activity, data_kinds,
  frame_kinds, doc_value, build_control_frame, control_ops, op_text,
}

-- How the kind of a data frame is classified.
classified :
    (k : Text)
    → In k data_kinds
    → (includes data_kinds k ≡ true)
      × (includes frame_kinds k ≡ true)
      × (includes (codes "control" ∷ []) k ≡ false)
unfolding includes text_eq
classified k (inl e) = rw e (refl, refl, refl)
classified k (inr (inl e)) = rw e (refl, refl, refl)
classified k (inr (inr (inl e))) = rw e (refl, refl, refl)
classified k (inr (inr (inr (inl e)))) = rw e (refl, refl, refl)
classified k (inr (inr (inr (inr z)))) = absurd z

kind-In : (d : Value) (t : Tier) → In (frame_kind_for_change d t) data_kinds
unfolding frame_kind_for_change persistent_frame_kind
kind-In d ephemeral = inr (inr (inl refl))
kind-In d session = inr (inr (inr (inl refl)))
kind-In d persistent = elim (Bool-cases (truthy d && is_activity d)) [
  | inl e ↦ rw (e, persistent_frame_kind) (inr (inl refl))
  | inr e ↦ rw (e, persistent_frame_kind) (inl refl)
]

ok_inj : (f g : DataFrame) → Cursor.ok f ≡ Cursor.ok g → f ≡ g
ok_inj f g e = cc

stamped :
    (base f : DataFrame) (r : Cursor.Result Text)
    → elim r [
      | Cursor.ok cursor ↦ Cursor.ok (record base { cursor = some cursor })
      | Cursor.err x ↦ Cursor.err x
    ]
      ≡ Cursor.ok f
    → (cursor : Option Text) × (record base { cursor = cursor } ≡ f)
stamped base f (Cursor.ok cursor) h = (some cursor, ok_inj _ f h)
stamped base f (Cursor.err x) h = cc

built :
    (base f : DataFrame) (id : Text) (ts : Option ℕ)
    → base.cursor ≡ none
    → elim ts [
      | none ↦ Cursor.ok base
      | some ts ↦ elim (encode_cursor (record { ts = ts; id = id })) [
        | Cursor.ok cursor ↦ Cursor.ok (record base { cursor = some cursor })
        | Cursor.err x ↦ Cursor.err x
      ]
    ]
      ≡ Cursor.ok f
    → (cursor : Option Text) × (record base { cursor = cursor } ≡ f)
built base f id none n h = (none, ap (λ z. record base { cursor = z }) (sym n) ∙ ok_inj _ f h)
built base f id (some ts) n h = stamped base f (encode_cursor (record { ts = ts; id = id })) h

-- A frame that was built is the event's, but for its cursor.
pub build_data_frame_inv :
    (e : Change) (f : DataFrame)
    → build_data_frame e ≡ Cursor.ok f
    → (cursor : Option Text) × (record (frame_without_cursor e) { cursor = cursor } ≡ f)
unfolding build_data_frame frame_without_cursor
build_data_frame_inv e f h = built (frame_without_cursor e) f e.id e.ts refl h

built-kind : (e : Change) (f : DataFrame) → build_data_frame e ≡ Cursor.ok f → In f.kind data_kinds
unfolding frame_without_cursor
built-kind e f h =
    let (cursor, same) = build_data_frame_inv e f h in
    subst (λ k. In k data_kinds) (ap (λ g. g.kind) same) (kind-In (doc_value e.doc) e.tier)

-- A frame that buildDataFrame() made and JSON.parse gives back is accepted by parseFrame() as it is,
-- and is a data frame and no control frame.
parse_frame-build_data_frame :
    (parse_json : Text → Option Value) (raw : Text) (e : Change) (f : DataFrame)
    → build_data_frame e ≡ Cursor.ok f
    → parse_json raw ≡ some (frame_value (data_frame f))
    → (parse_frame parse_json (text raw) ≡ some (frame_value (data_frame f)))
      × (is_data_frame (frame_value (data_frame f)) ≡ true)
      × (is_control_frame (frame_value (data_frame f)) ≡ false)
unfolding parse_frame checked_frame is_data_frame is_control_frame has_kind truthy frame_value
    get_field lookup_field text_dec Bool-cases text_eq as_text
parse_frame-build_data_frame parse_json raw e f h q =
    let (x, y, z) = classified f.kind (built-kind e f h) in
    (rw (q, parse_frame, y, z) refl, rw x refl, rw z refl)

accepted :
    (parse_json : Text → Option Value) (raw : Text) (c : Control)
    → parse_json raw ≡ some (frame_value (control_frame c))
    → (parse_frame parse_json (text raw) ≡ some (frame_value (control_frame c)))
      × (is_data_frame (frame_value (control_frame c)) ≡ false)
      × (is_control_frame (frame_value (control_frame c)) ≡ true)
unfolding parse_frame checked_frame is_data_frame is_control_frame has_kind has_op truthy
    frame_value get_field lookup_field text_dec Bool-cases text_eq as_text includes
accepted parse_json raw c q = (rw (q, parse_frame) refl, refl, refl)

-- A frame that buildControlFrame() made and JSON.parse gives back is accepted by parseFrame() as it
-- is, and is a control frame and no data frame.
parse_frame-build_control_frame :
    (parse_json : Text → Option Value) (raw : Text) (c : Control) (f : Frame)
    → build_control_frame c ≡ some f
    → parse_json raw ≡ some (frame_value f)
    → (parse_frame parse_json (text raw) ≡ some (frame_value f))
      × (is_data_frame (frame_value f) ≡ false)
      × (is_control_frame (frame_value f) ≡ true)
unfolding build_control_frame
parse_frame-build_control_frame parse_json raw c f h q =
    elim (Bool-cases (includes control_ops (op_text c))) [
      | inl t ↦
          let same : f ≡ control_frame c = ground (arith, t, h) in
          rw same (accepted parse_json raw c (q ∙ ap (λ g. some (frame_value g)) same))
      | inr t ↦ absurd (ground (arith, t, h))
    ]
