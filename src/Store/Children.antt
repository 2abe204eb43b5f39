-- ===== src/Store/Children.antt =====
-- getChildren() and getChildrenSince() read the abstract store: which rows, and in which order.
use qu_v.Prelude.{
  ℕ, zero, suc, ◌≡◌, refl, sym, ap, ◌∙◌, subst, ap₂, inl, inr, true, false, Text, Option, none,
  some, List, [], ◌∷◌, ◌++◌, map, In, All, take, drop, drop-append, length, ◌==◌, ◌&&◌, arith,
  Bool-cases, text_ltb,
}
use qu_v.Core.Cursor.RoundTrip.{cursor_text}
use qu_v.Core.Storage
use qu_v.Core.Storage.{Operations, keys}
use qu_v.As2.Value.{Value}
use qu_v.As2.Vocabulary.{includes}
use qu_v.As2.Audience.Recipients.{includes_iff}
use qu_v.Store.{Stored, stored_id, Record, index_key_prefix, as_id, read_record}
use qu_v.Store.Keys.{IsClean, index_text, starts_with-index_text}
use qu_v.Store.View.{View, indexes, index_entry, Represents}
use qu_v.Store.Refines.{read_record-view}
use qu_v.Store.Methods.{documents, cursors_and_docs}

-- A row of a collection: the cursor and the document of a record that is indexed under it.
pub record IsRow (m : View) (c : Text) (cursor : Text) (doc : Value) : Type 0 where
  pub id : Text
  pub row : Record
  pub found : m id ≡ some row
  pub member : In c row.collections
  pub cursor_eq : cursor ≡ cursor_text row.ts id
  pub doc_eq : doc ≡ row.doc

-- The cursor comes after the one that the caller has seen; an empty one counts as none.
abbrev pub After : Option Text → Text → Type 0
After none cursor = Unit
After (some []) cursor = Unit
After (some (x ∷ since)) cursor = text_ltb (x ∷ since) cursor ≡ true

module _ {S : Type 0} (o : Operations S Stored) (Ok : S → Type 0)
    (laws : Storage.Laws S Stored o Ok) (a : S) (m : View) (c : Text) (rep : Represents o Ok a m)
    (clean : IsClean c) where
  -- What a listed entry of the collection is.
  pub record IsEntry (e : Text × Stored) : Type 0 where
    pub id : Text
    pub row : Record
    pub value : e.1 ≡ stored_id id
    pub found : m id ≡ some row
    pub member : In c row.collections
    pub key : e.0 ≡ index_key_prefix c ++ cursor_text row.ts id

  IsEntry-of_index :
      (n : ℕ) (i : Text) (v : Stored) (q : Option Record)
      → m i ≡ q
      → index_entry (indexes q c n) i ≡ some v
      → IsEntry (index_text c n i, v)
  unfolding indexes index_entry index_text
  IsEntry-of_index n i v none e h = cc
  IsEntry-of_index n i v (some r) e h = elim (Bool-cases (n == r.ts && includes r.collections c)) [
    | inl t ↦
        let (now, isin) = both n r t in
        let val : stored_id i ≡ v = cc (h, t) in
        record {
          id = i;
          row = r;
          value = sym val;
          found = e;
          member = (includes_iff r.collections c).0 isin;
          key = ap (λ z. index_key_prefix c ++ cursor_text z i) now;
        }
    | inr f ↦ cc (h, f)
  ]
    where
      both :
          (n : ℕ) (r : Record)
          → (n == r.ts && includes r.collections c) ≡ true
          → (n ≡ r.ts) × (includes r.collections c ≡ true)
      both n r t = ground arith

  -- The ascending listing of the collection's prefix.
  unfoldable pub listed : List (Text × Stored)
  listed = o.list a (index_key_prefix c) none false

  pub listed-IsEntry : (e : Text × Stored) → In e listed → IsEntry e
  unfolding listed
  listed-IsEntry (k, v) h =
      let (p, g) = (laws.list-In a (index_key_prefix c) k v rep.ok).0 h in
      let (n, i, q, hn, hi) = rep.only c k v clean p g in
      subst (λ z. IsEntry (z, v)) (sym q)
        (IsEntry-of_index n i v (m i) refl
          (sym (rep.index c n i clean hn hi) ∙ ap (o.get a) (sym q) ∙ g))

  -- Every row has its entry in the listing.
  pub listed_row :
      (i : Text) (r : Record)
      → m i ≡ some r
      → In c r.collections
      → In (index_text c r.ts i, stored_id i) listed
  unfolding listed indexes index_entry
  listed_row i r e h =
      let (x, ne) = rep.indexable i r e in
      let g = rep.index c r.ts i clean x.fits ne in
      (laws.list-In a (index_key_prefix c) (index_text c r.ts i) (stored_id i) rep.ok).1
        (starts_with-index_text c r.ts i, ground (arith, g, e, (includes_iff r.collections c).1 h))

  abbrev pub Entries : List (Text × Stored) → Type 0
  Entries = All IsEntry

  unfoldable pub prefix : Text
  prefix = index_key_prefix c

  -- What an entry contributes to the answers.
  pub entry_read : (e : Text × Stored) (x : IsEntry e) → read_record o a (as_id e.1) ≡ some x.row
  unfolding as_id
  entry_read e x =
      ap (λ v. read_record o a (as_id v)) x.value
      ∙ read_record-view o Ok laws a m x.id rep
      ∙ x.found

  pub entry_cursor :
      (e : Text × Stored) (x : IsEntry e) → drop (length prefix) e.0 ≡ cursor_text x.row.ts x.id
  unfolding prefix
  entry_cursor e x =
      ap (drop (length prefix)) x.key ∙ drop-append prefix (cursor_text x.row.ts x.id)

  unfoldable pub rows : List (Text × Stored) → List (Text × Value)
  unfolding prefix
  rows es = cursors_and_docs o a prefix es

  pub rows-cons :
      (e : Text × Stored) (es : List (Text × Stored)) (x : IsEntry e)
      → rows (e ∷ es) ≡ (cursor_text x.row.ts x.id, x.row.doc) ∷ rows es
  unfolding rows cursors_and_docs
  rows-cons e es x = ground (arith, entry_read e x, entry_cursor e x)

  pub rows_sound :
      (es : List (Text × Stored)) (cur : Text) (d : Value)
      → Entries es
      → In (cur, d) (rows es)
      → IsRow m c cur d × In (prefix ++ cur) (keys es)
  unfolding prefix
  rows_sound [] cur d h p = absurd (unfold rows cursors_and_docs in p)
  rows_sound (e ∷ es) cur d h p = elim (subst (In (cur, d)) (rows-cons e es h.0) p) [
    | inl q ↦ (
      record {
        id = h.0.id;
        row = h.0.row;
        found = h.0.found;
        member = h.0.member;
        cursor_eq = ap (λ z. z.0) q;
        doc_eq = ap (λ z. z.1) q;
      },
      inl (ap (λ z. prefix ++ z) (ap (λ z. z.0) q) ∙ sym h.0.key),
    )
    | inr q ↦ let (x, y) = rows_sound es cur d h.1 q in (x, inr y)
  ]

  pub rows_complete :
      (es : List (Text × Stored)) (i : Text) (r : Record)
      → Entries es
      → m i ≡ some r
      → In (index_text c r.ts i, stored_id i) es
      → In (cursor_text r.ts i, r.doc) (rows es)
  rows_complete [] i r h e p = absurd p
  rows_complete (x ∷ es) i r h e p =
      subst (In (cursor_text r.ts i, r.doc)) (sym (rows-cons x es h.0)) (elim p [
        | inl q ↦
            let same : i ≡ h.0.id = cc (ap (λ z. z.1) q ∙ h.0.value) in
            let same_row : r ≡ h.0.row = cc (sym e ∙ ap m same ∙ h.0.found) in
            inl (λ k. (cursor_text (same_row k).ts (same k), (same_row k).doc))
        | inr q ↦ inr (rows_complete es i r h.1 e q)
      ])

  pub keys-rows :
      (es : List (Text × Stored))
      → Entries es
      → keys es ≡ map (λ z. prefix ++ z) (map (λ z. z.0) (rows es))
  unfolding prefix
  keys-rows [] h = unfold rows cursors_and_docs in refl
  keys-rows (e ∷ es) h = rw (rows-cons e es h.0) (ap₂ ◌∷◌ h.0.key (keys-rows es h.1))

  pub take-rows :
      (n : ℕ) (es : List (Text × Stored)) → Entries es → rows (take n es) ≡ take n (rows es)
  take-rows zero es h = unfold rows cursors_and_docs in refl
  take-rows (suc n) [] h = unfold rows cursors_and_docs in refl
  take-rows (suc n) (e ∷ es) h =
      rw (rows-cons e es h.0, rows-cons e (take n es) h.0)
        (ap (◌∷◌ (cursor_text h.0.row.ts h.0.id, h.0.row.doc)) (take-rows n es h.1))

  pub documents-rows :
      (es : List (Text × Stored)) → Entries es → documents o a es ≡ map (λ z. z.1) (rows es)
  unfolding documents
  documents-rows [] h = unfold rows cursors_and_docs in refl
  documents-rows (e ∷ es) h =
      rw (rows-cons e es h.0, entry_read e h.0, documents)
        (ap (◌∷◌ h.0.row.doc) (documents-rows es h.1))
