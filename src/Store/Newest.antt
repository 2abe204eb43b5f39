-- ===== src/Store/Newest.antt =====
-- getChildren() lists the documents of a collection newest first.
use mathlib.Core.List.{reverse-cons, map-append}
use qu_v.Prelude.{
  ℕ, zero, suc, ◌≡◌, refl, sym, ap, ◌∙◌, true, Text, none, some, List, [], ◌∷◌, ◌++◌, map, reverse,
  All, All-In, All-of_In, take, In-reverse,
}
use qu_v.Core.Cursor.RoundTrip.{cursor_text}
use qu_v.Core.Storage
use qu_v.Core.Storage.{Operations}
use qu_v.As2.Value.{Value}
use qu_v.Store.{Stored, ApStore, index_key_prefix}
use qu_v.Store.Keys.{IsClean}
use qu_v.Store.View.{View, Represents}
use qu_v.Store.Methods.{documents, get_children, cursors_and_docs, get_children_since}
use qu_v.Store.Children.{listed, Entries, rows, rows-cons, take-rows, documents-rows}
use qu_v.Store.Listing.{all_rows, entries, get_children_since-all, rows_since}

map-reverse_docs :
    (rs : List (Text × Value)) → map (λ z. z.1) (reverse rs) ≡ reverse (map (λ z. z.1) rs)
map-reverse_docs [] = refl
map-reverse_docs (r ∷ rs) =
    rw
      (
        reverse-cons r rs,
        map-append (λ (z : Text × Value). z.1) (reverse rs) (r ∷ []),
        map-reverse_docs rs,
      )
      (sym (reverse-cons r.1 (map (λ (z : Text × Value). z.1) rs)))

map-take_docs :
    (n : ℕ) (rs : List (Text × Value)) → map (λ z. z.1) (take n rs) ≡ take n (map (λ z. z.1) rs)
map-take_docs zero rs = refl
map-take_docs (suc n) [] = refl
map-take_docs (suc n) (r ∷ rs) = ap (◌∷◌ r.1) (map-take_docs n rs)

All-reverse : {A : Type 0} (P : A → Type 0) (xs : List A) → All P xs → All P (reverse xs)
All-reverse P xs h = All-of_In P (reverse xs) (λ a i. All-In P xs a h (In-reverse a xs i))

All-take : {A : Type 0} (P : A → Type 0) (n : ℕ) (xs : List A) → All P xs → All P (take n xs)
All-take P zero xs h = tt
All-take P (suc n) [] h = tt
All-take P (suc n) (x ∷ xs) h = (h.0, All-take P n xs h.1)

module _ {S : Type 0} (o : Operations S Stored) (Ok : S → Type 0)
    (laws : Storage.Laws S Stored o Ok) (s : ApStore S) (m : View) (c : Text)
    (rep : Represents o Ok s.adapter m) (clean : IsClean c) where
  rows-append :
      (xs ys : List (Text × Stored))
      → Entries o Ok laws s.adapter m c rep clean xs
      → rows o Ok laws s.adapter m c rep clean (xs ++ ys)
        ≡ rows o Ok laws s.adapter m c rep clean xs ++ rows o Ok laws s.adapter m c rep clean ys
  rows-append [] ys h = unfold rows cursors_and_docs in refl
  rows-append (x ∷ xs) ys h =
      rw
        (
          rows-cons o Ok laws s.adapter m c rep clean x (xs ++ ys) h.0,
          rows-cons o Ok laws s.adapter m c rep clean x xs h.0,
        )
        (ap (◌∷◌ (cursor_text h.0.row.ts h.0.id, h.0.row.doc)) (rows-append xs ys h.1))

  rows-nil :
      (r : Text × Value) (rs : List (Text × Value))
      → reverse rs ++ r ∷ rows o Ok laws s.adapter m c rep clean [] ≡ reverse (r ∷ rs)
  unfolding rows cursors_and_docs
  rows-nil r rs = sym (reverse-cons r rs)

  rows-reverse :
      (xs : List (Text × Stored))
      → Entries o Ok laws s.adapter m c rep clean xs
      → rows o Ok laws s.adapter m c rep clean (reverse xs)
        ≡ reverse (rows o Ok laws s.adapter m c rep clean xs)
  rows-reverse [] h = unfold rows cursors_and_docs in refl
  rows-reverse (x ∷ xs) h =
      rw
        (
          reverse-cons x xs,
          rows-append (reverse xs) (x ∷ []) (All-reverse _ xs h.1),
          rows-reverse xs h.1,
          rows-cons o Ok laws s.adapter m c rep clean x [] h.0,
          rows-cons o Ok laws s.adapter m c rep clean x xs h.0,
        )
        (rows-nil (cursor_text h.0.row.ts h.0.id, h.0.row.doc)
          (rows o Ok laws s.adapter m c rep clean xs))

  newest_entries : List (Text × Stored)
  newest_entries = reverse (listed o Ok laws s.adapter m c rep clean)

  newest_valid : Entries o Ok laws s.adapter m c rep clean newest_entries
  unfolding newest_entries
  newest_valid = All-reverse _ _ (entries o Ok laws s m c rep clean)

  list_newest : o.list s.adapter (index_key_prefix c) none true ≡ newest_entries
  unfolding newest_entries listed
  list_newest = laws.list-reverse s.adapter (index_key_prefix c) rep.ok

  newest_rows :
      rows o Ok laws s.adapter m c rep clean newest_entries
      ≡ reverse (all_rows o Ok laws s m c rep clean)
  unfolding newest_entries all_rows
  newest_rows =
      rows-reverse (listed o Ok laws s.adapter m c rep clean) (entries o Ok laws s m c rep clean)

  get_children-rows :
      get_children o s c none
      ≡ map (λ z. z.1) (rows o Ok laws s.adapter m c rep clean newest_entries)
  unfolding get_children
  get_children-rows =
      ap (documents o s.adapter) list_newest
      ∙ documents-rows o Ok laws s.adapter m c rep clean newest_entries newest_valid

  -- Through a store that represents a view, and for a clean collection: without a limit getChildren() lists the documents that getChildrenSince() lists from the start,
  -- in the opposite order, and a limit keeps the first of them.
  pub get_children-newest :
      (get_children o s c none ≡ reverse (map (λ z. z.1) (get_children_since o s c none none)))
      × ((n : ℕ) → get_children o s c (some n) ≡ take n (get_children o s c none))
  unfolding get_children rows_since
  get_children-newest = (
    get_children-rows
        ∙ ap (map (λ (z : Text × Value). z.1)) newest_rows
        ∙ map-reverse_docs (all_rows o Ok laws s m c rep clean)
        ∙ ap (λ (rs : List (Text × Value)). reverse (map (λ z. z.1) rs))
            (sym (get_children_since-all o Ok laws s m c rep clean none)),
    (λ n.
        ap (documents o s.adapter)
          (laws.list-limit s.adapter (index_key_prefix c) n true rep.ok ∙ ap (take n) list_newest)
        ∙ documents-rows o Ok laws s.adapter m c rep clean (take n newest_entries)
            (All-take _ n _ newest_valid)
        ∙ ap (map (λ (z : Text × Value). z.1))
            (take-rows o Ok laws s.adapter m c rep clean n newest_entries newest_valid)
        ∙ map-take_docs n _
        ∙ ap (take n) (sym get_children-rows)),
  )
