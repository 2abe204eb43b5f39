-- ===== src/Store/Listing.antt =====
-- What a client sees of a collection: getChildrenSince() and getChildren() against the view.
use qu_v.Prelude.{
  ℕ, ◌≡◌, ◌↔◌, refl, sym, ap, ◌∙◌, subst, inl, inr, true, Text, Option, none, some, List, [], ◌∷◌,
  ◌++◌, map, In, All, All-of_In, take, if◌then◌else◌, arith, Bool-cases, text_ltb, text_ltb-append,
}
use qu_v.Prelude.Sorting.{Ascending, Above}
use qu_v.Core.Cursor.RoundTrip.{cursor_text}
use qu_v.Core.Storage
use qu_v.Core.Storage.{Operations, keys}
use qu_v.As2.Value.{Value}
use qu_v.Store.{Stored, ApStore, index_key_prefix}
use qu_v.Store.Keys.{IsClean}
use qu_v.Store.View.{View, Represents}
use qu_v.Store.Methods.{entries_after, since_entries, cut, cursors_and_docs, get_children_since}
use qu_v.Store.Children.{
  IsRow, After, listed, listed-IsEntry, listed_row, Entries, prefix, rows, rows-cons, rows_sound,
  rows_complete, keys-rows, take-rows,
}

-- The rows whose cursor comes after `since`.
unfoldable pub rows_after : Text → List (Text × Value) → List (Text × Value)
rows_after since [] = []
rows_after since ((cur, d) ∷ rs) =
    let rest = rows_after since rs in if text_ltb since cur then (cur, d) ∷ rest else rest

In-rows_after :
    (since cur : Text) (d : Value) (rs : List (Text × Value))
    → In (cur, d) (rows_after since rs) ↔ (In (cur, d) rs × (text_ltb since cur ≡ true))
unfolding rows_after
In-rows_after since cur d [] = ((λ h. absurd h), (λ h. h.0))
In-rows_after since cur d ((x, e) ∷ rs) = elim (Bool-cases (text_ltb since x)) [
  | inl t ↦
      rw (t, rows_after)
        (
          (λ h. elim h [
            | inl q ↦ (inl q, ap (λ z. text_ltb since z.0) q ∙ t)
            | inr r ↦ let (a, b) = (In-rows_after since cur d rs).0 r in (inr a, b)
          ]),
          (λ h. elim h.0 [
            | inl q ↦ inl q
            | inr r ↦ inr ((In-rows_after since cur d rs).1 (r, h.1))
          ]),
        )
  | inr f ↦
      rw (f, rows_after)
        (
          (λ h. let (a, b) = (In-rows_after since cur d rs).0 h in (inr a, b)),
          (λ h. elim h.0 [
            | inl q ↦ cc (h.1, ap (λ z. text_ltb since z.0) q, f)
            | inr r ↦ (In-rows_after since cur d rs).1 (r, h.1)
          ]),
        )
]

Above-rows_after :
    (k since : Text) (rs : List (Text × Value))
    → Above k (map (λ z. z.0) rs)
    → Above k (map (λ z. z.0) (rows_after since rs))
unfolding rows_after
Above-rows_after k since [] h = tt
Above-rows_after k since ((x, e) ∷ rs) h = ground (arith, Above-rows_after k since rs h.1)

Ascending-rows_after :
    (since : Text) (rs : List (Text × Value))
    → Ascending (map (λ z. z.0) rs)
    → Ascending (map (λ z. z.0) (rows_after since rs))
unfolding rows_after
Ascending-rows_after since [] h = tt
Ascending-rows_after since ((x, e) ∷ rs) h = elim (Bool-cases (text_ltb since x)) [
  | inl t ↦ rw (t, rows_after) (Above-rows_after x since rs h.0, Ascending-rows_after since rs h.1)
  | inr f ↦ rw (f, rows_after) (Ascending-rows_after since rs h.1)
]

Above-prefixed : (p k : Text) (xs : List Text) → Above (p ++ k) (map (λ z. p ++ z) xs) → Above k xs
Above-prefixed p k [] h = tt
Above-prefixed p k (x ∷ xs) h = (sym (text_ltb-append p k x) ∙ h.0, Above-prefixed p k xs h.1)

Ascending-prefixed : (p : Text) (xs : List Text) → Ascending (map (λ z. p ++ z) xs) → Ascending xs
Ascending-prefixed p [] h = tt
Ascending-prefixed p (x ∷ xs) h = (Above-prefixed p x xs h.0, Ascending-prefixed p xs h.1)

-- The rows that a caller with this cursor has not seen.
unfoldable pub rows_since : Option Text → List (Text × Value) → List (Text × Value)
rows_since none rs = rs
rows_since (some []) rs = rs
rows_since (some (x ∷ since)) rs = rows_after (x ∷ since) rs

In-rows_since :
    (since : Option Text) (cur : Text) (d : Value) (rs : List (Text × Value))
    → In (cur, d) (rows_since since rs) ↔ (In (cur, d) rs × After since cur)
unfolding rows_since
In-rows_since none cur d rs = ((λ h. (h, tt)), (λ h. h.0))
In-rows_since (some []) cur d rs = ((λ h. (h, tt)), (λ h. h.0))
In-rows_since (some (x ∷ since)) cur d rs = In-rows_after (x ∷ since) cur d rs

Ascending-rows_since :
    (since : Option Text) (rs : List (Text × Value))
    → Ascending (map (λ z. z.0) rs)
    → Ascending (map (λ z. z.0) (rows_since since rs))
unfolding rows_since
Ascending-rows_since none rs h = h
Ascending-rows_since (some []) rs h = h
Ascending-rows_since (some (x ∷ since)) rs h = Ascending-rows_after (x ∷ since) rs h

since_entries-cons :
    (p : Text) (x : ℕ) (since : Text) (es : List (Text × Stored))
    → since_entries p (some (x ∷ since)) es ≡ entries_after (p ++ x ∷ since) es
unfolding since_entries
since_entries-cons p x since es = ground arith

All-entries_after :
    (P : Text × Stored → Type 0) (since : Text) (es : List (Text × Stored))
    → All P es
    → All P (entries_after since es)
unfolding entries_after
All-entries_after P since [] h = tt
All-entries_after P since ((k, v) ∷ es) h = elim (Bool-cases (text_ltb since k)) [
  | inl t ↦ rw (t, entries_after) (h.0, All-entries_after P since es h.1)
  | inr f ↦ rw (f, entries_after) (All-entries_after P since es h.1)
]

All-since_entries :
    (P : Text × Stored → Type 0) (p : Text) (since : Option Text) (es : List (Text × Stored))
    → All P es
    → All P (since_entries p since es)
unfolding since_entries
All-since_entries P p none es h = h
All-since_entries P p (some []) es h = h
All-since_entries P p (some (x ∷ since)) es h =
    rw (since_entries-cons p x since es) (All-entries_after P (p ++ x ∷ since) es h)

module _ {S : Type 0} (o : Operations S Stored) (Ok : S → Type 0)
    (laws : Storage.Laws S Stored o Ok) (s : ApStore S) (m : View) (c : Text)
    (rep : Represents o Ok s.adapter m) (clean : IsClean c) where
  unfoldable pub all_rows : List (Text × Value)
  all_rows = rows o Ok laws s.adapter m c rep clean (listed o Ok laws s.adapter m c rep clean)

  pub entries : Entries o Ok laws s.adapter m c rep clean (listed o Ok laws s.adapter m c rep clean)
  entries = All-of_In _ _ (listed-IsEntry o Ok laws s.adapter m c rep clean)

  rows_of_entries_after :
      (since : Text) (es : List (Text × Stored))
      → Entries o Ok laws s.adapter m c rep clean es
      → rows o Ok laws s.adapter m c rep clean (entries_after (index_key_prefix c ++ since) es)
        ≡ rows_after since (rows o Ok laws s.adapter m c rep clean es)
  unfolding entries_after rows_after
  rows_of_entries_after since [] h = unfold rows cursors_and_docs rows_after in refl
  rows_of_entries_after since (e ∷ es) h =
      let test : text_ltb (index_key_prefix c ++ since) e.0
          ≡ text_ltb since (cursor_text h.0.row.ts h.0.id) =
        ap (text_ltb (index_key_prefix c ++ since)) h.0.key
        ∙ text_ltb-append (index_key_prefix c) since _ in
      rw (rows-cons o Ok laws s.adapter m c rep clean e es h.0)
        (elim (Bool-cases (text_ltb since (cursor_text h.0.row.ts h.0.id))) [
          | inl t ↦
              rw
                (
                  test,
                  t,
                  entries_after,
                  rows_after,
                  rows-cons o Ok laws s.adapter m c rep clean e
                      (entries_after (index_key_prefix c ++ since) es) h.0,
                )
                (ap (◌∷◌ (cursor_text h.0.row.ts h.0.id, h.0.row.doc))
                  (rows_of_entries_after since es h.1))
          | inr f ↦ rw (test, f, entries_after, rows_after) (rows_of_entries_after since es h.1)
        ])

  rows_of_since_entries :
      (since : Option Text)
      → rows o Ok laws s.adapter m c rep clean
          (since_entries (index_key_prefix c) since (listed o Ok laws s.adapter m c rep clean))
        ≡ rows_since since all_rows
  unfolding since_entries rows_since all_rows
  rows_of_since_entries none = refl
  rows_of_since_entries (some []) = refl
  rows_of_since_entries (some (x ∷ since)) =
      rw
        (since_entries-cons (index_key_prefix c) x since (listed o Ok laws s.adapter m c rep clean))
        (rows_of_entries_after (x ∷ since) _ entries)

  pub get_children_since-all :
      (since : Option Text) → get_children_since o s c since none ≡ rows_since since all_rows
  unfolding get_children_since cut
  get_children_since-all since = unfold rows prefix listed in rows_of_since_entries since

  since_listed : Option Text → List (Text × Stored)
  since_listed since =
      since_entries (index_key_prefix c) since (listed o Ok laws s.adapter m c rep clean)

  -- Through a store that represents a view, a limit on getChildrenSince() of a clean collection keeps
  -- the first of the rows that it lists without a limit.
  get_children_since-limit :
      (since : Option Text) (n : ℕ)
      → get_children_since o s c since (some n) ≡ take n (get_children_since o s c since none)
  unfolding get_children_since cut
  get_children_since-limit since n =
      unfold rows prefix listed since_listed in
      take-rows o Ok laws s.adapter m c rep clean n (since_listed since)
        (All-since_entries _ (index_key_prefix c) since _ entries)

  -- Through a store that represents a view, and for a clean collection: with the limit Infinity
  -- getChildrenSince() returns exactly the records indexed under it that come after the given cursor,
  -- in strictly ascending order of their cursors; with a number as its limit, as the default 100 is, it
  -- returns the first that many of these.
  pub get_children_since-rows :
      (since : Option Text)
      → ((cur : Text) (d : Value)
          → In (cur, d) (get_children_since o s c since none) ↔ (IsRow m c cur d × After since cur))
        × Ascending (map (λ z. z.0) (get_children_since o s c since none))
        × ((n : ℕ)
            → get_children_since o s c since (some n)
              ≡ take n (get_children_since o s c since none))
  get_children_since-rows since = (
    rw (get_children_since-all since) (λ cur d.
        let (p, q) = In-rows_since since cur d all_rows in
        ((λ h. let (x, y) = p h in (row_of cur d x, y)), (λ h. q (in_rows cur d h.0, h.1)))),
    rw (get_children_since-all since) (Ascending-rows_since since all_rows ascending),
    get_children_since-limit since,
  )
    where
      row_of : (cur : Text) (d : Value) → In (cur, d) all_rows → IsRow m c cur d
      row_of cur d h =
          (rows_sound o Ok laws s.adapter m c rep clean _ cur d entries (unfold all_rows in h)).0

      in_rows : (cur : Text) (d : Value) → IsRow m c cur d → In (cur, d) all_rows
      in_rows cur d x =
          subst (λ z. In z all_rows) (λ i. (sym x.cursor_eq i, sym x.doc_eq i))
            (unfold all_rows in
              rows_complete o Ok laws s.adapter m c rep clean _ x.id x.row entries x.found
                (listed_row o Ok laws s.adapter m c rep clean x.id x.row x.found x.member))

      keys_eq :
          keys (listed o Ok laws s.adapter m c rep clean)
          ≡ map (λ z. prefix o Ok laws s.adapter m c rep clean ++ z) (map (λ z. z.0) all_rows)
      keys_eq = unfold all_rows in keys-rows o Ok laws s.adapter m c rep clean _ entries

      listed_ascending : Ascending (keys (listed o Ok laws s.adapter m c rep clean))
      listed_ascending = unfold listed in laws.list-Ascending s.adapter (index_key_prefix c) rep.ok

      ascending : Ascending (map (λ z. z.0) all_rows)
      ascending =
          Ascending-prefixed (prefix o Ok laws s.adapter m c rep clean) _
            (subst Ascending keys_eq listed_ascending)
