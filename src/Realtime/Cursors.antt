-- ===== src/Realtime/Cursors.antt =====
-- The rows that a replay lists, and the last of their cursors.
use mathlib.Core.Bool.{false≢true}
use qu_v.Prelude.{
  ℕ, ◌≡◌, ◌≢◌, ◌↔◌, refl, sym, ap, ◌∙◌, inl, inr, true, false, Text, Option, none, some, List, [],
  ◌∷◌, ◌++◌, map, In, text_ltb, text_ltb_irrefl, text_ltb_trans, Bool-cases,
}
use qu_v.Prelude.Sorting.{Ascending, Above}
use qu_v.Core.Cursor.RoundTrip.{cursor_text}
use qu_v.As2.Value.{Value}
use qu_v.Store.View.{View}
use qu_v.Store.Children.{IsRow, After}
use qu_v.Realtime.{DataFrame, data_frame}
use qu_v.Realtime.Resume.{replayed_frame, replayed, last_cursor}

-- A frame that carries a listed document of the collection.
pub record Carries (c : Text) (es : List (Text × Value)) (f : DataFrame) : Type 0 where
  pub cursor : Text
  pub doc : Value
  pub listed : In (cursor, doc) es
  pub frame : f ≡ replayed_frame c cursor doc

data_frame_inj : (f g : DataFrame) → data_frame f ≡ data_frame g → f ≡ g
data_frame_inj f g e = cc

pub In-replayed :
    (c : Text) (es : List (Text × Value)) (f : DataFrame)
    → In (data_frame f) (replayed c es) ↔ Carries c es f
unfolding replayed
In-replayed c [] f = ((λ h. absurd h), (λ h. absurd h.listed))
In-replayed c ((cursor, doc) ∷ es) f = (
  (λ h. elim h [
    | inl e ↦ record { cursor = cursor; doc = doc; listed = inl refl; frame = data_frame_inj f _ e }
    | inr r ↦
        let x = (In-replayed c es f).0 r in
        record { cursor = x.cursor; doc = x.doc; listed = inr x.listed; frame = x.frame }
  ]),
  (λ h. elim h.listed [
    | inl e ↦ inl (ap data_frame (h.frame ∙ ap (λ z. replayed_frame c z.0 z.1) e))
    | inr r ↦ inr (
        (In-replayed c es f).1
          (record { cursor = h.cursor; doc = h.doc; listed = r; frame = h.frame }))
  ]),
)

-- The last of the listed cursors is at or behind none of them.
pub record Last (since : Option Text) (es : List (Text × Value)) : Type 0 where
  pub cursor : Text
  pub doc : Value
  pub listed : In (cursor, doc) es
  pub last : last_cursor since es ≡ some cursor
  pub greatest : (k : Text) (d : Value) → In (k, d) es → text_ltb cursor k ≡ false

Above-In :
    (a k : Text) (d : Value) (es : List (Text × Value))
    → Above a (map (λ z. z.0) es)
    → In (k, d) es
    → text_ltb a k ≡ true
Above-In a k d [] h z = absurd z
Above-In a k d (e ∷ es) h (inl q) = rw (ap (λ z. z.0) q) h.0
Above-In a k d (e ∷ es) h (inr r) = Above-In a k d es h.1 r

asymmetric : (a b : Text) → text_ltb a b ≡ true → text_ltb b a ≡ false
asymmetric a b h = elim (Bool-cases (text_ltb b a)) [
  | inl t ↦ absurd (false≢true (sym (text_ltb_irrefl a) ∙ text_ltb_trans a b a h t))
  | inr f ↦ f
]

pub Last-of :
    (since : Option Text) (e : Text × Value) (es : List (Text × Value))
    → Ascending (map (λ z. z.0) (e ∷ es))
    → Last since (e ∷ es)
unfolding last_cursor
Last-of since (k, d) [] h = record {
  cursor = k;
  doc = d;
  listed = inl refl;
  last = refl;
  greatest =
      λ j c m. elim m [ inl q ↦ rw (ap (λ z. z.0) q) (text_ltb_irrefl k) | inr z ↦ absurd z ];
}
Last-of since (k, d) (x ∷ xs) h =
    let l = Last-of (some k) x xs h.1 in
    record {
      cursor = l.cursor;
      doc = l.doc;
      listed = inr l.listed;
      last = l.last;
      greatest = λ j c m. elim m [
        | inl q ↦
            rw (ap (λ z. z.0) q)
              (asymmetric k l.cursor (Above-In k l.cursor l.doc (x ∷ xs) h.0 l.listed))
        | inr r ↦ l.greatest j c r
      ];
    }

pub After-trans :
    (since : Option Text) (a b : Text) → After since a → text_ltb a b ≡ true → After since b
After-trans none a b h k = tt
After-trans (some []) a b h k = tt
After-trans (some (x ∷ since)) a b h k = text_ltb_trans (x ∷ since) a b h k

pub After-cursor : (a b : Text) → a ≢ [] → After (some a) b → text_ltb a b ≡ true
After-cursor [] b n h = absurd (n refl)
After-cursor (x ∷ a) b n h = h

pub empty : (es : List (Text × Value)) → ((k : Text) (d : Value) → ¬ In (k, d) es) → es ≡ []
empty [] h = refl
empty ((k, d) ∷ es) h = absurd (h k d (inl refl))

append_snoc-ne : (xs ys : Text) (x : ℕ) → xs ++ x ∷ ys ≢ []
append_snoc-ne [] ys x e = cc
append_snoc-ne (z ∷ xs) ys x e = cc

pub row_cursor-ne : (m : View) (c k : Text) (d : Value) → IsRow m c k d → k ≢ []
unfolding cursor_text
row_cursor-ne m c k d r e = append_snoc-ne _ _ _ (sym r.cursor_eq ∙ e)
