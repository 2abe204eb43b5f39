-- ===== src/Store/Keys.antt =====
-- The keys of ApStore: which pairs of them can be equal, and which keys a collection's prefix finds.
-- A collection id is clean if the delimiter '\x01' does not occur in it.
use mathlib.Core.Bool.{false≢true}
use mathlib.Core.List.{append_cancel_left}
use qu_v.Prelude.{
  ℕ, ◌<◌, ◌≡◌, ◌≢◌, refl, sym, ap, ◌∙◌, true, false, Text, codes, [], ◌∷◌, ◌++◌, append_assoc, All,
  starts_with, starts_with-append, starts_with_split,
}
use qu_v.Core.Cursor
use qu_v.Core.Cursor.{decode_cursor}
use qu_v.Core.Cursor.RoundTrip.{
  ts_limit, cursor_text, encode_cursor-fits, decode_cursor-cursor_text,
}
use qu_v.Store.{object_key, index_key, index_key_prefix, collection_delim}

abbrev pub IsClean : Text → Type 0
IsClean = All (λ x. x ≢ collection_delim)

-- The index key of an entry whose timestamp fits.
unfoldable pub index_text : Text → ℕ → Text → Text
index_text c ts id = index_key_prefix c ++ cursor_text ts id

pub index_key-fits :
    (c : Text) (ts : ℕ) (id : Text)
    → ts < ts_limit
    → id ≢ []
    → index_key c ts id ≡ Cursor.ok (index_text c ts id)
unfolding index_key index_text
index_key-fits c ts id h ne = rw (encode_cursor-fits (record { ts = ts; id = id }) h ne, index_key)

-- Clean texts in front of a delimiter are found again.
split_clean :
    (c d r t : Text)
    → IsClean c
    → IsClean d
    → c ++ collection_delim ∷ r ≡ d ++ collection_delim ∷ t
    → (c ≡ d) × (r ≡ t)
split_clean [] [] r t h k e = (refl, cc)
split_clean [] (y ∷ d) r t h k e = absurd (k.0 (cc))
split_clean (x ∷ c) [] r t h k e = absurd (h.0 (cc))
split_clean (x ∷ c) (y ∷ d) r t h k e = let (p, q) = split_clean c d r t h.1 k.1 (cc) in (cc, q)

index_key_prefix-append :
    (c r : Text) → index_key_prefix c ++ r ≡ codes "idx/" ++ (c ++ collection_delim ∷ r)
unfolding index_key_prefix
index_key_prefix-append c r =
    append_assoc (codes "idx/") (c ++ collection_delim ∷ []) r
    ∙ ap (◌++◌ (codes "idx/")) (append_assoc c (collection_delim ∷ []) r)

prefixed_inj :
    (c d r t : Text)
    → IsClean c
    → IsClean d
    → index_key_prefix c ++ r ≡ index_key_prefix d ++ t
    → (c ≡ d) × (r ≡ t)
prefixed_inj c d r t h k e = split_clean c d r t h k (
    append_cancel_left (codes "idx/") _ _
      (sym (index_key_prefix-append c r) ∙ e ∙ index_key_prefix-append d t))

cursor_text_inj :
    (m n : ℕ) (i j : Text)
    → m < ts_limit
    → n < ts_limit
    → cursor_text m i ≡ cursor_text n j
    → (m ≡ n) × (i ≡ j)
cursor_text_inj m n i j h k e =
    let p = decode_cursor-cursor_text m i h in
    let q = decode_cursor-cursor_text n j k in
    let d = sym p ∙ ap decode_cursor e ∙ q in (cc d, cc d)

-- Index keys of clean collections are equal only for the same collection, timestamp and id.
pub index_text_inj :
    (c d : Text) (m n : ℕ) (i j : Text)
    → IsClean c
    → IsClean d
    → m < ts_limit
    → n < ts_limit
    → index_text c m i ≡ index_text d n j
    → (c ≡ d) × (m ≡ n) × (i ≡ j)
unfolding index_text
index_text_inj c d m n i j h k p q e =
    let (a, b) = prefixed_inj c d _ _ h k e in
    let (x, y) = cursor_text_inj m n i j p q b in (a, x, y)

-- The prefix of a clean collection finds no key of another.
pub collection_of_prefix :
    (c d : Text) (n : ℕ) (i : Text)
    → IsClean c
    → IsClean d
    → starts_with (index_key_prefix c) (index_text d n i) ≡ true
    → c ≡ d
unfolding index_text
collection_of_prefix c d n i h k e =
    let (r, q) = starts_with_split (index_key_prefix c) _ e in sym (prefixed_inj d c _ r k h q).0

pub starts_with-index_text :
    (c : Text) (n : ℕ) (i : Text) → starts_with (index_key_prefix c) (index_text c n i) ≡ true
unfolding index_text
starts_with-index_text c n i = starts_with-append (index_key_prefix c) (cursor_text n i)

pub object_key_inj : (i j : Text) → object_key i ≡ object_key j → i ≡ j
unfolding object_key
object_key_inj i j e = append_cancel_left (codes "obj/") i j e

pub starts_with-object_key : (c i : Text) → starts_with (index_key_prefix c) (object_key i) ≡ false
unfolding object_key index_key_prefix starts_with
starts_with-object_key c i = refl

pub object_key-ne-index_text : (i c : Text) (n : ℕ) (j : Text) → object_key i ≢ index_text c n j
object_key-ne-index_text i c n j e = false≢true (
    sym (starts_with-object_key c i)
    ∙ ap (starts_with (index_key_prefix c)) e
    ∙ starts_with-index_text c n j)
