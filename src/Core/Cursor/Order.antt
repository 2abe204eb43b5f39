-- ===== src/Core/Cursor/Order.antt =====
-- Comparing cursors as plain strings compares them by timestamp first and by id second.
use native.Mathlib.Nat.{pow-suc}
use qu_v.Prelude.{
  ℕ, zero, suc, ◌^◌, ◌/◌, ◌<◌, ◌≡◌, ◌≢◌, refl, sym, ◌∙◌, Text, [], ◌∷◌, ◌++◌, arith, length, ltb,
  if◌then◌else◌, true, false, text_ltb,
}
use qu_v.Core.Cursor.{Cursor, ok, encode_cursor, compare_cursors, Sign, minus, nought, plus}
use qu_v.Core.Cursor.Decimal.{fixed, length-fixed}
use qu_v.Core.Cursor.RoundTrip.{ts_limit, cursor_text, encode_cursor-fits}

text_ltb-append_same_length :
    (s t u v : Text)
    → length s ≡ length t
    → text_ltb (s ++ u) (t ++ v)
      ≡ (if text_ltb s t then true else if text_ltb t s then false else text_ltb u v)
unfolding text_ltb
text_ltb-append_same_length [] [] u v h = refl
text_ltb-append_same_length [] (y ∷ t) u v h = absurd (omega arith)
text_ltb-append_same_length (x ∷ s) [] u v h = absurd (omega arith)
text_ltb-append_same_length (x ∷ s) (y ∷ t) u v h =
    ground (arith, text_ltb-append_same_length s t u v)

-- Fixed-width decimals are ordered as the numbers are.
text_ltb-fixed : (w m n : ℕ) → m < 10 ^ w → n < 10 ^ w → text_ltb (fixed w m) (fixed w n) ≡ ltb m n
unfolding fixed
text_ltb-fixed zero m n h k = unfold text_ltb in ground arith
text_ltb-fixed (suc w) m n h k =
    let below : m / 10 < 10 ^ w = omega (arith, pow-suc 10 w) in
    let below' : n / 10 < 10 ^ w = omega (arith, pow-suc 10 w) in
    rw
      (
        text_ltb-append_same_length (fixed w (m / 10)) (fixed w (n / 10)) _ _
            (length-fixed w (m / 10) ∙ sym (length-fixed w (n / 10))),
        text_ltb-fixed w (m / 10) (n / 10) below below',
        text_ltb-fixed w (n / 10) (m / 10) below' below,
      )
      (unfold text_ltb in ground arith)

pub text_ltb-cursor_text :
    (m n : ℕ) (i j : Text)
    → m < ts_limit
    → n < ts_limit
    → text_ltb (cursor_text m i) (cursor_text n j)
      ≡ (if ltb m n then true else if ltb n m then false else text_ltb i j)
unfolding cursor_text
text_ltb-cursor_text m n i j h k =
    text_ltb-append_same_length (fixed 15 m) (fixed 15 n) _ _
      (length-fixed 15 m ∙ sym (length-fixed 15 n))
    ∙ (rw (text_ltb-fixed 15 m n h k, text_ltb-fixed 15 n m k h) (unfold text_ltb in ground arith))

-- Older first, and by id within one timestamp.
abbrev pub cursor_sign : Cursor → Cursor → Sign
cursor_sign a b =
    if ltb a.ts b.ts
    then minus
    else if ltb b.ts a.ts
    then plus
    else if text_ltb a.id b.id
    then minus
    else if text_ltb b.id a.id
    then plus
    else nought

-- Two cursors whose timestamps are below 10^15 and whose ids are not empty are encoded, and
-- compareCursors orders the texts by the timestamps, and within one timestamp by the ids.
pub compare_cursors-encode_cursor :
    (a b : Cursor)
    → a.ts < ts_limit
    → b.ts < ts_limit
    → a.id ≢ []
    → b.id ≢ []
    → (s : Text) × (t : Text) × (encode_cursor a ≡ ok s)
      × (encode_cursor b ≡ ok t)
      × (compare_cursors s t ≡ cursor_sign a b)
unfolding compare_cursors
compare_cursors-encode_cursor a b h k p q = (
  cursor_text a.ts a.id,
  cursor_text b.ts b.id,
  encode_cursor-fits a h p,
  encode_cursor-fits b k q,
  ground (
    arith,
    text_ltb-cursor_text a.ts b.ts a.id b.id h k,
    text_ltb-cursor_text b.ts a.ts b.id a.id k h,
  ),
)
