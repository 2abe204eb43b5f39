-- ===== src/Core/Cursor/RoundTrip.antt =====
-- What encodeCursor produces, and that decodeCursor undoes it.
use qu_v.Prelude.{
  ℕ, ◌-◌, ◌^◌, ◌≤◌, ◌<◌, ◌≡◌, ◌≢◌, refl, ◌↔◌, replicate, dec_lt, Text, [], ◌∷◌, ◌++◌, arith, length,
  take, drop, take-append, drop-append, get_elem?-append, get_elem?, some, append_assoc,
  length-append,
}
use qu_v.Core.Cursor.{
  Cursor, ok, err, empty_id, too_wide, encode_cursor, decode_cursor, pad_start, separator,
}
use qu_v.Core.Cursor.Decimal.{
  digits, number, fixed, length-fixed, length-digits-gt, pad-digits, number_from-fixed,
}

-- The first timestamp that does not fit in 15 digits.
abbrev pub ts_limit : ℕ
ts_limit = 10 ^ 15

-- The text of a cursor whose timestamp fits.
unfoldable pub cursor_text : ℕ → Text → Text
cursor_text ts id = fixed 15 ts ++ separator ∷ id

pad_start-fits : (n : ℕ) → n < ts_limit → pad_start (digits n) ≡ fixed 15 n
unfolding pad_start
pad_start-fits n h = pad-digits 14 n h

pad_start-wide : (n : ℕ) → ts_limit ≤ n → 15 < length (pad_start (digits n))
unfolding pad_start
pad_start-wide n h = omega (
  arith,
  length-append (replicate (15 - length (digits n)) b'0') (digits n),
  length-digits-gt 15 n h,
)

-- A cursor is printed as its 15 digits, the separator and its id.
pub encode_cursor-fits :
    (c : Cursor) → c.ts < ts_limit → c.id ≢ [] → encode_cursor c ≡ ok (cursor_text c.ts c.id)
unfolding encode_cursor cursor_text
encode_cursor-fits c h ne = ground (arith, pad_start-fits c.ts h, length-fixed 15 c.ts)

take-cursor_text : (n : ℕ) (id : Text) → take 15 (cursor_text n id) ≡ fixed 15 n
unfolding cursor_text
take-cursor_text n id = rw (length-fixed 15 n) at (take-append (fixed 15 n) (separator ∷ id))

drop-cursor_text : (n : ℕ) (id : Text) → drop 16 (cursor_text n id) ≡ id
unfolding cursor_text
drop-cursor_text n id =
    rw (length-append (fixed 15 n) (separator ∷ []), length-fixed 15 n, append_assoc) at
      (drop-append (fixed 15 n ++ separator ∷ []) id)

get_elem?-cursor_text : (n : ℕ) (id : Text) → get_elem? (cursor_text n id) 15 ≡ some separator
unfolding cursor_text
get_elem?-cursor_text n id = rw (length-fixed 15 n) at (get_elem?-append (fixed 15 n) id separator)

pub decode_cursor-cursor_text :
    (n : ℕ) (id : Text)
    → n < ts_limit
    → decode_cursor (cursor_text n id) ≡ ok (record { ts = some n; id = id })
unfolding decode_cursor number
decode_cursor-cursor_text n id h = ground (
  arith,
  get_elem?-cursor_text n id,
  take-cursor_text n id,
  drop-cursor_text n id,
  number_from-fixed 15 n h,
)

-- A cursor whose timestamp is below 10^15 and whose id is not empty is encoded, and decoding the
-- text gives the timestamp and the id back.
pub decode_cursor-encode_cursor :
    (c : Cursor)
    → c.ts < ts_limit
    → c.id ≢ []
    → (s : Text) × (encode_cursor c ≡ ok s)
      × (decode_cursor s ≡ ok (record { ts = some c.ts; id = c.id }))
decode_cursor-encode_cursor c h ne =
    (cursor_text c.ts c.id, encode_cursor-fits c h ne, decode_cursor-cursor_text c.ts c.id h)

encode_cursor-empty : (ts : ℕ) → encode_cursor (record { ts = ts; id = [] }) ≡ err empty_id
unfolding encode_cursor
encode_cursor-empty ts = refl

encode_cursor-wide : (c : Cursor) → ts_limit ≤ c.ts → c.id ≢ [] → encode_cursor c ≡ err too_wide
unfolding encode_cursor
encode_cursor-wide c h ne = ground (arith, pad_start-wide c.ts h)

abbrev Refusals : Cursor → Type 0
Refusals c =
    ((encode_cursor c ≡ err empty_id) ↔ (c.id ≡ []))
    × ((encode_cursor c ≡ err too_wide) ↔ ((c.id ≢ []) × (ts_limit ≤ c.ts)))

Refusals-at : (ts : ℕ) (id : Text) → Refusals (record { ts = ts; id = id })
Refusals-at ts [] = (
  ((λ h. refl), (λ h. encode_cursor-empty ts)),
  ((λ h. cc (encode_cursor-empty ts)), (λ h. absurd (h.0 refl))),
)
Refusals-at ts (x ∷ xs) = elim (dec_lt ts ts_limit) [
  | yes p ↦
      let e : encode_cursor c ≡ ok (cursor_text ts (x ∷ xs)) = encode_cursor-fits c p ne in
      (((λ h. cc e), (λ h. cc)), ((λ h. cc e), (λ h. absurd (omega arith))))
  | no p ↦
      let e : encode_cursor c ≡ err too_wide = encode_cursor-wide c (omega arith) ne in
      (((λ h. cc e), (λ h. cc)), ((λ h. (ne, omega arith)), (λ h. e)))
]
  where
    c : Cursor
    c = record { ts = ts; id = x ∷ xs }

    ne : ◌≢◌ {A = Text} (x ∷ xs) []
    ne e = cc

-- encodeCursor refuses an empty id, and of the others exactly the timestamps from 10^15 on.
encode_cursor-refuses :
    (c : Cursor)
    → ((encode_cursor c ≡ err empty_id) ↔ (c.id ≡ []))
      × ((encode_cursor c ≡ err too_wide) ↔ ((c.id ≢ []) × (ts_limit ≤ c.ts)))
encode_cursor-refuses c = Refusals-at c.ts c.id
