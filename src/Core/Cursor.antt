-- ===== src/Core/Cursor.antt =====
-- packages/core/src/adapters/cursor.js: the (ts, id) cursors that order index keys.
-- A timestamp is a natural number, so the tests for an integer and for a sign have no counterpart;
-- it prints as its decimal digits, as String() has it below 10^21.
pub mod Decimal
pub mod RoundTrip
pub mod Order
use qu_v.Prelude.{
  ℕ, ◌+◌, ◌-◌, ◌≤◌, ◌≡◌, refl, Bool, true, false, Text, codes, List, [], ◌∷◌, ◌++◌, arith, length,
  take, drop, ltb, ◌==◌, if◌then◌else◌, text_ltb, replicate, ltb, get_elem?, Option, none, some,
}
use Decimal.{digits, number}

pub record Cursor : Type 0 where
  pub ts : ℕ
  pub id : Text

-- What encodeCursor and decodeCursor throw.
pub data CursorError : Type 0 where
  empty_id too_wide not_a_cursor no_separator : CursorError

pub data Result {ℓ} (A : Type ℓ) : Type ℓ where
  ok : A → Result A
  err : CursorError → Result A

abbrev pub ts_width : ℕ
ts_width = 15

-- '\0'
abbrev pub separator : ℕ
separator = 0

-- s.padStart(TS_WIDTH, '0')
unfoldable pub pad_start : Text → Text
pad_start s = replicate (ts_width - length s) b'0' ++ s

unfoldable pub pad_timestamp : ℕ → Result Text
unfolding pad_start
pad_timestamp ts =
    if ltb ts_width (length (pad_start (digits ts)))
    then err too_wide
    else ok (pad_start (digits ts))

unfoldable pub with_padding : Text → Result Text → Result Text
with_padding id (err e) = err e
with_padding id (ok padded) = ok (padded ++ separator ∷ id)

unfoldable pub encode_cursor : Cursor → Result Text
unfolding with_padding pad_timestamp
encode_cursor c = if length c.id == 0 then err empty_id else with_padding c.id (pad_timestamp c.ts)

-- A decoded cursor. `none` is what Number() reads in a text that is not all decimal digits.
pub record Decoded : Type 0 where
  pub ts : Option ℕ
  pub id : Text

unfoldable pub decode_cursor : Text → Result Decoded
decode_cursor s = elim (get_elem? s ts_width) [
  | none ↦ err not_a_cursor
  | some c ↦
      if c == separator
      then ok (record { ts = number (take ts_width s); id = drop (ts_width + 1) s })
      else err no_separator
]

-- A negative, a zero or a positive answer.
pub data Sign : Type 0 where
  minus nought plus : Sign

unfoldable pub compare_cursors : Text → Text → Sign
compare_cursors a b = if text_ltb a b then minus else if text_ltb b a then plus else nought
