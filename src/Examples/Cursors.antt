-- ===== src/Examples/Cursors.antt =====
-- Cursors of two posts, and a timestamp too large for a cursor.
use qu_v.Prelude.{◌<◌, ◌≡◌, ◌≢◌, Text, codes, some, [], arith}
use qu_v.Core.Cursor
use qu_v.Core.Cursor.{
  Cursor, encode_cursor, decode_cursor, compare_cursors, empty_id, too_wide, minus,
}
use qu_v.Core.Cursor.RoundTrip.{ts_limit, decode_cursor-encode_cursor}
use qu_v.Core.Cursor.Order.{compare_cursors-encode_cursor, cursor_sign}

abbrev older : Cursor
older = record { ts = 1700000000000; id = codes "https://qu.example/a" }

abbrev newer : Cursor
newer = record { ts = 1700000000001; id = codes "https://qu.example/Z" }

abbrev too_late : Cursor
too_late = record { ts = 1000000000000000; id = codes "https://qu.example/a" }

older-fits : older.ts < ts_limit
older-fits = omega arith

newer-fits : newer.ts < ts_limit
newer-fits = omega arith

older-named : older.id ≢ []
older-named e = cc (e)

newer-named : newer.id ≢ []
newer-named e = cc (e)

decode_cursor-encode_cursor_example :
    (s : Text) × (encode_cursor older ≡ Cursor.ok s)
    × (decode_cursor s ≡ Cursor.ok (record { ts = some older.ts; id = older.id }))
decode_cursor-encode_cursor_example = decode_cursor-encode_cursor older older-fits older-named

compare_cursors-encode_cursor_example :
    (s : Text) × (t : Text) × (encode_cursor older ≡ Cursor.ok s)
    × (encode_cursor newer ≡ Cursor.ok t)
    × (compare_cursors s t ≡ cursor_sign older newer)
compare_cursors-encode_cursor_example =
    compare_cursors-encode_cursor older newer older-fits newer-fits older-named newer-named
