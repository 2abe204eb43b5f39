-- ===== src/Examples/Streams.antt =====
-- Two control frames over a stream that is cut within an event.
use qu_v.Prelude.{
  ◌≡◌, refl, Text, codes, Option, none, some, List, [], ◌∷◌, ◌++◌, map, text_eq, text_dec,
  Bool-cases, if◌then◌else◌,
}
use qu_v.As2.Value.{Value, text, object, field, end, get_field, lookup_field, as_text, truthy}
use qu_v.As2.Vocabulary.{includes}
use qu_v.Realtime.{checked_frame, has_kind, has_op, is_control_frame}
use qu_v.Realtime.Sse.{receive, event_text}
use qu_v.Realtime.Sse.Server.{connected, send}
use qu_v.Realtime.Sse.Stream.{IsWire, send_all, receive-send_all}
use qu_v.Realtime.Sse.Pump.{flat}

abbrev hello : Value
hello =
    object (
      field (codes "kind") (text (codes "control")) (field (codes "op") (text (codes "hello")) end))

-- The printer and the parser of this one frame.
abbrev print : Value → Text
print v = codes "{h}"

abbrev parse : Text → Option Value
parse t = if text_eq t (codes "{h}") then some hello else none

hello-IsWire : IsWire print parse hello
unfolding checked_frame has_kind has_op is_control_frame truthy get_field lookup_field as_text
    includes text_eq text_dec Bool-cases
hello-IsWire = record {
  middle = codes "h";
  braces = refl;
  one_line = (refl, (refl, (refl, tt)));
  parsed = refl;
  accepted = refl;
}

abbrev reads : List Text
reads =
    (codes ":ok" ++ 10 ∷ 10 ∷ codes "data: {h")
    ∷ (codes "}" ++ 10 ∷ [])
    ∷ (10 ∷ (codes "data: {h}" ++ 10 ∷ 10 ∷ []))
    ∷ []

reads-written : flat reads ≡ (send_all connected (map print (hello ∷ hello ∷ []))).written
unfolding connected send event_text
reads-written = refl

receive-send_all_example : receive parse reads ≡ hello ∷ hello ∷ []
receive-send_all_example =
    receive-send_all print parse (hello ∷ hello ∷ []) reads (hello-IsWire, (hello-IsWire, tt))
      reads-written
