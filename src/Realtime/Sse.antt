-- ===== src/Realtime/Sse.antt =====
-- packages/ap-realtime/src/sse-server-transport.js and sse-client-transport.js: frames as server-sent
-- events. JSON.stringify() and JSON.parse() are parameters; the client's stream is the list of the
-- texts that its decoder gives, one for each read.
pub mod Server
pub mod Pump
pub mod Stream
use mathlib.Core.Option
use qu_v.Prelude.{
  ℕ, zero, suc, Bool, true, false, Text, codes, Option, none, some, List, [], ◌∷◌, ◌++◌, map,
  reverse, length, drop, ◌==◌, ◌&&◌, ◌||◌, leb, if◌then◌else◌, starts_with,
}
use qu_v.As2.Value.{Value, text}
use qu_v.ApCore.Signature.{split, join}
use qu_v.Realtime.{parse_frame}

-- '\n'
abbrev pub newline : ℕ
newline = 10

-- `data: ${serializeFrame(frame)}\n\n`
unfoldable pub event_text : Text → Text
event_text t = codes "data: " ++ (t ++ newline ∷ newline ∷ [])

-- buffer.slice(0, boundary) and buffer.slice(boundary + 2), at buffer.indexOf('\n\n')
unfoldable pub cut_event : Text → Option (Text × Text)
cut_event [] = none
cut_event (c ∷ []) = none
cut_event (c ∷ d ∷ t) =
    let rest = cut_event (d ∷ t) in
    if c == newline && d == newline then some ([], t) else Option.map (λ p. (c ∷ p.0, p.1)) rest

-- The inner loop of #pump(), on fuel: the chunks that it handles, and the buffer that it leaves.
unfoldable pub drain : ℕ → Text → List Text × Text
unfolding cut_event
drain zero buffer = ([], buffer)
drain (suc fuel) buffer = elim (cut_event buffer) [
  | none ↦ ([], buffer)
  | some p ↦ let (chunks, rest) = drain fuel p.1 in (p.0 ∷ chunks, rest)
]

-- The outer loop of #pump(): the chunks that it handles, for the texts that are read.
unfoldable pub pump : Text → List Text → List Text
unfolding drain
pump buffer [] = []
pump buffer (t ∷ ts) =
    let (chunks, rest) = drain (length (buffer ++ t)) (buffer ++ t) in chunks ++ pump rest ts

-- The white space and line terminators of trim().
unfoldable pub is_space : ℕ → Bool
is_space c =
    (leb 9 c && leb c 13)
    || c == 32
    || c == 160
    || c == 5760
    || (leb 8192 c && leb c 8202)
    || c == 8232
    || c == 8233
    || c == 8239
    || c == 8287
    || c == 12288
    || c == 65279

unfoldable pub trim_start : Text → Text
unfolding is_space
trim_start [] = []
trim_start (c ∷ cs) = let rest = trim_start cs in if is_space c then rest else c ∷ cs

-- text.trim()
unfoldable pub trim : Text → Text
unfolding trim_start
trim t = reverse (trim_start (reverse (trim_start t)))

abbrev pub data_prefix : Text
data_prefix = codes "data:"

-- lines.filter((line) => line.startsWith('data:')).map((line) => line.slice(5).trim())
unfoldable pub data_lines : List Text → List Text
unfolding trim
data_lines [] = []
data_lines (l ∷ ls) =
    let rest = data_lines ls in if starts_with data_prefix l then trim (drop 5 l) ∷ rest else rest

-- The frame that #handleChunk() gives to the listeners, if it gives one.
unfoldable pub handle_lines : (Text → Option Value) → List Text → Option Value
unfolding join parse_frame
handle_lines parse_json [] = none
handle_lines parse_json (l ∷ ls) = parse_frame parse_json (text (join newline (l ∷ ls)))

unfoldable pub handle_chunk : (Text → Option Value) → Text → Option Value
unfolding handle_lines data_lines split
handle_chunk parse_json chunk = handle_lines parse_json (data_lines (split newline chunk))

unfoldable pub handle_chunks : (Text → Option Value) → List Text → List Value
unfolding handle_chunk
handle_chunks parse_json [] = []
handle_chunks parse_json (c ∷ cs) =
    let rest = handle_chunks parse_json cs in
    elim (handle_chunk parse_json c) [ none ↦ rest | some frame ↦ frame ∷ rest ]

-- The frames that a client's message listeners are called with, for the texts that are read.
unfoldable pub receive : (Text → Option Value) → List Text → List Value
unfolding handle_chunks pump
receive parse_json texts = handle_chunks parse_json (pump [] texts)
