-- ===== src/Realtime/Sse/Stream.antt =====
-- What a server writes to a peer, the client reads back.
use mathlib.Core.List.{reverse-append, reverse-reverse}
use qu_v.Prelude.{
  suc, ◌≡◌, refl, sym, ap, ◌∙◌, false, Text, codes, Option, some, List, [], ◌∷◌, ◌++◌, append_assoc,
  append-nil, map, reverse, length, length-append, Bool-cases, inl, inr, All, starts_with, arith,
}
use qu_v.As2.Value.{Value}
use qu_v.ApCore.Signature.{join}
use qu_v.ApCore.Signature.Scan.{Lacks, split-join}
use qu_v.Realtime.{parse_frame, checked_frame}
use qu_v.Realtime.Sse.{
  newline, event_text, cut_event, drain, is_space, trim_start, trim, data_lines, handle_lines,
  handle_chunk, handle_chunks, receive,
}
use qu_v.Realtime.Sse.Server.{SsePeer, connected, send}
use qu_v.Realtime.Sse.Pump.{flat, drained, drain-step, drain-enough, pump-flat}

event-chunk : (t r : Text) → event_text t ++ r ≡ codes "data: " ++ (t ++ newline ∷ newline ∷ r)
unfolding event_text
event-chunk t r = ap (λ z. codes "data: " ++ z) (append_assoc t (newline ∷ newline ∷ []) r)

cut_event-line :
    (x r : Text) → Lacks newline x → cut_event (x ++ newline ∷ newline ∷ r) ≡ some (x, r)
unfolding cut_event
cut_event-line [] r h = refl
cut_event-line (c ∷ []) r h = rw (h.0, cut_event) refl
cut_event-line (c ∷ d ∷ x) r h = rw (h.0, cut_event, cut_event-line (d ∷ x) r h.1) refl

drained-line : (x r : Text) → Lacks newline x → drained (x ++ newline ∷ newline ∷ r) ≡ x ∷ drained r
drained-line x r h =
    let b = x ++ newline ∷ newline ∷ r in
    let e = cut_event-line x r h in
    ap (λ w. w.0) (drain-enough (length b) (suc (length b)) b (omega arith) (omega arith)).0
    ∙ ap (λ w. w.0) (drain-step (length b) b (x, r) e)
    ∙ ap (λ w. x ∷ w.0)
        (drain-enough (length b) (length r) r
          (omega (arith, length-append x (newline ∷ newline ∷ r))) (omega arith)).0

trim-braces : (m : Text) → trim (32 ∷ b'{' ∷ (m ++ b'}' ∷ [])) ≡ b'{' ∷ (m ++ b'}' ∷ [])
unfolding trim trim_start is_space
trim-braces m =
    ap (λ z. reverse (trim_start z)) (reverse-append (b'{' ∷ m) (b'}' ∷ []))
    ∙ ap reverse (sym (reverse-append (b'{' ∷ m) (b'}' ∷ [])))
    ∙ reverse-reverse (b'{' ∷ (m ++ b'}' ∷ []))

abbrev stream : List Text → Text
stream [] = []
stream (t ∷ ts) = event_text t ++ stream ts

-- The frames that send() is called with, in order, as their JSON.
abbrev pub send_all : SsePeer → List Text → SsePeer
send_all p [] = p
send_all p (t ∷ ts) = send_all (send p t) ts

send-open :
    (p : SsePeer) (t : Text) → p.has_ended ≡ false → (send p t).written ≡ p.written ++ event_text t
unfolding send
send-open p t h = rw (h, send) refl

send-has_ended : (p : SsePeer) (t : Text) → (send p t).has_ended ≡ p.has_ended
unfolding send
send-has_ended p t = elim (Bool-cases p.has_ended) [
  | inl h ↦ rw (h, send) refl
  | inr h ↦ rw (h, send) refl
]

send_all-written :
    (p : SsePeer) (ts : List Text)
    → p.has_ended ≡ false
    → (send_all p ts).written ≡ p.written ++ stream ts
send_all-written p [] h = sym (append-nil p.written)
send_all-written p (t ∷ ts) h =
    send_all-written (send p t) ts (send-has_ended p t ∙ h)
    ∙ ap (λ z. z ++ stream ts) (send-open p t h)
    ∙ append_assoc p.written (event_text t) (stream ts)

abbrev chunk : Text → Text
chunk t = codes "data: " ++ t

chunk-Lacks : (t : Text) → Lacks newline t → Lacks newline (chunk t)
chunk-Lacks t h = (refl, (refl, (refl, (refl, (refl, (refl, h))))))

drained-stream : (ts : List Text) → All (Lacks newline) ts → drained (stream ts) ≡ map chunk ts
drained-stream [] h = unfold drain in refl
drained-stream (t ∷ ts) h =
    ap drained (event-chunk t (stream ts))
    ∙ drained-line (chunk t) (stream ts) (chunk-Lacks t h.0)
    ∙ ap (◌∷◌ (chunk t)) (drained-stream ts h.1)

module _ (serialize : Value → Text) (parse_json : Text → Option Value) where
  -- The frame's JSON stands in one line, between braces, and JSON.parse() gives the frame back, which
  -- is one that parseFrame() accepts.
  pub record IsWire (frame : Value) : Type 0 where
    pub middle : Text
    pub braces : serialize frame ≡ b'{' ∷ (middle ++ b'}' ∷ [])
    pub one_line : Lacks newline (serialize frame)
    pub parsed : parse_json (serialize frame) ≡ some frame
    pub accepted : checked_frame frame ≡ some frame

  handle_chunk-frame :
      (frame : Value)
      → IsWire frame
      → handle_chunk parse_json (chunk (serialize frame)) ≡ some frame
  unfolding handle_chunk handle_lines data_lines starts_with join parse_frame
  handle_chunk-frame frame w =
      let t = serialize frame in
      ap (λ z. handle_lines parse_json (data_lines z))
        (split-join newline (chunk t) [] (chunk-Lacks t w.one_line) tt)
      ∙ ap (λ z. handle_lines parse_json (z ∷ []))
          (ap (λ z. trim (32 ∷ z)) w.braces ∙ trim-braces w.middle ∙ sym w.braces)
      ∙ rw (w.parsed, parse_frame) w.accepted

  handle_chunks-frames :
      (frames : List Value)
      → All IsWire frames
      → handle_chunks parse_json (map chunk (map serialize frames)) ≡ frames
  unfolding handle_chunks
  handle_chunks-frames [] w = refl
  handle_chunks-frames (f ∷ fs) w =
      rw (handle_chunk-frame f w.0, handle_chunks) (ap (◌∷◌ f) (handle_chunks-frames fs w.1))

  frames-Lacks :
      (frames : List Value) → All IsWire frames → All (Lacks newline) (map serialize frames)
  frames-Lacks [] w = tt
  frames-Lacks (f ∷ fs) w = (w.0.one_line, frames-Lacks fs w.1)

  -- The client's listeners get exactly the frames that the server has sent to the peer since it
  -- connected, in their order, however the response is cut into reads, where the JSON of each frame
  -- stands in one line between braces, and parses as the frame.
  pub receive-send_all :
      (frames : List Value) (texts : List Text)
      → All IsWire frames
      → flat texts ≡ (send_all connected (map serialize frames)).written
      → receive parse_json texts ≡ frames
  unfolding receive connected handle_chunks starts_with
  receive-send_all frames texts w e =
      let ts = map serialize frames in
      let whole : flat texts ≡ codes ":ok" ++ newline ∷ newline ∷ stream ts =
        e ∙ send_all-written connected ts refl in
      ap (handle_chunks parse_json) (
        pump-flat texts
        ∙ ap drained whole
        ∙ drained-line (codes ":ok") (stream ts) (refl, (refl, (refl, tt)))
        ∙ ap (λ z. codes ":ok" ∷ z) (drained-stream ts (frames-Lacks frames w)))
      ∙ handle_chunks-frames frames w
