-- ===== src/Realtime/Sse/Server.antt =====
-- SseServerTransport: its peers, each with the text written to its response.
use qu_v.Prelude.{
  ℕ, Bool, true, false, Text, codes, Option, none, some, [], ◌∷◌, ◌++◌, length, if◌then◌else◌,
  text_eq,
}
use qu_v.Core.JsMap
use qu_v.Core.JsMap.{Entries, find}
use qu_v.Realtime.Sse.{event_text}

-- An SsePeerConnection's response: what has been written, and res.writableEnded.
pub record SsePeer : Type 0 where
  pub written : Text
  pub has_ended : Bool

-- handleRequest() up to the peer's registration: the response's first text
unfoldable pub connected : SsePeer
connected = record { written = codes ":ok" ++ 10 ∷ 10 ∷ []; has_ended = false }

-- send(frame), of the frame's JSON
unfoldable pub send : SsePeer → Text → SsePeer
unfolding event_text
send p t = if p.has_ended then p else record p { written = p.written ++ event_text t }

-- close()
unfoldable pub close : SsePeer → SsePeer
close p = record p { has_ended = true }

-- #peers.set(peerId, peer), in handleRequest()
unfoldable pub handle_request : Entries SsePeer → Text → Entries SsePeer
unfolding connected
handle_request peers id = JsMap.put peers id connected

-- res.on('close', …)
unfoldable pub on_close : Entries SsePeer → Text → Entries SsePeer
on_close peers id = JsMap.delete peers id

-- sendTo(peerId, frame)
unfoldable pub send_to : Entries SsePeer → Text → Text → Entries SsePeer
unfolding send find
send_to peers id t = elim (find peers id) [ none ↦ peers | some p ↦ JsMap.put peers id (send p t) ]

-- peerId === except
unfoldable pub is_except : Option Text → Text → Bool
is_except none id = false
is_except (some e) id = text_eq id e

-- broadcast(frame, { except })
unfoldable pub broadcast : Entries SsePeer → Text → Option Text → Entries SsePeer
unfolding send is_except
broadcast [] t except = []
broadcast ((id, p) ∷ ps) t except =
    (id, if is_except except id then p else send p t) ∷ broadcast ps t except

-- peerCount()
unfoldable pub peer_count : Entries SsePeer → ℕ
peer_count peers = length peers

-- close(), of the transport
unfoldable pub close_all : Entries SsePeer → Entries SsePeer
unfolding close
close_all [] = []
close_all ((id, p) ∷ ps) = (id, close p) ∷ close_all ps
