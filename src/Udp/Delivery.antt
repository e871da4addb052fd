-- ===== src/Udp/Delivery.antt =====
-- From encodeNetworkMessage to a subscriber: the buffers of a message, received as datagrams.
use node_red_contrib_opcua_s.Prelude.{
  later, ℕ, Option, none, some, List, [], ◌∷◌, ◌++◌, ◌≡◌, refl, ap, ◌∙◌, All,
}
use node_red_contrib_opcua_s.Uadp.Result.{ok}
use node_red_contrib_opcua_s.Uadp.Text.{Text}
use node_red_contrib_opcua_s.Uadp.Network.{Chunk, NetworkMessage}
use node_red_contrib_opcua_s.Uadp.Network.Codec.{encode_chunk_network_message, probe}
use node_red_contrib_opcua_s.Uadp.Network.Codec.RoundTrip.{FitsHeader, received_chunk}
use node_red_contrib_opcua_s.Uadp.Network.Codec.Decode.{decode-encode_chunk_network_message}
use node_red_contrib_opcua_s.Uadp.Network.Codec.Split.{IsPiece}
use node_red_contrib_opcua_s.Reassembler.{Reassembler, Warning, push}
use node_red_contrib_opcua_s.Reassembler.Key.{key_of}
use node_red_contrib_opcua_s.Reassembler.InOrder.{with_last, deliver}
use node_red_contrib_opcua_s.Udp.{
  Event, error, message, warning, warn_all, message_of, handled_push, on_decoded, on_datagram,
  on_datagrams, messages,
}

-- The key under which the pieces of a message are collected.
abbrev pub key_for : NetworkMessage → ℕ → ℕ → Text
key_for nm writer_id sequence =
    key_of (received_chunk nm (probe sequence 0) writer_id) (probe sequence 0)

pub key_same :
    (nm : NetworkMessage) (c : Chunk) (writer_id sequence : ℕ)
    → c.message_sequence_number ≡ sequence
    → key_of (received_chunk nm c writer_id) c ≡ key_for nm writer_id sequence
unfolding key_of
key_same nm c writer_id sequence e = rw e refl

messages-append : (es fs : List Event) → messages (es ++ fs) ≡ messages es ++ messages fs
messages-append [] fs = refl
messages-append (message bytes ∷ es) fs = ap (◌∷◌ bytes) (messages-append es fs)
messages-append (error e ∷ es) fs = messages-append es fs
messages-append (warning w ∷ es) fs = messages-append es fs

messages-warn_all :
    (ws : List Warning) (es : List Event) → messages (warn_all ws ++ es) ≡ messages es
messages-warn_all [] es = refl
messages-warn_all (w ∷ ws) es = messages-warn_all ws es

-- The messages that pushes handed out.
abbrev pub handed : List (Option (List ℕ)) → List (List ℕ)
handed [] = []
handed (none ∷ l) = handed l
handed (some bytes ∷ l) = bytes ∷ handed l

messages-message_of :
    (o : Option (List ℕ)) (l : List (Option (List ℕ)))
    → messages (message_of o) ++ handed l ≡ handed (o ∷ l)
messages-message_of none l = refl
messages-message_of (some bytes) l = refl

pub handed-with_last :
    (c : Chunk) (cs : List Chunk) (full : List ℕ) → handed (with_last (c ∷ cs) full) ≡ full ∷ []
handed-with_last c [] full = refl
handed-with_last c (d ∷ cs) full = handed-with_last d cs full

-- A datagram with a piece is pushed under the key of its message.
on_datagram-chunk :
    (now : ℕ) (r : Reassembler) (nm : NetworkMessage) (c : Chunk) (writer_id sequence : ℕ)
    (buf : List ℕ)
    → FitsHeader nm
    → c.message_sequence_number ≡ sequence
    → encode_chunk_network_message nm c writer_id ≡ ok buf
    → on_datagram now r buf ≡ handled_push (push now r (key_for nm writer_id sequence) c)
unfolding on_datagram on_decoded
on_datagram-chunk now r nm c writer_id sequence buf fits e h =
    rw (decode-encode_chunk_network_message nm c writer_id buf fits h, on_datagram)
      (ap (λ key. handled_push (push now r key c)) (key_same nm c writer_id sequence e))

-- The buffers of some pieces.
abbrev pub AreBuffers : NetworkMessage → ℕ → List Chunk → List (List ℕ) → Type 0
AreBuffers nm writer_id [] [] = Unit {0}
AreBuffers nm writer_id (c ∷ cs) (buf ∷ bufs) =
    (encode_chunk_network_message nm c writer_id ≡ ok buf) × AreBuffers nm writer_id cs bufs
AreBuffers nm writer_id _ _ = ⊥

-- The transport does with the buffers what the reassembler does with the pieces.
pub on_datagrams-deliver :
    (clock : ℕ → ℕ) (r : Reassembler) (nm : NetworkMessage) (writer_id sequence k : ℕ)
    (cs : List Chunk) (bufs : List (List ℕ))
    → FitsHeader nm
    → All (IsPiece sequence k) cs
    → AreBuffers nm writer_id cs bufs
    → let d = deliver clock r (key_for nm writer_id sequence) cs in
      ((on_datagrams clock r bufs).state ≡ d.0)
      × (messages (on_datagrams clock r bufs).events ≡ handed d.1)
unfolding on_datagrams deliver
on_datagrams-deliver clock r nm writer_id sequence k [] [] fits pieces h = (refl, refl)
on_datagrams-deliver clock r nm writer_id sequence k [] (buf ∷ bufs) fits pieces h = absurd h
on_datagrams-deliver clock r nm writer_id sequence k (c ∷ cs) [] fits pieces h = absurd h
on_datagrams-deliver clock r nm writer_id sequence k (c ∷ cs) (buf ∷ bufs) fits (piece, pieces)
      (h, hs) =
    let key = key_for nm writer_id sequence in
    let p = push (clock 0) r key c in
    let (same, rest) =
      on_datagrams-deliver (later clock) p.state nm writer_id sequence k cs bufs fits pieces hs in
    rw (on_datagram-chunk (clock 0) r nm c writer_id sequence buf fits piece.2 h) (
      (
        same,
        messages-append (warn_all p.warnings ++ message_of p.complete) _
            ∙ ap (λ m. m ++ messages (on_datagrams (later clock) p.state bufs).events)
                (messages-warn_all p.warnings (message_of p.complete))
            ∙ ap (λ l. messages (message_of p.complete) ++ l) rest
            ∙ messages-message_of p.complete _,
      ))
