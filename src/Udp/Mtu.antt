-- ===== src/Udp/Mtu.antt =====
-- The datagrams of a split message against the MTU that encodeNetworkMessage was given.
use node_red_contrib_opcua_s.Prelude.{
  ℕ, ◌+◌, ◌-◌, ◌≤◌, ◌<◌, List, [], ◌∷◌, length, ◌≡◌, sym, subst, ◌∙◌, arith, All,
}
use node_red_contrib_opcua_s.Uadp.Result.{ok}
use node_red_contrib_opcua_s.Uadp.Network.{Chunk, NetworkMessage}
use node_red_contrib_opcua_s.Uadp.Network.Codec.{
  encode_network_message, encode_chunk_network_message, chunk_payload_overhead, probe, sequence_of,
  writer_of, chunked,
}
use node_red_contrib_opcua_s.Uadp.Network.Codec.Size.{length-encode_chunk}
use node_red_contrib_opcua_s.Uadp.Network.Codec.Split.{IsPiece, IsSplit, split_into_chunks-IsSplit}
use node_red_contrib_opcua_s.Udp.Delivery.{AreBuffers}
use node_red_contrib_opcua_s.Reassembler.InOrder.{split_room}
use node_red_contrib_opcua_s.Udp.EndToEnd.{encode_network_message-chunked}

-- A buffer that leaves 12 bytes of the MTU.
abbrev pub IsWithin : ℕ → List ℕ → Type 0
IsWithin mtu buf = length buf + chunk_payload_overhead ≤ mtu

buffers-IsWithin :
    (nm : NetworkMessage) (writer_id sequence mtu total : ℕ) (header : List ℕ) (cs : List Chunk)
    (bufs : List (List ℕ))
    → encode_chunk_network_message nm (probe sequence total) writer_id ≡ ok header
    → length header + chunk_payload_overhead < mtu
    → All (IsPiece sequence (mtu - length header - chunk_payload_overhead)) cs
    → AreBuffers nm writer_id cs bufs
    → All (IsWithin mtu) bufs
buffers-IsWithin nm writer_id sequence mtu total header [] [] m room pieces h = tt
buffers-IsWithin nm writer_id sequence mtu total header [] (buf ∷ bufs) m room pieces h = absurd h
buffers-IsWithin nm writer_id sequence mtu total header (c ∷ cs) [] m room pieces h = absurd h
buffers-IsWithin nm writer_id sequence mtu total header (c ∷ cs) (buf ∷ bufs) m room (piece, pieces)
      (h, hs) =
    (
      omega (
        arith,
        room,
        piece.1,
        length-encode_chunk nm c (probe sequence total) writer_id buf header h m,
      ),
      buffers-IsWithin nm writer_id sequence mtu total header cs bufs m room pieces hs,
    )

-- Whatever message encodeNetworkMessage splits, each buffer that it returns is within the MTU, and by
-- 12 bytes or more.
pub encode_network_message-IsWithin :
    (mtu : ℕ) (nm : NetworkMessage) (bufs : List (List ℕ))
    → encode_network_message mtu nm ≡ ok (chunked bufs)
    → All (IsWithin mtu) bufs
encode_network_message-IsWithin mtu nm bufs h =
    let (full, e, (long, g)) = encode_network_message-chunked mtu nm bufs h in
    let seq = sequence_of nm.group_header in
    let room = split_room seq full mtu (length g.header) g.pieces g.split in
    let (cs, q, is_split) = split_into_chunks-IsSplit seq full mtu (length g.header) room in
    let same : cs ≡ g.pieces = cc (sym q ∙ g.split) in
    let split =
      subst (IsSplit seq (mtu - length g.header - chunk_payload_overhead) full 0 (length full)) same
        is_split in
    buffers-IsWithin nm (writer_of nm.payload_header) seq mtu (length full) g.header g.pieces bufs
      g.measured room split.pieces g.buffers
