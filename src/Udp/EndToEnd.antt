-- ===== src/Udp/EndToEnd.antt =====
-- A message from encodeNetworkMessage through chunks and datagrams to decodeNetworkMessage.
use node_red_contrib_opcua_s.Prelude.{
  ℕ, suc, ◌-◌, ◌≤◌, ◌<◌, ltb, Bool, true, false, ◌&&◌, if◌then◌else◌, List, [], ◌∷◌, length, All,
  ◌≡◌, refl, sym, ap, subst, ◌∙◌, arith, inl, inr,
}
use node_red_contrib_opcua_s.Uadp.Result.{Error, Result, ok, err, Result-cases}
use node_red_contrib_opcua_s.Uadp.Network.{Chunk, NetworkMessage}
use node_red_contrib_opcua_s.Uadp.Network.Codec.{
  encode_whole, encode_network_message, encode_chunk_network_message, encode_chunked, encode_chunks,
  decode_network_message, split_into_chunks, chunk_payload_overhead, probe, sequence_of, writer_of,
  cons_chunk, Encoded, whole, chunked, is_filled_payload,
}
use node_red_contrib_opcua_s.Uadp.Network.Codec.RoundTrip.{
  FitsNetwork, received, RoundTrip-whole, decode-RoundTrip,
}
use node_red_contrib_opcua_s.Uadp.Network.Codec.Split.{
  IsSplit, IsTiled, IsPiece, split_into_chunks-IsSplit,
}
use node_red_contrib_opcua_s.Reassembler.{new_reassembler}
use node_red_contrib_opcua_s.Reassembler.InOrder.{
  split_room, deliver, with_last, AreInTime, deliver-split_into_chunks,
}
use node_red_contrib_opcua_s.Udp.{on_datagrams, messages}
use node_red_contrib_opcua_s.Udp.Delivery.{
  handed, handed-with_last, AreBuffers, key_for, on_datagrams-deliver,
}

cons_chunk-inverse :
    (b : List ℕ) (r : Result Encoded) (bufs : List (List ℕ))
    → cons_chunk b r ≡ ok (chunked bufs)
    → (l : List (List ℕ)) × (r ≡ ok (chunked l)) × (b ∷ l ≡ bufs)
cons_chunk-inverse b (ok (chunked l)) bufs h = (l, refl, cc h)
cons_chunk-inverse b (ok (whole l)) bufs h = absurd (cc h)
cons_chunk-inverse b (err e) bufs h = absurd (cc h)

encode_chunks-AreBuffers :
    (nm : NetworkMessage) (writer_id : ℕ) (cs : List Chunk) (bufs : List (List ℕ))
    → encode_chunks nm writer_id cs ≡ ok (chunked bufs)
    → AreBuffers nm writer_id cs bufs
unfolding encode_chunks
encode_chunks-AreBuffers nm writer_id [] bufs h =
    subst (AreBuffers nm writer_id []) {x = []} {y = bufs} (cc h) tt
encode_chunks-AreBuffers nm writer_id (c ∷ cs) bufs h =
    elim (Result-cases (encode_chunk_network_message nm c writer_id)) [
      | inl (b, e) ↦
          let (l, rest, same) = cons_chunk-inverse b _ bufs (sym (goes b e) ∙ h) in
          subst (AreBuffers nm writer_id (c ∷ cs)) same
            (e, encode_chunks-AreBuffers nm writer_id cs l rest)
      | inr (x, e) ↦ absurd (cc (sym (fails x e) ∙ h))
    ]
  where
    goes :
        (b : List ℕ)
        → encode_chunk_network_message nm c writer_id ≡ ok b
        → encode_chunks nm writer_id (c ∷ cs) ≡ cons_chunk b (encode_chunks nm writer_id cs)
    goes b e = rw (e, encode_chunks) refl

    fails :
        (x : Error)
        → encode_chunk_network_message nm c writer_id ≡ err x
        → encode_chunks nm writer_id (c ∷ cs) ≡ err x
    fails x e = rw (e, encode_chunks) refl

-- How a chunked answer comes about.
pub record IsChunking (nm : NetworkMessage) (mtu : ℕ) (full : List ℕ) (bufs : List (List ℕ))
    : Type 0 where
  pub header : List ℕ
  pub measured :
      encode_chunk_network_message nm
        (probe (sequence_of nm.group_header) (length full))
        (writer_of nm.payload_header)
      ≡ ok header
  pub pieces : List Chunk
  pub split : split_into_chunks (sequence_of nm.group_header) full mtu (length header) ≡ ok pieces
  pub buffers : AreBuffers nm (writer_of nm.payload_header) pieces bufs

encode_chunked-IsChunking :
    (nm : NetworkMessage) (mtu : ℕ) (full : List ℕ) (bufs : List (List ℕ))
    → encode_chunked nm mtu full ≡ ok (chunked bufs)
    → IsChunking nm mtu full bufs
unfolding encode_chunked
encode_chunked-IsChunking nm mtu full bufs h =
    elim (Result-cases (
      encode_chunk_network_message nm (probe (sequence_of nm.group_header) (length full))
        (writer_of nm.payload_header))) [
          | inl (header, e) ↦
              elim (Result-cases
                (split_into_chunks (sequence_of nm.group_header) full mtu (length header))) [
                  | inl (cs, p) ↦
                      let go : encode_chunked nm mtu full
                          ≡ encode_chunks nm (writer_of nm.payload_header) cs =
                        rw (e, encode_chunked, p) refl in
                      record {
                        header = header;
                        measured = e;
                        pieces = cs;
                        split = p;
                        buffers =
                            encode_chunks-AreBuffers nm (writer_of nm.payload_header) cs bufs
                              (sym go ∙ h);
                      }
                  | inr (x, p) ↦
                      let go : encode_chunked nm mtu full ≡ err x =
                        rw (e, encode_chunked, p) refl in
                      absurd (cc (sym go ∙ h))
                ]
          | inr (x, e) ↦
              let go : encode_chunked nm mtu full ≡ err x = rw (e, encode_chunked) refl in
              absurd (cc (sym go ∙ h))
        ]

unchunked :
    (split : Bool) (r : Result Encoded) (full : List ℕ) (bufs : List (List ℕ))
    → (if split then r else ok (whole full)) ≡ ok (chunked bufs)
    → (split ≡ true) × (r ≡ ok (chunked bufs))
unchunked true r full bufs h = (refl, h)
unchunked false r full bufs h = absurd (cc h)

pub encode_network_message-chunked :
    (mtu : ℕ) (nm : NetworkMessage) (bufs : List (List ℕ))
    → encode_network_message mtu nm ≡ ok (chunked bufs)
    → (full : List ℕ) × (encode_whole nm ≡ ok full)
      × ((mtu < length full) × IsChunking nm mtu full bufs)
unfolding encode_network_message
encode_network_message-chunked mtu nm bufs h = elim (Result-cases (encode_whole nm)) [
  | inl (full, e) ↦
      let go : encode_network_message mtu nm ≡ (
          if ltb mtu (length full) && is_filled_payload nm.payload
          then encode_chunked nm mtu full
          else ok (whole full)) =
        rw (e, encode_network_message) refl in
      let (long, r) = unchunked _ _ full bufs (sym go ∙ h) in
      (
        full,
        e,
        (
          exceeds (length full) (is_filled_payload nm.payload) long,
          encode_chunked-IsChunking nm mtu full bufs r,
        ),
      )
  | inr (x, e) ↦
      let go : encode_network_message mtu nm ≡ err x = rw (e, encode_network_message) refl in
      absurd (cc (sym go ∙ h))
]
  where
    exceeds : (size : ℕ) (filled : Bool) → (ltb mtu size && filled) ≡ true → mtu < size
    exceeds size filled h = ground arith

-- The pieces of a chunked answer, pushed in their order into an empty reassembler, make it hand out
-- the message once, with the last of them.
pub record IsCollected (limit : ℕ) (clock : ℕ → ℕ) (nm : NetworkMessage) (full : List ℕ)
    (bufs : List (List ℕ)) : Type 0 where
  pub pieces : List Chunk
  pub size : ℕ
  pub all_pieces : All (IsPiece (sequence_of nm.group_header) size) pieces
  pub buffers : AreBuffers nm (writer_of nm.payload_header) pieces bufs
  pub same_count : length pieces ≡ length bufs
  pub once : handed (with_last pieces full) ≡ full ∷ []
  pub collected :
      deliver clock
        (new_reassembler limit)
        (key_for nm (writer_of nm.payload_header) (sequence_of nm.group_header))
        pieces
      ≡ (new_reassembler limit, with_last pieces full)

AreBuffers-length :
    (nm : NetworkMessage) (writer_id : ℕ) (cs : List Chunk) (bufs : List (List ℕ))
    → AreBuffers nm writer_id cs bufs
    → length cs ≡ length bufs
AreBuffers-length nm writer_id [] [] h = refl
AreBuffers-length nm writer_id [] (b ∷ bufs) h = absurd h
AreBuffers-length nm writer_id (c ∷ cs) [] h = absurd h
AreBuffers-length nm writer_id (c ∷ cs) (b ∷ bufs) (e, h) =
    ap suc (AreBuffers-length nm writer_id cs bufs h)

IsChunking-IsCollected :
    (limit : ℕ) (clock : ℕ → ℕ) (nm : NetworkMessage) (mtu : ℕ) (full : List ℕ)
    (bufs : List (List ℕ))
    → 0 < length full
    → length full ≤ limit
    → AreInTime clock (length bufs)
    → IsChunking nm mtu full bufs
    → IsCollected limit clock nm full bufs
IsChunking-IsCollected limit clock nm mtu full bufs pos_full small in_time g =
    let seq = sequence_of nm.group_header in
    let key = key_for nm (writer_of nm.payload_header) seq in
    let room = split_room seq full mtu (length g.header) g.pieces g.split in
    let (ds, q, is_split) = split_into_chunks-IsSplit seq full mtu (length g.header) room in
    let same : ds ≡ g.pieces = cc (sym q ∙ g.split) in
    let split =
      subst (IsSplit seq (mtu - (length g.header) - chunk_payload_overhead) full 0 (length full))
        same is_split in
    let count = AreBuffers-length nm (writer_of nm.payload_header) g.pieces bufs g.buffers in
    record {
      pieces = g.pieces;
      size = mtu - (length g.header) - chunk_payload_overhead;
      all_pieces = split.pieces;
      buffers = g.buffers;
      same_count = count;
      once = once g.pieces split.tiled;
      collected =
          deliver-split_into_chunks limit clock key seq full mtu (length g.header) g.pieces pos_full
            small g.split (subst (AreInTime clock) (sym count) in_time);
    }
  where
    once : (cs : List Chunk) → IsTiled (length full) 0 cs → handed (with_last cs full) ≡ full ∷ []
    once [] h = absurd (omega (arith, h))
    once (c ∷ cs) h = handed-with_last c cs full

-- What encodeNetworkMessage splits is collected again.
pub encode_network_message-IsCollected :
    (limit : ℕ) (clock : ℕ → ℕ) (mtu : ℕ) (nm : NetworkMessage) (full : List ℕ)
    (bufs : List (List ℕ))
    → encode_whole nm ≡ ok full
    → length full ≤ limit
    → encode_network_message mtu nm ≡ ok (chunked bufs)
    → AreInTime clock (length bufs)
    → IsCollected limit clock nm full bufs
encode_network_message-IsCollected limit clock mtu nm full bufs e small h in_time =
    let (other, e2, (long, g)) = encode_network_message-chunked mtu nm bufs h in
    let same : other ≡ full = cc (sym e2 ∙ e) in
    let here = subst (λ l. IsChunking nm mtu l bufs) same g in
    let pos_full : 0 < length full = omega (arith, long, ap length same) in
    IsChunking-IsCollected limit clock nm mtu full bufs pos_full small in_time here

-- A message that FitsNetwork, and that encodeNetworkMessage splits into chunk messages: received as
-- datagrams in their order, none more than 30 seconds behind the first, from an empty reassembler
-- whose cap the encoded message fits, they make the transport emit just one message, the encoded one,
-- which is decoded to what was sent (the parts left out of its group header as 0), and leave the
-- reassembler empty.
pub on_datagrams-encode_network_message :
    (limit : ℕ) (clock : ℕ → ℕ) (mtu : ℕ) (nm : NetworkMessage) (full : List ℕ)
    (bufs : List (List ℕ))
    → FitsNetwork nm
    → encode_whole nm ≡ ok full
    → length full ≤ limit
    → encode_network_message mtu nm ≡ ok (chunked bufs)
    → AreInTime clock (length bufs)
    → ((on_datagrams clock (new_reassembler limit) bufs).state ≡ new_reassembler limit)
      × (messages (on_datagrams clock (new_reassembler limit) bufs).events ≡ full ∷ [])
      × (decode_network_message full ≡ ok (received nm))
on_datagrams-encode_network_message limit clock mtu nm full bufs fits e small h in_time =
    let g = encode_network_message-IsCollected limit clock mtu nm full bufs e small h in_time in
    let d =
      on_datagrams-deliver clock (new_reassembler limit) nm (writer_of nm.payload_header)
        (sequence_of nm.group_header) g.size g.pieces bufs fits.header_fits g.all_pieces
        g.buffers in
    (
      d.0 ∙ ap (λ p. p.0) g.collected,
      d.1 ∙ ap (λ p. handed p.1) g.collected ∙ g.once,
      decode-RoundTrip _ (received nm) full (RoundTrip-whole nm fits) e,
    )
