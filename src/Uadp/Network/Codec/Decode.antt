-- ===== src/Uadp/Network/Codec/Decode.antt =====
-- decodeNetworkMessage of lib/uadp-encoder.js on the buffers of encodeNetworkMessage and of
-- _encodeChunkNetworkMessage.
use node_red_contrib_opcua_s.Prelude.{
  ℕ, ltb, ◌&&◌, Bool, true, false, if◌then◌else◌, List, [], ◌∷◌, length, ◌≡◌, refl, sym, subst, ◌∙◌,
  inl, inr,
}
use node_red_contrib_opcua_s.Uadp.Result.{Result, Error, ok, err, Result-cases}
use node_red_contrib_opcua_s.Uadp.Network.{Chunk, NetworkMessage}
use node_red_contrib_opcua_s.Uadp.Network.Codec.{
  encode_whole, encode_chunk_network_message, encode_chunked, encode_chunks, is_filled_payload,
  Encoded, whole, chunked, cons_chunk, split_into_chunks, probe, sequence_of, writer_of,
  encode_network_message, decode_network_message,
}
use node_red_contrib_opcua_s.Uadp.Network.Codec.RoundTrip.{
  FitsHeader, FitsNetwork, received, received_chunk, RoundTrip-whole, RoundTrip-chunk_message,
  decode-RoundTrip,
}

abbrev IsChunked : Result Encoded → Type 0
IsChunked (ok (whole bs)) = ⊥
IsChunked _ = Unit {0}

cons_chunk-IsChunked :
    (bs : List ℕ) (r : Result Encoded) → IsChunked r → IsChunked (cons_chunk bs r)
cons_chunk-IsChunked bs (ok (chunked l)) h = tt
cons_chunk-IsChunked bs (ok (whole l)) h = absurd h
cons_chunk-IsChunked bs (err e) h = tt

encode_chunks-IsChunked :
    (nm : NetworkMessage) (writer_id : ℕ) (cs : List Chunk)
    → IsChunked (encode_chunks nm writer_id cs)
unfolding encode_chunks
encode_chunks-IsChunked nm writer_id [] = tt
encode_chunks-IsChunked nm writer_id (c ∷ cs) =
    elim (Result-cases (encode_chunk_network_message nm c writer_id)) [
      | inl (bs, e) ↦
          rw (e, encode_chunks)
            (cons_chunk-IsChunked bs _ (encode_chunks-IsChunked nm writer_id cs))
      | inr (x, e) ↦ rw (e, encode_chunks) tt
    ]

encode_chunked-IsChunked :
    (nm : NetworkMessage) (mtu : ℕ) (full : List ℕ) → IsChunked (encode_chunked nm mtu full)
unfolding encode_chunked
encode_chunked-IsChunked nm mtu full =
    elim (Result-cases (
      encode_chunk_network_message nm (probe (sequence_of nm.group_header) (length full))
        (writer_of nm.payload_header))) [
          | inl (header, e) ↦
              elim (Result-cases
                (split_into_chunks (sequence_of nm.group_header) full mtu (length header))) [
                  | inl (cs, p) ↦
                      rw (e, encode_chunked, p)
                        (encode_chunks-IsChunked nm (writer_of nm.payload_header) cs)
                  | inr (x, p) ↦ rw (e, encode_chunked, p) tt
                ]
          | inr (x, e) ↦ rw (e, encode_chunked) tt
        ]

unsplit :
    (split : Bool) (r : Result Encoded) (full bs : List ℕ)
    → IsChunked r
    → (if split then r else ok (whole full)) ≡ ok (whole bs)
    → ok full ≡ ok bs
unsplit true r full bs c h = absurd (subst IsChunked h c)
unsplit false r full bs c h = cc

-- A single buffer is what encode_whole leaves.
single :
    (mtu : ℕ) (nm : NetworkMessage) (bs : List ℕ)
    → encode_network_message mtu nm ≡ ok (whole bs)
    → encode_whole nm ≡ ok bs
unfolding encode_network_message
single mtu nm bs h = elim (Result-cases (encode_whole nm)) [
  | inl (full, e) ↦
      e
      ∙ unsplit (ltb mtu (length full) && is_filled_payload nm.payload) (encode_chunked nm mtu full)
          full bs (encode_chunked-IsChunked nm mtu full) (sym (run full e) ∙ h)
  | inr (x, e) ↦ absurd (cc (sym (fails x e) ∙ h))
]
  where
    run :
        (full : List ℕ)
        → encode_whole nm ≡ ok full
        → encode_network_message mtu nm ≡ (
            if ltb mtu (length full) && is_filled_payload nm.payload
            then encode_chunked nm mtu full
            else ok (whole full))
    run full e = rw (e, encode_network_message) refl

    fails : (x : Error) → encode_whole nm ≡ err x → encode_network_message mtu nm ≡ err x
    fails x e = rw (e, encode_network_message) refl

-- A message that FitsNetwork, and that encodeNetworkMessage puts in a single buffer, is read back
-- from that buffer with all its fields, the ones left out of its group header as 0.
pub decode-encode_network_message :
    (mtu : ℕ) (nm : NetworkMessage) (bs : List ℕ)
    → FitsNetwork nm
    → encode_network_message mtu nm ≡ ok (whole bs)
    → decode_network_message bs ≡ ok (received nm)
decode-encode_network_message mtu nm bs f h =
    decode-RoundTrip _ (received nm) bs (RoundTrip-whole nm f) (single mtu nm bs h)

-- A chunk NetworkMessage whose header FitsHeader is read back with its header, its one writer id
-- and its chunk.
pub decode-encode_chunk_network_message :
    (nm : NetworkMessage) (c : Chunk) (writer_id : ℕ) (bs : List ℕ)
    → FitsHeader nm
    → encode_chunk_network_message nm c writer_id ≡ ok bs
    → decode_network_message bs ≡ ok (received_chunk nm c writer_id)
decode-encode_chunk_network_message nm c writer_id bs f h =
    decode-RoundTrip _ (received_chunk nm c writer_id) bs (RoundTrip-chunk_message nm c writer_id f)
      h
