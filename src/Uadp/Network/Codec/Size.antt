-- ===== src/Uadp/Network/Codec/Size.antt =====
-- The size of the chunk messages that encodeNetworkMessage returns, against the MTU.
use node_red_contrib_opcua_s.Prelude.{
  ℕ, ◌+◌, ◌^◌, ltb, Bool, true, false, if◌then◌else◌, List, length, ◌≡◌, refl, sym, ap, ◌∙◌, arith,
  inl, inr, length-append,
}
use node_red_contrib_opcua_s.Uadp.Result.{
  Written, ok, err, ◌⨟◌, ⨟-eq-ok, Result-cases, out_of_range,
}
use node_red_contrib_opcua_s.Uadp.Bytes.{le_bytes, length-le_bytes}
use node_red_contrib_opcua_s.Uadp.Stream.{write_uint}
use node_red_contrib_opcua_s.Uadp.Network.{
  Chunk, NetworkMessage, id_bits, extended_flags1, extended_flags2, uadp_flags, ext1_with,
}
use node_red_contrib_opcua_s.Uadp.Network.Header.{write_header, write_header_fields}
use node_red_contrib_opcua_s.Uadp.Network.Payload.{write_chunk}
use node_red_contrib_opcua_s.Uadp.Network.Codec.{
  chunk_message, write_chunk_message, encode_chunk_network_message, probe,
}

length-write_uint : (n v : ℕ) (bs : List ℕ) → write_uint n v ≡ ok bs → length bs ≡ n
unfolding write_uint
length-write_uint n v bs h = go (ltb v (256 ^ n)) h
  where
    go :
        (fits : Bool)
        → ◌≡◌ {A = Written} (if fits then ok (le_bytes n v) else err out_of_range) (ok bs)
        → length bs ≡ n
    go true e = let same : le_bytes n v ≡ bs = cc e in ap length (sym same) ∙ length-le_bytes n v
    go false e = absurd (cc e)

-- The struct of a piece has 14 bytes before its data.
length-write_chunk :
    (c : Chunk) (bs : List ℕ) → write_chunk c ≡ ok bs → length bs ≡ 14 + length c.chunk_data
unfolding write_chunk
length-write_chunk c bs h =
    let (s1, t1, a1, b1, e1) = ⨟-eq-ok _ _ h in
    let (s2, t2, a2, b2, e2) = ⨟-eq-ok _ _ b1 in
    let (s3, t3, a3, b3, e3) = ⨟-eq-ok _ _ b2 in
    let (s4, t4, a4, b4, e4) = ⨟-eq-ok _ _ b3 in
    let d : c.chunk_data ≡ t4 = cc b4 in
    omega (
      arith,
      ap length e1,
      length-append s1 t1,
      length-write_uint 2 _ s1 a1,
      ap length e2,
      length-append s2 t2,
      length-write_uint 4 _ s2 a2,
      ap length e3,
      length-append s3 t3,
      length-write_uint 4 _ s3 a3,
      ap length e4,
      length-append s4 t4,
      length-write_uint 4 _ s4 a4,
      ap length d,
    )

-- What stands before the struct is the same for all pieces of a message.
before : NetworkMessage → ℕ → Written
before nm writer_id =
    let m = chunk_message nm (probe 0 0) writer_id in
    elim (extended_flags1 m (extended_flags2 m)) [
      | err e ↦ err e
      | ok ext1 ↦ write_header m (uadp_flags m ext1) ext1 (extended_flags2 m)
    ]

encode_chunk-before :
    (nm : NetworkMessage) (c : Chunk) (writer_id : ℕ)
    → encode_chunk_network_message nm c writer_id ≡ (before nm writer_id ⨟ write_chunk c)
unfolding encode_chunk_network_message before extended_flags1 extended_flags2 write_chunk_message
    write_header write_header_fields uadp_flags ext1_with ◌⨟◌
encode_chunk-before nm c writer_id = elim (Result-cases (id_bits nm.publisher_id)) [
  | inl (bits, e) ↦ rw (e, encode_chunk_network_message, before, extended_flags1) refl
  | inr (x, e) ↦ rw (e, encode_chunk_network_message, before, extended_flags1) refl
]

-- Two pieces of a message differ in size by their data.
pub length-encode_chunk :
    (nm : NetworkMessage) (c d : Chunk) (writer_id : ℕ) (bs cs : List ℕ)
    → encode_chunk_network_message nm c writer_id ≡ ok bs
    → encode_chunk_network_message nm d writer_id ≡ ok cs
    → length bs + length d.chunk_data ≡ length cs + length c.chunk_data
length-encode_chunk nm c d writer_id bs cs hb hc =
    let (s1, t1, a1, b1, e1) = ⨟-eq-ok _ _ (sym (encode_chunk-before nm c writer_id) ∙ hb) in
    let (s2, t2, a2, b2, e2) = ⨟-eq-ok _ _ (sym (encode_chunk-before nm d writer_id) ∙ hc) in
    let same : s1 ≡ s2 = cc (sym a1 ∙ a2) in
    omega (
      arith,
      ap length same,
      ap length e1,
      length-append s1 t1,
      length-write_chunk c t1 b1,
      ap length e2,
      length-append s2 t2,
      length-write_chunk d t2 b2,
    )
