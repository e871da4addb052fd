-- ===== src/Uadp/Network/Codec.antt =====
-- encodeNetworkMessage and decodeNetworkMessage of lib/uadp-encoder.js, with _splitIntoChunks and
-- _encodeChunkNetworkMessage.
pub mod RoundTrip
pub mod Decode
pub mod Split
pub mod Size
use node_red_contrib_opcua_s.Prelude.{
  ℕ, zero, suc, ◌+◌, ◌-◌, ◌%◌, ltb, leb, ◌==◌, Bool, true, false, ◌&&◌, not, if◌then◌else◌, Option,
  none, some, is_some, List, [], ◌∷◌, length, take, drop, bit_and, min,
}
use node_red_contrib_opcua_s.Prelude.Flags.{has_flag}
use node_red_contrib_opcua_s.Uadp.Result.{
  Result, Written, ok, err, ◌⨟◌, mtu_too_small, unsupported_version, not_yet_implemented,
}
use node_red_contrib_opcua_s.Uadp.Stream.{
  Read, ◌>>=◌, return, throw, read_uint8, read_uint16, read_if, write_bytes,
}
use node_red_contrib_opcua_s.Uadp.Guid.{read_guid}
use node_red_contrib_opcua_s.Uadp.DateTime.{read_date_time}
use node_red_contrib_opcua_s.Uadp.DataSet.{read_flags_if}
use node_red_contrib_opcua_s.Uadp.Network.{
  GroupHeader, Chunk, NetworkMessage, uadp_version, extended_flags1, extended_flags2, uadp_flags,
}
use node_red_contrib_opcua_s.Uadp.Network.Header.{
  read_publisher_id, read_group_header, read_payload_header, write_header,
}
use node_red_contrib_opcua_s.Uadp.Network.Payload.{
  write_payload, read_payload, write_chunk, read_chunk,
}

-- PromotedFields cannot be written.
unfoldable pub refuse_promoted : (uadp ext1 ext2 : ℕ) → Written
refuse_promoted uadp ext1 ext2 =
    if has_flag uadp 0x80 && (has_flag ext1 0x80 && has_flag ext2 0x02)
    then err not_yet_implemented
    else ok []

unfoldable pub write_network : NetworkMessage → (uadp ext1 ext2 : ℕ) → Written
write_network nm uadp ext1 ext2 =
    write_header nm uadp ext1 ext2
    ⨟ refuse_promoted uadp ext1 ext2
    ⨟ write_payload (has_flag uadp 0x40) nm.payload

-- The whole message in one buffer, whatever its size.
unfoldable pub encode_whole : NetworkMessage → Written
encode_whole nm = elim (extended_flags1 nm (extended_flags2 nm)) [
  | err e ↦ err e
  | ok ext1 ↦ write_network nm (uadp_flags nm ext1) ext1 (extended_flags2 nm)
]

-- The message that carries a piece: the header of the original, one writer id, and the chunk.
abbrev pub chunk_message : NetworkMessage → Chunk → ℕ → NetworkMessage
chunk_message nm c writer_id = record nm {
  payload_header = some (writer_id ∷ []);
  promoted_fields = false;
  chunk = some c;
  payload = [];
}

unfoldable pub write_chunk_message : NetworkMessage → Chunk → (uadp ext1 ext2 : ℕ) → Written
write_chunk_message nm c uadp ext1 ext2 = write_header nm uadp ext1 ext2 ⨟ write_chunk c

unfoldable pub encode_chunk_network_message : NetworkMessage → Chunk → ℕ → Written
encode_chunk_network_message nm c writer_id =
    let m = chunk_message nm c writer_id in
    elim (extended_flags1 m (extended_flags2 m)) [
      | err e ↦ err e
      | ok ext1 ↦ write_chunk_message m c (uadp_flags m ext1) ext1 (extended_flags2 m)
    ]

abbrev pub chunk_payload_overhead : ℕ
chunk_payload_overhead = 12

-- The loop of _splitIntoChunks: `rest` is the payload from `offset` on. A round takes at least one
-- byte, so the length of the payload is fuel enough.
unfoldable pub split_from : ℕ → (max_data sequence total offset : ℕ) → List ℕ → List Chunk
split_from fuel max_data sequence total offset [] = []
split_from zero max_data sequence total offset (b ∷ bs) = []
split_from (suc fuel) max_data sequence total offset (b ∷ bs) =
    let size = min max_data (length (b ∷ bs)) in
    record {
      message_sequence_number = sequence;
      chunk_offset = offset;
      total_size = total;
      chunk_data = take size (b ∷ bs);
    }
    ∷ split_from fuel max_data sequence total (offset + size) (drop size (b ∷ bs))

unfoldable pub split_into_chunks :
    (sequence : ℕ) → List ℕ → (mtu header_overhead : ℕ) → Result (List Chunk)
split_into_chunks sequence full mtu header_overhead =
    if leb mtu (header_overhead + chunk_payload_overhead)
    then err mtu_too_small
    else ok (
        split_from (length full) (mtu - header_overhead - chunk_payload_overhead) sequence
          (length full) 0 full)

pub data Encoded : Type 0 where
  whole : List ℕ → Encoded
  chunked : List (List ℕ) → Encoded

abbrev pub cons_chunk : List ℕ → Result Encoded → Result Encoded
cons_chunk bs (ok (chunked l)) = ok (chunked (bs ∷ l))
cons_chunk bs r = r

unfoldable pub encode_chunks : NetworkMessage → ℕ → List Chunk → Result Encoded
encode_chunks nm writer_id [] = ok (chunked [])
encode_chunks nm writer_id (c ∷ cs) =
    let rest = encode_chunks nm writer_id cs in
    elim (encode_chunk_network_message nm c writer_id) [
      | err e ↦ err e
      | ok bs ↦ cons_chunk bs rest
    ]

-- `groupHeader.sequenceNumber & 0xffff`, or 0.
unfoldable pub sequence_of : Option GroupHeader → ℕ
sequence_of none = 0
sequence_of (some gh) = elim gh.sequence_number [ none ↦ 0 | some n ↦ n % 65536 ]

-- The first writer id, or 0.
abbrev pub writer_of : Option (List ℕ) → ℕ
writer_of (some (i ∷ ids)) = i
writer_of _ = 0

-- A piece with no data, to measure the header.
abbrev pub probe : ℕ → ℕ → Chunk
probe sequence total = record {
  message_sequence_number = sequence;
  chunk_offset = 0;
  total_size = total;
  chunk_data = [];
}

unfoldable pub encode_chunked : NetworkMessage → ℕ → List ℕ → Result Encoded
encode_chunked nm mtu full =
    let sequence = sequence_of nm.group_header in
    let writer_id = writer_of nm.payload_header in
    elim (encode_chunk_network_message nm (probe sequence (length full)) writer_id) [
      | err e ↦ err e
      | ok header ↦ elim (split_into_chunks sequence full mtu (length header)) [
        | err e ↦ err e
        | ok chunks ↦ encode_chunks nm writer_id chunks
      ]
    ]

abbrev pub is_filled_payload {ℓ} : {A : Type ℓ} → List A → Bool
is_filled_payload [] = false
is_filled_payload (x ∷ xs) = true

unfoldable pub encode_network_message : ℕ → NetworkMessage → Result Encoded
encode_network_message mtu nm = elim (encode_whole nm) [
  | err e ↦ err e
  | ok full ↦
      if ltb mtu (length full) && is_filled_payload nm.payload
      then encode_chunked nm mtu full
      else ok (whole full)
]

-- DEFAULT_MTU
abbrev pub default_mtu : ℕ
default_mtu = 1400

-- The body behind the header.
unfoldable pub read_body : (is_chunk : Bool) → (count : ℕ) → NetworkMessage → Read NetworkMessage
read_body true count nm = read_chunk >>= λ c. return (record nm { chunk = some c })
read_body false count nm = read_payload count >>= λ dsms. return (record nm { payload = dsms })

unfoldable pub refuse_promoted_fields : Bool → Read (Unit {0})
refuse_promoted_fields true = throw not_yet_implemented
refuse_promoted_fields false = return tt

abbrev pub count_of : Option (List ℕ) → ℕ
count_of none = 0
count_of (some ids) = length ids

-- The fields that the flags announce, from the publisher id on.
unfoldable pub read_announced :
    (id : Bool) (bits : ℕ) (class group ids time pico promoted is_chunk : Bool)
    → Read NetworkMessage
read_announced id bits class group ids time pico promoted is_chunk = do
  publisher ← read_if id (read_publisher_id bits)
  class_id ← read_if class read_guid
  gh ← read_if group read_group_header
  header ← read_if ids read_payload_header
  date ← read_if time read_date_time
  ps ← read_if pico read_uint16
  none_promoted ← refuse_promoted_fields promoted
  read_body is_chunk (count_of header) (record {
    publisher_id = publisher;
    data_set_class_id = class_id;
    group_header = gh;
    payload_header = header;
    timestamp = date;
    picoseconds = ps;
    promoted_fields = false;
    chunk = none;
    payload = [];
  })

unfoldable pub read_with_flags : (uadp ext1 ext2 : ℕ) → Read NetworkMessage
read_with_flags uadp ext1 ext2 =
    read_announced (has_flag uadp 0x10) (bit_and ext1 0x07) (has_flag ext1 0x08)
      (has_flag uadp 0x20) (has_flag uadp 0x40) (has_flag ext1 0x20) (has_flag ext1 0x40)
      (has_flag ext2 0x02) (has_flag ext2 0x01)

unfoldable pub check_version : ℕ → Read (Unit {0})
check_version version =
    if version == uadp_version then return tt else throw (unsupported_version version)

unfoldable pub read_network_message : Read NetworkMessage
read_network_message = do
  uadp ← read_uint8
  right_version ← check_version (bit_and uadp 0x0f)
  ext1 ← read_flags_if (has_flag uadp 0x80)
  ext2 ← read_flags_if (has_flag ext1 0x80)
  read_with_flags uadp ext1 ext2

abbrev pub answer_of : {A B : Type 0} → Result (A × B) → Result A
answer_of (ok (a, b)) = ok a
answer_of (err e) = err e

-- On a buffer: the message, whatever is left behind it.
unfoldable pub decode_network_message : List ℕ → Result NetworkMessage
decode_network_message bs = answer_of (read_network_message (record { position = 0; rest = bs }))
