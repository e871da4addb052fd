-- ===== src/Uadp/Network/Payload.antt =====
-- The payload of a NetworkMessage in lib/uadp-encoder.js: the DataSetMessages with their size
-- array, or the chunk.
pub mod RoundTrip
use node_red_contrib_opcua_s.Prelude.{
  ℕ, ltb, ◌==◌, Bool, true, false, ◌&&◌, if◌then◌else◌, Option, none, some, List, [], ◌∷◌, ◌++◌,
  length, map,
}
use node_red_contrib_opcua_s.Uadp.Result.{Result, Written, ok, err, ◌⨟◌}
use node_red_contrib_opcua_s.Uadp.Stream.{
  Stream, Read, ◌>>=◌, return, read_uint16, read_uint32, read_bytes, read_many, write_uint16,
  write_uint32, write_bytes, write_when, write_many,
}
use node_red_contrib_opcua_s.Uadp.DataSet.{
  DataSetMessage, encode_data_set_message, decode_data_set_message,
}
use node_red_contrib_opcua_s.Uadp.Network.{Chunk}

-- `dsms.map((dsm) => encodeDataSetMessage(dsm))`
abbrev pub cons_to : List ℕ → Result (List (List ℕ)) → Result (List (List ℕ))
cons_to bs (ok l) = ok (bs ∷ l)
cons_to bs (err e) = err e

unfoldable pub encode_all : List DataSetMessage → Result (List (List ℕ))
encode_all [] = ok []
encode_all (dsm ∷ dsms) = elim (encode_data_set_message dsm) [
  | err e ↦ err e
  | ok bs ↦ cons_to bs (encode_all dsms)
]

unfoldable pub concat : List (List ℕ) → List ℕ
concat [] = []
concat (bs ∷ l) = bs ++ concat l

-- The size array stands where there is a payload header and more than one message.
unfoldable pub write_bodies : Bool → List (List ℕ) → Written
write_bodies has_ids bufs =
    write_when (has_ids && ltb 1 (length bufs)) (write_many write_uint16 (map length bufs))
    ⨟ write_bytes (concat bufs)

unfoldable pub write_payload : Bool → List DataSetMessage → Written
write_payload has_ids dsms = elim (encode_all dsms) [
  | err e ↦ err e
  | ok bufs ↦ write_bodies has_ids bufs
]

-- A decode of these bytes alone, in a stream of their own.
unfoldable pub nested : {A : Type 0} → Read A → List ℕ → Read A
nested m bs s = elim (m (record { position = 0; rest = bs })) [
  | err e ↦ err e
  | ok (a, t) ↦ ok (a, s)
]

unfoldable pub read_sized : ℕ → Read DataSetMessage
read_sized size = do bytes ← read_bytes size; nested decode_data_set_message bytes

unfoldable pub read_each : List ℕ → Read (List DataSetMessage)
read_each [] = return []
read_each (size ∷ sizes) =
    read_sized size >>= λ dsm. read_each sizes >>= λ rest. return (dsm ∷ rest)

unfoldable pub read_single : Read (List DataSetMessage)
read_single = decode_data_set_message >>= λ dsm. return (dsm ∷ [])

-- `if (stream.remaining > 0)`
unfoldable pub read_remaining : Read (List DataSetMessage)
read_remaining s = if length s.rest == 0 then ok ([], s) else read_single s

unfoldable pub read_many_sized : ℕ → Read (List DataSetMessage)
read_many_sized count = do sizes ← read_many count read_uint16; read_each sizes

unfoldable pub read_payload : ℕ → Read (List DataSetMessage)
read_payload count = if ltb 1 count then read_many_sized count else read_remaining

-- The chunk payload: sequence number, offset, total size and a byte string.
unfoldable pub write_chunk : Chunk → Written
write_chunk c =
    write_uint16 c.message_sequence_number
    ⨟ write_uint32 c.chunk_offset
    ⨟ write_uint32 c.total_size
    ⨟ write_uint32 (length c.chunk_data)
    ⨟ write_bytes c.chunk_data

unfoldable pub read_chunk : Read Chunk
read_chunk = do
  sequence ← read_uint16
  offset ← read_uint32
  total ← read_uint32
  len ← read_uint32
  bytes ← read_bytes len
  return (record {
    message_sequence_number = sequence;
    chunk_offset = offset;
    total_size = total;
    chunk_data = bytes;
  })
