-- ===== src/Uadp/Network/Header.antt =====
-- The header fields of a NetworkMessage in lib/uadp-encoder.js: _writePublisherId,
-- _readPublisherId, _writeNetworkMessageHeaderFields, and their part of decodeNetworkMessage.
pub mod RoundTrip
use node_red_contrib_opcua_s.Prelude.{
  ℕ, ◌==◌, Bool, true, false, ◌&&◌, if◌then◌else◌, Option, none, some, is_some, List, [], length,
  bit_and,
}
use node_red_contrib_opcua_s.Prelude.Flags.{has_flag}
use node_red_contrib_opcua_s.Prelude.Int.{ℤ, pos}
use node_red_contrib_opcua_s.Uadp.Result.{Written, ok, ◌⨟◌, invalid_publisher_id_type}
use node_red_contrib_opcua_s.Uadp.Stream.{
  Read, ◌>>=◌, return, throw, read_uint8, read_uint16, read_uint32, read_unsigned, read_if,
  read_many, write_uint8, write_uint16, write_uint32, write_unsigned, write_if, write_when,
  write_many,
}
use node_red_contrib_opcua_s.Uadp.Text.{Text, write_string, read_string}
use node_red_contrib_opcua_s.Uadp.Guid.{write_guid, read_guid}
use node_red_contrib_opcua_s.Uadp.DateTime.{Date, write_date_time, read_date_time}
use node_red_contrib_opcua_s.Uadp.Network.{
  PublisherId, text, big, number, fraction, null_id, other_id, GroupHeader, NetworkMessage,
}

-- The number or the text that the write of an id takes.
abbrev pub id_value : PublisherId → ℤ
id_value (big i) = i
id_value (number i) = i
id_value _ = pos 0

abbrev pub id_text : PublisherId → Option Text
id_text (text s) = some s
id_text _ = none

unfoldable pub write_publisher_id : ℕ → PublisherId → Written
write_publisher_id bits id =
    if bits == 0
    then write_unsigned 1 (id_value id)
    else if bits == 1
    then write_unsigned 2 (id_value id)
    else if bits == 2
    then write_unsigned 4 (id_value id)
    else if bits == 3
    then write_unsigned 8 (id_value id)
    else if bits == 4
    then write_string (id_text id)
    else ok []

abbrev pub id_of_text : Option Text → PublisherId
id_of_text none = null_id
id_of_text (some s) = text s

unfoldable pub read_number : ℕ → Read PublisherId
read_number n = read_unsigned n >>= λ i. return (number i)

unfoldable pub read_big : Read PublisherId
read_big = read_unsigned 8 >>= λ i. return (big i)

unfoldable pub read_text : Read PublisherId
read_text = read_string >>= λ s. return (id_of_text s)

unfoldable pub read_publisher_id : ℕ → Read PublisherId
read_publisher_id bits =
    if bits == 0
    then read_number 1
    else if bits == 1
    then read_number 2
    else if bits == 2
    then read_number 4
    else if bits == 3
    then read_big
    else if bits == 4
    then read_text
    else throw (invalid_publisher_id_type bits)

-- `n || 0`, and `undefined` as an integer write takes it.
abbrev pub or_zero : Option ℕ → ℕ
or_zero none = 0
or_zero (some n) = n

unfoldable pub write_group_header : GroupHeader → Written
write_group_header gh =
    write_uint16 gh.writer_group_id
    ⨟ write_uint32 (or_zero gh.group_version)
    ⨟ write_uint16 (or_zero gh.network_message_number)
    ⨟ write_uint16 (or_zero gh.sequence_number)

unfoldable pub read_group_header : Read GroupHeader
read_group_header = do
  group ← read_uint16
  version ← read_uint32
  message_number ← read_uint16
  sequence ← read_uint16
  return (record {
    writer_group_id = group;
    group_version = some version;
    network_message_number = some message_number;
    sequence_number = some sequence;
  })

unfoldable pub write_payload_header : List ℕ → Written
write_payload_header ids = write_uint8 (length ids) ⨟ write_many write_uint16 ids

unfoldable pub read_payload_header : Read (List ℕ)
read_payload_header = do count ← read_uint8; read_many count read_uint16

-- _writeNetworkMessageHeaderFields
unfoldable pub write_header_fields : NetworkMessage → (uadp ext1 : ℕ) → Written
write_header_fields nm uadp ext1 =
    write_if (has_flag uadp 0x10)
      (write_publisher_id (if has_flag uadp 0x80 then bit_and ext1 0x07 else 0)) nm.publisher_id
    ⨟ write_if (has_flag uadp 0x80 && has_flag ext1 0x08) write_guid nm.data_set_class_id
    ⨟ write_if (has_flag uadp 0x20) write_group_header nm.group_header
    ⨟ write_if (has_flag uadp 0x40) write_payload_header nm.payload_header
    ⨟ write_if (has_flag uadp 0x80 && has_flag ext1 0x20) write_date_time nm.timestamp
    ⨟ write_if (has_flag uadp 0x80 && has_flag ext1 0x40) write_uint16 nm.picoseconds

-- The flag bytes, each announced by the one before it, and the fields.
unfoldable pub write_header : NetworkMessage → (uadp ext1 ext2 : ℕ) → Written
write_header nm uadp ext1 ext2 =
    write_uint8 uadp
    ⨟ write_when (has_flag uadp 0x80) (write_uint8 ext1)
    ⨟ write_when (has_flag uadp 0x80 && has_flag ext1 0x80) (write_uint8 ext2)
    ⨟ write_header_fields nm uadp ext1
