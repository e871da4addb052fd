-- ===== src/Uadp/Tests.antt =====
-- Runs of lib/uadp-encoder.js on small values.
use node_red_contrib_opcua_s.Prelude.{
  ◌<◌, ◌≤◌, ◌≡◌, refl, subst, length, Option, some, none, List, [], ◌∷◌, true, false, inl, arith, ℕ,
  zero, suc, ap,
}
use node_red_contrib_opcua_s.Uadp.DataSet.Object.{same_text, proto}
use node_red_contrib_opcua_s.Prelude.Int.{pos, wrap}
use node_red_contrib_opcua_s.Uadp.Result.{ok, ◌⨟◌}
use node_red_contrib_opcua_s.Uadp.Bytes.{le_bytes}
use node_red_contrib_opcua_s.Uadp.Stream.{
  write_uint, write_unsigned, write_int, write_if, write_many,
}
use node_red_contrib_opcua_s.Uadp.Stream.RoundTrip.{at}
use node_red_contrib_opcua_s.Uadp.Stream.Buffer.{
  WriteBuffer, new_buffer, put_all, to_buffer, put_all-to_buffer,
}
use node_red_contrib_opcua_s.Uadp.Text.{Text, utf8, null_length, write_string, encode_char}
use node_red_contrib_opcua_s.Uadp.Guid.{
  split, hex_value, parse_digits, is_space, skip_spaces, skip_sign, skip_0x, parse_int16, from_hex,
  write_parts, write_guid, hex_digit, hex_fixed, to_hex, to_upper, guid_text, read_guid,
}
use node_red_contrib_opcua_s.Uadp.DateTime.{date_ticks, write_date_time}
use node_red_contrib_opcua_s.Uadp.Variant.{
  uint16, status_code, Variant, scalar, array, type_number, write_variant_scalar, encoding_byte,
  write_value, write_variant, read_variant,
}
use node_red_contrib_opcua_s.Uadp.DataValue.{
  DataValue, mask_of, data_value_mask, write_masked, write_status_code, write_data_value,
  read_data_value,
}
use node_red_contrib_opcua_s.Uadp.DataValue.RoundTrip.{FitsDataValue}
use node_red_contrib_opcua_s.Uadp.Variant.RoundTrip.{Fits, FitsVariant}
use node_red_contrib_opcua_s.Uadp.Guid.RoundTrip.{IsGuid}
use node_red_contrib_opcua_s.Uadp.Network.Header.RoundTrip.{FitsId}
use node_red_contrib_opcua_s.Uadp.DataSet.{
  DataSetMessage, variant, keyframe, encoding_bits, message_bits, flags1_of, flags2_of, flags1,
  flags2, write_field, write_named_field, write_fields, write_data_set, encode_data_set_message,
  decode_data_set_message,
}
use node_red_contrib_opcua_s.Uadp.DataSet.RoundTrip.{FitsDataSet}
use node_red_contrib_opcua_s.Uadp.Network.{
  number, NetworkMessage, Chunk, publisher_id_type_bits, id_bits, ext1_of, ext1_with, uadp_of,
  extended_flags1, extended_flags2, uadp_flags,
}
use node_red_contrib_opcua_s.Uadp.Network.Header.{
  write_publisher_id, read_publisher_id, write_payload_header, write_header_fields, write_header,
}
use node_red_contrib_opcua_s.Uadp.Network.Payload.{
  encode_all, concat, write_bodies, write_payload, write_chunk,
}
use node_red_contrib_opcua_s.Uadp.Network.Codec.{
  refuse_promoted, write_network, encode_whole, encode_network_message, decode_network_message,
  write_chunk_message, encode_chunk_network_message, whole, split_into_chunks, default_mtu,
}
use node_red_contrib_opcua_s.Uadp.Network.Codec.RoundTrip.{FitsHeader, FitsNetwork, received_chunk}
use node_red_contrib_opcua_s.Uadp.Network.Codec.Decode.{
  decode-encode_network_message, decode-encode_chunk_network_message,
}
use node_red_contrib_opcua_s.Uadp.Network.Codec.Split.{IsSplit, split_into_chunks-IsSplit}
use node_red_contrib_opcua_s.Uadp.Wire.{
  read_guid-write_guid, read_variant-write_variant, read_data_value-write_data_value,
  decode_data_set_message-encode_data_set_message, read_publisher_id-write_publisher_id,
}

abbrev letter : Text
letter = b'A' ∷ []

abbrev two_numbers : Option Variant
two_numbers =
    some (record { data_type = uint16; value = array (pos 1 ∷ pos 2 ∷ []); dimensions = none })

abbrev seven : Option Variant
seven = some (record { data_type = uint16; value = scalar (pos 7); dimensions = none })

abbrev good_seven : DataValue
good_seven = record {
  value = some seven;
  status_code = some (pos 0);
  source_timestamp = none;
  server_timestamp = none;
  source_picoseconds = none;
  server_picoseconds = none;
}

good_seven-Fits : FitsDataValue good_seven
good_seven-Fits = record {
  not_null = λ h. absurd (cc h);
  value_fits = λ v h. subst FitsVariant {x = seven} {y = v} (cc h) (tt, tt, refl);
  status_fits = λ i h. subst (Fits status_code) {x = pos 0} {y = i} (cc h) (ground arith);
}

abbrev one_field : DataSetMessage
one_field = record {
  valid = true;
  field_encoding = variant;
  message_type = keyframe;
  sequence_number = none;
  status = none;
  configuration_version = none;
  timestamp = none;
  picoseconds = none;
  fields = some ((letter, seven) ∷ []);
}

letter_own : same_text letter proto ≡ false
unfolding same_text
letter_own = refl

one_field-Fits : FitsDataSet one_field
one_field-Fits = record {
  not_raw = λ h. absurd (cc h);
  version_fits = tt;
  pico_has_time = refl;
  fields_fit =
      ((((((ground arith, inl (ground arith)), tt), (tt, tt, refl)), tt)), (letter_own, tt, tt));
}

abbrev one_message : NetworkMessage
one_message = record {
  publisher_id = some (number (pos 300));
  data_set_class_id = none;
  group_header = none;
  payload_header = some (7 ∷ []);
  timestamp = none;
  picoseconds = none;
  promoted_fields = false;
  chunk = none;
  payload = one_field ∷ [];
}

one_message-FitsHeader : FitsHeader one_message
one_message-FitsHeader = record {
  id_fits = λ id h. subst FitsId {x = number (pos 300)} {y = id} (cc h) tt;
  class_fits = λ s h. absurd (cc h);
  class_set = refl;
  ids_set = refl;
  pico_has_time = refl;
}

one_message-Fits : FitsNetwork one_message
one_message-Fits = record {
  header_fits = one_message-FitsHeader;
  no_promoted = refl;
  no_chunk = refl;
  payload_fits = (ground arith, (one_field-Fits, tt));
}

abbrev one_chunk : Chunk
one_chunk = record {
  message_sequence_number = 9;
  chunk_offset = 5;
  total_size = 8;
  chunk_data = 1 ∷ 2 ∷ 3 ∷ [];
}

length-letter : length (utf8 letter) < null_length
unfolding utf8 encode_char
length-letter = ground arith

small-IsGuid : IsGuid 1 2 3 (4 ∷ 5 ∷ []) (6 ∷ 7 ∷ 8 ∷ 9 ∷ 10 ∷ 11 ∷ [])
small-IsGuid = record {
  first = ground arith;
  second = ground arith;
  third = ground arith;
  two = refl;
  six = refl;
  bytes_a = (ground arith, (ground arith, tt));
  bytes_b = (
    ground arith,
    (ground arith, (ground arith, (ground arith, (ground arith, (ground arith, tt))))),
  );
}

string_bytes : write_string (some letter) ≡ ok (1 ∷ 0 ∷ 0 ∷ 0 ∷ 65 ∷ [])
unfolding ◌⨟◌ le_bytes write_uint write_unsigned wrap utf8 encode_char write_string
string_bytes = refl

guid_bytes :
    write_guid (guid_text 1 2 3 (4 ∷ 5 ∷ []) (6 ∷ 7 ∷ 8 ∷ 9 ∷ 10 ∷ 11 ∷ []))
    ≡ ok (1 ∷ 0 ∷ 0 ∷ 0 ∷ 2 ∷ 0 ∷ 3 ∷ 0 ∷ 4 ∷ 5 ∷ 6 ∷ 7 ∷ 8 ∷ 9 ∷ 10 ∷ 11 ∷ [])
unfolding ◌⨟◌ le_bytes write_uint write_unsigned wrap split hex_value parse_digits is_space
    skip_spaces skip_sign skip_0x parse_int16 from_hex write_parts write_guid hex_digit hex_fixed
    to_hex to_upper guid_text
guid_bytes = refl

guid_example :
    read_guid (at 0 (1 ∷ 0 ∷ 0 ∷ 0 ∷ 2 ∷ 0 ∷ 3 ∷ 0 ∷ 4 ∷ 5 ∷ 6 ∷ 7 ∷ 8 ∷ 9 ∷ 10 ∷ 11 ∷ []))
    ≡ ok (guid_text 1 2 3 (4 ∷ 5 ∷ []) (6 ∷ 7 ∷ 8 ∷ 9 ∷ 10 ∷ 11 ∷ []), at 16 [])
guid_example =
    read_guid-write_guid 1 2 3 (4 ∷ 5 ∷ []) (6 ∷ 7 ∷ 8 ∷ 9 ∷ 10 ∷ 11 ∷ []) _ 0 [] small-IsGuid
      guid_bytes

date_bytes : write_date_time (pos 0) ≡ ok (0 ∷ 128 ∷ 62 ∷ 213 ∷ 222 ∷ 177 ∷ 157 ∷ 1 ∷ [])
unfolding ◌⨟◌ le_bytes write_uint write_unsigned wrap date_ticks write_date_time
date_bytes = refl

variant_bytes : write_variant two_numbers ≡ ok (69 ∷ 2 ∷ 0 ∷ 0 ∷ 0 ∷ 1 ∷ 0 ∷ 2 ∷ 0 ∷ [])
unfolding ◌⨟◌ le_bytes write_uint write_unsigned wrap write_int write_many type_number encoding_byte
    write_variant_scalar write_value write_variant
variant_bytes = refl

variant_example :
    read_variant (at 0 (69 ∷ 2 ∷ 0 ∷ 0 ∷ 0 ∷ 1 ∷ 0 ∷ 2 ∷ 0 ∷ [])) ≡ ok (two_numbers, at 9 [])
variant_example =
    read_variant-write_variant two_numbers _ 0 [] (tt, (tt, (tt, tt)), refl) variant_bytes

data_value_bytes : write_data_value (some good_seven) ≡ ok (3 ∷ 5 ∷ 7 ∷ 0 ∷ 0 ∷ 0 ∷ 0 ∷ 0 ∷ [])
unfolding ◌⨟◌ le_bytes write_uint write_unsigned wrap write_int write_many type_number encoding_byte
    write_variant_scalar write_value write_variant write_if mask_of data_value_mask write_masked
    write_status_code write_data_value
data_value_bytes = refl

data_value_example :
    read_data_value (at 0 (3 ∷ 5 ∷ 7 ∷ 0 ∷ 0 ∷ 0 ∷ 0 ∷ 0 ∷ [])) ≡ ok (good_seven, at 8 [])
data_value_example =
    read_data_value-write_data_value good_seven _ 0 [] good_seven-Fits data_value_bytes

data_set_bytes : encode_data_set_message one_field ≡ ok (1 ∷ 1 ∷ 0 ∷ 1 ∷ 0 ∷ 65 ∷ 5 ∷ 7 ∷ 0 ∷ [])
unfolding ◌⨟◌ le_bytes write_uint write_unsigned wrap write_int write_many type_number encoding_byte
    write_variant_scalar write_value write_variant utf8 encode_char write_if encoding_bits
    message_bits flags1_of flags2_of flags1 flags2 write_field write_named_field write_fields
    write_data_set encode_data_set_message
data_set_bytes = refl

data_set_example :
    decode_data_set_message (at 0 (1 ∷ 1 ∷ 0 ∷ 1 ∷ 0 ∷ 65 ∷ 5 ∷ 7 ∷ 0 ∷ []))
    ≡ ok (one_field, at 9 [])
data_set_example =
    decode_data_set_message-encode_data_set_message one_field _ 0 [] one_field-Fits data_set_bytes

id_number : publisher_id_type_bits (number (pos 300)) ≡ ok 1
unfolding publisher_id_type_bits
id_number = refl

id_bytes : write_publisher_id 1 (number (pos 300)) ≡ ok (44 ∷ 1 ∷ [])
unfolding ◌⨟◌ le_bytes write_uint write_unsigned wrap write_publisher_id
id_bytes = refl

id_example : read_publisher_id 1 (at 0 (44 ∷ 1 ∷ [])) ≡ ok (number (pos 300), at 2 [])
id_example = read_publisher_id-write_publisher_id (number (pos 300)) 1 _ 0 [] tt id_number id_bytes

network_bytes :
    encode_network_message default_mtu one_message
    ≡ ok (whole (209 ∷ 1 ∷ 44 ∷ 1 ∷ 1 ∷ 7 ∷ 0 ∷ 1 ∷ 1 ∷ 0 ∷ 1 ∷ 0 ∷ 65 ∷ 5 ∷ 7 ∷ 0 ∷ []))
unfolding ◌⨟◌ le_bytes write_uint write_unsigned wrap write_int write_many type_number encoding_byte
    write_variant_scalar write_value write_variant utf8 encode_char write_if encoding_bits
    message_bits flags1_of flags2_of flags1 flags2 write_field write_named_field write_fields
    write_data_set encode_data_set_message id_bits publisher_id_type_bits ext1_of ext1_with uadp_of
    extended_flags1 extended_flags2 uadp_flags write_publisher_id write_payload_header
    write_header_fields write_header encode_all concat write_bodies write_payload refuse_promoted
    write_network encode_whole encode_network_message
network_bytes = refl

network_example :
    decode_network_message (209 ∷ 1 ∷ 44 ∷ 1 ∷ 1 ∷ 7 ∷ 0 ∷ 1 ∷ 1 ∷ 0 ∷ 1 ∷ 0 ∷ 65 ∷ 5 ∷ 7 ∷ 0 ∷ [])
    ≡ ok one_message
network_example =
    decode-encode_network_message default_mtu one_message _ one_message-Fits network_bytes

chunk_bytes :
    encode_chunk_network_message one_message one_chunk 7
    ≡ ok (
        209 ∷ 129 ∷ 1 ∷ 44 ∷ 1 ∷ 1 ∷ 7 ∷ 0 ∷ 9 ∷ 0 ∷ 5 ∷ 0 ∷ 0 ∷ 0 ∷ 8 ∷ 0 ∷ 0 ∷ 0 ∷ 3 ∷ 0 ∷ 0 ∷ 0
        ∷ 1 ∷ 2 ∷ 3 ∷ [])
unfolding ◌⨟◌ le_bytes write_uint write_unsigned wrap write_int write_many type_number encoding_byte
    write_variant_scalar write_value write_variant utf8 encode_char write_if encoding_bits
    message_bits flags1_of flags2_of flags1 flags2 write_field write_named_field write_fields
    write_data_set encode_data_set_message id_bits publisher_id_type_bits ext1_of ext1_with uadp_of
    extended_flags1 extended_flags2 uadp_flags write_publisher_id write_payload_header
    write_header_fields write_header write_chunk write_chunk_message encode_chunk_network_message
chunk_bytes = refl

chunk_example :
    decode_network_message (
      209 ∷ 129 ∷ 1 ∷ 44 ∷ 1 ∷ 1 ∷ 7 ∷ 0 ∷ 9 ∷ 0 ∷ 5 ∷ 0 ∷ 0 ∷ 0 ∷ 8 ∷ 0 ∷ 0 ∷ 0 ∷ 3 ∷ 0 ∷ 0 ∷ 0 ∷ 1
      ∷ 2 ∷ 3 ∷ [])
    ≡ ok (received_chunk one_message one_chunk 7)
chunk_example =
    decode-encode_chunk_network_message one_message one_chunk 7 _ one_message-FitsHeader chunk_bytes

split_example :
    (cs : List Chunk) × (split_into_chunks 3 (1 ∷ 2 ∷ 3 ∷ []) 22 8 ≡ ok cs)
    × IsSplit 3 2 (1 ∷ 2 ∷ 3 ∷ []) 0 3 cs
split_example = split_into_chunks-IsSplit 3 (1 ∷ 2 ∷ 3 ∷ []) 22 8 (ground arith)

abbrev slab : ℕ → List ℕ
slab zero = []
slab (suc n) = 99 ∷ slab n

slab_sized : (n : ℕ) → length (slab n) ≡ n
slab_sized zero = refl
slab_sized (suc n) = ap suc (slab_sized n)

abbrev four_bytes : WriteBuffer
four_bytes = new_buffer slab 4

abbrev five_written : WriteBuffer
five_written = put_all slab ((1 ∷ 2 ∷ 3 ∷ []) ∷ (4 ∷ 5 ∷ []) ∷ []) four_bytes

buffer_example :
    (five_written.cursor ≤ length five_written.buf)
    × (4 ≤ length five_written.buf)
    × (to_buffer five_written ≡ 1 ∷ 2 ∷ 3 ∷ 4 ∷ 5 ∷ [])
buffer_example =
    put_all-to_buffer slab slab_sized ((1 ∷ 2 ∷ 3 ∷ []) ∷ (4 ∷ 5 ∷ []) ∷ []) four_bytes
      (ground arith)
