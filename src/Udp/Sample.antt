-- ===== src/Udp/Sample.antt =====
-- A message that is longer than the MTU, and its buffers.
use node_red_contrib_opcua_s.Prelude.{
  ℕ, ◌+◌, ◌*◌, length, ◌≡◌, refl, subst, some, none, List, [], ◌∷◌, true, false, inl, arith,
}
use node_red_contrib_opcua_s.Prelude.Int.{pos, wrap}
use node_red_contrib_opcua_s.Reassembler.InOrder.{AreInTime}
use node_red_contrib_opcua_s.Uadp.DataSet.Object.{same_text, proto}
use node_red_contrib_opcua_s.Uadp.Result.{ok, ◌⨟◌}
use node_red_contrib_opcua_s.Uadp.Bytes.{le_bytes}
use node_red_contrib_opcua_s.Uadp.Stream.{
  write_uint, write_unsigned, write_int, write_if, write_many,
}
use node_red_contrib_opcua_s.Uadp.Text.{utf8, encode_char}
use node_red_contrib_opcua_s.Uadp.Variant.{
  byte, array, type_number, write_variant_scalar, encoding_byte, write_value, write_variant,
}
use node_red_contrib_opcua_s.Uadp.DataSet.{
  DataSetMessage, variant, keyframe, encoding_bits, message_bits, flags1_of, flags2_of, flags1,
  flags2, write_field, write_named_field, write_fields, write_data_set, encode_data_set_message,
}
use node_red_contrib_opcua_s.Uadp.DataSet.RoundTrip.{FitsDataSet}
use node_red_contrib_opcua_s.Uadp.Network.{
  number, NetworkMessage, publisher_id_type_bits, id_bits, ext1_of, ext1_with, uadp_of,
  extended_flags1, extended_flags2, uadp_flags,
}
use node_red_contrib_opcua_s.Uadp.Network.Header.{
  write_publisher_id, write_payload_header, write_header_fields, write_header,
}
use node_red_contrib_opcua_s.Uadp.Network.Header.RoundTrip.{FitsId}
use node_red_contrib_opcua_s.Uadp.Network.Payload.{
  encode_all, concat, write_bodies, write_payload, write_chunk,
}
use node_red_contrib_opcua_s.Uadp.Network.Codec.{
  refuse_promoted, write_network, encode_whole, encode_network_message, write_chunk_message,
  encode_chunk_network_message, encode_chunked, encode_chunks, sequence_of, chunked, split_from,
  split_into_chunks,
}
use node_red_contrib_opcua_s.Uadp.Network.Codec.RoundTrip.{FitsHeader, FitsNetwork}

abbrev pub readings : DataSetMessage
readings = record {
  valid = true;
  field_encoding = variant;
  message_type = keyframe;
  sequence_number = none;
  status = none;
  configuration_version = none;
  timestamp = none;
  picoseconds = none;
  fields = some (
      (
        b'A' ∷ [],
        some (record {
          data_type = byte;
          value = array (
              pos 0
              ∷ pos 1
              ∷ pos 2
              ∷ pos 3
              ∷ pos 4
              ∷ pos 5
              ∷ pos 6
              ∷ pos 7
              ∷ pos 8
              ∷ pos 9
              ∷ pos 10
              ∷ pos 11
              ∷ pos 12
              ∷ pos 13
              ∷ pos 14
              ∷ pos 15
              ∷ pos 16
              ∷ pos 17
              ∷ pos 18
              ∷ pos 19
              ∷ pos 20
              ∷ pos 21
              ∷ pos 22
              ∷ pos 23
              ∷ pos 24
              ∷ pos 25
              ∷ pos 26
              ∷ pos 27
              ∷ []);
          dimensions = none;
        }),
      )
      ∷ []);
}

readings_own : same_text (b'A' ∷ []) proto ≡ false
unfolding same_text
readings_own = refl

readings-Fits : FitsDataSet readings
readings-Fits = record {
  not_raw = λ h. absurd (cc h);
  version_fits = tt;
  pico_has_time = refl;
  fields_fit = (
    ((
      (
        ((ground arith, inl (ground arith)), tt),
        (
          tt,
          (
            tt,
            (
              tt,
              (
                tt,
                (
                  tt,
                  (
                    tt,
                    (
                      tt,
                      (
                        tt,
                        (
                          tt,
                          (
                            tt,
                            (
                              tt,
                              (
                                tt,
                                (
                                  tt,
                                  (
                                    tt,
                                    (
                                      tt,
                                      (
                                        tt,
                                        (
                                          tt,
                                          (
                                            tt,
                                            (
                                              tt,
                                              (
                                                tt,
                                                (
                                                  tt,
                                                  (
                                                    tt,
                                                    (tt, (tt, (tt, (tt, (tt, (tt, (tt, tt))))))),
                                                  ),
                                                ),
                                              ),
                                            ),
                                          ),
                                        ),
                                      ),
                                    ),
                                  ),
                                ),
                              ),
                            ),
                          ),
                        ),
                      ),
                    ),
                  ),
                ),
              ),
            ),
          ),
          refl,
        ),
      ),
      tt,
    )),
    (readings_own, tt, tt),
  );
}

abbrev pub long_message : NetworkMessage
long_message = record {
  publisher_id = some (number (pos 300));
  data_set_class_id = none;
  group_header = none;
  payload_header = some (7 ∷ []);
  timestamp = none;
  picoseconds = none;
  promoted_fields = false;
  chunk = none;
  payload = readings ∷ [];
}

long_message-FitsHeader : FitsHeader long_message
long_message-FitsHeader = record {
  id_fits = λ id h. subst FitsId {x = number (pos 300)} {y = id} (cc h) tt;
  class_fits = λ s h. absurd (cc h);
  class_set = refl;
  ids_set = refl;
  pico_has_time = refl;
}

pub long_message-Fits : FitsNetwork long_message
long_message-Fits = record {
  header_fits = long_message-FitsHeader;
  no_promoted = refl;
  no_chunk = refl;
  payload_fits = (ground arith, (readings-Fits, tt));
}

abbrev pub long_bytes : List ℕ
long_bytes =
    209 ∷ 1 ∷ 44 ∷ 1 ∷ 1 ∷ 7 ∷ 0 ∷ 1 ∷ 1 ∷ 0 ∷ 1 ∷ 0 ∷ 65 ∷ 67 ∷ 28 ∷ 0 ∷ 0 ∷ 0 ∷ 0 ∷ 1 ∷ 2 ∷ 3 ∷ 4
    ∷ 5 ∷ 6 ∷ 7 ∷ 8 ∷ 9 ∷ 10 ∷ 11 ∷ 12 ∷ 13 ∷ 14 ∷ 15 ∷ 16 ∷ 17 ∷ 18 ∷ 19 ∷ 20 ∷ 21 ∷ 22 ∷ 23 ∷ 24
    ∷ 25 ∷ 26 ∷ 27 ∷ []

abbrev pub datagrams : List (List ℕ)
datagrams =
    (209 ∷ 129 ∷ 1 ∷ 44 ∷ 1 ∷ 1 ∷ 7 ∷ 0 ∷ 0 ∷ 0 ∷ 0 ∷ 0 ∷ 0 ∷ 0 ∷ 46 ∷ 0 ∷ 0 ∷ 0 ∷ 11 ∷ 0 ∷ 0 ∷ 0
      ∷ 209 ∷ 1 ∷ 44 ∷ 1 ∷ 1 ∷ 7 ∷ 0 ∷ 1 ∷ 1 ∷ 0 ∷ 1 ∷ [])
    ∷ (209 ∷ 129 ∷ 1 ∷ 44 ∷ 1 ∷ 1 ∷ 7 ∷ 0 ∷ 0 ∷ 0 ∷ 11 ∷ 0 ∷ 0 ∷ 0 ∷ 46 ∷ 0 ∷ 0 ∷ 0 ∷ 11 ∷ 0 ∷ 0 ∷ 0
        ∷ 0 ∷ 65 ∷ 67 ∷ 28 ∷ 0 ∷ 0 ∷ 0 ∷ 0 ∷ 1 ∷ 2 ∷ 3 ∷ [])
    ∷ (209 ∷ 129 ∷ 1 ∷ 44 ∷ 1 ∷ 1 ∷ 7 ∷ 0 ∷ 0 ∷ 0 ∷ 22 ∷ 0 ∷ 0 ∷ 0 ∷ 46 ∷ 0 ∷ 0 ∷ 0 ∷ 11 ∷ 0 ∷ 0 ∷ 0
        ∷ 4 ∷ 5 ∷ 6 ∷ 7 ∷ 8 ∷ 9 ∷ 10 ∷ 11 ∷ 12 ∷ 13 ∷ 14 ∷ [])
    ∷ (209 ∷ 129 ∷ 1 ∷ 44 ∷ 1 ∷ 1 ∷ 7 ∷ 0 ∷ 0 ∷ 0 ∷ 33 ∷ 0 ∷ 0 ∷ 0 ∷ 46 ∷ 0 ∷ 0 ∷ 0 ∷ 11 ∷ 0 ∷ 0 ∷ 0
        ∷ 15 ∷ 16 ∷ 17 ∷ 18 ∷ 19 ∷ 20 ∷ 21 ∷ 22 ∷ 23 ∷ 24 ∷ 25 ∷ [])
    ∷ (209 ∷ 129 ∷ 1 ∷ 44 ∷ 1 ∷ 1 ∷ 7 ∷ 0 ∷ 0 ∷ 0 ∷ 44 ∷ 0 ∷ 0 ∷ 0 ∷ 46 ∷ 0 ∷ 0 ∷ 0 ∷ 2 ∷ 0 ∷ 0 ∷ 0
        ∷ 26 ∷ 27 ∷ [])
    ∷ []

pub long_encoded : encode_whole long_message ≡ ok long_bytes
unfolding ◌⨟◌ le_bytes write_uint write_unsigned wrap write_int write_many type_number encoding_byte
    write_variant_scalar write_value write_variant utf8 encode_char write_if encoding_bits
    message_bits flags1_of flags2_of flags1 flags2 write_field write_named_field write_fields
    write_data_set encode_data_set_message id_bits publisher_id_type_bits ext1_of ext1_with uadp_of
    extended_flags1 extended_flags2 uadp_flags write_publisher_id write_payload_header
    write_header_fields write_header refuse_promoted write_network encode_whole encode_all concat
    write_bodies write_payload
long_encoded = refl

pub long_chunked : encode_network_message 45 long_message ≡ ok (chunked datagrams)
unfolding ◌⨟◌ le_bytes write_uint write_unsigned wrap write_int write_many type_number encoding_byte
    write_variant_scalar write_value write_variant utf8 encode_char write_if encoding_bits
    message_bits flags1_of flags2_of flags1 flags2 write_field write_named_field write_fields
    write_data_set encode_data_set_message id_bits publisher_id_type_bits ext1_of ext1_with uadp_of
    extended_flags1 extended_flags2 uadp_flags write_publisher_id write_payload_header
    write_header_fields write_header refuse_promoted write_network encode_whole encode_all concat
    write_bodies write_payload encode_network_message encode_chunked encode_chunks sequence_of
    split_into_chunks split_from write_chunk write_chunk_message encode_chunk_network_message
long_chunked = refl

-- One datagram after each second.
abbrev pub seconds : ℕ → ℕ
seconds i = 7 + 1000 * i

pub datagrams_in_time : AreInTime seconds (length datagrams)
datagrams_in_time i lt = omega (arith, lt)
