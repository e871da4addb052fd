-- ===== src/Udp/Tests.antt =====
-- Datagrams of a message that is longer than the MTU.
use node_red_contrib_opcua_s.Prelude.{All, ◌≡◌, [], ◌∷◌, arith}
use node_red_contrib_opcua_s.Uadp.Result.{ok}
use node_red_contrib_opcua_s.Uadp.Network.Codec.{decode_network_message}
use node_red_contrib_opcua_s.Uadp.Network.Codec.RoundTrip.{received}
use node_red_contrib_opcua_s.Reassembler.{new_reassembler}
use node_red_contrib_opcua_s.Udp.{on_datagrams, messages}
use node_red_contrib_opcua_s.Udp.Mtu.{IsWithin, encode_network_message-IsWithin}
use node_red_contrib_opcua_s.Udp.EndToEnd.{on_datagrams-encode_network_message}
use node_red_contrib_opcua_s.Udp.Sample.{
  seconds, datagrams_in_time, long_message, long_bytes, datagrams, long_message-Fits, long_encoded,
  long_chunked,
}

datagrams_example :
    ((on_datagrams seconds (new_reassembler 1000) datagrams).state ≡ new_reassembler 1000)
    × (messages (on_datagrams seconds (new_reassembler 1000) datagrams).events ≡ long_bytes ∷ [])
    × (decode_network_message long_bytes ≡ ok (received long_message))
datagrams_example =
    on_datagrams-encode_network_message 1000 seconds 45 long_message long_bytes datagrams
      long_message-Fits long_encoded (ground arith) long_chunked datagrams_in_time

datagram_sizes_example : All (IsWithin 45) datagrams
datagram_sizes_example = encode_network_message-IsWithin 45 long_message datagrams long_chunked
