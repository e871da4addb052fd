-- ===== src/Subscriber/Tests.antt =====
-- Subscribers of nodes/opcua-subscriber.js that get a message in several buffers.
use node_red_contrib_opcua_s.Prelude.{ℕ, ◌+◌, [], ◌∷◌, Option, some, none, ◌≡◌, ◌↔◌, refl, arith}
use node_red_contrib_opcua_s.Prelude.Int.{pos}
use node_red_contrib_opcua_s.Uadp.DateTime.{Date}
use node_red_contrib_opcua_s.Uadp.Text.{Text}
use node_red_contrib_opcua_s.Uadp.Network.Codec.RoundTrip.{received}
use node_red_contrib_opcua_s.Reassembler.{new_reassembler}
use node_red_contrib_opcua_s.Reassembler.Key.{show_id, show_int, show_nat, digits}
use node_red_contrib_opcua_s.Connection.{TransportType, udp, mqtt}
use node_red_contrib_opcua_s.Udp.{on_datagrams, messages}
use node_red_contrib_opcua_s.Udp.Sample.{
  seconds, datagrams_in_time, readings, long_message, long_bytes, datagrams, long_message-Fits,
  long_encoded, long_chunked,
}
use node_red_contrib_opcua_s.Subscriber.{
  Config, sent, output_of, handle_one, on_messages, own_reassembler,
}
use node_red_contrib_opcua_s.Subscriber.Filter.{IsAccepted, handle_one-IsAccepted}
use node_red_contrib_opcua_s.Subscriber.EndToEnd.{
  AreAccepted, all_sent, without_warnings, on_messages-encode_network_message,
  on_messages-on_datagrams,
}

-- The publisher 300, and its writer 7.
abbrev reading : TransportType → Config
reading t = record {
  reader = record {
    publisher_id = some (b'3' ∷ b'0' ∷ b'0' ∷ []);
    writer_group_id = none;
    data_set_writer_id = some (some 7);
  };
  expected_version = none;
  transport_type = t;
}

abbrev now : Date
now = pos 5

abbrev dates : ℕ → Date
dates i = pos (i + 5)

abbrev topic : Option Text
topic = some (b't' ∷ [])

readings_accepted :
    (t : TransportType) → AreAccepted (reading t) (received long_message) (7 ∷ []) (readings ∷ [])
unfolding show_id show_int show_nat digits
readings_accepted t = (record { publisher = refl; group = tt; writer = refl; version = tt }, tt)

handle_one-IsAccepted_example :
    (handle_one (reading udp) now none (received long_message) (some 7) readings
      ≡ sent (output_of (reading udp) now none (received long_message) (some 7) readings) ∷ [])
    ↔ IsAccepted (reading udp) (received long_message) (some 7) readings
handle_one-IsAccepted_example =
    handle_one-IsAccepted (reading udp) now none (received long_message) (some 7) readings

mqtt_example :
    ((on_messages (reading mqtt) seconds dates topic (own_reassembler mqtt) datagrams).state
      ≡ own_reassembler mqtt)
    × (without_warnings
          (on_messages (reading mqtt) seconds dates topic (own_reassembler mqtt) datagrams).events
        ≡ all_sent (reading mqtt) (dates 4) topic (received long_message) (7 ∷ []) (readings ∷ []))
mqtt_example =
    on_messages-encode_network_message (reading mqtt) seconds dates topic 45 long_message long_bytes
      datagrams long_message-Fits long_encoded (ground arith) long_chunked datagrams_in_time
      (readings_accepted mqtt)

udp_example :
    (on_messages
      (reading udp)
      seconds
      dates
      none
      (own_reassembler udp)
      (messages (on_datagrams seconds (new_reassembler 1000) datagrams).events)).events
    ≡ all_sent (reading udp) (dates 0) none (received long_message) (7 ∷ []) (readings ∷ [])
udp_example =
    on_messages-on_datagrams (reading udp) 1000 seconds dates 45 long_message long_bytes datagrams
      long_message-Fits long_encoded (ground arith) long_chunked datagrams_in_time
      (readings_accepted udp)
