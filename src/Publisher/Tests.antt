-- ===== src/Publisher/Tests.antt =====
-- A publisher of nodes/opcua-publisher.js with two writers, in use.
use node_red_contrib_opcua_s.Prelude.{
  ℕ, Bool, true, false, if◌then◌else◌, ltb, Option, none, some, List, [], ◌∷◌, map, All, ◌≡◌, refl,
}
use node_red_contrib_opcua_s.Prelude.Int.{pos}
use node_red_contrib_opcua_s.Uadp.DateTime.{Date}
use node_red_contrib_opcua_s.Uadp.Network.{number}
use node_red_contrib_opcua_s.Connection.{connected, reconnecting}
use node_red_contrib_opcua_s.Publisher.Json.{
  boolean, bigint, Members, no_members, member, stringify, print_members, print_member,
  is_unprinted, enclose, comma_separated, quote_chars, quote_char,
}
use node_red_contrib_opcua_s.Publisher.{
  Config, Message, Publisher, new_publisher, status, ticked, received, run,
}
use node_red_contrib_opcua_s.Publisher.Emit.{all_taken}
use node_red_contrib_opcua_s.Publisher.Sequence.{AreOf, inputs, message_number, run-numbers_from}
use node_red_contrib_opcua_s.Publisher.Fit.{IsFit, run-IsFit}
use node_red_contrib_opcua_s.Publisher.Cyclic.{IsKeepalive, run_lost}
use node_red_contrib_opcua_s.Publisher.Stuck.{run_stuck}

abbrev two_writers : Bool → Config
two_writers cyclic = record {
  publisher_id = some (number (pos 7));
  writer_group_id = 100;
  max_network_message_size = 1400;
  writers =
      record {
        data_set_writer_id = 1;
        fields = ((b'a' ∷ []), (b'B' ∷ [])) ∷ [];
        configuration_version = record { major = some 1; minor = some 0 };
      }
      ∷ record {
        data_set_writer_id = 2;
        fields = ((b'b' ∷ []), (b'B' ∷ [])) ∷ [];
        configuration_version = record { major = some 1; minor = some 0 };
      }
      ∷ [];
  cyclic = cyclic;
}

abbrev now : Date
now = pos 1000

-- `{ a: true }` and `{ a: 5n }`
abbrev values : Members
values = member (b'a' ∷ []) (boolean true) no_members

abbrev big_values : Members
big_values = member (b'a' ∷ []) (bigint (b'5' ∷ [])) no_members

-- An encoder of one byte, which throws on a number above 65534, and a transport that takes it.
abbrev encode_byte : ℕ → Message → Option (List (List ℕ))
encode_byte mtu m =
    if ltb 65534 m.sequence_number then none else some ((m.sequence_number ∷ []) ∷ [])

abbrev take_all : List (List ℕ) → Bool
take_all bytes = true

abbrev rolling : Publisher
rolling = record new_publisher { connected = true; nm_seq = 65534 }

numbers_example :
    (ms : List Message) × AreOf
      (two_writers false)
      65535
      ((now, values) ∷ (now, values) ∷ (now, values) ∷ [])
      ms
    × (map message_number ms ≡ 65535 ∷ 0 ∷ 1 ∷ [])
    × ((run encode_byte take_all
          (two_writers false)
          (inputs ((now, values) ∷ (now, values) ∷ (now, values) ∷ []))
          rolling).1
        ≡ all_taken encode_byte take_all (two_writers false) ms)
numbers_example =
    run-numbers_from encode_byte take_all (two_writers false)
      ((now, values) ∷ (now, values) ∷ (now, values) ∷ []) rolling refl refl

run-IsFit_example :
    All
      (IsFit (two_writers true))
      (run encode_byte take_all
        (two_writers true)
        (status connected
          ∷ received now values
          ∷ ticked now
          ∷ ticked now
          ∷ status reconnecting
          ∷ [])
        new_publisher).1
run-IsFit_example =
    run-IsFit encode_byte take_all (two_writers true)
      (status connected ∷ received now values ∷ ticked now ∷ ticked now ∷ status reconnecting ∷ [])

abbrev with_values : Members → Publisher
with_values ms = record new_publisher { latest_values = ms }

lost_example :
    All IsKeepalive
      (run encode_byte take_all
        (two_writers true)
        (ticked now ∷ ticked now ∷ status connected ∷ ticked now ∷ [])
        (with_values values)).1
unfolding stringify print_members print_member is_unprinted enclose comma_separated quote_chars
    quote_char
lost_example =
    run_lost encode_byte take_all (two_writers true) now now (status connected ∷ ticked now ∷ [])
      (with_values values) _ refl refl refl refl (tt, (tt, tt))

stuck_example :
    (run encode_byte take_all
      (two_writers true)
      (map ticked (now ∷ now ∷ []))
      (with_values big_values)).1
    ≡ []
unfolding stringify print_members print_member is_unprinted enclose
stuck_example =
    run_stuck encode_byte take_all (two_writers true) (now ∷ now ∷ []) (with_values big_values) refl
      refl

abbrev online : Publisher
online = record new_publisher { latest_values = values; connected = true }
