-- ===== src/Subscriber.antt =====
-- nodes/opcua-subscriber.js behind its setup, with the UADP encoding: the filter, the check of the
-- configuration version, what it makes of a field, and the listener with the reassembler that it has
-- over MQTT. A decoded DataSetMessage has no writer id of its own. The status callback and the texts
-- of errors are left out.
pub mod Filter
pub mod EndToEnd
mod Tests
use node_red_contrib_opcua_s.Prelude.{
  later, ℕ, suc, zero, ◌*◌, ◌==◌, Bool, true, false, not, ◌&&◌, ◌||◌, if◌then◌else◌, Option, none,
  some, is_some, List, [], ◌∷◌, ◌++◌, map,
}
use node_red_contrib_opcua_s.Uadp.Result.{Error, Result, ok, err}
use node_red_contrib_opcua_s.Uadp.Text.{Text}
use node_red_contrib_opcua_s.Uadp.DateTime.{Date}
use node_red_contrib_opcua_s.Uadp.Variant.{BuiltIn, Variant}
use node_red_contrib_opcua_s.Uadp.Variant
use node_red_contrib_opcua_s.Uadp.DataValue.{DataValue}
use node_red_contrib_opcua_s.Uadp.DataSet.{
  FieldEncoding, variant, raw_data, data_value, other_encoding, RawField, Field,
  ConfigurationVersion, DataSetMessage, or_empty,
}
use node_red_contrib_opcua_s.Uadp.DataSet.Object.{same_text}
use node_red_contrib_opcua_s.Uadp.Network.{PublisherId, GroupHeader, Chunk, NetworkMessage}
use node_red_contrib_opcua_s.Uadp.Network.Codec.{decode_network_message}
use node_red_contrib_opcua_s.Reassembler.{Reassembler, Warning, Pushed, push, new_reassembler}
use node_red_contrib_opcua_s.Reassembler.Key.{key_of, show_id}
use node_red_contrib_opcua_s.Connection.{TransportType, udp, mqtt, unknown}

-- MQTT_MAX_REASSEMBLED_SIZE
abbrev pub mqtt_max_reassembled_size : ℕ
mqtt_max_reassembled_size = 16 * 1024 * 1024

-- The filter: `none` is a member that is not set, `some none` a number that no id equals. The
-- publisher id is `String(reader.publisherId)`.
pub record Reader : Type 0 where
  pub publisher_id : Option Text
  pub writer_group_id : Option (Option ℕ)
  pub data_set_writer_id : Option (Option ℕ)

-- A number that no version equals is `none`.
pub record ExpectedVersion : Type 0 where
  pub major : Option ℕ
  pub minor : Option ℕ

pub record Config : Type 0 where
  pub reader : Reader
  pub expected_version : Option ExpectedVersion
  pub transport_type : TransportType

-- What `unwrap` returns: null, the value of a Variant, or the wrapper itself.
pub data Unwrapped : Type 0 where
  nothing : Unwrapped
  plain : (t : BuiltIn) → Variant.Value t → Unwrapped
  wrapped : DataValue → Unwrapped

abbrev pub plain_of : Option Variant → Unwrapped
plain_of none = nothing
plain_of (some v) = plain v.data_type v.value

abbrev pub unwrap_value : DataValue → Option (Option Variant) → Unwrapped
unwrap_value dv none = wrapped dv
unwrap_value dv (some v) = plain_of v

-- The decoder returns no field of the last two encodings.
unfoldable pub unwrap : (e : FieldEncoding) → Field e → Unwrapped
unwrap variant v = plain_of v
unwrap data_value none = nothing
unwrap data_value (some dv) = unwrap_value dv dv.value
unwrap raw_data f = nothing
unwrap other_encoding f = nothing

-- The message that the node sends. An undefined member is `none`.
pub record Output : Type 0 where
  pub payload : List (Text × Unwrapped)
  pub publisher_id : Option PublisherId
  pub writer_group_id : Option ℕ
  pub data_set_writer_id : Option ℕ
  pub sequence_number : Option ℕ
  pub timestamp : Date
  pub status_code : ℕ
  pub topic : Option Text

-- send(), the two error() calls, and the warnings of the reassembler.
pub data Event : Type 0 where
  sent : Output → Event
  version_mismatch : ConfigurationVersion → Event
  decode_error : Error → Event
  warned : Warning → Event

abbrev pub group_id : Option GroupHeader → Option ℕ
group_id none = none
group_id (some g) = some g.writer_group_id

abbrev pub group_sequence : Option GroupHeader → Option ℕ
group_sequence none = none
group_sequence (some g) = g.sequence_number

-- `a === b` of a number and a member that may be undefined.
unfoldable pub same_number : Option ℕ → Option ℕ → Bool
same_number (some a) (some b) = a == b
same_number _ _ = false

unfoldable pub passes : Option (Option ℕ) → Option ℕ → Bool
passes none got = true
passes (some want) got = same_number want got

unfoldable pub passes_publisher : Option Text → Option PublisherId → Bool
passes_publisher none id = true
passes_publisher (some want) id = same_text want (show_id id)

unfoldable pub is_wanted : Reader → NetworkMessage → Option ℕ → Bool
is_wanted r nm id =
    passes_publisher r.publisher_id nm.publisher_id
    && (passes r.writer_group_id (group_id nm.group_header) && passes r.data_set_writer_id id)

unfoldable pub is_version : ExpectedVersion → ConfigurationVersion → Bool
is_version want got = same_number want.major got.major && same_number want.minor got.minor

-- The version that does not fit, if the check finds one.
unfoldable pub wrong_version :
    Option ExpectedVersion → Option ConfigurationVersion → Option ConfigurationVersion
wrong_version (some want) (some got) = if is_version want got then none else some got
wrong_version _ _ = none

abbrev pub first_of {ℓ} : {A : Type ℓ} → Option A → Option A → Option A
first_of (some a) b = some a
first_of none b = b

abbrev pub or_else {ℓ} : {A : Type ℓ} → Option A → A → A
or_else (some a) b = a
or_else none b = b

abbrev pub topic_of : TransportType → Option Text → Option Text
topic_of mqtt topic = topic
topic_of _ topic = none

unfoldable pub unwrap_fields : (e : FieldEncoding) → List (Text × Field e) → List (Text × Unwrapped)
unwrap_fields e [] = []
unwrap_fields e ((name, f) ∷ fields) = (name, unwrap e f) ∷ unwrap_fields e fields

unfoldable pub output_of :
    Config → Date → Option Text → NetworkMessage → Option ℕ → DataSetMessage → Output
output_of cfg now topic nm id dsm = record {
  payload = unwrap_fields dsm.field_encoding (or_empty dsm.fields);
  publisher_id = nm.publisher_id;
  writer_group_id = group_id nm.group_header;
  data_set_writer_id = id;
  sequence_number = first_of (group_sequence nm.group_header) dsm.sequence_number;
  timestamp = or_else (first_of dsm.timestamp nm.timestamp) now;
  status_code = or_else dsm.status 0;
  topic = topic_of cfg.transport_type topic;
}

-- One DataSetMessage: skipped without a word, an error, or sent.
unfoldable pub handle_one :
    Config → Date → Option Text → NetworkMessage → Option ℕ → DataSetMessage → List Event
handle_one cfg now topic nm id dsm =
    if is_wanted cfg.reader nm id
    then (elim (wrong_version cfg.expected_version dsm.configuration_version) [
      | some got ↦ version_mismatch got ∷ []
      | none ↦ sent (output_of cfg now topic nm id dsm) ∷ []
    ])
    else []

-- `writerIds[i]`, with the rest.
abbrev pub next_id : List ℕ → Option ℕ × List ℕ
next_id [] = (none, [])
next_id (id ∷ ids) = (some id, ids)

unfoldable pub handle_all :
    Config → Date → Option Text → NetworkMessage → List ℕ → List DataSetMessage → List Event
handle_all cfg now topic nm ids [] = []
handle_all cfg now topic nm ids (dsm ∷ dsms) =
    handle_one cfg now topic nm (next_id ids).0 dsm
    ++ handle_all cfg now topic nm (next_id ids).1 dsms

unfoldable pub handle_network_message : Config → Date → Option Text → NetworkMessage → List Event
handle_network_message cfg now topic nm =
    handle_all cfg now topic nm (or_empty nm.payload_header) nm.payload

-- The reassembler of the node: none over UDP.
abbrev pub own_reassembler : TransportType → Option Reassembler
own_reassembler udp = none
own_reassembler _ = some (new_reassembler mqtt_max_reassembled_size)

pub record Handled : Type 0 where
  pub state : Option Reassembler
  pub events : List Event

unfoldable pub handle_decoded : Config → Date → Option Text → Result NetworkMessage → List Event
handle_decoded cfg now topic (err e) = decode_error e ∷ []
handle_decoded cfg now topic (ok nm) = handle_network_message cfg now topic nm

abbrev pub warn_all : List Warning → List Event
warn_all [] = []
warn_all (w ∷ ws) = warned w ∷ warn_all ws

-- A message that is complete is decoded again.
unfoldable pub handle_complete : Config → Date → Option Text → Option (List ℕ) → List Event
handle_complete cfg now topic none = []
handle_complete cfg now topic (some bytes) =
    handle_decoded cfg now topic (decode_network_message bytes)

unfoldable pub on_chunk :
    Config → ℕ → Date → Option Text → Option Reassembler → NetworkMessage → Chunk → Handled
on_chunk cfg clock now topic none nm c = record { state = none; events = [] }
on_chunk cfg clock now topic (some r) nm c =
    let p = push clock r (key_of nm c) c in
    record {
      state = some p.state;
      events = warn_all p.warnings ++ handle_complete cfg now topic p.complete;
    }

unfoldable pub on_decoded :
    Config → ℕ → Date → Option Text → Option Reassembler → Result NetworkMessage → Handled
on_decoded cfg clock now topic r (err e) = record { state = r; events = decode_error e ∷ [] }
on_decoded cfg clock now topic r (ok nm) = elim nm.chunk [
  | none ↦ record { state = r; events = handle_network_message cfg now topic nm }
  | some c ↦ on_chunk cfg clock now topic r nm c
]

-- The listener; `clock` is the time of the reassembler, `now` a new Date.
unfoldable pub on_message : Config → ℕ → Date → Option Text → Option Reassembler → List ℕ → Handled
on_message cfg clock now topic r buffer =
    on_decoded cfg clock now topic r (decode_network_message buffer)

-- One buffer after the other, each at its time.
unfoldable pub on_messages :
    Config → (ℕ → ℕ) → (ℕ → Date) → Option Text → Option Reassembler → List (List ℕ) → Handled
on_messages cfg clock now topic r [] = record { state = r; events = [] }
on_messages cfg clock now topic r (b ∷ bs) =
    let first = on_message cfg (clock 0) (now 0) topic r b in
    let rest = on_messages cfg (later clock) (later now) topic first.state bs in
    record { state = rest.state; events = first.events ++ rest.events }
