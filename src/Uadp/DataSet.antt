-- ===== src/Uadp/DataSet.antt =====
-- encodeDataSetMessage and decodeDataSetMessage of lib/uadp-encoder.js.
pub mod Object
pub mod RoundTrip
use node_red_contrib_opcua_s.Prelude.{
  ℕ, zero, suc, ◌*◌, ◌/◌, ◌==◌, Bool, true, false, not, ◌&&◌, ◌||◌, if◌then◌else◌, Option, none,
  some, is_some, List, [], length, bit_and, bit_or,
}
use node_red_contrib_opcua_s.Prelude.Flags.{set_flag, has_flag}
use node_red_contrib_opcua_s.Uadp.Result.{
  Written, ok, err, ◌⨟◌, invalid_field_encoding, invalid_message_type, raw_data_unknown_type,
  raw_data_requires_metadata,
}
use node_red_contrib_opcua_s.Uadp.Stream.{
  Read, ◌>>=◌, return, throw, read_uint8, read_uint16, read_uint32, read_bytes, read_if, read_many,
  write_uint8, write_uint16, write_uint32, write_bytes, write_if, write_when, write_many,
}
use node_red_contrib_opcua_s.Uadp.Text.{Text, utf8, from_utf8}
use node_red_contrib_opcua_s.Uadp.DateTime.{Date, write_date_time, read_date_time}
use node_red_contrib_opcua_s.Uadp.Variant.{
  BuiltIn, Payload, type_number, Variant, write_variant, read_variant, write_variant_scalar,
}
use node_red_contrib_opcua_s.Uadp.DataValue.{DataValue, write_data_value, read_data_value}
use Object.{from_entries}

-- `other_encoding` and `other_type` stand for every name that the tables do not hold.
pub data FieldEncoding : Type 0 where
  variant raw_data data_value other_encoding : FieldEncoding

pub data MessageType : Type 0 where
  keyframe deltaframe event keepalive other_type : MessageType

pub record RawField : Type 0 where
  pub data_type : BuiltIn
  pub value : Payload data_type

-- What a field is, by the encoding that the message asks for.
abbrev pub Field : FieldEncoding → Type 0
Field variant = Option Variant
Field raw_data = RawField
Field data_value = Option DataValue
Field other_encoding = Unit {0}

pub record ConfigurationVersion : Type 0 where
  pub major : Option ℕ
  pub minor : Option ℕ

-- The encoding and the message type are those after the defaults "variant" and "keyframe", `valid`
-- is `valid !== false`. The fields stand in the order of `Object.keys`.
pub record DataSetMessage : Type 0 where
  pub valid : Bool
  pub field_encoding : FieldEncoding
  pub message_type : MessageType
  pub sequence_number : Option ℕ
  pub status : Option ℕ
  pub configuration_version : Option ConfigurationVersion
  pub timestamp : Option Date
  pub picoseconds : Option ℕ
  pub fields : Option (List (Text × Field field_encoding))

-- FIELD_ENCODING_BITS and MESSAGE_TYPE_BITS.
unfoldable pub encoding_bits : FieldEncoding → Option ℕ
encoding_bits variant = some 0
encoding_bits raw_data = some 1
encoding_bits data_value = some 2
encoding_bits other_encoding = none

unfoldable pub message_bits : MessageType → Option ℕ
message_bits keyframe = some 0
message_bits deltaframe = some 1
message_bits event = some 2
message_bits keepalive = some 3
message_bits other_type = none

-- FIELD_ENCODING_NAME and MESSAGE_TYPE_NAME, with the defaults of the decoder.
unfoldable pub encoding_name : ℕ → FieldEncoding
encoding_name n = if n == 1 then raw_data else if n == 2 then data_value else variant

unfoldable pub message_name : ℕ → MessageType
message_name n =
    if n == 1 then deltaframe else if n == 2 then event else if n == 3 then keepalive else keyframe

unfoldable pub flags2_of : ℕ → (time pico : Bool) → ℕ
flags2_of bits time pico = set_flag (pico && time) 0x20 (set_flag time 0x10 (bit_and bits 0x0f))

unfoldable pub flags1_of : ℕ → (valid seq status major minor flags2 : Bool) → ℕ
flags1_of bits valid seq status major minor flags2 = set_flag flags2 0x80 (
    set_flag minor 0x40 (
      set_flag major 0x20 (
        set_flag status 0x10
          (set_flag seq 0x08 (bit_or (if valid then 0x01 else 0x00) (bit_and bits 0x03 * 2))))))

-- `configurationVersion?.major` and `configurationVersion?.minor`
abbrev pub major_of : Option ConfigurationVersion → Option ℕ
major_of none = none
major_of (some v) = v.major

abbrev pub minor_of : Option ConfigurationVersion → Option ℕ
minor_of none = none
minor_of (some v) = v.minor

unfoldable pub flags2 : ℕ → DataSetMessage → ℕ
flags2 bits dsm = flags2_of bits (is_some dsm.timestamp) (is_some dsm.picoseconds)

unfoldable pub flags1 : ℕ → ℕ → DataSetMessage → ℕ
flags1 bits f2 dsm =
    flags1_of bits dsm.valid (is_some dsm.sequence_number) (is_some dsm.status)
      (is_some (major_of dsm.configuration_version)) (is_some (minor_of dsm.configuration_version))
      (not (f2 == 0))

unfoldable pub write_field : (e : FieldEncoding) → Field e → Written
write_field variant f = write_variant f
write_field data_value f = write_data_value f
write_field raw_data f =
    if type_number f.data_type == 0
    then err raw_data_unknown_type
    else write_variant_scalar f.data_type f.value
write_field other_encoding f = ok []

unfoldable pub write_named_field : (e : FieldEncoding) → Text × Field e → Written
write_named_field e (name, f) =
    write_uint16 (length (utf8 name)) ⨟ write_bytes (utf8 name) ⨟ write_field e f

-- `dsm.fields || {}`
abbrev pub or_empty {ℓ} : {A : Type ℓ} → Option (List A) → List A
or_empty none = []
or_empty (some l) = l

unfoldable pub write_fields : (e : FieldEncoding) → MessageType → List (Text × Field e) → Written
write_fields e keepalive l = ok []
write_fields e _ l = write_uint16 (length l) ⨟ write_many (write_named_field e) l

unfoldable pub write_data_set : ℕ → ℕ → DataSetMessage → Written
write_data_set f1 f2 dsm =
    write_uint8 f1
    ⨟ write_when (has_flag f1 0x80) (write_uint8 f2)
    ⨟ write_if (has_flag f1 0x08) write_uint16 dsm.sequence_number
    ⨟ write_if (has_flag f1 0x10) write_uint16 dsm.status
    ⨟ write_if (has_flag f1 0x20) write_uint32 (major_of dsm.configuration_version)
    ⨟ write_if (has_flag f1 0x40) write_uint32 (minor_of dsm.configuration_version)
    ⨟ write_if (has_flag f2 0x10) write_date_time dsm.timestamp
    ⨟ write_if (has_flag f2 0x20) write_uint16 dsm.picoseconds
    ⨟ write_fields dsm.field_encoding dsm.message_type (or_empty dsm.fields)

unfoldable pub encode_data_set_message : DataSetMessage → Written
encode_data_set_message dsm = elim (encoding_bits dsm.field_encoding) [
  | none ↦ err invalid_field_encoding
  | some e ↦ elim (message_bits dsm.message_type) [
    | none ↦ err invalid_message_type
    | some m ↦ write_data_set (flags1 e (flags2 m dsm) dsm) (flags2 m dsm) dsm
  ]
]

unfoldable pub read_field : (e : FieldEncoding) → Read (Field e)
read_field variant = read_variant
read_field data_value = read_data_value >>= λ dv. return (some dv)
read_field raw_data = throw raw_data_requires_metadata
read_field other_encoding = return tt

unfoldable pub read_named_field : (e : FieldEncoding) → Read (Text × Field e)
read_named_field e = do
  name_len ← read_uint16
  name ← read_bytes name_len
  f ← read_field e
  return (from_utf8 name, f)

-- The loop that sets `dsm.fields[name]`; a keep-alive has no fields.
unfoldable pub read_fields :
    (e : FieldEncoding) → MessageType → Read (Option (List (Text × Field e)))
read_fields e keepalive = return none
read_fields e _ = do
  count ← read_uint16
  entries ← read_many count (read_named_field e)
  return (some (from_entries entries))

-- `configurationVersion` is set where one of its two flags is.
abbrev pub version_of : (either : Bool) → Option ℕ → Option ℕ → Option ConfigurationVersion
version_of true major minor = some (record { major = major; minor = minor })
version_of false major minor = none

-- RawData is refused once the header is read.
unfoldable pub refuse_raw_data : FieldEncoding → Read (Unit {0})
refuse_raw_data raw_data = throw raw_data_requires_metadata
refuse_raw_data _ = return tt

unfoldable pub read_data_set :
    (valid : Bool) (e : FieldEncoding) (m : MessageType)
    → (seq status major minor time pico : Bool) → Read DataSetMessage
read_data_set valid e m seq status major minor time pico = do
  sequence ← read_if seq read_uint16
  state ← read_if status read_uint16
  major_v ← read_if major read_uint32
  minor_v ← read_if minor read_uint32
  date ← read_if time read_date_time
  ps ← read_if pico read_uint16
  raw ← refuse_raw_data e
  fs ← read_fields e m
  return (record {
    valid = valid;
    field_encoding = e;
    message_type = m;
    sequence_number = sequence;
    status = state;
    configuration_version = version_of (major || minor) major_v minor_v;
    timestamp = date;
    picoseconds = ps;
    fields = fs;
  })

unfoldable pub read_flagged : ℕ → ℕ → Read DataSetMessage
read_flagged f1 f2 =
    read_data_set (has_flag f1 0x01) (encoding_name (bit_and (f1 / 2) 0x03))
      (message_name (bit_and f2 0x0f)) (has_flag f1 0x08) (has_flag f1 0x10) (has_flag f1 0x20)
      (has_flag f1 0x40) (has_flag f2 0x10) (has_flag f2 0x20)

-- `c ? stream.readUInt8() : 0x00`
unfoldable pub read_flags_if : Bool → Read ℕ
read_flags_if true = read_uint8
read_flags_if false = return 0

unfoldable pub decode_data_set_message : Read DataSetMessage
decode_data_set_message = do
  f1 ← read_uint8
  f2 ← read_flags_if (has_flag f1 0x80)
  read_flagged f1 f2
