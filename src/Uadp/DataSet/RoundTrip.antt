-- ===== src/Uadp/DataSet/RoundTrip.antt =====
-- Lemmas on encodeDataSetMessage and decodeDataSetMessage of lib/uadp-encoder.js.
mod Flags
use node_red_contrib_opcua_s.Prelude.{
  ℕ, zero, suc, ◌*◌, ◌/◌, ◌==◌, Bool, true, false, not, ◌&&◌, ◌||◌, if◌then◌else◌, Option, none,
  some, is_some, List, [], ◌∷◌, ◌++◌, length, bit_and, ◌<◌, arith, inl, inr, Option-cases, ◌≡◌, ◌≢◌,
  refl, sym, ap, subst, ◌∙◌, All,
}
use node_red_contrib_opcua_s.Prelude.Flags.{has_flag}
use node_red_contrib_opcua_s.Uadp.Result.{
  Written, ok, err, ◌⨟◌, invalid_field_encoding, invalid_message_type,
}
use node_red_contrib_opcua_s.Uadp.Stream.{
  Read, ◌>>=◌, return, read_uint16, read_bytes, read_if, read_many, write_uint16, write_bytes,
  write_if, write_when, write_many, write_uint8, write_uint32,
}
use node_red_contrib_opcua_s.Uadp.Stream.RoundTrip.{
  RoundTrip, RoundTrip-bind, RoundTrip-map, RoundTrip-then, RoundTrip-uint, RoundTrip-many,
  RoundTrip-ok, RoundTrip-err, RoundTrip-if, RoundTrip-return, Reads, Reads-bind, Reads-map,
  Reads-return, Reads-bytes,
}
use node_red_contrib_opcua_s.Uadp.Text.{Text, utf8, from_utf8}
use node_red_contrib_opcua_s.Uadp.Text.RoundTrip.{IsScalar, from_utf8-utf8}
use node_red_contrib_opcua_s.Uadp.DateTime.{write_date_time, RoundTrip-date_time}
use node_red_contrib_opcua_s.Uadp.Variant.RoundTrip.{FitsVariant, RoundTrip-variant}
use node_red_contrib_opcua_s.Uadp.DataValue.RoundTrip.{FitsDataValue, RoundTrip-data_value}
use node_red_contrib_opcua_s.Uadp.DataSet.Object.{Distinct, from_entries, from_entries-Distinct}
use node_red_contrib_opcua_s.Uadp.DataSet.{
  flags2_of, flags1_of, FieldEncoding, variant, raw_data, data_value, other_encoding, MessageType,
  keyframe, deltaframe, event, keepalive, other_type, Field, ConfigurationVersion, DataSetMessage,
  encoding_bits, message_bits, encoding_name, message_name, flags1, flags2, major_of, minor_of,
  write_field, write_named_field, or_empty, write_fields, write_data_set, encode_data_set_message,
  read_field, read_named_field, read_fields, version_of, refuse_raw_data, read_data_set,
  read_flagged, read_flags_if, decode_data_set_message,
}
use Flags.{Flags1, Flags2, Flags1-facts, Flags2-facts}

-- A field that can be told from every other. RawData fields cannot be read back, and a null
-- DataValue is read as an empty one.
abbrev pub FitsField : (e : FieldEncoding) → Field e → Type 0
FitsField variant f = FitsVariant f
FitsField data_value none = ⊥
FitsField data_value (some dv) = FitsDataValue dv
FitsField raw_data f = ⊥
FitsField other_encoding f = ⊥

abbrev pub FitsNamed : (e : FieldEncoding) → Text × Field e → Type 0
FitsNamed e (name, f) = All IsScalar name × FitsField e f

-- A keep-alive has no fields; any other message has fields of distinct names.
abbrev pub FitsFields : (e : FieldEncoding) → MessageType → Option (List (Text × Field e)) → Type 0
FitsFields e keepalive none = Unit {0}
FitsFields e keepalive (some l) = ⊥
FitsFields e _ none = ⊥
FitsFields e _ (some l) = All (FitsNamed e) l × Distinct [] l

-- A version has a part.
abbrev pub FitsVersion : Option ConfigurationVersion → Type 0
FitsVersion none = Unit {0}
FitsVersion (some v) = (is_some v.major || is_some v.minor) ≡ true

pub record FitsDataSet (dsm : DataSetMessage) : Type 0 where
  pub not_raw : dsm.field_encoding ≢ raw_data
  pub version_fits : FitsVersion dsm.configuration_version
  pub pico_has_time : (is_some dsm.picoseconds && is_some dsm.timestamp) ≡ is_some dsm.picoseconds
  pub fields_fit : FitsFields dsm.field_encoding dsm.message_type dsm.fields

RoundTrip-field :
    (e : FieldEncoding) (f : Field e) → FitsField e f → RoundTrip (write_field e f) (read_field e) f
unfolding write_field read_field
RoundTrip-field variant f h = RoundTrip-variant f h
RoundTrip-field data_value none h = absurd h
RoundTrip-field data_value (some dv) h = RoundTrip-map some (RoundTrip-data_value dv h)
RoundTrip-field raw_data f h = absurd h
RoundTrip-field other_encoding f h = absurd h

RoundTrip-named :
    (e : FieldEncoding) (x : Text × Field e)
    → FitsNamed e x
    → RoundTrip (write_named_field e x) (read_named_field e) x
unfolding write_named_field read_named_field
RoundTrip-named e (name, f) (hname, hf) = RoundTrip-bind _ (RoundTrip-uint 2 (length (utf8 name))) (
    RoundTrip-bind _ (RoundTrip-ok (Reads-bytes (utf8 name))) (
      subst
        (λ t.
          RoundTrip {A = Text × Field e} (write_field e f)
            (read_field e >>= λ g. return (from_utf8 (utf8 name), g)) (t, f))
        (from_utf8-utf8 name hname)
        (RoundTrip-map (λ g. (from_utf8 (utf8 name), g)) (RoundTrip-field e f hf))))

-- The count, the entries, and the object that they make.
RoundTrip-entries :
    (e : FieldEncoding) (l : List (Text × Field e))
    → All (FitsNamed e) l
    → Distinct [] l
    → RoundTrip
        (write_uint16 (length l) ⨟ write_many (write_named_field e) l)
        (read_uint16 >>= λ count.
          read_many count (read_named_field e) >>= λ entries. return (some (from_entries entries)))
        (some l)
RoundTrip-entries e l fit distinct = RoundTrip-bind _ (RoundTrip-uint 2 (length l)) (
    subst
      (λ m.
        RoundTrip (write_many (write_named_field e) l)
          (read_many (length l) (read_named_field e) >>= λ entries.
            return (some (from_entries entries)))
          (some m))
      (from_entries-Distinct l distinct)
      (RoundTrip-map (λ entries. some (from_entries entries))
        (RoundTrip-many (FitsNamed e) (RoundTrip-named e) l fit)))

RoundTrip-fields :
    (e : FieldEncoding) (m : MessageType) (o : Option (List (Text × Field e)))
    → FitsFields e m o
    → RoundTrip (write_fields e m (or_empty o)) (read_fields e m) o
unfolding write_fields read_fields
RoundTrip-fields e keepalive none h = RoundTrip-return none
RoundTrip-fields e keepalive (some l) h = absurd h
RoundTrip-fields e _ none h = absurd h
RoundTrip-fields e _ (some l) (fit, distinct) = RoundTrip-entries e l fit distinct

version_of-fits :
    (o : Option ConfigurationVersion)
    → FitsVersion o
    → version_of (is_some (major_of o) || is_some (minor_of o)) (major_of o) (minor_of o) ≡ o
version_of-fits none h = refl
version_of-fits (some v) h = rw h

-- Only RawData is refused.
refuse-return : (e : FieldEncoding) → e ≢ raw_data → refuse_raw_data e ≡ return tt
unfolding refuse_raw_data
refuse-return variant h = refl
refuse-return data_value h = refl
refuse-return other_encoding h = refl
refuse-return raw_data h = absurd (h refl)

-- Nothing is written where the reader only checks.
pub RoundTrip-nothing :
    {A B : Type 0} {w : Written} {m : Read A} (x : A) (f : A → Read B) {y : B}
    → m ≡ return x
    → RoundTrip w (f x) y
    → RoundTrip w (m >>= f) y
RoundTrip-nothing x f e r =
    rw e (record { back = λ bs p. Reads-bind f (Reads-return x) (r.back bs p) })

-- The fields, and the message that is put together.
last_part :
    (dsm : DataSetMessage)
    → FitsDataSet dsm
    → RoundTrip
        (write_fields dsm.field_encoding dsm.message_type (or_empty dsm.fields))
        (read_fields dsm.field_encoding dsm.message_type >>= λ fs. return (record dsm {
          configuration_version =
              version_of
                (is_some (major_of dsm.configuration_version)
                  || is_some (minor_of dsm.configuration_version))
                (major_of dsm.configuration_version)
                (minor_of dsm.configuration_version);
          fields = fs;
        }))
        dsm
last_part dsm fits = rw (version_of-fits dsm.configuration_version fits.version_fits) (
    RoundTrip-map (λ fs. record dsm { fields = fs })
      (RoundTrip-fields dsm.field_encoding dsm.message_type dsm.fields fits.fields_fit))

-- The fields behind the flag bytes, for a message with these optional parts.
RoundTrip-rest :
    (dsm : DataSetMessage)
    → FitsDataSet dsm
    → RoundTrip
        (write_if (is_some dsm.sequence_number) write_uint16 dsm.sequence_number
          ⨟ write_if (is_some dsm.status) write_uint16 dsm.status
          ⨟ write_if
              (is_some (major_of dsm.configuration_version))
              write_uint32
              (major_of dsm.configuration_version)
          ⨟ write_if
              (is_some (minor_of dsm.configuration_version))
              write_uint32
              (minor_of dsm.configuration_version)
          ⨟ write_if (is_some dsm.timestamp) write_date_time dsm.timestamp
          ⨟ write_if (is_some dsm.picoseconds) write_uint16 dsm.picoseconds
          ⨟ write_fields dsm.field_encoding dsm.message_type (or_empty dsm.fields))
        (read_data_set dsm.valid dsm.field_encoding dsm.message_type
          (is_some dsm.sequence_number)
          (is_some dsm.status)
          (is_some (major_of dsm.configuration_version))
          (is_some (minor_of dsm.configuration_version))
          (is_some dsm.timestamp)
          (is_some dsm.picoseconds))
        dsm
unfolding read_data_set
RoundTrip-rest dsm fits =
    RoundTrip-bind _ (RoundTrip-if dsm.sequence_number (λ n e. RoundTrip-uint 2 n)) (
      RoundTrip-bind _ (RoundTrip-if dsm.status (λ n e. RoundTrip-uint 2 n)) (
        RoundTrip-bind _
          (RoundTrip-if (major_of dsm.configuration_version) (λ n e. RoundTrip-uint 4 n))
          (RoundTrip-bind _
            (RoundTrip-if (minor_of dsm.configuration_version) (λ n e. RoundTrip-uint 4 n))
            (RoundTrip-bind _ (RoundTrip-if dsm.timestamp (λ d e. RoundTrip-date_time d)) (
              RoundTrip-bind _ (RoundTrip-if dsm.picoseconds (λ n e. RoundTrip-uint 2 n)) (
                RoundTrip-nothing tt _ (refuse-return dsm.field_encoding fits.not_raw)
                  (last_part dsm fits)))))))

-- The second flag byte is left out exactly where it is 0.
pub RoundTrip-flags :
    (c : Bool) (f : ℕ)
    → c ≡ not (f == 0)
    → RoundTrip (write_when c (write_uint8 f)) (read_flags_if c) f
unfolding read_flags_if
RoundTrip-flags true f h = RoundTrip-uint 1 f
RoundTrip-flags false zero h = RoundTrip-return 0
RoundTrip-flags false (suc f) h = absurd (ground arith)

encoding_known :
    (e : FieldEncoding) (n : ℕ) → encoding_bits e ≡ some n → (n < 3) × (encoding_name n ≡ e)
unfolding encoding_bits encoding_name
encoding_known variant n h = ground arith
encoding_known raw_data n h = ground arith
encoding_known data_value n h = ground arith
encoding_known other_encoding n h = cc

message_known : (m : MessageType) (n : ℕ) → message_bits m ≡ some n → (n < 4) × (message_name n ≡ m)
unfolding message_bits message_name
message_known keyframe n h = ground arith
message_known deltaframe n h = ground arith
message_known event n h = ground arith
message_known keepalive n h = ground arith
message_known other_type n h = cc

-- The header flags of a known encoding and message type, and all that they announce.
RoundTrip-known :
    (dsm : DataSetMessage) (e m : ℕ)
    → encoding_bits dsm.field_encoding ≡ some e
    → message_bits dsm.message_type ≡ some m
    → FitsDataSet dsm
    → RoundTrip
        (write_data_set (flags1 e (flags2 m dsm) dsm) (flags2 m dsm) dsm)
        decode_data_set_message
        dsm
unfolding write_data_set decode_data_set_message read_flagged flags1 flags2
RoundTrip-known dsm e m he hm fits =
    let (e_lt, e_name) = encoding_known dsm.field_encoding e he in
    let (m_lt, m_name) = message_known dsm.message_type m hm in
    let f2 = flags2_of m (is_some dsm.timestamp) (is_some dsm.picoseconds) in
    let b = Flags2-facts m (is_some dsm.timestamp) (is_some dsm.picoseconds) m_lt in
    let a =
      Flags1-facts e dsm.valid (is_some dsm.sequence_number) (is_some dsm.status)
        (is_some (major_of dsm.configuration_version))
        (is_some (minor_of dsm.configuration_version)) (not (f2 == 0)) e_lt in
    RoundTrip-bind _ (RoundTrip-uint 1 _) (
      RoundTrip-bind _ (RoundTrip-flags _ f2 a.more_bit) (
        rw
          (
            a.valid_bit, a.encoding_bits, a.seq_bit, a.status_bit, a.major_bit, a.minor_bit,
            b.message_bits, b.time_bit, b.pico_bit, e_name, m_name, fits.pico_has_time,
          )
          (RoundTrip-rest dsm fits)))

-- A DataSetMessage that can be written is read back whole.
pub RoundTrip-data_set :
    (dsm : DataSetMessage)
    → FitsDataSet dsm
    → RoundTrip (encode_data_set_message dsm) decode_data_set_message dsm
unfolding encode_data_set_message
RoundTrip-data_set dsm fits = elim (Option-cases (encoding_bits dsm.field_encoding)) [
  | inl no_encoding ↦
      rw (no_encoding, encode_data_set_message) (RoundTrip-err invalid_field_encoding)
  | inr (e, he) ↦ elim (Option-cases (message_bits dsm.message_type)) [
    | inl no_type ↦ rw (he, no_type, encode_data_set_message) (RoundTrip-err invalid_message_type)
    | inr (m, hm) ↦ rw (he, hm, encode_data_set_message) (RoundTrip-known dsm e m he hm fits)
  ]
]
