-- ===== src/Uadp/Wire.antt =====
-- The writers and readers of lib/uadp-encoder.js, on any stream that starts with what was written.
use node_red_contrib_opcua_s.Prelude.{ℕ, ◌+◌, Option, some, List, ◌++◌, length, ◌≡◌}
use node_red_contrib_opcua_s.Uadp.Result.{Written, ok}
use node_red_contrib_opcua_s.Uadp.Stream.{Read}
use node_red_contrib_opcua_s.Uadp.Stream.RoundTrip.{at, RoundTrip}
use node_red_contrib_opcua_s.Uadp.Text.{Text, write_string, read_string}
use node_red_contrib_opcua_s.Uadp.Text.RoundTrip.{Storable, RoundTrip-string}
use node_red_contrib_opcua_s.Uadp.Guid.{guid_text, write_guid, read_guid}
use node_red_contrib_opcua_s.Uadp.Guid.RoundTrip.{IsGuid, RoundTrip-guid}
use node_red_contrib_opcua_s.Uadp.DateTime.{
  Date, write_date_time, read_date_time, RoundTrip-date_time,
}
use node_red_contrib_opcua_s.Uadp.Variant.{Variant, write_variant, read_variant}
use node_red_contrib_opcua_s.Uadp.Variant.RoundTrip.{FitsVariant, RoundTrip-variant}
use node_red_contrib_opcua_s.Uadp.DataValue.{DataValue, write_data_value, read_data_value}
use node_red_contrib_opcua_s.Uadp.DataValue.RoundTrip.{FitsDataValue, RoundTrip-data_value}
use node_red_contrib_opcua_s.Uadp.DataSet.{
  DataSetMessage, encode_data_set_message, decode_data_set_message,
}
use node_red_contrib_opcua_s.Uadp.DataSet.RoundTrip.{FitsDataSet, RoundTrip-data_set}
use node_red_contrib_opcua_s.Uadp.Network.{PublisherId, publisher_id_type_bits}
use node_red_contrib_opcua_s.Uadp.Network.Header.{write_publisher_id, read_publisher_id}
use node_red_contrib_opcua_s.Uadp.Network.Header.RoundTrip.{FitsId, RoundTrip-publisher_id}

taken_back :
    {A : Type 0} {w : Written} {m : Read A} {x : A} (bs : List ℕ) (p : ℕ) (rest : List ℕ)
    → RoundTrip w m x
    → w ≡ ok bs
    → m (at p (bs ++ rest)) ≡ ok (x, at (p + length bs) rest)
taken_back bs p rest r h = (r.back bs h).run p rest

-- A string of Unicode scalar values whose UTF-8 form is shorter than the null mark, or null, is
-- read back, and the cursor stands right behind it.
pub read_string-write_string :
    (o : Option Text) (bs : List ℕ) (p : ℕ) (rest : List ℕ)
    → Storable o
    → write_string o ≡ ok bs
    → read_string (at p (bs ++ rest)) ≡ ok (o, at (p + length bs) rest)
read_string-write_string o bs p rest h = taken_back bs p rest (RoundTrip-string o h)

-- The text of a GUID, spelt in upper case from its fields, is written and read back as it was.
pub read_guid-write_guid :
    (d1 d2 d3 : ℕ) (d4a d4b bs : List ℕ) (p : ℕ) (rest : List ℕ)
    → IsGuid d1 d2 d3 d4a d4b
    → write_guid (guid_text d1 d2 d3 d4a d4b) ≡ ok bs
    → read_guid (at p (bs ++ rest)) ≡ ok (guid_text d1 d2 d3 d4a d4b, at (p + length bs) rest)
read_guid-write_guid d1 d2 d3 d4a d4b bs p rest g =
    taken_back bs p rest (RoundTrip-guid d1 d2 d3 d4a d4b g)

-- A date that can be written, before 1970 included, is read back to the millisecond.
pub read_date_time-write_date_time :
    (d : Date) (bs : List ℕ) (p : ℕ) (rest : List ℕ)
    → write_date_time d ≡ ok bs
    → read_date_time (at p (bs ++ rest)) ≡ ok (d, at (p + length bs) rest)
read_date_time-write_date_time d bs p rest = taken_back bs p rest (RoundTrip-date_time d)

-- A Variant that FitsVariant, scalar, array or null, is read back with its type and its value.
pub read_variant-write_variant :
    (o : Option Variant) (bs : List ℕ) (p : ℕ) (rest : List ℕ)
    → FitsVariant o
    → write_variant o ≡ ok bs
    → read_variant (at p (bs ++ rest)) ≡ ok (o, at (p + length bs) rest)
read_variant-write_variant o bs p rest h = taken_back bs p rest (RoundTrip-variant o h)

-- A DataValue that FitsDataValue is read back with just the fields that it has.
pub read_data_value-write_data_value :
    (dv : DataValue) (bs : List ℕ) (p : ℕ) (rest : List ℕ)
    → FitsDataValue dv
    → write_data_value (some dv) ≡ ok bs
    → read_data_value (at p (bs ++ rest)) ≡ ok (dv, at (p + length bs) rest)
read_data_value-write_data_value dv bs p rest h = taken_back bs p rest (RoundTrip-data_value dv h)

-- A DataSetMessage that FitsDataSet is decoded to itself, of whatever message type and with
-- whatever of its optional parts.
pub decode_data_set_message-encode_data_set_message :
    (dsm : DataSetMessage) (bs : List ℕ) (p : ℕ) (rest : List ℕ)
    → FitsDataSet dsm
    → encode_data_set_message dsm ≡ ok bs
    → decode_data_set_message (at p (bs ++ rest)) ≡ ok (dsm, at (p + length bs) rest)
decode_data_set_message-encode_data_set_message dsm bs p rest h =
    taken_back bs p rest (RoundTrip-data_set dsm h)

-- A publisher id keeps its JS type: under the type bits that the encoder finds for it, it is read
-- back as the string, the BigInt or the number it was.
pub read_publisher_id-write_publisher_id :
    (id : PublisherId) (bits : ℕ) (bs : List ℕ) (p : ℕ) (rest : List ℕ)
    → FitsId id
    → publisher_id_type_bits id ≡ ok bits
    → write_publisher_id bits id ≡ ok bs
    → read_publisher_id bits (at p (bs ++ rest)) ≡ ok (id, at (p + length bs) rest)
read_publisher_id-write_publisher_id id bits bs p rest fits e =
    taken_back bs p rest (RoundTrip-publisher_id id bits e fits).1
