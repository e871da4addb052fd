-- ===== src/Uadp/Network.antt =====
-- The NetworkMessage of lib/uadp-encoder.js: the domain model and its three flag bytes.
pub mod Header
pub mod Payload
pub mod Codec
use node_red_contrib_opcua_s.Prelude.{
  ℕ, ◌^◌, leb, ltb, ◌==◌, Bool, true, false, not, ◌&&◌, if◌then◌else◌, Option, none, some, is_some,
  List, [], ◌∷◌, bit_and, bit_or,
}
use node_red_contrib_opcua_s.Prelude.Flags.{set_flag}
use node_red_contrib_opcua_s.Prelude.Int.{ℤ, pos, negsuc}
use node_red_contrib_opcua_s.Uadp.Result.{
  Result, ok, err, invalid_publisher_id, publisher_id_too_large, publisher_id_type,
}
use node_red_contrib_opcua_s.Uadp.Text.{Text}
use node_red_contrib_opcua_s.Uadp.DateTime.{Date}
use node_red_contrib_opcua_s.Uadp.DataSet.{DataSetMessage}

-- A string, a BigInt, an integer, a number that is no integer, the null that a null string is read
-- as, or a value of any other type.
pub data PublisherId : Type 0 where
  text : Text → PublisherId
  big : ℤ → PublisherId
  number : ℤ → PublisherId
  fraction null_id other_id : PublisherId

pub record GroupHeader : Type 0 where
  pub writer_group_id : ℕ
  pub group_version : Option ℕ
  pub network_message_number : Option ℕ
  pub sequence_number : Option ℕ

pub record Chunk : Type 0 where
  pub message_sequence_number : ℕ
  pub chunk_offset : ℕ
  pub total_size : ℕ
  pub chunk_data : List ℕ

-- `payload_header` is the list of its `dataSetWriterIds`. A payload that is no array is empty.
pub record NetworkMessage : Type 0 where
  pub publisher_id : Option PublisherId
  pub data_set_class_id : Option Text
  pub group_header : Option GroupHeader
  pub payload_header : Option (List ℕ)
  pub timestamp : Option Date
  pub picoseconds : Option ℕ
  pub promoted_fields : Bool
  pub chunk : Option Chunk
  pub payload : List DataSetMessage

abbrev pub uadp_version : ℕ
uadp_version = 1

-- The bits of ExtendedFlags1 that name the type, by `typeof` and size.
unfoldable pub publisher_id_type_bits : PublisherId → Result ℕ
publisher_id_type_bits (text s) = ok 4
publisher_id_type_bits (big i) = ok 3
publisher_id_type_bits (number (negsuc n)) = err invalid_publisher_id
publisher_id_type_bits (number (pos n)) =
    if leb n 0xff
    then ok 0
    else if leb n 0xffff
    then ok 1
    else if leb n 0xffffffff
    then ok 2
    else err publisher_id_too_large
publisher_id_type_bits fraction = err invalid_publisher_id
publisher_id_type_bits null_id = err publisher_id_type
publisher_id_type_bits other_id = err publisher_id_type

-- A string as a condition.
abbrev pub is_text : Option Text → Bool
is_text (some (c ∷ cs)) = true
is_text _ = false

-- `Array.isArray(ids) && ids.length > 0`
abbrev pub is_filled : Option (List ℕ) → Bool
is_filled (some (i ∷ ids)) = true
is_filled _ = false

unfoldable pub extended_flags2 : NetworkMessage → ℕ
extended_flags2 nm = set_flag nm.promoted_fields 0x02 (set_flag (is_some nm.chunk) 0x01 0x00)

unfoldable pub ext1_of : ℕ → (class time pico more : Bool) → ℕ
ext1_of bits class time pico more = set_flag more 0x80 (
    set_flag (pico && time) 0x40
      (set_flag time 0x20 (set_flag class 0x08 (bit_or 0x00 (bit_and bits 0x07)))))

-- The type bits of a publisher id that may be absent.
unfoldable pub id_bits : Option PublisherId → Result ℕ
id_bits none = ok 0
id_bits (some id) = publisher_id_type_bits id

unfoldable pub ext1_with : ℕ → ℕ → NetworkMessage → ℕ
ext1_with bits ext2 nm =
    ext1_of bits (is_text nm.data_set_class_id) (is_some nm.timestamp) (is_some nm.picoseconds)
      (not (ext2 == 0))

unfoldable pub extended_flags1 : NetworkMessage → ℕ → Result ℕ
extended_flags1 nm ext2 = elim (id_bits nm.publisher_id) [
  | err e ↦ err e
  | ok bits ↦ ok (ext1_with bits ext2 nm)
]

unfoldable pub uadp_of : (id group ids more : Bool) → ℕ
uadp_of id group ids more =
    set_flag more 0x80 (set_flag ids 0x40 (set_flag group 0x20 (set_flag id 0x10 uadp_version)))

unfoldable pub uadp_flags : NetworkMessage → ℕ → ℕ
uadp_flags nm ext1 =
    uadp_of (is_some nm.publisher_id) (is_some nm.group_header) (is_filled nm.payload_header)
      (not (ext1 == 0))
