-- ===== src/Uadp/Variant.antt =====
-- The Variant codec of lib/uadp-encoder.js: _writeVariantScalar, _readVariantScalar, _writeVariant
-- and _readVariant. A value has the JS type that its built-in type is written from. A Float or a
-- Double is its bit pattern (for a Float, that of `Math.fround`).
pub mod RoundTrip
use node_red_contrib_opcua_s.Prelude.{
  ℕ, zero, suc, ◌^◌, List, [], ◌∷◌, map, ltb, ◌==◌, Bool, true, false, not, if◌then◌else◌, Option,
  none, some, length, bit_and, bit_or,
}
use node_red_contrib_opcua_s.Prelude.Flags.{has_flag}
use node_red_contrib_opcua_s.Prelude.Int.{ℤ, pos, negsuc, wrap}
use node_red_contrib_opcua_s.Uadp.Result.{
  Written, ok, err, ◌⨟◌, unsupported_builtin_type, unknown_type,
}
use node_red_contrib_opcua_s.Uadp.Bytes.{le_bytes}
use node_red_contrib_opcua_s.Uadp.Stream.{
  Read, ◌>>=◌, return, throw, read_uint8, read_uint32, read_uint, read_unsigned, read_int,
  read_bytes, read_many, read_if, write_uint8, write_uint32, write_unsigned, write_int, write_bytes,
  write_many,
}
use node_red_contrib_opcua_s.Uadp.Text.{Text, write_string, read_string, null_length}
use node_red_contrib_opcua_s.Uadp.Guid.{write_guid, read_guid}
use node_red_contrib_opcua_s.Uadp.DateTime.{Date, write_date_time, read_date_time}

-- BUILTIN_TYPE, and any other number.
pub data BuiltIn : Type 0 where
  boolean sbyte byte int16 uint16 int32 uint32 int64 uint64 float double string date_time guid :
      BuiltIn
  byte_string status_code : BuiltIn
  other : ℕ → BuiltIn

unfoldable pub type_number : BuiltIn → ℕ
type_number boolean = 1
type_number sbyte = 2
type_number byte = 3
type_number int16 = 4
type_number uint16 = 5
type_number int32 = 6
type_number uint32 = 7
type_number int64 = 8
type_number uint64 = 9
type_number float = 10
type_number double = 11
type_number string = 12
type_number date_time = 13
type_number guid = 14
type_number byte_string = 15
type_number status_code = 19
type_number (other n) = n

-- The case of the `switch` that a number selects.
unfoldable pub type_of_number : ℕ → BuiltIn
type_of_number n =
    if n == 1
    then boolean
    else if n == 2
    then sbyte
    else if n == 3
    then byte
    else if n == 4
    then int16
    else if n == 5
    then uint16
    else if n == 6
    then int32
    else if n == 7
    then uint32
    else if n == 8
    then int64
    else if n == 9
    then uint64
    else if n == 10
    then float
    else if n == 11
    then double
    else if n == 12
    then string
    else if n == 13
    then date_time
    else if n == 14
    then guid
    else if n == 15
    then byte_string
    else if n == 19
    then status_code
    else other n

abbrev pub Payload : BuiltIn → Type 0
Payload boolean = Bool
Payload sbyte = ℤ
Payload byte = ℤ
Payload int16 = ℤ
Payload uint16 = ℤ
Payload int32 = ℤ
Payload uint32 = ℤ
Payload int64 = ℤ
Payload uint64 = ℤ
Payload float = ℕ
Payload double = ℕ
Payload string = Option Text
Payload date_time = Date
Payload guid = Text
Payload byte_string = Option (List ℕ)
Payload status_code = ℤ
Payload (other n) = Unit {0}

unfoldable pub write_byte_string : Option (List ℕ) → Written
write_byte_string none = write_uint32 null_length
write_byte_string (some bs) = write_uint32 (length bs) ⨟ write_bytes bs

unfoldable pub read_byte_string_body : ℕ → Read (Option (List ℕ))
read_byte_string_body len =
    if len == null_length then return none else (read_bytes len >>= λ bs. return (some bs))

unfoldable pub read_byte_string : Read (Option (List ℕ))
read_byte_string = do len ← read_uint32; read_byte_string_body len

-- `stream.readUInt8() !== 0`
unfoldable pub read_boolean : Read Bool
read_boolean = do b ← read_uint8; return (not (b == 0))

unfoldable pub write_variant_scalar : (t : BuiltIn) → Payload t → Written
write_variant_scalar boolean v = write_uint8 (if v then 1 else 0)
write_variant_scalar sbyte v = write_int 1 v
write_variant_scalar byte v = write_unsigned 1 v
write_variant_scalar int16 v = write_int 2 v
write_variant_scalar uint16 v = write_unsigned 2 v
write_variant_scalar int32 v = write_int 4 v
write_variant_scalar uint32 v = write_unsigned 4 v
write_variant_scalar int64 v = write_int 8 v
write_variant_scalar uint64 v = write_unsigned 8 v
write_variant_scalar float v = write_bytes (le_bytes 4 v)
write_variant_scalar double v = write_bytes (le_bytes 8 v)
write_variant_scalar string v = write_string v
write_variant_scalar date_time v = write_date_time v
write_variant_scalar guid v = write_guid v
write_variant_scalar byte_string v = write_byte_string v
write_variant_scalar status_code v = write_uint32 (wrap (2 ^ 32) v)
write_variant_scalar (other n) v = err (unsupported_builtin_type n)

unfoldable pub read_variant_scalar : (t : BuiltIn) → Read (Payload t)
read_variant_scalar boolean = read_boolean
read_variant_scalar sbyte = read_int 1
read_variant_scalar byte = read_unsigned 1
read_variant_scalar int16 = read_int 2
read_variant_scalar uint16 = read_unsigned 2
read_variant_scalar int32 = read_int 4
read_variant_scalar uint32 = read_unsigned 4
read_variant_scalar int64 = read_int 8
read_variant_scalar uint64 = read_unsigned 8
read_variant_scalar float = read_uint 4
read_variant_scalar double = read_uint 8
read_variant_scalar string = read_string
read_variant_scalar date_time = read_date_time
read_variant_scalar guid = read_guid
read_variant_scalar byte_string = read_byte_string
read_variant_scalar status_code = read_unsigned 4
read_variant_scalar (other n) = throw (unsupported_builtin_type n)

pub data Value (t : BuiltIn) : Type 0 where
  scalar : Payload t → Value t
  array : List (Payload t) → Value t

-- `{ dataType, value }`, with the `dimensions` that only the reader fills in.
pub record Variant : Type 0 where
  pub data_type : BuiltIn
  pub value : Value data_type
  pub dimensions : Option (List ℤ)

abbrev pub is_array : {t : BuiltIn} → Value t → Bool
is_array (scalar v) = false
is_array (array vs) = true

unfoldable pub encoding_byte : BuiltIn → Bool → ℕ
encoding_byte t true = bit_or (bit_and (type_number t) 0x3f) 0x40
encoding_byte t false = bit_and (type_number t) 0x3f

unfoldable pub write_value : (t : BuiltIn) → Value t → Written
write_value t (scalar v) = write_variant_scalar t v
write_value t (array vs) = write_int 4 (pos (length vs)) ⨟ write_many (write_variant_scalar t) vs

-- A null variant is `none`. A data type that is no number and no known name is `other 0`.
unfoldable pub write_variant : Option Variant → Written
write_variant none = write_uint8 0
write_variant (some v) =
    if type_number v.data_type == 0
    then err unknown_type
    else (write_uint8 (encoding_byte v.data_type (is_array v.value))
        ⨟ write_value v.data_type v.value)

-- The rounds of `for (let i = 0; i < len; i++)`.
abbrev pub rounds : ℤ → ℕ
rounds (pos n) = n
rounds (negsuc n) = 0

unfoldable pub read_array : (t : BuiltIn) → Read (List (Payload t))
read_array t = do len ← read_int 4; read_many (rounds len) (read_variant_scalar t)

unfoldable pub read_value : (t : BuiltIn) → Bool → Read (Value t)
read_value t true = read_array t >>= λ vs. return (array vs)
read_value t false = read_variant_scalar t >>= λ v. return (scalar v)

unfoldable pub read_dimensions : Read (List ℤ)
read_dimensions = do dim_count ← read_int 4; read_many (rounds dim_count) (read_int 4)

-- What follows an encoding byte with this type and these two flags.
unfoldable pub read_typed_variant : BuiltIn → (is_array has_dims : Bool) → Read (Option Variant)
read_typed_variant t is_array has_dims = do
  v ← read_value t is_array
  dims ← read_if has_dims read_dimensions
  return (some (record { data_type = t; value = v; dimensions = dims }))

unfoldable pub read_variant_body : ℕ → Read (Option Variant)
read_variant_body encoding =
    if encoding == 0
    then return none
    else read_typed_variant (type_of_number (bit_and encoding 0x3f)) (has_flag encoding 0x40)
        (has_flag encoding 0x80)

unfoldable pub read_variant : Read (Option Variant)
read_variant = do encoding ← read_uint8; read_variant_body encoding
