-- ===== src/Uadp/DataValue.antt =====
-- The DataValue codec of lib/uadp-encoder.js: _writeDataValue and _readDataValue.
pub mod RoundTrip
use node_red_contrib_opcua_s.Prelude.{ℕ, ◌^◌, ◌==◌, Bool, true, false, Option, none, some, is_some}
use node_red_contrib_opcua_s.Prelude.Flags.{set_flag, has_flag}
use node_red_contrib_opcua_s.Prelude.Int.{ℤ, pos, wrap}
use node_red_contrib_opcua_s.Uadp.Result.{Written, ◌⨟◌}
use node_red_contrib_opcua_s.Uadp.Stream.{
  Read, ◌>>=◌, return, read_uint8, read_uint16, read_unsigned, read_if, write_uint8, write_uint16,
  write_uint32, write_if,
}
use node_red_contrib_opcua_s.Uadp.DateTime.{Date, write_date_time, read_date_time}
use node_red_contrib_opcua_s.Uadp.Variant.{Variant, write_variant, read_variant}

-- A field that is undefined is `none`; a value that is null is `some none`.
pub record DataValue : Type 0 where
  pub value : Option (Option Variant)
  pub status_code : Option ℤ
  pub source_timestamp : Option Date
  pub server_timestamp : Option Date
  pub source_picoseconds : Option ℕ
  pub server_picoseconds : Option ℕ

-- `v !== undefined && v !== null`
abbrev pub is_present : Option (Option Variant) → Bool
is_present (some (some v)) = true
is_present _ = false

unfoldable pub mask_of : (value status source server source_ps server_ps : Bool) → ℕ
mask_of value status source server source_ps server_ps = set_flag server_ps 0x20 (
    set_flag source_ps 0x10 (
      set_flag server 0x08
        (set_flag source 0x04 (set_flag status 0x02 (set_flag value 0x01 0x00)))))

unfoldable pub data_value_mask : DataValue → ℕ
data_value_mask dv =
    mask_of (is_present dv.value) (is_some dv.status_code) (is_some dv.source_timestamp)
      (is_some dv.server_timestamp) (is_some dv.source_picoseconds) (is_some dv.server_picoseconds)

-- `stream.writeUInt32LE(statusCode >>> 0)`
unfoldable pub write_status_code : ℤ → Written
write_status_code code = write_uint32 (wrap (2 ^ 32) code)

unfoldable pub write_masked : ℕ → DataValue → Written
write_masked mask dv =
    write_if (has_flag mask 0x01) write_variant dv.value
    ⨟ write_if (has_flag mask 0x02) write_status_code dv.status_code
    ⨟ write_if (has_flag mask 0x04) write_date_time dv.source_timestamp
    ⨟ write_if (has_flag mask 0x08) write_date_time dv.server_timestamp
    ⨟ write_if (has_flag mask 0x10) write_uint16 dv.source_picoseconds
    ⨟ write_if (has_flag mask 0x20) write_uint16 dv.server_picoseconds

-- A null DataValue is an empty mask.
unfoldable pub write_data_value : Option DataValue → Written
write_data_value none = write_uint8 0
write_data_value (some dv) = write_uint8 (data_value_mask dv) ⨟ write_masked (data_value_mask dv) dv

unfoldable pub read_masked :
    (value status source server source_ps server_ps : Bool) → Read DataValue
read_masked value status source server source_ps server_ps = do
  v ← read_if value read_variant
  code ← read_if status (read_unsigned 4)
  source_time ← read_if source read_date_time
  server_time ← read_if server read_date_time
  source_pico ← read_if source_ps read_uint16
  server_pico ← read_if server_ps read_uint16
  return (record {
    value = v;
    status_code = code;
    source_timestamp = source_time;
    server_timestamp = server_time;
    source_picoseconds = source_pico;
    server_picoseconds = server_pico;
  })

unfoldable pub read_data_value : Read DataValue
read_data_value = do
  mask ← read_uint8
  read_masked (has_flag mask 0x01) (has_flag mask 0x02) (has_flag mask 0x04) (has_flag mask 0x08)
      (has_flag mask 0x10) (has_flag mask 0x20)
