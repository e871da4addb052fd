-- ===== src/Uadp/DataValue/RoundTrip.antt =====
-- Lemmas on _writeDataValue and _readDataValue of lib/uadp-encoder.js.
use node_red_contrib_opcua_s.Prelude.{
  ℕ, List, [], ◌∷◌, Bool, true, Option, none, some, is_some, ◌≡◌, ◌≢◌, refl,
}
use node_red_contrib_opcua_s.Prelude.Flags.{
  has_flag, same, same→eq, all6, all6_sound, checks, checks-AllTrue,
}
use node_red_contrib_opcua_s.Prelude.Int.{ℤ}
use node_red_contrib_opcua_s.Uadp.Stream.RoundTrip.{
  RoundTrip, RoundTrip-bind, RoundTrip-map, RoundTrip-uint, RoundTrip-if,
}
use node_red_contrib_opcua_s.Uadp.DateTime.{RoundTrip-date_time}
use node_red_contrib_opcua_s.Uadp.Variant.{Variant, status_code}
use node_red_contrib_opcua_s.Uadp.Variant.RoundTrip.{
  Fits, FitsVariant, RoundTrip-variant, RoundTrip-status_code,
}
use node_red_contrib_opcua_s.Uadp.DataValue.{
  DataValue, is_present, mask_of, data_value_mask, write_status_code, write_masked,
  write_data_value, read_masked, read_data_value,
}

-- The mask byte, read bit by bit, is the presence of the fields.
record MaskOf (a b c d e f : Bool) (m : ℕ) : Type 0 where
  bit0 : has_flag m 0x01 ≡ a
  bit1 : has_flag m 0x02 ≡ b
  bit2 : has_flag m 0x04 ≡ c
  bit3 : has_flag m 0x08 ≡ d
  bit4 : has_flag m 0x10 ≡ e
  bit5 : has_flag m 0x20 ≡ f

abbrev mask_tests : (a b c d e f : Bool) → List Bool
mask_tests a b c d e f =
    let m = mask_of a b c d e f in
    (same (has_flag m 0x01) a
      ∷ same (has_flag m 0x02) b
      ∷ same (has_flag m 0x04) c
      ∷ same (has_flag m 0x08) d
      ∷ same (has_flag m 0x10) e
      ∷ same (has_flag m 0x20) f
      ∷ [])

abbrev mask_agrees : (a b c d e f : Bool) → Bool
mask_agrees a b c d e f = checks (mask_tests a b c d e f)

mask_table : all6 mask_agrees ≡ true
unfolding mask_of
mask_table = refl

mask_of-MaskOf : (a b c d e f : Bool) → MaskOf a b c d e f (mask_of a b c d e f)
mask_of-MaskOf a b c d e f =
    let h =
      checks-AllTrue (mask_tests a b c d e f) (all6_sound mask_agrees mask_table a b c d e f) in
    record {
      bit0 = same→eq _ _ h.0;
      bit1 = same→eq _ _ h.1.0;
      bit2 = same→eq _ _ h.1.1.0;
      bit3 = same→eq _ _ h.1.1.1.0;
      bit4 = same→eq _ _ h.1.1.1.1.0;
      bit5 = same→eq _ _ h.1.1.1.1.1.0;
    }

-- A value that is present fits, none is null, and the status code is not negative.
pub record FitsDataValue (dv : DataValue) : Type 0 where
  pub not_null : dv.value ≢ some none
  pub value_fits : (v : Option Variant) → dv.value ≡ some v → FitsVariant v
  pub status_fits : (i : ℤ) → dv.status_code ≡ some i → Fits status_code i

is_present-is_some : (o : Option (Option Variant)) → o ≢ some none → is_present o ≡ is_some o
is_present-is_some none h = refl
is_present-is_some (some none) h = absurd (h refl)
is_present-is_some (some (some v)) h = refl

read_fields :
    (dv : DataValue)
    → FitsDataValue dv
    → RoundTrip
        (write_masked (data_value_mask dv) dv)
        (read_masked
          (has_flag (data_value_mask dv) 0x01)
          (has_flag (data_value_mask dv) 0x02)
          (has_flag (data_value_mask dv) 0x04)
          (has_flag (data_value_mask dv) 0x08)
          (has_flag (data_value_mask dv) 0x10)
          (has_flag (data_value_mask dv) 0x20))
        dv
unfolding write_masked read_masked data_value_mask write_status_code
read_fields dv fits =
    let m =
      mask_of-MaskOf (is_present dv.value) (is_some dv.status_code) (is_some dv.source_timestamp)
        (is_some dv.server_timestamp) (is_some dv.source_picoseconds)
        (is_some dv.server_picoseconds) in
    rw (m.bit0, m.bit1, m.bit2, m.bit3, m.bit4, m.bit5, is_present-is_some dv.value fits.not_null)
      (RoundTrip-bind _ (RoundTrip-if dv.value (λ v e. RoundTrip-variant v (fits.value_fits v e))) (
        RoundTrip-bind _
          (RoundTrip-if dv.status_code (λ i e. RoundTrip-status_code i (fits.status_fits i e)))
          (RoundTrip-bind _ (RoundTrip-if dv.source_timestamp (λ d e. RoundTrip-date_time d)) (
            RoundTrip-bind _ (RoundTrip-if dv.server_timestamp (λ d e. RoundTrip-date_time d)) (
              RoundTrip-bind _ (RoundTrip-if dv.source_picoseconds (λ n e. RoundTrip-uint 2 n)) (
                RoundTrip-map _
                  (RoundTrip-if dv.server_picoseconds (λ n e. RoundTrip-uint 2 n))))))))

-- Every DataValue that can be written is read back field by field.
pub RoundTrip-data_value :
    (dv : DataValue) → FitsDataValue dv → RoundTrip (write_data_value (some dv)) read_data_value dv
unfolding write_data_value read_data_value
RoundTrip-data_value dv fits =
    RoundTrip-bind _ (RoundTrip-uint 1 (data_value_mask dv)) (read_fields dv fits)
