-- ===== src/Uadp/Variant/RoundTrip.antt =====
-- Lemmas on _writeVariant and _readVariant of lib/uadp-encoder.js.
use node_red_contrib_opcua_s.Prelude.{
  ℕ, ◌%◌, ◌^◌, ◌<◌, List, ◌==◌, Bool, true, false, not, Option, none, some, length, bit_and, ◌≡◌,
  refl, sym, subst, arith, All,
}
use node_red_contrib_opcua_s.Prelude.Flags.{has_flag}
use node_red_contrib_opcua_s.Prelude.Int.{ℤ, pos, negsuc, wrap}
use node_red_contrib_opcua_s.Uadp.Result.{unsupported_builtin_type}
use node_red_contrib_opcua_s.Uadp.Stream.{
  ◌>>=◌, return, read_bytes, read_if, read_unsigned, write_uint,
}
use node_red_contrib_opcua_s.Uadp.Stream.RoundTrip.{
  RoundTrip, RoundTrip-bind, RoundTrip-map, RoundTrip-then, RoundTrip-uint, RoundTrip-int,
  RoundTrip-unsigned, RoundTrip-many, RoundTrip-ok, RoundTrip-err, Reads-return, Reads-map,
  Reads-bytes, Reads-le_bytes,
}
use node_red_contrib_opcua_s.Uadp.Text.{Text, null_length}
use node_red_contrib_opcua_s.Uadp.Text.RoundTrip.{Storable, RoundTrip-string}
use node_red_contrib_opcua_s.Uadp.Guid.{guid_text, write_guid, read_guid}
use node_red_contrib_opcua_s.Uadp.Guid.RoundTrip.{IsGuid, RoundTrip-guid}
use node_red_contrib_opcua_s.Uadp.DateTime.{RoundTrip-date_time}
use node_red_contrib_opcua_s.Uadp.Variant.{
  BuiltIn, boolean, sbyte, byte, int16, uint16, int32, uint32, int64, uint64, float, double, string,
  date_time, guid, byte_string, status_code, other, type_number, type_of_number, Payload,
  write_byte_string, read_byte_string, read_byte_string_body, read_boolean, write_variant_scalar,
  read_variant_scalar, Value, scalar, array, Variant, is_array, encoding_byte, write_value,
  write_variant, read_array, read_value, read_variant, read_variant_body, read_typed_variant,
}

-- The text of some GUID, spelt as the reader spells it.
pub record IsGuidText (s : Text) : Type 0 where
  pub d1 : ℕ
  pub d2 : ℕ
  pub d3 : ℕ
  pub d4a : List ℕ
  pub d4b : List ℕ
  pub fields : IsGuid d1 d2 d3 d4a d4b
  pub spelt : guid_text d1 d2 d3 d4a d4b ≡ s

-- What a written value must meet to be told from every other: a byte string is shorter than the
-- null mark, text is well formed, a GUID is in its canonical spelling, and a status code is not
-- negative.
abbrev pub Fits : (t : BuiltIn) → Payload t → Type 0
Fits float v = v < 2 ^ 32
Fits double v = v < 2 ^ 64
Fits string v = Storable v
Fits guid v = IsGuidText v
Fits byte_string none = Unit {0}
Fits byte_string (some bs) = length bs < null_length
Fits status_code (pos n) = n < 2 ^ 32
Fits status_code (negsuc n) = ⊥
Fits _ v = Unit {0}

abbrev pub IsKnown : BuiltIn → Type 0
IsKnown (other n) = ⊥
IsKnown _ = Unit {0}

RoundTrip-boolean : (v : Bool) → RoundTrip (write_variant_scalar boolean v) read_boolean v
unfolding write_variant_scalar read_boolean
RoundTrip-boolean true = RoundTrip-map (λ b. not (b == 0)) (RoundTrip-uint 1 1)
RoundTrip-boolean false = RoundTrip-map (λ b. not (b == 0)) (RoundTrip-uint 1 0)

pub RoundTrip-guid_text : (s : Text) → IsGuidText s → RoundTrip (write_guid s) read_guid s
RoundTrip-guid_text s g =
    subst (λ t. RoundTrip (write_guid t) read_guid t) g.spelt
      (RoundTrip-guid g.d1 g.d2 g.d3 g.d4a g.d4b g.fields)

byte_string_body :
    (len : ℕ)
    → len < null_length
    → read_byte_string_body len ≡ (read_bytes len >>= λ bs. return (some bs))
unfolding read_byte_string_body
byte_string_body len h = rw (lt→eq h)
  where
    lt→eq : len < null_length → (len == null_length) ≡ false
    lt→eq h = ground arith

RoundTrip-byte_string :
    (v : Option (List ℕ)) → Fits byte_string v → RoundTrip (write_byte_string v) read_byte_string v
unfolding write_byte_string read_byte_string
RoundTrip-byte_string none h =
    RoundTrip-then _ (RoundTrip-uint 4 null_length)
      (unfold read_byte_string_body in Reads-return none)
RoundTrip-byte_string (some bs) h =
    RoundTrip-bind _ (RoundTrip-uint 4 (length bs))
      (rw (byte_string_body (length bs) h) (RoundTrip-map some (RoundTrip-ok (Reads-bytes bs))))

pub RoundTrip-status_code :
    (v : ℤ) → Fits status_code v → RoundTrip (write_uint 4 (wrap (2 ^ 32) v)) (read_unsigned 4) v
unfolding wrap read_unsigned
RoundTrip-status_code (pos n) h =
    subst (λ u. RoundTrip (write_uint 4 (n % 2 ^ 32)) (read_unsigned 4) (pos u)) {y = n}
      (omega arith) (RoundTrip-map pos (RoundTrip-uint 4 (n % 2 ^ 32)))
RoundTrip-status_code (negsuc n) h = absurd h

-- Every scalar that can be written is read back.
pub RoundTrip-scalar :
    (t : BuiltIn) (v : Payload t)
    → Fits t v
    → RoundTrip (write_variant_scalar t v) (read_variant_scalar t) v
unfolding write_variant_scalar read_variant_scalar
RoundTrip-scalar boolean v h = RoundTrip-boolean v
RoundTrip-scalar sbyte v h = RoundTrip-int 1 v (omega arith)
RoundTrip-scalar byte v h = RoundTrip-unsigned 1 v
RoundTrip-scalar int16 v h = RoundTrip-int 2 v (omega arith)
RoundTrip-scalar uint16 v h = RoundTrip-unsigned 2 v
RoundTrip-scalar int32 v h = RoundTrip-int 4 v (omega arith)
RoundTrip-scalar uint32 v h = RoundTrip-unsigned 4 v
RoundTrip-scalar int64 v h = RoundTrip-int 8 v (omega arith)
RoundTrip-scalar uint64 v h = RoundTrip-unsigned 8 v
RoundTrip-scalar float v h = RoundTrip-ok (Reads-le_bytes 4 v (omega arith))
RoundTrip-scalar double v h = RoundTrip-ok (Reads-le_bytes 8 v (omega arith))
RoundTrip-scalar string v h = RoundTrip-string v h
RoundTrip-scalar date_time v h = RoundTrip-date_time v
RoundTrip-scalar guid v h = RoundTrip-guid_text v h
RoundTrip-scalar byte_string v h = RoundTrip-byte_string v h
RoundTrip-scalar status_code v h = RoundTrip-status_code v h
RoundTrip-scalar (other n) v h = RoundTrip-err (unsupported_builtin_type n)

-- What the reader makes of an encoding byte.
record Encodes (t : BuiltIn) (a : Bool) (e : ℕ) : Type 0 where
  nonzero : (e == 0) ≡ false
  type_bits : type_of_number (bit_and e 0x3f) ≡ t
  array_bit : has_flag e 0x40 ≡ a
  dims_bit : has_flag e 0x80 ≡ false
  named : (type_number t == 0) ≡ false

encoding_byte-Encodes : (t : BuiltIn) (a : Bool) → IsKnown t → Encodes t a (encoding_byte t a)
unfolding encoding_byte type_number type_of_number
encoding_byte-Encodes (other n) a h = absurd h
encoding_byte-Encodes boolean true h = record {
  nonzero = refl;
  type_bits = refl;
  array_bit = refl;
  dims_bit = refl;
  named = refl;
}
encoding_byte-Encodes _ true h = record {
  nonzero = refl;
  type_bits = refl;
  array_bit = refl;
  dims_bit = refl;
  named = refl;
}
encoding_byte-Encodes _ false h = record {
  nonzero = refl;
  type_bits = refl;
  array_bit = refl;
  dims_bit = refl;
  named = refl;
}

abbrev pub FitsValue : (t : BuiltIn) → Value t → Type 0
FitsValue t (scalar v) = Fits t v
FitsValue t (array vs) = All (Fits t) vs

RoundTrip-array :
    (t : BuiltIn) (vs : List (Payload t))
    → All (Fits t) vs
    → RoundTrip (write_value t (array vs)) (read_array t) vs
unfolding write_value read_array
RoundTrip-array t vs fits =
    RoundTrip-bind _ (RoundTrip-int 4 (pos (length vs)) (omega arith))
      (RoundTrip-many (Fits t) (RoundTrip-scalar t) vs fits)

RoundTrip-value :
    (t : BuiltIn) (v : Value t)
    → FitsValue t v
    → RoundTrip (write_value t v) (read_value t (is_array v)) v
unfolding read_value
RoundTrip-value t (scalar v) h = unfold write_value in RoundTrip-map scalar (RoundTrip-scalar t v h)
RoundTrip-value t (array vs) h = RoundTrip-map array (RoundTrip-array t vs h)

-- A null variant, or one without dimensions whose values fit.
abbrev pub FitsVariant : Option Variant → Type 0
FitsVariant none = Unit {0}
FitsVariant (some v) = IsKnown v.data_type × FitsValue v.data_type v.value × (v.dimensions ≡ none)

RoundTrip-typed :
    (v : Variant)
    → FitsVariant (some v)
    → RoundTrip
        (write_value v.data_type v.value)
        (read_typed_variant v.data_type (is_array v.value) false)
        (some v)
unfolding read_typed_variant read_if
RoundTrip-typed v (known, fits, dims) =
    subst
      (λ d.
        RoundTrip (write_value v.data_type v.value)
          (read_typed_variant v.data_type (is_array v.value) false)
          (some (record v { dimensions = d })))
      (sym dims) (RoundTrip-last (RoundTrip-value v.data_type v.value fits))
  where
    RoundTrip-last :
        RoundTrip
          (write_value v.data_type v.value)
          (read_value v.data_type (is_array v.value))
          v.value
        → RoundTrip
            (write_value v.data_type v.value)
            (read_typed_variant v.data_type (is_array v.value) false)
            (some (record v { dimensions = none }))
    RoundTrip-last r = RoundTrip-then _ r (Reads-map _ (Reads-return none))

body_of :
    (t : BuiltIn) (a : Bool) (e : ℕ)
    → Encodes t a e
    → read_variant_body e ≡ read_typed_variant t a false
unfolding read_variant_body
body_of t a e f = rw (f.nonzero, f.type_bits, f.array_bit, f.dims_bit)

-- Every variant that can be written is read back, nulls and arrays included.
pub RoundTrip-variant :
    (o : Option Variant) → FitsVariant o → RoundTrip (write_variant o) read_variant o
unfolding write_variant read_variant
RoundTrip-variant none h =
    RoundTrip-then _ (RoundTrip-uint 1 0) (unfold read_variant_body in Reads-return none)
RoundTrip-variant (some v) h =
    let f = encoding_byte-Encodes v.data_type (is_array v.value) h.0 in
    rw f.named (
      RoundTrip-bind _ (RoundTrip-uint 1 (encoding_byte v.data_type (is_array v.value)))
        (rw (body_of v.data_type (is_array v.value) _ f) (RoundTrip-typed v h)))
