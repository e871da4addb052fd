-- ===== src/Config.antt =====
-- lib/pubsub-config.js: what the validators and factories share. A configuration comes from
-- outside, so every field is a JS value of any type.
pub mod WriterGroup
pub mod PublishedDataSet
pub mod DataSetWriter
pub mod DataSetReader
pub mod Issues
use node_red_contrib_opcua_s.Prelude.{
  ℕ, ◌*◌, ◌+◌, ◌%◌, ◌^◌, leb, ltb, ◌==◌, Bool, true, false, not, ◌&&◌, if◌then◌else◌, List, [], ◌∷◌,
  ◌++◌,
}
use node_red_contrib_opcua_s.Prelude.Int.{ℤ, pos, negsuc}
use node_red_contrib_opcua_s.Uadp.Text.{Text}

-- Every finite double is a whole number of these units: one is 2 ^ 1074 units.
unfoldable pub one : ℕ
one = 2 ^ 1074

pub data Number : Type 0 where
  finite : ℤ → Number
  nan plus_infinity minus_infinity : Number

-- `other` is an object, a function or a symbol.
pub data Js : Type 0 where
  undefined null other : Js
  boolean : Bool → Js
  number : Number → Js
  text : Text → Js

-- `_isPositiveNumber`
unfoldable pub is_positive_number : Js → Bool
is_positive_number (number (finite (pos n))) = ltb 0 n
is_positive_number _ = false

-- `Number.isInteger`
unfoldable pub is_integer : Js → Bool
is_integer (number (finite (pos n))) = n % one == 0
is_integer (number (finite (negsuc n))) = (n + 1) % one == 0
is_integer _ = false

-- `v >= 0 && v <= k` on a number.
unfoldable pub is_between_zero_and : ℕ → Js → Bool
is_between_zero_and k (number (finite (pos n))) = leb n (k * one)
is_between_zero_and k _ = false

-- `_isNonNegativeInt` (a negative integer is refused by its sign)
unfoldable pub is_nonnegative_int : Js → Bool
is_nonnegative_int (number (finite (pos n))) = n % one == 0
is_nonnegative_int _ = false

-- `_isUInt16`
unfoldable pub is_uint16 : Js → Bool
is_uint16 v = is_integer v && is_between_zero_and 0xffff v

-- `v === 0`
unfoldable pub is_zero : Js → Bool
is_zero (number (finite (pos n))) = n == 0
is_zero _ = false

-- `v !== undefined`
unfoldable pub is_defined : Js → Bool
is_defined undefined = false
is_defined _ = true

-- `a < b` on two positive numbers.
unfoldable pub is_less : Js → Js → Bool
is_less (number (finite (pos m))) (number (finite (pos n))) = ltb m n
is_less _ _ = false

-- `v ?? d`
unfoldable pub or_default : Js → Js → Js
or_default undefined d = d
or_default null d = d
or_default v d = v

-- The number that a whole number literal denotes.
abbrev pub literal : ℕ → Js
literal k = number (finite (pos (k * one)))

pub data Code : Type 0 where
  must_be_object must_be_positive_number must_be_gte_publishing_interval must_be_byte_range : Code
  must_be_uint16 must_be_nonzero_uint16 must_be_non_empty_string must_be_non_empty_array : Code
  must_be_string must_be_version_pair must_be_nonnegative_integer must_be_integer : Code
  raw_data_requires_published_ds raw_data_requires_concrete_types : Code
  raw_data_string_missing_max_length filter_required : Code

-- The `path` of an issue: a field, or a part of the field with this index.
pub data Place : Type 0 where
  whole publishing_interval keep_alive_time max_network_message_size priority : Place
  writer_group_id name fields configuration_version data_set_writer_id data_set_name : Place
  key_frame_count data_set_field_content_mask published_data_set message_receive_timeout : Place
  field field_name field_data_type field_max_string_length : ℕ → Place

-- The message text is left out.
pub record Issue : Type 0 where
  pub path : Place
  pub code : Code

abbrev pub issue : Place → Code → List Issue
issue p c = record { path = p; code = c } ∷ []

-- `if (c) errors.push(…)`
unfoldable pub issue_if : Bool → Place → Code → List Issue
issue_if true p c = issue p c
issue_if false p c = []

-- What a factory throws, and what it returns.
pub data Made (A : Type 0) : Type 0 where
  made : A → Made A
  invalid : Code → List Issue → Made A

-- `if (!valid) throw`, with the code of the first issue.
unfoldable pub make : {A : Type 0} → List Issue → A → Made A
make [] a = made a
make (i ∷ issues) a = invalid i.code (i ∷ issues)
