-- ===== src/Config/DataSetWriter.antt =====
-- validateDataSetWriter and DataSetWriter of lib/pubsub-config.js.
pub mod RawData
mod Tests
use node_red_contrib_opcua_s.Prelude.{
  ℕ, suc, ◌+◌, ◌-◌, ◌/◌, ◌%◌, ◌^◌, ◌==◌, Bool, false, not, ◌&&◌, ◌||◌, if◌then◌else◌, Option, none,
  some, List, [], ◌∷◌, ◌++◌,
}
use node_red_contrib_opcua_s.Prelude.Int.{pos, negsuc}
use node_red_contrib_opcua_s.Uadp.DataSet.Object.{same_text}
use node_red_contrib_opcua_s.Config.{
  Js, Number, number, finite, text, one, is_integer, is_uint16, is_zero, is_nonnegative_int,
  is_defined, or_default, literal, Issue, issue, issue_if, Made, made, invalid, make,
  must_be_object, must_be_nonzero_uint16, must_be_string, must_be_nonnegative_integer,
  must_be_integer, raw_data_requires_published_ds, raw_data_requires_concrete_types,
  raw_data_string_missing_max_length, whole,
}
use node_red_contrib_opcua_s.Config
use node_red_contrib_opcua_s.Config.PublishedDataSet.{
  FieldConfig, FieldValue, nullish, primitive, object, PublishedDataSetConfig, is_string,
  published_data_set,
}

-- A published data set that is falsy is `none`.
pub record DataSetWriterConfig : Type 0 where
  pub data_set_writer_id : Js
  pub data_set_name : Js
  pub key_frame_count : Js
  pub data_set_field_content_mask : Js
  pub published_data_set : Option PublishedDataSetConfig

-- What a validator or a factory does where it may hit `null.dataType`, a TypeError.
pub data Checked (A : Type 0) : Type 0 where
  type_error : Checked A
  checked : A → Checked A

-- `mask & 0x20`: ToInt32 drops the fraction and takes the rest modulo 2 ^ 32, so for -m the bit is
-- the one of 2 ^ 32 - m. A mask that is no number is 0 here; the validator has refused it above.
unfoldable pub has_raw_data_bit : Js → Bool
has_raw_data_bit (number (finite (pos n))) = n / one / 32 % 2 == 1
has_raw_data_bit (number (finite (negsuc n))) = (2 ^ 32 - (n + 1) / one % 2 ^ 32) / 32 % 2 == 1
has_raw_data_bit _ = false

-- ABSTRACT_TYPES_FOR_RAWDATA.has
unfoldable pub is_abstract_type : Js → Bool
is_abstract_type (text s) =
    same_text s (b'N' ∷ b'o' ∷ b'd' ∷ b'e' ∷ b'I' ∷ b'd' ∷ [])
    || (same_text s (
          b'E' ∷ b'x' ∷ b'p' ∷ b'a' ∷ b'n' ∷ b'd' ∷ b'e' ∷ b'd' ∷ b'N' ∷ b'o' ∷ b'd' ∷ b'e' ∷ b'I'
          ∷ b'd' ∷ [])
        || same_text s (
            b'D' ∷ b'i' ∷ b'a' ∷ b'g' ∷ b'n' ∷ b'o' ∷ b's' ∷ b't' ∷ b'i' ∷ b'c' ∷ b'I' ∷ b'n' ∷ b'f'
            ∷ b'o' ∷ []))
is_abstract_type _ = false

-- `v === "String"`
unfoldable pub is_string_type : Js → Bool
is_string_type (text s) = same_text s (b'S' ∷ b't' ∷ b'r' ∷ b'i' ∷ b'n' ∷ b'g' ∷ [])
is_string_type _ = false

unfoldable pub raw_field_issues : ℕ → FieldConfig → List Issue
raw_field_issues i f =
    issue_if (is_abstract_type f.data_type) (Config.field_data_type i)
      raw_data_requires_concrete_types
    ++ issue_if
        (is_string_type f.data_type
          && (not (is_defined f.max_string_length) || not (is_nonnegative_int f.max_string_length)))
        (Config.field_max_string_length i) raw_data_string_missing_max_length

abbrev pub prepend : List Issue → Checked (List Issue) → Checked (List Issue)
prepend is type_error = type_error
prepend is (checked js) = checked (is ++ js)

-- The `forEach`, from index `i` on. A member of a primitive value is undefined.
unfoldable pub all_raw_field_issues : ℕ → List FieldValue → Checked (List Issue)
all_raw_field_issues i [] = checked []
all_raw_field_issues i (nullish ∷ fs) = type_error
all_raw_field_issues i (primitive ∷ fs) = all_raw_field_issues (suc i) fs
all_raw_field_issues i (object f ∷ fs) =
    prepend (raw_field_issues i f) (all_raw_field_issues (suc i) fs)

unfoldable pub raw_data_issues : Option PublishedDataSetConfig → Checked (List Issue)
raw_data_issues none = checked (issue Config.published_data_set raw_data_requires_published_ds)
raw_data_issues (some pds) = elim pds.fields [
  | none ↦ checked (issue Config.published_data_set raw_data_requires_published_ds)
  | some fs ↦ all_raw_field_issues 0 fs
]

unfoldable pub own_issues : DataSetWriterConfig → List Issue
own_issues cfg =
    issue_if (not (is_uint16 cfg.data_set_writer_id) || is_zero cfg.data_set_writer_id)
      Config.data_set_writer_id must_be_nonzero_uint16
    ++ (issue_if (is_defined cfg.data_set_name && not (is_string cfg.data_set_name))
          Config.data_set_name must_be_string
        ++ (issue_if
              (is_defined cfg.key_frame_count && not (is_nonnegative_int cfg.key_frame_count))
              Config.key_frame_count must_be_nonnegative_integer
            ++ issue_if
                (is_defined cfg.data_set_field_content_mask
                  && not (is_integer cfg.data_set_field_content_mask))
                Config.data_set_field_content_mask must_be_integer))

unfoldable pub validate_data_set_writer : Option DataSetWriterConfig → Checked (List Issue)
validate_data_set_writer none = checked (issue whole must_be_object)
validate_data_set_writer (some cfg) =
    let raw = raw_data_issues cfg.published_data_set in
    if has_raw_data_bit cfg.data_set_field_content_mask
    then prepend (own_issues cfg) raw
    else checked (own_issues cfg)

-- The factory, once the configuration is valid: the published data set goes through its own one.
unfoldable pub writer_with_data_set :
    DataSetWriterConfig → Option PublishedDataSetConfig → DataSetWriterConfig
writer_with_data_set cfg pds = record {
  data_set_writer_id = cfg.data_set_writer_id;
  data_set_name = cfg.data_set_name;
  key_frame_count = or_default cfg.key_frame_count (literal 1);
  data_set_field_content_mask = or_default cfg.data_set_field_content_mask (literal 0);
  published_data_set = pds;
}

unfoldable pub writer_of_data_set :
    DataSetWriterConfig → Made PublishedDataSetConfig → Made DataSetWriterConfig
writer_of_data_set cfg (made pds) = made (writer_with_data_set cfg (some pds))
writer_of_data_set cfg (invalid c issues) = invalid c issues

unfoldable pub build_writer : DataSetWriterConfig → Made DataSetWriterConfig
build_writer cfg = elim cfg.published_data_set [
  | none ↦ made (writer_with_data_set cfg none)
  | some pds ↦ writer_of_data_set cfg (published_data_set pds)
]

unfoldable pub data_set_writer : DataSetWriterConfig → Checked (Made DataSetWriterConfig)
data_set_writer cfg = elim (validate_data_set_writer (some cfg)) [
  | type_error ↦ type_error
  | checked [] ↦ checked (build_writer cfg)
  | checked (i ∷ issues) ↦ checked (invalid i.code (i ∷ issues))
]
