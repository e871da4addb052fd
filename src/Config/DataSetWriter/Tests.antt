-- ===== src/Config/DataSetWriter/Tests.antt =====
-- A DataSetWriter with RawData.
use node_red_contrib_opcua_s.Prelude.{◌≡◌, refl, true, some, [], ◌∷◌}
use node_red_contrib_opcua_s.Uadp.DataSet.Object.{same_text}
use node_red_contrib_opcua_s.Config.{
  undefined, text, is_integer, is_nonnegative_int, is_between_zero_and, is_uint16, is_zero,
  is_defined, literal, one, issue_if,
}
use node_red_contrib_opcua_s.Config.PublishedDataSet.{
  object, absent, is_string, PublishedDataSetConfig,
}
use node_red_contrib_opcua_s.Config.DataSetWriter.{
  DataSetWriterConfig, checked, has_raw_data_bit, is_abstract_type, is_string_type,
  raw_field_issues, all_raw_field_issues, raw_data_issues, own_issues, validate_data_set_writer,
}
use node_red_contrib_opcua_s.Config.DataSetWriter.RawData.{
  IsRawDataSet, validate_data_set_writer-IsRawDataSet,
}

abbrev short_text : PublishedDataSetConfig
short_text = record {
  name = text (b'D' ∷ []);
  fields = some (
      object (record {
        name = text (b'A' ∷ []);
        data_type = text (b'S' ∷ b't' ∷ b'r' ∷ b'i' ∷ b'n' ∷ b'g' ∷ []);
        max_string_length = literal 10;
      })
      ∷ []);
  configuration_version = absent;
}

abbrev raw_writer : DataSetWriterConfig
raw_writer = record {
  data_set_writer_id = literal 1;
  data_set_name = undefined;
  key_frame_count = undefined;
  data_set_field_content_mask = literal 0x20;
  published_data_set = some short_text;
}

raw_bit : has_raw_data_bit (literal 0x20) ≡ true
unfolding has_raw_data_bit one
raw_bit = refl

raw_writer_valid : validate_data_set_writer (some raw_writer) ≡ checked []
unfolding validate_data_set_writer own_issues raw_data_issues all_raw_field_issues raw_field_issues
    is_abstract_type is_string_type has_raw_data_bit same_text issue_if is_integer
    is_nonnegative_int is_between_zero_and is_uint16 is_zero is_defined is_string one
raw_writer_valid = refl

raw_example : IsRawDataSet (some short_text)
raw_example = validate_data_set_writer-IsRawDataSet raw_writer raw_bit raw_writer_valid
