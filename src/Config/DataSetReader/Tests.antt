-- ===== src/Config/DataSetReader/Tests.antt =====
-- A DataSetReader with no timeout of its own.
use node_red_contrib_opcua_s.Prelude.{◌≡◌, refl, true}
use node_red_contrib_opcua_s.Config.{
  undefined, is_positive_number, is_integer, is_defined, or_default, literal, one, issue_if, made,
  make,
}
use node_red_contrib_opcua_s.Config.Issues.{IsPositive}
use node_red_contrib_opcua_s.Config.DataSetReader.{
  DataSetReaderConfig, has_filter, validate_data_set_reader, positive_units, default_timeout,
  reader_with_defaults, data_set_reader,
}
use node_red_contrib_opcua_s.Config.DataSetReader.Timeout.{data_set_reader-IsPositive}

abbrev one_writer : DataSetReaderConfig
one_writer = record {
  publisher_id = undefined;
  writer_group_id = undefined;
  data_set_writer_id = literal 7;
  keep_alive_time = literal 2000;
  message_receive_timeout = undefined;
  data_set_field_content_mask = undefined;
}

abbrev one_writer_made : DataSetReaderConfig
one_writer_made = record one_writer {
  message_receive_timeout = literal 6000;
  data_set_field_content_mask = literal 0;
}

reader_made : data_set_reader one_writer ≡ made one_writer_made
unfolding data_set_reader make validate_data_set_reader has_filter issue_if is_positive_number
    is_integer is_defined or_default positive_units default_timeout reader_with_defaults one
reader_made = refl

reader_example : (has_filter one_writer_made ≡ true) × IsPositive (literal 6000)
reader_example = data_set_reader-IsPositive one_writer one_writer_made reader_made
