-- ===== src/Config/DataSetReader.antt =====
-- validateDataSetReader and DataSetReader of lib/pubsub-config.js.
pub mod Timeout
mod Tests
use node_red_contrib_opcua_s.Prelude.{
  ℕ, ◌*◌, max, Bool, not, ◌&&◌, ◌||◌, Option, none, some, List, ◌++◌,
}
use node_red_contrib_opcua_s.Prelude.Int.{pos}
use node_red_contrib_opcua_s.Config.{
  Js, number, finite, one, is_positive_number, is_integer, is_defined, or_default, literal, Issue,
  issue, issue_if, Made, make, must_be_object, must_be_positive_number, must_be_integer,
  filter_required, whole,
}
use node_red_contrib_opcua_s.Config

pub record DataSetReaderConfig : Type 0 where
  pub publisher_id : Js
  pub writer_group_id : Js
  pub data_set_writer_id : Js
  pub keep_alive_time : Js
  pub message_receive_timeout : Js
  pub data_set_field_content_mask : Js

unfoldable pub has_filter : DataSetReaderConfig → Bool
has_filter cfg =
    is_defined cfg.publisher_id
    || (is_defined cfg.writer_group_id || is_defined cfg.data_set_writer_id)

unfoldable pub validate_data_set_reader : Option DataSetReaderConfig → List Issue
validate_data_set_reader none = issue whole must_be_object
validate_data_set_reader (some cfg) =
    issue_if (not (has_filter cfg)) whole filter_required
    ++ (issue_if (is_defined cfg.keep_alive_time && not (is_positive_number cfg.keep_alive_time))
          Config.keep_alive_time must_be_positive_number
        ++ (issue_if
              (is_defined cfg.message_receive_timeout
                && not (is_positive_number cfg.message_receive_timeout))
              Config.message_receive_timeout must_be_positive_number
            ++ issue_if
                (is_defined cfg.data_set_field_content_mask
                  && not (is_integer cfg.data_set_field_content_mask))
                Config.data_set_field_content_mask must_be_integer))

-- The units of a positive number, and 0 for any other value.
unfoldable pub positive_units : Js → ℕ
positive_units (number (finite (pos n))) = n
positive_units _ = 0

-- `Math.max(3 * keepAlive, 5000)`. (3 * keepAlive is rounded to a
-- double, which is an infinity where it is too large; the model has it exact and finite.)
unfoldable pub default_timeout : DataSetReaderConfig → Js
default_timeout cfg =
    number (finite (pos (max (3 * positive_units cfg.keep_alive_time) (5000 * one))))

unfoldable pub reader_with_defaults : DataSetReaderConfig → DataSetReaderConfig
reader_with_defaults cfg = record cfg {
  message_receive_timeout = or_default cfg.message_receive_timeout (default_timeout cfg);
  data_set_field_content_mask = or_default cfg.data_set_field_content_mask (literal 0);
}

unfoldable pub data_set_reader : DataSetReaderConfig → Made DataSetReaderConfig
data_set_reader cfg = make (validate_data_set_reader (some cfg)) (reader_with_defaults cfg)
