-- ===== src/Config/WriterGroup.antt =====
-- validateWriterGroup and WriterGroup of lib/pubsub-config.js.
pub mod Spec
pub mod Valid
mod Tests
use node_red_contrib_opcua_s.Prelude.{
  Bool, true, false, not, ◌&&◌, ◌||◌, if◌then◌else◌, Option, none, some, List, [], ◌∷◌, ◌++◌,
}
use node_red_contrib_opcua_s.Config.{
  Js, is_positive_number, is_integer, is_between_zero_and, is_uint16, is_zero, is_defined, is_less,
  or_default, literal, Issue, issue, issue_if, Made, make, must_be_object, must_be_positive_number,
  must_be_gte_publishing_interval, must_be_byte_range, must_be_uint16, must_be_nonzero_uint16,
  whole,
}
use node_red_contrib_opcua_s.Config

pub record WriterGroupConfig : Type 0 where
  pub publishing_interval : Js
  pub keep_alive_time : Js
  pub max_network_message_size : Js
  pub priority : Js
  pub writer_group_id : Js

unfoldable pub keep_alive_issues : WriterGroupConfig → List Issue
keep_alive_issues cfg =
    if is_defined cfg.keep_alive_time
    then (if not (is_positive_number cfg.keep_alive_time)
        then issue Config.keep_alive_time must_be_positive_number
        else issue_if
            (is_positive_number cfg.publishing_interval
              && is_less cfg.keep_alive_time cfg.publishing_interval)
            Config.keep_alive_time must_be_gte_publishing_interval)
    else []

unfoldable pub writer_group_id_issues : Js → List Issue
writer_group_id_issues id =
    if not (is_uint16 id)
    then issue Config.writer_group_id must_be_uint16
    else issue_if (is_zero id) Config.writer_group_id must_be_nonzero_uint16

unfoldable pub writer_group_issues : WriterGroupConfig → List Issue
writer_group_issues cfg =
    issue_if (not (is_positive_number cfg.publishing_interval)) Config.publishing_interval
      must_be_positive_number
    ++ (keep_alive_issues cfg
        ++ (issue_if
              (is_defined cfg.max_network_message_size
                && not (is_positive_number cfg.max_network_message_size))
              Config.max_network_message_size must_be_positive_number
            ++ (issue_if
                  (is_defined cfg.priority
                    && (not (is_integer cfg.priority)
                        || not (is_between_zero_and 255 cfg.priority)))
                  Config.priority must_be_byte_range
                ++ writer_group_id_issues cfg.writer_group_id)))

-- `none` is a configuration that is no object.
unfoldable pub validate_writer_group : Option WriterGroupConfig → List Issue
validate_writer_group none = issue whole must_be_object
validate_writer_group (some cfg) = writer_group_issues cfg

-- The defaults: keepAliveTime = publishingInterval, maxNetworkMessageSize = 1400, priority = 128.
unfoldable pub with_defaults : WriterGroupConfig → WriterGroupConfig
with_defaults cfg = record {
  publishing_interval = cfg.publishing_interval;
  keep_alive_time = or_default cfg.keep_alive_time cfg.publishing_interval;
  max_network_message_size = or_default cfg.max_network_message_size (literal 1400);
  priority = or_default cfg.priority (literal 128);
  writer_group_id = cfg.writer_group_id;
}

unfoldable pub writer_group : WriterGroupConfig → Made WriterGroupConfig
writer_group cfg = make (validate_writer_group (some cfg)) (with_defaults cfg)
