-- ===== src/Config/WriterGroup/Tests.antt =====
-- Runs of validateWriterGroup and WriterGroup of lib/pubsub-config.js.
use node_red_contrib_opcua_s.Prelude.{◌≡◌, refl, some, [], ◌↔◌}
use node_red_contrib_opcua_s.Config.{
  undefined, is_positive_number, is_integer, is_between_zero_and, is_uint16, is_zero, is_defined,
  is_less, or_default, literal, one, issue_if, made, make,
}
use node_red_contrib_opcua_s.Config.WriterGroup.{
  WriterGroupConfig, keep_alive_issues, writer_group_id_issues, writer_group_issues,
  validate_writer_group, with_defaults, writer_group,
}
use node_red_contrib_opcua_s.Config.WriterGroup.Spec.{IsWriterGroup}
use node_red_contrib_opcua_s.Config.WriterGroup.Valid.{
  IsCompleteWriterGroup, validate_writer_group-IsWriterGroup, writer_group-IsCompleteWriterGroup,
}

abbrev each_second : WriterGroupConfig
each_second = record {
  publishing_interval = literal 1000;
  keep_alive_time = undefined;
  max_network_message_size = undefined;
  priority = undefined;
  writer_group_id = literal 7;
}

abbrev each_second_complete : WriterGroupConfig
each_second_complete = record {
  publishing_interval = literal 1000;
  keep_alive_time = literal 1000;
  max_network_message_size = literal 1400;
  priority = literal 128;
  writer_group_id = literal 7;
}

each_second_made : writer_group each_second ≡ made each_second_complete
unfolding writer_group make with_defaults validate_writer_group writer_group_issues
    keep_alive_issues writer_group_id_issues issue_if is_positive_number is_integer
    is_between_zero_and is_uint16 is_zero is_defined is_less or_default one
each_second_made = refl

valid_example : (validate_writer_group (some each_second) ≡ []) ↔ IsWriterGroup each_second
valid_example = validate_writer_group-IsWriterGroup each_second

made_example :
    IsCompleteWriterGroup each_second_complete
    × (writer_group each_second_complete ≡ made each_second_complete)
made_example = writer_group-IsCompleteWriterGroup each_second each_second_complete each_second_made
