-- ===== src/Mqtt/Tests.antt =====
-- A topic of lib/transports/mqtt-transport.js.
use node_red_contrib_opcua_s.Prelude.{All, none, some, [], ◌∷◌, ◌≡◌, refl}
use node_red_contrib_opcua_s.Uadp.Text.{Text}
use node_red_contrib_opcua_s.Mqtt.{
  Config, SendOptions, is_forbidden, has_forbidden, is_valid_component, prefix_of, topic,
  build_topic,
}
use node_red_contrib_opcua_s.Mqtt.Topic.{levels, IsLevel, build_topic-IsTopic}

abbrev config : Config
config = record { topic_prefix = none; publisher_id = some (b'p' ∷ []); qos = none }

abbrev options : SendOptions
options = record {
  writer_group_id = some (b'1' ∷ []);
  data_set_writer_id = some (b'2' ∷ []);
  qos = none;
}

abbrev built : Text
built = b'u' ∷ b'a' ∷ 47 ∷ b'p' ∷ 47 ∷ b'1' ∷ 47 ∷ b'2' ∷ []

build_topic-IsTopic_example :
    (levels built ≡ (b'u' ∷ b'a' ∷ []) ∷ (b'p' ∷ []) ∷ (b'1' ∷ []) ∷ (b'2' ∷ []) ∷ [])
    × All IsLevel (levels built)
unfolding build_topic prefix_of is_valid_component has_forbidden is_forbidden topic
build_topic-IsTopic_example = build_topic-IsTopic config options built refl
