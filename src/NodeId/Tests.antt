-- ===== src/NodeId/Tests.antt =====
-- NodeIds of lib/opcua-utils.js: one with a semicolon in its identifier.
use node_red_contrib_opcua_s.Prelude.{some, [], ◌∷◌, ◌≡◌, refl}
use node_red_contrib_opcua_s.Prelude.Int.{ℤ, pos}
use node_red_contrib_opcua_s.Uadp.Text.{Text}
use node_red_contrib_opcua_s.Reassembler.Key.{show_int}
use node_red_contrib_opcua_s.NodeId.{whole, string, NodeId, parse_node_id, node_id_to_string}
use node_red_contrib_opcua_s.NodeId.RoundTrip.{parse_node_id-node_id_to_string}

abbrev motor : NodeId
motor = record { namespace_index = whole (pos 12); identifier = string (b'L' ∷ 59 ∷ b'M' ∷ []) }

-- An engine that prints all digits.
abbrev all_shown : ℤ → Text
all_shown i = show_int i

motor_example : parse_node_id all_shown (node_id_to_string all_shown motor) ≡ some motor
motor_example = parse_node_id-node_id_to_string all_shown motor refl tt
