-- ===== src/Publisher/Changes.antt =====
-- A tick of nodes/opcua-publisher.js publishes what has changed.
use node_red_contrib_opcua_s.Prelude.{ℕ, Bool, true, false, not, Option, List, [], ◌∷◌, ◌≡◌}
use node_red_contrib_opcua_s.Uadp.Text.{Text}
use node_red_contrib_opcua_s.Publisher.Json.{Members}
use node_red_contrib_opcua_s.Publisher.Emit.{is_taken, all_taken}
use node_red_contrib_opcua_s.Publisher.Sequence.{frame_fields, fields_of}
use node_red_contrib_opcua_s.Publisher.Cyclic.{IsPublished, IsKeepalive}
use node_red_contrib_opcua_s.Publisher.{Config, Message, Publisher, Outcome}
use node_red_contrib_opcua_s.Prelude.{map}

-- A message without keyframes where nothing has changed, and with the fields of the values where they have.
abbrev pub IsUpdate : Config → Members → Bool → Message → Type 0
IsUpdate cfg ms true m = map frame_fields m.payload ≡ fields_of ms cfg.writers
IsUpdate cfg ms false m = IsKeepalive m

-- A handler that offered just one message, an update, to the encoder and to send(), sent it if
-- neither refused it and failed if one did, and left its values published.
pub record IsUpdated (encode : ℕ → Message → Option (List (List ℕ))) (send : List (List ℕ) → Bool)
    (cfg : Config) (p : Publisher) (changed : Bool) (o : Outcome) : Type 0 where
  pub update : Message
  pub alone : o.sent ≡ all_taken encode send cfg (update ∷ [])
  pub reported : o.failed ≡ not (is_taken encode send cfg update)
  pub current : IsUpdate cfg p.latest_values changed update
  pub same_values : o.state.latest_values ≡ p.latest_values
  pub published : IsPublished o.state
