-- ===== src/Mqtt.antt =====
-- The topics of lib/transports/mqtt-transport.js, and what send() publishes. A component is
-- `String(value)`, `none` where it is undefined or null. The client is a call of the mqtt package.
pub mod Topic
mod Tests
use node_red_contrib_opcua_s.Prelude.{
  ℕ, ltb, ◌==◌, Bool, true, false, not, ◌&&◌, ◌||◌, if◌then◌else◌, Option, none, some, is_some,
  List, [], ◌∷◌, ◌++◌,
}
use node_red_contrib_opcua_s.Uadp.Text.{Text}

-- TOPIC_FORBIDDEN: `/`, `+`, `#`, the control characters and DEL.
unfoldable pub is_forbidden : ℕ → Bool
is_forbidden c = c == 47 || (c == 43 || (c == 35 || (ltb c 32 || c == 0x7f)))

unfoldable pub has_forbidden : Text → Bool
has_forbidden [] = false
has_forbidden (c ∷ cs) = is_forbidden c || has_forbidden cs

unfoldable pub is_valid_component : Option Text → Bool
is_valid_component none = false
is_valid_component (some []) = false
is_valid_component (some (c ∷ cs)) = not (has_forbidden (c ∷ cs))

pub record Config : Type 0 where
  pub topic_prefix : Option Text
  pub publisher_id : Option Text
  pub qos : Option ℕ

pub record SendOptions : Type 0 where
  pub writer_group_id : Option Text
  pub data_set_writer_id : Option Text
  pub qos : Option ℕ

-- `this.config.topicPrefix || "ua"`
unfoldable pub prefix_of : Option Text → Option Text
prefix_of (some (c ∷ cs)) = some (c ∷ cs)
prefix_of _ = some (b'u' ∷ b'a' ∷ [])

abbrev pub text_of : Option Text → Text
text_of none = []
text_of (some s) = s

unfoldable pub topic : Text → Text → Text → Text → Text
topic prefix publisher group writer =
    prefix ++ (47 ∷ (publisher ++ (47 ∷ (group ++ (47 ∷ writer)))))

-- _buildTopic: `none` where a component is refused.
unfoldable pub build_topic : Config → SendOptions → Option Text
build_topic cfg opts =
    let prefix = prefix_of cfg.topic_prefix in
    if is_valid_component prefix
      && (is_valid_component cfg.publisher_id
          && (is_valid_component opts.writer_group_id
              && is_valid_component opts.data_set_writer_id))
    then some (
        topic (text_of prefix) (text_of cfg.publisher_id) (text_of opts.writer_group_id)
          (text_of opts.data_set_writer_id))
    else none

pub record Publish : Type 0 where
  pub topic : Text
  pub payload : List ℕ
  pub qos : ℕ
  pub retain : Bool

-- What send() does: the error event of a transport without a client, an exception, or one publish
-- for each buffer.
pub data Sent : Type 0 where
  not_connected invalid_character : Sent
  published : List Publish → Sent

unfoldable pub qos_of : Option ℕ → Option ℕ → ℕ
qos_of (some q) other = q
qos_of none (some q) = q
qos_of none none = 1

unfoldable pub publishes : Text → ℕ → List (List ℕ) → List Publish
publishes t q [] = []
publishes t q (b ∷ bs) =
    record { topic = t; payload = b; qos = q; retain = false } ∷ publishes t q bs

unfoldable pub send_to : Option Text → ℕ → List (List ℕ) → Sent
send_to none q buffers = invalid_character
send_to (some t) q buffers = published (publishes t q buffers)

unfoldable pub send : (has_client : Bool) → Config → SendOptions → List (List ℕ) → Sent
send false cfg opts buffers = not_connected
send true cfg opts buffers = send_to (build_topic cfg opts) (qos_of opts.qos cfg.qos) buffers
