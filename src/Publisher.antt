-- ===== src/Publisher.antt =====
-- nodes/opcua-publisher.js behind its setup: the sequence numbers, the messages that are built, the
-- gate that holds them until the transport is connected, and the handlers. The encoder that
-- messageEncoding selects and the send of the transport are arguments, `none` and `false` where they
-- throw. What goes through to the node's output, and the texts of errors, are left out.
pub mod Json
pub mod Sequence
pub mod Emit
pub mod Fit
pub mod Gate
pub mod Cyclic
pub mod Stuck
pub mod Changes
mod Tests
use node_red_contrib_opcua_s.Prelude.{
  ℕ, ◌+◌, ◌%◌, ◌^◌, ◌==◌, Bool, true, false, not, if◌then◌else◌, Option, none, some, List, [], ◌∷◌,
  ◌++◌, map,
}
use node_red_contrib_opcua_s.Uadp.Text.{Text}
use node_red_contrib_opcua_s.Uadp.DateTime.{Date}
use node_red_contrib_opcua_s.Uadp.DataSet.{ConfigurationVersion}
use node_red_contrib_opcua_s.Uadp.DataSet.Object.{same_text, from_entries}
use node_red_contrib_opcua_s.Uadp.Network.{PublisherId}
use node_red_contrib_opcua_s.Connection.{Status, connected, disconnected, reconnecting, error}
use Json.{Value, object, Members, no_members, lookup, is_undefined, assign, stringify, copy_members}

-- A writer of the node, with its published data set: names and data types of the fields.
pub record Writer : Type 0 where
  pub data_set_writer_id : ℕ
  pub fields : List (Text × Text)
  pub configuration_version : ConfigurationVersion

pub record Config : Type 0 where
  pub publisher_id : Option PublisherId
  pub writer_group_id : ℕ
  pub max_network_message_size : ℕ
  pub writers : List Writer
  pub cyclic : Bool

pub data FrameType : Type 0 where
  keyframe keepalive : FrameType

-- A field is its data type and its value.
pub record Frame : Type 0 where
  pub data_set_writer_id : ℕ
  pub message_type : FrameType
  pub sequence_number : ℕ
  pub configuration_version : Option ConfigurationVersion
  pub fields : List (Text × (Text × Value))

pub record Message : Type 0 where
  pub publisher_id : Option PublisherId
  pub writer_group_id : ℕ
  pub sequence_number : ℕ
  pub data_set_writer_ids : List ℕ
  pub timestamp : Date
  pub payload : List Frame

-- `node.status`: idle, connected, publishing, disconnected and error.
pub data Shown : Type 0 where
  idle ready publishing offline failing : Shown

-- `dsm_seq` holds the writer ids that have a number already.
pub record Publisher : Type 0 where
  pub nm_seq : ℕ
  pub dsm_seq : List (ℕ × ℕ)
  pub latest_values : Members
  pub published_snapshot : Option Members
  pub connected : Bool
  pub pending_send : Option Message
  pub shown : Shown

abbrev pub new_publisher : Publisher
new_publisher = record {
  nm_seq = 0;
  dsm_seq = [];
  latest_values = no_members;
  published_snapshot = none;
  connected = false;
  pending_send = none;
  shown = idle;
}

-- `(n + 1) & 0xffff`
unfoldable pub next_sequence : ℕ → ℕ
next_sequence n = (n + 1) % 2 ^ 16

-- `_dsmSeq[id] || 0`, and `_dsmSeq[id] = n`
unfoldable pub number_of : ℕ → List (ℕ × ℕ) → ℕ
number_of id [] = 0
number_of id ((i, n) ∷ l) = if id == i then n else number_of id l

unfoldable pub set_number : ℕ → ℕ → List (ℕ × ℕ) → List (ℕ × ℕ)
set_number id n [] = (id, n) ∷ []
set_number id n ((i, m) ∷ l) = if id == i then (i, n) ∷ l else (i, m) ∷ set_number id n l

-- The fields that have a value, in the order of the published data set.
unfoldable pub present_fields : Members → List (Text × Text) → List (Text × (Text × Value))
present_fields source [] = []
present_fields source ((name, type) ∷ fields) =
    let rest = present_fields source fields in
    if is_undefined (lookup name source) then rest else (name, (type, lookup name source)) ∷ rest

unfoldable pub frame : FrameType → Members → ℕ → Writer → Frame
frame keyframe source n w = record {
  data_set_writer_id = w.data_set_writer_id;
  message_type = keyframe;
  sequence_number = n;
  configuration_version = some w.configuration_version;
  fields = from_entries (present_fields source w.fields);
}
frame keepalive source n w = record {
  data_set_writer_id = w.data_set_writer_id;
  message_type = keepalive;
  sequence_number = n;
  configuration_version = none;
  fields = [];
}

-- The `map` over the writers, which counts up `_dsmSeq`.
unfoldable pub frames : FrameType → Members → List Writer → List (ℕ × ℕ) → List (ℕ × ℕ) × List Frame
frames t source [] seqs = (seqs, [])
frames t source (w ∷ ws) seqs =
    let n = next_sequence (number_of w.data_set_writer_id seqs) in
    let rest = frames t source ws (set_number w.data_set_writer_id n seqs) in
    (rest.0, frame t source n w ∷ rest.1)

abbrev pub writer_id : Writer → ℕ
writer_id w = w.data_set_writer_id

-- `_buildNetworkMessage` and `_buildKeepAlive`
unfoldable pub build : FrameType → Config → Date → Members → Publisher → Publisher × Message
build t cfg now source p =
    let n = next_sequence p.nm_seq in
    let made = frames t source cfg.writers p.dsm_seq in
    (
      record p { nm_seq = n; dsm_seq = made.0 },
      record {
        publisher_id = cfg.publisher_id;
        writer_group_id = cfg.writer_group_id;
        sequence_number = n;
        data_set_writer_ids = map writer_id cfg.writers;
        timestamp = now;
        payload = made.1;
      },
    )

-- `a !== b` of two printed values, `none` where printing throws.
unfoldable pub differ : Option Text → Option Text → Option Bool
differ none b = none
differ (some a) none = none
differ (some a) (some b) = some (not (same_text a b))

unfoldable pub values_changed : Members → Option Members → Option Bool
values_changed current none = some true
values_changed current (some snapshot) =
    differ (stringify (object current)) (stringify (object snapshot))

-- What a handler leaves behind, what it sent, and whether it ended in its `catch`.
pub record Outcome : Type 0 where
  pub state : Publisher
  pub sent : List Message
  pub failed : Bool

unfoldable pub fail : Publisher → List Message → Outcome
fail p sent = record { state = record p { shown = failing }; sent = sent; failed = true }

abbrev pub quiet : Publisher → Outcome
quiet p = record { state = p; sent = []; failed = false }

-- What reaches the node. A tick comes only where publishMode is cyclic.
pub data Event : Type 0 where
  status : Status → Event
  ticked : Date → Event
  received : Date → Members → Event

module _ (encode : ℕ → Message → Option (List (List ℕ))) (send : List (List ℕ) → Bool)
    (cfg : Config) where
  -- send() of what the encoder returned.
  unfoldable pub deliver : Message → Option (List (List ℕ)) → Publisher → Outcome
  deliver m none p = fail p []
  deliver m (some encoded) p =
      if send encoded
      then record { state = record p { shown = publishing }; sent = m ∷ []; failed = false }
      else fail p []

  -- `_emit`, under the `try` of the handler that calls it.
  unfoldable pub emit : Message → Publisher → Outcome
  emit m p =
      if not p.connected
      then quiet (record p { pending_send = some m })
      else deliver m (encode cfg.max_network_message_size m) p

  -- The flush of the message that is pending.
  unfoldable pub flush : Option Message → Publisher → Outcome
  flush none p = quiet p
  flush (some m) p = emit m (record p { pending_send = none })

  unfoldable pub status_cb : Status → Publisher → Outcome
  status_cb connected p = flush p.pending_send (record p { connected = true; shown = ready })
  status_cb disconnected p = quiet (record p { connected = false; shown = offline })
  status_cb reconnecting p = quiet (record p { connected = false; shown = offline })
  status_cb error p = quiet (record p { shown = failing })

  -- A keyframe, once the values are printed (`none` where that throws).
  unfoldable pub emit_copied : Message → Option Text → Publisher → Outcome
  emit_copied m none p = fail p []
  emit_copied m (some s) p =
      emit m (record p { published_snapshot = some (copy_members p.latest_values) })

  -- A tick that publishes a keyframe: the snapshot is taken before it is sent.
  unfoldable pub publish_keyframe : Date → Publisher → Outcome
  publish_keyframe now p =
      let built = build keyframe cfg now p.latest_values p in
      emit_copied built.1 (stringify (object p.latest_values)) built.0

  unfoldable pub publish_keepalive : Date → Publisher → Outcome
  publish_keepalive now p = let built = build keepalive cfg now no_members p in emit built.1 built.0

  -- By whether the values have changed, `none` where the test throws.
  unfoldable pub publish : Date → Option Bool → Publisher → Outcome
  publish now none p = fail p []
  publish now (some true) p = publish_keyframe now p
  publish now (some false) p = publish_keepalive now p

  -- The callback of setInterval.
  unfoldable pub tick : Date → Publisher → Outcome
  tick now p = publish now (values_changed p.latest_values p.published_snapshot) p

  -- The input handler, with the values of `msg.payload` (none where it is no object).
  unfoldable pub input : Date → Members → Publisher → Outcome
  input now source p =
      if cfg.cyclic
      then quiet (record p { latest_values = assign p.latest_values source })
      else (let built = build keyframe cfg now source p in emit built.1 built.0)

  unfoldable pub handle : Event → Publisher → Outcome
  handle (status s) p = status_cb s p
  handle (ticked now) p = if cfg.cyclic then tick now p else quiet p
  handle (received now source) p = input now source p

  -- One event after the other, with all that is sent.
  unfoldable pub run : List Event → Publisher → Publisher × List Message
  run [] p = (p, [])
  run (e ∷ es) p =
      let first = handle e p in let rest = run es first.state in (rest.0, first.sent ++ rest.1)
