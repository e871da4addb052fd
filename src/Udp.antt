-- ===== src/Udp.antt =====
-- UdpTransport._onDatagram of lib/transports/udp-transport.js: what it does with a datagram. The
-- socket, and what it emits of the sender, are left out; the clock is an argument.
pub mod Delivery
pub mod EndToEnd
pub mod Mtu
pub mod Sample
mod Tests
use node_red_contrib_opcua_s.Prelude.{ℕ, later, Option, none, some, List, [], ◌∷◌, ◌++◌}
use node_red_contrib_opcua_s.Uadp.Result.{Error, Result, ok, err}
use node_red_contrib_opcua_s.Uadp.Text.{Text}
use node_red_contrib_opcua_s.Uadp.Network.{Chunk, NetworkMessage}
use node_red_contrib_opcua_s.Uadp.Network.Codec.{decode_network_message}
use node_red_contrib_opcua_s.Reassembler.{Reassembler, Warning, Pushed, push}
use node_red_contrib_opcua_s.Reassembler.Key.{key_of}

-- `emit("error", …)`, `emit("message", …)`, and the warnings of the reassembler.
pub data Event : Type 0 where
  error : Error → Event
  message : List ℕ → Event
  warning : Warning → Event

pub record Handled : Type 0 where
  pub state : Reassembler
  pub events : List Event

abbrev pub warn_all : List Warning → List Event
warn_all [] = []
warn_all (w ∷ ws) = warning w ∷ warn_all ws

-- `if (!complete) return;`
abbrev pub message_of : Option (List ℕ) → List Event
message_of none = []
message_of (some bytes) = message bytes ∷ []

abbrev pub handled_push : Pushed → Handled
handled_push p = record { state = p.state; events = warn_all p.warnings ++ message_of p.complete }

unfoldable pub on_decoded : ℕ → Reassembler → List ℕ → NetworkMessage → Handled
on_decoded now r buf nm = elim nm.chunk [
  | none ↦ record { state = r; events = message buf ∷ [] }
  | some c ↦ handled_push (push now r (key_of nm c) c)
]

unfoldable pub on_datagram : ℕ → Reassembler → List ℕ → Handled
on_datagram now r buf = elim (decode_network_message buf) [
  | err e ↦ record { state = r; events = error e ∷ [] }
  | ok nm ↦ on_decoded now r buf nm
]

-- One datagram after the other, each at its time.
unfoldable pub on_datagrams : (ℕ → ℕ) → Reassembler → List (List ℕ) → Handled
on_datagrams clock r [] = record { state = r; events = [] }
on_datagrams clock r (buf ∷ bufs) =
    let rest = on_datagrams (later clock) (on_datagram (clock 0) r buf).state bufs in
    record { state = rest.state; events = (on_datagram (clock 0) r buf).events ++ rest.events }

-- The messages that a subscriber gets.
abbrev pub messages : List Event → List (List ℕ)
messages [] = []
messages (message bytes ∷ es) = bytes ∷ messages es
messages (error e ∷ es) = messages es
messages (warning w ∷ es) = messages es
