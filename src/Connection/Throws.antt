-- ===== src/Connection/Throws.antt =====
-- A connection of nodes/opcua-pubsub-connection.js whose transportType has no transport.
use node_red_contrib_opcua_s.Prelude.{suc, none, ◌≡◌, refl, arith}
use node_red_contrib_opcua_s.Connection.{
  unknown, Connection, cancel_grace, create_transport, take_transport, count_up, acquire_transport,
  start_grace, count_down, release_transport, close_shared, grace_over, fan_out,
  register_status_callback, unregister_status_callback, close_begin, close_end,
}
use node_red_contrib_opcua_s.Connection.Lifecycle.{
  Phase, Step, acquire, acquire_closing, end_close_late, release, fire, event, register, unregister,
  begin_close, end_close, Reach, start, next,
}

-- The type is unknown, and there is no transport.
abbrev IsEmpty : Connection → Type 0
IsEmpty c = (c.transport_type ≡ unknown) × (c.shared_transport ≡ none)

Step-IsEmpty : {p q : Phase} {c d : Connection} → Step p c q d → IsEmpty c → IsEmpty d
unfolding acquire_transport take_transport count_up cancel_grace create_transport release_transport
    count_down start_grace grace_over close_shared fan_out register_status_callback
    unregister_status_callback close_begin close_end
Step-IsEmpty (acquire p c o) h = ground arith
Step-IsEmpty (acquire_closing c) h = ground arith
Step-IsEmpty (release p c) h = ground arith
Step-IsEmpty (fire p t c there) h = ground arith
Step-IsEmpty (event p i s c) h = ground arith
Step-IsEmpty (register p cb c) h = ground arith
Step-IsEmpty (unregister p cb c) h = ground arith
Step-IsEmpty (begin_close p c o) h = ground arith
Step-IsEmpty (end_close c) h = ground arith
Step-IsEmpty (end_close_late c) h = ground arith

Reach-IsEmpty : {p : Phase} {c : Connection} → Reach unknown p c → IsEmpty c
Reach-IsEmpty start = (refl, refl)
Reach-IsEmpty (next r s) = Step-IsEmpty s (Reach-IsEmpty r)

-- In a connection of an unknown type that was used in any way, acquireTransport throws, and the
-- count of its consumers is higher by one all the same; no transport is there before or behind it.
pub acquire_transport_unknown :
    {p : Phase} {c : Connection}
    → Reach unknown p c
    → ((acquire_transport c).1 ≡ none)
      × ((acquire_transport c).0.ref_count ≡ suc c.ref_count)
      × (c.shared_transport ≡ none)
      × ((acquire_transport c).0.shared_transport ≡ none)
unfolding acquire_transport take_transport count_up cancel_grace create_transport
acquire_transport_unknown r = let h = Reach-IsEmpty r in ground (arith, h)
