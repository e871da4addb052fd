-- ===== src/Connection/Tests.antt =====
-- Connections of nodes/opcua-pubsub-connection.js in use.
use node_red_contrib_opcua_s.Prelude.{contains, suc, ◌≡◌, refl, none, some, arith}
use node_red_contrib_opcua_s.Connection.{
  udp, unknown, connected, Connection, new_connection, cancel_grace, create_transport,
  take_transport, count_up, acquire_transport, start_grace, count_down, release_transport,
  grace_over, fan_out, register_status_callback,
}
use node_red_contrib_opcua_s.Connection.Lifecycle.{
  in_use, Reach, start, next, acquire, release, fire, event, register, IsSound, Reach-IsSound,
  Step-keeps_held,
}
use node_red_contrib_opcua_s.Connection.Grace.{acquire-release}
use node_red_contrib_opcua_s.Connection.Throws.{acquire_transport_unknown}

-- A consumer registers and acquires, and the transport connects.
abbrev held : Connection
held =
    (fan_out 0 connected
      (acquire_transport (register_status_callback 7 (new_connection udp)).0).0).0

abbrev held_reach : Reach udp in_use held
held_reach =
    next
      (next (next start (register in_use 7 (new_connection udp)))
        (acquire in_use (register_status_callback 7 (new_connection udp)).0 tt))
      (event in_use 0 connected
        (acquire_transport (register_status_callback 7 (new_connection udp)).0).0)

-- It releases, and the grace timer fires.
abbrev fired : Connection
fired = grace_over 0 (release_transport held)

abbrev fired_reach : Reach udp in_use fired
unfolding contains release_transport count_down start_grace fan_out acquire_transport take_transport
    count_up cancel_grace create_transport register_status_callback
fired_reach =
    next (next held_reach (release in_use held)) (fire in_use 0 (release_transport held) refl)

fired-IsSound_example : IsSound in_use fired
fired-IsSound_example = Reach-IsSound fired_reach

keeps_example :
    ((release_transport (acquire_transport held).0).closed ≡ (acquire_transport held).0.closed)
    × ((release_transport (acquire_transport held).0).shared_transport ≡ some 0)
unfolding fan_out acquire_transport take_transport count_up cancel_grace create_transport
    register_status_callback
keeps_example = Step-keeps_held (release in_use (acquire_transport held).0) (omega arith) refl

acquire-release_example :
    acquire_transport (release_transport held) ≡ (record held { next_timer = 1 }, some 0)
unfolding fan_out acquire_transport take_transport count_up cancel_grace create_transport
    register_status_callback
acquire-release_example = acquire-release held_reach refl refl

throws_example :
    let c = (acquire_transport (new_connection unknown)).0 in
    ((acquire_transport c).1 ≡ none)
    × ((acquire_transport c).0.ref_count ≡ suc c.ref_count)
    × (c.shared_transport ≡ none)
    × ((acquire_transport c).0.shared_transport ≡ none)
throws_example = acquire_transport_unknown (next start (acquire in_use (new_connection unknown) tt))
