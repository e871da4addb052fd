-- ===== src/Connection/Grace.antt =====
-- The grace window of nodes/opcua-pubsub-connection.js between the last release and the close.
use node_red_contrib_opcua_s.Prelude.{
  remove, contains, ℕ, suc, false, some, List, [], ◌∷◌, ◌≡◌, refl, arith, inl, inr, Bool-cases,
}
use node_red_contrib_opcua_s.Connection.{
  TransportType, Connection, cancel_grace, take_transport, count_up, acquire_transport, start_grace,
  count_down, release_transport,
}
use node_red_contrib_opcua_s.Connection.Lifecycle.{Phase, in_use, IsSound, Reach, Reach-IsSound}

remove_absent : (n : ℕ) (ms : List ℕ) → contains n ms ≡ false → remove n ms ≡ ms
unfolding remove contains
remove_absent n [] h = refl
remove_absent n (m ∷ ms) h = ground (arith, remove_absent n ms)

fresh_timer : {p : Phase} {c : Connection} → IsSound p c → contains c.next_timer c.timers ≡ false
fresh_timer {p} {c} h = elim (Bool-cases (contains c.next_timer c.timers)) [
  | inl there ↦ absurd (ground (arith, h.timers_made c.next_timer there))
  | inr absent ↦ absent
]

-- In a connection that has been used in any way and is held once: the transport is handed out again
-- when it is acquired within the grace window, and the connection is as it was before the release (its timer is cancelled, its number used up).
pub acquire-release :
    {t : TransportType} {c : Connection} {i : ℕ}
    → Reach t in_use c
    → c.ref_count ≡ 1
    → c.shared_transport ≡ some i
    → acquire_transport (release_transport c) ≡ (record c { next_timer = suc c.next_timer }, some i)
unfolding acquire_transport take_transport count_up cancel_grace release_transport count_down
    start_grace remove
acquire-release {t} {c} {i} r one e =
    let h = Reach-IsSound r in ground (arith, h, fresh_timer h, remove_absent c.next_timer c.timers)
