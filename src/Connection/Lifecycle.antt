-- ===== src/Connection/Lifecycle.antt =====
-- Every sequence of calls and callbacks that a connection of nodes/opcua-pubsub-connection.js can
-- meet, and what holds behind it.
use node_red_contrib_opcua_s.Prelude.{
  contains, contains-remove, ℕ, ◌<◌, true, false, none, some, is_some, ◌≡◌, arith, inl, inr,
  Option-cases,
}
use node_red_contrib_opcua_s.Connection.{
  TransportType, Status, Connection, new_connection, cancel_grace, create_transport, take_transport,
  count_up, acquire_transport, start_grace, count_down, release_transport, close_shared, grace_over,
  fan_out, register_status_callback, unregister_status_callback, close_begin, close_end,
}

-- The node is in use, or its close handler is between its `await` and its end: `closing`, and
-- `reopened` once a consumer has acquired a transport in the meantime. `late` is the node behind a
-- close handler that ended so: it still has a transport, which the handler counts as held by nobody.
pub data Phase : Type 0 where
  in_use closing reopened late : Phase

abbrev pub IsOpen : Phase → Type 0
IsOpen in_use = Unit {0}
IsOpen closing = ⊥
IsOpen reopened = ⊥
IsOpen late = Unit {0}

abbrev pub NotClosing : Phase → Type 0
NotClosing closing = ⊥
NotClosing _ = Unit {0}

-- What the consumers, the transports and the event loop do, in any phase.
pub data Step : Phase → Connection → Phase → Connection → Type 0 where
  acquire : (p : Phase) (c : Connection) → NotClosing p → Step p c p (acquire_transport c).0
  acquire_closing : (c : Connection) → Step closing c reopened (acquire_transport c).0
  release : (p : Phase) (c : Connection) → Step p c p (release_transport c)
  fire :
      (p : Phase) (t : ℕ) (c : Connection)
      → contains t c.timers ≡ true
      → Step p c p (grace_over t c)
  event : (p : Phase) (i : ℕ) (s : Status) (c : Connection) → Step p c p (fan_out i s c).0
  register : (p : Phase) (cb : ℕ) (c : Connection) → Step p c p (register_status_callback cb c).0
  unregister : (p : Phase) (cb : ℕ) (c : Connection) → Step p c p (unregister_status_callback cb c)
  begin_close : (p : Phase) (c : Connection) → IsOpen p → Step p c closing (close_begin c)
  end_close : (c : Connection) → Step closing c in_use (close_end c)
  end_close_late : (c : Connection) → Step reopened c late (close_end c)

pub data Reach (t : TransportType) : Phase → Connection → Type 0 where
  start : Reach t in_use (new_connection t)
  next : {p q : Phase} {c d : Connection} → Reach t p c → Step p c q d → Reach t q d

abbrev pub IsAbsent : Phase → Connection → Type 0
IsAbsent closing c = c.shared_transport ≡ none
IsAbsent _ c = Unit {0}

-- A transport that nobody holds has a grace timer.
abbrev pub HasNoLeak : Phase → Connection → Type 0
HasNoLeak in_use c =
    c.ref_count ≡ 0 → is_some c.shared_transport ≡ true → is_some c.grace_timer ≡ true
HasNoLeak _ c = Unit {0}

-- Instances closed were made, the shared one was made and is not closed; only a shared transport
-- counts as connected; while a grace timer is noted nobody holds the transport, and it will fire; in
-- use, a transport that nobody holds has a grace timer; and there is none while the node closes.
pub record IsSound (p : Phase) (c : Connection) : Type 0 where
  pub closed_made : (i : ℕ) → contains i c.closed ≡ true → i < c.next_transport
  pub shared_made : (i : ℕ) → c.shared_transport ≡ some i → i < c.next_transport
  pub shared_open : (i : ℕ) → c.shared_transport ≡ some i → contains i c.closed ≡ false
  pub connected_there : c.transport_connected ≡ true → is_some c.shared_transport ≡ true
  pub idle_timer : is_some c.grace_timer ≡ true → c.ref_count ≡ 0
  pub pending : (t : ℕ) → c.grace_timer ≡ some t → contains t c.timers ≡ true
  pub timers_made : (t : ℕ) → contains t c.timers ≡ true → t < c.next_timer
  pub no_leak : HasNoLeak p c
  pub closing_absent : IsAbsent p c

new-IsSound : (t : TransportType) → IsSound in_use (new_connection t)
unfolding contains
new-IsSound t = ground arith

acquire-IsSound :
    (p : Phase) (c : Connection) → NotClosing p → IsSound p c → IsSound p (acquire_transport c).0
unfolding acquire_transport take_transport count_up cancel_grace create_transport contains
acquire-IsSound in_use c open_now h = elim (Option-cases c.grace_timer) [
  | inl e ↦ ground arith
  | inr (t, e) ↦ ground (arith, λ (s : ℕ). contains-remove s t c.timers)
]
acquire-IsSound closing c open_now h = absurd open_now
acquire-IsSound reopened c open_now h = elim (Option-cases c.grace_timer) [
  | inl e ↦ ground arith
  | inr (t, e) ↦ ground (arith, λ (s : ℕ). contains-remove s t c.timers)
]
acquire-IsSound late c open_now h = elim (Option-cases c.grace_timer) [
  | inl e ↦ ground arith
  | inr (t, e) ↦ ground (arith, λ (s : ℕ). contains-remove s t c.timers)
]

acquire_closing-IsSound :
    (c : Connection) → IsSound closing c → IsSound reopened (acquire_transport c).0
unfolding acquire_transport take_transport count_up cancel_grace create_transport contains
acquire_closing-IsSound c h = elim (Option-cases c.grace_timer) [
  | inl e ↦ ground arith
  | inr (t, e) ↦ ground (arith, λ (s : ℕ). contains-remove s t c.timers)
]

release-IsSound : (p : Phase) (c : Connection) → IsSound p c → IsSound p (release_transport c)
unfolding release_transport count_down start_grace contains
release-IsSound in_use c h = ground arith
release-IsSound closing c h = ground arith
release-IsSound reopened c h = ground arith
release-IsSound late c h = ground arith

fire-IsSound : (p : Phase) (t : ℕ) (c : Connection) → IsSound p c → IsSound p (grace_over t c)
unfolding grace_over close_shared contains
fire-IsSound in_use t c h = ground (arith, λ (s : ℕ). contains-remove s t c.timers)
fire-IsSound closing t c h = ground (arith, λ (s : ℕ). contains-remove s t c.timers)
fire-IsSound reopened t c h = ground (arith, λ (s : ℕ). contains-remove s t c.timers)
fire-IsSound late t c h = ground (arith, λ (s : ℕ). contains-remove s t c.timers)

event-IsSound :
    (p : Phase) (i : ℕ) (s : Status) (c : Connection) → IsSound p c → IsSound p (fan_out i s c).0
unfolding fan_out
event-IsSound in_use i s c h = ground arith
event-IsSound closing i s c h = ground arith
event-IsSound reopened i s c h = ground arith
event-IsSound late i s c h = ground arith

register-IsSound :
    (p : Phase) (cb : ℕ) (c : Connection)
    → IsSound p c
    → IsSound p (register_status_callback cb c).0
unfolding register_status_callback
register-IsSound in_use cb c h = ground arith
register-IsSound closing cb c h = ground arith
register-IsSound reopened cb c h = ground arith
register-IsSound late cb c h = ground arith

unregister-IsSound :
    (p : Phase) (cb : ℕ) (c : Connection)
    → IsSound p c
    → IsSound p (unregister_status_callback cb c)
unfolding unregister_status_callback
unregister-IsSound in_use cb c h = ground arith
unregister-IsSound closing cb c h = ground arith
unregister-IsSound reopened cb c h = ground arith
unregister-IsSound late cb c h = ground arith

close-IsSound : (p : Phase) (c : Connection) → IsSound p c → IsSound closing (close_begin c)
unfolding close_begin close_shared cancel_grace contains
close-IsSound p c h = elim (Option-cases c.grace_timer) [
  | inl e ↦ ground arith
  | inr (t, e) ↦ ground (arith, λ (s : ℕ). contains-remove s t c.timers)
]

closed-IsSound : (c : Connection) → IsSound closing c → IsSound in_use (close_end c)
unfolding close_end
closed-IsSound c h = ground arith

late-IsSound : (c : Connection) → IsSound reopened c → IsSound late (close_end c)
unfolding close_end
late-IsSound c h = ground arith

Step-IsSound : {p q : Phase} {c d : Connection} → Step p c q d → IsSound p c → IsSound q d
Step-IsSound (acquire p c o) h = acquire-IsSound p c o h
Step-IsSound (acquire_closing c) h = acquire_closing-IsSound c h
Step-IsSound (release p c) h = release-IsSound p c h
Step-IsSound (fire p t c there) h = fire-IsSound p t c h
Step-IsSound (event p i s c) h = event-IsSound p i s c h
Step-IsSound (register p cb c) h = register-IsSound p cb c h
Step-IsSound (unregister p cb c) h = unregister-IsSound p cb c h
Step-IsSound (begin_close p c o) h = close-IsSound p c h
Step-IsSound (end_close c) h = closed-IsSound c h
Step-IsSound (end_close_late c) h = late-IsSound c h

-- Whatever the consumers, the transports and the event loop did since the node was made, in whatever
-- order and also while the node closes, IsSound holds. (Only where a consumer acquired a transport
-- while the node closed, there may be one afterwards that nobody holds and no timer will close.)
pub Reach-IsSound : {t : TransportType} {p : Phase} {c : Connection} → Reach t p c → IsSound p c
Reach-IsSound {t} start = new-IsSound t
Reach-IsSound (next r s) = Step-IsSound s (Reach-IsSound r)

-- While the node is not closing and a consumer holds the transport, no step closes an instance, and
-- none replaces the shared one.
pub Step-keeps_held :
    {c d : Connection} {i : ℕ}
    → Step in_use c in_use d
    → 0 < c.ref_count
    → c.shared_transport ≡ some i
    → (d.closed ≡ c.closed) × (d.shared_transport ≡ some i)
unfolding register_status_callback unregister_status_callback acquire_transport take_transport
    count_up cancel_grace release_transport count_down start_grace grace_over fan_out
Step-keeps_held (acquire p c o) u e = ground arith
Step-keeps_held (release p c) u e = ground arith
Step-keeps_held (fire p t c there) u e = ground arith
Step-keeps_held (event p i s c) u e = ground arith
Step-keeps_held (register p cb c) u e = ground arith
Step-keeps_held (unregister p cb c) u e = ground arith
