-- ===== src/Connection.antt =====
-- nodes/opcua-pubsub-connection.js: the transport that the publishers and subscribers of a
-- connection share. A transport is the number of its instance, a timer the number of its setTimeout.
-- Log lines and the configuration of the transport are left out.
pub mod Lifecycle
pub mod Grace
pub mod Throws
mod Tests
use node_red_contrib_opcua_s.Prelude.{
  remove, contains, contains-remove, contains-remove_same, ℕ, suc, ◌+◌, ◌-◌, ◌==◌, Bool, true,
  false, not, ◌&&◌, if◌then◌else◌, Option, none, some, is_some, List, [], ◌∷◌, ◌++◌,
}

-- `config.transportType || "udp"`; `unknown` is any other name.
pub data TransportType : Type 0 where
  udp mqtt unknown : TransportType

pub data Status : Type 0 where
  connected disconnected reconnecting error : Status

-- A callback is the number of the consumer that registered it.
pub record Notice : Type 0 where
  pub callback : ℕ
  pub status : Status

-- `timers` are the timeouts that the event loop still has, `closed` the instances on which close()
-- was called; `next_transport` and `next_timer` number the instances and the timeouts made so far.
pub record Connection : Type 0 where
  pub transport_type : TransportType
  pub shared_transport : Option ℕ
  pub transport_connected : Bool
  pub ref_count : ℕ
  pub grace_timer : Option ℕ
  pub status_callbacks : List ℕ
  pub timers : List ℕ
  pub closed : List ℕ
  pub next_transport : ℕ
  pub next_timer : ℕ

-- The node after its constructor.
abbrev pub new_connection : TransportType → Connection
new_connection t = record {
  transport_type = t;
  shared_transport = none;
  transport_connected = false;
  ref_count = 0;
  grace_timer = none;
  status_callbacks = [];
  timers = [];
  closed = [];
  next_transport = 0;
  next_timer = 0;
}

-- `if (node._graceTimer) { clearTimeout(node._graceTimer); node._graceTimer = null; }`
unfoldable pub cancel_grace : Connection → Connection
cancel_grace c = elim c.grace_timer [
  | none ↦ c
  | some t ↦ record c { grace_timer = none; timers = remove t c.timers }
]

-- `_createTransport`: `none` where it throws.
unfoldable pub create_transport : Connection → Option ℕ
create_transport c = elim c.transport_type [ unknown ↦ none | _ ↦ some c.next_transport ]

-- The connection, and the transport that is handed out (`none` where the call throws).
unfoldable pub take_transport : Connection → Connection × Option ℕ
take_transport c = elim c.shared_transport [
  | some i ↦ (c, some i)
  | none ↦ elim (create_transport c) [
    | none ↦ (c, none)
    | some i ↦ (record c { shared_transport = some i; next_transport = suc i }, some i)
  ]
]

unfoldable pub count_up : Connection → Connection
count_up c = record c { ref_count = suc c.ref_count }

unfoldable pub acquire_transport : Connection → Connection × Option ℕ
acquire_transport c = take_transport (count_up (cancel_grace c))

-- `setTimeout(…, RECONNECT_GRACE_MS)`
unfoldable pub start_grace : Connection → Connection
start_grace c = record c {
  grace_timer = some c.next_timer;
  timers = c.next_timer ∷ c.timers;
  next_timer = suc c.next_timer;
}

unfoldable pub count_down : Connection → Connection
count_down c = record c { ref_count = c.ref_count - 1 }

unfoldable pub release_transport : Connection → Connection
release_transport c =
    let d = count_down c in
    if d.ref_count == 0 && is_some d.shared_transport then start_grace d else d

-- Detach the transport, and close() it.
unfoldable pub close_shared : Connection → Connection
close_shared c = elim c.shared_transport [
  | none ↦ c
  | some i ↦ record c {
    shared_transport = none;
    transport_connected = false;
    closed = i ∷ c.closed;
  }
]

-- The callback of the timeout `t`.
unfoldable pub grace_over : ℕ → Connection → Connection
grace_over t c =
    let d = record c { grace_timer = none; timers = remove t c.timers } in
    if c.ref_count == 0 && is_some c.shared_transport
    then record (close_shared d) { status_callbacks = [] }
    else d

abbrev pub notify_all : Status → List ℕ → List Notice
notify_all s [] = []
notify_all s (cb ∷ cbs) = record { callback = cb; status = s } ∷ notify_all s cbs

-- The `catch` of connect(): every callback gets the error, the state stays.
abbrev pub connect_failed : Connection → List Notice
connect_failed c = notify_all error c.status_callbacks

abbrev pub connected_after : Status → Bool → Bool
connected_after connected b = true
connected_after error b = b
connected_after _ b = false

abbrev pub is_shared : ℕ → Option ℕ → Bool
is_shared i none = false
is_shared i (some j) = i == j

-- `fanOut` of the transport `i`.
unfoldable pub fan_out : ℕ → Status → Connection → Connection × List Notice
fan_out i s c =
    if is_shared i c.shared_transport
    then (
      record c { transport_connected = connected_after s c.transport_connected },
      notify_all s c.status_callbacks,
    )
    else (c, [])

-- A Set keeps the place of what it has already.
abbrev pub add_callback : ℕ → List ℕ → List ℕ
add_callback cb cbs = if contains cb cbs then cbs else cbs ++ (cb ∷ [])

unfoldable pub register_status_callback : ℕ → Connection → Connection × List Notice
register_status_callback cb c = (
  record c { status_callbacks = add_callback cb c.status_callbacks },
  if is_some c.shared_transport && c.transport_connected
      then notify_all connected (cb ∷ [])
      else [],
)

unfoldable pub unregister_status_callback : ℕ → Connection → Connection
unregister_status_callback cb c = record c { status_callbacks = remove cb c.status_callbacks }

-- The `close` handler up to its `await`, and behind it.
unfoldable pub close_begin : Connection → Connection
close_begin c = close_shared (cancel_grace c)

unfoldable pub close_end : Connection → Connection
close_end c = record c { ref_count = 0; status_callbacks = [] }
