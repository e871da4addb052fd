-- ===== src/Manager.antt =====
-- The lifecycle of lib/opcua-client-manager.js: connect() and its attempt, reconnect(), the timer of
-- the background reconnect and disconnect(), cut at each await. Clients and sessions are numbers; the
-- calls of node-opcua are steps that succeed or fail, but the making of a client succeeds. Left out: the options of the client, what is
-- emitted, and the operations on a session.
pub mod Delays
pub mod Steps
pub mod Teardown
pub mod Attempts
pub mod Lifecycle
pub mod Retry
mod Tests
use node_red_contrib_opcua_s.Prelude.{
  remove, contains, contains-remove, contains-remove_same, ℕ, suc, ◌+◌, ◌==◌, Bool, true, false,
  not, ◌&&◌, if◌then◌else◌, Option, none, some, is_some, List, [], ◌∷◌,
}

-- Where an attempt waits: for the teardown of the former client, for the secure channel, or for the
-- session.
pub data Stage : Type 0 where
  cleaning opening creating : Stage

-- `life` is the lifecycle it was started in, `own_client` the client it tears down, and then its own.
pub record Attempt : Type 0 where
  pub life : ℕ
  pub stage : Stage
  pub own_client : Option ℕ

-- `_repairWait`: the client and the session for which node-opcua repairs the session.
pub record Repair : Type 0 where
  pub of_client : Option ℕ
  pub of_session : Option ℕ

-- A lifecycle is a number: all but the current one are aborted. The timer is the lifecycle that it
-- was set in. `open_clients` are the clients that were made and not disposed of, `open_sessions` the
-- sessions that were created and not closed.
pub record Manager : Type 0 where
  pub client : Option ℕ
  pub session : Option ℕ
  pub is_connected : Bool
  pub reconnect_timer : Option ℕ
  pub reconnect_attempts : ℕ
  pub attempt : Option Attempt
  pub repair : Option Repair
  pub life : ℕ
  pub ever_connected : Bool
  pub subscriptions : List ℕ
  pub open_clients : List ℕ
  pub open_sessions : List ℕ
  pub next_number : ℕ

abbrev pub new_manager : Manager
new_manager = record {
  client = none;
  session = none;
  is_connected = false;
  reconnect_timer = none;
  reconnect_attempts = 0;
  attempt = none;
  repair = none;
  life = 0;
  ever_connected = false;
  subscriptions = [];
  open_clients = [];
  open_sessions = [];
  next_number = 0;
}

unfoldable pub dispose_client : Option ℕ → Manager → Manager
dispose_client none m = m
dispose_client (some i) m = record m { open_clients = remove i m.open_clients }

unfoldable pub close_session : Option ℕ → Manager → Manager
close_session none m = m
close_session (some s) m = record m { open_sessions = remove s m.open_sessions }

-- `a === b`
unfoldable pub same_client : Option ℕ → Option ℕ → Bool
same_client none none = true
same_client (some i) (some j) = i == j
same_client _ _ = false

unfoldable pub schedule_reconnect : Manager → Manager
schedule_reconnect m =
    if is_some m.reconnect_timer
    then m
    else record m { reconnect_attempts = suc m.reconnect_attempts; reconnect_timer = some m.life }

-- connect(): a new attempt, unless there is a connection or an attempt already.
unfoldable pub connect : Manager → Manager
connect m = if m.is_connected then m else (elim m.attempt [
  | some a ↦ m
  | none ↦ record m {
    attempt = some (record { life = m.life; stage = cleaning; own_client = m.client });
  }
])

-- `if (this.client === client) { this.client = null; this.session = null; }`
unfoldable pub forget : Option ℕ → Manager → Manager
forget i m = if same_client m.client i then record m { client = none; session = none } else m

-- The `catch` of _doConnect, which ends the attempt.
unfoldable pub fail_attempt : Attempt → Manager → Manager
fail_attempt a m =
    if a.life == m.life
    then schedule_reconnect (record m { attempt = none })
    else forget a.own_client (dispose_client a.own_client (record m { attempt = none }))

-- The former client is gone, and a new one is made.
unfoldable pub make_client : Attempt → Manager → Manager
make_client a m =
    if a.life == m.life
    then record m {
      client = some m.next_number;
      open_clients = m.next_number ∷ m.open_clients;
      attempt = some (record { life = a.life; stage = opening; own_client = some m.next_number });
      next_number = suc m.next_number;
    }
    else fail_attempt (record a { own_client = none }) m

unfoldable pub tear_down : Attempt → Manager → Manager
tear_down a m =
    if is_some a.own_client
    then forget a.own_client (dispose_client a.own_client (close_session m.session m))
    else m

unfoldable pub cleaned : Attempt → Manager → Manager
cleaned a m = make_client a (tear_down a m)

-- client.connect() is through.
unfoldable pub opened : Attempt → Manager → Manager
opened a m =
    if a.life == m.life
    then record m { attempt = some (record a { stage = creating }) }
    else fail_attempt a m

-- `this.subscriptions.clear()` where the session replaces another one.
abbrev pub replace_session : Bool → List ℕ → List ℕ
replace_session true subs = []
replace_session false subs = subs

unfoldable pub adopt_session : Manager → Manager
adopt_session m = record m {
  session = some m.next_number;
  open_sessions = m.next_number ∷ m.open_sessions;
  is_connected = true;
  reconnect_attempts = 0;
  ever_connected = true;
  subscriptions = replace_session m.ever_connected m.subscriptions;
  attempt = none;
  next_number = suc m.next_number;
}

-- A session that is opened and closed again.
unfoldable pub drop_session : Manager → Manager
drop_session m =
    close_session (some m.next_number) (record m {
      open_sessions = m.next_number ∷ m.open_sessions;
      next_number = suc m.next_number;
    })

-- createSession() is through: a session is open, which an aborted attempt closes again.
unfoldable pub session_created : Attempt → Manager → Manager
session_created a m = if a.life == m.life then adopt_session m else fail_attempt a (drop_session m)

-- `if (this.client === client) this.client = null;`
unfoldable pub drop_client : Option ℕ → Manager → Manager
drop_client i m = if same_client m.client i then record m { client = none } else m

-- createSession() failed: the channel is torn down first.
unfoldable pub session_refused : Attempt → Manager → Manager
session_refused a m = fail_attempt a (drop_client a.own_client (dispose_client a.own_client m))

-- The start of reconnect().
unfoldable pub reconnect : Manager → Manager
reconnect m = connect (record m { is_connected = false; reconnect_attempts = 0 })

-- The callback of the timer that was set in the lifecycle `life`.
unfoldable pub timer_fired : ℕ → Manager → Manager
timer_fired life m =
    if life == m.life
    then connect (record m { reconnect_timer = none })
    else record m { reconnect_timer = none }

-- "connection_lost" and "connection_failed" of the client, and a timeout of an operation.
unfoldable pub connection_lost : Manager → Manager
connection_lost m = record m { is_connected = false }

unfoldable pub connection_failed : Manager → Manager
connection_failed m = schedule_reconnect (record m { is_connected = false })

-- _onAfterReconnection behind its wait: nothing where the client or the session was replaced; else by
-- whether the session was closed.
unfoldable pub finish_repair : Bool → Repair → Manager → Manager
finish_repair closed r m =
    if same_client m.client r.of_client && same_client m.session r.of_session
    then if closed
      then connect (record m { is_connected = false })
      else record m { is_connected = true; reconnect_attempts = 0 }
    else m

unfoldable pub repair_over : Bool → Repair → Manager → Manager
repair_over closed r m = finish_repair closed r (record m { repair = none })

-- _onAfterReconnection up to its wait; without a session there is none.
unfoldable pub after_reconnection : ℕ → Manager → Manager
after_reconnection i m =
    if is_some m.repair
    then m
    else if is_some m.session
    then record m { repair = some (record { of_client = some i; of_session = m.session }) }
    else finish_repair true (record { of_client = some i; of_session = none }) m

-- disconnect() up to the end of an attempt that is in flight, and behind it.
unfoldable pub disconnect_begin : Manager → Manager
disconnect_begin m =
    let d = record m { life = suc m.life; reconnect_timer = none } in
    if is_some d.attempt then dispose_client d.client d else d

unfoldable pub disconnect_end : Manager → Manager
disconnect_end m =
    let d = dispose_client m.client (close_session m.session m) in
    record d { subscriptions = []; session = none; client = none; is_connected = false }
