-- ===== src/Manager/Steps.antt =====
-- What the consumers of lib/opcua-client-manager.js, node-opcua and the event loop do, and what holds
-- behind it.
use node_red_contrib_opcua_s.Prelude.{
  contains, ℕ, ◌≤◌, ◌==◌, Bool, true, false, none, some, is_some, ◌≡◌,
}
use node_red_contrib_opcua_s.Manager.{
  cleaning, opening, creating, Attempt, Manager, new_manager, connect, fail_attempt, cleaned,
  opened, session_created, session_refused, reconnect, timer_fired, connection_lost,
  connection_failed, disconnect_begin, disconnect_end, Repair, after_reconnection, repair_over,
}

-- The manager is in use, or disconnect() runs.
pub data Phase : Type 0 where
  in_use closing : Phase

-- What disconnect() does not keep out while it runs disturbs it: calls of connect() and reconnect(),
-- the loss of the connection for good, a repair that begins, and one that finds its session closed.
-- From then on nothing is claimed.
pub data Mode : Type 0 where
  calm : Phase → Mode
  disturbed : Mode

pub data Step : Mode → Manager → Mode → Manager → Type 0 where
  call_connect : (m : Manager) → Step (calm in_use) m (calm in_use) (connect m)
  call_reconnect : (m : Manager) → Step (calm in_use) m (calm in_use) (reconnect m)
  clean :
      (p : Phase) (a : Attempt) (m : Manager)
      → m.attempt ≡ some a
      → a.stage ≡ cleaning
      → Step (calm p) m (calm p) (cleaned a m)
  open_channel :
      (p : Phase) (a : Attempt) (m : Manager)
      → m.attempt ≡ some a
      → a.stage ≡ opening
      → Step (calm p) m (calm p) (opened a m)
  fail_open :
      (p : Phase) (a : Attempt) (m : Manager)
      → m.attempt ≡ some a
      → a.stage ≡ opening
      → Step (calm p) m (calm p) (fail_attempt a m)
  create_session :
      (p : Phase) (a : Attempt) (m : Manager)
      → m.attempt ≡ some a
      → a.stage ≡ creating
      → Step (calm p) m (calm p) (session_created a m)
  refuse_session :
      (p : Phase) (a : Attempt) (m : Manager)
      → m.attempt ≡ some a
      → a.stage ≡ creating
      → Step (calm p) m (calm p) (session_refused a m)
  fire :
      (p : Phase) (l : ℕ) (m : Manager)
      → m.reconnect_timer ≡ some l
      → Step (calm p) m (calm p) (timer_fired l m)
  lose : (p : Phase) (m : Manager) → Step (calm p) m (calm p) (connection_lost m)
  fail_connection : (m : Manager) → Step (calm in_use) m (calm in_use) (connection_failed m)
  begin_repair : (i : ℕ) (m : Manager) → Step (calm in_use) m (calm in_use) (after_reconnection i m)
  end_repair :
      (r : Repair) (closed : Bool) (m : Manager)
      → m.repair ≡ some r
      → Step (calm in_use) m (calm in_use) (repair_over closed r m)
  end_repair_closing :
      (r : Repair) (m : Manager)
      → m.repair ≡ some r
      → Step (calm closing) m (calm closing) (repair_over false r m)
  begin_disconnect : (m : Manager) → Step (calm in_use) m (calm closing) (disconnect_begin m)
  end_disconnect :
      (m : Manager) → m.attempt ≡ none → Step (calm closing) m (calm in_use) (disconnect_end m)
  connect_closing : (m : Manager) → Step (calm closing) m disturbed (connect m)
  reconnect_closing : (m : Manager) → Step (calm closing) m disturbed (reconnect m)
  fail_closing : (m : Manager) → Step (calm closing) m disturbed (connection_failed m)
  begin_repair_closing :
      (i : ℕ) (m : Manager) → Step (calm closing) m disturbed (after_reconnection i m)
  end_repair_closed :
      (r : Repair) (m : Manager)
      → m.repair ≡ some r
      → Step (calm closing) m disturbed (repair_over true r m)
  further : (m n : Manager) → Step disturbed m disturbed n

pub data Reach : Mode → Manager → Type 0 where
  start : Reach (calm in_use) new_manager
  next : {x y : Mode} {m n : Manager} → Reach x m → Step x m y n → Reach y n

-- While it closes, no timer is set, and an attempt in flight is of an aborted lifecycle.
abbrev pub IsStopped : Phase → Manager → Type 0
IsStopped in_use m = Unit {0}
IsStopped closing m =
    (m.reconnect_timer ≡ none) × ((a : Attempt) → m.attempt ≡ some a → (a.life == m.life) ≡ false)

-- Each client and each session that is open is the manager's own.
pub record IsOwned (p : Phase) (m : Manager) : Type 0 where
  pub own_client : (i : ℕ) → contains i m.open_clients ≡ true → m.client ≡ some i
  pub own_session : (s : ℕ) → contains s m.open_sessions ≡ true → m.session ≡ some s
  pub attempt_client : (a : Attempt) → m.attempt ≡ some a → a.own_client ≡ m.client
  pub no_session :
      (a : Attempt)
      → m.attempt ≡ some a
      → (s : ℕ) → contains s m.open_sessions ≡ true
      → a.stage ≡ cleaning
  pub session_client : (s : ℕ) → contains s m.open_sessions ≡ true → is_some m.client ≡ true
  pub waiting :
      (a : Attempt) → m.attempt ≡ some a → is_some a.own_client ≡ false → a.stage ≡ cleaning
  pub not_later : (a : Attempt) → m.attempt ≡ some a → a.life ≤ m.life
  pub stopped : IsStopped p m

-- Nothing is open, and there is no client.
pub record IsBare (m : Manager) : Type 0 where
  pub no_client_open : (i : ℕ) → contains i m.open_clients ≡ false
  pub no_session_open : (s : ℕ) → contains s m.open_sessions ≡ false
  pub no_client : m.client ≡ none
