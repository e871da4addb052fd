-- ===== src/Manager/Teardown.antt =====
-- In lib/opcua-client-manager.js, a former client is torn down and an aborted attempt ends.
use node_red_contrib_opcua_s.Prelude.{
  remove, contains, contains-remove, contains-remove_same, ℕ, ◌==◌, true, false, Option, none, some,
  List, ◌≡◌, refl, sym, ap, ◌∙◌, arith, inl, inr, Bool-cases, Option-cases,
}
use node_red_contrib_opcua_s.Manager.{
  cleaning, Attempt, Manager, dispose_client, close_session, same_client, schedule_reconnect,
  forget, fail_attempt, make_client, tear_down, cleaned,
}
use node_red_contrib_opcua_s.Manager.Steps.{Phase, in_use, closing, IsOwned, IsBare}

pub removed :
    (i j : ℕ) (l : List ℕ) → (contains i l ≡ true → i ≡ j) → contains i (remove j l) ≡ false
removed i j l h = elim (Bool-cases (contains i (remove j l))) [
  | inl there ↦
      let e = h (contains-remove i j l there) in
      absurd (cc (sym there ∙ ap (λ k. contains k (remove j l)) e ∙ contains-remove_same j l))
  | inr absent ↦ absent
]

pub all_removed :
    (o : Option ℕ) (j : ℕ) (l : List ℕ)
    → ((i : ℕ) → contains i l ≡ true → o ≡ some i)
    → o ≡ some j
    → (i : ℕ) → contains i (remove j l) ≡ false
all_removed o j l h e i = removed i j l (λ there. cc (h i there, e))

pub nothing_there :
    (o : Option ℕ) (l : List ℕ)
    → ((i : ℕ) → contains i l ≡ true → o ≡ some i)
    → o ≡ none
    → (i : ℕ) → contains i l ≡ false
nothing_there o l h e i = elim (Bool-cases (contains i l)) [
  | inl there ↦ absurd (cc (sym (h i there) ∙ e))
  | inr absent ↦ absent
]

pub tear_down-IsBare :
    {p : Phase} (a : Attempt) (m : Manager)
    → IsOwned p m
    → m.attempt ≡ some a
    → IsBare (tear_down a m)
unfolding tear_down forget dispose_client close_session same_client
tear_down-IsBare a m h e = elim (Option-cases m.client) [
  | inl ce ↦
      let no_clients = nothing_there m.client m.open_clients h.own_client ce in
      ground (arith, h.session_client, h.attempt_client a e, no_clients)
  | inr (i, ce) ↦
      let no_clients = all_removed m.client i m.open_clients h.own_client ce in
      elim (Option-cases m.session) [
        | inl se ↦
            let no_sessions = nothing_there m.session m.open_sessions h.own_session se in
            ground (arith, h.attempt_client a e, no_clients, no_sessions)
        | inr (s, se) ↦
            let no_sessions = all_removed m.session s m.open_sessions h.own_session se in
            ground (arith, h.attempt_client a e, no_clients, no_sessions)
      ]
]

-- What the teardown leaves as it is.
pub tear_down_keeps :
    (a : Attempt) (m : Manager)
    → ((tear_down a m).life ≡ m.life) × ((tear_down a m).reconnect_timer ≡ m.reconnect_timer)
unfolding tear_down forget dispose_client close_session
tear_down_keeps a m = elim (Option-cases a.own_client) [
  | inl e ↦ ground arith
  | inr (i, e) ↦ elim (Option-cases m.session) [ inl f ↦ ground arith | inr (s, f) ↦ ground arith ]
]

pub make-IsOwned : (a : Attempt) (m : Manager) → IsBare m → IsOwned in_use (make_client a m)
unfolding make_client fail_attempt forget dispose_client same_client contains schedule_reconnect
make-IsOwned a m h = ground arith

pub stop-IsOwned :
    (a : Attempt) (m : Manager)
    → IsBare m
    → m.reconnect_timer ≡ none
    → (a.life == m.life) ≡ false
    → IsOwned closing (make_client a m)
unfolding make_client fail_attempt forget dispose_client same_client contains schedule_reconnect
stop-IsOwned a m h t old = ground arith

pub cleaned-IsOwned :
    (p : Phase) (a : Attempt) (m : Manager)
    → IsOwned p m
    → m.attempt ≡ some a
    → IsOwned p (cleaned a m)
unfolding cleaned
cleaned-IsOwned in_use a m h e = make-IsOwned a (tear_down a m) (tear_down-IsBare a m h e)
cleaned-IsOwned closing a m h e =
    let keeps = tear_down_keeps a m in
    stop-IsOwned a (tear_down a m) (tear_down-IsBare a m h e) (keeps.1 ∙ h.stopped.0)
      (ap (λ l. a.life == l) keeps.0 ∙ h.stopped.1 a e)

-- Behind the teardown an attempt has no session.
pub no_sessions :
    {p : Phase} (a : Attempt) (m : Manager)
    → IsOwned p m
    → m.attempt ≡ some a
    → (a.stage ≡ cleaning → ⊥)
    → (s : ℕ) → contains s m.open_sessions ≡ false
no_sessions a m h e waits s = elim (Bool-cases (contains s m.open_sessions)) [
  | inl there ↦ absurd (waits (h.no_session a e s there))
  | inr absent ↦ absent
]

-- The end of an attempt whose own client is the manager's: of the current lifecycle, and of an
-- aborted one.
pub retry-IsOwned :
    (a : Attempt) (m : Manager)
    → IsOwned in_use m
    → (a.life == m.life) ≡ true
    → IsOwned in_use (fail_attempt a m)
unfolding fail_attempt schedule_reconnect
retry-IsOwned a m h l = ground arith

pub abort-IsBare :
    (a : Attempt) (m : Manager)
    → ((i : ℕ) → contains i m.open_clients ≡ true → m.client ≡ some i)
    → ((s : ℕ) → contains s m.open_sessions ≡ false)
    → a.own_client ≡ m.client
    → (a.life == m.life) ≡ false
    → let n = fail_attempt a m in
      IsBare n × (n.attempt ≡ none) × (n.reconnect_timer ≡ m.reconnect_timer)
unfolding fail_attempt forget dispose_client same_client
abort-IsBare a m own none_open same l = elim (Option-cases m.client) [
  | inl ce ↦
      let no_clients = nothing_there m.client m.open_clients own ce in ground (arith, no_clients)
  | inr (i, ce) ↦
      let no_clients = all_removed m.client i m.open_clients own ce in ground (arith, no_clients)
]

pub bare-IsOwned :
    (p : Phase) (m : Manager)
    → IsBare m
    → m.attempt ≡ none
    → (p ≡ closing → m.reconnect_timer ≡ none)
    → IsOwned p m
bare-IsOwned in_use m b e t = ground arith
bare-IsOwned closing m b e t = let off = t refl in ground arith

pub timer_off : {m : Manager} (p : Phase) → IsOwned p m → p ≡ closing → m.reconnect_timer ≡ none
timer_off in_use h e = absurd (cc e)
timer_off closing h e = h.stopped.0

pub still_none :
    (j : ℕ) (l : List ℕ)
    → ((i : ℕ) → contains i l ≡ false)
    → (i : ℕ) → contains i (remove j l) ≡ false
still_none j l h i = removed i j l (λ there. absurd (cc (sym there ∙ h i)))

-- The end of an attempt that has nothing left.
pub bare_fail :
    (p : Phase) (a : Attempt) (m : Manager)
    → IsBare m
    → (p ≡ closing → (m.reconnect_timer ≡ none) × ((a.life == m.life) ≡ false))
    → IsOwned p (fail_attempt a m)
unfolding fail_attempt forget dispose_client same_client schedule_reconnect
bare_fail in_use a m b t = elim (Option-cases a.own_client) [
  | inl e ↦ ground (arith, b)
  | inr (i, e) ↦
      let none_left = still_none i m.open_clients b.no_client_open in ground (arith, b, none_left)
]
bare_fail closing a m b t =
    let (off, old) = t refl in
    elim (Option-cases a.own_client) [
      | inl e ↦ ground (arith, b)
      | inr (i, e) ↦
          let none_left = still_none i m.open_clients b.no_client_open in
          ground (arith, b, none_left)
    ]
