-- ===== src/Manager/Lifecycle.antt =====
-- No client and no session of lib/opcua-client-manager.js is left behind.
use node_red_contrib_opcua_s.Prelude.{
  if-cases, Bool, is_some, contains, contains-remove, ℕ, true, false, none, some, List, [], ◌∷◌,
  ◌≡◌, refl, sym, ◌∙◌, arith, inl, inr, Option-cases,
}
use node_red_contrib_opcua_s.Manager.{
  Repair, finish_repair, repair_over, after_reconnection, Stage, cleaning, opening, creating,
  Manager, new_manager, dispose_client, close_session, schedule_reconnect, connect, reconnect,
  timer_fired, connection_lost, connection_failed, disconnect_begin, disconnect_end,
}
use node_red_contrib_opcua_s.Manager.Steps.{
  Mode, calm, disturbed, connect_closing, reconnect_closing, fail_closing, begin_repair_closing,
  end_repair_closed, further, Phase, in_use, closing, Step, call_connect, call_reconnect, clean,
  open_channel, fail_open, create_session, refuse_session, fire, lose, fail_connection,
  begin_disconnect, end_disconnect, begin_repair, end_repair, end_repair_closing, Reach, start,
  next, IsOwned, IsBare,
}
use node_red_contrib_opcua_s.Manager.Teardown.{
  all_removed, nothing_there, cleaned-IsOwned, bare-IsOwned,
}
use node_red_contrib_opcua_s.Manager.Attempts.{
  opened-IsOwned, created-IsOwned, fail_open-IsOwned, refused-IsOwned,
}

connect-IsOwned : (m : Manager) → IsOwned in_use m → IsOwned in_use (connect m)
unfolding connect
connect-IsOwned m h = ground arith

schedule-IsOwned : (m : Manager) → IsOwned in_use m → IsOwned in_use (schedule_reconnect m)
unfolding schedule_reconnect
schedule-IsOwned m h = ground arith

fire-IsOwned :
    (p : Phase) (l : ℕ) (m : Manager)
    → m.reconnect_timer ≡ some l
    → IsOwned p m
    → IsOwned p (timer_fired l m)
unfolding timer_fired connect
fire-IsOwned in_use l m e h = ground arith
fire-IsOwned closing l m e h = absurd (cc (sym e ∙ h.stopped.0))

-- An attempt is of the current lifecycle or of an earlier one.
begin-IsOwned : (m : Manager) → IsOwned in_use m → IsOwned closing (disconnect_begin m)
unfolding disconnect_begin dispose_client
begin-IsOwned m h = elim (Option-cases m.client) [
  | inl ce ↦ ground (arith, h)
  | inr (i, ce) ↦
      let subset = λ (k : ℕ). contains-remove k i m.open_clients in ground (arith, h, subset)
]

end-IsBare :
    (m : Manager)
    → ((i : ℕ) → contains i m.open_clients ≡ true → m.client ≡ some i)
    → ((s : ℕ) → contains s m.open_sessions ≡ true → m.session ≡ some s)
    → let n = disconnect_end m in
      IsBare n × (n.reconnect_timer ≡ m.reconnect_timer) × (n.attempt ≡ m.attempt)
unfolding disconnect_end dispose_client close_session
end-IsBare m clients sessions = elim (Option-cases m.client) [
  | inl ce ↦
      let no_clients = nothing_there m.client m.open_clients clients ce in
      elim (Option-cases m.session) [
        | inl se ↦
            let none_open = nothing_there m.session m.open_sessions sessions se in
            ground (arith, no_clients, none_open)
        | inr (s, se) ↦
            let none_open = all_removed m.session s m.open_sessions sessions se in
            ground (arith, no_clients, none_open)
      ]
  | inr (i, ce) ↦
      let no_clients = all_removed m.client i m.open_clients clients ce in
      elim (Option-cases m.session) [
        | inl se ↦
            let none_open = nothing_there m.session m.open_sessions sessions se in
            ground (arith, no_clients, none_open)
        | inr (s, se) ↦
            let none_open = all_removed m.session s m.open_sessions sessions se in
            ground (arith, no_clients, none_open)
      ]
]

finish-IsOwned :
    (closed : Bool) (r : Repair) (m : Manager)
    → IsOwned in_use m
    → IsOwned in_use (finish_repair closed r m)
unfolding finish_repair connect
finish-IsOwned true r m h = ground arith
finish-IsOwned false r m h = ground arith

over-IsOwned :
    (closed : Bool) (r : Repair) (m : Manager)
    → IsOwned in_use m
    → IsOwned in_use (repair_over closed r m)
unfolding repair_over
over-IsOwned closed r m h = finish-IsOwned closed r _ (ground (arith, h))

quiet-IsOwned :
    (r : Repair) (m : Manager) → IsOwned closing m → IsOwned closing (repair_over false r m)
unfolding repair_over finish_repair
quiet-IsOwned r m h = ground arith

reconnection-IsOwned :
    (i : ℕ) (m : Manager) → IsOwned in_use m → IsOwned in_use (after_reconnection i m)
unfolding after_reconnection
reconnection-IsOwned i m h =
    if-cases (IsOwned in_use) (is_some m.repair) h (
      if-cases (IsOwned in_use) (is_some m.session) (ground (arith, h)) (finish-IsOwned true _ m h))

later : {s : Stage} → s ≡ opening → s ≡ cleaning → ⊥
later e f = cc (e, f)

latest : {s : Stage} → s ≡ creating → s ≡ cleaning → ⊥
latest e f = cc (e, f)

-- What holds of the manager, as long as no disconnect() was disturbed.
abbrev Claim : Mode → Manager → Type 0
Claim (calm p) m = IsOwned p m
Claim disturbed m = Unit {0}

lose-IsOwned : (p : Phase) (m : Manager) → IsOwned p m → IsOwned p (connection_lost m)
unfolding connection_lost
lose-IsOwned in_use m h = ground (arith, h)
lose-IsOwned closing m h = ground (arith, h)

Step-Claim : {x y : Mode} {m n : Manager} → Step x m y n → Claim x m → Claim y n
unfolding reconnect connection_failed
Step-Claim (call_connect m) h = connect-IsOwned m h
Step-Claim (call_reconnect m) h = connect-IsOwned _ (ground (arith, h))
Step-Claim (clean p a m e s) h = cleaned-IsOwned p a m h e
Step-Claim (open_channel p a m e s) h = opened-IsOwned p a m h e (later s)
Step-Claim (fail_open p a m e s) h = fail_open-IsOwned p a m h e (later s)
Step-Claim (create_session p a m e s) h = created-IsOwned p a m h e (latest s)
Step-Claim (refuse_session p a m e s) h = refused-IsOwned p a m h e (latest s)
Step-Claim (fire p l m e) h = fire-IsOwned p l m e h
Step-Claim (lose p m) h = lose-IsOwned p m h
Step-Claim (fail_connection m) h = schedule-IsOwned _ (ground (arith, h))
Step-Claim (begin_repair i m) h = reconnection-IsOwned i m h
Step-Claim (end_repair r closed m e) h = over-IsOwned closed r m h
Step-Claim (end_repair_closing r m e) h = quiet-IsOwned r m h
Step-Claim (begin_disconnect m) h = begin-IsOwned m h
Step-Claim (end_disconnect m e) h =
    let (b, timer, attempt) = end-IsBare m h.own_client h.own_session in
    bare-IsOwned in_use _ b (attempt ∙ e) (λ c. absurd (cc c))
Step-Claim (connect_closing m) h = tt
Step-Claim (reconnect_closing m) h = tt
Step-Claim (fail_closing m) h = tt
Step-Claim (begin_repair_closing i m) h = tt
Step-Claim (end_repair_closed r m e) h = tt
Step-Claim (further m n) h = tt

new-IsOwned : IsOwned in_use new_manager
unfolding contains
new-IsOwned = ground arith

Reach-Claim : {x : Mode} {m : Manager} → Reach x m → Claim x m
Reach-Claim start = new-IsOwned
Reach-Claim (next r s) = Step-Claim s (Reach-Claim r)

-- Whatever calls, outcomes, timers, events and repairs of a session the manager met since it was made,
-- as long as none of them disturbed a disconnect() that ran (a call of connect() or reconnect(), the
-- loss of the connection for good, the begin of a repair, or a repair that found the session closed):
-- each client that is not disposed of is its client, each session that is open is its session, and
-- while it closes no timer is set and an attempt in flight is of an aborted lifecycle.
pub Reach-IsOwned : {p : Phase} {m : Manager} → Reach (calm p) m → IsOwned p m
Reach-IsOwned r = Reach-Claim r

absent_nil : (l : List ℕ) → ((i : ℕ) → contains i l ≡ false) → l ≡ []
unfolding contains
absent_nil [] h = refl
absent_nil (i ∷ l) h = absurd (ground (arith, h i))

-- In the same runs, behind a disconnect() that waited for the attempt in flight, nothing is open and
-- nothing will bring the connection back: no client, no session, no attempt and no timer.
pub disconnect_end-Reach :
    {m : Manager}
    → Reach (calm closing) m
    → m.attempt ≡ none
    → let n = disconnect_end m in
      (n.open_clients ≡ [])
      × (n.open_sessions ≡ [])
      × (n.attempt ≡ none)
      × (n.reconnect_timer ≡ none)
disconnect_end-Reach {m} r e =
    let h = Reach-IsOwned r in
    let (b, timer, attempt) = end-IsBare m h.own_client h.own_session in
    (
      absent_nil _ b.no_client_open,
      absent_nil _ b.no_session_open,
      attempt ∙ e,
      timer ∙ h.stopped.0,
    )
