-- ===== src/Manager/Tests.antt =====
-- A manager of lib/opcua-client-manager.js that connects and is closed while it connects again.
use node_red_contrib_opcua_s.Prelude.{
  ◌≤◌, ◌<◌, max, All, none, some, [], ◌∷◌, length, ◌≡◌, ◌≢◌, refl, arith,
}
use node_red_contrib_opcua_s.Manager.{
  Attempt, cleaning, opening, Manager, new_manager, dispose_client, same_client, connect, forget,
  fail_attempt, make_client, tear_down, cleaned, opened, disconnect_begin, disconnect_end,
}
use node_red_contrib_opcua_s.Manager.Steps.{
  calm, in_use, closing, call_connect, clean, open_channel, begin_disconnect, Reach, start, next,
  IsOwned,
}
use node_red_contrib_opcua_s.Manager.Lifecycle.{Reach-IsOwned, disconnect_end-Reach}
use node_red_contrib_opcua_s.Manager.Delays.{
  connection_strategy, reconnect_delay, connection_strategy_ordered, background_reconnect_delay,
  background_reconnect_max_delay_ms, background_reconnect_delay_bounded,
}
use node_red_contrib_opcua_s.Manager.Retry.{connects, fails, running, retry_from, retry_from-ends}

-- The attempt in flight, at a stage and with a client.
abbrev first : Attempt
first = record { life = 0; stage = cleaning; own_client = none }

abbrev second : Attempt
second = record { life = 0; stage = opening; own_client = some 0 }

abbrev connecting : Manager
connecting = cleaned first (connect new_manager)

abbrev connecting_reach : Reach (calm in_use) connecting
unfolding connect
connecting_reach =
    next (next start (call_connect new_manager))
      (clean in_use first (connect new_manager) refl refl)

-- disconnect() while the channel is being opened; the attempt sees that it was aborted.
abbrev aborted : Manager
aborted = opened second (disconnect_begin connecting)

abbrev aborted_reach : Reach (calm closing) aborted
unfolding connect cleaned tear_down make_client disconnect_begin dispose_client
aborted_reach =
    next (next connecting_reach (begin_disconnect connecting))
      (open_channel closing second (disconnect_begin connecting) refl refl)

Reach-IsOwned_example : IsOwned closing aborted
Reach-IsOwned_example = Reach-IsOwned aborted_reach

end_example :
    let n = disconnect_end aborted in
    (n.open_clients ≡ []) × (n.open_sessions ≡ []) × (n.attempt ≡ none) × (n.reconnect_timer ≡ none)
unfolding connect cleaned tear_down make_client disconnect_begin dispose_client opened fail_attempt
    forget same_client
end_example = disconnect_end-Reach aborted_reach refl

strategy_example :
    let s = connection_strategy (reconnect_delay (some (some 1))) 10 in
    (0 < s.initial_delay) × (s.initial_delay < s.max_delay)
strategy_example = connection_strategy_ordered (some (some 1)) 10

delay_example :
    let now = background_reconnect_delay 5000 3 in
    let cap = max background_reconnect_max_delay_ms 5000 in
    (5000 ≤ now) × ((now ≤ cap) × (now ≤ background_reconnect_delay 5000 4))
delay_example = background_reconnect_delay_bounded 5000 3

retry_example :
    let r = retry_from 3 2000 30000 0 (fails 1 ∷ fails 2 ∷ connects ∷ []) in
    (r.1 ≢ running) × ((length r.0 < 3) × All (λ w. w ≤ 30000) r.0)
retry_example =
    retry_from-ends 3 2000 30000 (fails 1 ∷ fails 2 ∷ connects ∷ []) (ground arith) (ground arith)
