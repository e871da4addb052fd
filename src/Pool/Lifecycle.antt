-- ===== src/Pool/Lifecycle.antt =====
-- connect(), disconnect() and reconnect() of lib/opcua-pool.js.
use node_red_contrib_opcua_s.Prelude.{
  ℕ, zero, suc, ◌<◌, Bool, true, false, not, List, [], ◌∷◌, length, ◌≡◌, refl, arith,
}
use node_red_contrib_opcua_s.Pool.{
  Pool, connected_at, is_connected, reconnected, reconnect_throws, reconnect,
}

reconnected_up :
    (i : ℕ) (ms outcomes : List Bool)
    → connected_at i ms ≡ true
    → connected_at i (reconnected ms outcomes) ≡ true
unfolding reconnected connected_at
reconnected_up i [] outcomes h = h
reconnected_up i (m ∷ ms) [] h = h
reconnected_up zero (m ∷ ms) (ok ∷ outcomes) h = ground arith
reconnected_up (suc i) (m ∷ ms) (ok ∷ outcomes) h = reconnected_up i ms outcomes h

throws_first :
    (ms outcomes : List Bool)
    → length ms ≡ length outcomes
    → 0 < length ms
    → reconnect_throws ms outcomes ≡ not (connected_at 0 (reconnected ms outcomes))
unfolding reconnect_throws reconnected connected_at
throws_first [] outcomes e pos = absurd (omega arith)
throws_first (m ∷ ms) [] e pos = absurd (omega arith)
throws_first (true ∷ ms) (ok ∷ outcomes) e pos = refl
throws_first (false ∷ ms) (true ∷ outcomes) e pos = refl
throws_first (false ∷ ms) (false ∷ outcomes) e pos = refl

-- With an outcome for each member: reconnect() rejects just where the pool, that is its primary, is not connected behind it,
-- whatever the other members do, and no member that was connected is lost.
pub reconnect-is_connected :
    (outcomes : List Bool) (p : Pool)
    → length p.members ≡ length outcomes
    → 0 < length p.members
    → ((reconnect outcomes p).1 ≡ not (is_connected (reconnect outcomes p).0))
      × ((i : ℕ)
          → connected_at i p.members ≡ true
          → connected_at i (reconnect outcomes p).0.members ≡ true)
unfolding reconnect
reconnect-is_connected outcomes p e pos =
    (throws_first p.members outcomes e pos, λ i up. reconnected_up i p.members outcomes up)
