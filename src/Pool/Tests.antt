-- ===== src/Pool/Tests.antt =====
-- Pools of lib/opcua-pool.js with three members.
use node_red_contrib_opcua_s.Prelude.{zero, suc, true, false, [], ◌∷◌, ◌≡◌, ◌⊎◌, refl, arith}
use node_red_contrib_opcua_s.Pool.{
  Pool, read, write, browse, connected_at, pick_member, routes, is_session_bound,
}
use node_red_contrib_opcua_s.Pool.Pick.{IsPicked, IsFallback, pick_member-cases}
use node_red_contrib_opcua_s.Pool.Turns.{AllUp, routes-turns}

abbrev full : Pool
full = record { members = true ∷ true ∷ true ∷ []; rr = 1 }

abbrev one_up : Pool
one_up = record { members = true ∷ false ∷ false ∷ []; rr = 1 }

full-AllUp : AllUp full.members
unfolding connected_at
full-AllUp zero lt = refl
full-AllUp (suc zero) lt = refl
full-AllUp (suc (suc zero)) lt = refl
full-AllUp (suc (suc (suc i))) lt = absurd (omega arith)

pick_member-cases_example :
    IsPicked one_up (pick_member one_up) ⊎ IsFallback one_up (pick_member one_up)
pick_member-cases_example = pick_member-cases one_up

turns_example : (routes (read ∷ write ∷ browse ∷ read ∷ []) full).1 ≡ 1 ∷ 2 ∷ 0 ∷ 1 ∷ []
unfolding is_session_bound
turns_example =
    routes-turns (read ∷ write ∷ browse ∷ read ∷ []) full (refl, (refl, (refl, (refl, tt))))
      full-AllUp (ground arith)
