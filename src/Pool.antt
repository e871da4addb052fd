-- ===== src/Pool.antt =====
-- lib/opcua-pool.js: the session pool. A member is its isConnected, the primary is the member 0.
-- What a member does with an operation, and the events it passes on, are left out.
pub mod Pick
pub mod Turns
pub mod Lifecycle
mod Tests
use node_red_contrib_opcua_s.Prelude.{
  ℕ, zero, suc, ◌+◌, ◌%◌, max, Bool, true, false, ◌||◌, if◌then◌else◌, Option, none, some, List, [],
  ◌∷◌, length,
}

pub record Pool : Type 0 where
  pub members : List Bool
  pub rr : ℕ

-- `Math.max(2, Number(poolSize) || 2)`, `none` where Number is NaN. A fraction is left out.
unfoldable pub pool_size : Option ℕ → ℕ
pool_size none = 2
pool_size (some n) = max 2 n

abbrev pub repeat : ℕ → List Bool
repeat zero = []
repeat (suc n) = false ∷ repeat n

abbrev pub new_pool : Option ℕ → Pool
new_pool size = record { members = repeat (pool_size size); rr = 0 }

-- `this.members[idx].isConnected`
unfoldable pub connected_at : ℕ → List Bool → Bool
connected_at n [] = false
connected_at zero (m ∷ ms) = m
connected_at (suc n) (m ∷ ms) = connected_at n ms

abbrev pub index : Pool → ℕ → ℕ
index p i = (p.rr + i) % length p.members

-- The loop of _pickMember from `i` on, with `k` rounds left.
unfoldable pub pick_from : ℕ → ℕ → Pool → Pool × ℕ
pick_from zero i p = (p, 0)
pick_from (suc k) i p =
    let rest = pick_from k (suc i) p in
    if connected_at (index p i) p.members
    then (record p { rr = (index p i + 1) % length p.members }, index p i)
    else rest

unfoldable pub pick_member : Pool → Pool × ℕ
pick_member p = pick_from (length p.members) 0 p

-- What the pool is called for.
pub data Operation : Type 0 where
  create_subscription register_nodes unregister_nodes construct_extension_object get_session :
      Operation
  read read_multiple read_attribute write write_multiple call_method history_read browse : Operation
  translate_browse_path get_endpoints : Operation

-- The operations that depend on a session.
unfoldable pub is_session_bound : Operation → Bool
is_session_bound create_subscription = true
is_session_bound register_nodes = true
is_session_bound unregister_nodes = true
is_session_bound construct_extension_object = true
is_session_bound get_session = true
is_session_bound _ = false

-- The member that gets an operation.
unfoldable pub route : Operation → Pool → Pool × ℕ
route op p = if is_session_bound op then (p, 0) else pick_member p

-- One operation after the other.
unfoldable pub routes : List Operation → Pool → Pool × List ℕ
routes [] p = (p, [])
routes (op ∷ ops) p =
    let first = route op p in let rest = routes ops first.0 in (rest.0, first.1 ∷ rest.1)

abbrev pub is_connected : Pool → Bool
is_connected p = connected_at 0 p.members

-- A member after connect() or reconnect(), by whether that succeeded.
abbrev pub attempts : List Bool → List Bool → List Bool
attempts [] outcomes = []
attempts (m ∷ ms) [] = m ∷ attempts ms []
attempts (m ∷ ms) (ok ∷ outcomes) = ok ∷ attempts ms outcomes

-- connect(): the primary first; the others only if that succeeds. The result is whether it throws.
unfoldable pub connect : List Bool → Pool → Pool × Bool
connect [] p = (p, false)
connect (false ∷ outcomes) p = (record p { members = attempts p.members (false ∷ []) }, true)
connect (true ∷ outcomes) p = (record p { members = attempts p.members (true ∷ outcomes) }, false)

abbrev pub all_down : List Bool → List Bool
all_down [] = []
all_down (m ∷ ms) = false ∷ all_down ms

unfoldable pub disconnect : Pool → Pool
disconnect p = record p { members = all_down p.members }

-- reconnect() of the members that are not connected; `outcomes` has an entry for each member.
unfoldable pub reconnected : List Bool → List Bool → List Bool
reconnected [] outcomes = []
reconnected (m ∷ ms) [] = m ∷ ms
reconnected (m ∷ ms) (ok ∷ outcomes) = (m || ok) ∷ reconnected ms outcomes

-- The promise is rejected where the primary was not connected and its reconnect() fails.
unfoldable pub reconnect_throws : List Bool → List Bool → Bool
reconnect_throws (false ∷ ms) (false ∷ outcomes) = true
reconnect_throws _ _ = false

unfoldable pub reconnect : List Bool → Pool → Pool × Bool
reconnect outcomes p =
    (record p { members = reconnected p.members outcomes }, reconnect_throws p.members outcomes)
