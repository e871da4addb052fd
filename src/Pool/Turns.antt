-- ===== src/Pool/Turns.antt =====
-- In lib/opcua-pool.js, with all members connected, the operations go round.
use node_red_contrib_opcua_s.Prelude.{
  ℕ, zero, suc, ◌+◌, ◌%◌, ◌<◌, ◌==◌, Bool, true, false, if◌then◌else◌, List, [], ◌∷◌, length, ◌≡◌,
  refl, sym, ap, ◌∙◌, subst, inl, inr, Bool-cases, arith, All,
}
use native.Mathlib.Nat.{mod-eq_of_lt, mod_self}
use node_red_contrib_opcua_s.Pool.{
  Pool, Operation, connected_at, index, pick_from, pick_member, route, routes, is_session_bound,
}

-- The member behind another one, and `k` members one behind the other.
abbrev pub next_turn : ℕ → ℕ → ℕ
next_turn n i = if suc i == n then 0 else suc i

abbrev pub turns : ℕ → ℕ → ℕ → List ℕ
turns n i zero = []
turns n i (suc k) = i ∷ turns n (next_turn n i) k

next_turn-mod : (n i : ℕ) → i < n → (i + 1) % n ≡ next_turn n i
next_turn-mod n i lt = elim (Bool-cases (suc i == n)) [
  | inl last ↦
      let e : n ≡ i + 1 = ground arith in
      rw last (subst (λ m. (i + 1) % m ≡ 0) (sym e) (mod_self (i + 1)))
  | inr more ↦ let below : i + 1 < n = ground arith in rw more (mod-eq_of_lt below ∙ omega arith)
]

next_turn_below : (n i : ℕ) → i < n → next_turn n i < n
next_turn_below n i lt = ground arith

-- Every member is connected.
abbrev pub AllUp : List Bool → Type 0
AllUp ms = (i : ℕ) → i < length ms → connected_at i ms ≡ true

pick_up :
    (p : Pool)
    → AllUp p.members
    → p.rr < length p.members
    → pick_member p ≡ (record p { rr = next_turn (length p.members) p.rr }, p.rr)
unfolding pick_member pick_from
pick_up p up lt = go (length p.members) refl
  where
    here : index p 0 ≡ p.rr
    here = ap (λ i. i % length p.members) (omega arith) ∙ mod-eq_of_lt lt

    picked : ℕ → Pool × ℕ
    picked i = (record p { rr = (i + 1) % length p.members }, i)

    go :
        (k : ℕ)
        → k ≡ length p.members
        → pick_from k 0 p ≡ (record p { rr = next_turn (length p.members) p.rr }, p.rr)
    go zero e = absurd (omega (arith, e))
    go (suc k) e =
        let first_up = subst (λ i. connected_at i p.members ≡ true) (sym here) (up p.rr lt) in
        ap (λ b. if b then picked (index p 0) else pick_from k 1 p) first_up
        ∙ ap picked here
        ∙ ap (λ r. (record p { rr = r }, p.rr)) (next_turn-mod (length p.members) p.rr lt)

pub route_up :
    (op : Operation) (p : Pool)
    → is_session_bound op ≡ false
    → AllUp p.members
    → p.rr < length p.members
    → route op p ≡ (record p { rr = next_turn (length p.members) p.rr }, p.rr)
unfolding route
route_up op p free up lt = ap (λ b. if b then (p, 0) else pick_member p) free ∙ pick_up p up lt

-- With all members connected, operations that depend on no session go to the members one behind the
-- other, from the turn on, and round again.
pub routes-turns :
    (ops : List Operation) (p : Pool)
    → All (λ op. is_session_bound op ≡ false) ops
    → AllUp p.members
    → p.rr < length p.members
    → (routes ops p).1 ≡ turns (length p.members) p.rr (length ops)
unfolding routes
routes-turns [] p free up lt = refl
routes-turns (op ∷ ops) p (f, free) up lt =
    let next = record p { rr = next_turn (length p.members) p.rr } in
    ap (λ r. r.1 ∷ (routes ops r.0).1) (route_up op p f up lt)
    ∙ ap (◌∷◌ p.rr) (routes-turns ops next free up (next_turn_below (length p.members) p.rr lt))
