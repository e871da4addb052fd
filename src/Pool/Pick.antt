-- ===== src/Pool/Pick.antt =====
-- _pickMember of lib/opcua-pool.js picks the next connected member in turn.
use node_red_contrib_opcua_s.Prelude.{
  ℕ, zero, suc, ◌+◌, ◌%◌, ◌<◌, true, false, length, ◌≡◌, refl, sym, subst, ◌⊎◌, inl, inr,
  Bool-cases, arith,
}
use node_red_contrib_opcua_s.Pool.{Pool, connected_at, index, pick_from, pick_member}

-- The member at the least distance from the turn that is connected; the turn goes behind it.
pub record IsPicked (p : Pool) (r : Pool × ℕ) : Type 0 where
  pub distance : ℕ
  pub near : distance < length p.members
  pub chosen : r.1 ≡ index p distance
  pub is_up : connected_at (index p distance) p.members ≡ true
  pub none_before : (j : ℕ) → j < distance → connected_at (index p j) p.members ≡ false
  pub turned : r.0 ≡ record p { rr = (index p distance + 1) % length p.members }

-- No member is connected: the primary, and the turn stays.
abbrev pub IsFallback : Pool → Pool × ℕ → Type 0
IsFallback p r =
    ((j : ℕ) → j < length p.members → connected_at (index p j) p.members ≡ false)
    × ((r.0 ≡ p) × (r.1 ≡ 0))

extend :
    (p : Pool) (i : ℕ)
    → ((j : ℕ) → j < i → connected_at (index p j) p.members ≡ false)
    → connected_at (index p i) p.members ≡ false
    → (j : ℕ) → j < suc i
    → connected_at (index p j) p.members ≡ false
extend p i before here j lt = elim (same_or_below j i lt) [
  | inl below ↦ before j below
  | inr same ↦ subst (λ k. connected_at (index p k) p.members ≡ false) (sym same) here
]
  where
    same_or_below : (j i : ℕ) → j < suc i → (j < i) ⊎ (j ≡ i)
    same_or_below j i lt = ground arith

pick_from-cases :
    (k i : ℕ) (p : Pool)
    → i + k ≡ length p.members
    → ((j : ℕ) → j < i → connected_at (index p j) p.members ≡ false)
    → IsPicked p (pick_from k i p) ⊎ IsFallback p (pick_from k i p)
unfolding pick_from
pick_from-cases zero i p e before = inr (λ j lt. before j (omega arith), (refl, refl))
pick_from-cases (suc k) i p e before = elim (Bool-cases (connected_at (index p i) p.members)) [
  | inl up ↦ rw up (
      inl (record {
        distance = i;
        near = omega arith;
        chosen = refl;
        is_up = up;
        none_before = before;
        turned = refl;
      }))
  | inr down ↦ rw down (pick_from-cases k (suc i) p (omega arith) (extend p i before down))
]

-- Where a member is connected, the first one from the turn on is picked; where none is, the primary.
pub pick_member-cases : (p : Pool) → IsPicked p (pick_member p) ⊎ IsFallback p (pick_member p)
unfolding pick_member
pick_member-cases p =
    pick_from-cases (length p.members) 0 p (omega arith) (λ j lt. absurd (omega arith))
