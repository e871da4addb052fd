-- ===== src/Reassembler/Bound.antt =====
-- The limits of lib/uadp-reassembler.js on the number of reassemblies and on their sizes.
use node_red_contrib_opcua_s.Prelude.{
  ℕ, suc, ◌+◌, ◌≤◌, ◌<◌, ◌≡◌, refl, ltb, false, if◌then◌else◌, Option, none, some, List, [], ◌∷◌,
  length, All, arith, is_some, Bool-cases, inl, inr, subst, ◌==◌, ==_iff,
}
use node_red_contrib_opcua_s.Uadp.Text.{Text}
use node_red_contrib_opcua_s.Uadp.DataSet.Object.{same_text}
use node_red_contrib_opcua_s.Uadp.Network.{Chunk}
use node_red_contrib_opcua_s.Reassembler.{
  Parts, Entry, Entries, Reassembler, Warning, max_inflight, find, set_entry, delete, set_part,
  sweep, drop_oldest, make_room, assembled, or_new, answer, settle, collect, push,
}

abbrev pub FitsPart : ℕ → ℕ × List ℕ → Type 0
FitsPart m (o, bytes) = o + length bytes ≤ m

abbrev pub FitsEntry : ℕ → Text × Entry → Type 0
FitsEntry m (k, e) = (e.total_size ≤ m) × All (FitsPart m) e.parts

-- At most 1000 reassemblies, none of them larger than the cap, and no stored byte beyond it.
pub record IsBounded (r : Reassembler) : Type 0 where
  pub few : length r.entries ≤ max_inflight
  pub small : All (FitsEntry r.max_total_size) r.entries

sweep-All : (P : Text × Entry → Type 0) (now : ℕ) (es : Entries) → All P es → All P (sweep now es)
unfolding sweep
sweep-All P now [] h = tt
sweep-All P now ((k, e) ∷ es) (he, hs) = elim (Bool-cases (ltb e.expires_at now)) [
  | inl old ↦ rw (old, sweep) (sweep-All P now es hs)
  | inr new ↦ rw (new, sweep) (he, sweep-All P now es hs)
]

length-sweep : (now : ℕ) (es : Entries) → length (sweep now es) ≤ length es
unfolding sweep
length-sweep now [] = omega arith
length-sweep now ((k, e) ∷ es) = ground (arith, length-sweep now es)

-- Room is left for the key: it is there, or the limit is not reached.
abbrev Room : Text → Entries → Type 0
Room key es =
    (length es ≤ max_inflight) × (is_some (find key es) ≡ false → length es < max_inflight)

make_room-Room :
    (key : Text) (es : Entries) → length es ≤ max_inflight → Room key (make_room key es).0
unfolding make_room drop_oldest
make_room-Room key [] h = (ground arith, λ p. ground arith)
make_room-Room key ((k, e) ∷ es) h = (ground arith, λ p. ground arith)

make_room-All :
    (P : Text × Entry → Type 0) (key : Text) (es : Entries) → All P es → All P (make_room key es).0
unfolding make_room drop_oldest
make_room-All P key [] h = ground arith
make_room-All P key ((k, e) ∷ es) (he, hs) = ground arith

length-set_entry :
    (key : Text) (e : Entry) (es : Entries)
    → length (set_entry key e es) ≡ (if is_some (find key es) then length es else suc (length es))
unfolding set_entry find
length-set_entry key e [] = refl
length-set_entry key e ((k, old) ∷ es) = ground (arith, length-set_entry key e es)

set_entry-few :
    (key : Text) (e : Entry) (es : Entries)
    → Room key es
    → length (set_entry key e es) ≤ max_inflight
set_entry-few key e es (few, room) = ground (arith, length-set_entry key e es)

set_entry-All :
    (P : Text × Entry → Type 0) (key : Text) (e : Entry) (es : Entries)
    → ((k : Text) → P (k, e))
    → All P es
    → All P (set_entry key e es)
unfolding set_entry
set_entry-All P key e [] he h = (he key, tt)
set_entry-All P key e ((k, old) ∷ es) he (ho, hs) = elim (Bool-cases (same_text key k)) [
  | inl hit ↦ rw (hit, set_entry) (he k, hs)
  | inr miss ↦ rw (miss, set_entry) (ho, set_entry-All P key e es he hs)
]

length-delete : (key : Text) (es : Entries) → length (delete key es) ≤ length es
unfolding delete
length-delete key [] = omega arith
length-delete key ((k, e) ∷ es) = ground (arith, length-delete key es)

delete-All :
    (P : Text × Entry → Type 0) (key : Text) (es : Entries) → All P es → All P (delete key es)
unfolding delete
delete-All P key [] h = tt
delete-All P key ((k, e) ∷ es) (he, hs) = elim (Bool-cases (same_text key k)) [
  | inl hit ↦ rw (hit, delete) hs
  | inr miss ↦ rw (miss, delete) (he, delete-All P key es hs)
]

set_part-All :
    (P : ℕ × List ℕ → Type 0) (o : ℕ) (bytes : List ℕ) (ps : Parts)
    → P (o, bytes)
    → All P ps
    → All P (set_part o bytes ps)
unfolding set_part
set_part-All P o bytes [] hp h = (hp, tt)
set_part-All P o bytes ((p, old) ∷ ps) hp (ho, hs) = elim (Bool-cases (o == p)) [
  | inl hit ↦ rw (hit, set_part) (subst (λ q. P (q, bytes)) ((==_iff o p).0 hit) hp, hs)
  | inr miss ↦ rw (miss, set_part) (ho, set_part-All P o bytes ps hp hs)
]

abbrev Stored : ℕ → Option Entry → Type 0
Stored m none = Unit {0}
Stored m (some e) = (e.total_size ≤ m) × All (FitsPart m) e.parts

find-Stored : (m : ℕ) (key : Text) (es : Entries) → All (FitsEntry m) es → Stored m (find key es)
unfolding find
find-Stored m key [] h = tt
find-Stored m key ((k, e) ∷ es) (he, hs) = elim (Bool-cases (same_text key k)) [
  | inl hit ↦ rw (hit, find) he
  | inr miss ↦ rw (miss, find) (find-Stored m key es hs)
]

or_new-Stored :
    (m now total : ℕ) (o : Option Entry)
    → total ≤ m
    → Stored m o
    → ((or_new now total o).total_size ≤ m) × All (FitsPart m) (or_new now total o).parts
or_new-Stored m now total none h s = (h, tt)
or_new-Stored m now total (some e) h s = s

answer-state :
    (r : Reassembler) (ws : List Warning) (o : Option (List ℕ)) → (answer r ws o).state ≡ r
answer-state r ws none = refl
answer-state r ws (some bytes) = refl

settle-IsBounded :
    (r : Reassembler) (key : Text) (es : Entries) (ws : List Warning) (e : Entry)
    → Room key es
    → All (FitsEntry r.max_total_size) es
    → (e.total_size ≤ r.max_total_size) × All (FitsPart r.max_total_size) e.parts
    → IsBounded (settle r key es ws e).state
unfolding settle
settle-IsBounded r key es ws e room small fits =
    elim (Bool-cases (ltb (assembled e.parts) e.total_size)) [
      | inl wait ↦ rw (wait, settle) (record { few = set_entry-few key e es room; small = kept })
      | inr done ↦
          rw (done, settle, answer-state)
            (record {
              few =
                  omega
                    (arith, length-delete key (set_entry key e es), set_entry-few key e es room);
              small = delete-All _ key _ kept;
            })
    ]
  where
    kept : All (FitsEntry r.max_total_size) (set_entry key e es)
    kept = set_entry-All (FitsEntry r.max_total_size) key e es (λ k. fits) small

collect-IsBounded :
    (now : ℕ) (r : Reassembler) (key : Text) (c : Chunk) (es : Entries) (ws : List Warning)
    → c.total_size ≤ r.max_total_size
    → Room key es
    → All (FitsEntry r.max_total_size) es
    → IsBounded (collect now r key c (es, ws)).state
unfolding collect
collect-IsBounded now r key c es ws fits_cap room small =
    elim (Bool-cases (ltb c.total_size (c.chunk_offset + length c.chunk_data))) [
      | inl bad ↦ rw (bad, collect) (record { few = room.0; small = small })
      | inr good ↦
          let (total, parts) =
            or_new-Stored r.max_total_size now c.total_size (find key es) fits_cap
              (find-Stored r.max_total_size key es small) in
          rw (good, collect)
            (settle-IsBounded r key es ws _ room small
              (total, set_part-All _ c.chunk_offset c.chunk_data _ (ground arith) parts))
    ]

-- No chunk, whatever it declares, takes the reassembler out of its bounds: at most 1000
-- reassemblies, none larger than the cap, and no stored byte beyond it.
pub push-IsBounded :
    (now : ℕ) (r : Reassembler) (key : Text) (c : Chunk)
    → IsBounded r
    → IsBounded (push now r key c).state
unfolding push
push-IsBounded now r key c b = elim (Bool-cases (ltb r.max_total_size c.total_size)) [
  | inl big ↦ rw (big, push) b
  | inr fits ↦
      rw (fits, push)
        (collect-IsBounded now r key c (make_room key (sweep now r.entries)).0
          (make_room key (sweep now r.entries)).1 (ground arith)
          (make_room-Room key (sweep now r.entries)
            (omega (arith, length-sweep now r.entries, b.few)))
          (make_room-All _ key (sweep now r.entries) (sweep-All _ now r.entries b.small)))
]
