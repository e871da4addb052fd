-- ===== src/Reassembler/Tiling.antt =====
-- The tiling check of UadpReassembler.push in lib/uadp-reassembler.js.
use node_red_contrib_opcua_s.Prelude.{
  ℕ, ◌+◌, ltb, ◌==◌, true, false, Option, none, some, List, [], ◌∷◌, length, ◌≡◌, refl, sym, ap,
  ◌∙◌, arith, inl, inr, Bool-cases, Option-cases, length-append, ==_iff,
}
use node_red_contrib_opcua_s.Uadp.Text.{Text}
use node_red_contrib_opcua_s.Uadp.Network.{Chunk}
use node_red_contrib_opcua_s.Reassembler.{
  Parts, Entry, Entries, Reassembler, Warning, find, tile_from, concat_parts, sort_parts, assemble,
  settle, collect, push, answer, or_new, make_room, sweep, set_part, assembled,
}

-- Sorted parts that stand one behind the other from `cursor` to `total`.
abbrev pub IsTiling : ℕ → ℕ → Parts → Type 0
IsTiling total cursor [] = cursor ≡ total
IsTiling total cursor ((o, bytes) ∷ ps) = (o ≡ cursor) × IsTiling total (cursor + length bytes) ps

tile_from-IsTiling :
    (ps : Parts) (cursor total : ℕ) → tile_from cursor ps ≡ some total → IsTiling total cursor ps
unfolding tile_from
tile_from-IsTiling [] cursor total h = cc
tile_from-IsTiling ((o, bytes) ∷ ps) cursor total h = elim (Bool-cases (o == cursor)) [
  | inl e ↦
      ((==_iff o cursor).0 e, tile_from-IsTiling ps (cursor + length bytes) total (sym (hit e) ∙ h))
  | inr e ↦ absurd (cc (sym (miss e) ∙ h))
]
  where
    hit :
        (o == cursor) ≡ true
        → tile_from cursor ((o, bytes) ∷ ps) ≡ tile_from (cursor + length bytes) ps
    hit e = rw (e, tile_from) refl

    miss : (o == cursor) ≡ false → tile_from cursor ((o, bytes) ∷ ps) ≡ none
    miss e = rw (e, tile_from) refl

length-concat_parts :
    (ps : Parts) (cursor total : ℕ)
    → IsTiling total cursor ps
    → cursor + length (concat_parts ps) ≡ total
unfolding concat_parts
length-concat_parts [] cursor total h = omega (arith, h)
length-concat_parts ((o, bytes) ∷ ps) cursor total (e, h) = omega (
  arith,
  length-append bytes (concat_parts ps),
  length-concat_parts ps (cursor + length bytes) total h,
)

-- A message that was put together from the parts `ps`, which tile its length.
pub record IsAssembled (total : ℕ) (bytes : List ℕ) (parts : Parts) : Type 0 where
  pub tiling : IsTiling total 0 (sort_parts parts)
  pub joined : concat_parts (sort_parts parts) ≡ bytes
  pub size : length bytes ≡ total

assemble-IsAssembled :
    (total : ℕ) (parts : Parts) (bytes : List ℕ)
    → assemble total (sort_parts parts) ≡ some bytes
    → IsAssembled total bytes parts
unfolding assemble
assemble-IsAssembled total parts bytes h = elim (Option-cases (tile_from 0 (sort_parts parts))) [
  | inl e ↦ absurd (cc (sym (gap e) ∙ h))
  | inr (cursor, e) ↦ elim (Bool-cases (cursor == total)) [
    | inl q ↦
        let t =
          tile_from-IsTiling (sort_parts parts) 0 total (e ∙ ap some ((==_iff cursor total).0 q)) in
        let j : concat_parts (sort_parts parts) ≡ bytes = cc (sym (full cursor e q) ∙ h) in
        record {
          tiling = t;
          joined = j;
          size = omega (arith, ap length j, length-concat_parts (sort_parts parts) 0 total t);
        }
    | inr q ↦ absurd (cc (sym (short cursor e q) ∙ h))
  ]
]
  where
    gap : tile_from 0 (sort_parts parts) ≡ none → assemble total (sort_parts parts) ≡ none
    gap e = rw (e, assemble) refl

    full :
        (cursor : ℕ)
        → tile_from 0 (sort_parts parts) ≡ some cursor
        → (cursor == total) ≡ true
        → assemble total (sort_parts parts) ≡ some (concat_parts (sort_parts parts))
    full cursor e q = rw (e, assemble, q) refl

    short :
        (cursor : ℕ)
        → tile_from 0 (sort_parts parts) ≡ some cursor
        → (cursor == total) ≡ false
        → assemble total (sort_parts parts) ≡ none
    short cursor e q = rw (e, assemble, q) refl

-- The entry that a chunk is recorded in.
abbrev pub entry_for : ℕ → Reassembler → Text → Chunk → Entry
entry_for now r key c = or_new now c.total_size (find key (make_room key (sweep now r.entries)).0)

answer-complete :
    (r : Reassembler) (ws : List Warning) (o : Option (List ℕ)) → (answer r ws o).complete ≡ o
answer-complete r ws none = refl
answer-complete r ws (some bytes) = refl

settle-IsAssembled :
    (r : Reassembler) (key : Text) (es : Entries) (ws : List Warning) (e : Entry) (bytes : List ℕ)
    → (settle r key es ws e).complete ≡ some bytes
    → IsAssembled e.total_size bytes e.parts
unfolding settle
settle-IsAssembled r key es ws e bytes h =
    elim (Bool-cases (ltb (assembled e.parts) e.total_size)) [
      | inl wait ↦ absurd (cc (sym (waits wait) ∙ h))
      | inr done ↦ assemble-IsAssembled e.total_size e.parts bytes (sym (settles done) ∙ h)
    ]
  where
    waits : ltb (assembled e.parts) e.total_size ≡ true → (settle r key es ws e).complete ≡ none
    waits w = rw (w, settle) refl

    settles :
        ltb (assembled e.parts) e.total_size ≡ false
        → (settle r key es ws e).complete ≡ assemble e.total_size (sort_parts e.parts)
    settles d = rw (d, settle, answer-complete) refl

collect-IsAssembled :
    (now : ℕ) (r : Reassembler) (key : Text) (c : Chunk) (es : Entries) (ws : List Warning)
    (bytes : List ℕ)
    → (collect now r key c (es, ws)).complete ≡ some bytes
    → let e = or_new now c.total_size (find key es) in
      IsAssembled e.total_size bytes (set_part c.chunk_offset c.chunk_data e.parts)
unfolding collect
collect-IsAssembled now r key c es ws bytes h =
    elim (Bool-cases (ltb c.total_size (c.chunk_offset + length c.chunk_data))) [
      | inl bad ↦ absurd (cc (sym (refused bad) ∙ h))
      | inr good ↦
          settle-IsAssembled r key es ws _ bytes (sym (ap (λ p. p.complete) (recorded good)) ∙ h)
    ]
  where
    refused :
        ltb c.total_size (c.chunk_offset + length c.chunk_data) ≡ true
        → (collect now r key c (es, ws)).complete ≡ none
    refused bad = rw (bad, collect) refl

    recorded :
        ltb c.total_size (c.chunk_offset + length c.chunk_data) ≡ false
        → collect now r key c (es, ws)
          ≡ settle r key es ws (record (or_new now c.total_size (find key es)) {
            parts =
                set_part c.chunk_offset c.chunk_data (or_new now c.total_size (find key es)).parts;
          })
    recorded good = rw (good, collect) refl

-- When a push hands out a message, the parts of its entry with the new chunk among them tile the
-- declared size in the order of their offsets, and the message is what they join to, of that size.
pub push-IsAssembled :
    (now : ℕ) (r : Reassembler) (key : Text) (c : Chunk) (bytes : List ℕ)
    → (push now r key c).complete ≡ some bytes
    → let e = entry_for now r key c in
      IsAssembled e.total_size bytes (set_part c.chunk_offset c.chunk_data e.parts)
unfolding push
push-IsAssembled now r key c bytes h = elim (Bool-cases (ltb r.max_total_size c.total_size)) [
  | inl big ↦ absurd (cc (sym (rejected big) ∙ h))
  | inr fits ↦
      collect-IsAssembled now r key c (make_room key (sweep now r.entries)).0
        (make_room key (sweep now r.entries)).1 bytes (sym (accepted fits) ∙ h)
]
  where
    rejected : ltb r.max_total_size c.total_size ≡ true → (push now r key c).complete ≡ none
    rejected big = rw (big, push) refl

    accepted :
        ltb r.max_total_size c.total_size ≡ false
        → (push now r key c).complete
          ≡ (collect now r key c (make_room key (sweep now r.entries))).complete
    accepted fits = rw (fits, push) refl
