-- ===== src/Reassembler/Delivery.antt =====
-- A message that encodeNetworkMessage splits, on its way through UadpReassembler.push.
use node_red_contrib_opcua_s.Prelude.{
  ℕ, ◌+◌, ◌≤◌, ◌<◌, ltb, leb, ◌==◌, true, false, if◌then◌else◌, none, some, List, [], ◌∷◌, ◌++◌,
  length, ◌≡◌, refl, sym, ap, ◌∙◌, arith, All, append-nil, append_assoc,
}
use node_red_contrib_opcua_s.Uadp.Text.{Text}
use node_red_contrib_opcua_s.Uadp.DataSet.Object.{same_text_refl}
use node_red_contrib_opcua_s.Uadp.Network.{Chunk}
use node_red_contrib_opcua_s.Reassembler.{
  Parts, Entry, Entries, Reassembler, reassembly_expiry_ms, find, set_entry, delete, set_part,
  sweep, make_room, assembled, insert_part, sort_parts, tile_from, concat_parts, assemble, settle,
  collect, push, new_reassembler, or_new,
}
use node_red_contrib_opcua_s.Reassembler.Tiling.{IsTiling}

-- Every part has a byte and stands below `m`.
abbrev pub IsBelow : ℕ → ℕ × List ℕ → Type 0
IsBelow m (o, bytes) = (o < m) × (0 < length bytes)

pub IsBelow-more : (m n : ℕ) (ps : Parts) → m ≤ n → All (IsBelow m) ps → All (IsBelow n) ps
IsBelow-more m n [] le h = tt
IsBelow-more m n ((o, bytes) ∷ ps) le ((lt, pos_b), h) =
    ((omega arith, pos_b), IsBelow-more m n ps le h)

pub IsBelow-append :
    (m o : ℕ) (bytes : List ℕ) (ps : Parts)
    → All (IsBelow m) ps
    → o < m
    → 0 < length bytes
    → All (IsBelow m) (ps ++ ((o, bytes) ∷ []))
IsBelow-append m o bytes [] h lt pos_b = ((lt, pos_b), tt)
IsBelow-append m o bytes ((p, other) ∷ ps) (hp, h) lt pos_b =
    (hp, IsBelow-append m o bytes ps h lt pos_b)

set_part-fresh :
    (m : ℕ) (bytes : List ℕ) (ps : Parts)
    → All (IsBelow m) ps
    → set_part m bytes ps ≡ ps ++ ((m, bytes) ∷ [])
unfolding set_part
set_part-fresh m bytes [] h = refl
set_part-fresh m bytes ((o, other) ∷ ps) ((lt, pos_o), h) =
    let no : (m == o) ≡ false = ground arith in
    rw (no, set_part) (ap (◌∷◌ (o, other)) (set_part-fresh m bytes ps h))

assembled-IsTiling :
    (total cursor : ℕ) (ps : Parts) → IsTiling total cursor ps → cursor + assembled ps ≡ total
unfolding assembled
assembled-IsTiling total cursor [] h = omega (arith, h)
assembled-IsTiling total cursor ((o, bytes) ∷ ps) (e, h) =
    omega (arith, assembled-IsTiling total (cursor + length bytes) ps h)

pub append-IsTiling :
    (m cursor : ℕ) (bytes : List ℕ) (ps : Parts)
    → IsTiling m cursor ps
    → IsTiling (m + length bytes) cursor (ps ++ ((m, bytes) ∷ []))
append-IsTiling m cursor bytes [] h = (sym h, omega (arith, h))
append-IsTiling m cursor bytes ((o, other) ∷ ps) (e, h) =
    (e, append-IsTiling m (cursor + length other) bytes ps h)

insert_part-first :
    (total cursor o : ℕ) (bytes : List ℕ) (ps : Parts)
    → o ≡ cursor
    → IsTiling total (cursor + length bytes) ps
    → insert_part (o, bytes) ps ≡ (o, bytes) ∷ ps
unfolding insert_part
insert_part-first total cursor o bytes [] e h = refl
insert_part-first total cursor o bytes ((p, other) ∷ ps) e (q, h) =
    let yes : leb o p ≡ true = ground arith in rw (yes, insert_part) refl

sort_parts-IsTiling :
    (total cursor : ℕ) (ps : Parts) → IsTiling total cursor ps → sort_parts ps ≡ ps
unfolding sort_parts
sort_parts-IsTiling total cursor [] h = refl
sort_parts-IsTiling total cursor ((o, bytes) ∷ ps) (e, h) =
    ap (insert_part (o, bytes)) (sort_parts-IsTiling total (cursor + length bytes) ps h)
    ∙ insert_part-first total cursor o bytes ps e h

tile_from_complete :
    (total cursor : ℕ) (ps : Parts) → IsTiling total cursor ps → tile_from cursor ps ≡ some total
unfolding tile_from
tile_from_complete total cursor [] h = ap some h
tile_from_complete total cursor ((o, bytes) ∷ ps) (e, h) =
    let yes : (o == cursor) ≡ true = ground arith in
    rw (yes, tile_from) (tile_from_complete total (cursor + length bytes) ps h)

assemble_complete :
    (total : ℕ) (ps : Parts)
    → IsTiling total 0 ps
    → assemble total (sort_parts ps) ≡ some (concat_parts ps)
unfolding assemble
assemble_complete total ps h =
    let same = sort_parts-IsTiling total 0 ps h in
    ap (assemble total) same
    ∙ (rw (assemble, tile_from_complete total 0 ps h) (whole_size total ps))
  where
    whole_size :
        (total : ℕ) (ps : Parts)
        → (if total == total then some (concat_parts ps) else none) ≡ some (concat_parts ps)
    whole_size total ps = let yes : (total == total) ≡ true = ground arith in rw yes refl

pub concat_parts-append :
    (ps : Parts) (o : ℕ) (bytes : List ℕ)
    → concat_parts (ps ++ ((o, bytes) ∷ [])) ≡ concat_parts ps ++ bytes
unfolding concat_parts
concat_parts-append [] o bytes = append-nil bytes
concat_parts-append ((p, other) ∷ ps) o bytes =
    ap (◌++◌ other) (concat_parts-append ps o bytes)
    ∙ sym (append_assoc other (concat_parts ps) bytes)

-- The entries of a reassembler that has only `ps` of one message.
abbrev pub entry : ℕ → ℕ → Parts → Entry
entry now total ps = record {
  total_size = total;
  parts = ps;
  expires_at = now + reassembly_expiry_ms;
}

abbrev pub held : ℕ → Text → ℕ → Parts → Entries
held now key total [] = []
held now key total (p ∷ ps) = (key, entry now total (p ∷ ps)) ∷ []

-- A time at which the next part comes: the entry is made then, or has not expired yet.
abbrev pub IsInTime : ℕ → ℕ → Parts → Type 0
IsInTime start now [] = now ≡ start
IsInTime start now (p ∷ ps) = now ≤ start + reassembly_expiry_ms

pub append-IsInTime :
    (start now : ℕ) (ps : Parts) (p : ℕ × List ℕ)
    → now ≤ start + reassembly_expiry_ms
    → IsInTime start now (ps ++ (p ∷ []))
append-IsInTime start now [] p h = h
append-IsInTime start now (q ∷ ps) p h = h

room_for :
    (start now : ℕ) (key : Text) (total : ℕ) (ps : Parts)
    → IsInTime start now ps
    → make_room key (sweep now (held start key total ps)) ≡ (held start key total ps, [])
unfolding make_room sweep find
room_for start now key total [] h = refl
room_for start now key total (p ∷ ps) h =
    let fresh : ltb (start + reassembly_expiry_ms) now ≡ false = ground arith in
    rw (fresh, sweep) (rw (same_text_refl key, find) refl)

-- The entry that the next chunk of the message goes to.
entry_of :
    (start now : ℕ) (key : Text) (total : ℕ) (ps : Parts)
    → IsInTime start now ps
    → or_new now total (find key (held start key total ps)) ≡ entry start total ps
unfolding find
entry_of start now key total [] h = ap (λ n. entry n total []) h
entry_of start now key total (p ∷ ps) h = rw (same_text_refl key, find) refl

set_held :
    (now : ℕ) (key : Text) (total : ℕ) (ps : Parts) (e : Entry)
    → set_entry key e (held now key total ps) ≡ (key, e) ∷ []
unfolding set_entry
set_held now key total [] e = refl
set_held now key total (p ∷ ps) e = rw (same_text_refl key, set_entry) refl

delete_held : (key : Text) (e : Entry) → delete key ((key, e) ∷ []) ≡ []
unfolding delete
delete_held key e = rw (same_text_refl key, delete) refl

abbrev pub holding : ℕ → ℕ → Text → ℕ → Parts → Reassembler
holding cap_size now key total ps = record {
  max_total_size = cap_size;
  entries = held now key total ps;
}

pub held-append :
    (now : ℕ) (key : Text) (total : ℕ) (ps : Parts) (o : ℕ) (bytes : List ℕ)
    → held now key total (ps ++ ((o, bytes) ∷ []))
      ≡ (key, entry now total (ps ++ ((o, bytes) ∷ []))) ∷ []
held-append now key total [] o bytes = refl
held-append now key total (p ∷ ps) o bytes = refl

-- A chunk that stands behind the parts that are held is recorded behind them.
pub push-next :
    (limit start now : ℕ) (key : Text) (m : ℕ) (ps : Parts) (c : Chunk)
    → IsInTime start now ps
    → All (IsBelow m) ps
    → c.chunk_offset ≡ m
    → c.total_size ≤ limit
    → m + length c.chunk_data ≤ c.total_size
    → push now (holding limit start key c.total_size ps) key c
      ≡ settle
          (holding limit start key c.total_size ps)
          key
          (held start key c.total_size ps)
          []
          (entry start c.total_size (ps ++ ((m, c.chunk_data) ∷ [])))
unfolding push collect
push-next limit start now key m ps c timely below e small inside =
    let fits : ltb limit c.total_size ≡ false = ground arith in
    let ends : ltb c.total_size (c.chunk_offset + length c.chunk_data) ≡ false = ground arith in
    rw
      (
        fits,
        push,
        room_for start now key c.total_size ps timely,
        collect,
        ends,
        entry_of start now key c.total_size ps timely,
      )
      (rw (e, set_part-fresh m c.chunk_data ps below) refl)

-- The chunk with which the parts reach the declared size.
pub settle-last :
    (limit now : ℕ) (key : Text) (total : ℕ) (held_parts ps : Parts)
    → IsTiling total 0 ps
    → settle
        (holding limit now key total held_parts)
        key
        (held now key total held_parts)
        []
        (entry now total ps)
      ≡ record { state = new_reassembler limit; warnings = []; complete = some (concat_parts ps) }
unfolding settle
settle-last limit now key total held_parts ps tiled =
    let full = assembled-IsTiling total 0 ps tiled in
    let done : ltb (assembled ps) total ≡ false = ground (arith, full) in
    rw
      (
        done,
        settle,
        set_held now key total held_parts (entry now total ps),
        delete_held key (entry now total ps),
        assemble_complete total ps tiled,
      )
      refl

-- Any chunk before it.
pub settle-waits :
    (limit now : ℕ) (key : Text) (total m : ℕ) (held_parts ps : Parts)
    → IsTiling m 0 ps
    → m < total
    → settle
        (holding limit now key total held_parts)
        key
        (held now key total held_parts)
        []
        (entry now total ps)
      ≡ record {
        state = record { max_total_size = limit; entries = (key, entry now total ps) ∷ [] };
        warnings = [];
        complete = none;
      }
unfolding settle
settle-waits limit now key total m held_parts ps tiled less =
    let sum = assembled-IsTiling m 0 ps tiled in
    let wait : ltb (assembled ps) total ≡ true = ground (arith, sum) in
    rw (wait, settle, set_held now key total held_parts (entry now total ps)) refl
