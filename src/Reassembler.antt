-- ===== src/Reassembler.antt =====
-- lib/uadp-reassembler.js: chunk NetworkMessages are collected by key until they tile the message.
-- The clock is an argument of `push`. A Map is the list of its entries in insertion order.
pub mod Key
pub mod Bound
pub mod Tiling
pub mod Delivery
pub mod InOrder
mod Tests
use node_red_contrib_opcua_s.Prelude.{
  ℕ, zero, suc, ◌+◌, ◌*◌, ltb, leb, ◌==◌, Bool, true, false, not, ◌&&◌, if◌then◌else◌, Option, none,
  some, List, [], ◌∷◌, ◌++◌, length, is_some,
}
use node_red_contrib_opcua_s.Uadp.Text.{Text}
use node_red_contrib_opcua_s.Uadp.DataSet.Object.{same_text}
use node_red_contrib_opcua_s.Uadp.Network.{Chunk}

abbrev pub max_inflight : ℕ
max_inflight = 1000

abbrev pub reassembly_expiry_ms : ℕ
reassembly_expiry_ms = 30000

-- Chunk data by offset.
abbrev pub Parts : Type 0
Parts = List (ℕ × List ℕ)

pub record Entry : Type 0 where
  pub total_size : ℕ
  pub parts : Parts
  pub expires_at : ℕ

abbrev pub Entries : Type 0
Entries = List (Text × Entry)

pub record Reassembler : Type 0 where
  pub max_total_size : ℕ
  pub entries : Entries

-- The codes that `onWarn` gets, with the key that was dropped.
pub data Warning : Type 0 where
  total_size_rejected bad_tiling : Warning
  overflow : Text → Warning

pub record Pushed : Type 0 where
  pub state : Reassembler
  pub warnings : List Warning
  pub complete : Option (List ℕ)

-- `this.entries.get(key)`, `.set(key, entry)` and `.delete(key)`
unfoldable pub find : Text → Entries → Option Entry
find key [] = none
find key ((k, e) ∷ es) = if same_text key k then some e else find key es

unfoldable pub set_entry : Text → Entry → Entries → Entries
set_entry key e [] = (key, e) ∷ []
set_entry key e ((k, old) ∷ es) =
    if same_text key k then (k, e) ∷ es else (k, old) ∷ set_entry key e es

unfoldable pub delete : Text → Entries → Entries
delete key [] = []
delete key ((k, e) ∷ es) = if same_text key k then es else (k, e) ∷ delete key es

-- `entry.parts.set(offset, data)`: a duplicate overwrites.
unfoldable pub set_part : ℕ → List ℕ → Parts → Parts
set_part offset bytes [] = (offset, bytes) ∷ []
set_part offset bytes ((o, old) ∷ ps) =
    if offset == o then (o, bytes) ∷ ps else (o, old) ∷ set_part offset bytes ps

unfoldable pub sweep : ℕ → Entries → Entries
sweep now [] = []
sweep now ((k, e) ∷ es) = if ltb e.expires_at now then sweep now es else (k, e) ∷ sweep now es

-- Room for a new key: the oldest entry goes where the limit is reached.
unfoldable pub drop_oldest : Entries → Entries × List Warning
drop_oldest [] = ([], [])
drop_oldest ((k, e) ∷ es) = (es, overflow k ∷ [])

unfoldable pub make_room : Text → Entries → Entries × List Warning
make_room key es =
    if not (is_some (find key es)) && leb max_inflight (length es) then drop_oldest es else (es, [])

unfoldable pub assembled : Parts → ℕ
assembled [] = 0
assembled ((o, bytes) ∷ ps) = length bytes + assembled ps

-- `[...parts].sort((a, b) => a[0] - b[0])`
unfoldable pub insert_part : ℕ × List ℕ → Parts → Parts
insert_part (o, bytes) [] = (o, bytes) ∷ []
insert_part (o, bytes) ((p, other) ∷ ps) =
    if leb o p then (o, bytes) ∷ (p, other) ∷ ps else (p, other) ∷ insert_part (o, bytes) ps

unfoldable pub sort_parts : Parts → Parts
sort_parts [] = []
sort_parts (p ∷ ps) = insert_part p (sort_parts ps)

-- The tiling loop: the final cursor, or `none` at a gap or an overlap.
unfoldable pub tile_from : ℕ → Parts → Option ℕ
tile_from cursor [] = some cursor
tile_from cursor ((o, bytes) ∷ ps) =
    let rest = tile_from (cursor + length bytes) ps in if o == cursor then rest else none

unfoldable pub concat_parts : Parts → List ℕ
concat_parts [] = []
concat_parts ((o, bytes) ∷ ps) = bytes ++ concat_parts ps

-- The message that sorted parts make up, if they tile [0, total) exactly.
unfoldable pub assemble : ℕ → Parts → Option (List ℕ)
assemble total sorted = elim (tile_from 0 sorted) [
  | none ↦ none
  | some cursor ↦ if cursor == total then some (concat_parts sorted) else none
]

abbrev pub new_entry : ℕ → ℕ → Entry
new_entry now total = record {
  total_size = total;
  parts = [];
  expires_at = now + reassembly_expiry_ms;
}

abbrev pub or_new : ℕ → ℕ → Option Entry → Entry
or_new now total none = new_entry now total
or_new now total (some e) = e

abbrev pub answer : Reassembler → List Warning → Option (List ℕ) → Pushed
answer r ws none = record { state = r; warnings = ws ++ (bad_tiling ∷ []); complete = none }
answer r ws (some bytes) = record { state = r; warnings = ws; complete = some bytes }

-- The entry with the new part: wait for more, or take it out and assemble.
unfoldable pub settle : Reassembler → Text → Entries → List Warning → Entry → Pushed
settle r key es ws e =
    if ltb (assembled e.parts) e.total_size
    then record {
      state = record r { entries = set_entry key e es };
      warnings = ws;
      complete = none;
    }
    else answer (record r { entries = delete key (set_entry key e es) }) ws
        (assemble e.total_size (sort_parts e.parts))

-- A chunk that ends behind the size it declares is refused; else it is recorded.
unfoldable pub collect : ℕ → Reassembler → Text → Chunk → Entries × List Warning → Pushed
collect now r key c (es, ws) =
    if ltb c.total_size (c.chunk_offset + length c.chunk_data)
    then record {
      state = record r { entries = es };
      warnings = ws ++ (bad_tiling ∷ []);
      complete = none;
    }
    else let e = or_new now c.total_size (find key es) in
      settle r key es ws (record e { parts = set_part c.chunk_offset c.chunk_data e.parts })

unfoldable pub push : ℕ → Reassembler → Text → Chunk → Pushed
push now r key c =
    if ltb r.max_total_size c.total_size
    then record { state = r; warnings = total_size_rejected ∷ []; complete = none }
    else collect now r key c (make_room key (sweep now r.entries))

-- The constructor and `clear`.
abbrev pub new_reassembler : ℕ → Reassembler
new_reassembler max_total = record { max_total_size = max_total; entries = [] }

abbrev pub clear : Reassembler → Reassembler
clear r = record r { entries = [] }
