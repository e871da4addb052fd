-- ===== src/Uadp/Network/Codec/Split.antt =====
-- _splitIntoChunks of lib/uadp-encoder.js: the pieces of a payload.
use node_red_contrib_opcua_s.Prelude.{
  ℕ, zero, suc, ◌+◌, ◌-◌, ◌<◌, ◌≤◌, leb, false, List, [], ◌∷◌, ◌++◌, length, take, drop, ◌≡◌, refl,
  ap, ◌∙◌, arith, All, min, take-append-drop, length-take, length-drop,
}
use node_red_contrib_opcua_s.Uadp.Result.{ok}
use node_red_contrib_opcua_s.Uadp.Network.{Chunk}
use node_red_contrib_opcua_s.Uadp.Network.Codec.{
  split_from, split_into_chunks, chunk_payload_overhead,
}

-- The data of the pieces, one behind the other.
abbrev pub all_data : List Chunk → List ℕ
all_data [] = []
all_data (c ∷ cs) = c.chunk_data ++ all_data cs

-- From `offset` on, each piece stands where the one before it ends, and the last one at `total`.
abbrev pub IsTiled : ℕ → ℕ → List Chunk → Type 0
IsTiled total offset [] = offset ≡ total
IsTiled total offset (c ∷ cs) =
    (c.chunk_offset ≡ offset)
    × (c.total_size ≡ total)
    × IsTiled total (offset + length c.chunk_data) cs

-- A piece has at least one byte and at most `m`, and the sequence number of its message.
abbrev pub IsPiece : ℕ → ℕ → Chunk → Type 0
IsPiece sequence m c =
    (0 < length c.chunk_data) × (length c.chunk_data ≤ m) × (c.message_sequence_number ≡ sequence)

-- What splitting a payload promises.
pub record IsSplit (sequence m : ℕ) (full : List ℕ) (offset : ℕ) (total : ℕ) (cs : List Chunk)
    : Type 0 where
  pub data_kept : all_data cs ≡ full
  pub tiled : IsTiled total offset cs
  pub pieces : All (IsPiece sequence m) cs

split_from-IsSplit :
    (fuel m sequence total offset : ℕ) (bs : List ℕ)
    → 0 < m
    → length bs ≤ fuel
    → offset + length bs ≡ total
    → IsSplit sequence m bs offset total (split_from fuel m sequence total offset bs)
unfolding split_from
split_from-IsSplit fuel m sequence total offset [] pos enough e = record {
  data_kept = refl;
  tiled = omega (arith, e);
  pieces = tt;
}
split_from-IsSplit zero m sequence total offset (b ∷ bs) pos enough e = absurd (omega arith)
split_from-IsSplit (suc fuel) m sequence total offset (b ∷ bs) pos enough e =
    let size = min m (length (b ∷ bs)) in
    let taken = length-take size (b ∷ bs) (ground arith) in
    let rest =
      split_from-IsSplit fuel m sequence total (offset + size) (drop size (b ∷ bs)) pos
        (ground (arith, length-drop size (b ∷ bs))) (ground (arith, length-drop size (b ∷ bs))) in
    record {
      data_kept = ap (◌++◌ (take size (b ∷ bs))) rest.data_kept ∙ take-append-drop size (b ∷ bs);
      tiled = (refl, refl, rw taken rest.tiled);
      pieces = ((ground (arith, taken), ground (arith, taken), refl), rest.pieces);
    }

-- Where the MTU leaves room behind the header and the overhead, _splitIntoChunks returns pieces
-- that have the payload as their data in order, whose offsets tile it up to its length, and of
-- which each has between one byte and that room.
pub split_into_chunks-IsSplit :
    (sequence : ℕ) (full : List ℕ) (mtu header_overhead : ℕ)
    → header_overhead + chunk_payload_overhead < mtu
    → (cs : List Chunk) × (split_into_chunks sequence full mtu header_overhead ≡ ok cs)
      × IsSplit sequence (mtu - header_overhead - chunk_payload_overhead) full 0 (length full) cs
unfolding split_into_chunks
split_into_chunks-IsSplit sequence full mtu header_overhead room =
    let no : leb mtu (header_overhead + chunk_payload_overhead) ≡ false = ground arith in
    rw (no, split_into_chunks)
      (
        _,
        refl,
        split_from-IsSplit (length full) (mtu - header_overhead - chunk_payload_overhead) sequence
            (length full) 0 full (omega arith) (omega arith) (omega arith),
      )
