-- ===== src/Reassembler/InOrder.antt =====
-- The chunks of a split message, pushed in their order by a transport of lib/transports.
use node_red_contrib_opcua_s.Prelude.{
  later, ℕ, suc, ◌+◌, ◌-◌, ◌≤◌, ◌<◌, leb, inl, inr, Bool-cases, Option, none, some, List, [], ◌∷◌,
  ◌++◌, length, ◌≡◌, refl, sym, ap, subst, ◌∙◌, arith, All, append-nil, append_assoc,
}
use node_red_contrib_opcua_s.Uadp.Text.{Text}
use node_red_contrib_opcua_s.Uadp.Result.{ok, err, mtu_too_small}
use node_red_contrib_opcua_s.Uadp.Network.{Chunk}
use node_red_contrib_opcua_s.Uadp.Network.Codec.{split_into_chunks, chunk_payload_overhead}
use node_red_contrib_opcua_s.Uadp.Network.Codec.Split.{
  IsTiled, IsPiece, IsSplit, all_data, split_into_chunks-IsSplit,
}
use node_red_contrib_opcua_s.Reassembler.{
  Parts, Reassembler, reassembly_expiry_ms, push, settle, concat_parts, new_reassembler,
}
use node_red_contrib_opcua_s.Reassembler.Tiling.{IsTiling}
use node_red_contrib_opcua_s.Reassembler.Delivery.{
  IsBelow, IsBelow-more, IsBelow-append, IsInTime, append-IsInTime, append-IsTiling,
  concat_parts-append, entry, held, holding, held-append, push-next, settle-last, settle-waits,
}

-- One push after the other: the state behind them, and what each of them handed out.
unfoldable pub deliver :
    (ℕ → ℕ) → Reassembler → Text → List Chunk → Reassembler × List (Option (List ℕ))
deliver clock r key [] = (r, [])
deliver clock r key (c ∷ cs) =
    let rest = deliver (later clock) (push (clock 0) r key c).state key cs in
    (rest.0, (push (clock 0) r key c).complete ∷ rest.1)

-- The message is handed out with the last chunk, and nothing before it.
abbrev pub with_last : List Chunk → List ℕ → List (Option (List ℕ))
with_last [] full = []
with_last (c ∷ []) full = some full ∷ []
with_last (c ∷ d ∷ cs) full = none ∷ with_last (d ∷ cs) full

-- None of the first `n` calls comes more than the time to expiry behind the first one.
abbrev pub AreInTime : (ℕ → ℕ) → ℕ → Type 0
AreInTime clock n = (i : ℕ) → i < n → clock i ≤ clock 0 + reassembly_expiry_ms

push_next :
    (limit start now : ℕ) (key : Text) (total m : ℕ) (ps : Parts) (c : Chunk)
    → IsInTime start now ps
    → All (IsBelow m) ps
    → c.chunk_offset ≡ m
    → c.total_size ≡ total
    → total ≤ limit
    → m + length c.chunk_data ≤ total
    → push now (holding limit start key total ps) key c
      ≡ settle
          (holding limit start key total ps)
          key
          (held start key total ps)
          []
          (entry start total (ps ++ ((m, c.chunk_data) ∷ [])))
push_next limit start now key total m ps c timely below e t small inside =
    subst
      (λ u.
        push now (holding limit start key u ps) key c
        ≡ settle (holding limit start key u ps) key (held start key u ps) []
            (entry start u (ps ++ ((m, c.chunk_data) ∷ []))))
      t (push-next limit start now key m ps c timely below e (omega (arith, t)) (omega (arith, t)))

-- The pieces that are left have room below the end.
IsTiled-inside : (total m : ℕ) (cs : List Chunk) → IsTiled total m cs → m ≤ total
IsTiled-inside total m [] h = omega (arith, h)
IsTiled-inside total m (c ∷ cs) (e, t, h) =
    let le = IsTiled-inside total (m + length c.chunk_data) cs h in omega (arith, le)

deliver-rest :
    (limit start : ℕ) (clock : ℕ → ℕ) (key : Text) (total m sequence k : ℕ) (ps : Parts) (c : Chunk)
    (cs : List Chunk)
    → IsInTime start (clock 0) ps
    → ((i : ℕ) → i < length (c ∷ cs) → clock i ≤ start + reassembly_expiry_ms)
    → total ≤ limit
    → All (IsBelow m) ps
    → IsTiling m 0 ps
    → IsTiled total m (c ∷ cs)
    → All (IsPiece sequence k) (c ∷ cs)
    → deliver clock (holding limit start key total ps) key (c ∷ cs)
      ≡ (new_reassembler limit, with_last (c ∷ cs) (concat_parts ps ++ all_data (c ∷ cs)))
unfolding deliver
deliver-rest limit start clock key total m sequence k ps c [] timely in_time small below tiled
      (e, t, last) (piece, no_more) =
    let bytes = c.chunk_data in
    let whole =
      subst (λ n. IsTiling n 0 (ps ++ ((m, bytes) ∷ []))) last
        (append-IsTiling m 0 bytes ps tiled) in
    rw
      (push_next limit start (clock 0) key total m ps c timely below e t small (omega (arith, last))
        ∙ settle-last limit start key total ps (ps ++ ((m, bytes) ∷ [])) whole)
      (ap (λ out. (new_reassembler limit, some out ∷ []))
        (concat_parts-append ps m bytes ∙ ap (◌++◌ (concat_parts ps)) (sym (append-nil bytes))))
deliver-rest limit start clock key total m sequence k ps c (d ∷ cs) timely in_time small below tiled
      (e, t, (f, u, more)) (piece, (next, pieces)) =
    let bytes = c.chunk_data in
    let n = m + length bytes in
    let le = IsTiled-inside total (n + length d.chunk_data) cs more in
    let held_now = ps ++ ((m, bytes) ∷ []) in
    rw
      (push_next limit start (clock 0) key total m ps c timely below e t small (omega (arith, le))
        ∙ settle-waits limit start key total n ps held_now (append-IsTiling m 0 bytes ps tiled)
            (omega (arith, le, next.0)))
      (rw (sym (held-append start key total ps m bytes)) (
        ap (λ r. (r.0, none ∷ r.1))
          (deliver-rest limit start (later clock) key total n sequence k held_now d cs
            (append-IsInTime start (clock 1) ps (m, bytes) (in_time 1 (omega arith)))
            (λ i lt. in_time (suc i) (omega arith)) small
            (IsBelow-append n m bytes ps (IsBelow-more m n ps (omega arith) below)
              (omega (arith, piece.0)) piece.0)
            (append-IsTiling m 0 bytes ps tiled) (f, u, more) (next, pieces))
        ∙ ap (λ out. (new_reassembler limit, none ∷ with_last (d ∷ cs) out))
            (ap (λ front. front ++ all_data (d ∷ cs)) (concat_parts-append ps m bytes)
              ∙ append_assoc (concat_parts ps) bytes (all_data (d ∷ cs)))))

pub split_room :
    (sequence : ℕ) (full : List ℕ) (mtu overhead : ℕ) (cs : List Chunk)
    → split_into_chunks sequence full mtu overhead ≡ ok cs
    → overhead + chunk_payload_overhead < mtu
unfolding split_into_chunks
split_room sequence full mtu overhead cs h =
    elim (Bool-cases (leb mtu (overhead + chunk_payload_overhead))) [
      | inl small ↦
          let go : split_into_chunks sequence full mtu overhead ≡ err mtu_too_small =
            rw (small, split_into_chunks) refl in
          absurd (cc (sym go ∙ h))
      | inr room ↦ ground arith
    ]

-- A message that is not empty, fits the cap, and is split by _splitIntoChunks: where the pieces are
-- pushed in their order into an empty reassembler under one key, at times none of which is more than
-- 30 seconds behind the first, the last piece makes it hand out the message, no other piece makes it
-- hand out anything, and it is empty again.
pub deliver-split_into_chunks :
    (limit : ℕ) (clock : ℕ → ℕ) (key : Text) (sequence : ℕ) (full : List ℕ)
    (mtu header_overhead : ℕ) (cs : List Chunk)
    → 0 < length full
    → length full ≤ limit
    → split_into_chunks sequence full mtu header_overhead ≡ ok cs
    → AreInTime clock (length cs)
    → deliver clock (new_reassembler limit) key cs ≡ (new_reassembler limit, with_last cs full)
deliver-split_into_chunks limit clock key sequence full mtu header_overhead cs pos_full small e
      in_time =
    let room = split_room sequence full mtu header_overhead cs e in
    let (ds, q, is_split) = split_into_chunks-IsSplit sequence full mtu header_overhead room in
    pieces cs in_time (
      subst (IsSplit sequence (mtu - header_overhead - chunk_payload_overhead) full 0 (length full))
        (ok_same ds (sym q ∙ e)) is_split)
  where
    ok_same : (ds : List Chunk) → ok ds ≡ ok cs → ds ≡ cs
    ok_same ds h = cc h

    pieces :
        (cs : List Chunk)
        → AreInTime clock (length cs)
        → IsSplit sequence (mtu - header_overhead - chunk_payload_overhead) full 0 (length full) cs
        → deliver clock (new_reassembler limit) key cs ≡ (new_reassembler limit, with_last cs full)
    pieces [] in_time split = absurd (omega (arith, split.tiled))
    pieces (c ∷ cs) in_time split =
        unfold concat_parts in
        deliver-rest limit (clock 0) clock key (length full) 0 sequence _ [] c cs refl in_time small
          tt refl split.tiled split.pieces
        ∙ ap (λ out. (new_reassembler limit, with_last (c ∷ cs) out)) split.data_kept
