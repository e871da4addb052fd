-- ===== src/Reassembler/Tests.antt =====
-- Runs of lib/uadp-reassembler.js on two chunks.
use node_red_contrib_opcua_s.Prelude.{ℕ, ◌*◌, none, List, ◌≡◌, refl, some, [], ◌∷◌, arith}
use node_red_contrib_opcua_s.Uadp.Text.{Text}
use node_red_contrib_opcua_s.Uadp.DataSet.Object.{same_text}
use node_red_contrib_opcua_s.Uadp.Network.{Chunk}
use node_red_contrib_opcua_s.Reassembler.{
  Reassembler, find, set_entry, delete, set_part, sweep, make_room, assembled, insert_part,
  sort_parts, tile_from, concat_parts, assemble, settle, collect, push, new_entry, new_reassembler,
}
use node_red_contrib_opcua_s.Reassembler.Bound.{IsBounded, push-IsBounded}
use node_red_contrib_opcua_s.Uadp.Result.{ok}
use node_red_contrib_opcua_s.Uadp.Network.Codec.{split_into_chunks, split_from}
use node_red_contrib_opcua_s.Reassembler.InOrder.{deliver, deliver-split_into_chunks}
use node_red_contrib_opcua_s.Reassembler.Tiling.{IsAssembled, push-IsAssembled}

abbrev small : Reassembler
small = new_reassembler 10

abbrev some_key : Text
some_key = b'k' ∷ []

abbrev front : Chunk
front = record {
  message_sequence_number = 1;
  chunk_offset = 0;
  total_size = 3;
  chunk_data = 1 ∷ 2 ∷ [];
}

abbrev back : Chunk
back = record { message_sequence_number = 1; chunk_offset = 2; total_size = 3; chunk_data = 3 ∷ [] }

abbrev waiting : Reassembler
waiting = record small {
  entries = (some_key, record (new_entry 0 3) { parts = (2, 3 ∷ []) ∷ [] }) ∷ [];
}

waits : (push 0 small some_key back).state ≡ waiting
unfolding push collect make_room sweep find assembled set_part settle set_entry
waits = refl

completes : (push 5 waiting some_key front).complete ≡ some (1 ∷ 2 ∷ 3 ∷ [])
unfolding push collect make_room sweep find assembled set_part settle set_entry delete assemble
    sort_parts insert_part tile_from concat_parts same_text
completes = refl

small-IsBounded : IsBounded small
small-IsBounded = record { few = ground arith; small = tt }

push-IsBounded_example : IsBounded (push 0 small some_key back).state
push-IsBounded_example = push-IsBounded 0 small some_key back small-IsBounded

assembled_example : IsAssembled 3 (1 ∷ 2 ∷ 3 ∷ []) ((2, 3 ∷ []) ∷ (0, 1 ∷ 2 ∷ []) ∷ [])
unfolding make_room sweep find set_part same_text
assembled_example = push-IsAssembled 5 waiting some_key front (1 ∷ 2 ∷ 3 ∷ []) completes

abbrev pieces_of_one : List Chunk
pieces_of_one =
    record {
      message_sequence_number = 3;
      chunk_offset = 0;
      total_size = 3;
      chunk_data = 1 ∷ 2 ∷ [];
    }
    ∷ record { message_sequence_number = 3; chunk_offset = 2; total_size = 3; chunk_data = 3 ∷ [] }
    ∷ []

split_in_two : split_into_chunks 3 (1 ∷ 2 ∷ 3 ∷ []) 22 8 ≡ ok pieces_of_one
unfolding split_into_chunks split_from
split_in_two = refl

abbrev slow : ℕ → ℕ
slow i = 29000 * i

deliver_example :
    deliver slow (new_reassembler 10) some_key pieces_of_one
    ≡ (new_reassembler 10, none ∷ some (1 ∷ 2 ∷ 3 ∷ []) ∷ [])
deliver_example =
    deliver-split_into_chunks 10 slow some_key 3 (1 ∷ 2 ∷ 3 ∷ []) 22 8 pieces_of_one (ground arith)
      (ground arith) split_in_two (λ i lt. omega (arith, lt))
