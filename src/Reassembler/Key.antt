-- ===== src/Reassembler/Key.antt =====
-- The key of a reassembly in lib/uadp-reassembler.js:
-- `${publisherId}|${writerGroupId}|${messageSequenceNumber}`.
use node_red_contrib_opcua_s.Prelude.{
  ℕ, zero, suc, ◌+◌, ◌/◌, ◌%◌, ltb, if◌then◌else◌, Option, none, some, [], ◌∷◌, ◌++◌,
}
use node_red_contrib_opcua_s.Prelude.Int.{ℤ, pos, negsuc}
use node_red_contrib_opcua_s.Uadp.Text.{Text}
use node_red_contrib_opcua_s.Uadp.Network.{
  PublisherId, text, big, number, fraction, null_id, other_id, GroupHeader, Chunk, NetworkMessage,
}
use node_red_contrib_opcua_s.Reassembler.{Reassembler, Pushed, push}

-- The decimal digits of a number, on fuel: a number has fewer digits than its successor counts.
unfoldable pub digits : ℕ → ℕ → Text
digits zero n = []
digits (suc fuel) n =
    let front = digits fuel (n / 10) in
    if ltb n 10 then (b'0' + n) ∷ [] else front ++ ((b'0' + n % 10) ∷ [])

unfoldable pub show_nat : ℕ → Text
unfolding digits
show_nat n = digits (suc n) n

unfoldable pub show_int : ℤ → Text
unfolding show_nat
show_int (pos n) = show_nat n
show_int (negsuc n) = b'-' ∷ show_nat (suc n)

abbrev pub undefined : Text
undefined = b'u' ∷ b'n' ∷ b'd' ∷ b'e' ∷ b'f' ∷ b'i' ∷ b'n' ∷ b'e' ∷ b'd' ∷ []

-- An id in a template literal. A decoded id is never a fraction or of another type.
unfoldable pub show_id : Option PublisherId → Text
unfolding show_int
show_id none = undefined
show_id (some (text s)) = s
show_id (some (big i)) = show_int i
show_id (some (number i)) = show_int i
show_id (some null_id) = b'n' ∷ b'u' ∷ b'l' ∷ b'l' ∷ []
show_id (some fraction) = []
show_id (some other_id) = []

unfoldable pub show_group : Option GroupHeader → Text
unfolding show_nat
show_group none = undefined
show_group (some gh) = show_nat gh.writer_group_id

unfoldable pub key_of : NetworkMessage → Chunk → Text
unfolding show_id show_group show_nat
key_of nm c =
    show_id nm.publisher_id
    ++ (b'|' ∷ show_group nm.group_header)
    ++ (b'|' ∷ show_nat c.message_sequence_number)

-- UadpReassembler.push on a decoded message; one without a chunk is not handed over.
unfoldable pub push_message : ℕ → Reassembler → NetworkMessage → Option Pushed
unfolding key_of
push_message now r nm = elim nm.chunk [ none ↦ none | some c ↦ some (push now r (key_of nm c) c) ]
