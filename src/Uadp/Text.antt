-- ===== src/Uadp/Text.antt =====
-- Text in lib/uadp-encoder.js: `Buffer.from(s, "utf8")`, `toString("utf8")`, and BinaryStream's
-- writeString and readString. A string is the list of its code points; a lone surrogate is one.
pub mod RoundTrip
use node_red_contrib_opcua_s.Prelude.{
  ℕ, zero, suc, ◌+◌, ◌-◌, ◌*◌, ◌/◌, ◌%◌, ◌≤◌, ◌<◌, List, [], ◌∷◌, ◌++◌, ltb, leb, ◌==◌, Bool, ◌&&◌,
  if◌then◌else◌, Option, none, some, length,
}
use node_red_contrib_opcua_s.Uadp.Result.{Written, ◌⨟◌}
use node_red_contrib_opcua_s.Uadp.Stream.{
  Read, ◌>>=◌, return, read_uint32, read_bytes, write_uint32, write_bytes,
}

abbrev pub Text : Type 0
Text = List ℕ

abbrev pub replacement : ℕ
replacement = 0xfffd

abbrev is_surrogate : ℕ → Bool
is_surrogate c = leb 0xd800 c && ltb c 0xe000

-- A lone surrogate is written as the replacement character.
unfoldable pub encode_char : ℕ → List ℕ
encode_char c =
    if ltb c 0x80
    then c ∷ []
    else if ltb c 0x800
    then (0xc0 + c / 64) ∷ (0x80 + c % 64) ∷ []
    else if is_surrogate c
    then 0xef ∷ 0xbf ∷ 0xbd ∷ []
    else if ltb c 0x10000
    then (0xe0 + c / 4096) ∷ (0x80 + c / 64 % 64) ∷ (0x80 + c % 64) ∷ []
    else (0xf0 + c / 262144) ∷ (0x80 + c / 4096 % 64) ∷ (0x80 + c / 64 % 64) ∷ (0x80 + c % 64) ∷ []

unfoldable pub utf8 : Text → List ℕ
unfolding encode_char
utf8 [] = []
utf8 (c ∷ cs) = encode_char c ++ utf8 cs

-- Between characters, or inside one: continuation bytes still to come, the bits so far, and the
-- range of the next byte.
pub data State : Type 0 where
  ready : State
  need : (left bits lo hi : ℕ) → State

-- A byte where a character may start.
abbrev pub lead : ℕ → List ℕ × State
lead b =
    if ltb b 0x80
    then (b ∷ [], ready)
    else if ltb b 0xc2
    then (replacement ∷ [], ready)
    else if ltb b 0xe0
    then ([], need 1 (b - 0xc0) 0x80 0xbf)
    else if b == 0xe0
    then ([], need 2 0 0xa0 0xbf)
    else if b == 0xed
    then ([], need 2 0xd 0x80 0x9f)
    else if ltb b 0xf0
    then ([], need 2 (b - 0xe0) 0x80 0xbf)
    else if b == 0xf0
    then ([], need 3 0 0x90 0xbf)
    else if ltb b 0xf4
    then ([], need 3 (b - 0xf0) 0x80 0xbf)
    else if b == 0xf4
    then ([], need 3 4 0x80 0x8f)
    else (replacement ∷ [], ready)

-- A byte that does not continue the character ends it with a replacement, and is read again.
step : State → ℕ → List ℕ × State
step ready b = lead b
step (need left bits lo hi) b =
    if leb lo b && leb b hi
    then (if left == 1
        then ((bits * 64 + (b - 0x80)) ∷ [], ready)
        else ([], need (left - 1) (bits * 64 + (b - 0x80)) 0x80 0xbf))
    else (replacement ∷ (lead b).0, (lead b).1)

decode_from : State → List ℕ → Text
decode_from ready [] = []
decode_from (need left bits lo hi) [] = replacement ∷ []
decode_from st (b ∷ bs) = (step st b).0 ++ decode_from (step st b).1 bs

unfoldable pub from_utf8 : List ℕ → Text
unfolding decode_from step
from_utf8 bs = decode_from ready bs

-- The length that stands for a null string.
abbrev pub null_length : ℕ
null_length = 0xffffffff

unfoldable pub write_string : Option Text → Written
write_string none = write_uint32 null_length
write_string (some s) = write_uint32 (length (utf8 s)) ⨟ write_bytes (utf8 s)

-- What follows the length.
unfoldable pub read_string_body : ℕ → Read (Option Text)
read_string_body len =
    if len == null_length
    then return none
    else (read_bytes len >>= λ bs. return (some (from_utf8 bs)))

unfoldable pub read_string : Read (Option Text)
read_string = do len ← read_uint32; read_string_body len
