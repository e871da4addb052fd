-- ===== src/Uadp/Guid.antt =====
-- writeGuid and readGuid of BinaryStream in lib/uadp-encoder.js: the text of a GUID and its sixteen
-- bytes. `parseInt(s, 16)`, `split`, `padStart`, `toUpperCase` and the "hex" encoding are written
-- out as far as these functions use them.
pub mod RoundTrip
use node_red_contrib_opcua_s.Prelude.{
  ℕ, zero, suc, ◌+◌, ◌-◌, ◌*◌, ◌/◌, ◌%◌, List, [], ◌∷◌, ◌++◌, map, ltb, leb, ◌==◌, Bool, ◌&&◌, ◌||◌,
  if◌then◌else◌, Option, none, some,
}
use node_red_contrib_opcua_s.Uadp.Result.{Written, err, invalid_guid, ◌⨟◌}
use node_red_contrib_opcua_s.Uadp.Stream.{
  Read, ◌>>=◌, return, read_uint32, read_uint16, read_bytes, write_uint32, write_uint16,
  write_bytes,
}
use node_red_contrib_opcua_s.Uadp.Text.{Text}

abbrev pub dash : ℕ
dash = b'-'

abbrev pub extend : ℕ → List Text → List Text
extend c [] = (c ∷ []) ∷ []
extend c (w ∷ ws) = (c ∷ w) ∷ ws

-- `s.split("-")`
unfoldable pub split : Text → List Text
split [] = [] ∷ []
split (c ∷ cs) = if c == dash then [] ∷ split cs else extend c (split cs)

unfoldable pub hex_value : ℕ → Option ℕ
hex_value c =
    if leb b'0' c && leb c b'9'
    then some (c - b'0')
    else if leb b'A' c && leb c b'F'
    then some (c - b'A' + 10)
    else if leb b'a' c && leb c b'f'
    then some (c - b'a' + 10)
    else none

unfoldable pub parse_digits : ℕ → Text → ℕ
parse_digits acc [] = acc
parse_digits acc (c ∷ cs) = elim (hex_value c) [
  | none ↦ acc
  | some d ↦ parse_digits (acc * 16 + d) cs
]

-- The spaces of Unicode (Zs) and its line separators.
unfoldable pub is_wide_space : ℕ → Bool
is_wide_space c =
    (c == 0x1680)
    || ((leb 0x2000 c && leb c 0x200a)
        || ((c == 0x2028)
            || ((c == 0x2029) || ((c == 0x202f) || ((c == 0x205f) || (c == 0x3000))))))

unfoldable pub is_space : ℕ → Bool
is_space c =
    (leb 9 c && leb c 13) || ((c == 32) || ((c == 0xa0) || ((c == 0xfeff) || is_wide_space c)))

unfoldable pub skip_spaces : Text → Text
unfolding is_space is_wide_space
skip_spaces [] = []
skip_spaces (c ∷ cs) = if is_space c then skip_spaces cs else c ∷ cs

unfoldable pub skip_sign : Text → Text
skip_sign [] = []
skip_sign (c ∷ cs) = if c == b'+' then cs else c ∷ cs

unfoldable pub skip_0x : Text → Text
skip_0x (a ∷ b ∷ cs) = if a == b'0' && (b == b'x' || b == b'X') then cs else a ∷ b ∷ cs
skip_0x cs = cs

-- `parseInt(s, 16)` as an integer write takes it: where there is no digit it is NaN, written as 0.
-- No part holds a minus sign, since the text was split there.
unfoldable pub parse_int16 : Text → ℕ
parse_int16 s = parse_digits 0 (skip_0x (skip_sign (skip_spaces s)))

-- `Buffer.from(s, "hex")` stops at the first pair that is not two hex digits.
unfoldable pub from_hex : Text → List ℕ
from_hex (a ∷ b ∷ cs) = elim (hex_value a) [
  | none ↦ []
  | some x ↦ elim (hex_value b) [ none ↦ [] | some y ↦ (x * 16 + y) ∷ from_hex cs ]
]
from_hex cs = []

unfoldable pub write_parts : List Text → Written
write_parts (a ∷ b ∷ c ∷ d ∷ e ∷ []) =
    write_uint32 (parse_int16 a)
    ⨟ write_uint16 (parse_int16 b)
    ⨟ write_uint16 (parse_int16 c)
    ⨟ write_bytes (from_hex (d ++ e))
write_parts ws = err invalid_guid

unfoldable pub write_guid : Text → Written
write_guid s = write_parts (split s)

unfoldable pub hex_digit : ℕ → ℕ
hex_digit d = if ltb d 10 then b'0' + d else b'a' + (d - 10)

-- `v.toString(16).padStart(n, "0")`, for a value of at most n digits.
unfoldable pub hex_fixed : ℕ → ℕ → Text
hex_fixed zero v = []
hex_fixed (suc n) v = hex_fixed n (v / 16) ++ (hex_digit (v % 16) ∷ [])

-- `toString("hex")`
unfoldable pub to_hex : List ℕ → Text
to_hex [] = []
to_hex (b ∷ bs) = hex_fixed 2 b ++ to_hex bs

unfoldable pub to_upper : ℕ → ℕ
to_upper c = if leb b'a' c && leb c b'z' then c - 32 else c

-- The text that the template literal builds.
unfoldable pub guid_text : ℕ → ℕ → ℕ → List ℕ → List ℕ → Text
guid_text d1 d2 d3 d4a d4b = map to_upper (
    hex_fixed 8 d1
    ++ (dash ∷ hex_fixed 4 d2)
    ++ (dash ∷ hex_fixed 4 d3)
    ++ (dash ∷ to_hex d4a)
    ++ (dash ∷ to_hex d4b))

unfoldable pub read_guid : Read Text
read_guid = do
  d1 ← read_uint32
  d2 ← read_uint16
  d3 ← read_uint16
  d4a ← read_bytes 2
  d4b ← read_bytes 6
  return (guid_text d1 d2 d3 d4a d4b)
